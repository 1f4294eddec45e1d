-- ===== src/Text/Examples.antt =====
-- Texts made of concrete numbers, messages and times, and the theorems of Text at them.
use quadrocopt.Base.{
  ℕ, ◌+◌, ◌≡◌, refl, arith, List, [], ◌∷◌, ◌++◌, replicate, length-replicate, some, ok, ◌>>=◌,
}
use quadrocopt.Text.{float_arr_to_string, initialize_float_array, str_to_print}
use quadrocopt.Text.Joining.{IsPrinting, float_arr_to_string-joined, str_to_print-quarter}
use quadrocopt.Text.Messages.{
  prefix_listener, colon, get_listener_msg, listener_error_msg, get_listener_msg-whole,
}
use quadrocopt.Text.FileName.{gen_file_name, gen_file_name-all_but_six}

-- New memory full of sevens; a number is written as one digit.
abbrev sevens : ℕ → List ℕ
sevens n = replicate n 7

abbrev digit : ℕ → List ℕ
digit d = (48 + d) ∷ []

digit-IsPrinting : IsPrinting sevens digit
digit-IsPrinting = record {
  text = λ d. (λ e. omega arith, tt);
  short = λ d. omega arith;
  size = λ n. length-replicate n 7;
}

-- "1 2 3".
float_arr_to_string-joined_example :
    float_arr_to_string sevens digit (sevens 100) (some (1 ∷ 2 ∷ 3 ∷ 4 ∷ [])) 3
    ≡ ok (49 ∷ 32 ∷ 50 ∷ 32 ∷ 51 ∷ 0 ∷ [])
float_arr_to_string-joined_example =
    float_arr_to_string-joined (sevens 100) (1 ∷ 2 ∷ 3 ∷ 4 ∷ []) 3 digit-IsPrinting refl
      (omega arith)

-- The five floats that the client keeps for its printer: the text has the first of them.
str_to_print-quarter_example :
    (initialize_float_array (1 ∷ 2 ∷ 3 ∷ 4 ∷ 5 ∷ []) 5 >>= str_to_print sevens digit (sevens 100))
    ≡ ok (49 ∷ 0 ∷ [])
str_to_print-quarter_example =
    str_to_print-quarter (sevens 100) (1 ∷ 2 ∷ 3 ∷ 4 ∷ 5 ∷ []) 5 digit-IsPrinting refl (omega arith)

abbrev whole : List ℕ
whole = prefix_listener ++ (digit 2 ++ (colon ++ 79 ∷ 75 ∷ []))

listener_sevens :
    (rest : List ℕ) × (get_listener_msg sevens digit (79 ∷ 75 ∷ 0 ∷ []) 2 ≡ ok (whole ++ 0 ∷ rest))
    × (listener_error_msg sevens (whole ++ 0 ∷ rest) ≡ ok (whole ++ 0 ∷ []))
listener_sevens =
    get_listener_msg-whole sevens sevens digit (79 ∷ 75 ∷ []) [] 2 (λ n. length-replicate n 7)
      (λ n. length-replicate n 7) (λ e. cc, (λ e. cc, tt)) (λ e. cc, tt) (omega arith)

-- "./log/REC_1_2" of the time "1 234567\n", with nothing known of the six bytes before the NUL.
gen_file_name-all_but_six_example :
    gen_file_name sevens (sevens 255) (49 ∷ 32 ∷ 50 ∷ 51 ∷ 52 ∷ 53 ∷ 54 ∷ 55 ∷ 10 ∷ 0 ∷ [])
    ≡ ok (
        46 ∷ 47 ∷ 108 ∷ 111 ∷ 103 ∷ 47 ∷ 82 ∷ 69 ∷ 67 ∷ 95 ∷ 49 ∷ 95 ∷ 50 ∷ 7 ∷ 7 ∷ 7 ∷ 7 ∷ 7 ∷ 7
        ∷ 0 ∷ [])
gen_file_name-all_but_six_example =
    gen_file_name-all_but_six sevens (sevens 255) (49 ∷ 32 ∷ 50 ∷ 51 ∷ 52 ∷ 53 ∷ 54 ∷ 55 ∷ 10 ∷ [])
      [] (λ n. length-replicate n 7) refl
      (
        λ e. cc,
        (λ e. cc, (λ e. cc, (λ e. cc, (λ e. cc, (λ e. cc, (λ e. cc, (λ e. cc, (λ e. cc, tt)))))))),
      )
      (omega arith)
