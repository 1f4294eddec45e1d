-- ===== src/Text/Joining.antt =====
-- The text of an array of floats: the texts of the floats with a space between them.
use quadrocopt.Base.{
  ℕ, zero, suc, ◌+◌, ◌-◌, ◌/◌, ◌<◌, ◌≤◌, ◌≡◌, refl, ap, arith, List, [], ◌∷◌, ◌++◌, length, take,
  All, map, some, ok, ◌>>=◌, read_at-append, read_at-ok, write_at-append, get_elem?-append,
  length-append, length-take,
}
use mathlib.Core.List.{append-nil, append_assoc}
use quadrocopt.Text.{
  float_repr, strings_loop, append_loop, float_arr_to_string, initialize_float_array, str_to_print,
}
use quadrocopt.Text.Strings.{
  IsText, strlen-append, write_at-end, write_terminated-ok, snprintf-Written,
}

-- What `printf` and `malloc` are relied on for: the text of a float has no NUL in it and less than
-- 100 bytes, and a block has the size that was asked for.
pub record IsPrinting {F : Type 0} (malloc : ℕ → List ℕ) (format_f : F → List ℕ) : Type 0 where
  pub text : (x : F) → IsText (format_f x)
  pub short : (x : F) → length (format_f x) < 100
  pub size : (n : ℕ) → length (malloc n) ≡ n

-- Texts with a space between two.
abbrev pub joined : List (List ℕ) → List ℕ
joined [] = []
joined (s ∷ []) = s
joined (s ∷ t ∷ ss) = s ++ 32 ∷ joined (t ∷ ss)

-- Texts with a space after each.
abbrev spaced : List (List ℕ) → List ℕ
spaced [] = []
spaced (s ∷ ss) = (s ++ 32 ∷ []) ++ spaced ss

abbrev terminated : List (List ℕ) → List (List ℕ)
terminated = map (λ s. s ++ 0 ∷ [])

spaced-joined : (s : List ℕ) (ss : List (List ℕ)) → spaced (s ∷ ss) ≡ joined (s ∷ ss) ++ 32 ∷ []
spaced-joined s [] = append-nil (s ++ 32 ∷ [])
spaced-joined s (t ∷ ss) = rw (spaced-joined t ss) (
    rw (append_assoc s (32 ∷ []) (joined (t ∷ ss) ++ 32 ∷ []))
      (rw (append_assoc s (32 ∷ joined (t ∷ ss)) (32 ∷ [])) refl))

split_at :
    (n : ℕ) (l : List ℕ)
    → n < length l
    → (xs : List ℕ) × (y : ℕ) × (zs : List ℕ) × (l ≡ xs ++ y ∷ zs) × (length xs ≡ n)
split_at n [] within = absurd (omega arith)
split_at zero (x ∷ l) within = ([], x, l, refl, refl)
split_at (suc n) (x ∷ l) within =
    let (xs, y, zs, e, d) = split_at n l (omega arith) in
    (x ∷ xs, y, zs, ap (λ r. x ∷ r) e, ap suc d)

module _ {F : Type 0} {malloc : ℕ → List ℕ} {format_f : F → List ℕ}
    (is : IsPrinting malloc format_f) where
  record Made (buf : List ℕ) (x : F) : Type 0 where
    pub buf' : List ℕ
    pub makes : float_repr malloc format_f buf x ≡ ok (format_f x ++ 0 ∷ [], buf')
    pub count : length buf' ≡ 100

  float_repr-Made : (buf : List ℕ) (x : F) → length buf ≡ 100 → Made buf x
  float_repr-Made buf x len =
      let text = format_f x in
      let n = length text in
      let w = snprintf-Written buf text 100 (is.short x) (omega arith) in
      let new = malloc (n + 1) in
      record {
        buf' = text ++ 0 ∷ w.rest;
        makes = rw w.writes (
            rw (strlen-append text w.rest (is.text x)) (
              rw (read_at-append [] text (0 ∷ w.rest) 0 n refl refl)
                (rw (write_terminated-ok new text (is.size (n + 1))) refl)));
        count = omega (arith, w.count, length-append text (0 ∷ w.rest));
      }

  strings_loop-terminated :
      (left i total_len : ℕ) (before xs : List F) (buf : List ℕ)
      → length buf ≡ 100
      → i ≡ length before
      → left ≤ length xs
      → strings_loop malloc format_f left i total_len (before ++ xs) buf
        ≡ ok (
          terminated (map format_f (take left xs)),
          total_len + length (spaced (map format_f (take left xs))),
        )
  strings_loop-terminated zero i total_len before xs buf len at within =
      let e : total_len + 0 ≡ total_len = omega arith in rw e refl
  strings_loop-terminated (suc left) i total_len before [] buf len at within = absurd (omega arith)
  strings_loop-terminated (suc left) i total_len before (x ∷ xs) buf len at within =
      let r = float_repr-Made buf x len in
      let n = length (format_f x) in
      let rest = spaced (map format_f (take left xs)) in
      let sum : total_len + length ((format_f x ++ 32 ∷ []) ++ rest)
          ≡ total_len + (n + 1) + length rest =
        omega (
          arith,
          length-append (format_f x ++ 32 ∷ []) rest,
          length-append (format_f x) (32 ∷ []),
        ) in
      rw at (
        rw (get_elem?-append before xs x) (
          rw r.makes (
            rw (strlen-append (format_f x) [] (is.text x)) (
              rw (← append_assoc before (x ∷ []) xs) (
                rw
                  (strings_loop-terminated left (length before + 1) (total_len + (n + 1))
                    (before ++ x ∷ []) xs r.buf' r.count
                    (omega (arith, length-append before (x ∷ []))) (omega arith))
                  (rw sum refl))))))

append_loop-spaced :
    {F : Type 0} (malloc : ℕ → List ℕ) (format_f : F → List ℕ) (ss : List (List ℕ))
    (curr_offset : ℕ) (done free : List ℕ)
    → All IsText ss
    → curr_offset ≡ length done
    → length free ≡ length (spaced ss)
    → append_loop malloc format_f (terminated ss) curr_offset (done ++ free)
      ≡ ok (done ++ spaced ss, curr_offset + length (spaced ss))
append_loop-spaced malloc format_f [] curr_offset done [] is at room =
    let e : curr_offset + 0 ≡ curr_offset = omega arith in rw e refl
append_loop-spaced malloc format_f [] curr_offset done (x ∷ free) is at room = absurd (omega arith)
append_loop-spaced malloc format_f (s ∷ ss) curr_offset done free is at room =
    let n = length s in
    let rest = spaced ss in
    let whole : length ((s ++ 32 ∷ []) ++ rest) ≡ n + 1 + length rest =
      omega (arith, length-append (s ++ 32 ∷ []) rest, length-append s (32 ∷ [])) in
    let (xs, y, zs, cut, len) = split_at n free (omega arith) in
    let here : length free ≡ n + suc (length zs) =
      omega (arith, ap length cut, length-append xs (y ∷ zs)) in
    let next =
      append_loop-spaced malloc format_f ss (curr_offset + (n + 1)) ((done ++ s) ++ 32 ∷ []) zs is.1
        (omega (arith, length-append (done ++ s) (32 ∷ []), length-append done s)) (omega arith) in
    let text : done ++ ((s ++ 32 ∷ []) ++ rest) ≡ ((done ++ s) ++ 32 ∷ []) ++ rest =
      rw (append_assoc (done ++ s) (32 ∷ []) rest)
        (rw (append_assoc s (32 ∷ []) rest) (rw (append_assoc done s (32 ∷ rest)) refl)) in
    let sum : curr_offset + length ((s ++ 32 ∷ []) ++ rest) ≡ curr_offset + (n + 1) + length rest =
      omega arith in
    rw (strlen-append s [] is.0) (
      rw (read_at-append [] s (0 ∷ []) 0 n refl refl) (
        rw cut (
          rw (write_at-append done xs (y ∷ zs) s curr_offset at (omega arith)) (
            rw (← append_assoc done s (y ∷ zs)) (
              rw
                (write_at-append (done ++ s) (y ∷ []) zs (32 ∷ []) (curr_offset + n)
                  (omega (arith, length-append done s)) refl)
                (rw (← append_assoc (done ++ s) (32 ∷ []) zs)
                  (rw next (rw text (rw sum refl)))))))))

texts :
    {F : Type 0} {malloc : ℕ → List ℕ} {format_f : F → List ℕ}
    → IsPrinting malloc format_f
    → (xs : List F) → All IsText (map format_f xs)
texts is [] = tt
texts is (x ∷ xs) = (is.text x, texts is xs)

-- The first floats of an array, as many as are asked for and no more than it has, where the text
-- of a float has no NUL and less than 100 bytes: their texts are joined with a space between them
-- and ended by a NUL, and no access leaves a block.
pub float_arr_to_string-joined :
    {F : Type 0} {malloc : ℕ → List ℕ} {format_f : F → List ℕ} (stack : List ℕ) (xs : List F)
    (arr_len : ℕ)
    → IsPrinting malloc format_f
    → length stack ≡ 100
    → arr_len ≤ length xs
    → float_arr_to_string malloc format_f stack (some xs) arr_len
      ≡ ok (joined (map format_f (take arr_len xs)) ++ 0 ∷ [])
unfolding float_arr_to_string
float_arr_to_string-joined stack xs zero is len within = refl
float_arr_to_string-joined stack [] (suc n) is len within = absurd (omega arith)
float_arr_to_string-joined {malloc = malloc} {format_f = format_f} stack (x ∷ xs) (suc n) is len
      within =
    let s = format_f x in
    let ss = map format_f (take n xs) in
    let size : length (malloc (0 + length (spaced (s ∷ ss)))) ≡ length (spaced (s ∷ ss)) =
      omega (arith, is.size (0 + length (spaced (s ∷ ss)))) in
    let ends = spaced-joined s ss in
    rw (strings_loop-terminated is (suc n) 0 0 [] (x ∷ xs) stack len refl within) (
      rw
        (append_loop-spaced malloc format_f (s ∷ ss) 0 [] (malloc (0 + length (spaced (s ∷ ss))))
          (texts is (x ∷ take n xs)) refl size)
        (rw ends (
          write_at-end (joined (s ∷ ss)) (32 ∷ []) (0 ∷ [])
            (0 + length (joined (s ∷ ss) ++ 32 ∷ []) - 1)
            (omega (arith, length-append (joined (s ∷ ss)) (32 ∷ []))) refl)))

take-take : {A : Type 0} (m n : ℕ) (l : List A) → m ≤ n → take m (take n l) ≡ take m l
take-take zero n l h = refl
take-take (suc m) zero l h = absurd (omega arith)
take-take (suc m) (suc n) [] h = refl
take-take (suc m) (suc n) (x ∷ l) h = ap (λ r. x ∷ r) (take-take m n l (omega arith))

-- A message made of the first floats of an array, where the text of a float has no NUL and less
-- than 100 bytes: what print makes of it has a quarter of them, rounded down, since it divides
-- their number by the bytes of a float.
pub str_to_print-quarter :
    {F : Type 0} {malloc : ℕ → List ℕ} {format_f : F → List ℕ} (stack : List ℕ) (xs : List F)
    (arr_len : ℕ)
    → IsPrinting malloc format_f
    → length stack ≡ 100
    → arr_len ≤ length xs
    → (initialize_float_array xs arr_len >>= str_to_print malloc format_f stack)
      ≡ ok (joined (map format_f (take (arr_len / 4) xs)) ++ 0 ∷ [])
unfolding initialize_float_array str_to_print
str_to_print-quarter stack xs arr_len is len within = rw (read_at-ok xs 0 arr_len (omega arith)) (
    rw (← take-take (arr_len / 4) arr_len xs (omega arith)) (
      float_arr_to_string-joined stack (take arr_len xs) (arr_len / 4) is len
        (omega (arith, length-take arr_len xs))))
