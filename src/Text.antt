-- ===== src/Text.antt =====
-- Texts as C keeps them, bytes up to a NUL in blocks of memory, and what the programs make of them:
-- `float_arr_to_string` and `gen_file_name` of client/io_stuff.c, which server/io_stuff.c repeats,
-- `get_listener_msg` and `listener_error_exit` of server/run_listener.c, and the array of floats of
-- client/utils.c with its text in `print` of client/run_printer.c. How `printf` writes a number and
-- `ctime` a time are parameters, and so is what new memory holds.
pub mod Strings
pub mod Joining
pub mod Messages
pub mod FileName
mod Examples
use quadrocopt.Base.{
  ℕ, zero, suc, ◌+◌, ◌-◌, ◌/◌, List, [], ◌∷◌, ◌++◌, length, take, get_elem?, Option, none, some,
  Outcome, ok, fault, ◌>>=◌, or_fault, read_at, write_at,
}

-- Until the first NUL; a block without one is read beyond its end.
abbrev pub strlen : List ℕ → Outcome ℕ
strlen [] = fault
strlen (zero ∷ s) = ok 0
strlen (suc c ∷ s) = do n ← strlen s; ok (suc n)

-- `snprintf` of a text into the first `size` bytes of a block, for a `size` above 0.
abbrev pub snprintf : (buf : List ℕ) (size : ℕ) (text : List ℕ) → Outcome (List ℕ)
snprintf buf size text = write_at buf 0 (take (size - 1) text ++ 0 ∷ [])

-- The first `len` bytes of a text and a NUL, into a block.
abbrev pub write_terminated : (block text : List ℕ) (len : ℕ) → Outcome (List ℕ)
write_terminated block text len = do block ← write_at block 0 text; write_at block len (0 ∷ [])

-- The new memory that `malloc` gives holds anything.
module _ {F : Type 0} (malloc : ℕ → List ℕ) (format_f : F → List ℕ) where
  -- One round of the first loop of `float_arr_to_string`: `fl_repr` and `buf` after it.
  abbrev pub float_repr : (buf : List ℕ) → F → Outcome (List ℕ × List ℕ)
  float_repr buf curr_float = do
    buf ← snprintf buf 100 (format_f curr_float)
    fl_len ← strlen buf
    text ← read_at buf 0 fl_len
    fl_repr ← write_terminated (malloc (fl_len + 1)) text fl_len
    ok (fl_repr, buf)

  -- The rounds of that loop from `i` on, for as many as are left.
  abbrev pub strings_loop :
      (left i total_len : ℕ) → List F → (buf : List ℕ) → Outcome (List (List ℕ) × ℕ)
  strings_loop zero i total_len arr buf = ok ([], total_len)
  strings_loop (suc left) i total_len arr buf = do
    curr_float ← or_fault (get_elem? arr i)
    made ← float_repr buf curr_float
    fl_len ← strlen made.0
    rest ← strings_loop left (i + 1) (total_len + (fl_len + 1)) arr made.1
    ok (made.0 ∷ rest.0, rest.1)

  -- The second loop, over the rest of `float_strings`: `result` and `curr_offset`.
  abbrev pub append_loop :
      (float_strings : List (List ℕ)) (curr_offset : ℕ) (result : List ℕ) → Outcome (List ℕ × ℕ)
  append_loop [] curr_offset result = ok (result, curr_offset)
  append_loop (curr_fl_repr ∷ float_strings) curr_offset result = do
    fl_len ← strlen curr_fl_repr
    text ← read_at curr_fl_repr 0 fl_len
    result ← write_at result curr_offset text
    result ← write_at result (curr_offset + fl_len) (32 ∷ [])
    append_loop float_strings (curr_offset + (fl_len + 1)) result

  -- `stack` is what `buf` holds at the start.
  unfoldable pub float_arr_to_string :
      (stack : List ℕ) → Option (List F) → (arr_len : ℕ) → Outcome (List ℕ)
  float_arr_to_string stack none arr_len = ok (0 ∷ [])
  float_arr_to_string stack (some arr) zero = ok (0 ∷ [])
  float_arr_to_string stack (some arr) (suc n) = do
    strings ← strings_loop (suc n) 0 0 arr stack
    filled ← append_loop strings.0 0 (malloc strings.1)
    write_at filled.0 (filled.1 - 1) (0 ∷ [])

-- `FloatArray` of client/utils.c, with the floats that `arr` points to.
pub record FloatArray (F : Type 0) : Type 0 where
  pub arr : List F
  pub arr_len : ℕ

module _ {F : Type 0} where
  unfoldable pub initialize_float_array : (arr : List F) (arr_len : ℕ) → Outcome (FloatArray F)
  initialize_float_array arr arr_len = do
    copy ← read_at arr 0 arr_len
    ok (record { arr = copy; arr_len = arr_len })

  -- The text of a message that is an array of floats, in `print`; a `float` has four bytes.
  unfoldable pub str_to_print :
      (malloc : ℕ → List ℕ) (format_f : F → List ℕ) (stack : List ℕ)
      → FloatArray F
      → Outcome (List ℕ)
  str_to_print malloc format_f stack float_arr =
      float_arr_to_string malloc format_f stack (some float_arr.arr) (float_arr.arr_len / 4)
