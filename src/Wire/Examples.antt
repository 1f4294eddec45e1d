-- ===== src/Wire/Examples.antt =====
-- Tests of the codec, and its theorems at concrete values.
use quadrocopt.Base.{◌≡◌, refl, [], ◌∷◌, ◌++◌, arith, ok, ◌>>=◌, fault}
use quadrocopt.Wire.{uint_to_bytes_arr, bytes_arr_to_uint, float_to_char_arr}
use quadrocopt.Wire.Bytes.{
  bytes_arr_to_uint-uint_to_bytes_arr, uint_to_bytes_arr-bytes_arr_to_uint, bytes_arr_to_uint-fault,
}
use quadrocopt.Wire.Samples.{samples, minus_one}

bytes_of_word : uint_to_bytes_arr 0xbf80_0001 ≡ 0x01 ∷ 0x00 ∷ 0x80 ∷ 0xbf ∷ []
unfolding uint_to_bytes_arr
bytes_of_word = refl

minus_one_bytes : float_to_char_arr samples minus_one ≡ 0 ∷ 0 ∷ 0x80 ∷ 0xbf ∷ []
unfolding float_to_char_arr uint_to_bytes_arr
minus_one_bytes = refl

number_again : bytes_arr_to_uint (uint_to_bytes_arr 0xdead_beef ++ 7 ∷ []) ≡ ok 0xdead_beef
number_again = bytes_arr_to_uint-uint_to_bytes_arr 0xdead_beef (7 ∷ []) (omega arith)

bytes_again :
    (bytes_arr_to_uint (0xff ∷ 0x80 ∷ 0x7f ∷ 0x00 ∷ 9 ∷ []) >>= λ n. ok (uint_to_bytes_arr n))
    ≡ ok (0xff ∷ 0x80 ∷ 0x7f ∷ 0x00 ∷ [])
bytes_again =
    uint_to_bytes_arr-bytes_arr_to_uint 0xff 0x80 0x7f 0x00 (9 ∷ []) (omega arith) (omega arith)
      (omega arith) (omega arith)

three_bytes : bytes_arr_to_uint (1 ∷ 2 ∷ 3 ∷ []) ≡ fault
three_bytes = bytes_arr_to_uint-fault (1 ∷ 2 ∷ 3 ∷ []) (omega arith)
