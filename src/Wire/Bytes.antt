-- ===== src/Wire/Bytes.antt =====
-- Unsigned integers as four bytes: both directions, and the bytes that are missing.
use quadrocopt.Base.{
  ℕ, ◌+◌, ◌*◌, ◌/◌, ◌%◌, ◌^◌, ◌<◌, ◌≡◌, refl, bit_and, List, [], ◌∷◌, ◌++◌, arith, length, ok,
  fault, ◌>>=◌, ap, ◌∙◌,
}
use quadrocopt.Base.Bits.{bit_and_byte, bit_and_shift, bit_or_above, bit_or_zero_left}
use quadrocopt.Wire.{promote, shl, uint_to_bytes_arr, bytes_arr_to_uint}

-- Four bytes, as the number that they stand for.
abbrev pub little_endian : ℕ → ℕ → ℕ → ℕ → ℕ
little_endian a b c d = a + b * 2 ^ 8 + c * 2 ^ 16 + d * 2 ^ 24

-- The mask takes the bits of the promoted sign away again.
field_0 : (c : ℕ) → c < 256 → bit_and (shl (promote c) 0) (shl 0xff 0) ≡ c
field_0 c h = ground (arith, bit_and_byte (promote c))

field :
    (k m c : ℕ)
    → shl (promote c) k ≡ m * 2 ^ k
    → m % 256 ≡ c
    → shl 0xff k ≡ 0xff * 2 ^ k
    → bit_and (shl (promote c) k) (shl 0xff k) ≡ c * 2 ^ k
field k m c e d f = rw (e, f) (bit_and_shift k m 0xff ∙ ap (λ t. t * 2 ^ k) (bit_and_byte m ∙ d))

field_8 : (c : ℕ) → c < 256 → bit_and (shl (promote c) 8) (shl 0xff 8) ≡ c * 2 ^ 8
field_8 c h = field 8 (promote c % 2 ^ 24) c (ground arith) (ground arith) refl

field_16 : (c : ℕ) → c < 256 → bit_and (shl (promote c) 16) (shl 0xff 16) ≡ c * 2 ^ 16
field_16 c h = field 16 (promote c % 2 ^ 16) c (ground arith) (ground arith) refl

field_24 : (c : ℕ) → c < 256 → bit_and (shl (promote c) 24) (shl 0xff 24) ≡ c * 2 ^ 24
field_24 c h = field 24 (promote c % 2 ^ 8) c (ground arith) (ground arith) refl

pub bytes_arr_to_uint-cons :
    (a b c d : ℕ) (rest : List ℕ)
    → a < 256
    → b < 256
    → c < 256
    → d < 256
    → bytes_arr_to_uint (a ∷ b ∷ c ∷ d ∷ rest) ≡ ok (little_endian a b c d)
unfolding bytes_arr_to_uint
bytes_arr_to_uint-cons a b c d rest ha hb hc hd =
    rw (field_0 a ha, field_8 b hb, field_16 c hc, field_24 d hd)
      (rw (bit_or_zero_left a) (
        rw (bit_or_above 8 a b (omega arith)) (
          rw (bit_or_above 16 (a + b * 2 ^ 8) c (omega arith))
            (rw (bit_or_above 24 (a + b * 2 ^ 8 + c * 2 ^ 16) d (omega arith))))))

pub uint_to_bytes_arr-eq :
    (n : ℕ)
    → n < 2 ^ 32
    → uint_to_bytes_arr n ≡ n % 256 ∷ n / 2 ^ 8 % 256 ∷ n / 2 ^ 16 % 256 ∷ n / 2 ^ 24 % 256 ∷ []
unfolding uint_to_bytes_arr
uint_to_bytes_arr-eq n h =
    let e : n / 2 ^ 0 ≡ n = omega arith in
    rw (bit_and_byte (n / 2 ^ 8), bit_and_byte (n / 2 ^ 16), bit_and_byte (n / 2 ^ 24))
      (rw e (rw (bit_and_byte n)))

pub length-uint_to_bytes_arr : (n : ℕ) → length (uint_to_bytes_arr n) ≡ 4
unfolding uint_to_bytes_arr
length-uint_to_bytes_arr n = refl

-- An unsigned int below 2 ^ 32 written as bytes, with anything behind them, reads back as itself.
pub bytes_arr_to_uint-uint_to_bytes_arr :
    (n : ℕ) (rest : List ℕ) → n < 2 ^ 32 → bytes_arr_to_uint (uint_to_bytes_arr n ++ rest) ≡ ok n
bytes_arr_to_uint-uint_to_bytes_arr n rest h = rw (uint_to_bytes_arr-eq n h) (
    bytes_arr_to_uint-cons (n % 256) (n / 2 ^ 8 % 256) (n / 2 ^ 16 % 256) (n / 2 ^ 24 % 256) rest
      (omega arith) (omega arith) (omega arith) (omega arith)
    ∙ ap ok (omega arith))

-- Four bytes read as a number are written back as the same bytes.
pub uint_to_bytes_arr-bytes_arr_to_uint :
    (a b c d : ℕ) (rest : List ℕ)
    → a < 256
    → b < 256
    → c < 256
    → d < 256
    → (bytes_arr_to_uint (a ∷ b ∷ c ∷ d ∷ rest) >>= λ n. ok (uint_to_bytes_arr n))
      ≡ ok (a ∷ b ∷ c ∷ d ∷ [])
uint_to_bytes_arr-bytes_arr_to_uint a b c d rest ha hb hc hd =
    rw (bytes_arr_to_uint-cons a b c d rest ha hb hc hd)
      (rw (uint_to_bytes_arr-eq (little_endian a b c d) (omega arith)) (ground arith))

-- A read of fewer than four bytes runs past the end of the array.
pub bytes_arr_to_uint-fault : (ca : List ℕ) → length ca < 4 → bytes_arr_to_uint ca ≡ fault
unfolding bytes_arr_to_uint
bytes_arr_to_uint-fault [] h = refl
bytes_arr_to_uint-fault (a ∷ []) h = refl
bytes_arr_to_uint-fault (a ∷ b ∷ []) h = refl
bytes_arr_to_uint-fault (a ∷ b ∷ c ∷ []) h = refl
bytes_arr_to_uint-fault (a ∷ b ∷ c ∷ d ∷ rest) h = absurd (omega arith)
