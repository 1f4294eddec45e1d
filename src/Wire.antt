-- ===== src/Wire.antt =====
-- The byte codec of client/io_stuff.c, which server/io_stuff.c repeats word for word: unsigned
-- integers, floats and packet types as four bytes, least significant first.
-- A `char` is its bit pattern, a number below 256, and an `unsigned int` a number below 2 ^ 32.
pub mod Bytes
pub mod Floats
pub mod Samples
mod Examples
use quadrocopt.Base.{
  ℕ, zero, suc, ◌+◌, ◌-◌, ◌*◌, ◌/◌, ◌%◌, ◌^◌, ◌<◌, ◌≡◌, bit_and, bit_or, List, [], ◌∷◌, ltb, ◌==◌,
  if◌then◌else◌, get_elem?, Outcome, ok, ◌>>=◌, or_fault,
}

abbrev u32 : ℕ → ℕ
u32 n = n % 2 ^ 32

-- `char` is signed: its promotion to `int` repeats the top bit, here as a 32-bit pattern.
abbrev promote : ℕ → ℕ
promote c = if ltb c 128 then c else c + (2 ^ 32 - 256)

-- `x << k` and `x >> k` on 32 bits.
abbrev shl : ℕ → ℕ → ℕ
shl x k = u32 (x * 2 ^ k)

abbrev shr : ℕ → ℕ → ℕ
shr x k = x / 2 ^ k

-- The loop at `i`, with `left` rounds to go, and the bytes that it stores from there on.
bytes_loop : (left i : ℕ) → ℕ → List ℕ
bytes_loop zero i int_repr = []
bytes_loop (suc left) i int_repr =
    bit_and (shr int_repr (8 * i)) 0xff ∷ bytes_loop left (i + 1) int_repr

unfoldable pub uint_to_bytes_arr : ℕ → List ℕ
unfolding bytes_loop
uint_to_bytes_arr int_repr = bytes_loop 4 0 int_repr

uint_loop : (left i : ℕ) → List ℕ → ℕ → Outcome ℕ
uint_loop zero i ca result = ok result
uint_loop (suc left) i ca result = do
  c ← or_fault (get_elem? ca i)
  uint_loop left (i + 1) ca (bit_or result (bit_and (shl (promote c) (8 * i)) (shl 0xff (8 * i))))

unfoldable pub bytes_arr_to_uint : List ℕ → Outcome ℕ
unfolding uint_loop
bytes_arr_to_uint ca = uint_loop 4 0 ca 0

-- `enum _packet_t`. A value of the enum that is no enumerator is `other`.
pub data PacketT : Type 0 where
  pack_of_floats : PacketT
  init_pack : PacketT
  other : ℕ → PacketT

-- The conversions between the enum and `unsigned int`.
abbrev pub to_uint : PacketT → ℕ
to_uint pack_of_floats = 0
to_uint init_pack = 1
to_uint (other n) = n

abbrev pub of_uint : ℕ → PacketT
of_uint n = if n == 0 then pack_of_floats else if n == 1 then init_pack else other n

unfoldable pub pack_type_to_bytes : PacketT → List ℕ
pack_type_to_bytes t = uint_to_bytes_arr (to_uint t)

unfoldable pub char_arr_to_pack_type : List ℕ → Outcome PacketT
char_arr_to_pack_type ca = do ui_repr ← bytes_arr_to_uint ca; ok (of_uint ui_repr)

-- The memory of a `float`: the 32 bits that `*((int*)&f)` reads, and back.
pub record FloatRepr (F : Type 0) : Type 0 where
  pub bits : F → ℕ
  pub of_bits : ℕ → F
  pub bits_lt : (f : F) → bits f < 2 ^ 32
  pub of_bits-bits : (f : F) → of_bits (bits f) ≡ f

module _ {F : Type 0} (r : FloatRepr F) where
  open r use {bits, of_bits}

  unfoldable pub float_to_char_arr : F → List ℕ
  float_to_char_arr f = uint_to_bytes_arr (bits f)

  unfoldable pub char_arr_to_float : List ℕ → Outcome F
  char_arr_to_float ca = do ui_result ← bytes_arr_to_uint ca; ok (of_bits ui_result)
