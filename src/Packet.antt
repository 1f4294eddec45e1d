-- ===== src/Packet.antt =====
-- The packets of client/network_interactions.c and the same code of server/network_interactions.c.
-- A block of memory is the list of its bytes, and an access outside it is a `fault`. What `malloc`
-- leaves in a new block is shown as zeros; every byte of it is written before it is read.
pub mod Building
pub mod Framing
pub mod Roundtrip
pub mod Untrusted
pub mod Memory
mod Examples
use quadrocopt.Base.{
  ℕ, zero, suc, ◌+◌, ◌-◌, ◌*◌, ◌/◌, ◌%◌, ◌^◌, List, [], ◌∷◌, replicate, get_elem?, Outcome, ok,
  exit, ◌>>=◌, or_fault, read_at, write_at,
}
use quadrocopt.Wire.{
  PacketT, pack_of_floats, init_pack, other, pack_type_to_bytes, char_arr_to_pack_type,
  uint_to_bytes_arr, bytes_arr_to_uint, FloatRepr, float_to_char_arr, char_arr_to_float,
}

-- `struct _Packet`, with the block that `buf` points to.
pub record Packet : Type 0 where
  pub type : PacketT
  pub length : ℕ  -- unsigned int
  pub buf : List ℕ

-- `sizeof(float)` and `sizeof(unsigned int)`.
abbrev pub word_size : ℕ
word_size = 4

unfoldable pub float_pack_to_bytes : Packet → Outcome (List ℕ)
float_pack_to_bytes pack = do
  let result_len = word_size * 2 + pack.length
  let buf : List ℕ = replicate result_len 0
  buf ← write_at buf 0 (pack_type_to_bytes pack.type)
  buf ← write_at buf word_size (uint_to_bytes_arr pack.length)
  contents ← read_at pack.buf 0 pack.length
  write_at buf (word_size * 2) contents

unfoldable pub pack_to_bytes : Packet → Outcome (List ℕ)
pack_to_bytes pack = elim (pack.type) [
  | pack_of_floats ↦ float_pack_to_bytes pack
  | init_pack ↦ float_pack_to_bytes pack
  | other n ↦ exit
]

unfoldable pub get_pack_bytes_size : Packet → ℕ
get_pack_bytes_size pack = (word_size * 2 + pack.length) % 2 ^ 32

unfoldable pub populate_pack_of_floats : List ℕ → PacketT → Outcome Packet
populate_pack_of_floats ca t = do
  len ← read_at ca word_size word_size
  p_len ← bytes_arr_to_uint len
  buf ← read_at ca (word_size * 2) p_len
  ok (record { type = t; length = p_len; buf = buf })

unfoldable pub bytes_to_pack : List ℕ → Outcome Packet
bytes_to_pack ca = do
  t_arr ← read_at ca 0 word_size
  t ← char_arr_to_pack_type t_arr
  elim t [
    | pack_of_floats ↦ populate_pack_of_floats ca pack_of_floats
    | init_pack ↦ populate_pack_of_floats ca init_pack
    | other n ↦ exit
  ]

unfoldable pub get_slice : List ℕ → (start end : ℕ) → Outcome (List ℕ)
get_slice buf start end = read_at buf start (end - start)

-- `-1` as a `size_t`.
unfoldable pub get_floats_count : Packet → ℕ
get_floats_count pack = elim (pack.type) [
  | pack_of_floats ↦ pack.length / word_size
  | init_pack ↦ 2 ^ 64 - 1
  | other n ↦ 2 ^ 64 - 1
]

module _ {F : Type 0} (r : FloatRepr F) where
  -- The loop of `fill_packet` at `i`, with `left` rounds to go.
  unfoldable pub fill_loop : (left i offset : ℕ) → List F → List ℕ → Outcome (List ℕ)
  fill_loop zero i offset buf pack_buf = ok pack_buf
  fill_loop (suc left) i offset buf pack_buf = do
    current_float ← or_fault (get_elem? buf i)
    pack_buf ← write_at pack_buf offset (float_to_char_arr r current_float)
    fill_loop left (i + 1) (offset + 4) buf pack_buf

  -- `pack->length` is an `unsigned int`, so the size is cut off to 32 bits. The caller sets the type.
  unfoldable pub fill_packet : PacketT → List F → (len : ℕ) → Outcome Packet
  fill_packet t buf len = do
    pack_buf ← fill_loop len 0 0 buf (replicate (word_size * len) 0)
    ok (record { type = t; length = (len * word_size) % 2 ^ 32; buf = pack_buf })

  unfoldable pub gen_packet_from_floats : List F → (len : ℕ) → Outcome Packet
  gen_packet_from_floats buf len = fill_packet pack_of_floats buf len

  unfoldable pub gen_init_pack : List F → (len : ℕ) → Outcome Packet
  gen_init_pack buf len = fill_packet init_pack buf len

  -- The loop of `get_floats`, and the floats that it stores from `i` on.
  unfoldable pub get_floats_loop : (left offset : ℕ) → List ℕ → Outcome (List F)
  get_floats_loop zero offset buf = ok []
  get_floats_loop (suc left) offset buf = do
    slice ← get_slice buf offset (offset + word_size)
    f ← char_arr_to_float r slice
    rest ← get_floats_loop left (offset + 4) buf
    ok (f ∷ rest)

  unfoldable pub get_floats : Packet → Outcome (List F)
  get_floats pack = get_floats_loop (pack.length / word_size) 0 pack.buf
