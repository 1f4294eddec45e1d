-- ===== src/Packet/Memory.antt =====
-- The packets of network_interactions.c in the memory that they allocate and free: the structure, the
-- block of its payload, and every block that a conversion makes on the way. And what is done with
-- them: the sends of client/run_sender.c and server/run_sender.c, and a datagram in both
-- run_listener.c. The block of a structure has no bytes here: its fields are in `PacketAt`.
pub mod Laws
pub mod Building
pub mod Framing
pub mod Parsing
pub mod Freeing
pub mod Prepared
pub mod Sending
pub mod Longer
pub mod Listening
mod Examples
use quadrocopt.Base.{
  Bool, true, false, ℕ, zero, suc, ◌+◌, ◌*◌, ◌%◌, ◌^◌, List, [], ◌∷◌, ◌++◌, length, replicate,
  get_elem?, none, some, Outcome, ok, exit, ◌>>=◌, or_fault, read_at, write_at,
}
use quadrocopt.Heap.{Ptr, Heap, deref, free}
use quadrocopt.Wire.{
  PacketT, pack_of_floats, init_pack, other, pack_type_to_bytes, char_arr_to_pack_type,
  uint_to_bytes_arr, bytes_arr_to_uint, FloatRepr, float_to_char_arr,
}
use quadrocopt.Packet.{word_size}

pub record PacketAt : Type 0 where
  pub self : Ptr
  pub type : PacketT
  pub length : ℕ  -- unsigned int
  pub buf : Ptr

-- A new block at the end of the heap.
abbrev pub malloc : Heap ℕ → List ℕ → Ptr × Heap ℕ
malloc h b = (some (length h), h ++ some b ∷ [])

abbrev pub store_at : Heap ℕ → ℕ → List ℕ → Heap ℕ
store_at [] i b = []
store_at (c ∷ h) zero b = some b ∷ h
store_at (c ∷ h) (suc i) b = c ∷ store_at h i b

abbrev pub store : Heap ℕ → Ptr → List ℕ → Heap ℕ
store h p b = elim p [ none ↦ h | some i ↦ store_at h i b ]

-- `memcpy(dest + offset, src + start, n)`.
unfoldable pub memcpy :
    Heap ℕ → (dest : Ptr) (offset : ℕ) (src : Ptr) (start n : ℕ) → Outcome (Heap ℕ)
memcpy h dest offset src start n = do
  from ← deref h src
  bytes ← read_at from start n
  to ← deref h dest
  written ← write_at to offset bytes
  ok (store h dest written)

unfoldable pub free_pack : Heap ℕ → PacketAt → Outcome (Heap ℕ)
free_pack h pack = do h ← free h pack.buf; free h pack.self

unfoldable pub float_pack_to_bytes : Heap ℕ → PacketAt → Outcome (Ptr × Heap ℕ)
float_pack_to_bytes h pack = do
  let buf = malloc h (replicate (word_size * 2 + pack.length) 0)
  let t = malloc buf.1 (pack_type_to_bytes pack.type)
  h ← memcpy t.1 buf.0 0 t.0 0 word_size
  let len = malloc h (uint_to_bytes_arr pack.length)
  h ← memcpy len.1 buf.0 word_size len.0 0 word_size
  h ← memcpy h buf.0 (word_size * 2) pack.buf 0 pack.length
  h ← free h t.0
  h ← free h len.0
  ok (buf.0, h)

unfoldable pub pack_to_bytes : Heap ℕ → PacketAt → Outcome (Ptr × Heap ℕ)
pack_to_bytes h pack = elim (pack.type) [
  | pack_of_floats ↦ float_pack_to_bytes h pack
  | init_pack ↦ float_pack_to_bytes h pack
  | other n ↦ exit
]

-- `memcpy` into a block that was made for it.
unfoldable pub copy_out : Heap ℕ → (src : Ptr) (start n : ℕ) → Outcome (Ptr × Heap ℕ)
copy_out h src start n = do
  let block = malloc h (replicate n 0)
  h ← memcpy block.1 block.0 0 src start n
  ok (block.0, h)

unfoldable pub populate_pack_of_floats :
    Heap ℕ → (ca : Ptr) (self : Ptr) → PacketT → Outcome (PacketAt × Heap ℕ)
populate_pack_of_floats h ca self t = do
  len ← copy_out h ca word_size word_size
  bytes ← deref len.1 len.0
  p_len ← bytes_arr_to_uint bytes
  buf ← copy_out len.1 ca (word_size * 2) p_len
  ok (record { self = self; type = t; length = p_len; buf = buf.0 }, buf.1)

unfoldable pub bytes_to_pack : Heap ℕ → (ca : Ptr) → Outcome (PacketAt × Heap ℕ)
bytes_to_pack h ca = do
  t_arr ← copy_out h ca 0 word_size
  bytes ← deref t_arr.1 t_arr.0
  t ← char_arr_to_pack_type bytes
  h ← free t_arr.1 t_arr.0
  let pack = malloc h []
  elim t [
    | pack_of_floats ↦ populate_pack_of_floats pack.1 ca pack.0 pack_of_floats
    | init_pack ↦ populate_pack_of_floats pack.1 ca pack.0 init_pack
    | other n ↦ exit
  ]

-- `receive_packet`: what `recvfrom` puts at the start of the buffer.
unfoldable pub receive_packet : Heap ℕ → (buf : Ptr) → (datagram : List ℕ) → Outcome (Heap ℕ)
receive_packet h buf datagram = do
  to ← deref h buf
  written ← write_at to 0 datagram
  ok (store h buf written)

-- The first two calls of a round of `run_listener`, one round for each datagram: the packet is
-- received and parsed. It is not freed in a round; what `store_batch` allocates for its floats is in
-- Server/Rounds.
unfoldable pub receive_packets :
    Heap ℕ → (bufin : Ptr) → (datagrams : List (List ℕ)) → Outcome (List PacketAt × Heap ℕ)
receive_packets h bufin [] = ok ([], h)
receive_packets h bufin (datagram ∷ rest) = do
  h ← receive_packet h bufin datagram
  received_pack ← bytes_to_pack h bufin
  others ← receive_packets received_pack.1 bufin rest
  ok (received_pack.0 ∷ others.0, others.1)

-- `exit_error` where a call failed.
abbrev pub or_exit : (succeeds : Bool) → Outcome {0} Unit
or_exit true = ok tt
or_exit false = exit

-- The bytes of a packet that a send hands to `sendto`, and what is allocated for it.
pub record Outgoing : Type 0 where
  pub pack : PacketAt
  pub bytes : Ptr

module _ {F : Type 0} (r : FloatRepr F) where
  -- The loop of `fill_packet` at `i`, with `left` rounds to go.
  unfoldable pub fill_loop :
      (left i offset : ℕ) → List F → (pack_buf : Ptr) → Heap ℕ → Outcome (Heap ℕ)
  fill_loop zero i offset buf pack_buf h = ok h
  fill_loop (suc left) i offset buf pack_buf h = do
    current_float ← or_fault (get_elem? buf i)
    let float_repr = malloc h (float_to_char_arr r current_float)
    h ← memcpy float_repr.1 pack_buf offset float_repr.0 0 word_size
    h ← free h float_repr.0
    fill_loop left (i + 1) (offset + 4) buf pack_buf h

  unfoldable pub gen_packet_from_floats : Heap ℕ → List F → (len : ℕ) → Outcome (PacketAt × Heap ℕ)
  gen_packet_from_floats h buf len = do
    let pack = malloc h []
    let pack_buf = malloc pack.1 (replicate (word_size * len) 0)
    h ← fill_loop len 0 0 buf pack_buf.0 pack_buf.1
    ok (
      record {
        self = pack.0;
        type = pack_of_floats;
        length = (len * word_size) % 2 ^ 32;
        buf = pack_buf.0;
      },
      h,
    )

  unfoldable pub prepare : Heap ℕ → List F → Outcome (Outgoing × Heap ℕ)
  prepare h batch = do
    pack ← gen_packet_from_floats h batch (length batch)
    bytes ← pack_to_bytes pack.1 pack.0
    ok (record { pack = pack.0; bytes = bytes.0 }, bytes.1)

  -- `send_calcs` of client/run_sender.c: the bytes that it sends, and the memory after it. Whether
  -- `sendto` sends some bytes is a parameter.
  unfoldable pub send_both :
      (sendto : List ℕ → Bool)
      → Heap ℕ
      → (first second : List F) → Outcome ((List ℕ × List ℕ) × Heap ℕ)
  send_both sendto h first second = do
    one ← prepare h first
    first_bytes ← deref one.1 one.0.bytes
    _ ← or_exit (sendto first_bytes)
    two ← prepare one.1 second
    second_bytes ← deref two.1 two.0.bytes
    _ ← or_exit (sendto second_bytes)
    h ← free_pack two.1 one.0.pack
    h ← free_pack h two.0.pack
    h ← free h one.0.bytes
    h ← free h two.0.bytes
    ok ((first_bytes, second_bytes), h)

  -- `send_calcs` of server/run_sender.c, which frees nothing.
  unfoldable pub send_result :
      (sendto : List ℕ → Bool) → Heap ℕ → (calcs : List F) → Outcome (List ℕ × Heap ℕ)
  send_result sendto h calcs = do
    one ← prepare h calcs
    bytes ← deref one.1 one.0.bytes
    _ ← or_exit (sendto bytes)
    ok (bytes, one.1)
