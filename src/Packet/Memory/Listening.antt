-- ===== src/Packet/Memory/Listening.antt =====
-- A listener that receives one datagram after the other: its packets and what they leave in memory.
use quadrocopt.Base.{
  ℕ, suc, ◌+◌, ◌*◌, ◌<◌, ◌≤◌, ◌≡◌, ◌≢◌, refl, ap, sym, ◌∙◌, List, [], ◌∷◌, ◌++◌, length, drop,
  arith, some, ok, write_at, le→leb, length-append, length-drop,
}
use quadrocopt.Heap.{Heap, block_at, deref, live}
use quadrocopt.Heap.Laws.{block_at-lt}
use quadrocopt.Packet
use quadrocopt.Packet.{Packet}
use quadrocopt.Packet.Memory.{PacketAt, store_at, receive_packet, bytes_to_pack, receive_packets}
use quadrocopt.Packet.Memory.Laws.{Changes, store-Changes}
use quadrocopt.Packet.Memory.Building.{Placed}
use quadrocopt.Packet.Memory.Parsing.{bytes_to_pack-Placed}
use quadrocopt.Packet.Memory.Longer.{parse_longer}

-- Datagrams that fit the buffer and parse, with their packets.
pub data Parses (size : ℕ) : List (List ℕ) → List Packet → Type 0 where
  nothing : Parses size [] []
  datagram :
      {bytes : List ℕ} {p : Packet} {rest : List (List ℕ)} {ps : List Packet}
      → length bytes ≤ size
      → Packet.bytes_to_pack bytes ≡ ok p
      → Parses size rest ps
      → Parses size (bytes ∷ rest) (p ∷ ps)

-- Packets in memory that are these.
pub data Are (h : Heap ℕ) : List PacketAt → List Packet → Type 0 where
  none_left : Are h [] []
  one_more :
      {pack : PacketAt} {p : Packet} {packs : List PacketAt} {ps : List Packet}
      → pack.type ≡ p.type
      → pack.length ≡ p.length
      → deref h pack.buf ≡ ok p.buf
      → Are h packs ps
      → Are h (pack ∷ packs) (p ∷ ps)

-- All that was in memory but the buffer at `i` is as it was, and `more` blocks more are in use.
pub record Listened (h : Heap ℕ) (i size more : ℕ) (after : Heap ℕ) : Type 0 where
  pub longer : (j : ℕ) → j < length h → j < length after
  pub old : (j : ℕ) → j < length h → i ≢ j → block_at after j ≡ block_at h j
  pub buffer : (b : List ℕ) × (block_at after i ≡ ok b) × (length b ≡ size)
  pub count : live after ≡ live h + more

write_front :
    (b bytes : List ℕ)
    → length bytes ≤ length b
    → write_at b 0 bytes ≡ ok (bytes ++ drop (length bytes) b)
unfolding write_at
write_front [] bytes fits =
    rw (le→leb (0 + length bytes) 0 (omega (arith, fits)))
      (ap (λ n. ok (bytes ++ drop n [])) (omega arith))
write_front (x ∷ b) bytes fits =
    rw (le→leb (0 + length bytes) (suc (length b)) (omega (arith, fits)))
      (ap (λ n. ok (bytes ++ drop n (x ∷ b))) (omega arith))

-- A datagram that fits, put into the buffer.
received :
    (h : Heap ℕ) (i : ℕ) (bytes : List ℕ) {b : List ℕ}
    → block_at h i ≡ ok b
    → length bytes ≤ length b
    → (after : Heap ℕ) × (receive_packet h (some i) bytes ≡ ok after)
      × Changes h i (bytes ++ drop (length bytes) b) after
unfolding receive_packet
received h i bytes {b} there fits =
    let written : List ℕ = bytes ++ drop (length bytes) b in
    (
      store_at h i written,
      rw there (rw (write_front b bytes fits) refl),
      store-Changes h i written there,
    )

-- One round of the listener: the packet, and what is left.
one_datagram :
    (h : Heap ℕ) (i size : ℕ) (bytes : List ℕ) {b : List ℕ} {p : Packet}
    → block_at h i ≡ ok b
    → length b ≡ size
    → length bytes ≤ size
    → Packet.bytes_to_pack bytes ≡ ok p
    → (g after : Heap ℕ) × (pack : PacketAt) × (receive_packet h (some i) bytes ≡ ok g)
      × (bytes_to_pack g (some i) ≡ ok (pack, after))
      × (placed : Placed g p pack after) × (i ≢ placed.buf)
      × Listened h i size 3 after
one_datagram h i size bytes {b} there is_size fits parses =
    let (g, receives, c) = received h i bytes there (omega (arith, is_size, fits)) in
    let rest : List ℕ = drop (length bytes) b in
    let (pack, after, makes, placed, ext) =
      bytes_to_pack-Placed g i c.here (parse_longer bytes rest parses) in
    let in_g = block_at-lt g i c.here in
    (
      g,
      after,
      pack,
      receives,
      makes,
      placed,
      λ e. placed.new_buf i in_g (sym e),
      record {
        longer = λ j l. ext.longer j (omega (arith, l, c.size));
        old = λ j l n. ext.old j (omega (arith, l, c.size)) ∙ c.others j n;
        buffer = (
          bytes ++ rest,
          ext.old i in_g ∙ c.here,
          omega (arith, length-append bytes rest, length-drop (length bytes) b, is_size, fits),
        );
        count = omega (arith, ext.count, c.count);
      },
    )

Listened-trans :
    {h g k : Heap ℕ} {i size m n all : ℕ}
    → Listened h i size m g
    → Listened g i size n k
    → all ≡ m + n
    → Listened h i size all k
Listened-trans x y sum = record {
  longer = λ j l. y.longer j (x.longer j l);
  old = λ j l apart. y.old j (x.longer j l) apart ∙ x.old j l apart;
  buffer = y.buffer;
  count = omega (arith, x.count, y.count, sum);
}

-- Datagrams that fit the buffer of a listener and parse, received and parsed one after the other
-- as in the rounds of run_listener: each is read as the packet that Packet makes of it, all of
-- these packets are in memory at the end, where three blocks more are in use for each, beside
-- those that store_batch makes; and every block that was in memory, but the buffer, is as it was.
pub receive_packets-leak :
    (size : ℕ) (h : Heap ℕ) (i : ℕ) (b : List ℕ) (datagrams : List (List ℕ)) (ps : List Packet)
    → block_at h i ≡ ok b
    → length b ≡ size
    → Parses size datagrams ps
    → (packs : List PacketAt) × (after : Heap ℕ) × (receive_packets h (some i) datagrams
        ≡ ok (packs, after))
      × Are after packs ps
      × Listened h i size (3 * length datagrams) after
unfolding receive_packets
receive_packets-leak size h i b datagrams ps there is_size nothing = (
  [],
  h,
  refl,
  none_left,
  record {
    longer = λ j l. l;
    old = λ j l n. refl;
    buffer = (b, there, is_size);
    count = omega arith;
  },
)
receive_packets-leak size h i b datagrams ps there is_size
      (datagram {bytes} {p} {rest} {ps = qs} fits parses more) =
    let (g, mid, pack, receives, makes, placed, apart, one) =
      one_datagram h i size bytes there is_size fits parses in
    let (b', there', is_size') = one.buffer in
    let (packs, after, runs, are, others) =
      receive_packets-leak size mid i b' rest qs there' is_size' more in
    let buf_in = block_at-lt mid placed.buf placed.payload in
    let kept = others.old placed.buf buf_in apart in
    (
      pack ∷ packs,
      after,
      rw receives (rw makes (rw runs refl)),
      one_more (rw placed.fields refl) (rw placed.fields refl)
          (rw placed.fields (kept ∙ placed.payload)) are,
      Listened-trans one others (omega arith),
    )
