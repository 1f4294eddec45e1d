-- ===== src/Packet/Memory/Examples.antt =====
-- Tests of packets in memory, and their theorems at concrete values.
use quadrocopt.Base.{true, ℕ, ◌≡◌, refl, List, [], ◌∷◌, arith, none, some, ok}
use quadrocopt.Heap.{Heap, deref}
use quadrocopt.Wire.{pack_of_floats, init_pack}
use quadrocopt.Wire.Samples.{samples, one, minus_one, gravity}
use quadrocopt.Packet
use quadrocopt.Packet.{Packet}
use quadrocopt.Packet.Framing.{packet}
use quadrocopt.Packet.Roundtrip.{sent}
use quadrocopt.Packet.Untrusted.{bytes_to_pack-parsed}
use quadrocopt.Packet.Memory.{
  PacketAt, free_pack, bytes_to_pack, receive_packets, send_both, send_result,
}
use quadrocopt.Packet.Memory.Laws.{Extends}
use quadrocopt.Packet.Memory.Listening.{
  Parses, nothing, datagram, Are, Listened, receive_packets-leak,
}
use quadrocopt.Packet.Memory.Sending.{send_both-Extends, send_result-Extends, bytes_to_pack-leak}

-- One block in use and one that was freed.
abbrev small_heap : Heap ℕ
small_heap = some (7 ∷ []) ∷ none ∷ []

send_both-Extends_example :
    (bytes more : List ℕ) × (after : Heap ℕ) × (sent samples (gravity ∷ minus_one ∷ one ∷ []) 3
      ≡ ok bytes)
    × (sent samples (one ∷ []) 1 ≡ ok more)
    × (send_both samples (λ _. true) small_heap (gravity ∷ minus_one ∷ one ∷ []) (one ∷ [])
        ≡ ok ((bytes, more), after))
    × Extends small_heap 0 after
send_both-Extends_example =
    send_both-Extends samples (λ _. true) small_heap (gravity ∷ minus_one ∷ one ∷ []) (one ∷ [])
      (omega arith) (omega arith)

send_result-Extends_example :
    (bytes : List ℕ) × (after : Heap ℕ) × (sent samples (gravity ∷ one ∷ []) 2 ≡ ok bytes)
    × (send_result samples (λ _. true) small_heap (gravity ∷ one ∷ []) ≡ ok (bytes, after))
    × Extends small_heap 3 after
send_result-Extends_example =
    send_result-Extends samples (λ _. true) small_heap (gravity ∷ one ∷ []) (omega arith)

-- The buffer of a listener, with an init packet of one float in it.
abbrev received : List ℕ
received = 1 ∷ 0 ∷ 0 ∷ 0 ∷ 4 ∷ 0 ∷ 0 ∷ 0 ∷ 0x00 ∷ 0x00 ∷ 0x80 ∷ 0x3f ∷ []

received_pack :
    Packet.bytes_to_pack received ≡ ok (packet init_pack 4 (0x00 ∷ 0x00 ∷ 0x80 ∷ 0x3f ∷ []))
received_pack =
    bytes_to_pack-parsed 1 0 0 0 4 0 0 0 (0x00 ∷ 0x00 ∷ 0x80 ∷ 0x3f ∷ []) (omega arith)
      (omega arith)

abbrev buffer_heap : Heap ℕ
buffer_heap = none ∷ some received ∷ []

leaky_parse :
    (pack : PacketAt) × (parsed freed : Heap ℕ) × (bytes_to_pack buffer_heap (some 1)
      ≡ ok (pack, parsed))
    × (pack.type ≡ init_pack)
    × (pack.length ≡ 4)
    × (deref parsed pack.buf ≡ ok (0x00 ∷ 0x00 ∷ 0x80 ∷ 0x3f ∷ []))
    × Extends buffer_heap 3 parsed
    × (free_pack parsed pack ≡ ok freed)
    × Extends buffer_heap 1 freed
leaky_parse =
    bytes_to_pack-leak buffer_heap 1 received (packet init_pack 4 (0x00 ∷ 0x00 ∷ 0x80 ∷ 0x3f ∷ []))
      refl received_pack

-- An init packet of one float, and then a packet without floats.
abbrev two_datagrams : List (List ℕ)
two_datagrams = received ∷ (0 ∷ 0 ∷ 0 ∷ 0 ∷ 0 ∷ 0 ∷ 0 ∷ 0 ∷ []) ∷ []

abbrev two_packets : List Packet
two_packets = packet init_pack 4 (0x00 ∷ 0x00 ∷ 0x80 ∷ 0x3f ∷ []) ∷ packet pack_of_floats 0 [] ∷ []

both_parse : Parses 12 two_datagrams two_packets
both_parse = datagram (omega arith) received_pack (
    datagram (omega arith) (bytes_to_pack-parsed 0 0 0 0 0 0 0 0 [] (omega arith) (omega arith))
      nothing)

abbrev old_buffer : List ℕ
old_buffer = 9 ∷ 9 ∷ 9 ∷ 9 ∷ 9 ∷ 9 ∷ 9 ∷ 9 ∷ 9 ∷ 9 ∷ 9 ∷ 9 ∷ []

receive_packets-leak_example :
    (packs : List PacketAt) × (after : Heap ℕ) × (receive_packets
        (none ∷ some old_buffer ∷ [])
        (some 1)
        two_datagrams
      ≡ ok (packs, after))
    × Are after packs two_packets
    × Listened (none ∷ some old_buffer ∷ []) 1 12 6 after
receive_packets-leak_example =
    receive_packets-leak 12 (none ∷ some old_buffer ∷ []) 1 old_buffer two_datagrams two_packets
      refl refl both_parse
