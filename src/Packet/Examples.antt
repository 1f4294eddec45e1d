-- ===== src/Packet/Examples.antt =====
-- Tests of the packets, and their theorems at concrete values.
use quadrocopt.Base.{ℕ, ◌+◌, ◌/◌, ◌≤◌, ◌≡◌, List, [], ◌∷◌, ◌++◌, arith, length, ok, exit, fault}
use quadrocopt.Wire.{pack_of_floats, init_pack}
use quadrocopt.Wire.Samples.{Sample, samples, one, minus_one, gravity}
use quadrocopt.Packet.{get_pack_bytes_size, bytes_to_pack, get_floats}
use quadrocopt.Packet.Framing.{packet}
use quadrocopt.Packet.Roundtrip.{packet_of, sent, received, received-sent}
use quadrocopt.Packet.Untrusted.{bytes_to_pack-parsed, get_floats-bytes_to_pack}

abbrev two_floats : List Sample
two_floats = gravity ∷ minus_one ∷ []

received-sent_example :
    (bytes : List ℕ) × (sent samples (gravity ∷ minus_one ∷ one ∷ []) 2 ≡ ok bytes)
    × (length bytes ≡ get_pack_bytes_size (packet_of samples pack_of_floats two_floats))
    × (received samples (bytes ++ 1 ∷ 2 ∷ []) ≡ ok (two_floats, 2))
received-sent_example = received-sent samples two_floats (one ∷ []) (1 ∷ 2 ∷ []) (omega arith)

-- An init packet of one float.
abbrev init_bytes : List ℕ
init_bytes = 1 ∷ 0 ∷ 0 ∷ 0 ∷ 4 ∷ 0 ∷ 0 ∷ 0 ∷ 0x00 ∷ 0x00 ∷ 0x80 ∷ 0x3f ∷ []

bytes_to_pack-parsed_example :
    bytes_to_pack init_bytes ≡ ok (packet init_pack 4 (0x00 ∷ 0x00 ∷ 0x80 ∷ 0x3f ∷ []))
bytes_to_pack-parsed_example =
    bytes_to_pack-parsed 1 0 0 0 4 0 0 0 (0x00 ∷ 0x00 ∷ 0x80 ∷ 0x3f ∷ []) (omega arith)
      (omega arith)

init_parsed : bytes_to_pack init_bytes ≡ ok (packet init_pack 4 (0x00 ∷ 0x00 ∷ 0x80 ∷ 0x3f ∷ []))
init_parsed =
    bytes_to_pack-parsed 1 0 0 0 4 0 0 0 (0x00 ∷ 0x00 ∷ 0x80 ∷ 0x3f ∷ []) (omega arith)
      (omega arith)

-- A header that claims more than the buffer holds.
long_header : bytes_to_pack (0 ∷ 0 ∷ 0 ∷ 0 ∷ 255 ∷ 255 ∷ 255 ∷ 255 ∷ 0 ∷ []) ≡ fault
long_header = bytes_to_pack-parsed 0 0 0 0 255 255 255 255 (0 ∷ []) (omega arith) (omega arith)

unknown_type : bytes_to_pack (2 ∷ 0 ∷ 0 ∷ 0 ∷ 0 ∷ 0 ∷ 0 ∷ 0 ∷ []) ≡ exit
unknown_type = bytes_to_pack-parsed 2 0 0 0 0 0 0 0 [] (omega arith) (omega arith)

get_floats-bytes_to_pack_example :
    (fs : List Sample) × (get_floats samples (packet init_pack 4 (0x00 ∷ 0x00 ∷ 0x80 ∷ 0x3f ∷ []))
      ≡ ok fs)
    × (length fs ≡ 4 / 4)
    × (8 + 4 ≤ length init_bytes)
get_floats-bytes_to_pack_example = get_floats-bytes_to_pack samples init_bytes init_parsed
