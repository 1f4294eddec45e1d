-- ===== src/Packet/Roundtrip.antt =====
-- From the floats of a sender to the floats of the listener that receives the datagram.
use mathlib.Core.List.{append-nil}
use quadrocopt.Base.{
  ℕ, ◌+◌, ◌*◌, ◌/◌, ◌%◌, ◌^◌, ◌<◌, ◌≡◌, refl, ap, ◌∙◌, sym, List, [], ◌++◌, arith, length, Outcome,
  ok, ◌>>=◌,
}
use quadrocopt.Wire.{FloatRepr, PacketT, pack_of_floats}
use quadrocopt.Wire.Floats.{Known, known_floats}
use quadrocopt.Packet.{
  Packet, fill_packet, gen_packet_from_floats, pack_to_bytes, bytes_to_pack, get_pack_bytes_size,
  get_floats, get_floats_loop, get_floats_count,
}
use quadrocopt.Packet.Building.{encode, length-encode, fill_loop-encode, get_floats_loop-encode}
use quadrocopt.Packet.Framing.{
  IsPacket, packet, frame, length-frame, pack_to_bytes-frame, bytes_to_pack-frame,
}

module _ {F : Type 0} (r : FloatRepr F) where
  -- The packet that holds the floats `fs`.
  abbrev pub packet_of : PacketT → List F → Packet
  packet_of t fs = packet t (4 * length fs) (encode r fs)

  pub packet_of-IsPacket :
      {t : PacketT} (fs : List F) → Known t → 4 * length fs < 2 ^ 32 → IsPacket (packet_of t fs)
  packet_of-IsPacket fs k h = record { known = k; sized = sym (length-encode r fs); small = h }

  fill_packet-packet_of :
      (t : PacketT) (fs after : List F)
      → 4 * length fs < 2 ^ 32
      → fill_packet r t (fs ++ after) (length fs) ≡ ok (packet_of t fs)
  unfolding fill_packet
  fill_packet-packet_of t fs after h =
      let size : (length fs * 4) % 2 ^ 32 ≡ 4 * length fs = omega arith in
      rw (fill_loop-encode r fs [] after [] 0 refl) (rw size)

  -- `gen_packet_from_floats` stores the first `length fs` floats of its array.
  pub gen_packet_from_floats-packet_of :
      (fs after : List F)
      → 4 * length fs < 2 ^ 32
      → gen_packet_from_floats r (fs ++ after) (length fs) ≡ ok (packet_of pack_of_floats fs)
  unfolding gen_packet_from_floats
  gen_packet_from_floats-packet_of fs after h = fill_packet-packet_of pack_of_floats fs after h

  get_floats-packet_of : (t : PacketT) (fs : List F) → get_floats r (packet_of t fs) ≡ ok fs
  unfolding get_floats
  get_floats-packet_of t fs =
      let count : 4 * length fs / 4 ≡ length fs = omega arith in
      rw count (
        ap (get_floats_loop r (length fs) 0) (sym (append-nil (encode r fs)))
        ∙ get_floats_loop-encode r fs [] [] 0 refl)

  -- What a sender does with an array of floats: the datagram.
  abbrev pub sent : List F → ℕ → Outcome (List ℕ)
  sent buf len = do pack ← gen_packet_from_floats r buf len; pack_to_bytes pack

  -- What a listener does with the buffer that it received into: the floats and their count.
  abbrev pub received : List ℕ → Outcome (List F × ℕ)
  received ca = do
    pack ← bytes_to_pack ca
    payload ← get_floats r pack
    ok (payload, get_floats_count pack)

  get_floats_count-packet_of :
      (fs : List F) → get_floats_count (packet_of pack_of_floats fs) ≡ length fs
  unfolding get_floats_count
  get_floats_count-packet_of fs = omega arith

  -- Where the size of the datagram fits 32 bits, the first floats of an array give a packet and
  -- its bytes without a fault, as many bytes as get_pack_bytes_size says, and a receiver gets the
  -- same floats and their number from them, whatever stands behind them in its buffer.
  pub received-sent :
      (fs rest : List F) (behind : List ℕ)
      → 4 * length fs + 8 < 2 ^ 32
      → (bytes : List ℕ) × (sent (fs ++ rest) (length fs) ≡ ok bytes)
        × (length bytes ≡ get_pack_bytes_size (packet_of pack_of_floats fs))
        × (received (bytes ++ behind) ≡ ok (fs, length fs))
  unfolding get_pack_bytes_size
  received-sent fs rest behind h = (
    frame p,
    rw (gen_packet_from_floats-packet_of fs rest (omega arith)) (pack_to_bytes-frame p is),
    omega (arith, length-frame p, length-encode r fs),
    rw (bytes_to_pack-frame p behind is)
        (rw (get_floats-packet_of pack_of_floats fs) (rw (get_floats_count-packet_of fs))),
  )
    where
      p : Packet
      p = packet_of pack_of_floats fs

      is : IsPacket p
      is = packet_of-IsPacket fs known_floats (omega arith)
