-- ===== src/Packet/Untrusted.antt =====
-- What the reader makes of bytes that no sender of this program built.
use quadrocopt.Base.{
  ℕ, zero, suc, ◌+◌, ◌-◌, ◌*◌, ◌/◌, ◌<◌, ◌≤◌, ◌≡◌, refl, ap, List, [], ◌∷◌, arith, length, take,
  drop, All, Bool-cases, inl, inr, ◌⊎◌, ltb, leb, if◌then◌else◌, Outcome, ok, exit, fault,
  >>=-eq-ok, read_at-append, read_at, read_at-ok, read_at-eq-ok,
}
use quadrocopt.Wire.{
  FloatRepr, PacketT, pack_of_floats, init_pack, other, of_uint, char_arr_to_pack_type,
  bytes_arr_to_uint, char_arr_to_float,
}
use quadrocopt.Wire.Bytes.{little_endian, bytes_arr_to_uint-cons}
use quadrocopt.Packet.{
  Packet, populate_pack_of_floats, bytes_to_pack, get_slice, get_floats_loop, get_floats,
}
use quadrocopt.Packet.Framing.{packet}

abbrev pub IsByte : ℕ → Type 0
IsByte c = c < 256

-- The packet behind a header that says `type` and `len`: the reader believes the length.
abbrev pub parsed : ℕ → ℕ → List ℕ → Outcome Packet
parsed type len payload =
    if ltb 1 type
    then exit
    else if leb len (length payload)
    then ok (packet (of_uint type) len (take len payload))
    else fault

module _ (a b c d e f g h : ℕ) (payload : List ℕ) where
  abbrev buffer : List ℕ
  buffer = a ∷ b ∷ c ∷ d ∷ e ∷ f ∷ g ∷ h ∷ payload

  read_type : read_at buffer 0 4 ≡ ok (a ∷ b ∷ c ∷ d ∷ [])
  read_type = read_at-append [] (a ∷ b ∷ c ∷ d ∷ []) (e ∷ f ∷ g ∷ h ∷ payload) 0 4 refl refl

  read_len : read_at buffer 4 4 ≡ ok (e ∷ f ∷ g ∷ h ∷ [])
  read_len = read_at-append (a ∷ b ∷ c ∷ d ∷ []) (e ∷ f ∷ g ∷ h ∷ []) payload 4 4 refl refl

  read_payload :
      (n : ℕ) → read_at buffer 8 n ≡ (if leb n (length payload) then ok (take n payload) else fault)
  unfolding read_at
  read_payload n = ground arith

  populate-parsed :
      (t : PacketT)
      → All IsByte (e ∷ f ∷ g ∷ h ∷ [])
      → populate_pack_of_floats buffer t ≡ (
          if leb (little_endian e f g h) (length payload)
          then ok (packet t (little_endian e f g h) (take (little_endian e f g h) payload))
          else fault)
  unfolding populate_pack_of_floats
  populate-parsed t is =
      let len = little_endian e f g h in
      rw read_len (
        rw (bytes_arr_to_uint-cons e f g h [] is.0 is.1.0 is.1.1.0 is.1.1.1.0) (
          rw (read_payload len) (elim (Bool-cases (leb len (length payload))) [
            | inl fits ↦ rw fits
            | inr long ↦ rw long
          ])))

  type-of_uint :
      All IsByte (a ∷ b ∷ c ∷ d ∷ [])
      → char_arr_to_pack_type (a ∷ b ∷ c ∷ d ∷ []) ≡ ok (of_uint (little_endian a b c d))
  unfolding char_arr_to_pack_type
  type-of_uint is = rw (bytes_arr_to_uint-cons a b c d [] is.0 is.1.0 is.1.1.0 is.1.1.1.0)

  -- Any buffer of at least eight bytes, by the two numbers of its header: an unknown type ends the
  -- program, a length beyond the buffer is an access outside it, and otherwise the payload is the
  -- length's number of bytes behind the header.
  pub bytes_to_pack-parsed :
      All IsByte (a ∷ b ∷ c ∷ d ∷ [])
      → All IsByte (e ∷ f ∷ g ∷ h ∷ [])
      → bytes_to_pack buffer ≡ parsed (little_endian a b c d) (little_endian e f g h) payload
  unfolding bytes_to_pack
  bytes_to_pack-parsed ht hl = rw read_type (
      rw (type-of_uint ht)
        (ground (arith, populate-parsed pack_of_floats hl, populate-parsed init_pack hl)))

populate-sized :
    (ca : List ℕ) (t : PacketT) {p : Packet}
    → populate_pack_of_floats ca t ≡ ok p
    → (p.type ≡ t) × (p.length ≡ length p.buf) × (8 + p.length ≤ length ca)
unfolding populate_pack_of_floats
populate-sized ca t e =
    let (len, read_len, e₁) = >>=-eq-ok (read_at ca 4 4) _ e in
    let (n, value, e₂) = >>=-eq-ok (bytes_arr_to_uint len) _ e₁ in
    let (buf, read_buf, e₃) = >>=-eq-ok (read_at ca 8 n) _ e₂ in
    ground (arith, read_at-eq-ok ca 8 n read_buf)

-- A parsed packet has a known type, the length of its payload, and lies within the buffer.
pub bytes_to_pack-sized :
    (ca : List ℕ) {p : Packet}
    → bytes_to_pack ca ≡ ok p
    → ((p.type ≡ pack_of_floats) ⊎ (p.type ≡ init_pack))
      × (p.length ≡ length p.buf)
      × (8 + p.length ≤ length ca)
unfolding bytes_to_pack
bytes_to_pack-sized ca {p} e =
    let (t_arr, read_t, e₁) = >>=-eq-ok (read_at ca 0 4) _ e in
    let (t, value, e₂) = >>=-eq-ok (char_arr_to_pack_type t_arr) _ e₁ in dispatch t e₂
  where
    dispatch :
        (t : PacketT)
        → (elim t [
          | pack_of_floats ↦ populate_pack_of_floats ca pack_of_floats
          | init_pack ↦ populate_pack_of_floats ca init_pack
          | other n ↦ exit
        ])
          ≡ ok p
        → ((p.type ≡ pack_of_floats) ⊎ (p.type ≡ init_pack))
          × (p.length ≡ length p.buf)
          × (8 + p.length ≤ length ca)
    dispatch pack_of_floats h = let (t, l, b) = populate-sized ca pack_of_floats h in (inl t, l, b)
    dispatch init_pack h = let (t, l, b) = populate-sized ca init_pack h in (inr t, l, b)
    dispatch (other n) h = cc

bytes_arr_to_uint-total : (ca : List ℕ) → length ca ≡ 4 → (n : ℕ) × (bytes_arr_to_uint ca ≡ ok n)
unfolding bytes_arr_to_uint
bytes_arr_to_uint-total [] h = absurd (omega arith)
bytes_arr_to_uint-total (a ∷ []) h = absurd (omega arith)
bytes_arr_to_uint-total (a ∷ b ∷ []) h = absurd (omega arith)
bytes_arr_to_uint-total (a ∷ b ∷ c ∷ []) h = absurd (omega arith)
bytes_arr_to_uint-total (a ∷ b ∷ c ∷ d ∷ rest) h = (_, refl)

module _ {F : Type 0} (r : FloatRepr F) where
  char_arr_to_float-total :
      (ca : List ℕ) → length ca ≡ 4 → (f : F) × (char_arr_to_float r ca ≡ ok f)
  unfolding char_arr_to_float
  char_arr_to_float-total ca h = let (n, e) = bytes_arr_to_uint-total ca h in (r.of_bits n, rw e)

  get_slice-total :
      (buf : List ℕ) (offset : ℕ)
      → offset + 4 ≤ length buf
      → (slice : List ℕ) × (get_slice buf offset (offset + 4) ≡ ok slice) × (length slice ≡ 4)
  unfolding get_slice
  get_slice-total buf offset h =
      let size : offset + 4 - offset ≡ 4 = omega arith in
      let read = read_at-ok buf offset 4 h in
      (take 4 (drop offset buf), rw size read, (read_at-eq-ok buf offset 4 read).1)

  get_floats_loop-total :
      (left offset : ℕ) (buf : List ℕ)
      → offset + 4 * left ≤ length buf
      → (fs : List F) × (get_floats_loop r left offset buf ≡ ok fs) × (length fs ≡ left)
  unfolding get_floats_loop
  get_floats_loop-total zero offset buf h = ([], refl, refl)
  get_floats_loop-total (suc left) offset buf h =
      let (slice, cut, four) = get_slice-total buf offset (omega arith) in
      let (f, value) = char_arr_to_float-total slice four in
      let (fs, rest, size) = get_floats_loop-total left (offset + 4) buf (omega arith) in
      (f ∷ fs, rw cut (rw value (rw rest)), ap suc size)

  -- Whatever bytes were received: if they parse, the payload lies within the buffer, and its floats
  -- are read without an access outside it, one for each four bytes of the payload.
  pub get_floats-bytes_to_pack :
      (ca : List ℕ) {p : Packet}
      → bytes_to_pack ca ≡ ok p
      → (fs : List F) × (get_floats r p ≡ ok fs)
        × (length fs ≡ p.length / 4)
        × (8 + p.length ≤ length ca)
  unfolding get_floats
  get_floats-bytes_to_pack ca {p} e =
      let (t, sized, bound) = bytes_to_pack-sized ca e in
      let (fs, read, size) = get_floats_loop-total (p.length / 4) 0 p.buf (omega arith) in
      (fs, read, size, bound)
