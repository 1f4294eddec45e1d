-- ===== src/Packet/Framing.antt =====
-- A packet as bytes: four of type, four of length, and the payload. What the reader makes of any
-- bytes at all.
use mathlib.Core.List.{append_assoc, append-nil}
use quadrocopt.Base.{
  ℕ, ◌+◌, ◌^◌, ◌<◌, ◌≡◌, refl, ap, ◌∙◌, sym, List, [], ◌++◌, arith, length, replicate,
  length-append, length-replicate, replicate-add, ok, read_at, write_at, read_at-append,
  write_at-append,
}
use quadrocopt.Wire.{
  PacketT, pack_type_to_bytes, char_arr_to_pack_type, uint_to_bytes_arr, bytes_arr_to_uint,
}
use quadrocopt.Wire.Bytes.{bytes_arr_to_uint-uint_to_bytes_arr, length-uint_to_bytes_arr}
use quadrocopt.Wire.Floats.{
  Known, known_floats, known_init, length-pack_type_to_bytes,
  char_arr_to_pack_type-pack_type_to_bytes,
}
use quadrocopt.Packet.{
  Packet, float_pack_to_bytes, pack_to_bytes, populate_pack_of_floats, bytes_to_pack,
}

-- A packet of a known type whose length is that of its payload.
pub record IsPacket (p : Packet) : Type 0 where
  pub known : Known p.type
  pub sized : p.length ≡ length p.buf
  pub small : p.length < 2 ^ 32

abbrev pub frame : Packet → List ℕ
frame p = pack_type_to_bytes p.type ++ (uint_to_bytes_arr p.length ++ p.buf)

abbrev zeros : ℕ → List ℕ
zeros n = replicate n 0

blank : (n : ℕ) → zeros (8 + n) ≡ [] ++ (zeros 4 ++ (zeros 4 ++ zeros n))
blank n = replicate-add 8 n 0

read_all : (l : List ℕ) (n : ℕ) → n ≡ length l → read_at l 0 n ≡ ok l
read_all l n e = ap (λ t. read_at t 0 n) (sym (append-nil l)) ∙ read_at-append [] l [] 0 n refl e

append_nil_inside : (xs : List ℕ) (n : ℕ) → xs ++ (zeros n ++ []) ≡ xs ++ zeros n
append_nil_inside xs n = ap (λ t. xs ++ t) (append-nil (zeros n))

float_pack_to_bytes-frame :
    (p : Packet) → p.length ≡ length p.buf → float_pack_to_bytes p ≡ ok (frame p)
unfolding float_pack_to_bytes
float_pack_to_bytes-frame p e =
    let t = pack_type_to_bytes p.type in
    let l = uint_to_bytes_arr p.length in
    let n = p.length in
    rw (blank n) (
      rw
        (write_at-append [] (zeros 4) (zeros 4 ++ zeros n) t 0 refl
          (length-pack_type_to_bytes p.type))
        (rw
          (write_at-append t (zeros 4) (zeros n) l 4 (sym (length-pack_type_to_bytes p.type))
            (length-uint_to_bytes_arr n))
          (rw (read_all p.buf n e) (
            rw (← append_assoc t l (zeros n)) (
              ap (λ x. write_at x 8 p.buf) (sym (append_nil_inside (t ++ l) n))
              ∙ write_at-append (t ++ l) (zeros n) [] p.buf 8
                  (omega (
                    arith,
                    length-append t l,
                    length-pack_type_to_bytes p.type,
                    length-uint_to_bytes_arr n,
                  ))
                  (sym e ∙ sym (length-replicate n 0))
              ∙ ap ok
                  (append_assoc t l (p.buf ++ []) ∙ ap (λ x. t ++ (l ++ x)) (append-nil p.buf)))))))

abbrev pub packet : PacketT → ℕ → List ℕ → Packet
packet t n buf = record { type = t; length = n; buf = buf }

pack_to_bytes-Known :
    {t : PacketT} (n : ℕ) (buf : List ℕ)
    → Known t
    → pack_to_bytes (packet t n buf) ≡ float_pack_to_bytes (packet t n buf)
unfolding pack_to_bytes
pack_to_bytes-Known n buf known_floats = refl
pack_to_bytes-Known n buf known_init = refl

pub pack_to_bytes-frame : (p : Packet) → IsPacket p → pack_to_bytes p ≡ ok (frame p)
pack_to_bytes-frame p i =
    pack_to_bytes-Known p.length p.buf i.known ∙ float_pack_to_bytes-frame p i.sized

pub length-frame : (p : Packet) → length (frame p) ≡ 8 + length p.buf
length-frame p = omega (
  arith,
  length-append (pack_type_to_bytes p.type) (uint_to_bytes_arr p.length ++ p.buf),
  length-append (uint_to_bytes_arr p.length) p.buf,
  length-pack_type_to_bytes p.type,
  length-uint_to_bytes_arr p.length,
)

-- The dispatch of `bytes_to_pack` on the type that the first four bytes hold.
bytes_to_pack-Known :
    {t : PacketT} (ca t_arr : List ℕ)
    → Known t
    → read_at ca 0 4 ≡ ok t_arr
    → char_arr_to_pack_type t_arr ≡ ok t
    → bytes_to_pack ca ≡ populate_pack_of_floats ca t
unfolding bytes_to_pack
bytes_to_pack-Known ca t_arr known_floats e d = rw e (rw d)
bytes_to_pack-Known ca t_arr known_init e d = rw e (rw d)

populate-eq :
    (ca len buf : List ℕ) (t : PacketT) (n : ℕ)
    → read_at ca 4 4 ≡ ok len
    → bytes_arr_to_uint len ≡ ok n
    → read_at ca 8 n ≡ ok buf
    → populate_pack_of_floats ca t ≡ ok (packet t n buf)
unfolding populate_pack_of_floats
populate-eq ca len buf t n e d b = rw e (rw d (rw b))

-- The reader takes the packet back out of its bytes, whatever stands behind them in the buffer.
pub bytes_to_pack-frame :
    (p : Packet) (rest : List ℕ) → IsPacket p → bytes_to_pack (frame p ++ rest) ≡ ok p
bytes_to_pack-frame p rest i =
    bytes_to_pack-Known ca t i.known read_t (
      ap char_arr_to_pack_type (sym (append-nil t))
      ∙ char_arr_to_pack_type-pack_type_to_bytes [] i.known)
    ∙ populate-eq ca l p.buf p.type p.length read_l
        (ap bytes_arr_to_uint (sym (append-nil l))
          ∙ bytes_arr_to_uint-uint_to_bytes_arr p.length [] i.small)
        read_buf
  where
    t : List ℕ
    t = pack_type_to_bytes p.type

    l : List ℕ
    l = uint_to_bytes_arr p.length

    ca : List ℕ
    ca = frame p ++ rest

    in_three : ca ≡ t ++ (l ++ (p.buf ++ rest))
    in_three = append_assoc t (l ++ p.buf) rest ∙ ap (λ x. t ++ x) (append_assoc l p.buf rest)

    read_t : read_at ca 0 4 ≡ ok t
    read_t =
        ap (λ x. read_at x 0 4) in_three
        ∙ read_at-append [] t (l ++ (p.buf ++ rest)) 0 4 refl
            (sym (length-pack_type_to_bytes p.type))

    read_l : read_at ca 4 4 ≡ ok l
    read_l =
        ap (λ x. read_at x 4 4) in_three
        ∙ read_at-append t l (p.buf ++ rest) 4 4 (sym (length-pack_type_to_bytes p.type))
            (sym (length-uint_to_bytes_arr p.length))

    read_buf : read_at ca 8 p.length ≡ ok p.buf
    read_buf =
        ap (λ x. read_at x 8 p.length) (in_three ∙ sym (append_assoc t l (p.buf ++ rest)))
        ∙ read_at-append (t ++ l) p.buf rest 8 p.length
            (omega (
              arith,
              length-append t l,
              length-pack_type_to_bytes p.type,
              length-uint_to_bytes_arr p.length,
            ))
            i.sized
