-- ===== src/Packet/Memory/Parsing.antt =====
-- Bytes made to a packet in memory: the packet is that of Packet, and three blocks more are in use,
-- one of which nothing points to any more.
use mathlib.Core.List.{append-nil}
use quadrocopt.Base.{
  ℕ, suc, ◌*◌, ◌≡◌, refl, ap, sym, ◌∙◌, ◌⊎◌, inl, inr, List, [], ◌∷◌, ◌++◌, length, length-append,
  arith, some, Outcome, ok, exit, ◌>>=◌, >>=-eq-ok, read_at, write_at, replicate, length-replicate,
  read_at-eq-ok, write_at-append,
}
use quadrocopt.Heap.{Heap, release, block_at}
use quadrocopt.Heap.Laws.{block_at-lt}
use quadrocopt.Wire.{
  PacketT, pack_of_floats, init_pack, other, char_arr_to_pack_type, bytes_arr_to_uint,
}
use quadrocopt.Packet
use quadrocopt.Packet.{Packet, word_size}
use quadrocopt.Packet.Memory.{PacketAt, copy_out, populate_pack_of_floats, bytes_to_pack}
use quadrocopt.Packet.Memory.Laws.{
  block_at-append_old, length-release, memcpy-Changes, Extends, malloc-Extends, Extends-trans,
  Extends-Changes, Extends-free,
}
use quadrocopt.Packet.Memory.Building.{Placed}
use quadrocopt.Packet.Memory.Framing.{Framed}

copy_out-Framed :
    (h : Heap ℕ) (src start n : ℕ) {from bytes : List ℕ}
    → block_at h src ≡ ok from
    → read_at from start n ≡ ok bytes
    → (after : Heap ℕ) × (copy_out h (some src) start n ≡ ok (some (length h), after))
      × Framed h bytes (length h) after
      × (length after ≡ suc (length h))
unfolding copy_out
copy_out-Framed h src start n {from} {bytes} there read =
    let zeros : List ℕ = replicate n 0 in
    let (ext, made) = malloc-Extends h zeros in
    let size = (read_at-eq-ok from start n read).1 in
    let writes : write_at zeros 0 bytes ≡ ok bytes =
      ap (λ z. write_at z 0 bytes) (sym (append-nil zeros))
      ∙ write_at-append [] zeros [] bytes 0 refl (omega (arith, size, length-replicate {A = ℕ} n 0))
      ∙ ap ok (append-nil bytes) in
    let (after, copies, c) =
      memcpy-Changes (h ++ some zeros ∷ []) (length h) src 0 start n
        (block_at-append_old h (some zeros ∷ []) src (block_at-lt h src there) ∙ there) read made
        writes in
    (
      after,
      rw copies refl,
      record {
        contents = c.here;
        new = λ j l e. omega (arith, e, l);
        extends = Extends-Changes ext c (λ j l e. omega (arith, e, l));
      },
      omega (arith, c.size, length-append h (some zeros ∷ [])),
    )

-- The parts of `populate_pack_of_floats` that ends in a value.
pub populate-parts :
    (ca : List ℕ) (t : PacketT) {p : Packet}
    → Packet.populate_pack_of_floats ca t ≡ ok p
    → (len : List ℕ) × (n : ℕ) × (buf : List ℕ) × (read_at ca word_size word_size ≡ ok len)
      × (bytes_arr_to_uint len ≡ ok n)
      × (read_at ca (word_size * 2) n ≡ ok buf)
      × (p ≡ record { type = t; length = n; buf = buf })
unfolding Packet.populate_pack_of_floats
populate-parts ca t runs =
    let made : ℕ → List ℕ → Outcome Packet =
      λ n buf. ok (record { type = t; length = n; buf = buf }) in
    let last : ℕ → Outcome Packet = λ n. read_at ca (word_size * 2) n >>= made n in
    let (len, first, rest) =
      >>=-eq-ok (read_at ca word_size word_size) (λ len. bytes_arr_to_uint len >>= last) runs in
    let (n, second, rest') = >>=-eq-ok (bytes_arr_to_uint len) last rest in
    let (buf, third, fourth) = >>=-eq-ok (read_at ca (word_size * 2) n) (made n) rest' in
    (len, n, buf, first, second, third, ground (arith, fourth))

populate-Placed :
    (h : Heap ℕ) (ca : ℕ) (self : ℕ) (t : PacketT) {bytes : List ℕ} {p : Packet}
    → block_at h ca ≡ ok bytes
    → block_at h self ≡ ok []
    → Packet.populate_pack_of_floats bytes t ≡ ok p
    → (pack : PacketAt) × (after : Heap ℕ) × (populate_pack_of_floats h (some ca) (some self) t
        ≡ ok (pack, after))
      × Extends h 2 after
      × (buf : ℕ) × (pack
          ≡ record { self = some self; type = p.type; length = p.length; buf = some buf })
      × (block_at after buf ≡ ok p.buf)
      × (buf ≡ suc (length h))
unfolding populate_pack_of_floats
populate-Placed h ca self t {bytes} {p} ca_there self_there runs =
    let (len, n, buf, first, second, third, is_p) = populate-parts bytes t runs in
    let (h1, copies_len, one, size) = copy_out-Framed h ca 4 4 ca_there first in
    let (h2, copies_buf, two, size') =
      copy_out-Framed h1 ca 8 n (one.extends.old ca (block_at-lt h ca ca_there) ∙ ca_there) third in
    (
      record { self = some self; type = t; length = n; buf = some (length h1) },
      h2,
      rw copies_len (rw one.contents (rw second (rw copies_buf refl))),
      Extends-trans one.extends two.extends,
      length h1,
      ground (arith, is_p),
      two.contents ∙ ground (arith, is_p),
      size,
    )

-- What is read of the type first.
pub type-parts :
    (bytes : List ℕ) {p : Packet}
    → Packet.bytes_to_pack bytes ≡ ok p
    → (t_arr : List ℕ) × (t : PacketT) × (read_at bytes 0 word_size ≡ ok t_arr)
      × (char_arr_to_pack_type t_arr ≡ ok t)
      × (Packet.populate_pack_of_floats bytes t ≡ ok p)
      × ((t ≡ pack_of_floats) ⊎ (t ≡ init_pack))
unfolding Packet.bytes_to_pack
type-parts bytes {p} runs =
    let chosen : PacketT → Outcome Packet = λ t. elim t [
      | pack_of_floats ↦ Packet.populate_pack_of_floats bytes pack_of_floats
      | init_pack ↦ Packet.populate_pack_of_floats bytes init_pack
      | other n ↦ exit
    ] in
    let (t_arr, first, rest) =
      >>=-eq-ok (read_at bytes 0 word_size) (λ t_arr. char_arr_to_pack_type t_arr >>= chosen)
        runs in
    let (t, second, rest') = >>=-eq-ok (char_arr_to_pack_type t_arr) chosen rest in
    let (made, known) = by_type t rest' in (t_arr, t, first, second, made, known)
  where
    by_type :
        (t : PacketT)
        → (elim t as (λ _. Outcome Packet) [
          | pack_of_floats ↦ Packet.populate_pack_of_floats bytes pack_of_floats
          | init_pack ↦ Packet.populate_pack_of_floats bytes init_pack
          | other n ↦ exit
        ])
          ≡ ok p
        → (Packet.populate_pack_of_floats bytes t ≡ ok p) × ((t ≡ pack_of_floats) ⊎ (t ≡ init_pack))
    by_type pack_of_floats e = (e, inl refl)
    by_type init_pack e = (e, inr refl)
    by_type (other n) e = cc

pub bytes_to_pack-Placed :
    (h : Heap ℕ) (ca : ℕ) {bytes : List ℕ} {p : Packet}
    → block_at h ca ≡ ok bytes
    → Packet.bytes_to_pack bytes ≡ ok p
    → (pack : PacketAt) × (after : Heap ℕ) × (bytes_to_pack h (some ca) ≡ ok (pack, after))
      × Placed h p pack after
      × Extends h 3 after
unfolding bytes_to_pack
bytes_to_pack-Placed h ca {bytes} {p} ca_there runs =
    let (t_arr, t, first, second, populates, known) = type-parts bytes runs in
    let (h1, copies, word, size) = copy_out-Framed h ca 0 4 ca_there first in
    let (frees, ext) = Extends-free word.extends word.contents word.new in
    let h2 : Heap ℕ = release h1 (length h) in
    let size_two = length-release h1 (length h) in
    let (ext_pack, pack_there) = malloc-Extends h2 [] in
    let ext_three = Extends-trans ext ext_pack in
    let (pack, after, ends, more, buf, fields, payload, place) =
      populate-Placed (h2 ++ some [] ∷ []) ca (length h2) t
        (ext_three.old ca (block_at-lt h ca ca_there) ∙ ca_there) pack_there populates in
    let size_three = length-append h2 (some [] ∷ []) in
    let placed : Placed h p pack after = record {
      self = length h2;
      buf = buf;
      fields = fields;
      payload = payload;
      structure = more.old (length h2) (omega (arith, size_three)) ∙ pack_there;
      apart = λ e. omega (arith, e, place, size_three);
      new_self = λ j l e. omega (arith, e, l, size_two, size);
      new_buf = λ j l e. omega (arith, e, l, place, size_three, size_two, size);
    } in
    (
      pack,
      after,
      rw copies (
          rw word.contents (
            rw second (
              rw frees
                (elim known [ inl e ↦ rw e (rw e at ends) | inr e ↦ rw e (rw e at ends) ])))),
      placed,
      Extends-trans ext_three more,
    )
