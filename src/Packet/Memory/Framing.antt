-- ===== src/Packet/Memory/Framing.antt =====
-- A packet made to bytes and bytes made to a packet, in memory: the results are those of Packet.
use quadrocopt.Base.{
  ℕ, suc, ◌+◌, ◌*◌, ◌<◌, ◌≤◌, ◌≡◌, ◌≢◌, refl, ap, sym, ◌∙◌, List, [], ◌∷◌, ◌++◌, length,
  length-append, arith, some, Outcome, ok, ◌>>=◌, >>=-eq-ok, read_at, write_at, replicate,
}
use quadrocopt.Heap.{Ptr, Heap, release, block_at, free}
use quadrocopt.Heap.Laws.{block_at-release_other, block_at-new, block_at-lt, read_all}
use quadrocopt.Wire.{
  PacketT, pack_of_floats, init_pack, other, pack_type_to_bytes, uint_to_bytes_arr, to_uint,
}
use quadrocopt.Wire.Bytes.{length-uint_to_bytes_arr}
use quadrocopt.Packet
use quadrocopt.Packet.{Packet, word_size}
use quadrocopt.Packet.Memory.{PacketAt, memcpy, float_pack_to_bytes, pack_to_bytes}
use quadrocopt.Packet.Memory.Laws.{
  block_at-append_old, memcpy-Changes, Extends, malloc-Extends, Extends-trans, Extends-Changes,
  Extends-free,
}

-- The parts of `float_pack_to_bytes` that ends in a value.
float_pack_to_bytes-parts :
    (p : Packet) {bytes : List ℕ}
    → Packet.float_pack_to_bytes p ≡ ok bytes
    → (one two contents : List ℕ) × (write_at
          (replicate (word_size * 2 + p.length) 0)
          0
          (pack_type_to_bytes p.type)
        ≡ ok one)
      × (write_at one word_size (uint_to_bytes_arr p.length) ≡ ok two)
      × (read_at p.buf 0 p.length ≡ ok contents)
      × (write_at two (word_size * 2) contents ≡ ok bytes)
unfolding Packet.float_pack_to_bytes
float_pack_to_bytes-parts p runs =
    let zeros : List ℕ = replicate (word_size * 2 + p.length) 0 in
    let last : List ℕ → Outcome (List ℕ) =
      λ two. read_at p.buf 0 p.length >>= λ contents. write_at two (word_size * 2) contents in
    let (one, first, rest) =
      >>=-eq-ok (write_at zeros 0 (pack_type_to_bytes p.type))
        (λ one. write_at one word_size (uint_to_bytes_arr p.length) >>= last) runs in
    let (two, second, rest') =
      >>=-eq-ok (write_at one word_size (uint_to_bytes_arr p.length)) last rest in
    let (contents, third, fourth) =
      >>=-eq-ok (read_at p.buf 0 p.length) (λ contents. write_at two (word_size * 2) contents)
        rest' in
    (one, two, contents, first, second, third, fourth)

-- Four bytes, read whole.
read_word : (n : ℕ) → read_at (uint_to_bytes_arr n) 0 4 ≡ ok (uint_to_bytes_arr n)
read_word n =
    ap (read_at (uint_to_bytes_arr n) 0) (sym (length-uint_to_bytes_arr n))
    ∙ read_all (uint_to_bytes_arr n)

read_type : (t : PacketT) → read_at (pack_type_to_bytes t) 0 4 ≡ ok (pack_type_to_bytes t)
unfolding pack_type_to_bytes
read_type t = read_word (to_uint t)

pub record Framed (h : Heap ℕ) (bytes : List ℕ) (at : ℕ) (after : Heap ℕ) : Type 0 where
  pub contents : block_at after at ≡ ok bytes
  pub new : (j : ℕ) → j < length h → at ≢ j
  pub extends : Extends h 1 after

-- A word in a new block, copied into a block that is new too.
record Put (h g : Heap ℕ) (m at : ℕ) (dest word : List ℕ) (after : Heap ℕ) : Type 0 where
  extends : Extends h (m + 1) after
  here : block_at after at ≡ ok dest
  there : block_at after (length g) ≡ ok word
  size : length after ≡ suc (length g)
  others : (j : ℕ) → j < length g → at ≢ j → block_at after j ≡ block_at g j

copied_word :
    {h g : Heap ℕ} {m : ℕ} {dest written : List ℕ} (at offset : ℕ) (word : List ℕ)
    → read_at word 0 4 ≡ ok word
    → Extends h m g
    → length h ≤ at
    → block_at g at ≡ ok dest
    → write_at dest offset word ≡ ok written
    → (after : Heap ℕ) × (memcpy (g ++ some word ∷ []) (some at) offset (some (length g)) 0 4
        ≡ ok after)
      × Put h g m at written word after
copied_word {g = g} at offset word read ext new there writes =
    let old = block_at-append_old g (some word ∷ []) in
    let inside = block_at-lt g at there in
    let (after, copies, c) =
      memcpy-Changes (g ++ some word ∷ []) at (length g) offset 0 4 (block_at-new g word) read
        (old at inside ∙ there) writes in
    (
      after,
      copies,
      record {
        extends =
            Extends-Changes (Extends-trans ext (malloc-Extends g word).0) c
              (λ j l e. omega (arith, e, l, new));
        here = c.here;
        there = c.others (length g) (λ e. omega (arith, e, inside)) ∙ block_at-new g word;
        size = omega (arith, c.size, length-append g (some word ∷ []));
        others = λ j l n. c.others j n ∙ old j l;
      },
    )

-- The frees of the two words.
two_freed :
    {h g : Heap ℕ} {at t l : ℕ} {bytes x y : List ℕ}
    → Extends h 3 g
    → block_at g at ≡ ok bytes
    → block_at g t ≡ ok x
    → block_at g l ≡ ok y
    → length h ≡ at
    → at < t
    → t < l
    → (free g (some t) ≡ ok (release g t))
      × (free (release g t) (some l) ≡ ok (release (release g t) l))
      × Framed h bytes at (release (release g t) l)
two_freed {h} {g} {at} {t} {l} ext at_there t_there l_there start above further =
    let l_still = block_at-release_other g t l (λ e. omega (arith, e, further)) ∙ l_there in
    let (free_t, ext_t) = Extends-free ext t_there (λ j k e. omega (arith, e, k, start, above)) in
    let (free_l, ext_l) =
      Extends-free ext_t l_still (λ j k e. omega (arith, e, k, start, above, further)) in
    (
      free_t,
      free_l,
      record {
        contents =
            block_at-release_other (release g t) l at (λ e. omega (arith, e, above, further))
            ∙ block_at-release_other g t at (λ e. omega (arith, e, above))
            ∙ at_there;
        new = λ j k e. omega (arith, e, k, start);
        extends = ext_l;
      },
    )

pub float_pack_to_bytes-Framed :
    (h : Heap ℕ) (p : Packet) (self : Ptr) (b : ℕ) {bytes : List ℕ}
    → block_at h b ≡ ok p.buf
    → Packet.float_pack_to_bytes p ≡ ok bytes
    → let pack : PacketAt = record {
      self = self;
      type = p.type;
      length = p.length;
      buf = some b;
    } in
      (at : ℕ) × (after : Heap ℕ) × (float_pack_to_bytes h pack ≡ ok (some at, after))
      × Framed h bytes at after
unfolding float_pack_to_bytes
float_pack_to_bytes-Framed h p self b {bytes} payload runs =
    let (one, two, contents, first, second, third, fourth) = float_pack_to_bytes-parts p runs in
    let zeros : List ℕ = replicate (word_size * 2 + p.length) 0 in
    let (ext_one, zeros_there) = malloc-Extends h zeros in
    let h1 : Heap ℕ = h ++ some zeros ∷ [] in
    let size_one : length h1 ≡ suc (length h) = omega (arith, length-append h (some zeros ∷ [])) in
    let (h3, copies_type, put) =
      copied_word (length h) 0 (pack_type_to_bytes p.type) (read_type p.type) ext_one (omega arith)
        zeros_there first in
    let (h5, copies_len, put') =
      copied_word (length h) 4 (uint_to_bytes_arr p.length) (read_word p.length) put.extends
        (omega arith) put.here second in
    let (h6, copies_buf, c6) =
      memcpy-Changes h5 (length h) b 8 0 p.length
        (put'.extends.old b (block_at-lt h b payload) ∙ payload) third put'.here fourth in
    let to_type : length h ≢ length h1 = λ e. omega (arith, e, size_one) in
    let to_len : length h ≢ length h3 = λ e. omega (arith, e, size_one, put.size) in
    let (free_type, free_len, framed) =
      two_freed (Extends-Changes put'.extends c6 (λ j l e. omega (arith, e, l))) c6.here
        (c6.others (length h1) to_type
          ∙ put'.others (length h1) (omega (arith, put.size)) to_type
          ∙ put.there)
        (c6.others (length h3) to_len ∙ put'.there) refl (omega (arith, size_one))
        (omega (arith, put.size)) in
    (
      length h,
      release (release h6 (length h1)) (length h3),
      rw copies_type (rw copies_len (rw copies_buf (rw free_type (rw free_len refl)))),
      framed,
    )

pub pack_to_bytes-Framed :
    (h : Heap ℕ) (t : PacketT) (n : ℕ) (buf : List ℕ) (self : Ptr) (b : ℕ) {bytes : List ℕ}
    → block_at h b ≡ ok buf
    → Packet.pack_to_bytes (record { type = t; length = n; buf = buf }) ≡ ok bytes
    → let pack : PacketAt = record { self = self; type = t; length = n; buf = some b } in
      (at : ℕ) × (after : Heap ℕ) × (pack_to_bytes h pack ≡ ok (some at, after))
      × Framed h bytes at after
unfolding pack_to_bytes Packet.pack_to_bytes
pack_to_bytes-Framed h pack_of_floats n buf self b e runs =
    float_pack_to_bytes-Framed h (record { type = pack_of_floats; length = n; buf = buf }) self b e
      runs
pack_to_bytes-Framed h init_pack n buf self b e runs =
    float_pack_to_bytes-Framed h (record { type = init_pack; length = n; buf = buf }) self b e runs
pack_to_bytes-Framed h (other k) n buf self b e runs = cc
