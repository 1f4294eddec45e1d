-- ===== src/Packet/Memory/Building.antt =====
-- A packet made of floats in memory: it is the packet of Packet, and two blocks more are in use.
use quadrocopt.Base.{
  ℕ, zero, suc, ◌+◌, ◌<◌, ◌≡◌, ◌≢◌, refl, ap, sym, ◌∙◌, List, [], ◌∷◌, ◌++◌, length, length-append,
  arith, some, ok, ◌>>=◌, >>=-eq-ok, read_at, write_at, or_fault, get_elem?, replicate, ◌*◌, ◌%◌,
  ◌^◌,
}
use quadrocopt.Heap.{Heap, release, block_at, live, free}
use quadrocopt.Heap.Laws.{
  block_at-release_other, live-release, block_at-new, live-new, block_at-lt, read_all,
}
use quadrocopt.Wire.{pack_of_floats, FloatRepr, float_to_char_arr}
use quadrocopt.Wire.Floats.{length-float_to_char_arr}
use quadrocopt.Packet
use quadrocopt.Packet.{Packet, word_size}
use quadrocopt.Packet.Memory.{PacketAt, fill_loop, gen_packet_from_floats}
use quadrocopt.Packet.Memory.Laws.{
  block_at-append_old, length-release, Changes, memcpy-Changes, Extends, malloc-Extends,
  Extends-trans,
}

-- The loop has written one block, and freed all that it made.
pub record Fills (h : Heap ℕ) (k : ℕ) (b : List ℕ) (after : Heap ℕ) : Type 0 where
  pub longer : (j : ℕ) → j < length h → j < length after
  pub here : block_at after k ≡ ok b
  pub others : (j : ℕ) → j < length h → k ≢ j → block_at after j ≡ block_at h j
  pub count : live after ≡ live h

Extends-Fills :
    {h g k : Heap ℕ} {m i : ℕ} {b : List ℕ}
    → Extends h m g
    → Fills g i b k
    → ((j : ℕ) → j < length h → i ≢ j)
    → Extends h m k
Extends-Fills x c new = record {
  longer = λ j l. c.longer j (x.longer j l);
  old = λ j l. c.others j (x.longer j l) (new j l) ∙ x.old j l;
  count = c.count ∙ x.count;
}

-- The packet's structure and its payload, both behind what was in memory.
pub record Placed (h : Heap ℕ) (p : Packet) (pack : PacketAt) (after : Heap ℕ) : Type 0 where
  pub self : ℕ
  pub buf : ℕ
  pub fields : pack ≡ record { self = some self; type = p.type; length = p.length; buf = some buf }
  pub payload : block_at after buf ≡ ok p.buf
  pub structure : block_at after self ≡ ok []
  pub apart : self ≢ buf
  pub new_self : (j : ℕ) → j < length h → self ≢ j
  pub new_buf : (j : ℕ) → j < length h → buf ≢ j

module _ {F : Type 0} (r : FloatRepr F) where
  read_repr : (f : F) → read_at (float_to_char_arr r f) 0 4 ≡ ok (float_to_char_arr r f)
  read_repr f =
      ap (read_at (float_to_char_arr r f) 0) (sym (length-float_to_char_arr r f))
      ∙ read_all (float_to_char_arr r f)

  -- A round of the loop.
  record Round (h : Heap ℕ) (k : ℕ) (b : List ℕ) (f : F) (g : Heap ℕ) : Type 0 where
    size : length g ≡ suc (length h)
    frees : free g (some (length h)) ≡ ok (release g (length h))
    fills : Fills h k b (release g (length h))

  fill_loop-step :
      {h g : Heap ℕ} {k : ℕ} {a b : List ℕ} (f : F)
      → block_at h k ≡ ok a
      → Changes (h ++ some (float_to_char_arr r f) ∷ []) k b g
      → Round h k b f g
  unfolding free
  fill_loop-step {h} {g} {k} {a} {b} f e c =
      let bytes = float_to_char_arr r f in
      let in_heap = block_at-lt h k e in
      let apart : k ≢ length h = λ q. omega (arith, q, in_heap) in
      let made : block_at g (length h) ≡ ok bytes =
        c.others (length h) apart ∙ block_at-new h bytes in
      let longer = length-append h (some bytes ∷ []) in
      record {
        size = omega (arith, c.size, longer);
        frees = rw made refl;
        fills = record {
          longer = λ j l. omega (arith, l, c.size, longer, length-release g (length h));
          here = block_at-release_other g (length h) k (λ q. apart (sym q)) ∙ c.here;
          others = λ j l n.
              block_at-release_other g (length h) j (λ q. omega (arith, q, l))
              ∙ c.others j n
              ∙ block_at-append_old h (some bytes ∷ []) j l;
          count = omega (arith, live-release g (length h) made, c.count, live-new h bytes);
        };
      }

  Fills-trans :
      {h g k : Heap ℕ} {i : ℕ} {a b : List ℕ} → Fills h i a g → Fills g i b k → Fills h i b k
  Fills-trans x y = record {
    longer = λ j l. y.longer j (x.longer j l);
    here = y.here;
    others = λ j l n. y.others j (x.longer j l) n ∙ x.others j l n;
    count = y.count ∙ x.count;
  }

  -- A round of the loop in Packet that ends in a value.
  fill_loop-parts :
      (left i offset : ℕ) (buf : List F) (a : List ℕ) {b : List ℕ}
      → Packet.fill_loop r (suc left) i offset buf a ≡ ok b
      → (f : F) × (w : List ℕ) × (or_fault (get_elem? buf i) ≡ ok f)
        × (write_at a offset (float_to_char_arr r f) ≡ ok w)
        × (Packet.fill_loop r left (i + 1) (offset + 4) buf w ≡ ok b)
  unfolding Packet.fill_loop
  fill_loop-parts left i offset buf a runs =
      let (f, is_f, rest) =
        >>=-eq-ok (or_fault (get_elem? buf i))
          (λ f. write_at a offset (float_to_char_arr r f) >>= λ w.
            Packet.fill_loop r left (i + 1) (offset + 4) buf w)
          runs in
      let (w, written, rest') =
        >>=-eq-ok (write_at a offset (float_to_char_arr r f))
          (λ w. Packet.fill_loop r left (i + 1) (offset + 4) buf w) rest in
      (f, w, is_f, written, rest')

  fill_loop-Fills :
      (left i offset : ℕ) (buf : List F) (h : Heap ℕ) (k : ℕ) {a b : List ℕ}
      → block_at h k ≡ ok a
      → Packet.fill_loop r left i offset buf a ≡ ok b
      → (after : Heap ℕ) × (fill_loop r left i offset buf (some k) h ≡ ok after) × Fills h k b after
  unfolding fill_loop Packet.fill_loop
  fill_loop-Fills zero i offset buf h k {a} {b} e runs =
      (h, refl, record { longer = λ j l. l; here = e ∙ runs; others = λ j l n. refl; count = refl })
  fill_loop-Fills (suc left) i offset buf h k {a} {b} e runs =
      let (f, w, is_f, written, rest) = fill_loop-parts left i offset buf a runs in
      let bytes = float_to_char_arr r f in
      let there = block_at-append_old h (some bytes ∷ []) k (block_at-lt h k e) ∙ e in
      let (g, copies, c) =
        memcpy-Changes (h ++ some bytes ∷ []) k (length h) offset 0 4 (block_at-new h bytes)
          (read_repr f) there written in
      let one = fill_loop-step f e c in
      let (after, ends, more) =
        fill_loop-Fills left (i + 1) (offset + 4) buf (release g (length h)) k one.fills.here
          rest in
      (after, rw is_f (rw copies (rw one.frees ends)), Fills-trans one.fills more)

  pub gen_packet_from_floats-Placed :
      (h : Heap ℕ) (buf : List F) (len : ℕ) {p : Packet}
      → Packet.gen_packet_from_floats r buf len ≡ ok p
      → (pack : PacketAt) × (after : Heap ℕ) × (gen_packet_from_floats r h buf len
          ≡ ok (pack, after))
        × Placed h p pack after
        × Extends h 2 after
  unfolding gen_packet_from_floats Packet.gen_packet_from_floats Packet.fill_packet
  gen_packet_from_floats-Placed h buf len {p} runs =
      let (filled, fills, made) =
        >>=-eq-ok (Packet.fill_loop r len 0 0 buf (replicate (word_size * len) 0))
          (λ b. ok (record { type = pack_of_floats; length = (len * word_size) % 2 ^ 32; buf = b }))
          runs in
      let (ext_pack, pack_there) = malloc-Extends h [] in
      let h' : Heap ℕ = h ++ some [] ∷ [] in
      let zeros : List ℕ = replicate (word_size * len) 0 in
      let (ext_buf, buf_there) = malloc-Extends h' zeros in
      let size : length h' ≡ suc (length h) = omega (arith, length-append h (some [] ∷ [])) in
      let h'' : Heap ℕ = h' ++ some zeros ∷ [] in
      let (after, ends, done) = fill_loop-Fills len 0 0 buf h'' (length h') buf_there fills in
      let behind : (j : ℕ) → j < length h → length h' ≢ j = λ j l e. omega (arith, size, e, l) in
      (
        record {
          self = some (length h);
          type = pack_of_floats;
          length = (len * word_size) % 2 ^ 32;
          buf = some (length h');
        },
        after,
        rw ends refl,
        record {
          self = length h;
          buf = length h';
          fields = ground (arith, made);
          payload = done.here ∙ ground (arith, made);
          structure =
              done.others (length h) (ext_buf.longer (length h) (omega (arith, size)))
                (λ e. omega (arith, size, e))
              ∙ ext_buf.old (length h) (omega (arith, size))
              ∙ pack_there;
          apart = λ e. omega (arith, size, e);
          new_self = λ j l e. omega (arith, e, l);
          new_buf = behind;
        },
        Extends-Fills (Extends-trans ext_pack ext_buf) done behind,
      )
