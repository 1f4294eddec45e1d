-- ===== src/Packet/Memory/Prepared.antt =====
-- A packet and its bytes made for a send, and the frees of two such sends.
use quadrocopt.Base.{
  ℕ, ◌<◌, ◌≤◌, ◌≡◌, ◌≢◌, refl, sym, ◌∙◌, List, [], ◌∷◌, length, arith, some, ok, >>=-eq-ok,
}
use quadrocopt.Heap.{Heap, release, block_at, free}
use quadrocopt.Heap.Laws.{block_at-lt}
use quadrocopt.Wire.{FloatRepr}
use quadrocopt.Packet
use quadrocopt.Packet.{Packet}
use quadrocopt.Packet.Roundtrip.{sent}
use quadrocopt.Packet.Memory.{free_pack, Outgoing, prepare}
use quadrocopt.Packet.Memory.Laws.{Extends, Extends-trans}
use quadrocopt.Packet.Memory.Building.{gen_packet_from_floats-Placed}
use quadrocopt.Packet.Memory.Framing.{pack_to_bytes-Framed}
use quadrocopt.Packet.Memory.Freeing.{InUse, free_first, Extends-le, below}

-- A packet and its bytes, made for a send.
pub record Prepared (h : Heap ℕ) (p : Packet) (bytes : List ℕ) (out : Outgoing) (after : Heap ℕ)
    : Type 0 where
  pub self : ℕ
  pub buf : ℕ
  pub at : ℕ
  pub fields : out ≡ record {
    pack = record { self = some self; type = p.type; length = p.length; buf = some buf };
    bytes = some at;
  }
  pub contents : block_at after at ≡ ok bytes
  pub structure : block_at after self ≡ ok []
  pub payload : block_at after buf ≡ ok p.buf
  pub apart : self ≢ buf
  pub self_above : length h ≤ self
  pub buf_above : length h ≤ buf
  pub self_below : self < at
  pub buf_below : buf < at
  pub extends : Extends h 3 after

module _ {F : Type 0} (r : FloatRepr F) where
  pub prepare-Prepared :
      (h : Heap ℕ) (batch : List F) {bytes : List ℕ}
      → sent r batch (length batch) ≡ ok bytes
      → (p : Packet) × (out : Outgoing) × (after : Heap ℕ) × (prepare r h batch ≡ ok (out, after))
        × Prepared h p bytes out after
  unfolding prepare
  prepare-Prepared h batch runs =
      let (p, makes, frames) =
        >>=-eq-ok (Packet.gen_packet_from_floats r batch (length batch)) Packet.pack_to_bytes
          runs in
      let (pack, g, made, placed, ext) =
        gen_packet_from_floats-Placed r h batch (length batch) makes in
      let (at, after, framed, f) =
        pack_to_bytes-Framed g p.type p.length p.buf (some placed.self) placed.buf placed.payload
          frames in
      let self_in = block_at-lt g placed.self placed.structure in
      let buf_in = block_at-lt g placed.buf placed.payload in
      let at_above = below at (length g) f.new in
      (
        p,
        record { pack = pack; bytes = some at },
        after,
        rw made (rw placed.fields (rw framed refl)),
        record {
          self = placed.self;
          buf = placed.buf;
          at = at;
          fields = rw placed.fields refl;
          contents = f.contents;
          structure = f.extends.old placed.self self_in ∙ placed.structure;
          payload = f.extends.old placed.buf buf_in ∙ placed.payload;
          apart = placed.apart;
          self_above = below placed.self (length h) placed.new_self;
          buf_above = below placed.buf (length h) placed.new_buf;
          self_below = omega (arith, self_in, at_above);
          buf_below = omega (arith, buf_in, at_above);
          extends = Extends-trans ext f.extends;
        },
      )

-- The six blocks of two sends, in the order in which they are freed.
blocks-InUse :
    {h g k : Heap ℕ} {p q : Packet} {one two : List ℕ} {a b : Outgoing}
    → (x : Prepared h p one a g) (y : Prepared g q two b k)
    → InUse k (x.buf ∷ x.self ∷ y.buf ∷ y.self ∷ x.at ∷ y.at ∷ [])
blocks-InUse {g = g} {p = p} {q = q} {one = one} {two = two} x y =
    let at_in = block_at-lt g x.at x.contents in
    let keep = y.extends.old in
    let buf_there = keep x.buf (omega (arith, at_in)) ∙ x.payload in
    let self_there = keep x.self (omega (arith, at_in)) ∙ x.structure in
    (
      (p.buf, buf_there),
      (
        λ e. x.apart (sym e),
        (
          λ e. omega (arith, e, at_in),
          (
            λ e. omega (arith, e, at_in),
            (λ e. omega (arith, e, at_in), (λ e. omega (arith, e, at_in), tt)),
          ),
        ),
      ),
      (
        ([], self_there),
        (
          λ e. omega (arith, e, at_in),
          (
            λ e. omega (arith, e, at_in),
            (λ e. omega (arith, e, at_in), (λ e. omega (arith, e, at_in), tt)),
          ),
        ),
        (
          (q.buf, y.payload),
          (
            λ e. y.apart (sym e),
            (λ e. omega (arith, e, at_in), (λ e. omega (arith, e, at_in), tt)),
          ),
          (
            ([], y.structure),
            (λ e. omega (arith, e, at_in), (λ e. omega (arith, e, at_in), tt)),
            (
              (one, keep x.at at_in ∙ x.contents),
              (λ e. omega (arith, e, at_in), tt),
              ((two, y.contents), tt, tt),
            ),
          ),
        ),
      ),
    )

pub six_freed :
    {h g k : Heap ℕ} {p q : Packet} {one two : List ℕ} {a b : Outgoing}
    → (x : Prepared h p one a g) (y : Prepared g q two b k)
    → (two four five after : Heap ℕ) × (free_pack k a.pack ≡ ok two)
      × (free_pack two b.pack ≡ ok four)
      × (free four a.bytes ≡ ok five)
      × (free five b.bytes ≡ ok after)
      × Extends h 0 after
unfolding free_pack
six_freed {h} {g} {k} x y =
    let longer = Extends-le x.extends in
    let (free_1, e_1, u_1) =
      free_first x.buf (x.self ∷ y.buf ∷ y.self ∷ x.at ∷ y.at ∷ [])
        (Extends-trans x.extends y.extends) x.buf_above (blocks-InUse x y) in
    let k_1 = release k x.buf in
    let (free_2, e_2, u_2) =
      free_first x.self (y.buf ∷ y.self ∷ x.at ∷ y.at ∷ []) e_1 x.self_above u_1 in
    let k_2 = release k_1 x.self in
    let (free_3, e_3, u_3) =
      free_first y.buf (y.self ∷ x.at ∷ y.at ∷ []) e_2 (omega (arith, longer)) u_2 in
    let k_3 = release k_2 y.buf in
    let (free_4, e_4, u_4) = free_first y.self (x.at ∷ y.at ∷ []) e_3 (omega (arith, longer)) u_3 in
    let k_4 = release k_3 y.self in
    let (free_5, e_5, u_5) = free_first x.at (y.at ∷ []) e_4 (omega (arith, longer)) u_4 in
    let k_5 = release k_4 x.at in
    let (free_6, e_6, _) = free_first y.at [] e_5 (omega (arith, longer)) u_5 in
    (
      k_2,
      k_4,
      k_5,
      release k_5 y.at,
      rw x.fields (rw free_1 free_2),
      rw y.fields (rw free_3 free_4),
      rw x.fields free_5,
      rw y.fields free_6,
      e_6,
    )
