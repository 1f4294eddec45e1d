-- ===== src/Packet/Memory/Laws.antt =====
-- What a write leaves of the heap, and what a block is at a place that was there before.
use quadrocopt.Base.{
  ℕ, zero, suc, ◌+◌, ◌<◌, ◌≡◌, ◌≢◌, refl, ap, ◌∙◌, List, [], ◌∷◌, ◌++◌, length, length-append,
  arith, some, none, ok, read_at, write_at,
}
use quadrocopt.Heap.{Heap, release, block_at, live, free}
use quadrocopt.Heap.Laws.{block_at-release_other, live-release, block_at-new, live-new, block_at-lt}
use quadrocopt.Packet.Memory.{store_at, memcpy}

pub block_at-append_old : (h t : Heap ℕ) (j : ℕ) → j < length h → block_at (h ++ t) j ≡ block_at h j
block_at-append_old [] t j l = absurd (omega arith)
block_at-append_old (none ∷ h) t zero l = refl
block_at-append_old (some b ∷ h) t zero l = refl
block_at-append_old (none ∷ h) t (suc j) l = block_at-append_old h t j (omega arith)
block_at-append_old (some b ∷ h) t (suc j) l = block_at-append_old h t j (omega arith)

pub length-release : (h : Heap ℕ) (i : ℕ) → length (release h i) ≡ length h
length-release [] i = refl
length-release (b ∷ h) zero = refl
length-release (b ∷ h) (suc i) = ap suc (length-release h i)

-- A heap in which only the block at one place is another.
pub record Changes (h : Heap ℕ) (i : ℕ) (b : List ℕ) (after : Heap ℕ) : Type 0 where
  pub size : length after ≡ length h
  pub here : block_at after i ≡ ok b
  pub others : (j : ℕ) → i ≢ j → block_at after j ≡ block_at h j
  pub count : live after ≡ live h

length-store_at : (h : Heap ℕ) (i : ℕ) (b : List ℕ) → length (store_at h i b) ≡ length h
length-store_at [] i b = refl
length-store_at (c ∷ h) zero b = refl
length-store_at (c ∷ h) (suc i) b = ap suc (length-store_at h i b)

block_at-store_at :
    (h : Heap ℕ) (i : ℕ) (b : List ℕ) → i < length h → block_at (store_at h i b) i ≡ ok b
block_at-store_at [] i b l = absurd (omega arith)
block_at-store_at (c ∷ h) zero b l = refl
block_at-store_at (none ∷ h) (suc i) b l = block_at-store_at h i b (omega arith)
block_at-store_at (some c ∷ h) (suc i) b l = block_at-store_at h i b (omega arith)

block_at-store_at_other :
    (h : Heap ℕ) (i j : ℕ) (b : List ℕ) → i ≢ j → block_at (store_at h i b) j ≡ block_at h j
block_at-store_at_other [] i j b n = refl
block_at-store_at_other (c ∷ h) zero zero b n = absurd (n refl)
block_at-store_at_other (none ∷ h) zero (suc j) b n = refl
block_at-store_at_other (some c ∷ h) zero (suc j) b n = refl
block_at-store_at_other (none ∷ h) (suc i) zero b n = refl
block_at-store_at_other (some c ∷ h) (suc i) zero b n = refl
block_at-store_at_other (none ∷ h) (suc i) (suc j) b n =
    block_at-store_at_other h i j b (λ e. n (ap suc e))
block_at-store_at_other (some c ∷ h) (suc i) (suc j) b n =
    block_at-store_at_other h i j b (λ e. n (ap suc e))

live-store_at :
    (h : Heap ℕ) (i : ℕ) (b : List ℕ) {c : List ℕ}
    → block_at h i ≡ ok c
    → live (store_at h i b) ≡ live h
live-store_at [] i b e = cc
live-store_at (none ∷ h) zero b e = cc
live-store_at (some c ∷ h) zero b e = refl
live-store_at (none ∷ h) (suc i) b e = live-store_at h i b e
live-store_at (some c ∷ h) (suc i) b e = ap suc (live-store_at h i b e)

pub store-Changes :
    (h : Heap ℕ) (i : ℕ) (written : List ℕ) {to : List ℕ}
    → block_at h i ≡ ok to
    → Changes h i written (store_at h i written)
store-Changes h i written to = record {
  size = length-store_at h i written;
  here = block_at-store_at h i written (block_at-lt h i to);
  others = λ j n. block_at-store_at_other h i j written n;
  count = live-store_at h i written to;
}

pub memcpy-Changes :
    (h : Heap ℕ) (dest src offset start n : ℕ) {from to bytes written : List ℕ}
    → block_at h src ≡ ok from
    → read_at from start n ≡ ok bytes
    → block_at h dest ≡ ok to
    → write_at to offset bytes ≡ ok written
    → (after : Heap ℕ) × (memcpy h (some dest) offset (some src) start n ≡ ok after)
      × Changes h dest written after
unfolding memcpy
memcpy-Changes h dest src offset start n {written = written} from read to write = (
  store_at h dest written,
  rw from (rw read (rw to (rw write refl))),
  store-Changes h dest written to,
)

-- A heap with more behind it, in which every place that was there is as it was.
pub record Extends (h : Heap ℕ) (more : ℕ) (after : Heap ℕ) : Type 0 where
  pub longer : (j : ℕ) → j < length h → j < length after
  pub old : (j : ℕ) → j < length h → block_at after j ≡ block_at h j
  pub count : live after ≡ live h + more

pub malloc-Extends :
    (h : Heap ℕ) (b : List ℕ)
    → Extends h 1 (h ++ some b ∷ []) × (block_at (h ++ some b ∷ []) (length h) ≡ ok b)
malloc-Extends h b = (
  record {
    longer = λ j l. omega (arith, length-append h (some b ∷ []));
    old = λ j l. block_at-append_old h (some b ∷ []) j l;
    count = omega (arith, live-new h b);
  },
  block_at-new h b,
)

pub Extends-trans : {h g k : Heap ℕ} {m n : ℕ} → Extends h m g → Extends g n k → Extends h (m + n) k
Extends-trans x y = record {
  longer = λ j l. y.longer j (x.longer j l);
  old = λ j l. y.old j (x.longer j l) ∙ x.old j l;
  count = omega (arith, x.count, y.count);
}

-- A write to a place that is new.
pub Extends-Changes :
    {h g k : Heap ℕ} {m i : ℕ} {b : List ℕ}
    → Extends h m g
    → Changes g i b k
    → ((j : ℕ) → j < length h → i ≢ j)
    → Extends h m k
Extends-Changes {h} {g} {k} x c new = record {
  longer = λ j l. omega (arith, x.longer j l, c.size);
  old = λ j l. c.others j (new j l) ∙ x.old j l;
  count = c.count ∙ x.count;
}

-- A free of a block at a place that is new.
pub Extends-free :
    {h g : Heap ℕ} {m i : ℕ} {b : List ℕ}
    → Extends h (suc m) g
    → block_at g i ≡ ok b
    → ((j : ℕ) → j < length h → i ≢ j)
    → (free g (some i) ≡ ok (release g i)) × Extends h m (release g i)
unfolding free
Extends-free {h} {g} {m} {i} x e new = (
  rw e refl,
  record {
    longer = λ j l. omega (arith, x.longer j l, length-release g i);
    old = λ j l. block_at-release_other g i j (new j l) ∙ x.old j l;
    count = omega (arith, live-release g i e, x.count);
  },
)
