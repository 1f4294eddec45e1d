-- ===== src/Packet/Memory/Freeing.antt =====
-- Blocks that a send or a parse made, freed one after the other.
use quadrocopt.Base.{ℕ, suc, ◌<◌, ◌≤◌, ◌≡◌, ◌≢◌, refl, ◌∙◌, List, [], ◌∷◌, length, arith, some, ok}
use native.Mathlib.Decide.{dec_lt}
use quadrocopt.Heap.{Heap, release, block_at, free}
use quadrocopt.Heap.Laws.{block_at-release_other}
use quadrocopt.Packet.Memory.Laws.{Extends, Extends-free}

-- Blocks in use, each at a place of its own.
abbrev pub Apart : ℕ → List ℕ → Type 0
Apart i [] = Unit
Apart i (j ∷ js) = (i ≢ j) × Apart i js

abbrev pub InUse : Heap ℕ → List ℕ → Type 0
InUse g [] = Unit
InUse g (i ∷ is) = ((b : List ℕ) × (block_at g i ≡ ok b)) × Apart i is × InUse g is

InUse-release :
    (g : Heap ℕ) (i : ℕ) (is : List ℕ) → Apart i is → InUse g is → InUse (release g i) is
InUse-release g i [] a u = tt
InUse-release g i (j ∷ js) (i≢j, a) ((b, there), rest, u) =
    ((b, block_at-release_other g i j i≢j ∙ there), rest, InUse-release g i js a u)

-- To free the first of some blocks that are new.
pub free_first :
    {h g : Heap ℕ} {m : ℕ} (i : ℕ) (is : List ℕ)
    → Extends h (suc m) g
    → length h ≤ i
    → InUse g (i ∷ is)
    → (free g (some i) ≡ ok (release g i)) × Extends h m (release g i) × InUse (release g i) is
free_first {g = g} i is ext new ((b, there), apart, rest) =
    let (frees, less) = Extends-free ext there (λ j l e. omega (arith, e, l, new)) in
    (frees, less, InUse-release g i is apart rest)

pub Extends-le : {h g : Heap ℕ} {m : ℕ} → Extends h m g → length h ≤ length g
Extends-le {h} {g} x = elim (dec_lt (length g) (length h)) [
  | yes p ↦ absurd (omega (arith, x.longer (length g) p))
  | no p ↦ omega arith
]

pub below : (i n : ℕ) → ((j : ℕ) → j < n → i ≢ j) → n ≤ i
below i n new = elim (dec_lt i n) [ yes p ↦ absurd (new i p refl) | no p ↦ omega arith ]
