-- ===== src/Heap/Laws.antt =====
-- What an allocation and a free do to the blocks of the heap.
use quadrocopt.Base.{
  ℕ, zero, suc, ◌+◌, ◌≡◌, ◌≢◌, refl, ap, arith, ◌<◌, List, [], ◌∷◌, ◌++◌, length, none, some, ok,
  fault, read_at, read_at-ok, take_all, ◌∙◌,
}
use quadrocopt.Heap.{Ptr, Heap, release, block_at, deref, free, copy_arr_of_floats, live}

-- The number of blocks that a pointer owns.
abbrev pub owned : Ptr → ℕ
owned none = 0
owned (some i) = 1

module _ {F : Type 0} where
  pub block_at-append :
      (h t : Heap F) (i : ℕ) {b : List F} → block_at h i ≡ ok b → block_at (h ++ t) i ≡ ok b
  block_at-append [] t i e = cc
  block_at-append (none ∷ h) t zero e = cc
  block_at-append (some b ∷ h) t zero e = e
  block_at-append (none ∷ h) t (suc i) e = block_at-append h t i e
  block_at-append (some b ∷ h) t (suc i) e = block_at-append h t i e

  pub block_at-new : (h : Heap F) (b : List F) → block_at (h ++ some b ∷ []) (length h) ≡ ok b
  block_at-new [] b = refl
  block_at-new (none ∷ h) b = block_at-new h b
  block_at-new (some c ∷ h) b = block_at-new h b

  pub block_at-lt : (h : Heap F) (i : ℕ) {b : List F} → block_at h i ≡ ok b → i < length h
  block_at-lt [] i e = cc
  block_at-lt (none ∷ h) zero e = omega arith
  block_at-lt (some b ∷ h) zero e = omega arith
  block_at-lt (none ∷ h) (suc i) e = omega (arith, block_at-lt h i e)
  block_at-lt (some b ∷ h) (suc i) e = omega (arith, block_at-lt h i e)

  pub block_at-release_other :
      (h : Heap F) (i j : ℕ) → i ≢ j → block_at (release h i) j ≡ block_at h j
  block_at-release_other [] i j n = refl
  block_at-release_other (b ∷ h) zero zero n = absurd (n refl)
  block_at-release_other (none ∷ h) zero (suc j) n = refl
  block_at-release_other (some b ∷ h) zero (suc j) n = refl
  block_at-release_other (none ∷ h) (suc i) zero n = refl
  block_at-release_other (some b ∷ h) (suc i) zero n = refl
  block_at-release_other (none ∷ h) (suc i) (suc j) n =
      block_at-release_other h i j (λ e. n (ap suc e))
  block_at-release_other (some b ∷ h) (suc i) (suc j) n =
      block_at-release_other h i j (λ e. n (ap suc e))

  pub block_at-release : (h : Heap F) (i : ℕ) → block_at (release h i) i ≡ fault
  block_at-release [] i = refl
  block_at-release (b ∷ h) zero = refl
  block_at-release (none ∷ h) (suc i) = block_at-release h i
  block_at-release (some b ∷ h) (suc i) = block_at-release h i

  pub live-release :
      (h : Heap F) (i : ℕ) {b : List F} → block_at h i ≡ ok b → suc (live (release h i)) ≡ live h
  live-release [] i e = cc
  live-release (none ∷ h) zero e = cc
  live-release (some b ∷ h) zero e = refl
  live-release (none ∷ h) (suc i) e = live-release h i e
  live-release (some b ∷ h) (suc i) e = ap suc (live-release h i e)

  pub live-new : (h : Heap F) (b : List F) → live (h ++ some b ∷ []) ≡ suc (live h)
  live-new [] b = refl
  live-new (none ∷ h) b = live-new h b
  live-new (some c ∷ h) b = ap suc (live-new h b)

  -- A pointer to a block in use with these floats.
  abbrev pub Points : Heap F → Ptr → List F → Type 0
  Points h p b = deref h p ≡ ok b

  -- A pointer that is `NULL`, with no floats, or points to a block with these.
  pub data Holds (h : Heap F) : Ptr → List F → Type 0 where
    null : Holds h none []
    points : {i : ℕ} {b : List F} → block_at h i ≡ ok b → Holds h (some i) b

  -- Every block of the first heap but the one at the pointer is in the second as it was.
  abbrev pub Keeps : Heap F → Ptr → Heap F → Type 0
  Keeps h p h' = (j : ℕ) (b : List F) → p ≢ some j → block_at h j ≡ ok b → block_at h' j ≡ ok b

  pub record Freed (h : Heap F) (p : Ptr) : Type 0 where
    pub after : Heap F
    pub frees : free h p ≡ ok after
    pub keeps : Keeps h p after
    pub count : live after + owned p ≡ live h

  pub free-Freed : (h : Heap F) (p : Ptr) {b : List F} → Holds h p b → Freed h p
  unfolding free
  free-Freed h p null = record {
    after = h;
    frees = refl;
    keeps = λ j _ _ e. e;
    count = omega arith;
  }
  free-Freed h p (points {i} e) = record {
    after = release h i;
    frees = rw e;
    keeps = λ j _ n at. block_at-release_other h i j (λ x. n (ap some x)) ∙ at;
    count = omega (arith, live-release h i e);
  }

  pub read_all : (b : List F) → read_at b 0 (length b) ≡ ok b
  read_all b = read_at-ok b 0 (length b) (omega arith) ∙ ap ok (take_all (length b) b refl)

  pub record Copied (h : Heap F) (src : Ptr) (b : List F) : Type 0 where
    pub after : Heap F
    pub at : ℕ
    pub copies : copy_arr_of_floats h src (length b) ≡ ok (some at, after)
    pub new : block_at after at ≡ ok b
    pub fresh : (j : ℕ) (c : List F) → block_at h j ≡ ok c → at ≢ j
    pub keeps : Keeps h none after
    pub count : live after ≡ suc (live h)

  pub copy_arr_of_floats-Copied :
      (h : Heap F) (src : Ptr) {b : List F} → Points h src b → Copied h src b
  unfolding copy_arr_of_floats
  copy_arr_of_floats-Copied h src {b} e = record {
    after = h ++ some b ∷ [];
    at = length h;
    copies = rw e (rw (read_all b));
    new = block_at-new h b;
    fresh = λ j _ e d. omega (arith, block_at-lt h j e);
    keeps = λ j _ _ at. block_at-append h _ j at;
    count = live-new h b;
  }
