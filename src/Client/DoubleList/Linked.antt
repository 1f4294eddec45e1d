-- ===== src/Client/DoubleList/Linked.antt =====
-- The nodes of a double list, linked to their neighbours in the heap.
use quadrocopt.Base.{ℕ, ◌≡◌, ◌≢◌, refl, ap, sym, List, [], ◌∷◌, ◌++◌, All, some, ok}
use quadrocopt.Heap.{Ptr}
use quadrocopt.Client.DoubleList.{BiNode, BiNodes, node_at}
use quadrocopt.Client.DoubleList.Rear.{Modified}

-- The nodes with their addresses.
abbrev pub Cells : Type 0 → Type 0
Cells A = List (ℕ × A)

module _ {A : Type 0} where
  abbrev pub first : Cells A → Ptr → Ptr
  first [] p = p
  first ((i, x) ∷ ps) p = some i

  abbrev pub last : Cells A → Ptr → Ptr
  last [] p = p
  last ((i, x) ∷ ps) p = last ps (some i)

  -- The nodes stand in the heap, each with its neighbours, between two given ones.
  abbrev pub Linked : BiNodes A → (before : Ptr) → Cells A → (behind : Ptr) → Type 0
  Linked h before [] behind = Unit
  Linked h before ((i, x) ∷ ps) behind =
      (node_at h i ≡ ok (record { el = x; prev = before; next = first ps behind }))
      × Linked h (some i) ps behind

  abbrev pub NotIn : ℕ → Cells A → Type 0
  NotIn i = All (λ q. i ≢ q.0)

  abbrev pub Distinct : Cells A → Type 0
  Distinct [] = Unit
  Distinct ((i, x) ∷ ps) = NotIn i ps × Distinct ps

  pub first-append : (qs rs : Cells A) (p : Ptr) → first (qs ++ rs) p ≡ first qs (first rs p)
  first-append [] rs p = refl
  first-append ((i, x) ∷ qs) rs p = refl

  pub last-append : (qs : Cells A) (t : ℕ) (y : A) (p : Ptr) → last (qs ++ (t, y) ∷ []) p ≡ some t
  last-append [] t y p = refl
  last-append ((i, x) ∷ qs) t y p = last-append qs t y (some i)

  pub split-Linked :
      (h : BiNodes A) (p : Ptr) (qs rs : Cells A) (n : Ptr)
      → Linked h p (qs ++ rs) n
      → Linked h p qs (first rs n) × Linked h (last qs p) rs n
  split-Linked h p [] rs n is = (tt, is)
  split-Linked h p ((i, x) ∷ qs) rs n is =
      let (l, r) = split-Linked h (some i) qs rs n is.1 in
      ((rw (first-append qs rs n) at is.0, l), r)

  pub append-Linked :
      (h : BiNodes A) (p : Ptr) (qs rs : Cells A) (n : Ptr)
      → Linked h p qs (first rs n)
      → Linked h (last qs p) rs n
      → Linked h p (qs ++ rs) n
  append-Linked h p [] rs n l r = r
  append-Linked h p ((i, x) ∷ qs) rs n l r =
      (rw (first-append qs rs n) l.0, append-Linked h (some i) qs rs n l.1 r)

  -- A store to a node that is not among them leaves them linked.
  pub Linked-Modified :
      (h : BiNodes A) (j : ℕ) {f : BiNode A → BiNode A} {m : BiNode A} (c : Modified h j f m)
      (p : Ptr) (ps : Cells A) (n : Ptr)
      → NotIn j ps
      → Linked h p ps n
      → Linked c.after p ps n
  Linked-Modified h j c p [] n out is = tt
  Linked-Modified h j c p ((i, x) ∷ ps) n out is =
      (c.there i _ out.0 is.0, Linked-Modified h j c (some i) ps n out.1 is.1)

  pub split-NotIn : (i : ℕ) (qs rs : Cells A) → NotIn i (qs ++ rs) → NotIn i qs × NotIn i rs
  split-NotIn i [] rs out = (tt, out)
  split-NotIn i (q ∷ qs) rs out = let (l, r) = split-NotIn i qs rs out.1 in ((out.0, l), r)

  pub append-Distinct :
      (qs : Cells A) (t : ℕ) (y : A) → NotIn t qs → Distinct qs → Distinct (qs ++ (t, y) ∷ [])
  append-Distinct [] t y out is = (tt, tt)
  append-Distinct ((i, x) ∷ qs) t y out is =
      (append-NotIn i qs (λ e. out.0 (sym e)) is.0, append-Distinct qs t y out.1 is.1)
    where
      append-NotIn : (i : ℕ) (qs : Cells A) → i ≢ t → NotIn i qs → NotIn i (qs ++ (t, y) ∷ [])
      append-NotIn i [] d out = (d, tt)
      append-NotIn i (q ∷ qs) d out = (out.0, append-NotIn i qs d out.1)

  pub last-NotIn : (qs : Cells A) (t : ℕ) (y : A) → Distinct (qs ++ (t, y) ∷ []) → NotIn t qs
  last-NotIn [] t y is = tt
  last-NotIn ((i, x) ∷ qs) t y is =
      let (_, r) = split-NotIn i qs ((t, y) ∷ []) is.0 in (λ e. r.0 (sym e), last-NotIn qs t y is.1)

  -- The last node apart.
  pub from_rear :
      (i : ℕ) (x : A) (ps : Cells A)
      → (qs : Cells A) × (t : ℕ) × (y : A) × ((i, x) ∷ ps ≡ qs ++ (t, y) ∷ [])
  from_rear i x [] = ([], i, x, refl)
  from_rear i x ((j, y) ∷ ps) =
      let (qs, t, z, e) = from_rear j y ps in ((i, x) ∷ qs, t, z, ap (λ r. (i, x) ∷ r) e)
