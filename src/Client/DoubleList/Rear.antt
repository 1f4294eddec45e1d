-- ===== src/Client/DoubleList/Rear.antt =====
-- The rear of the double list: a node that is added and taken off again.
use quadrocopt.Base.{
  ℕ, zero, suc, ◌<◌, ◌^◌, ◌≡◌, ◌≢◌, refl, ap, arith, [], ◌∷◌, none, some, ok, sym, or_fault,
}
use quadrocopt.Client.DoubleList.{
  BiNode, BiNodes, DoubleLinkedList, increment, decrement, node_at, modify, with_next, with_prev,
  add_to_double_linked_list, remove_from_double_linked_list_rear,
}

decrement-increment : (n : ℕ) → n < 2 ^ 64 → decrement (increment n) ≡ n
decrement-increment n h = omega arith

module _ {A : Type 0} where
  pub record Modified (h : BiNodes A) (i : ℕ) (f : BiNode A → BiNode A) (n : BiNode A)
      : Type 0 where
    pub after : BiNodes A
    pub modifies : modify h i f ≡ ok after
    pub here : node_at after i ≡ ok (f n)
    pub there : (j : ℕ) (m : BiNode A) → i ≢ j → node_at h j ≡ ok m → node_at after j ≡ ok m

  pub modify-Modified :
      (h : BiNodes A) (i : ℕ) (f : BiNode A → BiNode A) {n : BiNode A}
      → node_at h i ≡ ok n
      → Modified h i f n
  modify-Modified [] i f e = cc
  modify-Modified (m ∷ h) zero f e = record {
    after = f m ∷ h;
    modifies = refl;
    here = cc;
    there = past;
  }
    where
      past :
          (j : ℕ) (k : BiNode A) → zero ≢ j → node_at (m ∷ h) j ≡ ok k → node_at (f m ∷ h) j ≡ ok k
      past zero k d at = absurd (d refl)
      past (suc j) k d at = at
  modify-Modified (m ∷ h) (suc i) f e =
      let c = modify-Modified h i f e in
      record { after = m ∷ c.after; modifies = rw c.modifies; here = c.here; there = past c }
    where
      past :
          {n : BiNode A} (c : Modified h i f n) (j : ℕ) (k : BiNode A)
          → suc i ≢ j
          → node_at (m ∷ h) j ≡ ok k
          → node_at (m ∷ c.after) j ≡ ok k
      past c zero k d at = at
      past c (suc j) k d at = c.there j k (λ x. d (ap suc x)) at

  -- A node added at the rear of a double list that is not empty and then taken off: it is the node
  -- that comes back, and the list is as it was; but the last node's next still points to the node
  -- that was taken off.
  pub remove_rear-add :
      (h : BiNodes A) (list : DoubleLinkedList) (i j : ℕ) {n m : BiNode A}
      → list.tail ≡ some i
      → node_at h i ≡ ok n
      → node_at h j ≡ ok m
      → i ≢ j
      → list.nodes_count < 2 ^ 64
      → (list' : DoubleLinkedList) × (h' : BiNodes A) × (add_to_double_linked_list h list (some j)
          ≡ ok (list', h'))
        × (remove_from_double_linked_list_rear h' list' ≡ ok (some j, list))
        × (node_at h' i ≡ ok (with_next (some j) n))
  unfolding remove_from_double_linked_list_rear
  remove_rear-add h list i j {n} {m} e at_i at_j d small =
      let a = modify-Modified h i (with_next (some j)) at_i in
      let b = modify-Modified a.after j (with_prev list.tail) (a.there j m d at_j) in
      let c = modify-Modified b.after j (with_next none) b.here in
      let back : j ≢ i = λ x. d (sym x) in
      (
        record list { tail = some j; nodes_count = increment list.nodes_count },
        c.after,
        rw (ap or_fault e) (rw a.modifies (rw b.modifies (rw c.modifies))),
        rw c.here
            (ap (λ k. ok (some j, record list { nodes_count = k })) (decrement-increment _ small)),
        c.there i _ back (b.there i _ back a.here),
      )
