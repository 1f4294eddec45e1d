-- ===== src/Client/Workers/Laws.antt =====
-- What becomes of the workers that are added.
use quadrocopt.Base.{
  ℕ, zero, suc, ◌≡◌, refl, ap, arith, List, [], ◌∷◌, ◌++◌, length, none, some, Outcome, ok, exit,
  fault, ◌>>=◌, >>=-eq-ok, ◌≤◌, ◌∙◌, sym, length-append,
}
use quadrocopt.Heap.{Ptr}
use quadrocopt.Client.Workers.{
  SimpleNode, Nodes, SimpleLinkedList, initialize_simple_node, set_next, add_to_simple_linked_list,
  WorkersCollection, Slot, listener_slot, sender_slot, printer_slot, slot, set_slot, added,
  add_to_workers_collection, node_at, free_loop, free_simple_linked_list,
}

>>=-assoc :
    {A B C : Type 0} (o : Outcome A) (f : A → Outcome B) (k : B → Outcome C)
    → (o >>= f >>= k) ≡ (o >>= λ a. f a >>= k)
>>=-assoc (ok a) f k = refl
>>=-assoc exit f k = refl
>>=-assoc fault f k = refl

workers-set_slot :
    {W : Type 0} (c : WorkersCollection W) (dst : Slot) (w : W)
    → (set_slot c dst w).workers ≡ c.workers
workers-set_slot c listener_slot w = refl
workers-set_slot c sender_slot w = refl
workers-set_slot c printer_slot w = refl

module _ {A : Type 0} where
  abbrev pub next_at : Nodes A → ℕ → Outcome Ptr
  next_at h i = node_at h i >>= λ n. ok n.next

  set_next-cons :
      (m : SimpleNode A) (i : ℕ) (p : Ptr) (o : Outcome (Nodes A))
      → (o >>= (λ h. ok (m ∷ h)) >>= λ h. set_next h (suc i) p)
        ≡ (o >>= (λ h. set_next h i p) >>= λ h. ok (m ∷ h))
  set_next-cons m i p (ok h) = refl
  set_next-cons m i p exit = refl
  set_next-cons m i p fault = refl

  -- A store to a last node that is followed by a store of `NULL` leaves the nodes as they were.
  set_next-twice :
      (h : Nodes A) (i : ℕ) (p : Ptr)
      → next_at h i ≡ ok none
      → (set_next h i p >>= λ h'. set_next h' i none) ≡ ok h
  set_next-twice [] i p e = cc
  set_next-twice (m ∷ h) zero p e =
      let last : m.next ≡ none = ground arith in ap (λ q. ok (record m { next = q } ∷ h)) (sym last)
  set_next-twice (m ∷ h) (suc i) p e =
      set_next-cons m i none (set_next h i p)
      ∙ ap (λ (o : Outcome (Nodes A)). o >>= λ h'. ok (m ∷ h')) (set_next-twice h i p e)

  node_at-append :
      (h t : Nodes A) (i : ℕ) {n : SimpleNode A} → node_at h i ≡ ok n → node_at (h ++ t) i ≡ ok n
  node_at-append [] t i e = cc
  node_at-append (m ∷ h) t zero e = e
  node_at-append (m ∷ h) t (suc i) e = node_at-append h t i e

  next_at-append :
      (h t : Nodes A) (i : ℕ) {p : Ptr} → next_at h i ≡ ok p → next_at (h ++ t) i ≡ ok p
  next_at-append h t i e =
      let (n, at, eq) = >>=-eq-ok (node_at h i) _ e in rw (node_at-append h t i at) eq

  free_loop-append :
      (fuel more : ℕ) (h t : Nodes A) (p : Ptr) {es : List A}
      → fuel ≤ more
      → free_loop fuel h p ≡ ok es
      → free_loop more (h ++ t) p ≡ ok es
  free_loop-append fuel more h t none le e = e
  free_loop-append zero more h t (some i) le e = cc
  free_loop-append (suc fuel) zero h t (some i) le e = absurd (omega arith)
  free_loop-append (suc fuel) (suc more) h t (some i) le e =
      let (n, at, e₁) = >>=-eq-ok (node_at h i) _ e in
      let (rest, freed, e₂) = >>=-eq-ok (free_loop fuel h n.next) _ e₁ in
      rw (node_at-append h t i at)
        (rw (free_loop-append fuel more h t n.next (omega arith) freed) e₂)

  -- A node added to a list whose tail is its last node: nothing changes.
  add_to_simple_linked_list-same :
      (h : Nodes A) (list : SimpleLinkedList) (node : Ptr) (i : ℕ)
      → list.tail ≡ some i
      → next_at h i ≡ ok none
      → add_to_simple_linked_list h list node ≡ ok (list, h)
  unfolding add_to_simple_linked_list
  add_to_simple_linked_list-same h list node i e d = rw e (
      sym (>>=-assoc (set_next h i node) _ _)
      ∙ ap (λ (o : Outcome (Nodes A)). o >>= λ h'. ok (record list { tail = some i }, h'))
          (set_next-twice h i node d))

  -- A worker added to a collection that has a list whose tail is its last node, into an empty
  -- field: the call succeeds and sets the field, but the list stays as it was, and what
  -- free_simple_linked_list frees is what it freed before, so the node of the new worker is lost.
  pub add_to_workers_collection-lost :
      (h : Nodes A) (coll : WorkersCollection A) (list : SimpleLinkedList) (worker : A) (dst : Slot)
      (junk : Ptr) (i : ℕ) (es : List A)
      → coll.workers ≡ some list
      → slot coll dst ≡ none
      → list.tail ≡ some i
      → next_at h i ≡ ok none
      → free_simple_linked_list h list ≡ ok es
      → (h' : Nodes A) × (add_to_workers_collection junk h worker coll dst
          ≡ ok (added, (set_slot coll dst worker, h')))
        × ((set_slot coll dst worker).workers ≡ some list)
        × (free_simple_linked_list h' list ≡ ok es)
  unfolding add_to_workers_collection free_simple_linked_list
  add_to_workers_collection-lost h coll list worker dst junk i es e d f g freed =
      let node = initialize_simple_node h worker junk in
      let kept = workers-set_slot coll dst worker ∙ e in
      (
        node.1,
        rw d (
            rw kept (
              rw (add_to_simple_linked_list-same node.1 list node.0 i f (next_at-append h _ i g)) (
                ap (λ l. ok (added, (record (set_slot coll dst worker) { workers = l }, node.1)))
                  (sym kept)))),
        kept,
        free_loop-append (length h) (length node.1) h _ list.head
            (omega (arith, length-append h (record { el = worker; next = junk } ∷ []))) freed,
      )
