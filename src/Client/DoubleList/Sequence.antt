-- ===== src/Client/DoubleList/Sequence.antt =====
-- A double list as the sequence of its nodes.
use quadrocopt.Base.{
  ℕ, zero, suc, ◌+◌, ◌%◌, ◌^◌, ◌≤◌, ◌≡◌, ◌≢◌, refl, ap, sym, ◌∙◌, arith, false, List, [], ◌∷◌, ◌++◌,
  length, length-append, map, All, none, some, Outcome, ok, or_fault,
}
use mathlib.Core.Path.{subst}
use mathlib.Core.List.{append_assoc}
use quadrocopt.Heap.{Ptr}
use quadrocopt.Client.DoubleList.{
  BiNode, BiNodes, DoubleLinkedList, increment, node_at, with_next, with_prev, is_in,
  add_to_double_linked_list, add_to_double_linked_list_front, free_loop, free_double_linked_list,
}
use quadrocopt.Client.DoubleList.Rear.{modify-Modified}
use quadrocopt.Client.DoubleList.Linked.{
  Cells, first, last, Linked, NotIn, Distinct, first-append, last-append, split-Linked,
  append-Linked, Linked-Modified, split-NotIn, append-Distinct, last-NotIn, from_rear,
}

not_in : (i : ℕ) (freed : List ℕ) → All (λ j. i ≢ j) freed → is_in i freed ≡ false
not_in i [] out = refl
not_in i (j ∷ freed) out = let d = out.0 in rw (not_in i freed out.1) (ground arith)

module _ {A : Type 0} where
  -- A list with these nodes, no two in one place.
  pub record IsDouble (h : BiNodes A) (list : DoubleLinkedList) (ps : Cells A) : Type 0 where
    pub head : list.head ≡ first ps none
    pub tail : list.tail ≡ last ps none
    pub count : list.nodes_count ≡ length ps % 2 ^ 64
    pub linked : Linked h none ps none
    pub distinct : Distinct ps

  abbrev pub elements : Cells A → List A
  elements = map (λ q. q.1)

  -- Nodes that were not freed yet are freed, one by one.
  free_loop-elements :
      (fuel : ℕ) (freed : List ℕ) (h : BiNodes A) (before : Ptr) (ps : Cells A)
      → length ps ≤ fuel
      → Linked h before ps none
      → Distinct ps
      → All (λ q. All (λ j. q.0 ≢ j) freed) ps
      → free_loop fuel freed h (first ps none) ≡ ok (elements ps)
  free_loop-elements zero freed h before [] enough is d out = refl
  free_loop-elements (suc fuel) freed h before [] enough is d out = refl
  free_loop-elements zero freed h before ((i, x) ∷ ps) enough is d out = absurd (omega arith)
  free_loop-elements (suc fuel) freed h before ((i, x) ∷ ps) enough is d out =
      rw (not_in i freed out.0) (
        rw is.0 (
          rw
            (free_loop-elements fuel (i ∷ freed) h (some i) ps (omega arith) is.1 d.1
              (also i freed ps d.0 out.1))
            refl))
    where
      also :
          (i : ℕ) (freed : List ℕ) (ps : Cells A)
          → NotIn i ps
          → All (λ q. All (λ j. q.0 ≢ j) freed) ps
          → All (λ q. All (λ j. q.0 ≢ j) (i ∷ freed)) ps
      also i freed [] d out = tt
      also i freed (q ∷ ps) d out = ((λ e. d.0 (sym e), out.0), also i freed ps d.1 out.1)

  pub free_double_linked_list-elements :
      (fuel : ℕ) (h : BiNodes A) (list : DoubleLinkedList) (ps : Cells A)
      → IsDouble h list ps
      → length ps ≤ fuel
      → free_double_linked_list fuel h list ≡ ok (elements ps)
  unfolding free_double_linked_list
  free_double_linked_list-elements fuel h list ps is enough =
      rw is.head (free_loop-elements fuel [] h none ps enough is.linked is.distinct (none_freed ps))
    where
      none_freed : (ps : Cells A) → All (λ q. All (λ j. q.0 ≢ j) []) ps
      none_freed [] = tt
      none_freed (q ∷ ps) = (tt, none_freed ps)

  -- What a call that adds a node leads to: a list with these nodes.
  abbrev Leads : Outcome (DoubleLinkedList × BiNodes A) → Cells A → Type 0
  Leads run ps =
      (list' : DoubleLinkedList) × (h' : BiNodes A) × (run ≡ ok (list', h')) × IsDouble h' list' ps

  add_rear :
      (h : BiNodes A) (list : DoubleLinkedList) (qs : Cells A) (t : ℕ) (y : A) (j : ℕ)
      {m : BiNode A}
      → IsDouble h list (qs ++ (t, y) ∷ [])
      → node_at h j ≡ ok m
      → NotIn j (qs ++ (t, y) ∷ [])
      → Leads (add_to_double_linked_list h list (some j)) ((qs ++ (t, y) ∷ []) ++ (j, m.el) ∷ [])
  add_rear h list qs t y j {m} is at_j out =
      let (l, r) = split-Linked h none qs ((t, y) ∷ []) none is.linked in
      let (out_qs, out_t) = split-NotIn j qs ((t, y) ∷ []) out in
      let t_out = last-NotIn qs t y is.distinct in
      let tail = is.tail ∙ last-append qs t y none in
      let a = modify-Modified h t (with_next (some j)) r.0 in
      let b =
        modify-Modified a.after j (with_prev list.tail) (a.there j m (λ e. out_t.0 (sym e)) at_j) in
      let c = modify-Modified b.after j (with_next none) b.here in
      let all = append_assoc qs ((t, y) ∷ []) ((j, m.el) ∷ []) in
      (
        record list { tail = some j; nodes_count = increment list.nodes_count },
        c.after,
        rw (ap or_fault tail) (rw a.modifies (rw b.modifies (rw c.modifies refl))),
        rw all (record {
          head =
              is.head
              ∙ (first-append qs ((t, y) ∷ []) none
                  ∙ sym (first-append qs ((t, y) ∷ (j, m.el) ∷ []) none));
          tail = rw (← all) (sym (last-append (qs ++ (t, y) ∷ []) j m.el none));
          count = omega (
            arith,
            is.count,
            length-append qs ((t, y) ∷ []),
            length-append qs ((t, y) ∷ (j, m.el) ∷ []),
          );
          linked =
              append-Linked c.after none qs ((t, y) ∷ (j, m.el) ∷ []) none
                (Linked-Modified b.after j c none qs (some t) out_qs (
                  Linked-Modified a.after j b none qs (some t) out_qs
                    (Linked-Modified h t a none qs (some t) t_out l)))
                (
                  c.there t _ out_t.0 (b.there t _ out_t.0 a.here),
                  (c.here ∙ ap (λ p. ok (with_prev p (with_next none m))) tail, tt),
                );
          distinct = rw (← all) (append-Distinct (qs ++ (t, y) ∷ []) j m.el out is.distinct);
        }),
      )

  add_front :
      (h : BiNodes A) (list : DoubleLinkedList) (i : ℕ) (x : A) (ps : Cells A) (j : ℕ)
      {m : BiNode A}
      → IsDouble h list ((i, x) ∷ ps)
      → node_at h j ≡ ok m
      → NotIn j ((i, x) ∷ ps)
      → Leads (add_to_double_linked_list_front h list (some j)) ((j, m.el) ∷ (i, x) ∷ ps)
  add_front h list i x ps j {m} is at_j out =
      let a = modify-Modified h i (with_prev (some j)) is.linked.0 in
      let b =
        modify-Modified a.after j (with_next list.head) (a.there j m (λ e. out.0 (sym e)) at_j) in
      let c = modify-Modified b.after j (with_prev none) b.here in
      (
        record list { head = some j; nodes_count = increment list.nodes_count },
        c.after,
        rw (ap or_fault is.head) (rw a.modifies (rw b.modifies (rw c.modifies refl))),
        record {
          head = refl;
          tail = is.tail;
          count = omega (arith, is.count);
          linked = (
            c.here ∙ ap (λ p. ok (with_next p (with_prev none m))) is.head,
            (
              c.there i _ out.0 (b.there i _ out.0 a.here),
              Linked-Modified b.after j c (some i) ps none out.1 (
                  Linked-Modified a.after j b (some i) ps none out.1
                    (Linked-Modified h i a (some i) ps none is.distinct.0 is.linked.1)),
            ),
          );
          distinct = (out, is.distinct);
        },
      )

  add_behind :
      (h : BiNodes A) (list : DoubleLinkedList) (i : ℕ) (x : A) (ps : Cells A) (j : ℕ)
      {m : BiNode A}
      → IsDouble h list ((i, x) ∷ ps)
      → node_at h j ≡ ok m
      → NotIn j ((i, x) ∷ ps)
      → Leads (add_to_double_linked_list h list (some j)) (((i, x) ∷ ps) ++ (j, m.el) ∷ [])
  add_behind h list i x ps j {m} is at_j out =
      let (qs, t, y, e) = from_rear i x ps in
      subst
        (λ l.
          IsDouble h list l
          → NotIn j l
          → Leads (add_to_double_linked_list h list (some j)) (l ++ (j, m.el) ∷ []))
        (sym e) (λ is out. add_rear h list qs t y j is at_j out) is out

  -- A new node with its element, added to a list that is not empty, at the rear or at the front: both
  -- calls succeed, the list is then that of the nodes it had with the new one behind them or before
  -- them, and to free it frees every element once, in that order, for any fuel of at least as many
  -- rounds as it has nodes.
  pub add-IsDouble :
      (h : BiNodes A) (list : DoubleLinkedList) (i : ℕ) (x : A) (ps : Cells A) (j : ℕ)
      {m : BiNode A} (fuel : ℕ)
      → IsDouble h list ((i, x) ∷ ps)
      → node_at h j ≡ ok m
      → NotIn j ((i, x) ∷ ps)
      → length ps + 2 ≤ fuel
      → ((list' : DoubleLinkedList) × (h' : BiNodes A) × (add_to_double_linked_list h list (some j)
            ≡ ok (list', h'))
          × IsDouble h' list' (((i, x) ∷ ps) ++ (j, m.el) ∷ [])
          × (free_double_linked_list fuel h' list'
              ≡ ok (elements (((i, x) ∷ ps) ++ (j, m.el) ∷ []))))
        × ((list' : DoubleLinkedList) × (h' : BiNodes A) × (add_to_double_linked_list_front h list
                (some j)
              ≡ ok (list', h'))
            × IsDouble h' list' ((j, m.el) ∷ (i, x) ∷ ps)
            × (free_double_linked_list fuel h' list' ≡ ok (elements ((j, m.el) ∷ (i, x) ∷ ps))))
  add-IsDouble h list i x ps j {m} fuel is at_j out enough =
      let new : Cells A = (j, m.el) ∷ [] in
      let (list', h', runs, rear) = add_behind h list i x ps j is at_j out in
      let (list'', h'', runs', front) = add_front h list i x ps j is at_j out in
      (
        (
          list',
          h',
          runs,
          rear,
          free_double_linked_list-elements fuel h' list' (((i, x) ∷ ps) ++ new) rear
              (omega (arith, length-append ((i, x) ∷ ps) new)),
        ),
        (
          list'',
          h'',
          runs',
          front,
          free_double_linked_list-elements fuel h'' list'' ((j, m.el) ∷ (i, x) ∷ ps) front
              (omega arith),
        ),
      )
