-- ===== src/Client/DoubleList/Examples.antt =====
-- A list of one node, to which another one is added and taken off.
use quadrocopt.Base.{ℕ, ◌≡◌, refl, arith, [], ◌∷◌, none, some, ok, fault, ◌>>=◌}
use quadrocopt.Client.DoubleList.{
  BiNodes, DoubleLinkedList, node_at, initialize_double_linked_list, add_to_double_linked_list,
  add_to_double_linked_list_front, remove_from_double_linked_list_rear, free_double_linked_list,
}
use quadrocopt.Client.DoubleList.Rear.{remove_rear-add}
use quadrocopt.Client.DoubleList.Sequence.{IsDouble, add-IsDouble}

abbrev two_nodes : BiNodes ℕ
two_nodes =
    record { el = 7; prev = none; next = none } ∷ record { el = 8; prev = none; next = none } ∷ []

abbrev one_list : DoubleLinkedList
one_list = record { head = some 0; tail = some 0; nodes_count = 1 }

one_made : initialize_double_linked_list two_nodes (some 0) ≡ ok (one_list, two_nodes)
one_made = refl

remove_rear-add_example :
    (list' : DoubleLinkedList) × (h' : BiNodes ℕ) × (add_to_double_linked_list two_nodes one_list
        (some 1)
      ≡ ok (list', h'))
    × (remove_from_double_linked_list_rear h' list' ≡ ok (some 1, one_list))
    × (node_at h' 0 ≡ ok (record { el = 7; prev = none; next = some 1 }))
remove_rear-add_example =
    remove_rear-add two_nodes one_list 0 1 refl refl refl (omega arith) (omega arith)

-- A list that was made empty takes no node: `tail->next` is written through `NULL`.
add_to_empty :
    (initialize_double_linked_list two_nodes none >>= λ made.
    add_to_double_linked_list made.1 made.0 (some 0))
    ≡ fault
add_to_empty = refl

one_list-IsDouble : IsDouble two_nodes one_list ((0, 7) ∷ [])
one_list-IsDouble = record {
  head = refl;
  tail = refl;
  count = refl;
  linked = (refl, tt);
  distinct = (tt, tt);
}

add-IsDouble_example :
    ((list' : DoubleLinkedList) × (h' : BiNodes ℕ) × (add_to_double_linked_list two_nodes one_list
          (some 1)
        ≡ ok (list', h'))
      × IsDouble h' list' ((0, 7) ∷ (1, 8) ∷ [])
      × (free_double_linked_list 2 h' list' ≡ ok (7 ∷ 8 ∷ [])))
    × ((list' : DoubleLinkedList) × (h' : BiNodes ℕ) × (add_to_double_linked_list_front two_nodes
            one_list
            (some 1)
          ≡ ok (list', h'))
        × IsDouble h' list' ((1, 8) ∷ (0, 7) ∷ [])
        × (free_double_linked_list 2 h' list' ≡ ok (8 ∷ 7 ∷ [])))
add-IsDouble_example =
    add-IsDouble two_nodes one_list 0 7 [] 1 2 one_list-IsDouble refl ((λ e. omega arith), tt)
      (omega arith)

-- The nodes after one of two is taken off at the rear: the list of one node still leads to the other,
-- which is freed as well.
abbrev after_removal : BiNodes ℕ
after_removal =
    record { el = 7; prev = none; next = some 1 }
    ∷ record { el = 8; prev = some 0; next = none }
    ∷ []

frees_removed : free_double_linked_list 2 after_removal one_list ≡ ok (7 ∷ 8 ∷ [])
unfolding free_double_linked_list
frees_removed = refl
