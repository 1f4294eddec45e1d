-- ===== src/Client/Workers/Examples.antt =====
-- A second worker in the collection: the listener is there, and the sender is added.
use quadrocopt.Base.{ℕ, ◌≡◌, refl, [], ◌∷◌, none, some, ok}
use quadrocopt.Client.Workers.{
  Nodes, SimpleLinkedList, WorkersCollection, sender_slot, set_slot, added,
  add_to_workers_collection, free_simple_linked_list,
}
use quadrocopt.Client.Workers.Laws.{add_to_workers_collection-lost}

abbrev one_node : Nodes ℕ
one_node = record { el = 7; next = none } ∷ []

abbrev one_list : SimpleLinkedList
one_list = record { head = some 0; tail = some 0 }

abbrev with_listener : WorkersCollection ℕ
with_listener = record { listener = some 7; sender = none; printer = none; workers = some one_list }

one_freed : free_simple_linked_list one_node one_list ≡ ok (7 ∷ [])
unfolding free_simple_linked_list
one_freed = refl

add_to_workers_collection-lost_example :
    (h' : Nodes ℕ) × (add_to_workers_collection none one_node 8 with_listener sender_slot
      ≡ ok (added, (set_slot with_listener sender_slot 8, h')))
    × ((set_slot with_listener sender_slot 8).workers ≡ some one_list)
    × (free_simple_linked_list h' one_list ≡ ok (7 ∷ []))
add_to_workers_collection-lost_example =
    add_to_workers_collection-lost one_node with_listener one_list 8 sender_slot none 0 (7 ∷ [])
      refl refl refl refl one_freed
