-- ===== src/Client/DoubleList.antt =====
-- The double linked list of client/utils.c. The nodes stand in a heap; the list is a value, passed
-- on from call to call, and its `nodes_count` is a `size_t` of 64 bits.
pub mod Rear
pub mod Linked
pub mod Sequence
mod Examples
use quadrocopt.Base.{
  ℕ, zero, suc, ◌+◌, ◌-◌, ◌%◌, ◌^◌, List, [], ◌∷◌, ◌++◌, length, none, some, Outcome, ok, fault,
  ◌>>=◌, or_fault, Bool, true, false, ◌||◌, ◌==◌, if◌then◌else◌,
}
use quadrocopt.Heap.{Ptr}

pub record BiNode (A : Type 0) : Type 0 where
  pub el : A
  pub prev : Ptr
  pub next : Ptr

abbrev pub BiNodes : Type 0 → Type 0
BiNodes A = List (BiNode A)

pub record DoubleLinkedList : Type 0 where
  pub head : Ptr
  pub tail : Ptr
  pub nodes_count : ℕ

abbrev pub increment : ℕ → ℕ
increment n = (n + 1) % 2 ^ 64

abbrev pub decrement : ℕ → ℕ
decrement n = (n + (2 ^ 64 - 1)) % 2 ^ 64

-- Whether a node was freed before.
abbrev pub is_in : ℕ → List ℕ → Bool
is_in i [] = false
is_in i (j ∷ js) = (i == j) || is_in i js

module _ {A : Type 0} where
  abbrev pub node_at : BiNodes A → ℕ → Outcome (BiNode A)
  node_at [] i = fault
  node_at (n ∷ h) zero = ok n
  node_at (n ∷ h) (suc i) = node_at h i

  -- A store to a field of a node.
  abbrev pub modify : BiNodes A → ℕ → (BiNode A → BiNode A) → Outcome (BiNodes A)
  modify [] i f = fault
  modify (n ∷ h) zero f = ok (f n ∷ h)
  modify (n ∷ h) (suc i) f = modify h i f >>= λ h. ok (n ∷ h)

  abbrev pub with_next : Ptr → BiNode A → BiNode A
  with_next p n = record n { next = p }

  abbrev pub with_prev : Ptr → BiNode A → BiNode A
  with_prev p n = record n { prev = p }

  abbrev pub initialize_binode : BiNodes A → A → (junk_prev junk_next : Ptr) → Ptr × BiNodes A
  initialize_binode h el junk_prev junk_next =
      (some (length h), h ++ (record { el = el; prev = junk_prev; next = junk_next }) ∷ [])

  abbrev pub initialize_double_linked_list :
      BiNodes A → (node : Ptr) → Outcome (DoubleLinkedList × BiNodes A)
  initialize_double_linked_list h none =
      ok (record { head = none; tail = none; nodes_count = 0 }, h)
  initialize_double_linked_list h (some i) = do
    h ← modify h i (with_next none)
    h ← modify h i (with_prev none)
    h ← modify h i (with_next none)
    h ← modify h i (with_next none)
    ok (record { head = some i; tail = some i; nodes_count = 1 }, h)

  abbrev pub add_to_double_linked_list :
      BiNodes A → DoubleLinkedList → (node : Ptr) → Outcome (DoubleLinkedList × BiNodes A)
  add_to_double_linked_list h list none = ok (list, h)
  add_to_double_linked_list h list (some j) = do
    prev_tail ← or_fault list.tail
    h ← modify h prev_tail (with_next (some j))
    h ← modify h j (with_prev list.tail)
    h ← modify h j (with_next none)
    ok (record list { tail = some j; nodes_count = increment list.nodes_count }, h)

  abbrev pub add_to_double_linked_list_front :
      BiNodes A → DoubleLinkedList → (node : Ptr) → Outcome (DoubleLinkedList × BiNodes A)
  add_to_double_linked_list_front h list none = ok (list, h)
  add_to_double_linked_list_front h list (some j) = do
    prev_head ← or_fault list.head
    h ← modify h prev_head (with_prev (some j))
    h ← modify h j (with_next list.head)
    h ← modify h j (with_prev none)
    ok (record list { head = some j; nodes_count = increment list.nodes_count }, h)

  -- `list->tail->prev` is read before the test of the tail.
  unfoldable pub remove_from_double_linked_list_rear :
      BiNodes A → DoubleLinkedList → Outcome (Ptr × DoubleLinkedList)
  remove_from_double_linked_list_rear h list = do
    tail_node ← or_fault list.tail
    node ← node_at h tail_node
    ok (some tail_node, record list { tail = node.prev; nodes_count = decrement list.nodes_count })

  -- The loop of `free_double_linked_list` at `current_node`, for at most `fuel` nodes: the elements
  -- that are freed. A node that is freed again is a fault.
  abbrev pub free_loop : (fuel : ℕ) (freed : List ℕ) → BiNodes A → Ptr → Outcome (List A)
  free_loop fuel freed h none = ok []
  free_loop zero freed h (some i) = fault
  free_loop (suc fuel) freed h (some i) = do
    node ← if is_in i freed then fault else node_at h i
    rest ← free_loop fuel (i ∷ freed) h node.next
    ok (node.el ∷ rest)

  unfoldable pub free_double_linked_list :
      (fuel : ℕ) → BiNodes A → DoubleLinkedList → Outcome (List A)
  free_double_linked_list fuel h list = free_loop fuel [] h list.head
