-- ===== src/Client/Workers.antt =====
-- The simple linked list of client/utils.c, and the collection of workers of client/data_struct.c
-- that is kept in one. The nodes stand in a heap; what `malloc` leaves in a new node's `next` is a
-- parameter. The structure of the list and the collection are values, passed on from call to call.
pub mod Laws
mod Examples
use quadrocopt.Base.{
  ℕ, zero, suc, List, [], ◌∷◌, ◌++◌, length, Option, none, some, Outcome, ok, fault, ◌>>=◌,
  or_fault,
}
use quadrocopt.Heap.{Ptr}

pub record SimpleNode (A : Type 0) : Type 0 where
  pub el : A
  pub next : Ptr

abbrev pub Nodes : Type 0 → Type 0
Nodes A = List (SimpleNode A)

pub record SimpleLinkedList : Type 0 where
  pub head : Ptr
  pub tail : Ptr

module _ {A : Type 0} where
  abbrev pub initialize_simple_node : Nodes A → A → (junk : Ptr) → Ptr × Nodes A
  initialize_simple_node h el junk = (some (length h), h ++ (record { el = el; next = junk }) ∷ [])

  -- `node->next = p`.
  abbrev pub set_next : Nodes A → ℕ → Ptr → Outcome (Nodes A)
  set_next [] i p = fault
  set_next (n ∷ h) zero p = ok (record n { next = p } ∷ h)
  set_next (n ∷ h) (suc i) p = set_next h i p >>= λ h. ok (n ∷ h)

  unfoldable pub initialize_simple_linked_list :
      Nodes A → (head : Ptr) → Outcome (SimpleLinkedList × Nodes A)
  initialize_simple_linked_list h head = do
    node ← or_fault head
    h ← set_next h node none
    ok (record { head = head; tail = head }, h)

  -- Both stores go to the old tail, and `tail` stays.
  unfoldable pub add_to_simple_linked_list :
      Nodes A → SimpleLinkedList → (node : Ptr) → Outcome (SimpleLinkedList × Nodes A)
  add_to_simple_linked_list h list node = do
    tail ← or_fault list.tail
    h ← set_next h tail node
    h ← set_next h tail none
    ok (list, h)

pub record WorkersCollection (W : Type 0) : Type 0 where
  pub listener : Option W
  pub sender : Option W
  pub printer : Option W
  pub workers : Option SimpleLinkedList

abbrev pub initialize_workers_collection : {W : Type 0} → WorkersCollection W
initialize_workers_collection = record {
  listener = none;
  sender = none;
  printer = none;
  workers = none;
}

-- The field of the collection that `dst` points to.
pub data Slot : Type 0 where
  listener_slot sender_slot printer_slot : Slot

abbrev pub slot : {W : Type 0} → WorkersCollection W → Slot → Option W
slot c listener_slot = c.listener
slot c sender_slot = c.sender
slot c printer_slot = c.printer

abbrev pub set_slot : {W : Type 0} → WorkersCollection W → Slot → W → WorkersCollection W
set_slot c listener_slot w = record c { listener = some w }
set_slot c sender_slot w = record c { sender = some w }
set_slot c printer_slot w = record c { printer = some w }

pub data Result : Type 0 where
  added refused : Result

module _ {W : Type 0} (junk : Ptr) where
  -- The new worker's node in the list of the collection.
  abbrev pub add_node :
      Option SimpleLinkedList
      → Nodes W
      → WorkersCollection W
      → W
      → Outcome (WorkersCollection W × Nodes W)
  add_node none h coll worker = do
    let worker_node = initialize_simple_node h worker junk
    made ← initialize_simple_linked_list worker_node.1 worker_node.0
    ok (record coll { workers = some made.0 }, made.1)
  add_node (some list) h coll worker = do
    let worker_node = initialize_simple_node h worker junk
    extended ← add_to_simple_linked_list worker_node.1 list worker_node.0
    ok (record coll { workers = some extended.0 }, extended.1)

  abbrev pub add_if_empty :
      Option W
      → Nodes W
      → W
      → WorkersCollection W
      → Slot
      → Outcome (Result × (WorkersCollection W × Nodes W))
  add_if_empty (some there) h worker coll dst = ok (refused, (coll, h))
  add_if_empty none h worker coll dst = do
    let coll = set_slot coll dst worker
    stored ← add_node coll.workers h coll worker
    ok (added, stored)

  -- `refused` is the result -1, and `added` is 0.
  unfoldable pub add_to_workers_collection :
      Nodes W
      → (worker : W) → WorkersCollection W
      → (dst : Slot) → Outcome (Result × (WorkersCollection W × Nodes W))
  add_to_workers_collection h worker coll dst = add_if_empty (slot coll dst) h worker coll dst

module _ {A : Type 0} where
  -- The elements from a node on, for as many nodes as are asked for; a node that is not there is
  -- an access outside the heap.
  abbrev pub node_at : Nodes A → ℕ → Outcome (SimpleNode A)
  node_at [] i = fault
  node_at (n ∷ h) zero = ok n
  node_at (n ∷ h) (suc i) = node_at h i

  -- The loop of `free_simple_linked_list` at `curr_node`, for at most `fuel` nodes: the elements
  -- that are freed. `next` is read before its node is freed; a loop that meets a node again, which
  -- would free it twice, runs out of fuel, and so ends in a fault.
  abbrev pub free_loop : (fuel : ℕ) → Nodes A → Ptr → Outcome (List A)
  free_loop fuel h none = ok []
  free_loop zero h (some i) = fault
  free_loop (suc fuel) h (some i) = do
    node ← node_at h i
    rest ← free_loop fuel h node.next
    ok (node.el ∷ rest)

  unfoldable pub free_simple_linked_list : Nodes A → SimpleLinkedList → Outcome (List A)
  free_simple_linked_list h list = free_loop (length h) h list.head
