-- ===== src/Client/Spawn/Ending.antt =====
-- What the client starts, and which of its threads it ends: `spawn_workers` and
-- `wait_workers_to_finish` together.
use quadrocopt.Base.{
  ℕ, ◌≡◌, refl, arith, Bool, ◌&&◌, [], ◌∷◌, none, some, ok, exit, ◌==◌, if◌then◌else◌,
}
use quadrocopt.Heap.{Ptr}
use quadrocopt.Client.Workers.{
  add_to_workers_collection, initialize_simple_linked_list, add_to_simple_linked_list,
}
use quadrocopt.Client.Spawn.{
  Globals, Spawned, Thread, listener_thread, sender_thread, printer_thread, spawn_workers,
  wait_workers_to_finish,
}

-- The collection with all three workers in it: each new node is the tail, and the first node is
-- left with no next one, whatever is added after it.
abbrev pub all_spawned : Globals → (junk : Ptr) → (l s p : ℕ) → Spawned
all_spawned g junk l s p = record {
  workers = record {
    listener = some l;
    sender = some s;
    printer = some p;
    workers = some (record { head = some 0; tail = some 0 });
  };
  nodes =
      record { el = l; next = none }
      ∷ record { el = s; next = junk }
      ∷ record { el = p; next = junk }
      ∷ [];
  threads = listener_thread g ∷ sender_thread g ∷ printer_thread g ∷ [];
}

module _ (g : Globals) (junk : Ptr) where
  -- Where all three threads could be created.
  abbrev pub all_created : (Thread → ℕ) → Bool
  all_created pthread_create =
      (pthread_create (listener_thread g) == 0)
      && (pthread_create (sender_thread g) == 0)
      && (pthread_create (printer_thread g) == 0)

  -- Whatever statuses pthread_create gives: where all three are 0, the listener, the sender and the
  -- printer are started in that order and recorded at their places in the collection, and otherwise
  -- the process exits. After the start wait_workers_to_finish ends without a fault, and it has
  -- stopped and joined the listener and no other thread.
  pub spawn_workers-all_spawned :
      (pthread_create : Thread → ℕ) (l s p : ℕ)
      → (spawn_workers junk pthread_create g l s p
          ≡ (if all_created pthread_create then ok (all_spawned g junk l s p) else exit))
        × (wait_workers_to_finish (all_spawned g junk l s p) ≡ ok (l ∷ []))
  unfolding spawn_workers add_to_workers_collection initialize_simple_linked_list
      add_to_simple_linked_list wait_workers_to_finish
  spawn_workers-all_spawned pthread_create l s p = (ground arith, refl)
