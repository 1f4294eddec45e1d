-- ===== src/Client/Spawn.antt =====
-- The start and the end of the client's threads: `spawn_workers` and `wait_workers_to_finish` of
-- client/main.c, and the handler of client/signal_handling.c. What `pthread_create` returns is a
-- parameter, and so are the addresses that `malloc` gives for the three `pthread_t`.
pub mod Ending
pub mod Starting
mod Examples
use quadrocopt.Base.{
  ℕ, zero, suc, Bool, true, false, List, [], ◌∷◌, ◌++◌, length, Option, none, some, Outcome, ok,
  exit, fault, ◌>>=◌, or_fault, ◌==◌, if◌then◌else◌,
}
use quadrocopt.Heap.{Ptr}
use quadrocopt.Client.Workers.{
  Nodes, WorkersCollection, initialize_workers_collection, Slot, listener_slot, sender_slot,
  printer_slot, add_to_workers_collection, node_at,
}
use quadrocopt.Client.Packs.{
  ThreadConditionPacksCollection, initialize_thread_cond_packs_collection,
  ListenerThreadCondPackets, initialize_cond_packs, ListenerPack, initialize_listener_pack,
  SenderThreadCondPacks, initialize_sender_cond_packs, SenderPack, initialize_sender_pack,
  PrinterThreadCondPackets, initialize_printer_thread_cond_packs, PrinterPack,
  initialize_printer_pack,
}

-- The threads, by the callback that each runs.
pub data Thread : Type 0 where
  listener : ListenerPack → Thread
  sender : SenderPack → Thread
  printer : PrinterPack → Thread

-- The globals that the threads are made of.
pub record Globals : Type 0 where
  pub thread_cond_packs : ThreadConditionPacksCollection
  pub io_mu : ℕ
  pub sd_in : ℕ
  pub sd_out : ℕ
  pub server_addr : ℕ
  pub listener_stock : ℕ
  pub sender_stock : ℕ
  pub printer_stock : ℕ

-- The collection of workers with its nodes, and the threads started so far.
pub record Spawned : Type 0 where
  pub workers : WorkersCollection ℕ
  pub nodes : Nodes ℕ
  pub threads : List Thread

abbrev pub not_spawned : Spawned
not_spawned = record { workers = initialize_workers_collection; nodes = []; threads = [] }

-- The threads that `start_listener`, `start_sender` and `start_printer` create, each with the pack
-- that it is given.
module _ (g : Globals) where
  open g use {thread_cond_packs}

  abbrev pub listener_thread : Thread
  listener_thread = listener (
      initialize_listener_pack g.sd_in g.io_mu
        (initialize_cond_packs thread_cond_packs.listener_from_signal
          thread_cond_packs.listener_to_signal)
        g.listener_stock)

  abbrev pub sender_thread : Thread
  sender_thread = sender (
      initialize_sender_pack g.sd_out g.server_addr g.sender_stock g.io_mu (
        initialize_sender_cond_packs thread_cond_packs.sender_from_signal
          thread_cond_packs.sender_to_signal))

  abbrev pub printer_thread : Thread
  printer_thread = printer (
      initialize_printer_pack g.io_mu
        (initialize_printer_thread_cond_packs thread_cond_packs.printer_from_signal
          thread_cond_packs.printer_to_signal)
        g.printer_stock)

module _ (junk : Ptr) (pthread_create : Thread → ℕ) where
  -- The collection after the thread is recorded in it, and the status of the creation.
  abbrev pub start_worker : Spawned → (worker : ℕ) → Slot → Thread → Outcome (Spawned × ℕ)
  start_worker s worker dst thread = do
    stored ← add_to_workers_collection junk s.nodes worker s.workers dst
    ok (
      record { workers = stored.1.0; nodes = stored.1.1; threads = s.threads ++ thread ∷ [] },
      pthread_create thread,
    )

  -- `exit_error` where the status is not 0.
  abbrev pub check : Spawned × ℕ → Outcome Spawned
  check (s, status) = if status == 0 then ok s else exit

  abbrev pub create_listener : Globals → Spawned → (worker : ℕ) → Outcome Spawned
  create_listener g s worker = start_worker s worker listener_slot (listener_thread g) >>= check

  abbrev pub create_sender : Globals → Spawned → (worker : ℕ) → Outcome Spawned
  create_sender g s worker = start_worker s worker sender_slot (sender_thread g) >>= check

  abbrev pub create_printer : Globals → Spawned → (worker : ℕ) → Outcome Spawned
  create_printer g s worker = start_worker s worker printer_slot (printer_thread g) >>= check

  -- The barrier that `spawn_workers` waits at in the end is in Barrier.
  unfoldable pub spawn_workers : Globals → (listener sender printer : ℕ) → Outcome Spawned
  spawn_workers g l s p = do
    spawned ← create_listener g not_spawned l
    spawned ← create_sender g spawned s
    create_printer g spawned p

-- The loop of `wait_workers_to_finish` at `curr_worker`, for at most `fuel` workers: those that are
-- stopped and joined.
abbrev pub stop_loop : (fuel : ℕ) → Nodes ℕ → Ptr → Outcome (List ℕ)
stop_loop fuel h none = ok []
stop_loop zero h (some i) = fault
stop_loop (suc fuel) h (some i) = do
  curr_worker ← node_at h i
  rest ← stop_loop fuel h curr_worker.next
  ok (curr_worker.el ∷ rest)

unfoldable pub wait_workers_to_finish : Spawned → Outcome (List ℕ)
wait_workers_to_finish s = do
  list ← or_fault s.workers.workers
  stop_loop (length s.nodes) s.nodes list.head

-- What the handler does: the function that it calls to end the thread it runs in, or a message.
pub data Handled : Type 0 where
  stop_listener stop_sender stop_printer some_error ignored : Handled

-- `thread_at` is the `pthread_t` at an address.
module _ (thread_at : ℕ → ℕ) where
  abbrev pub sig_stop_worker : WorkersCollection ℕ → (curr_thread : ℕ) → Outcome Handled
  sig_stop_worker workers curr_thread = or_fault workers.listener >>= λ l.
      if curr_thread == thread_at l
      then ok stop_listener
      else (or_fault workers.sender >>= λ s.
          if curr_thread == thread_at s
          then ok stop_sender
          else (or_fault workers.printer >>= λ p.
              ok (if curr_thread == thread_at p then stop_printer else some_error)))

  unfoldable pub sig_handler :
      (sigusr1 signo : ℕ) → WorkersCollection ℕ → (curr_thread : ℕ) → Outcome Handled
  sig_handler sigusr1 signo workers curr_thread =
      if signo == sigusr1 then sig_stop_worker workers curr_thread else ok ignored
