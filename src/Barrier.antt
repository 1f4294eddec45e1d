-- ===== src/Barrier.antt =====
-- The start of the threads at their barrier: `initialize_barriers` and `spawn_workers` of client/main.c
-- and server/main.c, with the first call of each thread function. `pthread_barrier_wait` comes back
-- once as many threads have called it as the barrier was made for.
pub mod Together
pub mod Starting
mod Examples
use quadrocopt.Base.{ℕ, suc, ◌+◌, ◌≤◌, ◌≡◌, List, [], ◌∷◌, ◌++◌}

-- A worker is `starting` until it calls `pthread_barrier_wait`.
pub data WorkerPc : Type 0 where
  starting at_barrier running : WorkerPc

pub data MainPc : Type 0 where
  spawning main_at_barrier main_running : MainPc

-- `left` threads are still to be created, and `arrived` counts the calls of `pthread_barrier_wait`.
pub record Start : Type 0 where
  pub left : ℕ
  pub main : MainPc
  pub workers : List WorkerPc
  pub arrived : ℕ

abbrev pub not_started : (threads : ℕ) → Start
not_started threads = record { left = threads; main = spawning; workers = []; arrived = 0 }

-- The client's barrier is made for 4 threads, and it creates a listener, a sender and a printer.
abbrev pub client_workers : ℕ
client_workers = 3

abbrev pub client_barrier : ℕ
client_barrier = 4

abbrev pub server_number_of_listeners : ℕ
server_number_of_listeners = 2

abbrev pub server_number_of_senders : ℕ
server_number_of_senders = 1

abbrev pub server_barrier : ℕ
server_barrier = server_number_of_listeners + server_number_of_senders + 1

-- One step of a thread, where the barrier is for `size` threads.
pub data Step (size : ℕ) (s : Start) : Start → Type 0 where
  create :
      {k : ℕ}
      → s.main ≡ spawning
      → s.left ≡ suc k
      → Step size s (record s { left = k; workers = s.workers ++ starting ∷ [] })
  main_arrives :
      s.main ≡ spawning
      → s.left ≡ 0
      → Step size s (record s { main = main_at_barrier; arrived = s.arrived + 1 })
  main_passes :
      s.main ≡ main_at_barrier → size ≤ s.arrived → Step size s (record s { main = main_running })
  worker_arrives :
      (ws vs : List WorkerPc)
      → s.workers ≡ ws ++ starting ∷ vs
      → Step size s (record s { workers = ws ++ at_barrier ∷ vs; arrived = s.arrived + 1 })
  worker_passes :
      (ws vs : List WorkerPc)
      → s.workers ≡ ws ++ at_barrier ∷ vs
      → size ≤ s.arrived
      → Step size s (record s { workers = ws ++ running ∷ vs })

pub data Reach (threads size : ℕ) : Start → Type 0 where
  start : Reach threads size (not_started threads)
  next : {s t : Start} → Reach threads size s → Step size s t → Reach threads size t
