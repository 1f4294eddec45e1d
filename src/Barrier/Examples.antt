-- ===== src/Barrier/Examples.antt =====
-- The start of the client's threads, and the theorems for both programs.
use quadrocopt.Base.{length, ◌+◌, ◌≡◌, ◌≢◌, refl, arith, [], ◌∷◌, All, ◌⊎◌}
use quadrocopt.Barrier.{
  starting, at_barrier, running, spawning, main_running, Start, not_started, client_workers,
  client_barrier, server_number_of_listeners, server_number_of_senders, server_barrier, Step,
  create, main_arrives, main_passes, worker_arrives, Reach, start, next,
}
use quadrocopt.Barrier.Together.{spawn_workers-together}
use quadrocopt.Barrier.Starting.{spawn_workers-starts}

-- The three threads of the client call the barrier, the main thread last, which is past it first.
abbrev started : Start
started = record {
  left = 0;
  main = main_running;
  workers = at_barrier ∷ at_barrier ∷ at_barrier ∷ [];
  arrived = 4;
}

run : Reach client_workers client_barrier started
run =
    let r0 : Reach 3 4 (not_started 3) = start in
    let r1 = next r0 (create {k = 2} refl refl) in
    let r2 = next r1 (worker_arrives [] [] refl) in
    let r3 = next r2 (create {k = 1} refl refl) in
    let r4 = next r3 (create {k = 0} refl refl) in
    let r5 = next r4 (worker_arrives (at_barrier ∷ starting ∷ []) [] refl) in
    let r6 = next r5 (worker_arrives (at_barrier ∷ []) (at_barrier ∷ []) refl) in
    let r7 = next r6 (main_arrives refl refl) in next r7 (main_passes refl (omega arith))

spawn_workers-together_example :
    (started.left ≡ 0)
    × (length started.workers ≡ client_workers)
    × All (λ w. w ≢ starting) (at_barrier ∷ at_barrier ∷ at_barrier ∷ [])
    × (main_running ≢ spawning)
spawn_workers-together_example =
    spawn_workers-together client_workers client_barrier refl run (omega arith)

spawn_workers-starts_example :
    ((t : Start) × Step client_barrier started t)
    ⊎ ((main_running ≡ main_running)
        × All (λ w. w ≡ running) (at_barrier ∷ at_barrier ∷ at_barrier ∷ []))
spawn_workers-starts_example = spawn_workers-starts client_workers client_barrier refl run

-- The server's barrier is for its three threads and the main thread, too.
server_starts :
    {s : Start}
    → Reach (server_number_of_listeners + server_number_of_senders) server_barrier s
    → ((t : Start) × Step server_barrier s t)
      ⊎ ((s.main ≡ main_running) × All (λ w. w ≡ running) s.workers)
server_starts r =
    spawn_workers-starts (server_number_of_listeners + server_number_of_senders) server_barrier refl
      r
