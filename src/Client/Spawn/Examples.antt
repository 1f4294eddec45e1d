-- ===== src/Client/Spawn/Examples.antt =====
-- A run of the start of the threads, and the theorems of Client.Spawn at its addresses.
use quadrocopt.Base.{false, true, ℕ, ◌+◌, ◌≡◌, refl, [], ◌∷◌, none, Outcome, ok, exit}
use quadrocopt.Client.Spawn.{
  Globals, Thread, Handled, listener, sender, printer, spawn_workers, wait_workers_to_finish,
  sig_handler, stop_listener, stop_sender, stop_printer, ignored,
}
use quadrocopt.Client.Packs.{initialize_thread_cond_packs_collection, initialize_condition_packs}
use quadrocopt.Client.Threads.{initial}
use quadrocopt.Client.Spawn.Starting.{system_of, pack_addresses, all_spawned-initial}
use quadrocopt.Client.Spawn.Ending.{all_spawned, spawn_workers-all_spawned}

abbrev client_globals : Globals
client_globals = record {
  thread_cond_packs = initialize_thread_cond_packs_collection 1 2 3 4 5 6;
  io_mu = 7;
  sd_in = 8;
  sd_out = 9;
  server_addr = 10;
  listener_stock = 11;
  sender_stock = 12;
  printer_stock = 13;
}

-- The printer cannot be created.
abbrev no_printer : Thread → ℕ
no_printer (listener lp) = 0
no_printer (sender sp) = 0
no_printer (printer pp) = 11

spawn_workers-all_spawned_example :
    (spawn_workers none no_printer client_globals 20 21 22 ≡ exit)
    × (wait_workers_to_finish (all_spawned client_globals none 20 21 22) ≡ ok (20 ∷ []))
spawn_workers-all_spawned_example =
    spawn_workers-all_spawned client_globals none no_printer 20 21 22

abbrev handler : (signo curr_thread : ℕ) → Outcome Handled
handler signo curr_thread =
    sig_handler (λ t. t + 100) 10 signo (all_spawned client_globals none 20 21 22).workers
      curr_thread

signalled :
    (handler 10 120 ≡ ok stop_listener)
    × (handler 10 121 ≡ ok stop_sender)
    × (handler 10 122 ≡ ok stop_printer)
    × ((t : ℕ) → handler 2 t ≡ ok ignored)
unfolding sig_handler
signalled = (refl, refl, refl, λ t. refl)

abbrev made_globals : Globals
made_globals = record client_globals { thread_cond_packs = (initialize_condition_packs []).0 }

all_spawned-initial_example :
    (spawn_workers none no_printer made_globals 20 21 22 ≡ exit)
    × (pack_addresses made_globals.thread_cond_packs ≡ 0 ∷ 1 ∷ 2 ∷ 3 ∷ 4 ∷ 5 ∷ [])
    × (system_of {F = ℕ} 0
          (initialize_condition_packs []).1
          made_globals
          (all_spawned made_globals none 20 21 22).threads
        ≡ ok (initial 0, (false, true)))
all_spawned-initial_example = all_spawned-initial {F = ℕ} 0 client_globals none no_printer 20 21 22
