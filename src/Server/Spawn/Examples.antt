-- ===== src/Server/Spawn/Examples.antt =====
-- The start of the server's threads at concrete addresses, where the second listener fails.
use quadrocopt.Base.{ℕ, ◌≡◌, [], ◌∷◌, ok, exit}
use quadrocopt.Condition.{Packs}
use quadrocopt.Server.Threads.{initial}
use quadrocopt.Server.Spawn.{
  Globals, Thread, listener, sender, listener_first, listener_second, initialize_condition_packs,
  spawn_workers,
}
use quadrocopt.Server.Spawn.Starting.{system_of, pack_addresses, threads_of, spawn_workers-initial}

abbrev server_globals : Globals
server_globals = record {
  batch_stock_access_mu = 1;
  io_mu = 2;
  client_addr_mu = 3;
  listener_one_signal = 0;
  listener_two_signal = 0;
  calc_signal_to_listener_one = 0;
  calc_signal_to_listener_two = 0;
  calc_to_sender_signal = 0;
  sender_signal = 0;
  client_addr = 4;
  sd_in_first = 5;
  sd_in_second = 6;
  sd_out = 7;
  bs = 8;
  cs = 9;
}

abbrev no_second : Thread → ℕ
no_second (listener lp) = elim lp.type_ [ listener_first ↦ 0 | listener_second ↦ 11 ]
no_second (sender sp) = 0

abbrev made : Globals × Packs
made = initialize_condition_packs [] server_globals

spawn_workers-initial_example :
    (spawn_workers made.0 no_second ≡ exit)
    × (pack_addresses made.0 ≡ 0 ∷ 1 ∷ 2 ∷ 3 ∷ 4 ∷ 5 ∷ [])
    × (system_of ℕ made.1 made.0 (threads_of made.0) ≡ ok (initial ℕ))
spawn_workers-initial_example = spawn_workers-initial ℕ server_globals no_second
