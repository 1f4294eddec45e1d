-- ===== src/Server/Threads/Examples.antt =====
-- Runs of the server's threads, and the theorems at the states that they reach. The calculation
-- stands for any function of the two batches: here it hands them on.
use quadrocopt.Base.{true, ℕ, ◌+◌, ◌≤◌, ◌≡◌, ◌≢◌, refl, List, [], ◌∷◌, length}
use quadrocopt.Server.Threads.{
  receive_packet, wait_until_calc_reads, store_batch, signal_listener_ready, reading, System, Step,
  listener_one, listener_two, calculator, sender_thread, Reach, start, next, wait_listener_one,
  wait_listener_two, read_batches, signal_listener_one, signal_listener_two, calculate_res,
  wait_for_sender, signal_calculated, wait_for_calculator, send_calcs, signal_sender_ready,
}
use quadrocopt.Server.Threads.Invariant.{store_over_clean}
use quadrocopt.Server.Threads.Pairing.{InOrder, batches-InOrder}
use quadrocopt.Server.Threads.Sending.{Lags, sent-Lags_results}
use quadrocopt.Server.Threads.Progress.{no_deadlock}

abbrev hand_on : List ℕ → List ℕ
hand_on l = l

infixl 20 ◌▸◌
abbrev ◌▸◌ : {s t : System ℕ} → Reach hand_on s → Step hand_on s t → Reach hand_on t
r ▸ st = next r st

-- Both listeners have received a payload, and the first is about to store it.
abbrev about_to_store : (s : System ℕ) × Reach hand_on s
about_to_store = (
  _,
  start
      ▸ listener_one (receive_packet (1 ∷ []) refl)
      ▸ listener_two (receive_packet (2 ∷ []) refl)
      ▸ listener_one (wait_until_calc_reads (1 ∷ []) refl refl),
)

-- The calculator has the result of the first round, and granted it to the sender.
abbrev one_round : (s : System ℕ) × Reach hand_on s
one_round = (
  _,
  about_to_store.1
      ▸ listener_one (store_batch (1 ∷ []) refl)
      ▸ listener_one (signal_listener_ready refl)
      ▸ listener_two (wait_until_calc_reads (2 ∷ []) refl refl)
      ▸ listener_two (store_batch (2 ∷ []) refl)
      ▸ listener_two (signal_listener_ready refl)
      ▸ calculator (wait_listener_one refl refl)
      ▸ calculator (wait_listener_two refl refl)
      ▸ calculator (read_batches refl)
      ▸ calculator (signal_listener_one refl)
      ▸ calculator (signal_listener_two refl)
      ▸ calculator (calculate_res _ refl refl)
      ▸ calculator (wait_for_sender refl refl)
      ▸ calculator (signal_calculated refl),
)

-- A second round, calculated before the sender has sent the first result.
abbrev two_rounds : (s : System ℕ) × Reach hand_on s
two_rounds = (
  _,
  one_round.1
      ▸ listener_one (receive_packet (3 ∷ []) refl)
      ▸ listener_one (wait_until_calc_reads (3 ∷ []) refl refl)
      ▸ listener_one (store_batch (3 ∷ []) refl)
      ▸ listener_one (signal_listener_ready refl)
      ▸ listener_two (receive_packet (4 ∷ []) refl)
      ▸ listener_two (wait_until_calc_reads (4 ∷ []) refl refl)
      ▸ listener_two (store_batch (4 ∷ []) refl)
      ▸ listener_two (signal_listener_ready refl)
      ▸ calculator (wait_listener_one refl refl)
      ▸ calculator (wait_listener_two refl refl)
      ▸ calculator (read_batches refl)
      ▸ calculator (signal_listener_one refl)
      ▸ calculator (signal_listener_two refl)
      ▸ calculator (calculate_res _ refl refl),
)

-- The sender then sends the second result twice, and the first is lost.
abbrev both_sent : (s : System ℕ) × Reach hand_on s
both_sent = (
  _,
  two_rounds.1
      ▸ sender_thread (wait_for_calculator refl refl)
      ▸ sender_thread (send_calcs refl)
      ▸ sender_thread (signal_sender_ready refl)
      ▸ calculator (wait_for_sender refl refl)
      ▸ calculator (signal_calculated refl)
      ▸ sender_thread (wait_for_calculator refl refl)
      ▸ sender_thread (send_calcs refl),
)

result_lost :
    (both_sent.0.results ≡ (1 ∷ 2 ∷ []) ∷ (3 ∷ 4 ∷ []) ∷ [])
    × (both_sent.0.sent ≡ (3 ∷ 4 ∷ []) ∷ (3 ∷ 4 ∷ []) ∷ [])
result_lost = (refl, refl)

store_over_clean_example : (about_to_store.0.one.batch ≡ []) × (about_to_store.0.calc ≢ reading)
store_over_clean_example = store_over_clean hand_on true (1 ∷ []) about_to_store.1 refl

batches-InOrder_example : InOrder hand_on two_rounds.0
batches-InOrder_example = batches-InOrder hand_on two_rounds.1

sent-Lags_results_example :
    (2 ≤ length both_sent.0.results)
    × (length both_sent.0.results ≤ 2 + 2)
    × Lags both_sent.0.sent both_sent.0.results
sent-Lags_results_example = sent-Lags_results hand_on both_sent.1

first_store_moves : (t : System ℕ) × Step hand_on about_to_store.0 t
first_store_moves = no_deadlock hand_on about_to_store.1 (λ e. cc) (λ e. cc)
