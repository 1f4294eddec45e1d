-- ===== src/Conversation/Examples.antt =====
-- A run of the two programs, and the theorems at the states that it reaches. The calculation stands
-- for any function of the two batches: here the command is their first float, four times.
use quadrocopt.Base.{ℕ, ◌≡◌, ◌⊎◌, refl, List, [], ◌∷◌, ◌++◌, length, some, ok}
use quadrocopt.Client.Threads.{
  Batches, copy_command, SenderStep as ClientSenderStep, ListenerStep as ClientListenerStep, get_u,
  wait_for_sender, add_batches, tell_sender, wait_for_listener, read_listener_batch, tell_listener,
  wait_for_calc, fetch_batches, tell_calc, wait_until_read, signal_ready_batch,
}
use quadrocopt.Server.Threads.{
  CalcStep, receive_packet, wait_until_calc_reads, store_batch, signal_listener_ready,
  wait_listener_one, wait_listener_two, read_batches, signal_listener_one, signal_listener_two,
  calculate_res, signal_calculated, wait_for_calculator, send_calcs,
}
use quadrocopt.Conversation.{
  World, Step, Run, begin, thread, client_calculator, client_sender, client_listener, send_first,
  send_second, listener_one_receives, listener_two_receives, listener_one_works, listener_two_works,
  server_calculator, server_sends, server_sender_works,
}
use quadrocopt.Conversation.Fresh.{batches_of_call, get_u_fresh}
use quadrocopt.Conversation.Progress.{both-no_deadlock}

abbrev hand_on : List ℕ → List ℕ
hand_on [] = 0 ∷ 0 ∷ 0 ∷ 0 ∷ []
hand_on (x ∷ l) = x ∷ x ∷ x ∷ x ∷ []

length-hand_on : (l : List ℕ) → length (hand_on l) ≡ 4
length-hand_on [] = refl
length-hand_on (x ∷ l) = refl

infixl 20 ◌▸◌
abbrev ◌▸◌ : {v w : World ℕ} → Run 0 hand_on 0 v → Step 0 hand_on v w → Run 0 hand_on 0 w
r ▸ st = thread r st

abbrev six : ℕ → List ℕ
six x = x ∷ x ∷ x ∷ x ∷ x ∷ x ∷ []

abbrev seven : ℕ → List ℕ
seven x = x ∷ six x

abbrev ones : List ℕ
ones = six 1 ++ seven 1

-- The server has calculated from the zeros, and granted the result to its sender.
abbrev zeros_calculated : (w : World ℕ) × Run 0 hand_on 0 w
zeros_calculated = (
  _,
  begin
      ▸ client_sender (wait_for_calc refl refl)
      ▸ client_sender (fetch_batches refl)
      ▸ client_sender (tell_calc _ refl)
      ▸ client_sender (ClientSenderStep.send_calcs _ refl)
      ▸ send_first _ [] refl refl
      ▸ send_second _ [] refl
      ▸ listener_one_receives _ [] refl (receive_packet _ refl) refl
      ▸ listener_one_works (wait_until_calc_reads _ refl refl) refl
      ▸ listener_one_works (store_batch _ refl) refl
      ▸ listener_one_works (signal_listener_ready refl) refl
      ▸ listener_two_receives _ [] refl (receive_packet _ refl) refl
      ▸ listener_two_works (wait_until_calc_reads _ refl refl) refl
      ▸ listener_two_works (store_batch _ refl) refl
      ▸ listener_two_works (signal_listener_ready refl) refl
      ▸ server_calculator (wait_listener_one refl refl)
      ▸ server_calculator (wait_listener_two refl refl)
      ▸ server_calculator (read_batches refl)
      ▸ server_calculator (signal_listener_one refl)
      ▸ server_calculator (signal_listener_two refl)
      ▸ server_calculator (calculate_res _ refl refl)
      ▸ server_calculator (CalcStep.wait_for_sender refl refl)
      ▸ server_calculator (signal_calculated refl),
)

-- `get_u` has stored its batches and waits for a command.
abbrev called : (w : World ℕ) × Run 0 hand_on 0 w
called = (
  _,
  zeros_calculated.1
      ▸ client_calculator (get_u ones refl)
      ▸ client_calculator (wait_for_sender _ refl refl)
      ▸ client_calculator (add_batches _ refl)
      ▸ client_calculator (tell_sender refl),
)

-- The server has calculated from the ones before its sender has sent the first result.
abbrev ones_calculated : (w : World ℕ) × Run 0 hand_on 0 w
ones_calculated = (
  _,
  called.1
      ▸ client_sender (wait_for_calc refl refl)
      ▸ client_sender (fetch_batches refl)
      ▸ client_sender (tell_calc _ refl)
      ▸ client_sender (ClientSenderStep.send_calcs _ refl)
      ▸ send_first _ [] refl refl
      ▸ send_second _ [] refl
      ▸ listener_one_receives _ [] refl (receive_packet _ refl) refl
      ▸ listener_one_works (wait_until_calc_reads _ refl refl) refl
      ▸ listener_one_works (store_batch _ refl) refl
      ▸ listener_one_works (signal_listener_ready refl) refl
      ▸ listener_two_receives _ [] refl (receive_packet _ refl) refl
      ▸ listener_two_works (wait_until_calc_reads _ refl refl) refl
      ▸ listener_two_works (store_batch _ refl) refl
      ▸ listener_two_works (signal_listener_ready refl) refl
      ▸ server_calculator (wait_listener_one refl refl)
      ▸ server_calculator (wait_listener_two refl refl)
      ▸ server_calculator (read_batches refl)
      ▸ server_calculator (signal_listener_one refl)
      ▸ server_calculator (signal_listener_two refl)
      ▸ server_calculator (calculate_res _ refl refl),
)

-- The first command that `get_u` reads is the one for the ones.
abbrev answered : (w : World ℕ) × Run 0 hand_on 0 w
answered = (
  _,
  ones_calculated.1
      ▸ server_sender_works (wait_for_calculator refl refl) refl
      ▸ server_sends _ (send_calcs refl) refl
      ▸ client_listener (ClientListenerStep.receive_packet _ [] refl refl)
      ▸ client_listener (wait_until_read _ refl refl)
      ▸ client_listener (ClientListenerStep.store_batch _ refl)
      ▸ client_listener (signal_ready_batch refl)
      ▸ client_calculator (wait_for_listener refl refl)
      ▸ client_calculator (read_listener_batch refl)
      ▸ client_calculator (tell_listener refl),
)

answered_with_ones : answered.0.client.got ≡ (1 ∷ 1 ∷ 1 ∷ 1 ∷ []) ∷ []
answered_with_ones = refl

get_u_fresh_example :
    (b : Batches ℕ) × (copy_command (1 ∷ 1 ∷ 1 ∷ 1 ∷ []) ≡ ok (hand_on (b.0 ++ b.1)))
    × ((batches_of_call 0 answered.0 0 ≡ some b) ⊎ (batches_of_call 0 answered.0 1 ≡ some b))
get_u_fresh_example =
    get_u_fresh 0 hand_on 0 (1 ∷ 1 ∷ 1 ∷ 1 ∷ []) length-hand_on answered.1 refl refl

both-no_deadlock_example : (w : World ℕ) × Step 0 hand_on called.0 w
both-no_deadlock_example = both-no_deadlock 0 hand_on called.1 refl (λ e. cc)
