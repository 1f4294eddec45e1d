-- ===== src/Client/Threads/Examples.antt =====
-- A run of the client: two calls of `get_u`, and the theorems at the state after them.
use quadrocopt.Base.{ℕ, ◌+◌, ◌≡◌, refl, List, [], ◌∷◌, length, get_elem?, some}
use quadrocopt.Client.Threads.{
  Batches, System, initial_batches, get_u, wait_for_sender, add_batches, tell_sender,
  wait_for_listener, read_listener_batch, tell_listener, wait_for_calc, fetch_batches, tell_calc,
  send_calcs, receive_packet, wait_until_read, store_batch, signal_ready_batch, Step, calculator,
  sender_thread, listener_thread, server, Reach, start, next,
}
use quadrocopt.Client.Threads.Delay.{get_u_delayed}
use quadrocopt.Client.Threads.Progress.{get_u-no_deadlock}

-- The server hands the first batch back.
abbrev first_of : Batches ℕ → List ℕ
first_of b = b.0

infixl 20 ◌▸◌
abbrev ◌▸◌ : {s t : System ℕ} → Reach 0 first_of s → Step 0 first_of s t → Reach 0 first_of t
r ▸ st = next r st

abbrev ones : List ℕ
ones = 1 ∷ 1 ∷ 1 ∷ 1 ∷ 1 ∷ 1 ∷ 1 ∷ 1 ∷ 1 ∷ 1 ∷ 1 ∷ 1 ∷ 1 ∷ []

abbrev six : ℕ → List ℕ
six x = x ∷ x ∷ x ∷ x ∷ x ∷ x ∷ []

abbrev seven : ℕ → List ℕ
seven x = x ∷ six x

-- The sender has sent the zeros, and `get_u` waits for the answer.
abbrev asked_once : (s : System ℕ) × Reach 0 first_of s
asked_once = (
  _,
  start
      ▸ sender_thread (wait_for_calc refl refl)
      ▸ sender_thread (fetch_batches refl)
      ▸ sender_thread (tell_calc _ refl)
      ▸ sender_thread (send_calcs _ refl)
      ▸ calculator (get_u ones refl)
      ▸ calculator (wait_for_sender _ refl refl)
      ▸ calculator (add_batches _ refl)
      ▸ calculator (tell_sender refl),
)

abbrev called_once : (s : System ℕ) × Reach 0 first_of s
called_once = (
  _,
  asked_once.1
      ▸ server _ [] refl
      ▸ listener_thread (receive_packet _ [] refl refl)
      ▸ listener_thread (wait_until_read _ refl refl)
      ▸ listener_thread (store_batch _ refl)
      ▸ listener_thread (signal_ready_batch refl)
      ▸ calculator (wait_for_listener refl refl)
      ▸ calculator (read_listener_batch refl)
      ▸ calculator (tell_listener refl),
)

-- The call for `ones` has got the command for the zeros.
called_with_ones : (called_once.0.asked ≡ (six 1, seven 1) ∷ []) × (called_once.0.got ≡ six 0 ∷ [])
called_with_ones = (refl, refl)

get_u_delayed_example :
    (b : Batches ℕ) × (get_elem? (initial_batches 0 ∷ called_once.0.asked) 0 ≡ some b)
    × (six 0 ≡ first_of b)
    × (1 ≡ length called_once.0.got + 0)
get_u_delayed_example = get_u_delayed 0 first_of 0 (six 0) called_once.1 refl

first_call_moves : (t : System ℕ) × Step 0 first_of asked_once.0 t
first_call_moves = get_u-no_deadlock 0 first_of asked_once.1 (λ e. cc)
