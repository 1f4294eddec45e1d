-- ===== src/Client/Threads/Journey.antt =====
-- Where every payload of the client is on its way round: who holds a stock, and what is in it.
use quadrocopt.Base.{ℕ, Bool, true, false, ◌||◌, List, [], ◌∷◌, ◌++◌}
use quadrocopt.Client.Threads.{
  Batches, CalcPc, idle, adding, signal_sender, wait_listener, reading, signal_listener, SenderPc,
  fetching, signal_ready, sending, ListenerPc, wait_read, storing, signal_stored, System,
}

abbrev pub one_if : Bool → ℕ
one_if true = 1
one_if false = 0

abbrev pub only_if {ℓ} : {A : Type ℓ} → Bool → A → List A
only_if true a = a ∷ []
only_if false a = []

module _ {F : Type 0} where
  -- Which thread holds the sender's stock, and which the listener's.
  abbrev pub calc_has_sender : CalcPc F → ℕ
  calc_has_sender (adding b) = 1
  calc_has_sender signal_sender = 1
  calc_has_sender idle = 0
  calc_has_sender _ = 0

  abbrev pub sender_has : SenderPc F → ℕ
  sender_has fetching = 1
  sender_has (signal_ready b) = 1
  sender_has _ = 0

  abbrev pub calc_has_listener : CalcPc F → ℕ
  calc_has_listener reading = 1
  calc_has_listener signal_listener = 1
  calc_has_listener _ = 0

  abbrev pub listener_has : ListenerPc F → ℕ
  listener_has (storing p) = 1
  listener_has signal_stored = 1
  listener_has _ = 0

  -- Whether the sender's stock holds batches that are not fetched, and the listener's a command
  -- that is not read.
  abbrev pub is_signal_sender : CalcPc F → Bool
  is_signal_sender signal_sender = true
  is_signal_sender _ = false

  abbrev pub is_fetching : SenderPc F → Bool
  is_fetching fetching = true
  is_fetching _ = false

  abbrev pub is_reading : CalcPc F → Bool
  is_reading reading = true
  is_reading _ = false

  abbrev pub is_stored : ListenerPc F → Bool
  is_stored signal_stored = true
  is_stored _ = false

  abbrev pub unfetched : System F → Bool
  unfetched s = s.sender_to_signal || (is_fetching s.sender || is_signal_sender s.calc)

  abbrev pub unread : System F → Bool
  unread s = s.listener_from_signal || (is_stored s.listener || is_reading s.calc)

  abbrev pub sender_hand : SenderPc F → List (Batches F)
  sender_hand (signal_ready b) = b ∷ []
  sender_hand (sending b) = b ∷ []
  sender_hand _ = []

  abbrev pub listener_hand : ListenerPc F → List (List F)
  listener_hand (wait_read p) = p ∷ []
  listener_hand (storing p) = p ∷ []
  listener_hand _ = []

  -- How far a call of `get_u` is: it has stored its batches and not read its command.
  abbrev pub half_done : CalcPc F → ℕ
  half_done signal_sender = 1
  half_done wait_listener = 1
  half_done reading = 1
  half_done _ = 0

module _ {F : Type 0} where
  -- The batches on their way out: in the queue, in the sender's hand, and in its stock if `f`.
  abbrev pub outward : (f : Bool) → System F → List (Batches F)
  outward f s = s.outgoing ++ (sender_hand s.sender ++ only_if f s.sender_stock)

  -- The commands that were read, and those on their way to the calculator: in the listener's stock
  -- if `u`, in its hand, and in the queue.
  abbrev pub homeward : (u : Bool) → System F → List (List F)
  homeward u s = s.got ++ (only_if u s.listener_stock ++ (listener_hand s.listener ++ s.incoming))
