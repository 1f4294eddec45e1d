-- ===== src/Server/Threads.antt =====
-- The threads of the server: the two listeners (server/run_listener.c), the calculator, which is
-- the main thread (server/main.c), and the sender (server/run_sender.c), in any interleaving.
-- A `ThreadConditionPack` is its flag `cond_to_verify`: the flag is read and written only under the
-- pack's mutex, and a wait ends in the state where it has seen the flag true and set it to false,
-- so a wait is one step that needs the flag, and a signal is one step that sets it.
-- The stocks are shown by the floats that they hold, an empty list for a cleaned stock.
pub mod Handshake
pub mod Invariant
pub mod Pairing
pub mod Sending
pub mod Progress
mod Examples
use quadrocopt.Base.{ℕ, ◌≡◌, Bool, true, false, List, [], ◌∷◌, ◌++◌}

-- Where a listener stands in the loop of `run_listener`, with the payload in its hand.
pub data ListenerPc (F : Type 0) : Type 0 where
  receiving : ListenerPc F
  waiting : List F → ListenerPc F
  storing : List F → ListenerPc F
  signalling : ListenerPc F

-- One listener, the two packs that it shares with the calculator, and its half of the batch stock.
-- `received` and `read` record the payloads that came in and the batches that the calculator took.
pub record Channel (F : Type 0) : Type 0 where
  pub pc : ListenerPc F
  pub listener_signal : Bool
  pub calc_signal : Bool
  pub batch : List F
  pub received : List (List F)
  pub read : List (List F)

-- `run_listener`: `receive_packet` and `bytes_to_pack`, which may give any payload;
-- `wait_until_calc_reads`; `store_batch`; `signal_listener_ready`.
pub data ListenerStep {F : Type 0} (c : Channel F) : Channel F → Type 0 where
  receive_packet :
      (p : List F)
      → c.pc ≡ receiving
      → ListenerStep c (record c { pc = waiting p; received = c.received ++ p ∷ [] })
  wait_until_calc_reads :
      (p : List F)
      → c.pc ≡ waiting p
      → c.calc_signal ≡ true
      → ListenerStep c (record c { pc = storing p; calc_signal = false })
  store_batch :
      (p : List F) → c.pc ≡ storing p → ListenerStep c (record c { pc = signalling; batch = p })
  signal_listener_ready :
      c.pc ≡ signalling → ListenerStep c (record c { pc = receiving; listener_signal = true })

-- The main thread, by the call of the loop in `main` that comes next.
pub data CalcPc : Type 0 where
  wait_first wait_second reading signal_first signal_second calculating : CalcPc
  wait_sender signal_sender : CalcPc

-- The sender, by the call of the loop in `run_sender` that comes next.
pub data SenderPc : Type 0 where
  wait_calc sending signal_ready : SenderPc

-- `results` and `sent` record what was calculated and what went out, the oldest first.
pub record System (F : Type 0) : Type 0 where
  pub one : Channel F
  pub two : Channel F
  pub calc : CalcPc
  pub first_batch : List F
  pub second_batch : List F
  pub calculations : List F
  pub sender_signal : Bool
  pub calc_to_sender_signal : Bool
  pub sender : SenderPc
  pub results : List (List F)
  pub sent : List (List F)

-- `initialize_condition_packs` and `initialize_batch_stock`: a listener may write at once.
abbrev pub initial_channel : (F : Type 0) → Channel F
initial_channel F = record {
  pc = receiving;
  listener_signal = false;
  calc_signal = true;
  batch = [];
  received = [];
  read = [];
}

abbrev pub initial : (F : Type 0) → System F
initial F = record {
  one = initial_channel F;
  two = initial_channel F;
  calc = wait_first;
  first_batch = [];
  second_batch = [];
  calculations = [];
  sender_signal = true;
  calc_to_sender_signal = false;
  sender = wait_calc;
  results = [];
  sent = [];
}

-- `clean_batch_stock` on one half, after `get_first_stock_from_batch` or the second.
abbrev pub take_batch : {F : Type 0} → Channel F → Channel F
take_batch c = record c { batch = []; read = c.read ++ c.batch ∷ [] }

module _ {F : Type 0} (server_calculations : List F → List F) where
  -- The calculator: `wait_listeners_write`, `read_batches`, `signal_read`, `calculate_res`,
  -- `wait_for_sender` and `signal_calculated`, then the next round.
  pub data CalcStep (s : System F) : System F → Type 0 where
    wait_listener_one :
        s.calc ≡ wait_first
        → s.one.listener_signal ≡ true
        → CalcStep s
            (record s { calc = wait_second; one = record (s.one) { listener_signal = false } })
    wait_listener_two :
        s.calc ≡ wait_second
        → s.two.listener_signal ≡ true
        → CalcStep s (record s { calc = reading; two = record (s.two) { listener_signal = false } })
    read_batches :
        s.calc ≡ reading
        → CalcStep s (record s {
          calc = signal_first;
          first_batch = s.one.batch;
          second_batch = s.two.batch;
          one = take_batch s.one;
          two = take_batch s.two;
        })
    signal_listener_one :
        s.calc ≡ signal_first
        → CalcStep s
            (record s { calc = signal_second; one = record (s.one) { calc_signal = true } })
    signal_listener_two :
        s.calc ≡ signal_second
        → CalcStep s (record s { calc = calculating; two = record (s.two) { calc_signal = true } })
    calculate_res :
        (res : List F)
        → s.calc ≡ calculating
        → res ≡ server_calculations (s.first_batch ++ s.second_batch)
        → CalcStep s
            (record s { calc = wait_sender; calculations = res; results = s.results ++ res ∷ [] })
    wait_for_sender :
        s.calc ≡ wait_sender
        → s.sender_signal ≡ true
        → CalcStep s (record s { calc = signal_sender; sender_signal = false })
    signal_calculated :
        s.calc ≡ signal_sender
        → CalcStep s (record s { calc = wait_first; calc_to_sender_signal = true })

  -- The sender: `wait_for_calculator`, `send_calcs` and `signal_sender_ready`.
  pub data SenderStep (s : System F) : System F → Type 0 where
    wait_for_calculator :
        s.sender ≡ wait_calc
        → s.calc_to_sender_signal ≡ true
        → SenderStep s (record s { sender = sending; calc_to_sender_signal = false })
    send_calcs :
        s.sender ≡ sending
        → SenderStep s (record s { sender = signal_ready; sent = s.sent ++ s.calculations ∷ [] })
    signal_sender_ready :
        s.sender ≡ signal_ready
        → SenderStep s (record s { sender = wait_calc; sender_signal = true })

  pub data Step (s : System F) : System F → Type 0 where
    listener_one : {c : Channel F} → ListenerStep s.one c → Step s (record s { one = c })
    listener_two : {c : Channel F} → ListenerStep s.two c → Step s (record s { two = c })
    calculator : {t : System F} → CalcStep s t → Step s t
    sender_thread : {t : System F} → SenderStep s t → Step s t

  pub data Reach : System F → Type 0 where
    start : Reach (initial F)
    next : {s t : System F} → Reach s → Step s t → Reach t
