-- ===== src/Client/Threads.antt =====
-- The exchange of the client's threads: the calculator, which is the main thread and calls `get_u`
-- (client/main.c), the sender (client/run_sender.c), the listener (client/run_listener.c), and the
-- server behind two queues of datagrams, in any interleaving.
-- `wait_with_pack` and `signal_with_pack` (client/threading_stuff.c) read and write the flag
-- `cond_to_verify` under the pack's mutex: a wait is one step that needs the flag and clears it,
-- and a signal is one step that sets it.
-- The network and the server are taken together as one that answers each pair of batches once and in
-- their order. That is no model of the server of this repository, which may lose or repeat a result;
-- Conversation has its threads in this place, and a network that may lose datagrams.
pub mod Journey
pub mod Invariant
pub mod Delay
pub mod Progress
mod Examples
use quadrocopt.Base.{
  ℕ, zero, suc, ◌≡◌, Bool, true, false, List, [], ◌∷◌, ◌++◌, replicate, take, drop, map, Outcome,
  read_at,
}

-- The two batches of a `SenderStock`.
abbrev pub Batches : Type 0 → Type 0
Batches F = List F × List F

-- `get_u` in client/main.c, by the call that comes next; `idle` is outside it. The batches in its
-- hand are the first six floats of the payload and the next seven.
pub data CalcPc (F : Type 0) : Type 0 where
  idle : CalcPc F
  wait_sender : Batches F → CalcPc F
  adding : Batches F → CalcPc F
  signal_sender wait_listener reading signal_listener : CalcPc F

-- The loop of `run_sender`, with the batches that `fetch_batches` copied.
pub data SenderPc (F : Type 0) : Type 0 where
  wait_calc fetching : SenderPc F
  signal_ready sending : Batches F → SenderPc F

-- The loop of `run_listener`, with the payload of the packet received.
pub data ListenerPc (F : Type 0) : Type 0 where
  receiving : ListenerPc F
  wait_read storing : List F → ListenerPc F
  signal_stored : ListenerPc F

-- The six packs of `ThreadConditionPacksCollection`, less those of the printer, by their flags.
-- `asked` and `got` record the batches that `get_u` stored and those that it read of the listener's
-- stock; it returns `copy_command` of each.
pub record System (F : Type 0) : Type 0 where
  pub calc : CalcPc F
  pub sender : SenderPc F
  pub listener : ListenerPc F
  pub sender_to_signal : Bool
  pub sender_from_signal : Bool
  pub listener_to_signal : Bool
  pub listener_from_signal : Bool
  pub sender_stock : Batches F
  pub listener_stock : List F
  pub outgoing : List (Batches F)
  pub incoming : List (List F)
  pub asked : List (Batches F)
  pub got : List (List F)

-- `fill_sender_stock`: six and seven floats of zero.
abbrev pub initial_batches : {F : Type 0} → F → Batches F
initial_batches nought = (replicate 6 nought, replicate 7 nought)

-- `initialize_condition_packs` and the stocks of `initialize_globals`.
abbrev pub initial : {F : Type 0} → F → System F
initial nought = record {
  calc = idle;
  sender = wait_calc;
  listener = receiving;
  sender_to_signal = true;
  sender_from_signal = false;
  listener_to_signal = true;
  listener_from_signal = false;
  sender_stock = initial_batches nought;
  listener_stock = [];
  outgoing = [];
  incoming = [];
  asked = [];
  got = [];
}

-- `memcpy` of the first six floats of the payload and of the seven behind them.
abbrev pub split_payload : {F : Type 0} → List F → Batches F
split_payload payload = (take 6 payload, take 7 (drop 6 payload))

-- `memcpy` of four floats of the batch that `read_listener_batch` gives; a shorter batch is read
-- beyond its end.
abbrev pub copy_command : {F : Type 0} → (listener_batch : List F) → Outcome (List F)
copy_command listener_batch = read_at listener_batch 0 4

module _ {F : Type 0} where
  pub data CalcStep (s : System F) : System F → Type 0 where
    get_u :
        (payload : List F)
        → s.calc ≡ idle
        → CalcStep s (record s { calc = wait_sender (split_payload payload) })
    wait_for_sender :
        (b : Batches F)
        → s.calc ≡ wait_sender b
        → s.sender_from_signal ≡ true
        → CalcStep s (record s { calc = adding b; sender_from_signal = false })
    add_batches :
        (b : Batches F)
        → s.calc ≡ adding b
        → CalcStep s
            (record s { calc = signal_sender; sender_stock = b; asked = s.asked ++ b ∷ [] })
    tell_sender :
        s.calc ≡ signal_sender
        → CalcStep s (record s { calc = wait_listener; sender_to_signal = true })
    wait_for_listener :
        s.calc ≡ wait_listener
        → s.listener_from_signal ≡ true
        → CalcStep s (record s { calc = reading; listener_from_signal = false })
    read_listener_batch :
        s.calc ≡ reading
        → CalcStep s (record s {
          calc = signal_listener;
          listener_stock = [];
          got = s.got ++ s.listener_stock ∷ [];
        })
    tell_listener :
        s.calc ≡ signal_listener → CalcStep s (record s { calc = idle; listener_to_signal = true })

  pub data SenderStep (s : System F) : System F → Type 0 where
    wait_for_calc :
        s.sender ≡ wait_calc
        → s.sender_to_signal ≡ true
        → SenderStep s (record s { sender = fetching; sender_to_signal = false })
    fetch_batches :
        s.sender ≡ fetching → SenderStep s (record s { sender = signal_ready s.sender_stock })
    tell_calc :
        (b : Batches F)
        → s.sender ≡ signal_ready b
        → SenderStep s (record s { sender = sending b; sender_from_signal = true })
    send_calcs :
        (b : Batches F)
        → s.sender ≡ sending b
        → SenderStep s (record s { sender = wait_calc; outgoing = s.outgoing ++ b ∷ [] })

  pub data ListenerStep (s : System F) : System F → Type 0 where
    receive_packet :
        (p : List F) (rest : List (List F))
        → s.listener ≡ receiving
        → s.incoming ≡ p ∷ rest
        → ListenerStep s (record s { listener = wait_read p; incoming = rest })
    wait_until_read :
        (p : List F)
        → s.listener ≡ wait_read p
        → s.listener_to_signal ≡ true
        → ListenerStep s (record s { listener = storing p; listener_to_signal = false })
    store_batch :
        (p : List F)
        → s.listener ≡ storing p
        → ListenerStep s (record s { listener = signal_stored; listener_stock = p })
    signal_ready_batch :
        s.listener ≡ signal_stored
        → ListenerStep s (record s { listener = receiving; listener_from_signal = true })

module _ {F : Type 0} (nought : F) (answer : Batches F → List F) where
  pub data Step (s : System F) : System F → Type 0 where
    calculator : {t : System F} → CalcStep s t → Step s t
    sender_thread : {t : System F} → SenderStep s t → Step s t
    listener_thread : {t : System F} → ListenerStep s t → Step s t
    server :
        (b : Batches F) (rest : List (Batches F))
        → s.outgoing ≡ b ∷ rest
        → Step s (record s { outgoing = rest; incoming = s.incoming ++ answer b ∷ [] })

  pub data Reach : System F → Type 0 where
    start : Reach (initial nought)
    next : {s t : System F} → Reach s → Step s t → Reach t
