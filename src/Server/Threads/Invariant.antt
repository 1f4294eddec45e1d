-- ===== src/Server/Threads/Invariant.antt =====
-- Both handshakes in every reachable state of the server, and what they exclude.
use quadrocopt.Base.{ℕ, ◌+◌, ◌≡◌, ◌≢◌, refl, Bool, true, false, List, [], arith}
use quadrocopt.Server.Threads.{
  storing, Channel, CalcPc, wait_second, reading, signal_first, signal_second, signal_sender,
  SenderPc, wait_calc, sending, signal_ready, System, CalcStep, SenderStep, Step, listener_one,
  listener_two, calculator, sender_thread, Reach, start, next, wait_listener_one, wait_listener_two,
  read_batches, signal_listener_one, signal_listener_two, calculate_res, wait_for_sender,
  signal_calculated, wait_for_calculator, send_calcs, signal_sender_ready,
}
use quadrocopt.Server.Threads.Handshake.{
  Stage, free, got, taken, one_if, IsChannel, storing-full, initial-IsChannel,
  ListenerStep-IsChannel, wait-IsChannel, take_batch-IsChannel, signal-IsChannel,
}

abbrev pub stage_one : CalcPc → Stage
stage_one wait_second = got
stage_one reading = got
stage_one signal_first = taken
stage_one _ = free

abbrev pub stage_two : CalcPc → Stage
stage_two reading = got
stage_two signal_first = taken
stage_two signal_second = taken
stage_two _ = free

abbrev pub at_signal_sender : CalcPc → ℕ
at_signal_sender signal_sender = 1
at_signal_sender _ = 0

abbrev pub at_work : SenderPc → ℕ
at_work wait_calc = 0
at_work sending = 1
at_work signal_ready = 1

-- The third handshake, of the calculator and the sender, has one token as well.
pub record IsSystem {F : Type 0} (s : System F) : Type 0 where
  pub one : IsChannel s.one (stage_one s.calc)
  pub two : IsChannel s.two (stage_two s.calc)
  pub token :
      one_if s.sender_signal
        + at_signal_sender s.calc
        + one_if s.calc_to_sender_signal
        + at_work s.sender
      ≡ 1

module _ {F : Type 0} (server_calculations : List F → List F) where
  -- The channel of the first listener, or of the second.
  abbrev pub channel : Bool → System F → Channel F
  channel true s = s.one
  channel false s = s.two

  CalcStep-IsSystem : {s t : System F} → CalcStep server_calculations s t → IsSystem s → IsSystem t
  CalcStep-IsSystem (wait_listener_one e f) i = record {
    one = wait-IsChannel (rw e at i.one) f;
    two = rw e at i.two;
    token = ground (arith, i.token);
  }
  CalcStep-IsSystem (wait_listener_two e f) i = record {
    one = rw e at i.one;
    two = wait-IsChannel (rw e at i.two) f;
    token = ground (arith, i.token);
  }
  CalcStep-IsSystem (read_batches e) i = record {
    one = take_batch-IsChannel (rw e at i.one);
    two = take_batch-IsChannel (rw e at i.two);
    token = ground (arith, i.token);
  }
  CalcStep-IsSystem (signal_listener_one e) i = record {
    one = signal-IsChannel (rw e at i.one);
    two = rw e at i.two;
    token = ground (arith, i.token);
  }
  CalcStep-IsSystem (signal_listener_two e) i = record {
    one = rw e at i.one;
    two = signal-IsChannel (rw e at i.two);
    token = ground (arith, i.token);
  }
  CalcStep-IsSystem (calculate_res res e f) i = record {
    one = rw e at i.one;
    two = rw e at i.two;
    token = ground (arith, i.token);
  }
  CalcStep-IsSystem (wait_for_sender e f) i = record {
    one = rw e at i.one;
    two = rw e at i.two;
    token = ground (arith, i.token);
  }
  CalcStep-IsSystem (signal_calculated e) i = record {
    one = rw e at i.one;
    two = rw e at i.two;
    token = ground (arith, i.token);
  }

  SenderStep-IsSystem :
      {s t : System F} → SenderStep server_calculations s t → IsSystem s → IsSystem t
  SenderStep-IsSystem (wait_for_calculator e f) i = record {
    one = i.one;
    two = i.two;
    token = ground (arith, i.token);
  }
  SenderStep-IsSystem (send_calcs e) i = record {
    one = i.one;
    two = i.two;
    token = ground (arith, i.token);
  }
  SenderStep-IsSystem (signal_sender_ready e) i = record {
    one = i.one;
    two = i.two;
    token = ground (arith, i.token);
  }

  Step-IsSystem : {s t : System F} → Step server_calculations s t → IsSystem s → IsSystem t
  Step-IsSystem (listener_one st) i = record {
    one = ListenerStep-IsChannel st i.one;
    two = i.two;
    token = i.token;
  }
  Step-IsSystem (listener_two st) i = record {
    one = i.one;
    two = ListenerStep-IsChannel st i.two;
    token = i.token;
  }
  Step-IsSystem (calculator st) i = CalcStep-IsSystem st i
  Step-IsSystem (sender_thread st) i = SenderStep-IsSystem st i

  pub Reach-IsSystem : {s : System F} → Reach server_calculations s → IsSystem s
  Reach-IsSystem start = record { one = initial-IsChannel; two = initial-IsChannel; token = refl }
  Reach-IsSystem (next r st) = Step-IsSystem st (Reach-IsSystem r)

  -- In every reachable state of the server a listener, the first or the second, that is about to
  -- store a payload finds its half of the batch stock clean, so no batch is overwritten before the
  -- calculator has read it, and the calculator is not reading.
  pub store_over_clean :
      {s : System F} (first : Bool) (p : List F)
      → Reach server_calculations s
      → (channel first s).pc ≡ storing p
      → ((channel first s).batch ≡ []) × (s.calc ≢ reading)
  store_over_clean {s} true p r e =
      let i = Reach-IsSystem r in
      (i.one.clean (storing-full p i.one e), λ f. ground (arith, i.one.token))
  store_over_clean {s} false p r e =
      let i = Reach-IsSystem r in
      (i.two.clean (storing-full p i.two e), λ f. ground (arith, i.two.token))
