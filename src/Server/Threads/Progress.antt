-- ===== src/Server/Threads/Progress.antt =====
-- The server never blocks for good: the handshakes always leave some thread a step.
use quadrocopt.Base.{◌≡◌, ◌≢◌, refl, ◌⊎◌, inl, inr, Bool, true, false, List, arith}
use quadrocopt.Server.Threads.{
  ListenerPc, receiving, waiting, storing, signalling, Channel, ListenerStep, wait_until_calc_reads,
  store_batch, signal_listener_ready, CalcPc, wait_first, wait_second, reading, signal_first,
  signal_second, calculating, wait_sender, signal_sender, SenderPc, wait_calc, sending,
  signal_ready, System, Step, listener_one, listener_two, calculator, sender_thread, Reach,
  wait_listener_one, wait_listener_two, read_batches, signal_listener_one, signal_listener_two,
  calculate_res, wait_for_sender, signal_calculated, wait_for_calculator, send_calcs,
  signal_sender_ready,
}
use quadrocopt.Server.Threads.Handshake.{free, IsChannel}
use quadrocopt.Server.Threads.Invariant.{IsSystem, Reach-IsSystem}

module _ {F : Type 0} where
  ListenerPc-cases :
      (pc : ListenerPc F)
      → pc ≢ receiving
      → ((p : List F) × (pc ≡ waiting p)) ⊎ ((p : List F) × (pc ≡ storing p)) ⊎ (pc ≡ signalling)
  ListenerPc-cases receiving h = absurd (h refl)
  ListenerPc-cases (waiting p) h = inl (p, refl)
  ListenerPc-cases (storing p) h = inr (inl (p, refl))
  ListenerPc-cases signalling h = inr (inr refl)

  abbrev pub Works : Channel F → Type 0
  Works c = (d : Channel F) × ListenerStep c d × (d.received ≡ c.received)

  -- A listener with a payload works on it, or has handed a batch over.
  pub listener-Works :
      {c : Channel F} → IsChannel c free → c.pc ≢ receiving → Works c ⊎ (c.listener_signal ≡ true)
  listener-Works {c} i h = elim (ListenerPc-cases c.pc h) [
    | inl (p, e) ↦ by_flag c.calc_signal refl p e
    | inr (inl (p, e)) ↦ inl (_, store_batch p e, refl)
    | inr (inr e) ↦ inl (_, signal_listener_ready e, refl)
  ]
    where
      by_flag :
          (b : Bool)
          → c.calc_signal ≡ b
          → (p : List F) → c.pc ≡ waiting p
          → Works c ⊎ (c.listener_signal ≡ true)
      by_flag true f p e = inl (_, wait_until_calc_reads p e f, refl)
      by_flag false f p e = inr (ground (arith, i.token))

module _ {F : Type 0} (server_calculations : List F → List F) where
  abbrev Moves : System F → Type 0
  Moves s = (t : System F) × Step server_calculations s t

  sender-Moves : {s : System F} → IsSystem s → s.calc ≡ wait_sender → Moves s
  sender-Moves {s} i e = go s.sender refl s.sender_signal refl
    where
      go : (pc : SenderPc) → s.sender ≡ pc → (b : Bool) → s.sender_signal ≡ b → Moves s
      go pc d true f = (_, calculator (wait_for_sender e f))
      go sending d false f = (_, sender_thread (send_calcs d))
      go signal_ready d false f = (_, sender_thread (signal_sender_ready d))
      go wait_calc d false f = (_, sender_thread (wait_for_calculator d (ground (arith, i.token))))

  calculator-Moves :
      {s : System F}
      → IsSystem s
      → s.one.pc ≢ receiving
      → s.two.pc ≢ receiving
      → (pc : CalcPc) → s.calc ≡ pc
      → Moves s
  calculator-Moves i h k wait_first e = elim (listener-Works (rw e at i.one) h) [
    | inl (c, st, _) ↦ (_, listener_one st)
    | inr f ↦ (_, calculator (wait_listener_one e f))
  ]
  calculator-Moves i h k wait_second e = elim (listener-Works (rw e at i.two) k) [
    | inl (c, st, _) ↦ (_, listener_two st)
    | inr f ↦ (_, calculator (wait_listener_two e f))
  ]
  calculator-Moves i h k reading e = (_, calculator (read_batches e))
  calculator-Moves i h k signal_first e = (_, calculator (signal_listener_one e))
  calculator-Moves i h k signal_second e = (_, calculator (signal_listener_two e))
  calculator-Moves i h k calculating e = (_, calculator (calculate_res _ e refl))
  calculator-Moves i h k wait_sender e = sender-Moves i e
  calculator-Moves i h k signal_sender e = (_, calculator (signal_calculated e))

  -- In every reachable state of the server where neither listener is waiting for a datagram, some
  -- thread has a step.
  pub no_deadlock :
      {s : System F}
      → Reach server_calculations s
      → s.one.pc ≢ receiving
      → s.two.pc ≢ receiving
      → Moves s
  no_deadlock {s} r h k = calculator-Moves (Reach-IsSystem server_calculations r) h k s.calc refl
