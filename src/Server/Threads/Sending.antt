-- ===== src/Server/Threads/Sending.antt =====
-- Which results the sender puts on the wire.
use quadrocopt.Base.{
  ℕ, suc, ◌+◌, ◌≤◌, ◌≡◌, refl, ◌⊎◌, inl, inr, List, [], ◌∷◌, ◌++◌, arith, length, length-append,
  get_elem?, get_elem?-append, get_elem?-append_left, get_elem?-append_one, some,
}
use quadrocopt.Server.Threads.{
  CalcPc, wait_sender, SenderPc, wait_calc, sending, signal_ready, System, CalcStep, SenderStep,
  Step, listener_one, listener_two, calculator, sender_thread, Reach, start, next,
  wait_listener_one, wait_listener_two, read_batches, signal_listener_one, signal_listener_two,
  calculate_res, wait_for_sender, signal_calculated, wait_for_calculator, send_calcs,
  signal_sender_ready,
}
use quadrocopt.Server.Threads.Handshake.{one_if}
use quadrocopt.Server.Threads.Invariant.{at_signal_sender, IsSystem, Reach-IsSystem}

abbrev pub at_wait_sender : CalcPc → ℕ
at_wait_sender wait_sender = 1
at_wait_sender _ = 0

abbrev pub at_sending : SenderPc → ℕ
at_sending sending = 1
at_sending wait_calc = 0
at_sending signal_ready = 0

module _ {F : Type 0} where
  -- What is sent in place `i` was calculated in place `i` or in the next.
  abbrev pub Lags : List (List F) → List (List F) → Type 0
  Lags sent results =
      (i : ℕ) (x : List F)
      → get_elem? sent i ≡ some x
      → (get_elem? results i ≡ some x) ⊎ (get_elem? results (suc i) ≡ some x)

  pub record IsSent (s : System F) : Type 0 where
    pub count :
        length s.results
        ≡ length s.sent
          + at_signal_sender s.calc
          + one_if s.calc_to_sender_signal
          + at_sending s.sender
          + at_wait_sender s.calc
    newest : (n : ℕ) → length s.results ≡ suc n → get_elem? s.results n ≡ some s.calculations
    lags : Lags s.sent s.results

  Lags-calculated :
      (sent results : List (List F)) (res : List F)
      → Lags sent results
      → Lags sent (results ++ res ∷ [])
  Lags-calculated sent results res h i x e = elim (h i x e) [
    | inl here ↦ inl (get_elem?-append_left results (res ∷ []) i here)
    | inr later ↦ inr (get_elem?-append_left results (res ∷ []) (suc i) later)
  ]

  Lags-sent :
      (sent results : List (List F)) (y : List F)
      → Lags sent results
      → (get_elem? results (length sent) ≡ some y)
        ⊎ (get_elem? results (suc (length sent)) ≡ some y)
      → Lags (sent ++ y ∷ []) results
  Lags-sent sent results y h last i x e = elim (get_elem?-append_one sent y i e) [
    | inl old ↦ h i x old
    | inr (at, new) ↦ rw (at, new) last
  ]

  newest-calculated :
      (results : List (List F)) (res : List F) (n : ℕ)
      → length (results ++ res ∷ []) ≡ suc n
      → get_elem? (results ++ res ∷ []) n ≡ some res
  newest-calculated results res n e =
      let at : n ≡ length results = omega (arith, length-append results (res ∷ [])) in
      rw at (get_elem?-append results [] res)

  -- When the sender sends, one result is granted to it, and one more may have been calculated.
  granted :
      {s : System F}
      → IsSystem s
      → IsSent s
      → s.sender ≡ sending
      → (length s.results ≡ suc (length s.sent)) ⊎ (length s.results ≡ suc (suc (length s.sent)))
  granted i j e = ground (arith, i.token, j.count)

  sent-Lags :
      {s : System F}
      → IsSystem s
      → IsSent s
      → s.sender ≡ sending
      → Lags (s.sent ++ s.calculations ∷ []) s.results
  sent-Lags {s} i j e = Lags-sent s.sent s.results s.calculations j.lags (elim (granted i j e) [
    | inl n ↦ inl (j.newest (length s.sent) n)
    | inr n ↦ inr (j.newest (suc (length s.sent)) n)
  ])

module _ {F : Type 0} (server_calculations : List F → List F) where
  CalcStep-IsSent :
      {s t : System F} → CalcStep server_calculations s t → IsSystem s → IsSent s → IsSent t
  CalcStep-IsSent (wait_listener_one e f) j i = record {
    count = ground (arith, i.count);
    newest = i.newest;
    lags = i.lags;
  }
  CalcStep-IsSent (wait_listener_two e f) j i = record {
    count = ground (arith, i.count);
    newest = i.newest;
    lags = i.lags;
  }
  CalcStep-IsSent (read_batches e) j i = record {
    count = ground (arith, i.count);
    newest = i.newest;
    lags = i.lags;
  }
  CalcStep-IsSent (signal_listener_one e) j i = record {
    count = ground (arith, i.count);
    newest = i.newest;
    lags = i.lags;
  }
  CalcStep-IsSent (signal_listener_two e) j i = record {
    count = ground (arith, i.count);
    newest = i.newest;
    lags = i.lags;
  }
  CalcStep-IsSent {s} (calculate_res res e f) j i = record {
    count = ground (arith, i.count, length-append s.results (res ∷ []));
    newest = newest-calculated s.results res;
    lags = Lags-calculated s.sent s.results res i.lags;
  }
  CalcStep-IsSent (wait_for_sender e f) j i = record {
    count = ground (arith, i.count);
    newest = i.newest;
    lags = i.lags;
  }
  CalcStep-IsSent (signal_calculated e) j i = record {
    count = ground (arith, i.count, j.token);
    newest = i.newest;
    lags = i.lags;
  }

  SenderStep-IsSent :
      {s t : System F} → SenderStep server_calculations s t → IsSystem s → IsSent s → IsSent t
  SenderStep-IsSent (wait_for_calculator e f) j i = record {
    count = ground (arith, i.count);
    newest = i.newest;
    lags = i.lags;
  }
  SenderStep-IsSent {s} (send_calcs e) j i = record {
    count = ground (arith, i.count, length-append s.sent (s.calculations ∷ []));
    newest = i.newest;
    lags = sent-Lags j i e;
  }
  SenderStep-IsSent (signal_sender_ready e) j i = record {
    count = ground (arith, i.count);
    newest = i.newest;
    lags = i.lags;
  }

  Step-IsSent : {s t : System F} → Step server_calculations s t → IsSystem s → IsSent s → IsSent t
  Step-IsSent (listener_one st) j i = record { count = i.count; newest = i.newest; lags = i.lags }
  Step-IsSent (listener_two st) j i = record { count = i.count; newest = i.newest; lags = i.lags }
  Step-IsSent (calculator st) j i = CalcStep-IsSent st j i
  Step-IsSent (sender_thread st) j i = SenderStep-IsSent st j i

  pub Reach-IsSent : {s : System F} → Reach server_calculations s → IsSent s
  Reach-IsSent start = record {
    count = refl;
    newest = λ n e. absurd (omega arith);
    lags = λ i x e. cc;
  }
  Reach-IsSent (next r st) = Step-IsSent st (Reach-IsSystem server_calculations r) (Reach-IsSent r)

  -- In every reachable state of the server the sender has sent no more than was calculated and at
  -- most two results less, and what it sent in place i is the result of round i or of the round
  -- after it.
  pub sent-Lags_results :
      {s : System F}
      → Reach server_calculations s
      → (length s.sent ≤ length s.results)
        × (length s.results ≤ length s.sent + 2)
        × Lags s.sent s.results
  sent-Lags_results r =
      let i = Reach-IsSent r in
      let j = Reach-IsSystem server_calculations r in
      (omega (arith, i.count), ground (arith, i.count, j.token), i.lags)
