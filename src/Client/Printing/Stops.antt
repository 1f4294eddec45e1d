-- ===== src/Client/Printing/Stops.antt =====
-- How far the loop of the simulation gets.
use quadrocopt.Base.{
  zero, suc, ◌⊎◌, inl, inr, ℕ, ◌+◌, ◌≤◌, ◌≡◌, refl, ap, arith, Bool, true, false, [],
}
use quadrocopt.Client.CalcData.{CalculatorData}
use quadrocopt.Client.Printing.{
  PrinterParameters, fetch_msg, print_msg, print, CalcPc, stepping, wait_printer, stocking,
  signal_printer, finished, System, CalcStep, next_step, leave_loop, wait_for_printer, set_params,
  tell_printer, PrinterStep, print_more, end_printer, calculator, printer_thread, Reach, start,
  next,
}

-- The token of `printer_from_signal`, and the step that is not printed yet.
abbrev token : Bool → ℕ
token true = 1
token false = 0

abbrev unprinted : CalcPc → ℕ
unprinted stepping = 0
unprinted wait_printer = 1
unprinted stocking = 0
unprinted signal_printer = 0
unprinted finished = 0

unprinted-le : (c : CalcPc) → unprinted c ≤ 1
unprinted-le stepping = omega arith
unprinted-le wait_printer = omega arith
unprinted-le stocking = omega arith
unprinted-le signal_printer = omega arith
unprinted-le finished = omega arith

unprinted-one : (c : CalcPc) → unprinted c ≡ 1 → c ≡ wait_printer
unprinted-one stepping e = absurd (omega arith)
unprinted-one wait_printer e = refl
unprinted-one stocking e = absurd (omega arith)
unprinted-one signal_printer e = absurd (omega arith)
unprinted-one finished e = absurd (omega arith)

at_most_two : (k : ℕ) → k ≤ 2 → (k ≤ 1) ⊎ (k ≡ 2)
at_most_two zero le = inl (omega arith)
at_most_two (suc zero) le = inl (omega arith)
at_most_two (suc (suc k)) le = inr (omega arith)

token-zero : (b : Bool) → token b ≡ 0 → b ≡ false
token-zero false e = refl
token-zero true e = absurd (omega arith)

module _ {F M : Type 0} (at_most : F → F → Bool) (add : F → F → F)
    (get_next_step : CalculatorData F → CalculatorData F) (results_params : PrinterParameters) where
  record IsOnce (s : System F M) : Type 0 where
    once : s.waits + token s.printer_from_signal ≡ 1
    count : s.steps ≡ s.waits + unprinted s.calc
    silent : s.output ≡ []

  CalcStep-IsOnce :
      {s t : System F M}
      → CalcStep at_most add get_next_step results_params s t
      → IsOnce s
      → IsOnce t
  CalcStep-IsOnce {s} (next_step e le) i = record {
    once = i.once;
    count = omega (arith, i.count, ap unprinted e);
    silent = i.silent;
  }
  CalcStep-IsOnce {s} (leave_loop e le) i = record {
    once = i.once;
    count = omega (arith, i.count, ap unprinted e);
    silent = i.silent;
  }
  CalcStep-IsOnce {s} (wait_for_printer e f) i = record {
    once = omega (arith, i.once, ap token f);
    count = omega (arith, i.count, ap unprinted e);
    silent = i.silent;
  }
  CalcStep-IsOnce {s} (set_params e) i = record {
    once = i.once;
    count = omega (arith, i.count, ap unprinted e);
    silent = i.silent;
  }
  CalcStep-IsOnce {s} (tell_printer e) i = record {
    once = i.once;
    count = omega (arith, i.count, ap unprinted e);
    silent = i.silent;
  }

  PrinterStep-IsOnce :
      {s t : System F M}
      → PrinterStep at_most add get_next_step results_params s t
      → IsOnce s
      → IsOnce t
  unfolding print print_msg fetch_msg
  PrinterStep-IsOnce (print_more stream text e f) i = cc
  PrinterStep-IsOnce (end_printer e f) i = record {
    once = i.once;
    count = i.count;
    silent = i.silent;
  }

  Reach-IsOnce :
      (d : CalculatorData F) {s : System F M}
      → Reach at_most add get_next_step results_params d s
      → IsOnce s
  Reach-IsOnce d start = record { once = refl; count = refl; silent = refl }
  Reach-IsOnce d (next r (calculator st)) = CalcStep-IsOnce st (Reach-IsOnce d r)
  Reach-IsOnce d (next r (printer_thread st)) = PrinterStep-IsOnce st (Reach-IsOnce d r)

  -- A wait for the printer without its signal has no step.
  stuck :
      {s t : System F M}
      → s.calc ≡ wait_printer
      → s.printer_from_signal ≡ false
      → ¬ CalcStep at_most add get_next_step results_params s t
  stuck e f (next_step c le) = cc
  stuck e f (leave_loop c le) = cc
  stuck e f (wait_for_printer c g) = cc
  stuck e f (set_params c) = cc
  stuck e f (tell_printer c) = cc

  -- Whatever the order and the sum of floats and whatever get_next_step computes: in every
  -- reachable state of the loop and the printer nothing was written, and either at most one step
  -- of the simulation was made, or exactly two, and then the main thread has no step.
  pub simulation_stops :
      (d : CalculatorData F) {s : System F M}
      → Reach at_most add get_next_step results_params d s
      → (s.output ≡ [])
        × ((s.steps ≤ 1)
            ⊎ ((s.steps ≡ 2)
                × ((t : System F M) → ¬ CalcStep at_most add get_next_step results_params s t)))
  simulation_stops d {s} r =
      let i = Reach-IsOnce d r in
      let last = unprinted-le s.calc in
      (
        i.silent,
        elim (at_most_two s.steps (omega (arith, i.once, i.count, last))) [
          | inl few ↦ inl few
          | inr two ↦ inr (
            two,
            λ t.
                stuck (unprinted-one s.calc (omega (arith, i.once, i.count, last, two)))
                  (token-zero s.printer_from_signal (omega (arith, i.once, i.count, last, two))),
          )
        ],
      )
