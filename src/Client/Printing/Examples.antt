-- ===== src/Client/Printing/Examples.antt =====
-- The loop of the simulation over numbers, up to where it stops.
use quadrocopt.Base.{◌⊎◌, ℕ, ◌+◌, ◌≤◌, ◌≡◌, refl, leb, [], some, true, false}
use quadrocopt.Client.CalcData.{CalculatorData}
use quadrocopt.Client.Printing.{
  wait_printer, ended, PrinterParameters, float_arr, fout, System, CalcStep, next_step,
  wait_for_printer, set_params, tell_printer, end_printer, calculator, printer_thread, Reach, start,
  next, print, print_msg, fetch_msg,
}
use quadrocopt.Client.Printing.Stops.{simulation_stops}

-- `fname_results`, with the floats of the state.
abbrev results : PrinterParameters
results = record { out_stream = fout; payload_type = float_arr }

abbrev at_start : CalculatorData ℕ
at_start = record {
  time_start = 0;
  time_end = 10;
  step = 1;
  curr_time = 0;
  v_x = 0;
  vdot_x = 0;
  v_y = 0;
  vdot_y = 0;
  v_z = 0;
  vdot_z = 0;
  v_theta = 0;
  vdot_theta = 0;
  v_phi = 0;
  vdot_phi = 0;
  v_psy = 0;
  vdot_psy = 0;
}

abbrev Run : System ℕ ℕ → Type 0
Run s = Reach leb (λ a b. a + b) (λ d. d) results at_start s

-- Two steps, a printer that has ended, and a wait that nobody ends.
abbrev stopped : System ℕ ℕ
stopped = record {
  calc = wait_printer;
  printer = ended;
  calc_data = record at_start { curr_time = 2 };
  printer_stock = record { params = some results };
  printer_to_signal = true;
  printer_from_signal = false;
  steps = 2;
  waits = 1;
  output = [];
}

stopped-Run : Run stopped
unfolding print print_msg fetch_msg
stopped-Run =
    next
      (next
        (next
          (next
            (next (next start (printer_thread (end_printer refl refl)))
              (calculator (next_step refl refl)))
            (calculator (wait_for_printer refl refl)))
          (calculator (set_params refl)))
        (calculator (tell_printer refl)))
      (calculator (next_step refl refl))

simulation_stops_example :
    (stopped.output ≡ [])
    × ((stopped.steps ≤ 1)
        ⊎ ((stopped.steps ≡ 2)
            × ((t : System ℕ ℕ) → ¬ CalcStep leb (λ a b. a + b) (λ d. d) results stopped t)))
simulation_stops_example = simulation_stops leb (λ a b. a + b) (λ d. d) results at_start stopped-Run
