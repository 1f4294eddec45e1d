-- ===== src/Client/Printing.antt =====
-- The loop of the simulation and the printer: `do_client_calculations` and `print_calc_data` of
-- client/main.c against `run_printer` of client/run_printer.c, in any interleaving. A message is
-- an abstract type; what is written is recorded with the stream it goes to.
pub mod Stops
mod Examples
use quadrocopt.Base.{
  ℕ, suc, ◌≡◌, Bool, true, false, List, [], ◌∷◌, ◌++◌, Option, none, some, Outcome, ok, exit, ◌>>=◌,
  or_fault,
}
use quadrocopt.Client.CalcData.{CalculatorData}

pub data ParametersPayloadType : Type 0 where
  string float_arr : ParametersPayloadType
  other_payload : ℕ → ParametersPayloadType

pub data OutputStream : Type 0 where
  stdout stderr fout : OutputStream

pub record PrinterParameters : Type 0 where
  pub out_stream : OutputStream
  pub payload_type : ParametersPayloadType

-- The message queue is `NULL` from the start and nobody sets it.
pub record PrinterStock : Type 0 where
  pub params : Option PrinterParameters

abbrev pub initialize_printer_stock : PrinterStock
initialize_printer_stock = record { params = none }

-- The two texts that `print` makes of a message.
pub data Text (M : Type 0) : Type 0 where
  as_string : M → Text M
  as_floats : M → Text M

pub data Status (M : Type 0) : Type 0 where
  no_message : Status M
  printed : OutputStream → Text M → Status M

module _ {M : Type 0} where
  unfoldable pub fetch_msg : PrinterStock → Option M
  fetch_msg stock = none

  abbrev pub text_of : ParametersPayloadType → M → Outcome (Text M)
  text_of string msg = ok (as_string msg)
  text_of float_arr msg = ok (as_floats msg)
  text_of (other_payload n) msg = exit

  -- `no_message` is the result -1.
  unfoldable pub print_msg : PrinterStock → Option M → Outcome (Status M)
  print_msg stock none = ok no_message
  print_msg stock (some msg) = do
    params ← or_fault stock.params
    text ← text_of params.payload_type msg
    ok (printed params.out_stream text)

  unfoldable pub print : PrinterStock → Outcome (Status M)
  unfolding fetch_msg print_msg
  print stock = print_msg stock (fetch_msg stock)

-- The main thread, by the call that comes next, and the printer.
pub data CalcPc : Type 0 where
  stepping wait_printer stocking signal_printer finished : CalcPc

pub data PrinterPc : Type 0 where
  running ended : PrinterPc

-- `steps` counts the calls of `get_next_step`, and `waits` the waits for the printer that ended.
pub record System (F M : Type 0) : Type 0 where
  pub calc : CalcPc
  pub printer : PrinterPc
  pub calc_data : CalculatorData F
  pub printer_stock : PrinterStock
  pub printer_to_signal : Bool
  pub printer_from_signal : Bool
  pub steps : ℕ
  pub waits : ℕ
  pub output : List (OutputStream × Text M)

abbrev pub initial : {F M : Type 0} → CalculatorData F → System F M
initial d = record {
  calc = stepping;
  printer = running;
  calc_data = d;
  printer_stock = initialize_printer_stock;
  printer_to_signal = false;
  printer_from_signal = true;
  steps = 0;
  waits = 0;
  output = [];
}

-- One round of the loop, up to `print_calc_data`.
abbrev pub advance :
    {F : Type 0}
    → (F → F → F)
    → (CalculatorData F → CalculatorData F)
    → CalculatorData F
    → CalculatorData F
advance add get_next_step d =
    let next = get_next_step d in record next { curr_time = add next.curr_time next.step }

-- The order and the sum of floats, `get_next_step`, and the parameters that
-- `create_printer_params_collection` makes.
module _ {F M : Type 0} (at_most : F → F → Bool) (add : F → F → F)
    (get_next_step : CalculatorData F → CalculatorData F) (results_params : PrinterParameters) where
  pub data CalcStep (s : System F M) : System F M → Type 0 where
    next_step :
        s.calc ≡ stepping
        → at_most s.calc_data.curr_time s.calc_data.time_end ≡ true
        → CalcStep s (record s {
          calc = wait_printer;
          calc_data = advance add get_next_step s.calc_data;
          steps = suc s.steps;
        })
    leave_loop :
        s.calc ≡ stepping
        → at_most s.calc_data.curr_time s.calc_data.time_end ≡ false
        → CalcStep s (record s { calc = finished })
    wait_for_printer :
        s.calc ≡ wait_printer
        → s.printer_from_signal ≡ true
        → CalcStep s
            (record s { calc = stocking; printer_from_signal = false; waits = suc s.waits })
    set_params :
        s.calc ≡ stocking
        → CalcStep s (record s {
          calc = signal_printer;
          printer_stock = record { params = some results_params };
        })
    tell_printer :
        s.calc ≡ signal_printer
        → CalcStep s (record s { calc = stepping; printer_to_signal = true })

  -- One call of `print` in the loop of `run_printer`.
  pub data PrinterStep (s : System F M) : System F M → Type 0 where
    print_more :
        (stream : OutputStream) (text : Text M)
        → s.printer ≡ running
        → print s.printer_stock ≡ ok (printed stream text)
        → PrinterStep s (record s { output = s.output ++ (stream, text) ∷ [] })
    end_printer :
        s.printer ≡ running
        → print {M = M} s.printer_stock ≡ ok no_message
        → PrinterStep s (record s { printer = ended })

  pub data Step (s : System F M) : System F M → Type 0 where
    calculator : {t : System F M} → CalcStep s t → Step s t
    printer_thread : {t : System F M} → PrinterStep s t → Step s t

  pub data Reach (d : CalculatorData F) : System F M → Type 0 where
    start : Reach d (initial d)
    next : {s t : System F M} → Reach d s → Step s t → Reach d t
