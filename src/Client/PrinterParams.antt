-- ===== src/Client/PrinterParams.antt =====
-- The parameters of a printer and its stock: `initialize_printer_params`, `copy_printer_params`,
-- `free_printer_params`, `set_printer_stock`, `add_message_to_printer_queue`, `free_printer_stock` and
-- `copy_str` of client/printer.c, and the collection of parameters of client/data_struct.c. The texts
-- stand in a heap of bytes; the structures themselves are values.
pub mod Copies
pub mod Stock
mod Examples
use quadrocopt.Base.{ℕ, List, ◌+◌, Option, none, some, Outcome, ok, fault, ◌>>=◌, or_fault}
use quadrocopt.Heap.{Ptr, Heap, deref, free, copy_arr_of_floats}
use quadrocopt.Text.{strlen}
use quadrocopt.Client.Printing.{OutputStream, fout, ParametersPayloadType, float_arr}
use quadrocopt.Client.DoubleList.{
  BiNodes, DoubleLinkedList, initialize_binode, add_to_double_linked_list, free_double_linked_list,
}

pub record PrinterParameters : Type 0 where
  pub out_stream : OutputStream
  pub payload_type : ParametersPayloadType
  pub file_path : Ptr
  pub open_mode : Ptr

-- The bytes of a block, copied as `copy_arr_of_floats` copies floats.
abbrev pub copy_buf : Heap ℕ → (buf : Ptr) (buf_len : ℕ) → Outcome (Ptr × Heap ℕ)
copy_buf h buf buf_len = copy_arr_of_floats h buf buf_len

unfoldable pub copy_str : Heap ℕ → (src : Ptr) → Outcome (Ptr × Heap ℕ)
copy_str h src = do block ← deref h src; str_len ← strlen block; copy_buf h src (str_len + 1)

-- A copy where there is something to copy.
abbrev pub copy_if_any : Heap ℕ → (src : Ptr) → Outcome (Ptr × Heap ℕ)
copy_if_any h none = ok (none, h)
copy_if_any h (some i) = copy_str h (some i)

unfoldable pub initialize_printer_params :
    Heap ℕ
    → OutputStream
    → ParametersPayloadType
    → (file_path open_mode : Ptr) → Outcome (PrinterParameters × Heap ℕ)
initialize_printer_params h out_stream payload_type file_path open_mode = do
  path ← copy_if_any h file_path
  mode ← copy_if_any path.1 open_mode
  ok (
    record {
      out_stream = out_stream;
      payload_type = payload_type;
      file_path = path.0;
      open_mode = mode.0;
    },
    mode.1,
  )

unfoldable pub copy_printer_params :
    Heap ℕ → PrinterParameters → Outcome (PrinterParameters × Heap ℕ)
copy_printer_params h params = do
  path ← copy_str h params.file_path
  mode ← copy_str path.1 params.open_mode
  ok (
    record {
      payload_type = params.payload_type;
      out_stream = params.out_stream;
      file_path = path.0;
      open_mode = mode.0;
    },
    mode.1,
  )

unfoldable pub free_printer_params : Heap ℕ → PrinterParameters → Outcome (Heap ℕ)
free_printer_params h params = do h ← free h params.file_path; free h params.open_mode

-- The parameters for the results are all that the collection holds.
pub record PrinterParamsCollection : Type 0 where
  pub results_params : PrinterParameters

abbrev pub initialize_printer_params_collection : PrinterParameters → PrinterParamsCollection
initialize_printer_params_collection results_params = record { results_params = results_params }

-- `fname_results` and `mode` point to the two string constants of the call.
unfoldable pub create_printer_params_collection :
    Heap ℕ → (fname_results mode : Ptr) → Outcome (PrinterParamsCollection × Heap ℕ)
create_printer_params_collection h fname_results mode = do
  results_params ← initialize_printer_params h fout float_arr fname_results mode
  ok (initialize_printer_params_collection results_params.0, results_params.1)

abbrev pub free_printer_params_collection : Heap ℕ → PrinterParamsCollection → Outcome (Heap ℕ)
free_printer_params_collection h coll = free_printer_params h coll.results_params

-- The stock; its queue points to a list of messages.
pub record PrinterStock : Type 0 where
  pub params : Option PrinterParameters
  pub message_queue : Option DoubleLinkedList

-- `initialize_printer_stock`.
abbrev pub empty_stock : PrinterStock
empty_stock = record { params = none; message_queue = none }

unfoldable pub set_printer_stock :
    Heap ℕ → PrinterStock → PrinterParameters → Outcome (PrinterStock × Heap ℕ)
set_printer_stock h stock params = do
  made ←
      initialize_printer_params h params.out_stream params.payload_type params.file_path
        params.open_mode
  ok (record stock { params = some made.0 }, made.1)

unfoldable pub add_message_to_printer_queue :
    {M : Type 0}
    → BiNodes M
    → (junk_prev junk_next : Ptr) → PrinterStock
    → M
    → Outcome (PrinterStock × BiNodes M)
add_message_to_printer_queue h junk_prev junk_next stock msg = do
  let made = initialize_binode h msg junk_prev junk_next
  queue ← or_fault stock.message_queue
  added ← add_to_double_linked_list made.1 queue made.0
  ok (record stock { message_queue = some added.0 }, added.1)

-- The messages that are freed and the heap after it; `fuel` bounds the nodes of the queue.
unfoldable pub free_printer_stock :
    {M : Type 0} → (fuel : ℕ) → Heap ℕ → BiNodes M → PrinterStock → Outcome (List M × Heap ℕ)
free_printer_stock fuel h nodes stock = do
  params ← or_fault stock.params
  h ← free_printer_params h params
  queue ← or_fault stock.message_queue
  messages ← free_double_linked_list fuel nodes queue
  ok (messages, h)
