-- ===== src/Client/PrinterParams/Examples.antt =====
-- The parameters of a printer to a file "o" in mode "a+", and a stock without a queue.
use quadrocopt.Base.{ℕ, ◌≡◌, refl, [], ◌∷◌, none, some, ok, fault, arith}
use quadrocopt.Heap.{Heap, live}
use quadrocopt.Heap.Laws.{Points, Keeps}
use quadrocopt.Client.Printing.{fout, float_arr}
use quadrocopt.Client.DoubleList.{BiNodes, DoubleLinkedList}
use quadrocopt.Client.DoubleList.Sequence.{IsDouble}
use quadrocopt.Client.PrinterParams.{
  PrinterParameters, PrinterStock, set_printer_stock, free_printer_stock, empty_stock, copy_str,
  initialize_printer_params, copy_printer_params, free_printer_params, add_message_to_printer_queue,
}
use quadrocopt.Client.PrinterParams.Copies.{copy_printer_params-free}
use quadrocopt.Client.PrinterParams.Stock.{free_printer_stock-set}

abbrev texts : Heap ℕ
texts = some (111 ∷ 0 ∷ []) ∷ some (97 ∷ 43 ∷ 0 ∷ []) ∷ []

copy_printer_params-free_example :
    (params dupl : PrinterParameters) × (h' h'' h''' : Heap ℕ) × (initialize_printer_params texts
        fout float_arr
        (some 0)
        (some 1)
      ≡ ok (params, h'))
    × (copy_printer_params h' params ≡ ok (dupl, h''))
    × (free_printer_params h'' params ≡ ok h''')
    × Points h''' dupl.file_path (111 ∷ 0 ∷ [])
    × Points h''' dupl.open_mode (97 ∷ 43 ∷ 0 ∷ [])
    × (live h''' ≡ 4)
copy_printer_params-free_example =
    copy_printer_params-free texts fout float_arr 0 1 (111 ∷ []) (97 ∷ 43 ∷ [])
      (record { after = []; at = refl; is_text = (λ e. cc, tt) })
      (record { after = []; at = refl; is_text = (λ e. cc, (λ e. cc, tt)) })

-- Parameters for a stream have no file, and cannot be copied.
stream_params :
    (params : PrinterParameters) × (initialize_printer_params [] fout float_arr none none
      ≡ ok (params, []))
    × (copy_printer_params [] params ≡ fault)
unfolding initialize_printer_params copy_printer_params copy_str
stream_params = (
  record { out_stream = fout; payload_type = float_arr; file_path = none; open_mode = none },
  refl,
  refl,
)

-- The queue of the stock is NULL.
no_queue : add_message_to_printer_queue {M = ℕ} [] none none empty_stock 1 ≡ fault
unfolding add_message_to_printer_queue
no_queue = refl

-- A queue of two messages.
abbrev messages : BiNodes ℕ
messages =
    record { el = 7; prev = none; next = some 1 }
    ∷ record { el = 8; prev = some 0; next = none }
    ∷ []

abbrev queue : DoubleLinkedList
queue = record { head = some 0; tail = some 1; nodes_count = 2 }

queue-IsDouble : IsDouble messages queue ((0, 7) ∷ (1, 8) ∷ [])
queue-IsDouble = record {
  head = refl;
  tail = refl;
  count = refl;
  linked = (refl, (refl, tt));
  distinct = (((λ e. omega arith), tt), (tt, tt));
}

abbrev with_queue : PrinterStock
with_queue = record { params = none; message_queue = some queue }

abbrev file_params : PrinterParameters
file_params = record {
  out_stream = fout;
  payload_type = float_arr;
  file_path = some 0;
  open_mode = some 1;
}

free_printer_stock-set_example :
    (filled : PrinterStock) × (g after : Heap ℕ) × (set_printer_stock texts with_queue file_params
      ≡ ok (filled, g))
    × (free_printer_stock 2 g messages filled ≡ ok (7 ∷ 8 ∷ [], after))
    × Keeps texts none after
    × (live after ≡ 2)
free_printer_stock-set_example =
    free_printer_stock-set 2 texts messages with_queue file_params 0 1 (111 ∷ []) (97 ∷ 43 ∷ [])
      queue ((0, 7) ∷ (1, 8) ∷ []) refl refl
      (record { after = []; at = refl; is_text = (λ e. cc, tt) })
      (record { after = []; at = refl; is_text = (λ e. cc, (λ e. cc, tt)) }) refl queue-IsDouble
      (omega arith)

-- The stock as it is made has no parameters to free.
empty_freed : free_printer_stock {M = ℕ} 0 [] [] empty_stock ≡ fault
unfolding free_printer_stock
empty_freed = refl
