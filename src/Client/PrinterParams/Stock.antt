-- ===== src/Client/PrinterParams/Stock.antt =====
-- A stock that owns parameters and a queue, and the collection of parameters, freed.
use quadrocopt.Base.{ℕ, ◌≤◌, ◌≡◌, refl, arith, List, [], ◌∷◌, ◌++◌, length, none, some, ok}
use quadrocopt.Heap.{Heap, live}
use quadrocopt.Heap.Laws.{Keeps, points, free-Freed, block_at-append, block_at-lt, live-new}
use quadrocopt.Client.DoubleList.{BiNodes, DoubleLinkedList}
use quadrocopt.Client.DoubleList.Linked.{Cells}
use quadrocopt.Client.DoubleList.Sequence.{IsDouble, elements, free_double_linked_list-elements}
use quadrocopt.Client.Printing.{OutputStream, fout, ParametersPayloadType, float_arr}
use quadrocopt.Client.PrinterParams.{
  PrinterParameters, PrinterStock, initialize_printer_params, free_printer_params,
  set_printer_stock, free_printer_stock, PrinterParamsCollection, create_printer_params_collection,
  free_printer_params_collection,
}
use quadrocopt.Client.PrinterParams.Copies.{
  HasText, HasText-append, copied, length-copied, copied-HasText, copy_str-copied,
}

-- Parameters made of two texts own a copy of each, and to free them frees both copies.
initialize_printer_params-free :
    (h : Heap ℕ) (out : OutputStream) (payload : ParametersPayloadType) (p q : ℕ)
    (path mode : List ℕ)
    → HasText h p path
    → HasText h q mode
    → (params : PrinterParameters) × (g after : Heap ℕ) × (initialize_printer_params h out payload
          (some p)
          (some q)
        ≡ ok (params, g))
      × (free_printer_params g params ≡ ok after)
      × Keeps h none after
      × (live after ≡ live h)
unfolding initialize_printer_params free_printer_params
initialize_printer_params-free h out payload p q path mode has_path has_mode =
    let h1 = copied h path in
    let g = copied h1 mode in
    let n1 = length-copied h path in
    let first = copied-HasText h path has_path.is_text in
    let first_at = HasText-append (some (mode ++ 0 ∷ []) ∷ []) first in
    let second = copied-HasText h1 mode has_mode.is_text in
    let f = free-Freed g (some (length h)) (points first_at.at) in
    let k =
      free-Freed f.after (some (length h1))
        (points (f.keeps (length h1) _ (λ e. ground arith) second.at)) in
    (
      record {
        out_stream = out;
        payload_type = payload;
        file_path = some (length h);
        open_mode = some (length h1);
      },
      g,
      k.after,
      rw (copy_str-copied h p path has_path) (
          rw (copy_str-copied h1 q mode (HasText-append (some (path ++ 0 ∷ []) ∷ []) has_mode))
            refl),
      rw f.frees k.frees,
      λ j b _ at.
          let j_in = block_at-lt h j at in
          k.keeps j b (λ e. ground arith)
            (f.keeps j b (λ e. ground arith) (block_at-append h1 _ j (block_at-append h _ j at))),
      omega (arith, f.count, k.count, live-new h (path ++ 0 ∷ []), live-new h1 (mode ++ 0 ∷ [])),
    )

-- Parameters with two texts in memory, set for a stock with a queue: what the stock holds is a
-- copy, so that to free the stock frees the copies of both texts and every message of the queue
-- once, in its order, for any fuel of at least as many rounds as the queue has nodes; and the
-- memory of texts is in use as it was.
pub free_printer_stock-set :
    {M : Type 0} (fuel : ℕ) (h : Heap ℕ) (nodes : BiNodes M) (stock : PrinterStock)
    (params : PrinterParameters) (p q : ℕ) (path mode : List ℕ) (list : DoubleLinkedList)
    (ps : Cells M)
    → params.file_path ≡ some p
    → params.open_mode ≡ some q
    → HasText h p path
    → HasText h q mode
    → stock.message_queue ≡ some list
    → IsDouble nodes list ps
    → length ps ≤ fuel
    → (filled : PrinterStock) × (g after : Heap ℕ) × (set_printer_stock h stock params
        ≡ ok (filled, g))
      × (free_printer_stock fuel g nodes filled ≡ ok (elements ps, after))
      × Keeps h none after
      × (live after ≡ live h)
unfolding set_printer_stock free_printer_stock
free_printer_stock-set fuel h nodes stock params p q path mode list ps e d has_path has_mode
      has_queue is enough =
    let (made, g, after, makes, frees, keeps, count) =
      initialize_printer_params-free h params.out_stream params.payload_type p q path mode has_path
        has_mode in
    (
      record stock { params = some made },
      g,
      after,
      rw e (rw d (rw makes refl)),
      rw frees
          (rw has_queue (rw (free_double_linked_list-elements fuel nodes list ps is enough) refl)),
      keeps,
      count,
    )

-- The collection that the client starts with: to free it leaves the memory of texts in use as it
-- was before the collection was made.
create_printer_params_collection-free :
    (h : Heap ℕ) (p q : ℕ) (path mode : List ℕ)
    → HasText h p path
    → HasText h q mode
    → (coll : PrinterParamsCollection) × (g after : Heap ℕ) × (create_printer_params_collection h
          (some p)
          (some q)
        ≡ ok (coll, g))
      × (free_printer_params_collection g coll ≡ ok after)
      × Keeps h none after
      × (live after ≡ live h)
unfolding create_printer_params_collection
create_printer_params_collection-free h p q path mode has_path has_mode =
    let (made, g, after, makes, frees, keeps, count) =
      initialize_printer_params-free h fout float_arr p q path mode has_path has_mode in
    (record { results_params = made }, g, after, rw makes refl, frees, keeps, count)
