-- ===== src/Server/Stock/Examples.antt =====
-- The stocks of the server at concrete batches.
use quadrocopt.Base.{ℕ, ◌≡◌, ◌≢◌, refl, arith, [], ◌∷◌, some, ok, ◌+◌}
use quadrocopt.Heap.{Heap, live}
use quadrocopt.Heap.Laws.{Points, points, Keeps}
use quadrocopt.Server.Stock.{
  BatchStock, initialize_batch_stock, CalculationsStock, add_first_stock_to_batch, read_batches,
  add_to_calculations_stock,
}
use quadrocopt.Server.Stock.Laws.{IsBatchStock, add_first-IsBatchStock}
use quadrocopt.Server.Stock.Reading.{
  read_batches-copies, IsCalculationsStock, add_to_calculations_stock-leak,
}

-- The blocks of a first batch, of a second one, and of a batch that comes in.
abbrev blocks : Heap ℕ
blocks = some (1 ∷ 2 ∷ []) ∷ some (3 ∷ []) ∷ some (5 ∷ 6 ∷ []) ∷ []

abbrev full : BatchStock
full = record {
  first_batch = some 0;
  second_batch = some 1;
  first_batch_len = 2;
  second_batch_len = 1;
}

full-IsBatchStock : IsBatchStock blocks full (1 ∷ 2 ∷ []) (3 ∷ [])
full-IsBatchStock = record {
  first = points refl;
  second = points refl;
  first_len = refl;
  second_len = refl;
  apart = λ i e d. ground arith;
}

first_batch_stored :
    (at : ℕ) × (h' : Heap ℕ) × (add_first_stock_to_batch blocks full (some 2) 2
      ≡ ok (record full { first_batch = some at; first_batch_len = 2 }, h'))
    × IsBatchStock h'
        (record full { first_batch = some at; first_batch_len = 2 })
        (5 ∷ 6 ∷ [])
        (3 ∷ [])
    × (live h' + 1 ≡ 4)
    × Keeps blocks (some 0) h'
first_batch_stored =
    add_first-IsBatchStock blocks full (5 ∷ 6 ∷ []) (some 2) full-IsBatchStock refl
      (λ e. ground arith)

read_batches-copies_example :
    (p q : ℕ) × (h' : Heap ℕ) × (read_batches blocks full
      ≡ ok (((some p, 2), (some q, 1)), (initialize_batch_stock, h')))
    × Points h' (some p) (1 ∷ 2 ∷ [])
    × Points h' (some q) (3 ∷ [])
    × (live h' ≡ 3)
read_batches-copies_example = read_batches-copies blocks full full-IsBatchStock (λ e. cc) (λ e. cc)

abbrev first_result : CalculationsStock
first_result = record { calculations = some 0; calculations_len = 2 }

second_result :
    (cs' : CalculationsStock) × (h' : Heap ℕ) × (add_to_calculations_stock blocks first_result
        (some 2)
        2
      ≡ ok (cs', h'))
    × IsCalculationsStock h' cs' (5 ∷ 6 ∷ [])
    × Points h' (some 0) (1 ∷ 2 ∷ [])
    × (cs'.calculations ≢ some 0)
    × (live h' ≡ 4)
second_result =
    add_to_calculations_stock-leak blocks first_result (5 ∷ 6 ∷ []) (some 2)
      (record { held = points refl; len = refl }) refl (λ e. cc)
