-- ===== src/Client/Stock/Examples.antt =====
-- The stocks of the client at concrete batches.
use quadrocopt.Base.{ℕ, ◌≡◌, refl, arith, [], ◌∷◌, some, ok, fault, ◌>>=◌}
use quadrocopt.Heap.{Heap, live}
use quadrocopt.Heap.Laws.{Points}
use quadrocopt.Client.Stock.{
  initialize_batch_stock, SenderStock, add_to_batch_stock, read_listener_batch,
  add_first_batch_to_sender_stock, add_second_batch_to_sender_stock, clean_sender_stock,
  fetch_batches,
}
use quadrocopt.Client.Stock.Laws.{
  fetch_batches-added, read_listener_batch-added, clean_sender_stock-again,
}

abbrev blocks : Heap ℕ
blocks = some (1 ∷ 2 ∷ []) ∷ some (3 ∷ []) ∷ some (5 ∷ 6 ∷ []) ∷ []

-- The stock as `get_u` leaves it.
abbrev full : SenderStock
full = record {
  first_batch = some 0;
  first_batch_len = 2;
  second_batch = some 1;
  second_batch_len = 1;
}

fetch_batches-added_example :
    (p q : ℕ) × (h' : Heap ℕ) × ((do
      first ← add_first_batch_to_sender_stock blocks full (some 2) 2
      second ← add_second_batch_to_sender_stock first.1 first.0 (some 1) 1
      fetch_batches second.1 second.0)
      ≡ ok (((some p, 2), (some q, 1)), h'))
    × Points h' (some p) (5 ∷ 6 ∷ [])
    × Points h' (some q) (3 ∷ [])
    × (live h' ≡ 7)
fetch_batches-added_example =
    fetch_batches-added blocks full (some 2) (some 1) (5 ∷ 6 ∷ []) (3 ∷ []) refl refl

listener_batch_read :
    (p : ℕ) × (h' : Heap ℕ) × ((do
      stored ← add_to_batch_stock blocks initialize_batch_stock (some 0) 2
      read_listener_batch stored.1 stored.0)
      ≡ ok (some p, (initialize_batch_stock, h')))
    × Points h' (some p) (1 ∷ 2 ∷ [])
    × (live h' ≡ 4)
listener_batch_read = read_listener_batch-added blocks (some 0) (1 ∷ 2 ∷ []) refl

cleaned_twice :
    (cleaned : SenderStock × Heap ℕ) × (clean_sender_stock blocks full ≡ ok cleaned)
    × (clean_sender_stock cleaned.1 cleaned.0 ≡ fault)
cleaned_twice = clean_sender_stock-again blocks full refl refl (omega arith) refl refl
