-- ===== src/Server/Stock.antt =====
-- The stocks of the server with the memory that they own: `BatchStock` and `CalculationsStock` of
-- server/data_struct.c. The heap is passed on from call to call; the structure itself is a value.
pub mod Laws
pub mod Reading
mod Examples
use quadrocopt.Base.{ℕ, none, some, Outcome, ok, ◌>>=◌}
use quadrocopt.Heap.{Ptr, Heap, free, copy_arr_of_floats}

pub record BatchStock : Type 0 where
  pub first_batch : Ptr
  pub second_batch : Ptr
  pub first_batch_len : ℕ
  pub second_batch_len : ℕ

abbrev pub initialize_batch_stock : BatchStock
initialize_batch_stock = record {
  first_batch = none;
  second_batch = none;
  first_batch_len = 0;
  second_batch_len = 0;
}

pub record CalculationsStock : Type 0 where
  pub calculations : Ptr
  pub calculations_len : ℕ

abbrev pub initialize_calculations_stock : CalculationsStock
initialize_calculations_stock = record { calculations = none; calculations_len = 0 }

module _ {F : Type 0} where
  unfoldable pub add_to_batch : Heap F → (dest src : Ptr) (batch_len : ℕ) → Outcome (Ptr × Heap F)
  add_to_batch h dest src batch_len = do
    h ← elim dest [ none ↦ ok h | some i ↦ free h (some i) ]
    copy_arr_of_floats h src batch_len

  unfoldable pub add_first_stock_to_batch :
      Heap F → BatchStock → (batch : Ptr) (batch_len : ℕ) → Outcome (BatchStock × Heap F)
  add_first_stock_to_batch h bs batch batch_len = do
    stored ← add_to_batch h bs.first_batch batch batch_len
    ok (record bs { first_batch = stored.0; first_batch_len = batch_len }, stored.1)

  unfoldable pub add_second_stock_to_batch :
      Heap F → BatchStock → (batch : Ptr) (batch_len : ℕ) → Outcome (BatchStock × Heap F)
  add_second_stock_to_batch h bs batch batch_len = do
    stored ← add_to_batch h bs.second_batch batch batch_len
    ok (record bs { second_batch = stored.0; second_batch_len = batch_len }, stored.1)

  -- The copy and what the call writes to `batch_len`.
  unfoldable pub get_first_stock_from_batch : Heap F → BatchStock → Outcome ((Ptr × ℕ) × Heap F)
  get_first_stock_from_batch h bs = do
    copy ← copy_arr_of_floats h bs.first_batch bs.first_batch_len
    ok ((copy.0, bs.first_batch_len), copy.1)

  unfoldable pub get_second_stock_from_batch : Heap F → BatchStock → Outcome ((Ptr × ℕ) × Heap F)
  get_second_stock_from_batch h bs = do
    copy ← copy_arr_of_floats h bs.second_batch bs.second_batch_len
    ok ((copy.0, bs.second_batch_len), copy.1)

  unfoldable pub clean_batch_stock : Heap F → BatchStock → Outcome (BatchStock × Heap F)
  clean_batch_stock h bs = do
    h ← free h bs.first_batch
    let bs = record bs { first_batch = none; first_batch_len = 0 }
    h ← free h bs.second_batch
    ok (record bs { second_batch = none; second_batch_len = 0 }, h)

  unfoldable pub free_batch_stock : Heap F → BatchStock → Outcome (Heap F)
  free_batch_stock h bs = do h ← free h bs.first_batch; free h bs.second_batch

  -- `read_batches` of server/main.c, with what `first_batch` and `second_batch` are set to.
  unfoldable pub read_batches :
      Heap F → BatchStock → Outcome (((Ptr × ℕ) × (Ptr × ℕ)) × (BatchStock × Heap F))
  read_batches h bs = do
    first ← get_first_stock_from_batch h bs
    second ← get_second_stock_from_batch first.1 bs
    cleaned ← clean_batch_stock second.1 bs
    ok ((first.0, second.0), cleaned)

  unfoldable pub add_to_calculations_stock :
      Heap F
      → CalculationsStock
      → (calcs : Ptr) (calcs_len : ℕ) → Outcome (CalculationsStock × Heap F)
  add_to_calculations_stock h cs calcs calcs_len = do
    copy ← copy_arr_of_floats h calcs calcs_len
    ok (record cs { calculations = copy.0; calculations_len = calcs_len }, copy.1)

  -- Nothing is written to `calcs_len`.
  unfoldable pub get_calculations_from_stock : Heap F → CalculationsStock → Outcome (Ptr × Heap F)
  get_calculations_from_stock h cs = copy_arr_of_floats h cs.calculations cs.calculations_len

  unfoldable pub clean_calculations_stock :
      Heap F → CalculationsStock → Outcome (CalculationsStock × Heap F)
  clean_calculations_stock h cs = do
    h ← free h cs.calculations
    ok (record cs { calculations = none; calculations_len = 0 }, h)

  unfoldable pub free_calculations_stock : Heap F → CalculationsStock → Outcome (Heap F)
  free_calculations_stock h cs = free h cs.calculations
