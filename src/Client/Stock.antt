-- ===== src/Client/Stock.antt =====
-- The stocks of the client with the memory that they own: `BatchStock` and `SenderStock` of
-- client/data_struct.c, `read_listener_batch` of client/main.c and `fetch_batches` of
-- client/run_sender.c. The heap is passed on from call to call; a structure is a value.
pub mod Laws
mod Examples
use quadrocopt.Base.{ℕ, none, some, Outcome, ok, ◌>>=◌}
use quadrocopt.Heap.{Ptr, Heap, free, copy_arr_of_floats}

pub record BatchStock : Type 0 where
  pub batch : Ptr
  pub batch_len : ℕ

abbrev pub initialize_batch_stock : BatchStock
initialize_batch_stock = record { batch = none; batch_len = 0 }

pub record SenderStock : Type 0 where
  pub first_batch : Ptr
  pub first_batch_len : ℕ
  pub second_batch : Ptr
  pub second_batch_len : ℕ

abbrev pub initialize_sender_stock : SenderStock
initialize_sender_stock = record {
  first_batch = none;
  first_batch_len = 0;
  second_batch = none;
  second_batch_len = 0;
}

module _ {F : Type 0} where
  unfoldable pub add_to_batch_stock :
      Heap F → BatchStock → (batch : Ptr) (batch_len : ℕ) → Outcome (BatchStock × Heap F)
  add_to_batch_stock h bs batch batch_len = do
    copy ← copy_arr_of_floats h batch batch_len
    ok (record bs { batch = copy.0; batch_len = batch_len }, copy.1)

  -- Nothing is written to the caller's `batch_len`.
  unfoldable pub get_batch_from_stock : Heap F → BatchStock → Outcome (Ptr × Heap F)
  get_batch_from_stock h bs = copy_arr_of_floats h bs.batch bs.batch_len

  unfoldable pub clean_batch_stock : Heap F → BatchStock → Outcome (BatchStock × Heap F)
  clean_batch_stock h bs = do h ← free h bs.batch; ok (record bs { batch = none; batch_len = 0 }, h)

  unfoldable pub free_batch_stock : Heap F → BatchStock → Outcome (Heap F)
  free_batch_stock h bs = free h bs.batch

  -- The new `listener_batch`, and the cleaned stock.
  unfoldable pub read_listener_batch : Heap F → BatchStock → Outcome (Ptr × (BatchStock × Heap F))
  read_listener_batch h bs = do
    copy ← get_batch_from_stock h bs
    cleaned ← clean_batch_stock copy.1 bs
    ok (copy.0, cleaned)

  unfoldable pub add_first_batch_to_sender_stock :
      Heap F → SenderStock → (batch : Ptr) (batch_len : ℕ) → Outcome (SenderStock × Heap F)
  add_first_batch_to_sender_stock h s batch batch_len = do
    copy ← copy_arr_of_floats h batch batch_len
    ok (record s { first_batch = copy.0; first_batch_len = batch_len }, copy.1)

  unfoldable pub add_second_batch_to_sender_stock :
      Heap F → SenderStock → (batch : Ptr) (batch_len : ℕ) → Outcome (SenderStock × Heap F)
  add_second_batch_to_sender_stock h s batch batch_len = do
    copy ← copy_arr_of_floats h batch batch_len
    ok (record s { second_batch = copy.0; second_batch_len = batch_len }, copy.1)

  -- The pointers stay.
  unfoldable pub clean_sender_stock : Heap F → SenderStock → Outcome (SenderStock × Heap F)
  clean_sender_stock h s = do
    h ← free h s.first_batch
    let s = record s { first_batch_len = 0 }
    h ← free h s.second_batch
    ok (record s { second_batch_len = 0 }, h)

  unfoldable pub free_sender_stock : Heap F → SenderStock → Outcome (Heap F)
  free_sender_stock h s = do cleaned ← clean_sender_stock h s; ok cleaned.1

  -- The two copies, each with its length.
  unfoldable pub fetch_batches : Heap F → SenderStock → Outcome (((Ptr × ℕ) × (Ptr × ℕ)) × Heap F)
  fetch_batches h s = do
    first ← copy_arr_of_floats h s.first_batch s.first_batch_len
    second ← copy_arr_of_floats first.1 s.second_batch s.second_batch_len
    ok (((first.0, s.first_batch_len), (second.0, s.second_batch_len)), second.1)
