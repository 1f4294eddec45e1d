-- ===== src/Client/Stock/Laws.antt =====
-- What goes through the stocks of the client, and what becomes of their memory.
use quadrocopt.Base.{ℕ, ◌+◌, ◌≡◌, ◌≢◌, arith, List, length, none, some, ok, fault, ◌>>=◌, ◌∙◌, sym}
use quadrocopt.Heap.{Ptr, Heap, release, block_at, free, live}
use quadrocopt.Heap.Laws.{
  Points, points, Copied, copy_arr_of_floats-Copied, free-Freed, block_at-release,
  block_at-release_other,
}
use quadrocopt.Client.Stock.{
  initialize_batch_stock, SenderStock, add_to_batch_stock, get_batch_from_stock, clean_batch_stock,
  read_listener_batch, add_first_batch_to_sender_stock, add_second_batch_to_sender_stock,
  clean_sender_stock, fetch_batches,
}

module _ {F : Type 0} where
  Points-Copied :
      (h : Heap F) {src : Ptr} {z : List F} (c : Copied h src z) (p : Ptr) {b : List F}
      → Points h p b
      → Points c.after p b
  Points-Copied h c none e = cc
  Points-Copied h c (some i) e = c.keeps i _ (λ x. cc) e

  -- Whatever the sender stock was: after two batches are put in, the sender gets a copy of each
  -- with its length; four blocks more are in use then, the copies and the two blocks of the stock,
  -- since what the stock pointed to before is not freed.
  pub fetch_batches-added :
      (h : Heap F) (s : SenderStock) (one two : Ptr) (xs ys : List F)
      → Points h one xs
      → Points h two ys
      → (p q : ℕ) × (h' : Heap F) × ((do
        first ← add_first_batch_to_sender_stock h s one (length xs)
        second ← add_second_batch_to_sender_stock first.1 first.0 two (length ys)
        fetch_batches second.1 second.0)
          ≡ ok (((some p, length xs), (some q, length ys)), h'))
        × Points h' (some p) xs
        × Points h' (some q) ys
        × (live h' ≡ live h + 4)
  unfolding add_first_batch_to_sender_stock add_second_batch_to_sender_stock fetch_batches
  fetch_batches-added h s one two xs ys at_one at_two =
      let a = copy_arr_of_floats-Copied h one at_one in
      let b = copy_arr_of_floats-Copied a.after two (Points-Copied h a two at_two) in
      let c =
        copy_arr_of_floats-Copied b.after (some a.at) (Points-Copied a.after b (some a.at) a.new) in
      let d =
        copy_arr_of_floats-Copied c.after (some b.at) (Points-Copied b.after c (some b.at) b.new) in
      (
        c.at,
        d.at,
        d.after,
        rw a.copies (rw b.copies (rw c.copies (rw d.copies))),
        Points-Copied c.after d (some c.at) c.new,
        d.new,
        omega (arith, a.count, b.count, c.count, d.count),
      )

  -- A batch put into a clean listener stock of the client: the calculator gets a copy of it, the
  -- stock is clean again, and the copy is the only block more in use.
  pub read_listener_batch-added :
      (h : Heap F) (batch : Ptr) (xs : List F)
      → Points h batch xs
      → (p : ℕ) × (h' : Heap F) × ((do
        stored ← add_to_batch_stock h initialize_batch_stock batch (length xs)
        read_listener_batch stored.1 stored.0)
          ≡ ok (some p, (initialize_batch_stock, h')))
        × Points h' (some p) xs
        × (live h' ≡ live h + 1)
  unfolding add_to_batch_stock read_listener_batch get_batch_from_stock clean_batch_stock
  read_listener_batch-added h batch xs at_batch =
      let a = copy_arr_of_floats-Copied h batch at_batch in
      let b = copy_arr_of_floats-Copied a.after (some a.at) a.new in
      let f = free-Freed b.after (some a.at) (points (Points-Copied a.after b (some a.at) a.new)) in
      (
        b.at,
        f.after,
        rw a.copies (rw b.copies (rw f.frees)),
        f.keeps b.at _ (λ e. b.fresh a.at _ a.new (ground arith)) b.new,
        omega (arith, a.count, b.count, f.count),
      )

  -- A sender stock with a block for each batch, in two places, can be cleaned once; to clean it
  -- again frees a block that is no longer in use.
  pub clean_sender_stock-again :
      (h : Heap F) (s : SenderStock) {i j : ℕ} {xs ys : List F}
      → s.first_batch ≡ some i
      → s.second_batch ≡ some j
      → i ≢ j
      → block_at h i ≡ ok xs
      → block_at h j ≡ ok ys
      → (cleaned : SenderStock × Heap F) × (clean_sender_stock h s ≡ ok cleaned)
        × (clean_sender_stock cleaned.1 cleaned.0 ≡ fault)
  unfolding clean_sender_stock free
  clean_sender_stock-again h s {i} {j} e d n at_i at_j =
      let at_j' = block_at-release_other h i j n ∙ at_j in
      (
        (record s { first_batch_len = 0; second_batch_len = 0 }, release (release h i) j),
        rw e (rw at_i (rw d (rw at_j'))),
        rw e
            (rw (block_at-release_other (release h i) j i (λ x. n (sym x)) ∙ block_at-release h i)),
      )
