-- ===== src/Server/Stock/Reading.antt =====
-- What the calculator and the sender of the server read from the stocks, and the memory in use.
use quadrocopt.Base.{ℕ, suc, ◌≡◌, ◌≢◌, refl, arith, List, length, none, some, ok, sym}
use quadrocopt.Heap.{Ptr, Heap, live}
use quadrocopt.Heap.Laws.{
  Points, Holds, null, points, owned, Freed, free-Freed, Copied, copy_arr_of_floats-Copied,
}
use quadrocopt.Server.Stock.{
  BatchStock, initialize_batch_stock, CalculationsStock, get_first_stock_from_batch,
  get_second_stock_from_batch, clean_batch_stock, read_batches, add_to_calculations_stock,
}
use quadrocopt.Server.Stock.Laws.{IsBatchStock, Holds-Keeps, Holds-at}

owned-one : (q : Ptr) → q ≢ none → owned q ≡ 1
owned-one none n = absurd (n refl)
owned-one (some i) n = refl

module _ {F : Type 0} where
  Holds-Points : {h : Heap F} {q : Ptr} {b : List F} → Holds h q b → q ≢ none → Points h q b
  Holds-Points null n = absurd (n refl)
  Holds-Points (points e) n = e

  -- A pointer that was there before a copy is made does not point to the copy.
  not_fresh :
      (h : Heap F) {src q : Ptr} {b z : List F} (c : Copied h src z) → Holds h q b → q ≢ some c.at
  not_fresh h c held e = c.fresh c.at _ (Holds-at h c.at held e) refl

  Holds-Copied :
      (h : Heap F) {src q : Ptr} {b z : List F} (c : Copied h src z)
      → Holds h q b
      → Holds c.after q b
  Holds-Copied h c held = Holds-Keeps h c.after c.keeps (λ j e x. cc) held

  -- `get_first_stock_from_batch` is the copy of the first block.
  get_first-copy :
      (h : Heap F) (bs : BatchStock) {xs ys : List F} (i : IsBatchStock h bs xs ys)
      (c : Copied h bs.first_batch xs)
      → get_first_stock_from_batch h bs ≡ ok ((some c.at, length xs), c.after)
  unfolding get_first_stock_from_batch
  get_first-copy h bs i c = rw i.first_len (rw c.copies)

  get_second-copy :
      (h h' : Heap F) (bs : BatchStock) {xs ys : List F} (i : IsBatchStock h bs xs ys)
      (c : Copied h' bs.second_batch ys)
      → get_second_stock_from_batch h' bs ≡ ok ((some c.at, length ys), c.after)
  unfolding get_second_stock_from_batch
  get_second-copy h h' bs i c = rw i.second_len (rw c.copies)

  clean-frees :
      (h : Heap F) (bs : BatchStock) (f : Freed h bs.first_batch)
      (s : Freed f.after bs.second_batch)
      → clean_batch_stock h bs ≡ ok (initialize_batch_stock, s.after)
  unfolding clean_batch_stock
  clean-frees h bs f s = rw f.frees (rw s.frees)

  -- Where both batches of the server's batch stock are there, each in a block of its own, the
  -- calculator gets a copy of each with its length, the stock is clean after that, and as many
  -- blocks are in use as before.
  pub read_batches-copies :
      (h : Heap F) (bs : BatchStock) {xs ys : List F}
      → IsBatchStock h bs xs ys
      → bs.first_batch ≢ none
      → bs.second_batch ≢ none
      → (p q : ℕ) × (h' : Heap F) × (read_batches h bs
          ≡ ok (((some p, length xs), (some q, length ys)), (initialize_batch_stock, h')))
        × Points h' (some p) xs
        × Points h' (some q) ys
        × (live h' ≡ live h)
  unfolding read_batches
  read_batches-copies h bs i n m =
      let at_first = Holds-Points i.first n in
      let at_second = Holds-Points i.second m in
      let c = copy_arr_of_floats-Copied h bs.first_batch at_first in
      let second = Holds-Copied h c i.second in
      let d = copy_arr_of_floats-Copied c.after bs.second_batch (Holds-Points second m) in
      let held_first = Holds-Copied c.after d (Holds-Copied h c i.first) in
      let held_second = Holds-Copied c.after d second in
      let f = free-Freed d.after bs.first_batch held_first in
      let s =
        free-Freed f.after bs.second_batch
          (Holds-Keeps d.after f.after f.keeps (λ j e x. i.apart j x e) held_second) in
      (
        c.at,
        d.at,
        s.after,
        rw (get_first-copy h bs i c)
            (rw (get_second-copy h c.after bs i d) (rw (clean-frees d.after bs f s))),
        s.keeps c.at _ (not_fresh h c i.second)
            (f.keeps c.at _ (not_fresh h c i.first) (d.keeps c.at _ (λ e. cc) c.new)),
        s.keeps d.at _ (not_fresh c.after d second)
            (f.keeps d.at _ (not_fresh c.after d (Holds-Copied h c i.first)) d.new),
        omega (
          arith,
          s.count,
          f.count,
          d.count,
          c.count,
          owned-one bs.first_batch n,
          owned-one bs.second_batch m,
        ),
      )

  -- The calculations stock holds floats in a block.
  pub record IsCalculationsStock (h : Heap F) (cs : CalculationsStock) (xs : List F) : Type 0 where
    pub held : Holds h cs.calculations xs
    pub len : cs.calculations_len ≡ length xs

  -- A result put in over another one: the stock holds the new one, and the block of the one before
  -- is still in use, with one block more in use, although the stock no longer points to it.
  pub add_to_calculations_stock-leak :
      (h : Heap F) (cs : CalculationsStock) {xs : List F} (zs : List F) (src : Ptr)
      → IsCalculationsStock h cs xs
      → Points h src zs
      → cs.calculations ≢ none
      → (cs' : CalculationsStock) × (h' : Heap F) × (add_to_calculations_stock h cs src (length zs)
          ≡ ok (cs', h'))
        × IsCalculationsStock h' cs' zs
        × Points h' cs.calculations xs
        × (cs'.calculations ≢ cs.calculations)
        × (live h' ≡ suc (live h))
  unfolding add_to_calculations_stock
  add_to_calculations_stock-leak h cs zs src i e n =
      let c = copy_arr_of_floats-Copied h src e in
      (
        record { calculations = some c.at; calculations_len = length zs },
        c.after,
        rw c.copies,
        record { held = points c.new; len = refl },
        Holds-Points (Holds-Copied h c i.held) n,
        λ x. not_fresh h c i.held (sym x),
        c.count,
      )
