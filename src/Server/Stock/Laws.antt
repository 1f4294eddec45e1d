-- ===== src/Server/Stock/Laws.antt =====
-- The stocks of the server hold the last batch that was put in, and own what they point to.
use quadrocopt.Base.{ℕ, suc, ◌+◌, ◌≡◌, ◌≢◌, refl, arith, List, length, none, some, ok}
use quadrocopt.Heap.{Ptr, Heap, block_at, live}
use quadrocopt.Heap.Laws.{
  Points, Holds, null, points, owned, Keeps, free-Freed, copy_arr_of_floats-Copied,
}
use quadrocopt.Server.Stock.{
  BatchStock, add_to_batch, add_first_stock_to_batch, add_second_stock_to_batch,
}

module _ {F : Type 0} where
  pub record Stored (h : Heap F) (dest src : Ptr) (b : List F) : Type 0 where
    pub after : Heap F
    pub at : ℕ
    pub stores : add_to_batch h dest src (length b) ≡ ok (some at, after)
    pub new : block_at after at ≡ ok b
    pub fresh : (j : ℕ) (c : List F) → dest ≢ some j → block_at h j ≡ ok c → at ≢ j
    pub keeps : Keeps h dest after
    pub count : live after + owned dest ≡ suc (live h)

  pub Points-Keeps :
      (h h' : Heap F) {p : Ptr} (q : Ptr) {b : List F}
      → Keeps h p h'
      → p ≢ q
      → Points h q b
      → Points h' q b
  Points-Keeps h h' none k n e = cc
  Points-Keeps h h' (some j) k n e = k j _ n e

  add_to_batch-Stored :
      (h : Heap F) (dest src : Ptr) {old b : List F}
      → Holds h dest old
      → Points h src b
      → dest ≢ src
      → Stored h dest src b
  unfolding add_to_batch
  add_to_batch-Stored h none src null e n =
      let c = copy_arr_of_floats-Copied h src e in
      record {
        after = c.after;
        at = c.at;
        stores = c.copies;
        new = c.new;
        fresh = λ j d _. c.fresh j d;
        keeps = c.keeps;
        count = omega (arith, c.count);
      }
  add_to_batch-Stored h (some i) src (points at) e n =
      let f = free-Freed h (some i) (points at) in
      let c = copy_arr_of_floats-Copied f.after src (Points-Keeps h f.after src f.keeps n e) in
      record {
        after = c.after;
        at = c.at;
        stores = rw f.frees c.copies;
        new = c.new;
        fresh = λ j d m here. c.fresh j d (f.keeps j d m here);
        keeps = λ j d m here. c.keeps j d (λ x. cc) (f.keeps j d m here);
        count = omega (arith, c.count, f.count);
      }

  -- A batch stock that holds two batches, in two blocks of its own.
  pub record IsBatchStock (h : Heap F) (bs : BatchStock) (xs ys : List F) : Type 0 where
    pub first : Holds h bs.first_batch xs
    pub second : Holds h bs.second_batch ys
    pub first_len : bs.first_batch_len ≡ length xs
    pub second_len : bs.second_batch_len ≡ length ys
    pub apart : (i : ℕ) → bs.first_batch ≡ some i → bs.second_batch ≢ some i

  pub Holds-Keeps :
      (h h' : Heap F) {p q : Ptr} {b : List F}
      → Keeps h p h'
      → ((i : ℕ) → q ≡ some i → p ≢ some i)
      → Holds h q b
      → Holds h' q b
  Holds-Keeps h h' k n null = null
  Holds-Keeps h h' k n (points {i} e) = points (k i _ (n i refl) e)

  pub Holds-at :
      (h : Heap F) {q : Ptr} {b : List F} (j : ℕ) → Holds h q b → q ≡ some j → block_at h j ≡ ok b
  Holds-at h j null e = cc
  Holds-at h j (points {i} at) e = cc

  -- A batch put into the first place of a well-formed stock of the server, from a block that is
  -- not the one it replaces: the stock is well formed and holds it with the second batch it had,
  -- the block of the batch that it replaces is freed, and every other block stays as it was.
  pub add_first-IsBatchStock :
      (h : Heap F) (bs : BatchStock) {xs ys : List F} (zs : List F) (src : Ptr)
      → IsBatchStock h bs xs ys
      → Points h src zs
      → bs.first_batch ≢ src
      → (at : ℕ) × (h' : Heap F) × (add_first_stock_to_batch h bs src (length zs)
          ≡ ok (record bs { first_batch = some at; first_batch_len = length zs }, h'))
        × IsBatchStock h' (record bs { first_batch = some at; first_batch_len = length zs }) zs ys
        × (live h' + owned bs.first_batch ≡ suc (live h))
        × Keeps h bs.first_batch h'
  unfolding add_first_stock_to_batch
  add_first-IsBatchStock h bs zs src i e n =
      let st = add_to_batch-Stored h bs.first_batch src i.first e n in
      (
        st.at,
        st.after,
        rw st.stores,
        record {
          first = points st.new;
          second = Holds-Keeps h st.after st.keeps (λ j e' d. i.apart j d e') i.second;
          first_len = refl;
          second_len = i.second_len;
          apart =
              λ j e' d. st.fresh j _ (λ f. i.apart j f d) (Holds-at h j i.second d) (ground arith);
        },
        st.count,
        st.keeps,
      )

  -- The same for the second place.
  pub add_second-IsBatchStock :
      (h : Heap F) (bs : BatchStock) {xs ys : List F} (zs : List F) (src : Ptr)
      → IsBatchStock h bs xs ys
      → Points h src zs
      → bs.second_batch ≢ src
      → (at : ℕ) × (h' : Heap F) × (add_second_stock_to_batch h bs src (length zs)
          ≡ ok (record bs { second_batch = some at; second_batch_len = length zs }, h'))
        × IsBatchStock h' (record bs { second_batch = some at; second_batch_len = length zs }) xs zs
        × (live h' + owned bs.second_batch ≡ suc (live h))
        × Keeps h bs.second_batch h'
  unfolding add_second_stock_to_batch
  add_second-IsBatchStock h bs zs src i e n =
      let st = add_to_batch-Stored h bs.second_batch src i.second e n in
      (
        st.at,
        st.after,
        rw st.stores,
        record {
          first = Holds-Keeps h st.after st.keeps i.apart i.first;
          second = points st.new;
          first_len = i.first_len;
          second_len = refl;
          apart = λ j e' d. st.fresh j _ (i.apart j e') (Holds-at h j i.first e') (ground arith);
        },
        st.count,
        st.keeps,
      )
