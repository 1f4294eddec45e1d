-- ===== src/Server/Rounds/Growth.antt =====
-- The memory of the server from round to round.
use quadrocopt.Base.{
  ℕ, ◌+◌, ◌*◌, ◌≡◌, ◌≢◌, refl, arith, List, [], ◌∷◌, ◌++◌, length, length-append, All, none, some,
  Outcome, ok,
}
use quadrocopt.Heap.{Heap, live}
use quadrocopt.Heap.Laws.{
  Points, null, points, Keeps, free-Freed, copy_arr_of_floats-Copied, block_at-append, block_at-new,
  live-new, read_all,
}
use quadrocopt.Wire.{FloatRepr}
use quadrocopt.Packet.{Packet, get_floats, get_floats_count}
use quadrocopt.Server.Stock.{
  BatchStock, initialize_batch_stock, CalculationsStock, add_to_calculations_stock,
}
use quadrocopt.Server.Stock.Laws.{
  IsBatchStock, add_first-IsBatchStock, add_second-IsBatchStock, Holds-Keeps,
}
use quadrocopt.Server.Stock.Reading.{read_batches-copies}
use quadrocopt.Server.Rounds.{store_batch, store_batches, calculate_res, round, rounds}

module _ {F : Type 0} (server_calculations : List F → Outcome (List F)) where
  record Calculated (h : Heap F) (cs : CalculationsStock) (p q m n : ℕ) (res : List F)
      : Type 0 where
    pub cs' : CalculationsStock
    pub after : Heap F
    pub makes : calculate_res server_calculations h cs (some p, m) (some q, n) ≡ ok (cs', after)
    pub held : Points after cs'.calculations res
    pub count : live after ≡ live h + 2

  calculate_res-Calculated :
      (h : Heap F) (cs : CalculationsStock) (p q : ℕ) {xs ys res : List F}
      → Points h (some p) xs
      → Points h (some q) ys
      → server_calculations (xs ++ ys) ≡ ok res
      → length res ≡ 4
      → Calculated h cs p q (length xs) (length ys) res
  unfolding calculate_res add_to_calculations_stock
  calculate_res-Calculated h cs p q {xs} {ys} {res} at_p at_q is four =
      let received = h ++ some (xs ++ ys) ∷ [] in
      let made = received ++ some res ∷ [] in
      let old = block_at-append received (some res ∷ []) (length h) (block_at-new h (xs ++ ys)) in
      let f = free-Freed made (some (length h)) (points old) in
      let new =
        f.keeps (length received) res (λ e. ground (arith, length-append h (some (xs ++ ys) ∷ [])))
          (block_at-new received res) in
      let c = copy_arr_of_floats-Copied f.after (some (length received)) new in
      record {
        cs' = record { calculations = some c.at; calculations_len = 4 };
        after = c.after;
        makes = rw at_p (
            rw (read_all xs)
              (rw at_q (rw (read_all ys) (rw is (rw f.frees (rw (rw four at c.copies) refl))))));
        held = c.new;
        count = omega (arith, c.count, f.count, live-new received res, live-new h (xs ++ ys));
      }

module _ {F : Type 0} (r : FloatRepr F) where
  -- A packet of floats with this payload.
  pub record IsFloats (pack : Packet) (xs : List F) : Type 0 where
    pub payload : get_floats r pack ≡ ok xs
    pub count : get_floats_count pack ≡ length xs

  IsBatchStock-new :
      {h : Heap F} {bs : BatchStock} {xs ys : List F} (b : List F)
      → IsBatchStock h bs xs ys
      → IsBatchStock (h ++ some b ∷ []) bs xs ys
  IsBatchStock-new {h} b i =
      let keeps : Keeps h none (h ++ some b ∷ []) =
        λ j c _ at. block_at-append h (some b ∷ []) j at in
      record {
        first = Holds-Keeps h (h ++ some b ∷ []) keeps (λ j e. cc) i.first;
        second = Holds-Keeps h (h ++ some b ∷ []) keeps (λ j e. cc) i.second;
        first_len = i.first_len;
        second_len = i.second_len;
        apart = i.apart;
      }

  -- The two batches of a round in a clean stock, whoever stores first.
  record Filled (h : Heap F) (first second : Packet) (xs ys : List F) : Type 0 where
    pub bs : BatchStock
    pub after : Heap F
    pub stores : store_batches r h initialize_batch_stock first second ≡ ok (bs, after)
    pub holds : IsBatchStock after bs xs ys
    pub has_first : bs.first_batch ≢ none
    pub has_second : bs.second_batch ≢ none
    pub count : live after ≡ live h + 4

  store_batch-Filled :
      (h : Heap F) (first second : Packet) {xs ys : List F}
      → IsFloats first xs
      → IsFloats second ys
      → Filled h first second xs ys
  unfolding store_batch
  store_batch-Filled h first second {xs} {ys} a b =
      let clean : IsBatchStock (h ++ some xs ∷ []) initialize_batch_stock [] [] = record {
        first = null;
        second = null;
        first_len = refl;
        second_len = refl;
        apart = λ i e. cc;
      } in
      let (p, h', st, is, n, _) =
        add_first-IsBatchStock (h ++ some xs ∷ []) initialize_batch_stock xs (some (length h)) clean
          (block_at-new h xs) (λ e. cc) in
      let (q, h'', st', is', n', _) =
        add_second-IsBatchStock (h' ++ some ys ∷ [])
          (record initialize_batch_stock { first_batch = some p; first_batch_len = length xs }) ys
          (some (length h')) (IsBatchStock-new ys is) (block_at-new h' ys) (λ e. cc) in
      record {
        bs = record {
          first_batch = some p;
          second_batch = some q;
          first_batch_len = length xs;
          second_batch_len = length ys;
        };
        after = h'';
        stores = rw a.payload (rw a.count (rw st (rw b.payload (rw b.count st'))));
        holds = is';
        has_first = λ e. cc;
        has_second = λ e. cc;
        count = omega (arith, n, n', live-new h xs, live-new h' ys);
      }

module _ {F : Type 0} (r : FloatRepr F) (server_calculations : List F → Outcome (List F)) where
  -- What the two listeners receive for a round: a packet of floats each, from which
  -- `server_calculations` computes the four floats of a command.
  pub record IsRound (packs : Packet × Packet) : Type 0 where
    pub first : List F
    pub second : List F
    pub command : List F
    pub first_pack : IsFloats r packs.0 first
    pub second_pack : IsFloats r packs.1 second
    pub computes : server_calculations (first ++ second) ≡ ok command
    pub four : length command ≡ 4

  -- A round from a clean batch stock, whatever the calculations stock is, with a packet of floats
  -- for each listener, from which server_calculations computes the four floats of a command: it
  -- ends without a fault with a clean batch stock again, the calculations stock holds the command
  -- that is computed from the floats of the first packet and then those of the second, and six
  -- blocks more are in use.
  pub round-command :
      (h : Heap F) (cs : CalculationsStock) {packs : Packet × Packet} (is : IsRound packs)
      → (cs' : CalculationsStock) × (h' : Heap F) × (round r server_calculations
            (record { heap = h; bs = initialize_batch_stock; cs = cs })
            packs
          ≡ ok (record { heap = h'; bs = initialize_batch_stock; cs = cs' }))
        × Points h' cs'.calculations is.command
        × (live h' ≡ live h + 6)
  round-command h cs {packs} is =
      let s = store_batch-Filled r h packs.0 packs.1 is.first_pack is.second_pack in
      let (p, q, h', reads, at_p, at_q, n) =
        read_batches-copies s.after s.bs s.holds s.has_first s.has_second in
      let c =
        calculate_res-Calculated server_calculations h' cs p q at_p at_q is.computes is.four in
      (
        c.cs',
        c.after,
        rw s.stores (rw reads (rw c.makes refl)),
        c.held,
        omega (arith, c.count, s.count, n),
      )

  -- Any number of such rounds from a clean batch stock: none of them faults, the batch stock is
  -- clean at the end, and each round has left six more blocks of floats in use.
  pub rounds-leak :
      (h : Heap F) (cs : CalculationsStock) (ps : List (Packet × Packet))
      → All IsRound ps
      → (cs' : CalculationsStock) × (h' : Heap F) × (rounds r server_calculations
            (record { heap = h; bs = initialize_batch_stock; cs = cs })
            ps
          ≡ ok (record { heap = h'; bs = initialize_batch_stock; cs = cs' }))
        × (live h' ≡ live h + 6 * length ps)
  unfolding rounds
  rounds-leak h cs [] is = (cs, h, refl, omega arith)
  rounds-leak h cs (packs ∷ ps) is =
      let (cs', h', runs, _, n) = round-command h cs is.0 in
      let (last, h'', rest, m) = rounds-leak h' cs' ps is.1 in
      (last, h'', rw runs rest, omega (arith, n, m))
