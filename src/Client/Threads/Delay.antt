-- ===== src/Client/Threads/Delay.antt =====
-- Which command a call of `get_u` returns.
use quadrocopt.Base.{
  ℕ, zero, suc, ◌+◌, ◌≡◌, refl, ap, sym, ◌∙◌, List, [], ◌∷◌, arith, length, map, get_elem?, some,
  get_elem?-append_left,
}
use quadrocopt.Client.Threads.{Batches, System, initial_batches, Reach}
use quadrocopt.Client.Threads.Invariant.{Reach-Answered}
use quadrocopt.Client.Threads.Journey.{half_done}

module _ {F : Type 0} (nought : F) (answer : Batches F → List F) where
  get_elem?-map :
      (l : List (Batches F)) (i : ℕ) (u : List F)
      → get_elem? (map answer l) i ≡ some u
      → (b : Batches F) × (get_elem? l i ≡ some b) × (u ≡ answer b)
  get_elem?-map [] i u e = cc
  get_elem?-map (b ∷ l) zero u e = (b, refl, ground arith)
  get_elem?-map (b ∷ l) (suc i) u e = get_elem?-map l i u e

  -- Of the client against any server and network that answer each pair of batches once, in their
  -- order and by one function, as the server of this repository need not: in every reachable state
  -- each batch that get_u has read is the answer to the batches that were stored for the sender
  -- one call before: the first answers the zeros that the stock was filled with, and batch i + 1
  -- answers the batches of call i. Between two calls the number of batches read is that of the
  -- batches stored.
  pub get_u_delayed :
      {s : System F} (i : ℕ) (u : List F)
      → Reach nought answer s
      → get_elem? s.got i ≡ some u
      → (b : Batches F) × (get_elem? (initial_batches nought ∷ s.asked) i ≡ some b)
        × (u ≡ answer b)
        × (length s.asked ≡ length s.got + half_done s.calc)
  get_u_delayed {s} i u r e =
      let (left, inv) = Reach-Answered nought answer r in
      let here : get_elem? (map answer left) i ≡ some u =
        ap (λ l. get_elem? l i) (sym inv.back) ∙ get_elem?-append_left s.got _ i e in
      let (b, at, eq) = get_elem?-map left i u here in
      let asked : get_elem? (initial_batches nought ∷ s.asked) i ≡ some b =
        ap (λ l. get_elem? l i) (sym inv.out) ∙ get_elem?-append_left left _ i at in
      (b, asked, eq, inv.balance)
