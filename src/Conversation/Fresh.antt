-- ===== src/Conversation/Fresh.antt =====
-- Which state a command of `get_u` answers, through both programs.
use mathlib.Core.Path.{ap₂}
use quadrocopt.Base.{
  ℕ, zero, suc, ◌≡◌, refl, ap, sym, ◌∙◌, ◌⊎◌, inl, inr, List, [], ◌∷◌, ◌++◌, arith, map, length, ok,
  Option, some, get_elem?, get_elem?-append_left,
}
use quadrocopt.Heap.Laws.{read_all}
use quadrocopt.Client.Threads.{Batches, initial_batches, copy_command}
use quadrocopt.Server.Threads.{System as Server, Reach as ServerReach}
use quadrocopt.Server.Threads.Pairing.{results_of, batches-InOrder}
use quadrocopt.Server.Threads.Sending.{sent-Lags_results}
use quadrocopt.Conversation.{World, Run}
use quadrocopt.Conversation.Network.{undisturbed}
use quadrocopt.Conversation.Journey.{IsConversation, Reach-Conversation}

module _ {F : Type 0} where
  -- The pair of batches that stands in one place of both sequences of halves.
  pair_at :
      (l : List (Batches F)) (i : ℕ) {p q : List F}
      → get_elem? (map (λ b. b.0) l) i ≡ some p
      → get_elem? (map (λ b. b.1) l) i ≡ some q
      → (b : Batches F) × (get_elem? l i ≡ some b) × (p ≡ b.0) × (q ≡ b.1)
  pair_at [] i e f = cc
  pair_at (b ∷ l) zero e f = (b, refl, ground arith, ground arith)
  pair_at (b ∷ l) (suc i) e f = pair_at l i e f

module _ {F : Type 0} (server_calculations : List F → List F) where
  result_at :
      (xs ys : List (List F)) (i : ℕ) {u : List F}
      → get_elem? (results_of server_calculations xs ys) i ≡ some u
      → (a b : List F) × (get_elem? xs i ≡ some a)
        × (get_elem? ys i ≡ some b)
        × (u ≡ server_calculations (a ++ b))
  result_at [] ys i e = cc
  result_at (x ∷ xs) [] i e = cc
  result_at (x ∷ xs) (y ∷ ys) zero e = (x, y, refl, refl, ground arith)
  result_at (x ∷ xs) (y ∷ ys) (suc i) e = result_at xs ys i e

  -- A result of the server is that of the pair in its place.
  calculated_from :
      {s : Server F} (left : List (Batches F)) (ones twos : List (List F)) (i : ℕ) {u : List F}
      → ServerReach server_calculations s
      → map (λ b. b.0) left ≡ s.one.received ++ ones
      → map (λ b. b.1) left ≡ s.two.received ++ twos
      → get_elem? s.results i ≡ some u
      → (b : Batches F) × (get_elem? left i ≡ some b) × (u ≡ server_calculations (b.0 ++ b.1))
  calculated_from {s} left ones twos i {u} r firsts seconds e =
      let (new_one, new_two, one, two, _, _, _, pairs) = batches-InOrder server_calculations r in
      let due : get_elem? (results_of server_calculations s.one.read s.two.read) i ≡ some u =
        ap (λ l. get_elem? l i) (sym pairs) ∙ get_elem?-append_left s.results _ i e in
      let (a, c, at_one, at_two, eq) = result_at s.one.read s.two.read i due in
      let first : get_elem? (map (λ (b : Batches F). b.0) left) i ≡ some a =
        ap (λ l. get_elem? l i) (firsts ∙ ap (λ l. l ++ ones) one)
        ∙ get_elem?-append_left _ ones i (get_elem?-append_left s.one.read new_one i at_one) in
      let second : get_elem? (map (λ (b : Batches F). b.1) left) i ≡ some c =
        ap (λ l. get_elem? l i) (seconds ∙ ap (λ l. l ++ twos) two)
        ∙ get_elem?-append_left _ twos i (get_elem?-append_left s.two.read new_two i at_two) in
      let (b, at, p, q) = pair_at left i first second in
      (b, at, eq ∙ ap₂ (λ x y. server_calculations (x ++ y)) p q)

module _ {F : Type 0} (nought : F) where
  -- The batches of call `i` of `get_u`, counted from 1; those of call 0 are the zeros of the stock.
  abbrev pub batches_of_call : World F → ℕ → Option (Batches F)
  batches_of_call w i = get_elem? (initial_batches nought ∷ w.client.asked) i

module _ {F : Type 0} (nought : F) (server_calculations : List F → List F) where
  -- In every state of both programs that is reached without a datagram being lost, repeated or
  -- brought out of order by the network, where server_calculations gives four floats: each command
  -- that get_u has copied of a batch it read is what server_calculations makes of one pair of
  -- batches, the first and the second batch of the same call: that of the call before, or that of
  -- the call which reads the command. The first command has the zeros of the stock as the call
  -- before.
  pub get_u_fresh :
      {w : World F} {disturbances : ℕ} (i : ℕ) (u : List F)
      → ((params : List F) → length (server_calculations params) ≡ 4)
      → Run nought server_calculations disturbances w
      → disturbances ≡ 0
      → get_elem? w.client.got i ≡ some u
      → (b : Batches F) × (copy_command u ≡ ok (server_calculations (b.0 ++ b.1)))
        × ((batches_of_call nought w i ≡ some b) ⊎ (batches_of_call nought w (suc i) ≡ some b))
  get_u_fresh {w} i u four run none e =
      let r = undisturbed run none in
      let (left, c) = Reach-Conversation nought server_calculations r in
      let arrived : get_elem? w.server.sent i ≡ some u =
        ap (λ l. get_elem? l i) (sym c.client.back) ∙ get_elem?-append_left w.client.got _ i e in
      let (_, _, lags) = sent-Lags_results server_calculations c.run in
      elim (lags i u arrived) [
        | inl now ↦
            let (b, at, eq) =
              calculated_from server_calculations left _ _ i c.run c.firsts c.seconds now in
            (b, copied b eq, inl (asked c i at))
        | inr later ↦
            let (b, at, eq) =
              calculated_from server_calculations left _ _ (suc i) c.run c.firsts c.seconds later in
            (b, copied b eq, inr (asked c (suc i) at))
      ]
    where
      copied :
          (b : Batches F)
          → u ≡ server_calculations (b.0 ++ b.1)
          → copy_command u ≡ ok (server_calculations (b.0 ++ b.1))
      copied b eq =
          let whole = read_all (server_calculations (b.0 ++ b.1)) in
          ap copy_command eq ∙ rw (four (b.0 ++ b.1)) at whole

      asked :
          {w : World F} {left : List (Batches F)}
          → IsConversation nought server_calculations left w
          → (j : ℕ) {b : Batches F} → get_elem? left j ≡ some b
          → batches_of_call nought w j ≡ some b
      asked {w} {left} c j at =
          ap (λ l. get_elem? l j) (sym c.client.out) ∙ get_elem?-append_left left _ j at
