-- ===== src/Client/Integrator/Laws.antt =====
-- The loops of `get_next_step` against the method of Runge and Kutta as a formula.
use quadrocopt.Base.{ℕ, ◌≡◌, refl, List, Outcome, ok, exit, fault, ◌>>=◌}
use quadrocopt.Arith.{Arith}
use quadrocopt.Client.Plant.{Vector, Command, set_u, derivatives, derivs}
use quadrocopt.Client.CalcData.{
  CalculatorData, get_payload_from_calc_data, set_calc_data, load_state, normalize_vector,
}
use quadrocopt.Client.Integrator.{get_next_step}

module _ {F D : Type 0} (a : Arith F D) (get_u : ℕ → List F → List F) (junk : Vector F) where
  open a use {float, double, widen, narrow, decimal}
  open float use {◌+◌, ◌*◌}

  infixl 65 ◌+◌
  infixl 70 ◌*◌
  -- What stood in the array that `derivs` fills does not matter to a reader of its twelve entries.
  derivs-cong :
      {B : Type 0} (x v w : Vector F) (u : List F) (f h : Vector F → Outcome B)
      → ((c : Command F) → f (derivatives a x c v) ≡ h (derivatives a x c w))
      → (derivs a x v u >>= f) ≡ (derivs a x w u >>= h)
  unfolding derivs
  derivs-cong x v w u f h same =
      elim (set_u u)
        as (λ o.
          ((o >>= λ c. ok (derivatives a x c v)) >>= f)
          ≡ ((o >>= λ c. ok (derivatives a x c w)) >>= h)) [
            | ok c ↦ same c
            | exit ↦ refl
            | fault ↦ refl
          ]

  -- The slope at stage `k`: the motion at a state and a time, under the command for them.
  abbrev pub slope : ℕ → Vector F → F → Outcome (Vector F)
  slope k v time = derivs a v junk (get_u k (normalize_vector v 12 time))

  -- The method, with no part of the code's own: half of the step is h * 0.5, and the mean of the four
  -- slopes is y + h / 6.0 * (k₁ + k₄ + 2.0 * (k₃ + k₂)), where the constants are of type `double`.
  abbrev half : F → F
  half h = narrow (double.◌*◌ (widen h) (decimal 5 1))

  abbrev mean : (h y k₁ k₂ k₃ k₄ : F) → F
  mean h y k₁ k₂ k₃ k₄ = narrow (
      double.◌+◌ (widen y) (
        double.◌*◌ (widen (narrow (double.◌/◌ (widen h) (decimal 60 1))))
          (double.◌+◌ (widen (k₁ + k₄)) (double.◌*◌ (decimal 20 1) (widen (k₃ + k₂))))))

  -- Four slopes, each at a whole vector, and their weighted mean.
  abbrev pub runge_kutta : CalculatorData F → Outcome (CalculatorData F)
  runge_kutta d = do
    let y = load_state d junk
    let h = d.step
    k₁ ← slope 0 y d.curr_time
    k₂ ← slope 1 (λ j. y j + half h * k₁ j) (d.curr_time + half h)
    k₃ ← slope 2 (λ j. y j + half h * k₂ j) (d.curr_time + half h)
    k₄ ← slope 3 (λ j. y j + h * k₃ j) (d.curr_time + h)
    ok (set_calc_data d (λ j. mean h (y j) (k₁ j) (k₂ j) (k₃ j) (k₄ j)))

  -- The loops of get_next_step over its arrays, with yt, dyt and dym used again, compute the step
  -- of the Runge-Kutta method of order four, written out with its factors h * 0.5, h / 6.0 and 2.0
  -- in the same double and float operations, fault for fault, for any answers to the calls of
  -- get_u and any contents of new arrays.
  pub get_next_step-runge_kutta :
      (d : CalculatorData F) → get_next_step a get_u junk d ≡ runge_kutta d
  unfolding get_next_step derivs derivatives load_state normalize_vector get_payload_from_calc_data
      set_calc_data
  get_next_step-runge_kutta d =
      let y = load_state d junk in
      let hh = half d.step in
      derivs-cong y junk junk (get_u 0 (normalize_vector y 12 d.curr_time)) _ _ (λ c₁.
        let k₁ = derivatives a y c₁ junk in
        let y₁ = λ (j : ℕ). y j + hh * k₁ j in
        derivs-cong y₁ junk junk (get_u 1 (normalize_vector y₁ 12 (d.curr_time + hh))) _ _ (λ c₂.
          let k₂ = derivatives a y₁ c₂ junk in
          let y₂ = λ (j : ℕ). y j + hh * k₂ j in
          derivs-cong y₂ junk junk (get_u 2 (normalize_vector y₂ 12 (d.curr_time + hh))) _ _ (λ c₃.
            let k₃ = derivatives a y₂ c₃ junk in
            let y₃ = λ (j : ℕ). y j + d.step * k₃ j in
            derivs-cong y₃ k₂ junk (get_u 3 (normalize_vector y₃ 12 (d.curr_time + d.step))) _ _
              (λ c₄. refl))))
