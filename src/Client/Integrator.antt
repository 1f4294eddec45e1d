-- ===== src/Client/Integrator.antt =====
-- One step of the integration: `get_next_step` of client/main.c, the Runge-Kutta method of order
-- four. `get_u` is the exchange of Client/Threads; here the answer to its call number k, for the
-- payload that is sent, is a parameter. What `vector` leaves in a new array is `junk`.
pub mod Laws
use quadrocopt.Base.{ℕ, zero, suc, List, Outcome, ok, ◌>>=◌}
use quadrocopt.Arith.{Ops, Arith}
use quadrocopt.Client.Plant.{Vector, update, derivs}
use quadrocopt.Client.CalcData.{
  CalculatorData, get_payload_from_calc_data, set_calc_data, load_state, normalize_vector,
}

module _ {F : Type 0} where
  -- `for (i = 1; i <= NVAR; i++) v[i] = f(i);` at `i`, with `left` rounds to go.
  unfoldable pub fill_vector : (left i : ℕ) → (ℕ → F) → Vector F → Vector F
  unfolding update
  fill_vector zero i f v = v
  fill_vector (suc left) i f v = fill_vector left (suc i) f (update v i (f i))

module _ {F D : Type 0} (a : Arith F D) where
  open a use {float, double, widen, narrow, decimal}
  open float use {◌+◌, ◌*◌}

  infixl 65 ◌+◌
  infixl 70 ◌*◌
  -- The third loop, which fills `yt` and adds `dyt` to `dym`.
  unfoldable pub third_loop :
      (left i : ℕ) → Vector F → F → Vector F → Vector F × Vector F → Vector F × Vector F
  unfolding update
  third_loop zero i y h dyt (yt, dym) = (yt, dym)
  third_loop (suc left) i y h dyt (yt, dym) =
      third_loop left (suc i) y h dyt (update yt i (y i + h * dym i), update dym i (dym i + dyt i))

  -- `y[i]+h6*(dydx[i]+dyt[i]+2.0*dym[i])`, where the factor 2.0 makes the sum a `double`.
  abbrev pub weighted : F → F → F → F → F → F
  weighted y h6 dydx dyt dym = narrow (
      double.◌+◌ (widen y) (
        double.◌*◌ (widen h6)
          (double.◌+◌ (widen (dydx + dyt)) (double.◌*◌ (decimal 20 1) (widen dym)))))

  abbrev pub half_step : F → F
  half_step h = narrow (double.◌*◌ (widen h) (decimal 5 1))

  abbrev pub sixth_step : F → F
  sixth_step h = narrow (double.◌/◌ (widen h) (decimal 60 1))

  unfoldable pub get_next_step :
      (get_u : ℕ → List F → List F) (junk : Vector F)
      → CalculatorData F
      → Outcome (CalculatorData F)
  unfolding fill_vector third_loop
  get_next_step get_u junk d = do
    let y = load_state d junk
    let x = d.curr_time
    let h = d.step
    dydx ← derivs a y junk (get_u 0 (get_payload_from_calc_data d))
    let hh = half_step h
    let h6 = sixth_step h
    let xh = x + hh
    let yt = fill_vector 12 1 (λ i. y i + hh * dydx i) junk
    dyt ← derivs a yt junk (get_u 1 (normalize_vector yt 12 xh))
    let yt = fill_vector 12 1 (λ i. y i + hh * dyt i) yt
    dym ← derivs a yt junk (get_u 2 (normalize_vector yt 12 xh))
    let stage = third_loop 12 1 y h dyt (yt, dym)
    let yt = stage.0
    let dym = stage.1
    dyt ← derivs a yt dyt (get_u 3 (normalize_vector yt 12 (x + h)))
    let yout = fill_vector 12 1 (λ i. weighted (y i) h6 (dydx i) (dyt i) (dym i)) junk
    ok (set_calc_data d yout)
