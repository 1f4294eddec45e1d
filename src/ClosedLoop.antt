-- ===== src/ClosedLoop.antt =====
-- The control law of server/calculate.c against the motion in client/calculate.c: the commands of
-- the server, computed from the state that the client sends, put into the client's equations. The
-- trajectory is any five numbers, taken for a value and its derivatives.
pub mod Motion
pub mod Commands
pub mod Formulas
pub mod Fourth
pub mod Errors
mod Examples
use mathlib.Core.Path.{◌∙◌, ap}
use quadrocopt.Base.{◌≡◌, ◌≢◌, refl, ok}
use quadrocopt.Arith.{Arith}
use quadrocopt.Arith.Exact.{IsExact}
use quadrocopt.Arith.Ring.{IsRing}
use quadrocopt.Arith.Terms.{value}
use quadrocopt.ClosedLoop.Motion as Motion
use quadrocopt.ClosedLoop.Motion.{nth}
use quadrocopt.Reference.{RefTraj}
use quadrocopt.Client.Plant.{Vector, update, set_u, derivatives, derivs}
use quadrocopt.Client.CalcData.{CalculatorData, get_payload_from_calc_data, load_state}
use quadrocopt.Server.Control.{
  read_params, m, g, ix, iy, iz, trajectory, v1, v2, v3, v4, u1, u4, dot_v3, ddot_v3,
  server_calculations,
}
use quadrocopt.ClosedLoop.Commands.{params_of, commands, values, Moves}
use quadrocopt.ClosedLoop.Fourth.{
  pushed, pushed_back, dot_v3-derivative, ddot_v3-derivative, fourth_x-v1, fourth_y-v2,
}

module _ {F D : Type 0} (a : Arith F D) (nought : F) (exact : IsExact a.float nought)
    (ring : IsRing a) (d : CalculatorData F) (r : RefTraj F) (m≢ : m a ≢ nought) where
  open a use {float, int}
  open float use {◌+◌, ◌-◌, ◌*◌, ◌/◌, neg}
  open exact use {add_sub_cancel, mul_div_cancel}

  infixl 65 ◌+◌ ◌-◌
  -- In exact arithmetic, with a mass, moments of inertia and a thrust that are not nought, for any
  -- state and any five numbers r as the trajectory: the client's derivatives under the commands
  -- that the server's law computes are a motion in which z and psy have the accelerations v3 and
  -- v4, dot_v3 and ddot_v3 are the derivatives of v3, and the fourth derivatives of x and y are v1
  -- and v2. The derivatives are formal ones along this motion, where each of the numbers of r has
  -- the next one as its derivative. server_calculations computes these commands from the payload
  -- of the state for the trajectory of tanRh, which by tan_rh-derivatives has the opposite of that
  -- derivative as its third number.
  pub closed_loop :
      (y dxdt : Vector F)
      → ix a ≢ nought
      → iy a ≢ nought
      → iz a ≢ nought
      → g a + v3 a (params_of d) r ≢ nought
      → let p = params_of d in
        let env = values a d r in
        (x' : Vector F) × (derivs a (load_state d y) dxdt (commands a d r) ≡ ok x')
        × Moves a env x'
        × (x' 6 ≡ v3 a p r)
        × (x' 12 ≡ v4 a p r)
        × (dot_v3 a p r ≡ value a env (nth 1 Motion.lift))
        × (ddot_v3 a p r ≡ value a env (nth 2 Motion.lift))
        × (value a env (nth 4 Motion.x) ≡ v1 a p r)
        × (value a env (nth 4 Motion.y) ≡ v2 a p r)
        × (server_calculations a (get_payload_from_calc_data d)
            ≡ ok (commands a d (trajectory a d.curr_time)))
  unfolding server_calculations read_params derivs derivatives set_u load_state update
      get_payload_from_calc_data u1 u4 v3 v4 value
  closed_loop y dxdt ix≢ iy≢ iz≢ thrust≢ =
      let p = params_of d in
      let up =
        ap (λ e. e - g a) (mul_div_cancel (m a) (g a + v3 a p r) m≢) ∙ add_sub_cancel (g a) _ in
      let round = mul_div_cancel (iz a) (v4 a p r) iz≢ in
      (
        _,
        refl,
        (
          refl,
          pushed a nought exact ring d r m≢ d.v_theta _,
          refl,
          pushed_back a nought exact ring d r m≢ d.v_phi _,
          refl,
          up,
          refl,
          refl,
          refl,
          refl,
          refl,
          round,
        ),
        up,
        round,
        dot_v3-derivative a nought exact ring d r m≢,
        ddot_v3-derivative a nought exact ring d r m≢,
        fourth_x-v1 a nought exact ring d r m≢ ix≢ thrust≢,
        fourth_y-v2 a nought exact ring d r m≢ iy≢ thrust≢,
        refl,
      )
