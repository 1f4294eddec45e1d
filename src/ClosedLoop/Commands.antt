-- ===== src/ClosedLoop/Commands.antt =====
-- The commands of the server for a state that the client sends, and the numbers that stand for the
-- names of the formulas there.
use quadrocopt.Base.{◌≡◌, List, [], ◌∷◌}
use quadrocopt.Arith.{Arith}
use quadrocopt.Arith.Terms.{value}
use quadrocopt.ClosedLoop.Motion.{rate, state_values}
use quadrocopt.Reference.{RefTraj}
use quadrocopt.Client.Plant.{Vector}
use quadrocopt.Client.CalcData.{CalculatorData}
use quadrocopt.Server.Control.{Params, g, ix, iy, u1, u2, u3, u4}

-- The parameters that the server reads from the payload of a state.
abbrev pub params_of : {F : Type 0} → CalculatorData F → Params F
params_of d = record {
  x = d.v_x;
  dot_x = d.vdot_x;
  y = d.v_y;
  dot_y = d.vdot_y;
  z = d.v_z;
  dot_z = d.vdot_z;
  theta = d.v_theta;
  dot_theta = d.vdot_theta;
  phi = d.v_phi;
  dot_phi = d.vdot_phi;
  psy = d.v_psy;
  dot_psy = d.vdot_psy;
  t = d.curr_time;
}

module _ {F D : Type 0} (a : Arith F D) where
  open a use {float}
  open float use {◌+◌, ◌/◌}

  infixl 65 ◌+◌
  infixl 70 ◌/◌
  -- The commands for a state and a trajectory, and what stands for the formulas of the motion there:
  -- the accelerations of theta and phi are those that the client computes from the commands.
  abbrev pub commands : CalculatorData F → RefTraj F → List F
  commands d r = let p = params_of d in u1 a p r ∷ u2 a p r ∷ u3 a p r ∷ u4 a p r ∷ []

  abbrev pub values : CalculatorData F → RefTraj F → List F
  values d r = let p = params_of d in state_values d r (g a) (u2 a p r / ix a) (u3 a p r / iy a)

  -- The twelve numbers of a state move as the formulas say.
  abbrev pub Moves : List F → Vector F → Type 0
  Moves env x' =
      (x' 1 ≡ value a env (rate 0))
      × (x' 2 ≡ value a env (rate 1))
      × (x' 3 ≡ value a env (rate 2))
      × (x' 4 ≡ value a env (rate 3))
      × (x' 5 ≡ value a env (rate 4))
      × (x' 6 ≡ value a env (rate 5))
      × (x' 7 ≡ value a env (rate 6))
      × (x' 8 ≡ value a env (rate 7))
      × (x' 9 ≡ value a env (rate 8))
      × (x' 10 ≡ value a env (rate 9))
      × (x' 11 ≡ value a env (rate 10))
      × (x' 12 ≡ value a env (rate 11))
