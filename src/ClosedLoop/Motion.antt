-- ===== src/ClosedLoop/Motion.antt =====
-- The motion of the quadrocopter under the control law, as formulas: what stands for itself, and how
-- it moves in time. No formula here is taken from the code.
use quadrocopt.Base.{ℕ, zero, suc, List, [], ◌∷◌}
use quadrocopt.Arith.Terms.{Term, var, num, add, sub, mul, opposite, derivative}
use quadrocopt.Reference.{RefTraj}
use quadrocopt.Client.CalcData.{CalculatorData}

-- The variables are the twelve numbers of a state, the trajectory and its derivatives, g, and the
-- accelerations of theta and of phi.
abbrev pub x : Term
x = var 0

abbrev pub y : Term
y = var 2

abbrev pub z : Term
z = var 4

abbrev pub dot_z : Term
dot_z = var 5

abbrev pub theta : Term
theta = var 6

abbrev pub dot_theta : Term
dot_theta = var 7

abbrev pub phi : Term
phi = var 8

abbrev pub dot_phi : Term
dot_phi = var 9

abbrev pub psy : Term
psy = var 10

abbrev pub ref : Term
ref = var 12

abbrev pub dotref : Term
dotref = var 13

abbrev pub ddotref : Term
ddotref = var 14

abbrev pub d3dotref : Term
d3dotref = var 15

abbrev pub d4dotref : Term
d4dotref = var 16

abbrev pub gravity : Term
gravity = var 17

-- The acceleration of the height that is asked for, and the one along the axis of the rotors.
abbrev pub lift : Term
lift = sub (sub ddotref (mul (num 30) (sub z ref))) (mul (num 30) (sub dot_z dotref))

abbrev pub axis : Term
axis = add gravity lift

abbrev pub turn : Term
turn = sub (sub ddotref (mul (num 125) (sub psy ref))) (mul (num 125) (sub (var 11) dotref))

-- How the variables move: a position has its speed for a rate, a rotated axis pushes x and y, and
-- each of the five numbers of the trajectory has the next one for a rate.
abbrev pub rate : ℕ → Term
rate zero = var 1
rate (suc zero) = mul theta axis
rate (suc (suc zero)) = var 3
rate (suc (suc (suc zero))) = opposite (mul phi axis)
rate (suc (suc (suc (suc zero)))) = dot_z
rate (suc (suc (suc (suc (suc zero))))) = lift
rate (suc (suc (suc (suc (suc (suc zero)))))) = dot_theta
rate (suc (suc (suc (suc (suc (suc (suc zero))))))) = var 18
rate (suc (suc (suc (suc (suc (suc (suc (suc zero)))))))) = dot_phi
rate (suc (suc (suc (suc (suc (suc (suc (suc (suc zero))))))))) = var 19
rate (suc (suc (suc (suc (suc (suc (suc (suc (suc (suc zero)))))))))) = var 11
rate (suc (suc (suc (suc (suc (suc (suc (suc (suc (suc (suc zero))))))))))) = turn
rate (suc (suc (suc (suc (suc (suc (suc (suc (suc (suc (suc (suc zero)))))))))))) = dotref
rate (suc (suc (suc (suc (suc (suc (suc (suc (suc (suc (suc (suc (suc zero))))))))))))) = ddotref
rate (suc (suc (suc (suc (suc (suc (suc (suc (suc (suc (suc (suc (suc (suc zero)))))))))))))) =
    d3dotref
rate
      (suc
        (suc (suc (suc (suc (suc (suc (suc (suc (suc (suc (suc (suc (suc (suc zero))))))))))))))) =
    d4dotref
rate _ = num 0

-- The derivative of that order in time.
abbrev pub nth : ℕ → Term → Term
nth zero t = t
nth (suc n) t = derivative rate (nth n t)

-- What the variables are.
abbrev pub state_values :
    {F : Type 0} → CalculatorData F → RefTraj F → (g ddot_theta ddot_phi : F) → List F
state_values d r g ddot_theta ddot_phi =
    d.v_x ∷ d.vdot_x ∷ d.v_y ∷ d.vdot_y ∷ d.v_z ∷ d.vdot_z ∷ d.v_theta ∷ d.vdot_theta ∷ d.v_phi
    ∷ d.vdot_phi ∷ d.v_psy ∷ d.vdot_psy ∷ r.ref ∷ r.dotref ∷ r.ddotref ∷ r.d3dotref ∷ r.d4dotref ∷ g
    ∷ ddot_theta ∷ ddot_phi ∷ []
