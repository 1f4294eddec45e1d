-- ===== src/ClosedLoop/Formulas.antt =====
-- The formulas of the control law, with divisions by the mass done, against derivatives of the motion.
use quadrocopt.Base.{◌≡◌, refl}
use quadrocopt.Arith.Terms.{Term, var, num, add, sub, mul, opposite, derivative}
use quadrocopt.Arith.Normal.{crosswise}
use quadrocopt.ClosedLoop.Motion.{
  x, y, dot_z, theta, dot_theta, phi, dot_phi, dotref, ddotref, d3dotref, d4dotref, gravity, lift,
  axis, nth,
}

-- `-g + U1/m`, `dotV3` and `ddotV3`.
abbrev pub rise : Term
rise = add (opposite gravity) axis

abbrev pub dot_lift : Term
dot_lift = sub (sub d3dotref (mul (num 30) (sub dot_z dotref))) (mul (num 30) (sub rise ddotref))

abbrev pub ddot_lift : Term
ddot_lift =
    sub (sub d4dotref (mul (num 30) (sub rise ddotref))) (mul (num 30) (sub dot_lift d3dotref))

abbrev pub Same : Term → Term → Type 0
Same s t = crosswise s t ≡ crosswise t s

pub dot_lift-Same : Same dot_lift (nth 1 lift)
unfolding crosswise derivative
dot_lift-Same = refl

pub ddot_lift-Same : Same ddot_lift (nth 2 lift)
unfolding crosswise derivative
ddot_lift-Same = refl

-- The fourth derivatives as the product rule gives them.
abbrev pub fourth_x : Term
fourth_x =
    add (add (mul (var 18) axis) (mul theta ddot_lift)) (mul (mul (num 2) dot_theta) dot_lift)

pub fourth_x-Same : Same (nth 4 x) fourth_x
unfolding crosswise derivative
fourth_x-Same = refl

abbrev pub fourth_y : Term
fourth_y =
    sub (sub (opposite (mul (var 19) axis)) (mul (mul (num 2) dot_phi) dot_lift))
      (mul phi ddot_lift)

pub fourth_y-Same : Same (nth 4 y) fourth_y
unfolding crosswise derivative
fourth_y-Same = refl
