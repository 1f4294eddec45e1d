-- ===== src/ClosedLoop/Fourth.antt =====
-- The derivatives of the motion under the commands, from the force to the fourth derivatives of x
-- and y.
use mathlib.Core.Path.{sym, ◌∙◌, ap}
use quadrocopt.Base.{◌≡◌, ◌≢◌, refl, [], ◌∷◌}
use quadrocopt.Arith.{Arith}
use quadrocopt.Arith.Exact.{IsExact}
use quadrocopt.Arith.Ring.{IsRing}
use quadrocopt.Arith.Terms.{var, add, sub, mul, opposite, value}
use quadrocopt.Arith.Normal.{crosswise}
use quadrocopt.Arith.Normal.Sound.{value_eq}
use quadrocopt.ClosedLoop.Motion as Motion
use quadrocopt.ClosedLoop.Motion.{nth}
use quadrocopt.ClosedLoop.Formulas.{
  dot_lift, ddot_lift, dot_lift-Same, ddot_lift-Same, fourth_x, fourth_x-Same, fourth_y,
  fourth_y-Same,
}
use quadrocopt.Reference.{RefTraj}
use quadrocopt.Client.CalcData.{CalculatorData}
use quadrocopt.Server.Control.{m, g, ix, iy, v1, v2, v3, u1, u2, u3, dot_v3, dot_u1, ddot_v3}
use quadrocopt.ClosedLoop.Commands.{params_of, values}

module _ {F D : Type 0} (a : Arith F D) (nought : F) (exact : IsExact a.float nought) where
  open a use {float, int}
  open float use {◌+◌, ◌-◌, ◌*◌, ◌/◌, neg}
  open exact use {
    add_sub_cancel, sub_add_cancel, mul_div_cancel, div_mul_cancel, div_mul, neg_mul, neg_div,
    neg_neg,
  }

  infixl 65 ◌+◌ ◌-◌
  infixl 70 ◌*◌ ◌/◌
  -- A command that inverts a divided gain.
  gain_cancel : (i b w : F) → i ≢ nought → b ≢ nought → ((i / b) * w) / i * b ≡ w
  gain_cancel i b w i≢ b≢ =
      ap (λ e. e / i * b) (div_mul i b w)
      ∙ ap (λ e. e * b) (mul_div_cancel i (w / b) i≢)
      ∙ div_mul_cancel w b b≢

  neg_gain_cancel : (i b w : F) → i ≢ nought → b ≢ nought → neg ((neg (i / b) * w) / i * b) ≡ w
  neg_gain_cancel i b w i≢ b≢ =
      ap (λ e. neg (e / i * b)) (neg_mul (i / b) w)
      ∙ ap (λ e. neg (e * b)) (neg_div ((i / b) * w) i)
      ∙ ap neg (neg_mul ((i / b) * w / i) b)
      ∙ neg_neg _
      ∙ gain_cancel i b w i≢ b≢

  pub sub_sub_add : (v b c : F) → (v - b - c) + c + b ≡ v
  sub_sub_add v b c = ap (λ e. e + b) (sub_add_cancel (v - b) c) ∙ sub_add_cancel v b

module _ {F D : Type 0} (a : Arith F D) (nought : F) (exact : IsExact a.float nought)
    (ring : IsRing a) (d : CalculatorData F) (r : RefTraj F) (m≢ : m a ≢ nought) where
  open a use {float, int}
  open float use {◌+◌, ◌-◌, ◌*◌, ◌/◌, neg}
  open exact use {add_sub_cancel, mul_div_cancel}

  infixl 65 ◌+◌ ◌-◌
  infixl 70 ◌*◌ ◌/◌
  -- The force is the mass times the acceleration along the axis.
  pub force : u1 a (params_of d) r / m a ≡ g a + v3 a (params_of d) r
  unfolding u1
  force = mul_div_cancel (m a) (g a + v3 a (params_of d) r) m≢

  pub dot_v3-lift : dot_v3 a (params_of d) r ≡ value a (values a d r) dot_lift
  unfolding dot_v3 v3 value
  dot_v3-lift =
      ap (λ e. r.d3dotref - int 30 * (d.vdot_z - r.dotref) - int 30 * (neg (g a) + e - r.ddotref))
        force

  pub dot_v3-derivative : dot_v3 a (params_of d) r ≡ value a (values a d r) (nth 1 Motion.lift)
  dot_v3-derivative =
      dot_v3-lift ∙ value_eq a ring (values a d r) dot_lift (nth 1 Motion.lift) dot_lift-Same

  ddot_v3-lift : ddot_v3 a (params_of d) r ≡ value a (values a d r) ddot_lift
  unfolding ddot_v3 dot_u1 v3 value
  ddot_v3-lift =
      ap
        (λ e.
          r.d4dotref
          - int 30 * (neg (g a) + e - r.ddotref)
          - int 30 * (dot_u1 a (params_of d) r / m a - r.d3dotref))
        force
      ∙ ap
          (λ e.
            r.d4dotref
            - int 30 * (neg (g a) + (g a + v3 a (params_of d) r) - r.ddotref)
            - int 30 * (e - r.d3dotref))
          (mul_div_cancel (m a) (dot_v3 a (params_of d) r) m≢ ∙ dot_v3-lift)

  pub ddot_v3-derivative : ddot_v3 a (params_of d) r ≡ value a (values a d r) (nth 2 Motion.lift)
  ddot_v3-derivative =
      ddot_v3-lift ∙ value_eq a ring (values a d r) ddot_lift (nth 2 Motion.lift) ddot_lift-Same

  -- The fourth derivative of x, from the acceleration of theta.
  pub fourth_x-v1 :
      ix a ≢ nought
      → g a + v3 a (params_of d) r ≢ nought
      → value a (values a d r) (nth 4 Motion.x) ≡ v1 a (params_of d) r
  unfolding u2 value v3
  fourth_x-v1 ix≢ thrust≢ =
      let p = params_of d in
      let thrust = g a + v3 a p r in
      let env = values a d r in
      value_eq a ring env (nth 4 Motion.x) fourth_x fourth_x-Same
      ∙ ap
          (λ e.
            u2 a p r / ix a * thrust + d.v_theta * e + int 2 * d.vdot_theta * value a env dot_lift)
          (sym ddot_v3-lift)
      ∙ ap (λ e. u2 a p r / ix a * thrust + d.v_theta * ddot_v3 a p r + int 2 * d.vdot_theta * e)
          (sym dot_v3-lift)
      ∙ ap (λ e. e + d.v_theta * ddot_v3 a p r + int 2 * d.vdot_theta * dot_v3 a p r)
          (gain_cancel a nought exact (ix a) thrust _ ix≢ thrust≢)
      ∙ sub_sub_add a nought exact _ (int 2 * d.vdot_theta * dot_v3 a p r)
          (d.v_theta * ddot_v3 a p r)

  -- What is added twice and taken off twice.
  add_add-sub_sub : (v b c : F) → v + b + c - b - c ≡ v
  unfolding value crosswise
  add_add-sub_sub v b c =
      value_eq a ring (v ∷ b ∷ c ∷ [])
        (sub (sub (add (add (var 0) (var 1)) (var 2)) (var 1)) (var 2)) (var 0) refl

  pub fourth_y-v2 :
      iy a ≢ nought
      → g a + v3 a (params_of d) r ≢ nought
      → value a (values a d r) (nth 4 Motion.y) ≡ v2 a (params_of d) r
  unfolding u3 value v3
  fourth_y-v2 iy≢ thrust≢ =
      let p = params_of d in
      let thrust = g a + v3 a p r in
      let env = values a d r in
      value_eq a ring env (nth 4 Motion.y) fourth_y fourth_y-Same
      ∙ ap
          (λ e.
            neg (u3 a p r / iy a * thrust)
            - int 2 * d.vdot_phi * value a env dot_lift
            - d.v_phi * e)
          (sym ddot_v3-lift)
      ∙ ap (λ e. neg (u3 a p r / iy a * thrust) - int 2 * d.vdot_phi * e - d.v_phi * ddot_v3 a p r)
          (sym dot_v3-lift)
      ∙ ap (λ e. e - int 2 * d.vdot_phi * dot_v3 a p r - d.v_phi * ddot_v3 a p r)
          (neg_gain_cancel a nought exact (iy a) thrust _ iy≢ thrust≢)
      ∙ add_add-sub_sub (v2 a p r) (int 2 * d.vdot_phi * dot_v3 a p r) (d.v_phi * ddot_v3 a p r)

  -- A force times an angle, over the mass.
  pub pushed : (angle b : F) → angle * (m a * b) / m a ≡ angle * b
  unfolding value crosswise
  pushed angle b =
      ap (λ e. e / m a)
        (value_eq a ring (angle ∷ m a ∷ b ∷ []) (mul (var 0) (mul (var 1) (var 2)))
          (mul (var 1) (mul (var 0) (var 2))) refl)
      ∙ mul_div_cancel (m a) (angle * b) m≢

  pub pushed_back : (angle b : F) → neg angle * (m a * b) / m a ≡ neg (angle * b)
  unfolding value crosswise
  pushed_back angle b =
      ap (λ e. e / m a)
        (value_eq a ring (angle ∷ m a ∷ b ∷ []) (mul (opposite (var 0)) (mul (var 1) (var 2)))
          (mul (var 1) (opposite (mul (var 0) (var 2)))) refl)
      ∙ mul_div_cancel (m a) (neg (angle * b)) m≢
