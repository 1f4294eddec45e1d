-- ===== src/ClosedLoop/Errors.antt =====
-- What the control law makes of the errors of position, height and heading.
use quadrocopt.Base.{ℕ, ◌≡◌, ◌≢◌, refl, ap, ◌∙◌, [], ◌∷◌}
use quadrocopt.Arith.{Arith}
use quadrocopt.Arith.Exact.{IsExact}
use quadrocopt.Arith.Ring.{IsRing}
use quadrocopt.Arith.Terms.{Term, var, num, add, sub, mul, opposite, derivative, value}
use quadrocopt.Arith.Normal.{crosswise}
use quadrocopt.Arith.Normal.Sound.{value_eq}
use quadrocopt.Reference.{RefTraj}
use quadrocopt.Client.CalcData.{CalculatorData}
use quadrocopt.Server.Control.{m, g, ix, iy, v1, v2, v3, v4, u1, dot_u1, dot_v3}
use quadrocopt.ClosedLoop.Commands.{params_of, values}
use quadrocopt.ClosedLoop.Fourth.{pushed, dot_v3-lift, fourth_x-v1, fourth_y-v2}
use quadrocopt.ClosedLoop.Motion.{
  x, y, z, theta, dot_theta, phi, dot_phi, psy, ref, ddotref, d3dotref, d4dotref, axis, nth,
}
use quadrocopt.ClosedLoop.Formulas.{Same, dot_lift}

-- The law over an error, its first three derivatives, and the fourth derivative of the trajectory.
abbrev law : (e f g h : Term) → Term
law e f g h =
    sub (sub (sub (sub d4dotref (mul (num 810000) e)) (mul (num 108000) f)) (mul (num 5400) g))
      (mul (num 120) h)

-- A derivative with 30 times the value added: (d/dt + 30).
abbrev pub pole : ℕ → Term → Term
pole n t = add (nth 1 t) (mul (num n) t)

abbrev pub x_error : Term
x_error = sub x ref

abbrev pub y_error : Term
y_error = sub y ref

-- The third derivatives of x and y as the code has them.
abbrev third_x : Term
third_x = add (mul dot_theta axis) (mul theta dot_lift)

abbrev third_y : Term
third_y = opposite (add (mul dot_phi axis) (mul phi dot_lift))

abbrev law_x : Term
law_x = law x_error (nth 1 x_error) (sub (mul theta axis) ddotref) (sub third_x d3dotref)

abbrev law_y : Term
law_y = law y_error (nth 1 y_error) (sub (opposite (mul phi axis)) ddotref) (sub third_y d3dotref)

-- Four poles at -30, by the error and the law for its fourth derivative.
abbrev pub four_poles : Term → Term
four_poles e = pole 30 (pole 30 (pole 30 (pole 30 e)))

-- The same, over the fourth derivative and the rest.
abbrev expanded : (e fourth : Term) → Term
expanded e fourth =
    add
      (add (add (add fourth (mul (num 120) (nth 3 e))) (mul (num 5400) (nth 2 e)))
        (mul (num 108000) (nth 1 e)))
      (mul (num 810000) e)

x_expanded : Same (four_poles x_error) (expanded x_error (sub (nth 4 x) d4dotref))
unfolding crosswise derivative
x_expanded = refl

y_expanded : Same (four_poles y_error) (expanded y_error (sub (nth 4 y) d4dotref))
unfolding crosswise derivative
y_expanded = refl

x_law : Same (expanded x_error (sub law_x d4dotref)) (num 0)
unfolding crosswise derivative
x_law = refl

y_law : Same (expanded y_error (sub law_y d4dotref)) (num 0)
unfolding crosswise derivative
y_law = refl

-- A second derivative, with a gain times the first and the same times the value.
abbrev pub damped : (gain : ℕ) → Term → Term
damped gain e = add (add (nth 2 e) (mul (num gain) (nth 1 e))) (mul (num gain) e)

z_law : Same (damped 30 (sub z ref)) (num 0)
unfolding crosswise derivative
z_law = refl

psy_law : Same (damped 125 (sub psy ref)) (num 0)
unfolding crosswise derivative
psy_law = refl

module _ {F D : Type 0} (a : Arith F D) (nought : F) (exact : IsExact a.float nought)
    (ring : IsRing a) (d : CalculatorData F) (r : RefTraj F) (m≢ : m a ≢ nought) where
  open a use {float, int}
  open float use {◌+◌, ◌-◌, ◌*◌, ◌/◌, neg}
  open exact use {mul_div_cancel}

  infixl 65 ◌+◌ ◌-◌
  infixl 70 ◌*◌ ◌/◌
  -- Two forces times angles, over the mass.
  both_pushed : (s t b c : F) → (s * (m a * b) + t * (m a * c)) / m a ≡ s * b + t * c
  unfolding value crosswise
  both_pushed s t b c =
      ap (λ e. e / m a)
        (value_eq a ring (s ∷ t ∷ m a ∷ b ∷ c ∷ [])
          (add (mul (var 0) (mul (var 2) (var 3))) (mul (var 1) (mul (var 2) (var 4))))
          (mul (var 2) (add (mul (var 0) (var 3)) (mul (var 1) (var 4)))) refl)
      ∙ mul_div_cancel (m a) (s * b + t * c) m≢

  neg_over : (b : F) → neg (m a * b) / m a ≡ neg b
  unfolding value crosswise
  neg_over b =
      ap (λ e. e / m a)
        (value_eq a ring (m a ∷ b ∷ []) (opposite (mul (var 0) (var 1)))
          (mul (var 0) (opposite (var 1))) refl)
      ∙ mul_div_cancel (m a) (neg b) m≢

  pushed_neg : (t b : F) → neg (t * (m a * b)) / m a ≡ neg (t * b)
  unfolding value crosswise
  pushed_neg t b =
      ap (λ e. neg e / m a)
        (value_eq a ring (t ∷ m a ∷ b ∷ []) (mul (var 0) (mul (var 1) (var 2)))
          (mul (var 1) (mul (var 0) (var 2))) refl)
      ∙ neg_over (t * b)

  both_pushed_neg : (s t b c : F) → neg (s * (m a * b) + t * (m a * c)) / m a ≡ neg (s * b + t * c)
  unfolding value crosswise
  both_pushed_neg s t b c =
      ap (λ e. neg e / m a)
        (value_eq a ring (s ∷ t ∷ m a ∷ b ∷ c ∷ [])
          (add (mul (var 0) (mul (var 2) (var 3))) (mul (var 1) (mul (var 2) (var 4))))
          (mul (var 2) (add (mul (var 0) (var 3)) (mul (var 1) (var 4)))) refl)
      ∙ neg_over (s * b + t * c)

  v1-law : v1 a (params_of d) r ≡ value a (values a d r) law_x
  unfolding v1 u1 dot_u1 v3 value derivative
  v1-law =
      let p = params_of d in
      let thrust = g a + v3 a p r in
      let lower : F =
        r.d4dotref - int 810000 * (d.v_x - r.ref) - int 108000 * (d.vdot_x - r.dotref) in
      ap
        (λ e.
          lower
          - int 5400 * (e - r.ddotref)
          - int 120
            * ((d.vdot_theta * (m a * thrust) + d.v_theta * (m a * dot_v3 a p r)) / m a
                - r.d3dotref))
        (pushed a nought exact ring d r m≢ d.v_theta thrust)
      ∙ ap (λ e. lower - int 5400 * (d.v_theta * thrust - r.ddotref) - int 120 * (e - r.d3dotref))
          (both_pushed d.vdot_theta d.v_theta thrust (dot_v3 a p r)
            ∙ ap (λ e. d.vdot_theta * thrust + d.v_theta * e)
                (dot_v3-lift a nought exact ring d r m≢))

  v2-law : v2 a (params_of d) r ≡ value a (values a d r) law_y
  unfolding v2 u1 dot_u1 v3 value derivative
  v2-law =
      let p = params_of d in
      let thrust = g a + v3 a p r in
      let lower : F =
        r.d4dotref - int 810000 * (d.v_y - r.ref) - int 108000 * (d.vdot_y - r.dotref) in
      ap
        (λ e.
          lower
          - int 5400 * (e - r.ddotref)
          - int 120
            * (neg (d.vdot_phi * (m a * thrust) + d.v_phi * (m a * dot_v3 a p r)) / m a
                - r.d3dotref))
        (pushed_neg d.v_phi thrust)
      ∙ ap
          (λ e.
            lower - int 5400 * (neg (d.v_phi * thrust) - r.ddotref) - int 120 * (e - r.d3dotref))
          (both_pushed_neg d.vdot_phi d.v_phi thrust (dot_v3 a p r)
            ∙ ap (λ e. neg (d.vdot_phi * thrust + d.v_phi * e))
                (dot_v3-lift a nought exact ring d r m≢))

  -- In exact arithmetic, with a mass, moments of inertia and a thrust that are not nought, for any
  -- state and any five numbers r as the trajectory, along the motion of closed_loop, where each of
  -- the numbers of r has the next one as its derivative: the errors of x and of y obey
  -- (d/dt + 30)⁴ e = 0, the error of z obeys e'' + 30 e' + 30 e = 0, with v3 for the acceleration, and
  -- that of psy e'' + 125 e' + 125 e = 0, with v4 for it.
  pub errors_vanish :
      ix a ≢ nought
      → iy a ≢ nought
      → g a + v3 a (params_of d) r ≢ nought
      → let p = params_of d in
        let env = values a d r in
        (value a env (four_poles x_error) ≡ int 0)
        × (value a env (four_poles y_error) ≡ int 0)
        × ((v3 a p r - r.ddotref) + int 30 * (d.vdot_z - r.dotref) + int 30 * (d.v_z - r.ref)
            ≡ int 0)
        × ((v4 a p r - r.ddotref) + int 125 * (d.vdot_psy - r.dotref) + int 125 * (d.v_psy - r.ref)
            ≡ int 0)
  unfolding v3 v4 value derivative
  errors_vanish ix≢ iy≢ thrust≢ =
      let env = values a d r in
      let rest : Term → F → F = λ e fourth.
        (fourth - r.d4dotref)
        + int 120 * value a env (nth 3 e)
        + int 5400 * value a env (nth 2 e)
        + int 108000 * value a env (nth 1 e)
        + int 810000 * value a env e in
      (
        value_eq a ring env (four_poles x_error) (expanded x_error (sub (nth 4 x) d4dotref))
              x_expanded
            ∙ ap (rest x_error) (fourth_x-v1 a nought exact ring d r m≢ ix≢ thrust≢ ∙ v1-law)
            ∙ value_eq a ring env (expanded x_error (sub law_x d4dotref)) (num 0) x_law,
        value_eq a ring env (four_poles y_error) (expanded y_error (sub (nth 4 y) d4dotref))
              y_expanded
            ∙ ap (rest y_error) (fourth_y-v2 a nought exact ring d r m≢ iy≢ thrust≢ ∙ v2-law)
            ∙ value_eq a ring env (expanded y_error (sub law_y d4dotref)) (num 0) y_law,
        value_eq a ring env (damped 30 (sub z ref)) (num 0) z_law,
        value_eq a ring env (damped 125 (sub psy ref)) (num 0) psy_law,
      )
