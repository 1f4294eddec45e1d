-- ===== src/Reference/Derivatives.antt =====
-- `tanRh` against the derivatives of its first result.
use quadrocopt.Base.{ℕ, zero, suc, ◌≡◌, refl, ◌∙◌, List, [], ◌∷◌}
use quadrocopt.Arith.{Arith}
use quadrocopt.Arith.Ring.{IsRing}
use quadrocopt.Arith.Terms.{Term, var, num, add, sub, mul, opposite, derivative, value}
use quadrocopt.Arith.Normal.{crosswise}
use quadrocopt.Arith.Normal.Sound.{value_eq}
use quadrocopt.Reference.{tan_rh, fourth}

-- The variables of the formulas: half the rise `aR`, `st`, `lowVal`, and `phi`, which is
-- tanh(st * (t - tRaise)).
abbrev half_rise : Term
half_rise = var 0

abbrev steepness : Term
steepness = var 1

abbrev low : Term
low = var 2

abbrev phi : Term
phi = var 3

-- In time the first three stand still, and `phi` moves by the chain rule with tanh' = 1 - tanh².
abbrev pub rate : ℕ → Term
rate (suc (suc (suc zero))) = mul steepness (sub (num 1) (mul phi phi))
rate _ = num 0

-- The trajectory, and its derivatives in time.
abbrev pub trajectory_term : ℕ → Term
trajectory_term zero = add (mul half_rise (add (num 1) phi)) low
trajectory_term (suc n) = derivative rate (trajectory_term n)

abbrev phi2_1 : Term
phi2_1 = sub (num 1) (mul phi phi)

abbrev st2 : Term
st2 = mul steepness steepness

abbrev st3 : Term
st3 = mul st2 steepness

abbrev st4 : Term
st4 = mul st3 steepness

-- The formulas of `tanRh`.
abbrev dotref_term : Term
dotref_term = mul (mul half_rise steepness) phi2_1

abbrev ddotref_term : Term
ddotref_term = mul (mul (mul (mul (num 2) half_rise) st2) phi) phi2_1

abbrev d3dotref_term : Term
d3dotref_term =
    mul (mul (mul (mul (opposite (num 2)) half_rise) st3) phi2_1)
      (sub (num 1) (mul (mul (num 3) phi) phi))

abbrev d4dotref_term : Term
d4dotref_term =
    mul (mul (mul (mul (num 8) half_rise) st4) phi) (
      add (sub (mul (num 3) (mul (mul (mul phi phi) phi) phi)) (mul (mul (num 5) phi) phi)) (num 2))

first : crosswise dotref_term (trajectory_term 1) ≡ crosswise (trajectory_term 1) dotref_term
unfolding crosswise derivative
first = refl

second :
    crosswise (opposite ddotref_term) (trajectory_term 2)
    ≡ crosswise (trajectory_term 2) (opposite ddotref_term)
unfolding crosswise derivative
second = refl

third : crosswise d3dotref_term (trajectory_term 3) ≡ crosswise (trajectory_term 3) d3dotref_term
unfolding crosswise derivative
third = refl

last : crosswise d4dotref_term (trajectory_term 4) ≡ crosswise (trajectory_term 4) d4dotref_term
unfolding crosswise derivative
last = refl

module _ {F D : Type 0} (a : Arith F D) where
  open a use {float, widen, narrow, int, tanh}
  open float use {◌-◌, ◌*◌, ◌/◌}

  infixl 65 ◌-◌
  infixl 70 ◌*◌ ◌/◌
  -- What the variables of the formulas are in a call of `tanRh`.
  abbrev pub values : (t st low_val high_val t_raise : F) → List F
  values t st low_val high_val t_raise =
      (high_val - low_val) / int 2 ∷ st ∷ low_val ∷ narrow (tanh (widen (st * (t - t_raise)))) ∷ []

module _ {F D : Type 0} (a : Arith F D) (ring : IsRing a) where
  open a use {float, int}
  open float use {◌+◌, ◌-◌, ◌*◌, neg}
  open ring use {narrow_widen, widen_add, widen_sub, widen_mul, pow_four}

  infixl 65 ◌+◌ ◌-◌
  infixl 70 ◌*◌
  -- The factor that is computed in `double`.
  fourth-exact :
      (ar s x : F)
      → fourth a ar s x ≡ int 8 * ar * s * x * (int 3 * (x * x * x * x) - int 5 * x * x + int 2)
  fourth-exact ar s x = cc (
    pow_four x,
    widen_mul (int 3) (x * x * x * x),
    widen_sub (int 3 * (x * x * x * x)) (int 5 * x * x),
    widen_add (int 3 * (x * x * x * x) - int 5 * x * x) (int 2),
    widen_mul (int 8 * ar * s * x) (int 3 * (x * x * x * x) - int 5 * x * x + int 2),
    narrow_widen (int 8 * ar * s * x * (int 3 * (x * x * x * x) - int 5 * x * x + int 2)),
  )

  -- In exact arithmetic, whatever tanh computes: with phi for its value and the derivative of phi
  -- that the chain rule gives from tanh' = 1 - tanh², the results of tanRh are the trajectory, its
  -- first derivative, the opposite of its second derivative, and its third and fourth derivatives.
  pub tan_rh-derivatives :
      (t st low_val high_val t_raise : F)
      → let r = tan_rh a t st low_val high_val t_raise in
        let v = values a t st low_val high_val t_raise in
        (r.ref ≡ value a v (trajectory_term 0))
        × (r.dotref ≡ value a v (trajectory_term 1))
        × (neg r.ddotref ≡ value a v (trajectory_term 2))
        × (r.d3dotref ≡ value a v (trajectory_term 3))
        × (r.d4dotref ≡ value a v (trajectory_term 4))
  unfolding tan_rh value
  tan_rh-derivatives t st low_val high_val t_raise =
      let v = values a t st low_val high_val t_raise in
      (
        refl,
        value_eq a ring v dotref_term (trajectory_term 1) first,
        value_eq a ring v (opposite ddotref_term) (trajectory_term 2) second,
        value_eq a ring v d3dotref_term (trajectory_term 3) third,
        fourth-exact _ _ _ ∙ value_eq a ring v d4dotref_term (trajectory_term 4) last,
      )
