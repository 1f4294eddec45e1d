-- ===== src/Arith/Normal/Sound.antt =====
-- The normal form has the value of the formula.
use mathlib.Core.Path.{ap₂}
use quadrocopt.Base.{zero, suc, ◌≡◌, sym, ap, ◌∙◌, List, []}
use quadrocopt.Arith.{Arith}
use quadrocopt.Arith.Ring.{
  IsRing, eq-sub, sub-add-sub, sub-sub-sub, neg-sub, sub-mul-sub, sub-eq-sub,
}
use quadrocopt.Arith.Terms.{Term, var, num, add, sub, mul, opposite, var_value, value}
use quadrocopt.Arith.Normal.{
  Sum, sum, product, unit, Signed, signed_mul, signed_add, signed_neg, normal, crosswise,
}
use quadrocopt.Arith.Normal.Sums.{
  one_mul, monomial_value, monomial_value-nil, monomial_value-unit, sum_value, sum_value-sum,
  sum_value-product,
}

module _ {F D : Type 0} (a : Arith F D) (ring : IsRing a) (env : List F) where
  open a use {float, int}
  open float use {◌+◌, ◌-◌, ◌*◌, neg}
  open ring use {add_zero, mul_one}

  infixl 65 ◌+◌ ◌-◌
  infixl 70 ◌*◌
  signed_value : Signed → F
  signed_value p = sum_value a ring env p.plus - sum_value a ring env p.minus

  signed_value-add :
      (p q : Signed) → signed_value (signed_add p q) ≡ signed_value p + signed_value q
  unfolding signed_value signed_add
  signed_value-add p q =
      ap₂ (λ s t. s - t) (sum_value-sum a ring env p.plus q.plus)
        (sum_value-sum a ring env p.minus q.minus)
      ∙ sym (
          sub-add-sub a ring (sum_value a ring env p.plus) (sum_value a ring env p.minus)
            (sum_value a ring env q.plus) (sum_value a ring env q.minus))

  signed_value-sub :
      (p q : Signed) → signed_value (signed_add p (signed_neg q)) ≡ signed_value p - signed_value q
  unfolding signed_value signed_add signed_neg
  signed_value-sub p q =
      ap₂ (λ s t. s - t) (sum_value-sum a ring env p.plus q.minus)
        (sum_value-sum a ring env p.minus q.plus)
      ∙ sym (
          sub-sub-sub a ring (sum_value a ring env p.plus) (sum_value a ring env p.minus)
            (sum_value a ring env q.plus) (sum_value a ring env q.minus))

  signed_value-neg : (p : Signed) → signed_value (signed_neg p) ≡ neg (signed_value p)
  unfolding signed_value signed_neg
  signed_value-neg p =
      sym (neg-sub a ring (sum_value a ring env p.plus) (sum_value a ring env p.minus))

  products :
      (p q r s : Sum)
      → sum_value a ring env (sum (product p q) (product r s))
        ≡ sum_value a ring env p * sum_value a ring env q
          + sum_value a ring env r * sum_value a ring env s
  products p q r s =
      sum_value-sum a ring env (product p q) (product r s)
      ∙ ap₂ (λ x y. x + y) (sum_value-product a ring env p q) (sum_value-product a ring env r s)

  signed_value-mul :
      (p q : Signed) → signed_value (signed_mul p q) ≡ signed_value p * signed_value q
  unfolding signed_value signed_mul
  signed_value-mul p q =
      ap₂ (λ s t. s - t) (products p.plus q.plus p.minus q.minus)
        (products p.plus q.minus p.minus q.plus)
      ∙ sym (
          sub-mul-sub a ring (sum_value a ring env p.plus) (sum_value a ring env p.minus)
            (sum_value a ring env q.plus) (sum_value a ring env q.minus))

  value-normal : (t : Term) → value a env t ≡ signed_value (normal t)
  unfolding value normal signed_value sum_value
  value-normal (var i) = eq-sub a ring (
      add_zero (var_value a env i)
      ∙ sym (monomial_value-unit a ring env i)
      ∙ sym (one_mul a ring (monomial_value a ring env (unit i)))
      ∙ sym (add_zero (int 1 * monomial_value a ring env (unit i))))
  value-normal (num zero) = eq-sub a ring (add_zero (int 0))
  value-normal (num (suc n)) = eq-sub a ring (
      add_zero (int (suc n))
      ∙ sym (mul_one (int (suc n)))
      ∙ ap (λ t. int (suc n) * t) (sym (monomial_value-nil a ring env))
      ∙ sym (add_zero (int (suc n) * monomial_value a ring env [])))
  value-normal (add s t) =
      ap₂ (λ x y. x + y) (value-normal s) (value-normal t)
      ∙ sym (signed_value-add (normal s) (normal t))
  value-normal (sub s t) =
      ap₂ (λ x y. x - y) (value-normal s) (value-normal t)
      ∙ sym (signed_value-sub (normal s) (normal t))
  value-normal (mul s t) =
      ap₂ (λ x y. x * y) (value-normal s) (value-normal t)
      ∙ sym (signed_value-mul (normal s) (normal t))
  value-normal (opposite t) = ap neg (value-normal t) ∙ sym (signed_value-neg (normal t))

  -- Formulas with one normal form have one value.
  pub value_eq : (s t : Term) → crosswise s t ≡ crosswise t s → value a env s ≡ value a env t
  unfolding crosswise signed_value
  value_eq s t e =
      value-normal s
      ∙ sub-eq-sub a ring (
          sym (sum_value-sum a ring env (normal s).plus (normal t).minus)
          ∙ ap (sum_value a ring env) e
          ∙ sum_value-sum a ring env (normal t).plus (normal s).minus)
      ∙ sym (value-normal t)
