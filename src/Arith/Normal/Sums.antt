-- ===== src/Arith/Normal/Sums.antt =====
-- The values of sums of multiples of products.
use mathlib.Core.Path.{ap₂}
use quadrocopt.Base.{
  ℕ, zero, suc, ◌≡◌, refl, sym, ap, ◌∙◌, true, List, [], ◌∷◌, arith, Bool-cases, inl, inr,
}
use quadrocopt.Base as Base
use quadrocopt.Arith.{Arith}
use quadrocopt.Arith.Ring.{IsRing, add_left_comm, zero_add, mul_zero, add_mul}
use quadrocopt.Arith.Terms.{var_value}
use quadrocopt.Arith.Normal.{Monomial, Sum, same, before, times, insert, sum, scaled, product, unit}

same-eq : (k m : Monomial) → same k m ≡ true → k ≡ m
unfolding same
same-eq [] [] e = refl
same-eq [] (x ∷ m) e = cc
same-eq (d ∷ k) [] e = cc
same-eq (d ∷ k) (x ∷ m) e = ground (arith, same-eq k m)

module _ {F D : Type 0} (a : Arith F D) (ring : IsRing a) where
  open a use {float, int}
  open float use {◌+◌, ◌-◌, ◌*◌, neg}
  open ring use {
    add_comm, add_assoc, add_zero, mul_comm, mul_assoc, mul_one, mul_add, int_add, int_mul,
  }

  infixl 65 ◌+◌ ◌-◌
  infixl 70 ◌*◌
  pub power : F → ℕ → F
  power x zero = int 1
  power x (suc n) = x * power x n

  pub one_mul : (x : F) → int 1 * x ≡ x
  one_mul x = mul_comm (int 1) x ∙ mul_one x

  pub zero_mul : (x : F) → int 0 * x ≡ int 0
  zero_mul x = mul_comm (int 0) x ∙ mul_zero a ring x

  mul_left_comm : (x y z : F) → x * (y * z) ≡ y * (x * z)
  mul_left_comm x y z = sym (mul_assoc x y z) ∙ ap (λ t. t * z) (mul_comm x y) ∙ mul_assoc y x z

  mul_interchange : (x y z w : F) → x * y * (z * w) ≡ x * z * (y * w)
  mul_interchange x y z w =
      mul_assoc x y (z * w) ∙ ap (λ t. x * t) (mul_left_comm y z w) ∙ sym (mul_assoc x z (y * w))

  power-add : (x : F) (m n : ℕ) → power x (Base.◌+◌ m n) ≡ power x m * power x n
  unfolding power
  power-add x zero n =
      let e : Base.◌+◌ zero n ≡ n = omega arith in ap (power x) e ∙ sym (one_mul (power x n))
  power-add x (suc m) n =
      let e : Base.◌+◌ (suc m) n ≡ suc (Base.◌+◌ m n) = omega arith in
      ap (power x) e ∙ ap (λ t. x * t) (power-add x m n) ∙ sym (mul_assoc x (power x m) (power x n))

  pub monomial_value : List F → Monomial → F
  monomial_value [] m = int 1
  monomial_value (x ∷ env) [] = int 1
  monomial_value (x ∷ env) (e ∷ m) = power x e * monomial_value env m

  pub monomial_value-nil : (env : List F) → monomial_value env [] ≡ int 1
  unfolding monomial_value
  monomial_value-nil [] = refl
  monomial_value-nil (x ∷ env) = refl

  monomial_value-times :
      (env : List F) (k m : Monomial)
      → monomial_value env (times k m) ≡ monomial_value env k * monomial_value env m
  unfolding monomial_value times
  monomial_value-times [] k m = sym (one_mul (int 1))
  monomial_value-times (x ∷ env) [] m = sym (one_mul (monomial_value (x ∷ env) m))
  monomial_value-times (x ∷ env) (d ∷ k) [] = sym (mul_one (monomial_value (x ∷ env) (d ∷ k)))
  monomial_value-times (x ∷ env) (d ∷ k) (e ∷ m) =
      ap₂ (λ s t. s * t) (power-add x d e) (monomial_value-times env k m)
      ∙ mul_interchange (power x d) (power x e) (monomial_value env k) (monomial_value env m)

  pub monomial_value-unit : (env : List F) (i : ℕ) → monomial_value env (unit i) ≡ var_value a env i
  unfolding monomial_value unit power
  monomial_value-unit [] i = refl
  monomial_value-unit (x ∷ env) zero =
      ap (λ t. x * int 1 * t) (monomial_value-nil env) ∙ mul_one (x * int 1) ∙ mul_one x
  monomial_value-unit (x ∷ env) (suc i) =
      one_mul (monomial_value env (unit i)) ∙ monomial_value-unit env i

  module _ (env : List F) where
    unfoldable pub sum_value : Sum → F
    sum_value [] = int 0
    sum_value ((c, m) ∷ p) = int c * monomial_value env m + sum_value p

    sum_value-insert :
        (c : ℕ) (m : Monomial) (p : Sum)
        → sum_value (insert c m p) ≡ int c * monomial_value env m + sum_value p
    unfolding sum_value insert
    sum_value-insert c m [] = refl
    sum_value-insert c m ((d, k) ∷ p) = elim (Bool-cases (same m k)) [
      | inl eq ↦
          let v : F = monomial_value env k in
          rw (eq, same-eq m k eq)
            (ap (λ t. t * v + sum_value p) (int_add c d)
              ∙ ap (λ t. t + sum_value p) (add_mul a ring (int c) (int d) v)
              ∙ add_assoc (int c * v) (int d * v) (sum_value p))
      | inr ne ↦ elim (Bool-cases (before m k)) [
        | inl first ↦ rw (ne, first) refl
        | inr later ↦
            rw (ne, later)
              (ap (λ t. int d * monomial_value env k + t) (sum_value-insert c m p)
                ∙ add_left_comm a ring (int d * monomial_value env k) (int c * monomial_value env m)
                    (sum_value p))
      ]
    ]

    pub sum_value-sum : (p q : Sum) → sum_value (sum p q) ≡ sum_value p + sum_value q
    unfolding sum_value sum
    sum_value-sum [] q = sym (zero_add a ring (sum_value q))
    sum_value-sum ((c, m) ∷ p) q =
        sum_value-insert c m (sum p q)
        ∙ ap (λ t. int c * monomial_value env m + t) (sum_value-sum p q)
        ∙ sym (add_assoc (int c * monomial_value env m) (sum_value p) (sum_value q))

    sum_value-scaled :
        (c : ℕ) (m : Monomial) (q : Sum)
        → sum_value (scaled c m q) ≡ int c * monomial_value env m * sum_value q
    unfolding sum_value scaled
    sum_value-scaled c m [] = sym (mul_zero a ring (int c * monomial_value env m))
    sum_value-scaled c m ((d, k) ∷ q) =
        sum_value-insert (Base.◌*◌ c d) (times m k) (scaled c m q)
        ∙ ap₂ (λ s t. s + t)
            (ap₂ (λ s t. s * t) (int_mul c d) (monomial_value-times env m k)
              ∙ mul_interchange (int c) (int d) (monomial_value env m) (monomial_value env k))
            (sum_value-scaled c m q)
        ∙ sym (mul_add (int c * monomial_value env m) (int d * monomial_value env k) (sum_value q))

    pub sum_value-product : (p q : Sum) → sum_value (product p q) ≡ sum_value p * sum_value q
    unfolding sum_value product
    sum_value-product [] q = sym (zero_mul (sum_value q))
    sum_value-product ((c, m) ∷ p) q =
        sum_value-sum (scaled c m q) (product p q)
        ∙ ap₂ (λ s t. s + t) (sum_value-scaled c m q) (sum_value-product p q)
        ∙ sym (add_mul a ring (int c * monomial_value env m) (sum_value p) (sum_value q))
