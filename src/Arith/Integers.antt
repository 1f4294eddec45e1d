-- ===== src/Arith/Integers.antt =====
-- The integers as an arithmetic that is exact, in which the formulas of the code can be run. Their
-- quotient is the first argument, since nothing is asked of it.
use quadrocopt.Base.{ℕ, suc, ◌+◌, ◌-◌, ◌*◌, ◌≡◌, refl, ap, arith, leb, if◌then◌else◌}
use quadrocopt.Arith.{Ops, Arith}
use quadrocopt.Arith.Ring.{IsRing}

-- `negsuc n` is -(n + 1).
pub data ℤ : Type 0 where
  pos : ℕ → ℤ
  negsuc : ℕ → ℤ

abbrev pos_part : ℤ → ℕ
pos_part (pos n) = n
pos_part (negsuc n) = 0

abbrev neg_part : ℤ → ℕ
neg_part (pos n) = 0
neg_part (negsuc n) = suc n

abbrev pub sub_ℕ : ℕ → ℕ → ℤ
sub_ℕ a b = if leb b a then pos (a - b) else negsuc (b - a - 1)

infixl 65 ◌+ℤ◌ ◌-ℤ◌
infixl 70 ◌*ℤ◌
unfoldable pub ◌+ℤ◌ : ℤ → ℤ → ℤ
a +ℤ b = sub_ℕ (pos_part a + pos_part b) (neg_part a + neg_part b)

unfoldable pub ◌-ℤ◌ : ℤ → ℤ → ℤ
a -ℤ b = sub_ℕ (pos_part a + neg_part b) (neg_part a + pos_part b)

unfoldable pub ◌*ℤ◌ : ℤ → ℤ → ℤ
pos m *ℤ pos n = pos (m * n)
pos m *ℤ negsuc n = sub_ℕ 0 (m * suc n)
negsuc m *ℤ pos n = sub_ℕ 0 (suc m * n)
negsuc m *ℤ negsuc n = pos (suc m * suc n)

eq_of_parts : (a b : ℤ) → pos_part a + neg_part b ≡ pos_part b + neg_part a → a ≡ b
eq_of_parts a b h = ground arith

+ℤ_parts :
    (a b : ℤ)
    → pos_part (a +ℤ b) + (neg_part a + neg_part b) ≡ neg_part (a +ℤ b) + (pos_part a + pos_part b)
unfolding ◌+ℤ◌
+ℤ_parts a b = ground arith

-ℤ_parts :
    (a b : ℤ)
    → pos_part (a -ℤ b) + (neg_part a + pos_part b) ≡ neg_part (a -ℤ b) + (pos_part a + neg_part b)
unfolding ◌-ℤ◌
-ℤ_parts a b = ground arith

pos_part-*ℤ : (a b : ℤ) → pos_part (a *ℤ b) ≡ pos_part a * pos_part b + neg_part a * neg_part b
unfolding ◌*ℤ◌
pos_part-*ℤ a b = ground arith

neg_part-*ℤ : (a b : ℤ) → neg_part (a *ℤ b) ≡ pos_part a * neg_part b + neg_part a * pos_part b
unfolding ◌*ℤ◌
neg_part-*ℤ a b = ground arith

ruleset products = (pos_part-*ℤ, neg_part-*ℤ)

+ℤ_comm : (a b : ℤ) → a +ℤ b ≡ b +ℤ a
+ℤ_comm a b = eq_of_parts _ _ (omega (arith, +ℤ_parts))

+ℤ_assoc : (a b c : ℤ) → a +ℤ b +ℤ c ≡ a +ℤ (b +ℤ c)
+ℤ_assoc a b c = eq_of_parts _ _ (omega (arith, +ℤ_parts))

+ℤ_zero : (a : ℤ) → a +ℤ pos 0 ≡ a
+ℤ_zero a = eq_of_parts _ _ (omega (arith, +ℤ_parts))

*ℤ_comm : (a b : ℤ) → a *ℤ b ≡ b *ℤ a
*ℤ_comm a b = eq_of_parts _ _ (simp products (omega arith))

*ℤ_assoc : (a b c : ℤ) → a *ℤ b *ℤ c ≡ a *ℤ (b *ℤ c)
*ℤ_assoc a b c = eq_of_parts _ _ (simp products (omega arith))

*ℤ_one : (a : ℤ) → a *ℤ pos 1 ≡ a
*ℤ_one a = eq_of_parts _ _ (simp products (omega arith))

*ℤ-+ℤ : (a b c : ℤ) → a *ℤ (b +ℤ c) ≡ a *ℤ b +ℤ a *ℤ c
*ℤ-+ℤ a b c = eq_of_parts _ _ (
    omega (
      arith,
      products,
      +ℤ_parts (a *ℤ b) (a *ℤ c),
      ap (λ (t : ℕ). pos_part a * t) (+ℤ_parts b c),
      ap (λ (t : ℕ). neg_part a * t) (+ℤ_parts b c),
    ))

-ℤ-+ℤ : (a b : ℤ) → a -ℤ b +ℤ b ≡ a
-ℤ-+ℤ a b = eq_of_parts _ _ (omega (arith, +ℤ_parts (a -ℤ b) b, -ℤ_parts a b))

neg-+ℤ : (a : ℤ) → pos 0 -ℤ a +ℤ a ≡ pos 0
neg-+ℤ a = -ℤ-+ℤ (pos 0) a

pos-+ : (m n : ℕ) → pos (m + n) ≡ pos m +ℤ pos n
unfolding ◌+ℤ◌
pos-+ m n = ground arith

pos-* : (m n : ℕ) → pos (m * n) ≡ pos m *ℤ pos n
unfolding ◌*ℤ◌
pos-* m n = refl

abbrev integers : Ops ℤ
integers = record {
  ◌+◌ = λ a b. a +ℤ b;
  ◌-◌ = λ a b. a -ℤ b;
  ◌*◌ = λ a b. a *ℤ b;
  ◌/◌ = λ a b. a;
  neg = λ a. pos 0 -ℤ a;
}

-- `tanh` is the identity, and `pow` the fourth power, the only one that is taken.
abbrev pub integer_arith : Arith ℤ ℤ
integer_arith = record {
  float = integers;
  double = integers;
  widen = λ a. a;
  narrow = λ a. a;
  decimal = λ n k. pos n;
  int = pos;
  tanh = λ a. a;
  pow = λ a b. a *ℤ a *ℤ a *ℤ a;
}

pub integer_arith-IsRing : IsRing integer_arith
integer_arith-IsRing = record {
  add_comm = +ℤ_comm;
  add_assoc = +ℤ_assoc;
  add_zero = +ℤ_zero;
  mul_comm = *ℤ_comm;
  mul_assoc = *ℤ_assoc;
  mul_one = *ℤ_one;
  mul_add = *ℤ-+ℤ;
  sub_add = -ℤ-+ℤ;
  neg_add = neg-+ℤ;
  int_add = pos-+;
  int_mul = pos-*;
  narrow_widen = λ x. refl;
  widen_add = λ x y. refl;
  widen_sub = λ x y. refl;
  widen_mul = λ x y. refl;
  pow_four = λ x. refl;
}
