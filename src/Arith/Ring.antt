-- ===== src/Arith/Ring.antt =====
-- The laws of a commutative ring for the arithmetic of C, with whole numbers in it, and with `float`
-- inside `double`. Exact arithmetic has them; rounded arithmetic has them only approximately.
use mathlib.Core.Path.{ap₂}
use quadrocopt.Base.{ℕ, ◌≡◌, ◌∙◌, sym, ap}
use quadrocopt.Base as Base
use quadrocopt.Arith.{Arith}

module _ {F D : Type 0} (a : Arith F D) where
  open a use {float, double, widen, narrow, int, pow}
  open float use {◌+◌, ◌-◌, ◌*◌, neg}

  infixl 65 ◌+◌ ◌-◌
  infixl 70 ◌*◌
  pub record IsRing : Type 0 where
    pub add_comm : (x y : F) → x + y ≡ y + x
    pub add_assoc : (x y z : F) → x + y + z ≡ x + (y + z)
    pub add_zero : (x : F) → x + int 0 ≡ x
    pub mul_comm : (x y : F) → x * y ≡ y * x
    pub mul_assoc : (x y z : F) → x * y * z ≡ x * (y * z)
    pub mul_one : (x : F) → x * int 1 ≡ x
    pub mul_add : (x y z : F) → x * (y + z) ≡ x * y + x * z
    pub sub_add : (x y : F) → x - y + y ≡ x
    pub neg_add : (x : F) → neg x + x ≡ int 0
    pub int_add : (m n : ℕ) → int (Base.◌+◌ m n) ≡ int m + int n
    pub int_mul : (m n : ℕ) → int (Base.◌*◌ m n) ≡ int m * int n
    pub narrow_widen : (x : F) → narrow (widen x) ≡ x
    pub widen_add : (x y : F) → double.◌+◌ (widen x) (widen y) ≡ widen (x + y)
    pub widen_sub : (x y : F) → double.◌-◌ (widen x) (widen y) ≡ widen (x - y)
    pub widen_mul : (x y : F) → double.◌*◌ (widen x) (widen y) ≡ widen (x * y)
    pub pow_four : (x : F) → pow (widen x) (widen (int 4)) ≡ widen (x * x * x * x)

  module _ (ring : IsRing) where
    open ring use {add_comm, add_assoc, add_zero, mul_comm, mul_add, sub_add, neg_add}

    pub add_cancel : (x y z : F) → x + z ≡ y + z → x ≡ y
    add_cancel x y z e = sym (undo x) ∙ ap (λ t. t + neg z) e ∙ undo y
      where
        undo : (t : F) → t + z + neg z ≡ t
        undo t =
            add_assoc t z (neg z) ∙ ap (λ s. t + s) (add_comm z (neg z) ∙ neg_add z) ∙ add_zero t

    pub add_left_comm : (x y z : F) → x + (y + z) ≡ y + (x + z)
    add_left_comm x y z = sym (add_assoc x y z) ∙ ap (λ t. t + z) (add_comm x y) ∙ add_assoc y x z

    pub add_interchange : (x y z w : F) → x + y + (z + w) ≡ x + z + (y + w)
    add_interchange x y z w =
        add_assoc x y (z + w) ∙ ap (λ t. x + t) (add_left_comm y z w) ∙ sym (add_assoc x z (y + w))

    pub zero_add : (x : F) → int 0 + x ≡ x
    zero_add x = add_comm (int 0) x ∙ add_zero x

    pub mul_zero : (x : F) → x * int 0 ≡ int 0
    mul_zero x = add_cancel (x * int 0) (int 0) (x * int 0) (
        sym (mul_add x (int 0) (int 0))
        ∙ ap (λ t. x * t) (add_zero (int 0))
        ∙ sym (zero_add (x * int 0)))

    pub add_mul : (x y z : F) → (x + y) * z ≡ x * z + y * z
    add_mul x y z =
        mul_comm (x + y) z ∙ mul_add z x y ∙ ap₂ (λ s t. s + t) (mul_comm z x) (mul_comm z y)

    -- What a difference is, and how differences are put together.
    pub eq-sub : {x p n : F} → x + n ≡ p → x ≡ p - n
    eq-sub {x} {p} {n} e = add_cancel x (p - n) n (e ∙ sym (sub_add p n))

    pub sub-add-sub : (p n q m : F) → (p - n) + (q - m) ≡ (p + q) - (n + m)
    sub-add-sub p n q m =
        eq-sub
          (add_interchange (p - n) (q - m) n m ∙ ap₂ (λ s t. s + t) (sub_add p n) (sub_add q m))

    pub sub-sub-sub : (p n q m : F) → (p - n) - (q - m) ≡ (p + m) - (n + q)
    sub-sub-sub p n q m = eq-sub (
        ap (λ t. (p - n) - (q - m) + (n + t)) (sym (sub_add q m))
        ∙ ap (λ t. (p - n) - (q - m) + t) (add_left_comm n (q - m) m)
        ∙ sym (add_assoc ((p - n) - (q - m)) (q - m) (n + m))
        ∙ ap (λ t. t + (n + m)) (sub_add (p - n) (q - m))
        ∙ sym (add_assoc (p - n) n m)
        ∙ ap (λ t. t + m) (sub_add p n))

    pub neg-sub : (p n : F) → neg (p - n) ≡ n - p
    neg-sub p n = eq-sub (
        ap (λ t. neg (p - n) + t) (sym (sub_add p n))
        ∙ sym (add_assoc (neg (p - n)) (p - n) n)
        ∙ ap (λ t. t + n) (neg_add (p - n))
        ∙ zero_add n)

    pub sub-mul-sub : (p n q m : F) → (p - n) * (q - m) ≡ (p * q + n * m) - (p * m + n * q)
    sub-mul-sub p n q m = eq-sub (
        ap (λ t. (p - n) * (q - m) + (p * m + n * t)) (sym (sub_add q m))
        ∙ ap (λ t. (p - n) * (q - m) + (p * m + t)) (mul_add n (q - m) m)
        ∙ ap (λ t. (p - n) * (q - m) + t) (add_left_comm (p * m) (n * (q - m)) (n * m))
        ∙ sym (add_assoc ((p - n) * (q - m)) (n * (q - m)) (p * m + n * m))
        ∙ ap (λ t. t + (p * m + n * m))
            (sym (add_mul (p - n) n (q - m)) ∙ ap (λ t. t * (q - m)) (sub_add p n))
        ∙ sym (add_assoc (p * (q - m)) (p * m) (n * m))
        ∙ ap (λ t. t + n * m) (sym (mul_add p (q - m) m) ∙ ap (λ t. p * t) (sub_add q m)))

    pub sub-eq-sub : {p n q m : F} → p + m ≡ q + n → p - n ≡ q - m
    sub-eq-sub {p} {n} {q} {m} e = eq-sub (
        add_cancel (p - n + m) q n (
          add_assoc (p - n) m n
          ∙ ap (λ t. p - n + t) (add_comm m n)
          ∙ sym (add_assoc (p - n) n m)
          ∙ ap (λ t. t + m) (sub_add p n)
          ∙ e))
