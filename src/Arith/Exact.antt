-- ===== src/Arith/Exact.antt =====
-- What holds of exact arithmetic: cancellations of a field. Rounded arithmetic has them only
-- approximately, so what is proved from them is about the formulas and not about rounding.
use quadrocopt.Base.{◌≡◌, ◌≢◌}
use quadrocopt.Arith.{Ops}

module _ {A : Type 0} (o : Ops A) where
  open o use {◌+◌, ◌-◌, ◌*◌, ◌/◌, neg}

  infixl 65 ◌+◌ ◌-◌
  infixl 70 ◌*◌ ◌/◌
  pub record IsExact (nought : A) : Type 0 where
    pub add_sub_cancel : (a b : A) → (a + b) - a ≡ b
    pub sub_add_cancel : (a b : A) → (a - b) + b ≡ a
    pub mul_div_cancel : (a b : A) → a ≢ nought → (a * b) / a ≡ b
    pub div_mul_cancel : (a b : A) → b ≢ nought → (a / b) * b ≡ a
    pub div_mul : (a b c : A) → (a / b) * c ≡ a * (c / b)
    pub neg_mul : (a b : A) → neg a * b ≡ neg (a * b)
    pub neg_div : (a b : A) → neg a / b ≡ neg (a / b)
    pub neg_neg : (a : A) → neg (neg a) ≡ a
