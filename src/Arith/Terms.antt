-- ===== src/Arith/Terms.antt =====
-- Formulas over variables, their values in an arithmetic, and their derivatives by the rules for
-- sums and products. They say what a formula of the code should be; they model no code themselves.
use quadrocopt.Base.{ℕ, zero, suc, List, [], ◌∷◌}
use quadrocopt.Arith.{Arith}

pub data Term : Type 0 where
  var : ℕ → Term
  num : ℕ → Term
  add sub mul : Term → Term → Term
  opposite : Term → Term

-- The derivative, where `rate i` is that of variable `i`.
unfoldable pub derivative : (rate : ℕ → Term) → Term → Term
derivative rate (var i) = rate i
derivative rate (num n) = num 0
derivative rate (add s t) = add (derivative rate s) (derivative rate t)
derivative rate (sub s t) = sub (derivative rate s) (derivative rate t)
derivative rate (mul s t) = add (mul (derivative rate s) t) (mul s (derivative rate t))
derivative rate (opposite t) = opposite (derivative rate t)

module _ {F D : Type 0} (a : Arith F D) where
  open a use {float, int}
  open float use {◌+◌, ◌-◌, ◌*◌, neg}

  infixl 65 ◌+◌ ◌-◌
  infixl 70 ◌*◌
  -- A variable that the list does not have is 1.
  abbrev pub var_value : List F → ℕ → F
  var_value [] i = int 1
  var_value (x ∷ env) zero = x
  var_value (x ∷ env) (suc i) = var_value env i

  unfoldable pub value : List F → Term → F
  value env (var i) = var_value env i
  value env (num n) = int n
  value env (add s t) = value env s + value env t
  value env (sub s t) = value env s - value env t
  value env (mul s t) = value env s * value env t
  value env (opposite t) = neg (value env t)
