-- ===== src/Arith/Normal.antt =====
-- A normal form of formulas, by which two of them are seen to have the same value in every ring.
mod Sums
pub mod Sound
use quadrocopt.Base.{ℕ, zero, suc, Bool, true, false, ◌&&◌, List, [], ◌∷◌, ◌==◌, ltb, if◌then◌else◌}
use quadrocopt.Base as Base
use quadrocopt.Arith.Terms.{Term, var, num, add, sub, mul, opposite}

-- The exponents of the variables, and a sum of multiples of such products.
abbrev pub Monomial : Type 0
Monomial = List ℕ

abbrev pub Sum : Type 0
Sum = List (ℕ × Monomial)

pub same : Monomial → Monomial → Bool
same [] [] = true
same [] (e ∷ m) = false
same (d ∷ k) [] = false
same (d ∷ k) (e ∷ m) = d == e && same k m

pub before : Monomial → Monomial → Bool
before [] m = true
before (d ∷ k) [] = false
before (d ∷ k) (e ∷ m) = if d == e then before k m else ltb d e

pub times : Monomial → Monomial → Monomial
times [] m = m
times (d ∷ k) [] = d ∷ k
times (d ∷ k) (e ∷ m) = Base.◌+◌ d e ∷ times k m

pub insert : ℕ → Monomial → Sum → Sum
insert c m [] = (c, m) ∷ []
insert c m ((d, k) ∷ p) =
    let rest = insert c m p in
    if same m k
    then (Base.◌+◌ c d, k) ∷ p
    else if before m k
    then (c, m) ∷ ((d, k) ∷ p)
    else (d, k) ∷ rest

pub sum : Sum → Sum → Sum
sum [] q = q
sum ((c, m) ∷ p) q = insert c m (sum p q)

pub scaled : ℕ → Monomial → Sum → Sum
scaled c m [] = []
scaled c m ((d, k) ∷ q) = insert (Base.◌*◌ c d) (times m k) (scaled c m q)

pub product : Sum → Sum → Sum
product [] q = []
product ((c, m) ∷ p) q = sum (scaled c m q) (product p q)

pub unit : ℕ → Monomial
unit zero = 1 ∷ []
unit (suc i) = 0 ∷ unit i

-- The terms that are added, and those that are taken off.
pub record Signed : Type 0 where
  pub plus : Sum
  pub minus : Sum

pub signed_mul : Signed → Signed → Signed
signed_mul p q = record {
  plus = sum (product p.plus q.plus) (product p.minus q.minus);
  minus = sum (product p.plus q.minus) (product p.minus q.plus);
}

pub signed_add : Signed → Signed → Signed
signed_add p q = record { plus = sum p.plus q.plus; minus = sum p.minus q.minus }

pub signed_neg : Signed → Signed
signed_neg p = record { plus = p.minus; minus = p.plus }

pub normal : Term → Signed
normal (var i) = record { plus = (1, unit i) ∷ []; minus = [] }
normal (num zero) = record { plus = []; minus = [] }
normal (num (suc n)) = record { plus = (suc n, []) ∷ []; minus = [] }
normal (add s t) = signed_add (normal s) (normal t)
normal (sub s t) = signed_add (normal s) (signed_neg (normal t))
normal (mul s t) = signed_mul (normal s) (normal t)
normal (opposite t) = signed_neg (normal t)

-- Two formulas have one normal form if these sums are the same.
unfoldable pub crosswise : Term → Term → Sum
unfolding same before times insert sum scaled product unit signed_mul signed_add signed_neg normal
crosswise s t = sum (normal s).plus (normal t).minus
