-- ===== src/Arith.antt =====
-- The arithmetic of C that the calculations use, as an interface: `float` and `double`, their
-- operations, the conversions between them, the value of a decimal literal, and two functions of
-- <math.h>. The code is modelled over any such arithmetic.
pub mod Parity
pub mod Exact
pub mod Ring
pub mod Terms
pub mod Normal
pub mod Integers
use quadrocopt.Base.{ℕ}

pub record Ops (A : Type 0) : Type 0 where
  infixl 65 ◌+◌ ◌-◌
  infixl 70 ◌*◌ ◌/◌
  pub ◌+◌ : A → A → A
  pub ◌-◌ : A → A → A
  pub ◌*◌ : A → A → A
  pub ◌/◌ : A → A → A
  pub neg : A → A

-- `decimal n k` is the `double` literal for n / 10 ^ k, and `int n` an `int` converted to `float`.
pub record Arith (F D : Type 0) : Type 0 where
  pub float : Ops F
  pub double : Ops D
  pub widen : F → D
  pub narrow : D → F
  pub decimal : ℕ → ℕ → D
  pub int : ℕ → F
  pub tanh : D → D
  pub pow : D → D → D
