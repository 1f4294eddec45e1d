-- ===== src/Arith/Parity.antt =====
-- A field of two elements in place of `float`, to run the simulation of client/main.c in.
use mathlib.Core.Path.{◌∙◌}
use quadrocopt.Base.{sym, ℕ, zero, suc, ◌+◌, ◌*◌, ap, arith, ◌≡◌, ◌≢◌, refl, Bool, true, false}
use quadrocopt.Arith.{Ops, Arith}
use quadrocopt.Arith.Exact.{IsExact}
use quadrocopt.Arith.Ring.{IsRing}

abbrev pub xor : Bool → Bool → Bool
xor false b = b
xor true false = true
xor true true = false

abbrev pub both : Bool → Bool → Bool
both false b = false
both true b = b

-- A division by `false` is `false`.
abbrev pub bits : Ops Bool
bits = record { ◌+◌ = xor; ◌-◌ = xor; ◌*◌ = both; ◌/◌ = both; neg = λ a. a }

-- An odd number is `true`, and an even one `false`.
abbrev pub parity : ℕ → Bool
parity zero = false
parity (suc n) = xor true (parity n)

abbrev pub bit_arith : Arith Bool Bool
bit_arith = record {
  float = bits;
  double = bits;
  widen = λ a. a;
  narrow = λ a. a;
  decimal = λ n k. true;
  int = parity;
  tanh = λ a. a;
  pow = λ a b. a;
}

xor-xor_left : (a b : Bool) → xor (xor a b) a ≡ b
xor-xor_left false false = refl
xor-xor_left false true = refl
xor-xor_left true false = refl
xor-xor_left true true = refl

both_left : (a b : Bool) → a ≢ false → both a b ≡ b
both_left false b a≢ = absurd (a≢ refl)
both_left true b _ = refl

both_comm : (a b : Bool) → both a b ≡ both b a
both_comm false false = refl
both_comm false true = refl
both_comm true false = refl
both_comm true true = refl

both-both_left : (a b : Bool) → a ≢ false → both (both a b) a ≡ b
both-both_left false b a≢ = absurd (a≢ refl)
both-both_left true false _ = refl
both-both_left true true _ = refl

xor-xor_right : (a b : Bool) → xor (xor a b) b ≡ a
xor-xor_right false false = refl
xor-xor_right false true = refl
xor-xor_right true false = refl
xor-xor_right true true = refl

both_swap : (a b c : Bool) → both (both a b) c ≡ both a (both c b)
both_swap false b c = refl
both_swap true b c = both_comm b c

pub bits-IsExact : IsExact bits false
bits-IsExact = record {
  add_sub_cancel = xor-xor_left;
  sub_add_cancel = xor-xor_right;
  mul_div_cancel = both-both_left;
  div_mul_cancel = λ a b b≢.
      both_comm (both a b) b ∙ both_left b (both a b) b≢ ∙ both_comm a b ∙ both_left b a b≢;
  div_mul = both_swap;
  neg_mul = λ a b. refl;
  neg_div = λ a b. refl;
  neg_neg = λ a. refl;
}

xor_comm : (a b : Bool) → xor a b ≡ xor b a
xor_comm false false = refl
xor_comm false true = refl
xor_comm true false = refl
xor_comm true true = refl

xor_assoc : (a b c : Bool) → xor (xor a b) c ≡ xor a (xor b c)
xor_assoc false b c = refl
xor_assoc true false c = refl
xor_assoc true true false = refl
xor_assoc true true true = refl

both-xor : (a b c : Bool) → both a (xor b c) ≡ xor (both a b) (both a c)
both-xor false b c = refl
both-xor true b c = refl

xor-false : (a : Bool) → xor a false ≡ a
xor-false a = xor_comm a false

both-true : (a : Bool) → both a true ≡ a
both-true a = both_comm a true

xor_self : (a : Bool) → xor a a ≡ false
xor_self false = refl
xor_self true = refl

both_self : (a : Bool) → a ≡ both (both (both a a) a) a
both_self false = refl
both_self true = refl

both_assoc : (a b c : Bool) → both (both a b) c ≡ both a (both b c)
both_assoc false b c = refl
both_assoc true b c = refl

parity-add : (m n : ℕ) → parity (m + n) ≡ xor (parity m) (parity n)
parity-add zero n = ap parity {x = zero + n} {y = n} (omega arith)
parity-add (suc m) n =
    ap parity {x = suc m + n} {y = suc (m + n)} (omega arith)
    ∙ ap (xor true) (parity-add m n)
    ∙ sym (xor_assoc true (parity m) (parity n))

odd_times : (a b : Bool) → xor b (both a b) ≡ both (xor true a) b
odd_times false false = refl
odd_times false true = refl
odd_times true false = refl
odd_times true true = refl

mul_succ_left : (m n : ℕ) → suc m * n ≡ n + m * n
mul_succ_left m n = ground arith

parity-mul : (m n : ℕ) → parity (m * n) ≡ both (parity m) (parity n)
parity-mul zero n = ap parity {x = zero * n} {y = 0} (omega arith)
parity-mul (suc m) n =
    ap parity (mul_succ_left m n)
    ∙ parity-add n (m * n)
    ∙ ap (xor (parity n)) (parity-mul m n)
    ∙ odd_times (parity m) (parity n)

pub bit_arith-IsRing : IsRing bit_arith
bit_arith-IsRing = record {
  add_comm = xor_comm;
  add_assoc = xor_assoc;
  add_zero = xor-false;
  mul_comm = both_comm;
  mul_assoc = both_assoc;
  mul_one = both-true;
  mul_add = both-xor;
  sub_add = xor-xor_right;
  neg_add = xor_self;
  int_add = parity-add;
  int_mul = parity-mul;
  narrow_widen = λ x. refl;
  widen_add = λ x y. refl;
  widen_sub = λ x y. refl;
  widen_mul = λ x y. refl;
  pow_four = both_self;
}
