-- ===== src/Client/CalcRef/Examples.antt =====
-- The table of a trajectory over natural numbers, from 0 to 2 in steps of 1.
use quadrocopt.Base.{[], ◌∷◌, ℕ, ◌+◌, ◌-◌, ◌*◌, ◌/◌, ◌≡◌, refl, map, some, leb}
use quadrocopt.Arith.{Ops, Arith}
use quadrocopt.Client.CalcRef.{ref_at, calc_ref}

abbrev naturals : Ops ℕ
naturals = record {
  ◌+◌ = λ a b. a + b;
  ◌-◌ = λ a b. a - b;
  ◌*◌ = λ a b. a * b;
  ◌/◌ = λ a b. a / b;
  neg = λ a. 0;
}

abbrev natural_arith : Arith ℕ ℕ
natural_arith = record {
  float = naturals;
  double = naturals;
  widen = λ a. a;
  narrow = λ a. a;
  decimal = λ n k. n;
  int = λ n. n;
  tanh = λ a. a;
  pow = λ a b. a;
}

three_lines :
    calc_ref natural_arith leb 5 0 2 1 ≡ some (map (ref_at natural_arith) (0 ∷ 1 ∷ 2 ∷ []))
unfolding calc_ref
three_lines = refl
