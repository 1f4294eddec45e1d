-- ===== src/Client/CalcRef.antt =====
-- The table of the reference trajectory: `calc_ref` of client/calculate.c, with the constants of
-- client/calculate_structs.c. `leq` is the comparison `<=` of floats. The lines of the file are
-- shown by the floats that are printed; the loop has fuel, and runs out of it where it goes on.
mod Examples
use quadrocopt.Base.{ℕ, zero, suc, Bool, List, [], ◌∷◌, Option, none, some, if◌then◌else◌}
use quadrocopt.Arith.{Arith}
use quadrocopt.Reference.{tan_rh}

module _ {F D : Type 0} (a : Arith F D) where
  open a use {float, int}
  open float use {◌+◌}

  infixl 65 ◌+◌
  -- The float that is printed at a time, with `sigma`, `LowVal`, `HighVal` and `TRaise`.
  abbrev pub ref_at : F → F
  ref_at t = (tan_rh a t (int 1) (int 0) (int 10) (int 5)).ref

  -- The loop at `t`, for at most `fuel` rounds; `none` where they are not enough.
  unfoldable pub calc_ref : (leq : F → F → Bool) (fuel : ℕ) → (t tend step : F) → Option (List F)
  calc_ref leq zero t tend step = none
  calc_ref leq (suc fuel) t tend step =
      let rest = calc_ref leq fuel (t + step) tend step in
      if leq t tend
      then (elim rest [ none ↦ none | some lines ↦ some (ref_at t ∷ lines) ])
      else some []
