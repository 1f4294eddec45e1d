-- ===== src/Reference/Examples.antt =====
-- `tanRh` over the integers, and its theorem there: half a rise of 5, a steepness of 1, from 3, at
-- phi = 2.
use quadrocopt.Base.{ℕ, ◌≡◌, refl}
use quadrocopt.Arith.Integers.{
  ℤ, pos, negsuc, ◌+ℤ◌, ◌-ℤ◌, ◌*ℤ◌, integer_arith, integer_arith-IsRing,
}
use quadrocopt.Arith.Terms.{value}
use quadrocopt.Reference.{RefTraj, tan_rh}
use quadrocopt.Reference.Derivatives.{trajectory_term, values, tan_rh-derivatives}

abbrev risen : RefTraj ℤ
risen = tan_rh integer_arith (pos 7) (pos 1) (pos 3) (pos 8) (pos 5)

-- 5 (1 + phi) + 3, 5 (1 - phi²), and so on.
risen_values :
    (risen.ref ≡ pos 18)
    × (risen.dotref ≡ negsuc 14)
    × (risen.ddotref ≡ negsuc 59)
    × (risen.d3dotref ≡ negsuc 329)
    × (risen.d4dotref ≡ pos 2400)
unfolding tan_rh ◌+ℤ◌ ◌-ℤ◌ ◌*ℤ◌
risen_values = (refl, refl, refl, refl, refl)

abbrev expected : ℕ → ℤ
expected n =
    value integer_arith (values integer_arith (pos 7) (pos 1) (pos 3) (pos 8) (pos 5))
      (trajectory_term n)

tan_rh-derivatives_example :
    (risen.ref ≡ expected 0)
    × (risen.dotref ≡ expected 1)
    × (pos 0 -ℤ risen.ddotref ≡ expected 2)
    × (risen.d3dotref ≡ expected 3)
    × (risen.d4dotref ≡ expected 4)
tan_rh-derivatives_example =
    tan_rh-derivatives integer_arith integer_arith-IsRing (pos 7) (pos 1) (pos 3) (pos 8) (pos 5)
