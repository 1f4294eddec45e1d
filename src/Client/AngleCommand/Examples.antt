-- ===== src/Client/AngleCommand/Examples.antt =====
-- Tests of a command, and its theorem at concrete values.
use quadrocopt.Base.{ℕ, ◌≡◌, refl, List, [], ◌∷◌, arith, none, some, ok, fault, read_at}
use quadrocopt.Heap.{Heap, live, copy_arr_of_floats}
use quadrocopt.Heap.Laws.{Points, Keeps}
use quadrocopt.Client.AngleCommand.{
  AngleCoordCommand, initialize_angle_coord_command, set_angle_position, clean_angle_position,
}
use quadrocopt.Client.AngleCommand.Laws.{set_angle_position-clean}

abbrev position_of_seven : List ℕ
position_of_seven = 1 ∷ 2 ∷ 3 ∷ 4 ∷ 5 ∷ 6 ∷ 7 ∷ []

abbrev angles_of_nine : List ℕ
angles_of_nine = 1 ∷ 2 ∷ 3 ∷ 4 ∷ 5 ∷ 6 ∷ 7 ∷ 8 ∷ 9 ∷ []

abbrev two_blocks : Heap ℕ
two_blocks = some angles_of_nine ∷ none ∷ some position_of_seven ∷ []

seven_cleaned :
    (made : AngleCoordCommand) × (g after : Heap ℕ) × (set_angle_position two_blocks
        initialize_angle_coord_command
        (some 2)
        (some 0)
      ≡ ok (made, g))
    × Points g made.position position_of_seven
    × Points g made.angle (1 ∷ 2 ∷ 3 ∷ 4 ∷ 5 ∷ 6 ∷ 7 ∷ 8 ∷ [])
    × (made.u ≡ none)
    × (clean_angle_position g made ≡ ok after)
    × Keeps two_blocks none after
    × (live after ≡ 2)
    × (clean_angle_position after made ≡ fault)
seven_cleaned =
    set_angle_position-clean two_blocks initialize_angle_coord_command (some 2) (some 0)
      position_of_seven angles_of_nine refl refl (omega arith) (omega arith)

-- The first batch of a state has six floats, one less than is copied of a position.
six_floats :
    set_angle_position {F = ℕ}
      (some (1 ∷ 2 ∷ 3 ∷ 4 ∷ 5 ∷ 6 ∷ []) ∷ [])
      initialize_angle_coord_command
      (some 0)
      (some 0)
    ≡ fault
unfolding set_angle_position copy_arr_of_floats read_at
six_floats = refl
