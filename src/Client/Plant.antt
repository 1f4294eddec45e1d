-- ===== src/Client/Plant.antt =====
-- The motion of the quadrocopter: `set_u` and `derivs` of client/calculate.c. Arrays are indexed
-- from 1, as the vectors of Numerical Recipes are; the four commands are the globals `U1` to `U4`.
use quadrocopt.Base.{ℕ, List, get_elem?, Outcome, ok, ◌>>=◌, or_fault, ◌==◌, if◌then◌else◌}
use quadrocopt.Arith.{Arith}

-- A vector `v[nl..nh]`, by its subscripts.
abbrev pub Vector : Type 0 → Type 0
Vector F = ℕ → F

unfoldable pub update : {F : Type 0} → Vector F → ℕ → F → Vector F
update v i x j = if j == i then x else v j

pub record Command (F : Type 0) : Type 0 where
  pub u1 : F
  pub u2 : F
  pub u3 : F
  pub u4 : F

-- `set_u`.
unfoldable pub set_u : {F : Type 0} → List F → Outcome (Command F)
set_u u_arr = do
  u1 ← or_fault (get_elem? u_arr 0)
  u2 ← or_fault (get_elem? u_arr 1)
  u3 ← or_fault (get_elem? u_arr 2)
  u4 ← or_fault (get_elem? u_arr 3)
  ok (record { u1 = u1; u2 = u2; u3 = u3; u4 = u4 })

module _ {F D : Type 0} (a : Arith F D) where
  open a use {float, narrow, decimal}
  open float use {◌-◌, ◌*◌, ◌/◌, neg}

  infixl 65 ◌-◌
  infixl 70 ◌*◌ ◌/◌
  abbrev pub m : F
  m = narrow (decimal 53 2)

  abbrev pub g : F
  g = narrow (decimal 981 2)

  abbrev pub ix : F
  ix = narrow (decimal 623 5)

  abbrev pub iy : F
  iy = narrow (decimal 623 5)

  abbrev pub iz : F
  iz = narrow (decimal 12 3)

  -- The twelve stores into `dXdt`, in the order of the source.
  unfoldable pub derivatives : Vector F → Command F → Vector F → Vector F
  unfolding update
  derivatives x c dxdt =
      let ddot_x = x 7 * c.u1 / m in
      let ddot_y = neg (x 9) * c.u1 / m in
      let ddot_z = c.u1 / m - g in
      let ddot_theta = c.u2 / ix in
      let ddot_phi = c.u3 / iy in
      let ddot_psy = c.u4 / iz in
      let d = update dxdt 1 (x 2) in
      let d = update d 2 ddot_x in
      let d = update d 3 (x 4) in
      let d = update d 4 ddot_y in
      let d = update d 5 (x 6) in
      let d = update d 6 ddot_z in
      let d = update d 7 (x 8) in
      let d = update d 8 ddot_theta in
      let d = update d 9 (x 10) in
      let d = update d 10 ddot_phi in let d = update d 11 (x 12) in update d 12 ddot_psy

  unfoldable pub derivs : Vector F → Vector F → List F → Outcome (Vector F)
  derivs x dxdt u = do c ← set_u u; ok (derivatives x c dxdt)
