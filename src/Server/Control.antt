-- ===== src/Server/Control.antt =====
-- The control law of the server: server/calculate.c.
use quadrocopt.Base.{List, [], ◌∷◌, get_elem?, Outcome, ok, ◌>>=◌, or_fault}
use quadrocopt.Arith.{Arith}
use quadrocopt.Reference.{RefTraj, tan_rh}

-- The received parameters, `params[0]` to `params[12]`.
pub record Params (F : Type 0) : Type 0 where
  pub x : F
  pub dot_x : F
  pub y : F
  pub dot_y : F
  pub z : F
  pub dot_z : F
  pub theta : F
  pub dot_theta : F
  pub phi : F
  pub dot_phi : F
  pub psy : F
  pub dot_psy : F
  pub t : F

-- A shorter array than thirteen floats is read past its end.
unfoldable pub read_params : {F : Type 0} → List F → Outcome (Params F)
read_params params = do
  x ← or_fault (get_elem? params 0)
  dot_x ← or_fault (get_elem? params 1)
  y ← or_fault (get_elem? params 2)
  dot_y ← or_fault (get_elem? params 3)
  z ← or_fault (get_elem? params 4)
  dot_z ← or_fault (get_elem? params 5)
  theta ← or_fault (get_elem? params 6)
  dot_theta ← or_fault (get_elem? params 7)
  phi ← or_fault (get_elem? params 8)
  dot_phi ← or_fault (get_elem? params 9)
  psy ← or_fault (get_elem? params 10)
  dot_psy ← or_fault (get_elem? params 11)
  t ← or_fault (get_elem? params 12)
  ok (record {
    x = x;
    dot_x = dot_x;
    y = y;
    dot_y = dot_y;
    z = z;
    dot_z = dot_z;
    theta = theta;
    dot_theta = dot_theta;
    phi = phi;
    dot_phi = dot_phi;
    psy = psy;
    dot_psy = dot_psy;
    t = t;
  })

module _ {F D : Type 0} (a : Arith F D) where
  open a use {float, narrow, decimal, int}
  open float use {◌+◌, ◌-◌, ◌*◌, ◌/◌, neg}

  infixl 65 ◌+◌ ◌-◌
  infixl 70 ◌*◌ ◌/◌
  abbrev pub m : F
  m = narrow (decimal 53 2)

  abbrev pub g : F
  g = narrow (decimal 981 2)

  abbrev pub ix : F
  ix = narrow (decimal 623 5)

  abbrev pub iy : F
  iy = narrow (decimal 623 5)

  abbrev pub iz : F
  iz = narrow (decimal 12 3)

  -- `sigma`, `LowVal`, `HighVal` and `TRaise`.
  unfoldable pub trajectory : (t : F) → RefTraj F
  trajectory t = tan_rh a t (int 1) (int 0) (int 10) (int 5)

  module _ (p : Params F) (r : RefTraj F) where
    open p use {x, dot_x, y, dot_y, z, dot_z, theta, dot_theta, phi, dot_phi, psy, dot_psy}
    open r use {ref, dotref, ddotref, d3dotref, d4dotref}

    unfoldable pub v3 : F
    v3 = ddotref - int 30 * (z - ref) - int 30 * (dot_z - dotref)

    unfoldable pub u1 : F
    u1 = m * (g + v3)

    unfoldable pub dot_v3 : F
    dot_v3 = d3dotref - int 30 * (dot_z - dotref) - int 30 * (neg g + u1 / m - ddotref)

    unfoldable pub dot_u1 : F
    dot_u1 = m * dot_v3

    unfoldable pub ddot_v3 : F
    ddot_v3 = d4dotref - int 30 * (neg g + u1 / m - ddotref) - int 30 * (dot_u1 / m - d3dotref)

    unfoldable pub v1 : F
    v1 =
        let ddot_x = (theta * u1) / m in
        let d3dot_x = (dot_theta * u1 + theta * dot_u1) / m in
        let ex = x - ref in
        let dot_ex = dot_x - dotref in
        let ddot_ex = ddot_x - ddotref in
        let d3dot_ex = d3dot_x - d3dotref in
        d4dotref - int 810000 * ex - int 108000 * dot_ex - int 5400 * ddot_ex - int 120 * d3dot_ex

    unfoldable pub u2 : F
    u2 = (ix / (g + v3)) * (v1 - int 2 * dot_theta * dot_v3 - theta * ddot_v3)

    unfoldable pub v2 : F
    v2 =
        let ddot_y = neg (phi * u1) / m in
        let d3dot_y = neg (dot_phi * u1 + phi * dot_u1) / m in
        let ey = y - ref in
        let dot_ey = dot_y - dotref in
        let ddot_ey = ddot_y - ddotref in
        let d3dot_ey = d3dot_y - d3dotref in
        d4dotref - int 810000 * ey - int 108000 * dot_ey - int 5400 * ddot_ey - int 120 * d3dot_ey

    unfoldable pub u3 : F
    u3 = neg (iy / (g + v3)) * (v2 + int 2 * dot_phi * dot_v3 + phi * ddot_v3)

    unfoldable pub v4 : F
    v4 = ddotref - int 125 * (psy - ref) - int 125 * (dot_psy - dotref)

    unfoldable pub u4 : F
    u4 = iz * v4

  unfoldable pub server_calculations : List F → Outcome (List F)
  server_calculations params = do
    p ← read_params params
    let r = trajectory p.t
    ok (u1 p r ∷ u2 p r ∷ u3 p r ∷ u4 p r ∷ [])
