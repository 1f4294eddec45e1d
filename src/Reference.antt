-- ===== src/Reference.antt =====
-- `tanRh` of client/nrutil.c, which server/nrutil.c repeats: the reference trajectory and four
-- derivatives of it. `pow` and `tanh` are computed in `double`.
mod Derivatives
mod Examples
use quadrocopt.Arith.{Arith}

-- `res[1]` to `res[5]`.
pub record RefTraj (F : Type 0) : Type 0 where
  pub ref : F
  pub dotref : F
  pub ddotref : F
  pub d3dotref : F
  pub d4dotref : F

module _ {F D : Type 0} (a : Arith F D) where
  open a use {float, double, widen, narrow, int, tanh, pow}
  open float use {◌+◌, ◌-◌, ◌*◌, ◌/◌, neg}

  infixl 65 ◌+◌ ◌-◌
  infixl 70 ◌*◌ ◌/◌
  -- The value of `ddddres`, whose second factor is a `double`.
  abbrev pub fourth : F → F → F → F
  fourth ar st4 phi = narrow (
      double.◌*◌ (widen (int 8 * ar * st4 * phi)) (
        double.◌+◌
          (double.◌-◌ (double.◌*◌ (widen (int 3)) (pow (widen phi) (widen (int 4))))
            (widen (int 5 * phi * phi)))
          (widen (int 2))))

  unfoldable pub tan_rh : (t st low_val high_val t_raise : F) → RefTraj F
  tan_rh t st low_val high_val t_raise =
      let ar = (high_val - low_val) / int 2 in
      let phi = narrow (tanh (widen (st * (t - t_raise)))) in
      let phi2_1 = int 1 - phi * phi in
      let st2 = st * st in
      let st3 = st2 * st in
      let st4 = st3 * st in
      record {
        ref = ar * (int 1 + phi) + low_val;
        dotref = ar * st * phi2_1;
        ddotref = int 2 * ar * st2 * phi * phi2_1;
        d3dotref = neg (int 2) * ar * st3 * phi2_1 * (int 1 - int 3 * phi * phi);
        d4dotref = fourth ar st4 phi;
      }
