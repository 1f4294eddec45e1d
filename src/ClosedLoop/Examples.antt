-- ===== src/ClosedLoop/Examples.antt =====
-- The hypotheses of ClosedLoop, Client/Integrator and Exchange over the field of two elements.
use mathlib.Core.Bool.{true≢false}
use quadrocopt.Base.{
  ℕ, zero, suc, ◌<◌, ◌^◌, ◌==◌, arith, ◌≡◌, refl, List, [], ◌∷◌, Bool, true, false, ok,
}
use quadrocopt.Wire.{FloatRepr}
use quadrocopt.Exchange.{exchange, exchange-payload}
use quadrocopt.Reference.{tan_rh}
use quadrocopt.Server.Control.{trajectory, v1, v2, v3, v4, dot_v3, ddot_v3, server_calculations}
use quadrocopt.Client.Plant.{Vector, derivs}
use quadrocopt.Client.CalcData.{
  CalculatorData, get_payload_from_calc_data, get_first_batch_from_calc_data,
  get_second_batch_from_calc_data, load_state, normalize_vector,
}
use quadrocopt.Client.Integrator.{get_next_step}
use quadrocopt.Client.Integrator.Laws.{runge_kutta, get_next_step-runge_kutta}
use quadrocopt.Client.CalcData.Laws.{payload_of_state}
use quadrocopt.Client.Threads.{split_payload}
use quadrocopt.Arith.Terms.{value}
use quadrocopt.ClosedLoop.{closed_loop}
use quadrocopt.ClosedLoop.Commands.{params_of, commands, values, Moves}
use quadrocopt.ClosedLoop.Motion.{x, y, lift, nth}
use quadrocopt.ClosedLoop.Errors.{x_error, y_error, four_poles, errors_vanish}
use quadrocopt.Arith.Parity.{xor, bit_arith, bits-IsExact, bit_arith-IsRing}

-- The quadrocopter at height 1, at the time of the raise.
abbrev raised : CalculatorData Bool
raised = record {
  time_start = false;
  time_end = true;
  step = true;
  curr_time = true;
  v_x = true;
  vdot_x = false;
  v_y = false;
  vdot_y = true;
  v_z = true;
  vdot_z = false;
  v_theta = true;
  vdot_theta = true;
  v_phi = false;
  vdot_phi = true;
  v_psy = false;
  vdot_psy = true;
}

-- No array has anything but `false` in it before it is filled.
abbrev fresh : Vector Bool
fresh j = false

closed_loop_example :
    let r = trajectory bit_arith true in
    let p = params_of raised in
    let env = values bit_arith raised r in
    (x' : Vector Bool) × (derivs bit_arith
        (load_state raised fresh)
        fresh
        (commands bit_arith raised r)
      ≡ ok x')
    × Moves bit_arith env x'
    × (x' 6 ≡ v3 bit_arith p r)
    × (x' 12 ≡ v4 bit_arith p r)
    × (dot_v3 bit_arith p r ≡ value bit_arith env (nth 1 lift))
    × (ddot_v3 bit_arith p r ≡ value bit_arith env (nth 2 lift))
    × (value bit_arith env (nth 4 x) ≡ v1 bit_arith p r)
    × (value bit_arith env (nth 4 y) ≡ v2 bit_arith p r)
    × (server_calculations bit_arith (get_payload_from_calc_data raised)
        ≡ ok (commands bit_arith raised (trajectory bit_arith true)))
unfolding trajectory tan_rh v3
closed_loop_example =
    closed_loop bit_arith false bits-IsExact bit_arith-IsRing raised (trajectory bit_arith true)
      true≢false fresh fresh true≢false true≢false true≢false true≢false

errors_vanish_example :
    let r = trajectory bit_arith true in
    let p = params_of raised in
    let env = values bit_arith raised r in
    (value bit_arith env (four_poles x_error) ≡ false)
    × (value bit_arith env (four_poles y_error) ≡ false)
    × (xor (xor (xor (v3 bit_arith p r) r.ddotref) false) false ≡ false)
    × (xor (xor (xor (v4 bit_arith p r) r.ddotref) (xor true r.dotref)) (xor false r.ref) ≡ false)
unfolding trajectory tan_rh v3
errors_vanish_example =
    errors_vanish bit_arith false bits-IsExact bit_arith-IsRing raised (trajectory bit_arith true)
      true≢false true≢false true≢false true≢false

-- Commands that differ from stage to stage.
abbrev answers : ℕ → List Bool → List Bool
answers zero payload = true ∷ false ∷ true ∷ true ∷ []
answers (suc k) payload = false ∷ true ∷ true ∷ false ∷ []

get_next_step-runge_kutta_example :
    get_next_step bit_arith answers fresh raised ≡ runge_kutta bit_arith answers fresh raised
get_next_step-runge_kutta_example = get_next_step-runge_kutta bit_arith answers fresh raised

state_payload :
    (normalize_vector (load_state raised fresh) 12 true ≡ get_payload_from_calc_data raised)
    × (split_payload (get_payload_from_calc_data raised)
        ≡ (get_first_batch_from_calc_data raised, get_second_batch_from_calc_data raised))
state_payload = payload_of_state raised fresh

-- `true` is kept in memory as 1.0, and `false` as 0.0.
abbrev bit_pattern : Bool → ℕ
bit_pattern true = 0x3f80_0000
bit_pattern false = 0

bit_pattern-lt : (b : Bool) → bit_pattern b < 2 ^ 32
bit_pattern-lt true = omega arith
bit_pattern-lt false = omega arith

abbrev bit_of : ℕ → Bool
bit_of n = n == 0x3f80_0000

bit_of-bit_pattern : (b : Bool) → bit_of (bit_pattern b) ≡ b
bit_of-bit_pattern true = refl
bit_of-bit_pattern false = refl

abbrev bit_repr : FloatRepr Bool
bit_repr = record {
  bits = bit_pattern;
  of_bits = bit_of;
  bits_lt = bit_pattern-lt;
  of_bits-bits = bit_of-bit_pattern;
}

exchange-payload_example :
    (exchange bit_repr bit_arith (get_payload_from_calc_data raised) (1 ∷ 2 ∷ []) []
      ≡ server_calculations bit_arith (get_payload_from_calc_data raised))
    × (exchange bit_repr bit_arith (normalize_vector fresh 12 true) (1 ∷ 2 ∷ []) []
        ≡ server_calculations bit_arith (normalize_vector fresh 12 true))
exchange-payload_example = exchange-payload bit_repr bit_arith raised fresh true (1 ∷ 2 ∷ []) []
