-- ===== src/Client/CalcData.antt =====
-- The state of the simulation: `CalculatorData` of client/include/calculate.h and its functions in
-- client/calculate_structs.c, with the part of `get_next_step` in client/main.c that loads it; what
-- client/main.c takes of it for the printer, and `vec_to_floats` of client/io_stuff.c.
pub mod Laws
use quadrocopt.Base.{ℕ, zero, suc, ◌+◌, List, [], ◌∷◌, ◌++◌}
use quadrocopt.Arith.{Ops, Arith}
use quadrocopt.Client.Plant.{Vector, update}

pub record CalculatorData (F : Type 0) : Type 0 where
  pub time_start : F
  pub time_end : F
  pub step : F
  pub curr_time : F
  pub v_x : F
  pub vdot_x : F
  pub v_y : F
  pub vdot_y : F
  pub v_z : F
  pub vdot_z : F
  pub v_theta : F
  pub vdot_theta : F
  pub v_phi : F
  pub vdot_phi : F
  pub v_psy : F
  pub vdot_psy : F

module _ {F D : Type 0} (a : Arith F D) where
  open a use {float, narrow, decimal, int}
  open float use {◌-◌, ◌/◌}

  infixl 65 ◌-◌
  infixl 70 ◌/◌
  -- `NSTEP` is 10.
  unfoldable pub initialize_calc_data : (time_start time_end : F) → CalculatorData F
  initialize_calc_data time_start time_end =
      let nought = narrow (decimal 0 1) in
      record {
        time_start = time_start;
        time_end = time_end;
        step = (time_end - time_start) / int 10;
        curr_time = time_start;
        v_x = nought;
        vdot_x = nought;
        v_y = nought;
        vdot_y = nought;
        v_z = nought;
        vdot_z = nought;
        v_theta = nought;
        vdot_theta = nought;
        v_phi = nought;
        vdot_phi = nought;
        v_psy = nought;
        vdot_psy = nought;
      }

module _ {F : Type 0} where
  unfoldable pub get_payload_from_calc_data : CalculatorData F → List F
  get_payload_from_calc_data d =
      d.v_x ∷ d.vdot_x ∷ d.v_y ∷ d.vdot_y ∷ d.v_z ∷ d.vdot_z ∷ d.v_theta ∷ d.vdot_theta ∷ d.v_phi
      ∷ d.vdot_phi ∷ d.v_psy ∷ d.vdot_psy ∷ d.curr_time ∷ []

  unfoldable pub get_first_batch_from_calc_data : CalculatorData F → List F
  get_first_batch_from_calc_data d = d.v_x ∷ d.vdot_x ∷ d.v_y ∷ d.vdot_y ∷ d.v_z ∷ d.vdot_z ∷ []

  unfoldable pub get_second_batch_from_calc_data : CalculatorData F → List F
  get_second_batch_from_calc_data d =
      d.v_theta ∷ d.vdot_theta ∷ d.v_phi ∷ d.vdot_phi ∷ d.v_psy ∷ d.vdot_psy ∷ d.curr_time ∷ []

  unfoldable pub set_calc_data : CalculatorData F → Vector F → CalculatorData F
  set_calc_data d y = record d {
    v_x = y 1;
    vdot_x = y 2;
    v_y = y 3;
    vdot_y = y 4;
    v_z = y 5;
    vdot_z = y 6;
    v_theta = y 7;
    vdot_theta = y 8;
    v_phi = y 9;
    vdot_phi = y 10;
    v_psy = y 11;
    vdot_psy = y 12;
  }

  -- The twelve assignments to `y` in `get_next_step`.
  unfoldable pub load_state : CalculatorData F → Vector F → Vector F
  unfolding update
  load_state d y =
      let y = update y 1 d.v_x in
      let y = update y 2 d.vdot_x in
      let y = update y 3 d.v_y in
      let y = update y 4 d.vdot_y in
      let y = update y 5 d.v_z in
      let y = update y 6 d.vdot_z in
      let y = update y 7 d.v_theta in
      let y = update y 8 d.vdot_theta in
      let y = update y 9 d.v_phi in
      let y = update y 10 d.vdot_phi in let y = update y 11 d.v_psy in update y 12 d.vdot_psy

  -- The loop of `normalize_vector` at `i`, with `left` rounds to go, and what it stores.
  unfoldable pub normalize_loop : (left i : ℕ) → Vector F → List F
  normalize_loop zero i vec = []
  normalize_loop (suc left) i vec = vec (i + 1) ∷ normalize_loop left (i + 1) vec

  unfoldable pub normalize_vector : Vector F → (len : ℕ) → F → List F
  unfolding normalize_loop
  normalize_vector vec len cur_time = normalize_loop len 0 vec ++ cur_time ∷ []

  -- The loop of `vec_to_floats` at `i`, with `left` rounds to go, and what it stores.
  unfoldable pub vec_to_floats_loop : (left i : ℕ) → Vector F → List F
  vec_to_floats_loop zero i vec = []
  vec_to_floats_loop (suc left) i vec = vec (i + 1) ∷ vec_to_floats_loop left (i + 1) vec

  unfoldable pub vec_to_floats : Vector F → (len : ℕ) → List F
  unfolding vec_to_floats_loop
  vec_to_floats vec len = vec_to_floats_loop len 0 vec

  -- The floats of the payload, with their number.
  unfoldable pub get_calc_data_for_printer : CalculatorData F → List F × ℕ
  get_calc_data_for_printer d = (d.curr_time ∷ d.v_x ∷ d.v_y ∷ d.v_z ∷ d.v_psy ∷ [], 5)
