-- ===== src/Client/CalcData/Laws.antt =====
-- The ways between the state, its vector, and the floats that are sent.
use quadrocopt.Base.{ℕ, zero, suc, ◌+◌, ◌≡◌, refl, ap, [], ◌∷◌, ◌++◌, length, get_elem?}
use quadrocopt.Client.Plant.{Vector}
use quadrocopt.Client.CalcData.{
  CalculatorData, get_payload_from_calc_data, get_first_batch_from_calc_data,
  get_second_batch_from_calc_data, set_calc_data, load_state, normalize_loop, normalize_vector,
  vec_to_floats_loop, vec_to_floats, get_calc_data_for_printer,
}
use quadrocopt.Client.Threads.{split_payload}

module _ {F : Type 0} where
  -- Storing the vector that was loaded from a state gives the state back.
  pub set_calc_data-load_state :
      (d : CalculatorData F) (v : Vector F) → set_calc_data d (load_state d v) ≡ d
  unfolding set_calc_data load_state
  set_calc_data-load_state d v = refl

  -- The vector of a state, sent with the state's time as every later stage is sent, is the payload
  -- that the first stage sends, and get_u splits it into the two batches of the state.
  pub payload_of_state :
      (d : CalculatorData F) (v : Vector F)
      → (normalize_vector (load_state d v) 12 d.curr_time ≡ get_payload_from_calc_data d)
        × (split_payload (get_payload_from_calc_data d)
            ≡ (get_first_batch_from_calc_data d, get_second_batch_from_calc_data d))
  unfolding normalize_vector load_state get_payload_from_calc_data get_first_batch_from_calc_data
      get_second_batch_from_calc_data
  payload_of_state d v = (refl, refl)

  -- normalize_vector gives what vec_to_floats gives, with the time behind it.
  pub normalize_vector-vec_to_floats :
      (v : Vector F) (len : ℕ) (t : F) → normalize_vector v len t ≡ vec_to_floats v len ++ t ∷ []
  unfolding normalize_vector normalize_loop vec_to_floats vec_to_floats_loop
  normalize_vector-vec_to_floats v len t = ap (λ l. l ++ t ∷ []) (same len 0)
    where
      same : (left i : ℕ) → normalize_loop left i v ≡ vec_to_floats_loop left i v
      same zero i = refl
      same (suc left) i = ap (λ l. v (i + 1) ∷ l) (same left (i + 1))

  -- What the printer is given is the time and the places of the coordinates in the floats of the
  -- state, as many as it is told.
  get_calc_data_for_printer-vec_to_floats :
      (d : CalculatorData F) (v : Vector F)
      → (length (get_calc_data_for_printer d).0 ≡ (get_calc_data_for_printer d).1)
        × (get_elem? (vec_to_floats (load_state d v) 12) 0
            ≡ get_elem? (get_calc_data_for_printer d).0 1)
        × (get_elem? (vec_to_floats (load_state d v) 12) 2
            ≡ get_elem? (get_calc_data_for_printer d).0 2)
        × (get_elem? (vec_to_floats (load_state d v) 12) 4
            ≡ get_elem? (get_calc_data_for_printer d).0 3)
        × (get_elem? (vec_to_floats (load_state d v) 12) 10
            ≡ get_elem? (get_calc_data_for_printer d).0 4)
  unfolding get_calc_data_for_printer vec_to_floats load_state
  get_calc_data_for_printer-vec_to_floats d v = (refl, refl, refl, refl, refl)
