-- ===== src/Client/AngleCommand.antt =====
-- `AngleCoordCommand` of client/calculate_structs.c: a position, its angles and the command for them,
-- each a copy in a block of its own. The structure itself is a value.
pub mod Laws
mod Examples
use quadrocopt.Base.{ℕ, ◌+◌, none, Outcome, ok, ◌>>=◌}
use quadrocopt.Heap.{Ptr, Heap, free, copy_arr_of_floats}

pub record AngleCoordCommand : Type 0 where
  pub position : Ptr
  pub angle : Ptr
  pub u : Ptr

-- `CLIENT_TO_SERVER_PARAMS_COUNT` and `SERVER_TO_CLIENT_PARAMS_COUNT`.
abbrev pub client_to_server_params_count : ℕ
client_to_server_params_count = 7

abbrev pub server_to_client_params_count : ℕ
server_to_client_params_count = 4

abbrev pub initialize_angle_coord_command : AngleCoordCommand
initialize_angle_coord_command = record { position = none; angle = none; u = none }

module _ {F : Type 0} where
  unfoldable pub set_angle_position :
      Heap F → AngleCoordCommand → (position angle : Ptr) → Outcome (AngleCoordCommand × Heap F)
  set_angle_position h c position angle = do
    first ← copy_arr_of_floats h position client_to_server_params_count
    second ← copy_arr_of_floats first.1 angle (client_to_server_params_count + 1)
    ok (record c { position = first.0; angle = second.0 }, second.1)

  unfoldable pub set_angle_command_u :
      Heap F → AngleCoordCommand → (u_vec : Ptr) → Outcome (AngleCoordCommand × Heap F)
  set_angle_command_u h c u_vec = do
    copy ← copy_arr_of_floats h u_vec server_to_client_params_count
    ok (record c { u = copy.0 }, copy.1)

  -- The pointers stay as they were.
  unfoldable pub clean_angle_position : Heap F → AngleCoordCommand → Outcome (Heap F)
  clean_angle_position h c = do h ← free h c.position; free h c.angle
