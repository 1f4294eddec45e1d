-- ===== src/Exchange.antt =====
-- One exchange between the programs, without the threads: the two batches of a state, as the
-- client's sender sends them, and what the server's listeners and its calculator make of them.

use mathlib.Core.List.{append-nil}
use quadrocopt.Base.{ℕ, ◌≡◌, refl, arith, List, [], ◌++◌, length, Outcome, exit, ◌>>=◌}
use quadrocopt.Wire.{FloatRepr, init_pack, pack_of_floats, other}
use quadrocopt.Arith.{Arith}
use quadrocopt.Packet.{Packet, get_floats}
use quadrocopt.Packet.Roundtrip.{sent, received, received-sent}
use quadrocopt.Client.Plant.{Vector}
use quadrocopt.Client.CalcData.{CalculatorData, get_payload_from_calc_data, normalize_vector}
use quadrocopt.Client.Threads.{Batches, split_payload}
use quadrocopt.Server.Control.{server_calculations}

module _ {F D : Type 0} (r : FloatRepr F) (a : Arith F D) where
  -- `calculate_ordinary` and `calculate` of server/calculate.c.
  unfoldable pub calculate_ordinary : Packet → Outcome (List F)
  calculate_ordinary pack = do params ← get_floats r pack; server_calculations a params

  unfoldable pub calculate : Packet → Outcome (List F)
  unfolding calculate_ordinary
  calculate pack = elim pack.type [
    | pack_of_floats ↦ calculate_ordinary pack
    | init_pack ↦ exit
    | other n ↦ exit
  ]

  -- Two batches in a datagram each, received into buffers with anything behind them, and the
  -- command for what they hold.
  abbrev pub exchange_batches : Batches F → (behind_first behind_second : List ℕ) → Outcome (List F)
  exchange_batches (one, two) behind_first behind_second = do
    first_bytes ← sent r one 6
    second_bytes ← sent r two 7
    first ← received r (first_bytes ++ behind_first)
    second ← received r (second_bytes ++ behind_second)
    server_calculations a (first.0 ++ second.0)

  -- The exchange for a payload that `get_u` splits.
  abbrev pub exchange : (payload : List F) (behind_first behind_second : List ℕ) → Outcome (List F)
  exchange payload = exchange_batches (split_payload payload)

  batches_exchanged :
      (one two : List F) (behind_first behind_second : List ℕ)
      → length one ≡ 6
      → length two ≡ 7
      → exchange_batches (one, two) behind_first behind_second ≡ server_calculations a (one ++ two)
  batches_exchanged one two behind_first behind_second six seven =
      let (first_bytes, first_sent, _, first_back) =
        received-sent r one [] behind_first (omega (arith, six)) in
      let (second_bytes, second_sent, _, second_back) =
        received-sent r two [] behind_second (omega (arith, seven)) in
      rw (rw (append-nil one) at (rw six at first_sent)) (
        rw (rw (append-nil two) at (rw seven at second_sent)) (rw first_back (rw second_back refl)))

  -- The payload of a state, or the one that a later stage of get_next_step makes of a vector and a
  -- time, split by get_u, sent in two datagrams as the client's sender sends them and received into
  -- buffers with anything behind them: what the server computes from the two batches is the command
  -- of the payload.
  pub exchange-payload :
      (d : CalculatorData F) (v : Vector F) (t : F) (behind_first behind_second : List ℕ)
      → (exchange (get_payload_from_calc_data d) behind_first behind_second
          ≡ server_calculations a (get_payload_from_calc_data d))
        × (exchange (normalize_vector v 12 t) behind_first behind_second
            ≡ server_calculations a (normalize_vector v 12 t))
  unfolding get_payload_from_calc_data normalize_vector
  exchange-payload d v t behind_first behind_second = (
    batches_exchanged _ _ behind_first behind_second refl refl,
    batches_exchanged _ _ behind_first behind_second refl refl,
  )
