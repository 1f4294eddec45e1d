-- ===== src/Server/Rounds/Examples.antt =====
-- Rounds of the server on concrete packets, with a calculation that gives back what it gets, twice.
use quadrocopt.Base.{◌≡◌, refl, List, [], ◌∷◌, ◌++◌, Outcome, ok, read_at}
use quadrocopt.Heap.{Heap, live}
use quadrocopt.Heap.Laws.{Points}
use quadrocopt.Wire.{pack_of_floats, char_arr_to_float, bytes_arr_to_uint}
use quadrocopt.Wire.Samples.{Sample, one, samples}
use quadrocopt.Packet.{Packet, get_floats, get_floats_loop, get_slice, get_floats_count}
use quadrocopt.Server.Stock.{
  initialize_batch_stock, CalculationsStock, initialize_calculations_stock,
}
use quadrocopt.Server.Rounds.{round, rounds}
use quadrocopt.Server.Rounds.Growth.{IsFloats, IsRound, round-command, rounds-leak}

abbrev one_float : Packet
one_float = record { type = pack_of_floats; length = 4; buf = 0x00 ∷ 0x00 ∷ 0x80 ∷ 0x3f ∷ [] }

one_float-floats : get_floats samples one_float ≡ ok (one ∷ [])
unfolding get_floats get_floats_loop get_slice read_at char_arr_to_float bytes_arr_to_uint
one_float-floats = refl

one_float-IsFloats : IsFloats samples one_float (one ∷ [])
unfolding get_floats_count
one_float-IsFloats = record { payload = one_float-floats; count = refl }

abbrev twice : List Sample → Outcome (List Sample)
twice fs = ok (fs ++ fs)

abbrev ones_round : IsRound samples twice (one_float, one_float)
ones_round = record {
  first = one ∷ [];
  second = one ∷ [];
  command = one ∷ one ∷ one ∷ one ∷ [];
  first_pack = one_float-IsFloats;
  second_pack = one_float-IsFloats;
  computes = refl;
  four = refl;
}

round-command_example :
    (cs' : CalculationsStock) × (h' : Heap Sample) × (round samples twice
        (record { heap = []; bs = initialize_batch_stock; cs = initialize_calculations_stock })
        (one_float, one_float)
      ≡ ok (record { heap = h'; bs = initialize_batch_stock; cs = cs' }))
    × Points h' cs'.calculations (one ∷ one ∷ one ∷ one ∷ [])
    × (live h' ≡ 6)
round-command_example = round-command samples twice [] initialize_calculations_stock ones_round

rounds-leak_example :
    (cs' : CalculationsStock) × (h' : Heap Sample) × (rounds samples twice
        (record { heap = []; bs = initialize_batch_stock; cs = initialize_calculations_stock })
        ((one_float, one_float) ∷ (one_float, one_float) ∷ [])
      ≡ ok (record { heap = h'; bs = initialize_batch_stock; cs = cs' }))
    × (live h' ≡ 12)
rounds-leak_example =
    rounds-leak samples twice [] initialize_calculations_stock
      ((one_float, one_float) ∷ (one_float, one_float) ∷ []) (ones_round, (ones_round, tt))
