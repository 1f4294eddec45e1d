-- ===== src/Server/Rounds.antt =====
-- The rounds of the server in its memory: `store_batch` of server/run_listener.c for both
-- listeners, then `read_batches` and `calculate_res` of server/main.c, round by round, with the
-- blocks of floats that they allocate and free. The memory of a packet and of its bytes is in
-- Packet/Memory and not part of the heap here.
pub mod Growth
mod Examples
use quadrocopt.Base.{ℕ, List, [], ◌∷◌, ◌++◌, length, none, some, Outcome, ok, ◌>>=◌, read_at}
use quadrocopt.Heap.{Ptr, Heap, deref, free}
use quadrocopt.Wire.{FloatRepr}
use quadrocopt.Packet.{Packet, get_floats, get_floats_count}
use quadrocopt.Server.Stock.{
  BatchStock, CalculationsStock, add_first_stock_to_batch, add_second_stock_to_batch, read_batches,
  add_to_calculations_stock,
}
use quadrocopt.Server.Spawn.{ListenerT, listener_first, listener_second}

module _ {F : Type 0} (r : FloatRepr F) where
  -- The floats of the packet are in a block of their own.
  unfoldable pub store_batch :
      ListenerT → Heap F → BatchStock → Packet → Outcome (BatchStock × Heap F)
  store_batch type_ h bs pack = do
    payload ← get_floats r pack
    let count = get_floats_count pack
    let stored : Heap F = h ++ some payload ∷ []
    elim type_ [
      | listener_first ↦ add_first_stock_to_batch stored bs (some (length h)) count
      | listener_second ↦ add_second_stock_to_batch stored bs (some (length h)) count
    ]

  -- The two listeners' batches of a round, the first one's first.
  abbrev pub store_batches :
      Heap F → BatchStock → (first second : Packet) → Outcome (BatchStock × Heap F)
  store_batches h bs first second = do
    one ← store_batch listener_first h bs first
    store_batch listener_second one.1 one.0 second

-- The first floats of a block, which a `memcpy` reads.
abbrev pub read_block : {F : Type 0} → Heap F → Ptr × ℕ → Outcome (List F)
read_block h (p, len) = do block ← deref h p; read_at block 0 len

-- `server_calculations` gives its result in a new block; only `received_data` is freed.
module _ {F : Type 0} (server_calculations : List F → Outcome (List F)) where
  unfoldable pub calculate_res :
      Heap F → CalculationsStock → (first second : Ptr × ℕ) → Outcome (CalculationsStock × Heap F)
  calculate_res h cs first second = do
    first_batch ← read_block h first
    second_batch ← read_block h second
    let received : Heap F = h ++ some (first_batch ++ second_batch) ∷ []
    calcs_results ← server_calculations (first_batch ++ second_batch)
    let calculated : Heap F = received ++ some calcs_results ∷ []
    freed ← free calculated (some (length h))
    add_to_calculations_stock freed cs (some (length received)) 4

-- What the server keeps from round to round.
pub record ServerMemory (F : Type 0) : Type 0 where
  pub heap : Heap F
  pub bs : BatchStock
  pub cs : CalculationsStock

module _ {F : Type 0} (r : FloatRepr F) (server_calculations : List F → Outcome (List F)) where
  -- A round, from the packets that the two listeners received.
  abbrev pub round : ServerMemory F → Packet × Packet → Outcome (ServerMemory F)
  round s (first, second) = do
    stored ← store_batches r s.heap s.bs first second
    batches ← read_batches stored.1 stored.0
    result ← calculate_res server_calculations batches.1.1 s.cs batches.0.0 batches.0.1
    ok (record { heap = result.1; bs = batches.1.0; cs = result.0 })

  unfoldable pub rounds : ServerMemory F → List (Packet × Packet) → Outcome (ServerMemory F)
  rounds s [] = ok s
  rounds s (packs ∷ rest) = do s ← round s packs; rounds s rest
