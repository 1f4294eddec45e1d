-- ===== src/Heap.antt =====
-- Memory as the stocks use it: blocks of floats from `malloc`, and `copy_arr_of_floats`, which
-- client/utils.c and server/data_struct.c both define. Block i of the heap is the one that
-- allocation number i gave; it is empty once it is freed. `malloc` is taken to succeed.
pub mod Laws
use quadrocopt.Base.{
  ℕ, zero, suc, ◌+◌, List, [], ◌∷◌, ◌++◌, length, take, get_elem?, Option, none, some, Outcome, ok,
  fault, ◌>>=◌, or_fault, read_at,
}

-- `NULL` is `none`.
abbrev pub Ptr : Type 0
Ptr = Option ℕ

abbrev pub Heap : Type 0 → Type 0
Heap F = List (Option (List F))

module _ {F : Type 0} where
  abbrev pub release : Heap F → ℕ → Heap F
  release [] i = []
  release (b ∷ h) zero = none ∷ h
  release (b ∷ h) (suc i) = b ∷ release h i

  -- The floats of a block in use.
  abbrev pub block_at : Heap F → ℕ → Outcome (List F)
  block_at [] i = fault
  block_at (none ∷ h) zero = fault
  block_at (some b ∷ h) zero = ok b
  block_at (_ ∷ h) (suc i) = block_at h i

  abbrev pub deref : Heap F → Ptr → Outcome (List F)
  deref h none = fault
  deref h (some i) = block_at h i

  -- A free of `NULL` does nothing; a free of anything but a block in use is undefined.
  unfoldable pub free : Heap F → Ptr → Outcome (Heap F)
  free h none = ok h
  free h (some i) = do _ ← block_at h i; ok (release h i)

  -- The sizes of the malloc and of the memcpy are the same `sizeof(float) * arr_size`. A block has
  -- fewer than 2^62 floats, so that the product does not wrap for a size that lies in the block; a
  -- size that does not is a fault here, also where the product wraps to a small number.
  unfoldable pub copy_arr_of_floats : Heap F → (arr : Ptr) (arr_size : ℕ) → Outcome (Ptr × Heap F)
  copy_arr_of_floats h arr arr_size = do
    b ← deref h arr
    copy ← read_at b 0 arr_size
    ok (some (length h), h ++ some copy ∷ [])

  -- The number of blocks in use.
  abbrev pub live : Heap F → ℕ
  live [] = 0
  live (none ∷ h) = live h
  live (some b ∷ h) = suc (live h)
