-- ===== src/Barrier/Starting.antt =====
-- The threads do not wait for each other for ever: somebody can always go on until all are past.
use quadrocopt.Base.{
  ℕ, zero, suc, ◌+◌, ◌≡◌, refl, ap, arith, List, [], ◌∷◌, ◌++◌, length, All, ◌⊎◌, inl, inr,
}
use quadrocopt.Barrier.{
  WorkerPc, starting, at_barrier, running, MainPc, spawning, main_at_barrier, main_running, Start,
  Step, create, main_arrives, main_passes, worker_arrives, worker_passes, Reach,
}
use quadrocopt.Barrier.Together.{calls, main_call, calls_le, IsStart, reach-IsStart}

find_starting :
    (ws : List WorkerPc)
    → ((us vs : List WorkerPc) × (ws ≡ us ++ starting ∷ vs)) ⊎ (calls ws ≡ length ws)
find_starting [] = inr refl
find_starting (starting ∷ ws) = inl ([], ws, refl)
find_starting (at_barrier ∷ ws) = elim (find_starting ws) [
  | inl (us, vs, e) ↦ inl (at_barrier ∷ us, vs, ap (λ l. at_barrier ∷ l) e)
  | inr e ↦ inr (ap suc e)
]
find_starting (running ∷ ws) = elim (find_starting ws) [
  | inl (us, vs, e) ↦ inl (running ∷ us, vs, ap (λ l. running ∷ l) e)
  | inr e ↦ inr (ap suc e)
]

find_waiting :
    (ws : List WorkerPc)
    → calls ws ≡ length ws
    → ((us vs : List WorkerPc) × (ws ≡ us ++ at_barrier ∷ vs)) ⊎ All (λ w. w ≡ running) ws
find_waiting [] e = inr tt
find_waiting (starting ∷ ws) e = absurd (omega (arith, e, calls_le ws))
find_waiting (at_barrier ∷ ws) e = inl ([], ws, refl)
find_waiting (running ∷ ws) e = elim (find_waiting ws (omega (arith, e))) [
  | inl (us, vs, d) ↦ inl (running ∷ us, vs, ap (λ l. running ∷ l) d)
  | inr all ↦ inr (refl, all)
]

-- All of the workers are there: one of the threads that wait passes, or none waits.
all_there :
    (threads : ℕ) {s : Start} (m : MainPc)
    → s.main ≡ m
    → IsStart threads s
    → calls s.workers ≡ length s.workers
    → ((t : Start) × Step (threads + 1) s t)
      ⊎ ((s.main ≡ main_running) × All (λ w. w ≡ running) s.workers)
all_there threads {s} spawning e is all = by_left s.left refl
  where
    by_left :
        (k : ℕ)
        → s.left ≡ k
        → ((t : Start) × Step (threads + 1) s t)
          ⊎ ((s.main ≡ main_running) × All (λ w. w ≡ running) s.workers)
    by_left zero l = inl (_, main_arrives e l)
    by_left (suc k) l = inl (_, create e l)
all_there threads {s} main_at_barrier e is all = inl (
  _,
  main_passes e (
      omega (
        arith,
        is.count,
        is.created,
        all,
        ap main_call e,
        is.all_created (omega (arith, ap main_call e)),
      )),
)
all_there threads {s} main_running e is all = elim (find_waiting s.workers all) [
  | inl (us, vs, d) ↦ inl (
    _,
    worker_passes us vs d (
        omega (
          arith,
          is.count,
          is.created,
          all,
          ap main_call e,
          is.all_created (omega (arith, ap main_call e)),
        )),
  )
  | inr run ↦ inr (e, run)
]

-- With such a barrier, in every reachable state some thread has a step, or the main thread and all
-- of the workers are past the barrier.
pub spawn_workers-starts :
    (threads size : ℕ) {s : Start}
    → size ≡ threads + 1
    → Reach threads size s
    → ((t : Start) × Step size s t) ⊎ ((s.main ≡ main_running) × All (λ w. w ≡ running) s.workers)
spawn_workers-starts threads size {s} e r = rw e (elim (find_starting s.workers) [
  | inl (us, vs, d) ↦ inl (_, worker_arrives us vs d)
  | inr all ↦ all_there threads s.main refl (reach-IsStart threads (rw e at r)) all
])
