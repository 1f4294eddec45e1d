-- ===== src/Barrier/Together.antt =====
-- Nobody is past the barrier before all are there.
use quadrocopt.Base.{
  ℕ, suc, ◌+◌, ◌<◌, ◌≤◌, ◌≡◌, ◌≢◌, refl, ap, arith, List, [], ◌∷◌, ◌++◌, length, length-append, All,
}
use quadrocopt.Barrier.{
  WorkerPc, starting, at_barrier, running, MainPc, spawning, main_at_barrier, main_running, Start,
  Step, create, main_arrives, main_passes, worker_arrives, worker_passes, Reach, start, next,
}

-- The workers that have called the barrier, and those that are past it.
abbrev pub calls : List WorkerPc → ℕ
calls [] = 0
calls (starting ∷ ws) = calls ws
calls (at_barrier ∷ ws) = suc (calls ws)
calls (running ∷ ws) = suc (calls ws)

abbrev pub past : List WorkerPc → ℕ
past [] = 0
past (starting ∷ ws) = past ws
past (at_barrier ∷ ws) = past ws
past (running ∷ ws) = suc (past ws)

abbrev pub main_call : MainPc → ℕ
main_call spawning = 0
main_call main_at_barrier = 1
main_call main_running = 1

abbrev pub main_past : MainPc → ℕ
main_past spawning = 0
main_past main_at_barrier = 0
main_past main_running = 1

calls-append : (ws vs : List WorkerPc) → calls (ws ++ vs) ≡ calls ws + calls vs
calls-append [] vs = omega arith
calls-append (starting ∷ ws) vs = calls-append ws vs
calls-append (at_barrier ∷ ws) vs = omega (arith, calls-append ws vs)
calls-append (running ∷ ws) vs = omega (arith, calls-append ws vs)

past-append : (ws vs : List WorkerPc) → past (ws ++ vs) ≡ past ws + past vs
past-append [] vs = omega arith
past-append (starting ∷ ws) vs = past-append ws vs
past-append (at_barrier ∷ ws) vs = past-append ws vs
past-append (running ∷ ws) vs = omega (arith, past-append ws vs)

pub record IsStart (threads : ℕ) (s : Start) : Type 0 where
  pub created : length s.workers + s.left ≡ threads
  pub count : s.arrived ≡ calls s.workers + main_call s.main
  pub all_created : 0 < main_call s.main → s.left ≡ 0
  pub opened : 0 < past s.workers + main_past s.main → threads + 1 ≤ s.arrived

step-IsStart :
    (threads : ℕ) {s t : Start} → IsStart threads s → Step (threads + 1) s t → IsStart threads t
step-IsStart threads {s} is (create {k} e l) = record {
  created = omega (arith, is.created, l, length-append s.workers (starting ∷ []));
  count = omega (arith, is.count, calls-append s.workers (starting ∷ []));
  all_created = λ p. absurd (omega (arith, p, ap main_call e));
  opened = λ p. is.opened (omega (arith, p, past-append s.workers (starting ∷ [])));
}
step-IsStart threads {s} is (main_arrives e l) = record {
  created = is.created;
  count = omega (arith, is.count, ap main_call e);
  all_created = λ p. l;
  opened = λ p. omega (arith, is.opened (omega (arith, p, ap main_past e)));
}
step-IsStart threads {s} is (main_passes e enough) = record {
  created = is.created;
  count = omega (arith, is.count, ap main_call e);
  all_created = λ p. is.all_created (omega (arith, ap main_call e));
  opened = λ p. enough;
}
step-IsStart threads {s} is (worker_arrives ws vs e) = record {
  created = omega (
    arith,
    is.created,
    ap length e,
    length-append ws (starting ∷ vs),
    length-append ws (at_barrier ∷ vs),
  );
  count = omega (
    arith,
    is.count,
    ap calls e,
    calls-append ws (starting ∷ vs),
    calls-append ws (at_barrier ∷ vs),
  );
  all_created = is.all_created;
  opened = λ p. omega (
    arith,
    is.opened (
        omega
          (arith, p, ap past e, past-append ws (starting ∷ vs), past-append ws (at_barrier ∷ vs))),
  );
}
step-IsStart threads {s} is (worker_passes ws vs e enough) = record {
  created = omega (
    arith,
    is.created,
    ap length e,
    length-append ws (at_barrier ∷ vs),
    length-append ws (running ∷ vs),
  );
  count = omega (
    arith,
    is.count,
    ap calls e,
    calls-append ws (at_barrier ∷ vs),
    calls-append ws (running ∷ vs),
  );
  all_created = is.all_created;
  opened = λ p. enough;
}

pub reach-IsStart : (threads : ℕ) {s : Start} → Reach threads (threads + 1) s → IsStart threads s
reach-IsStart threads start = record {
  created = omega arith;
  count = refl;
  all_created = λ p. absurd (omega (arith, p));
  opened = λ p. absurd (omega (arith, p));
}
reach-IsStart threads (next r step) = step-IsStart threads (reach-IsStart threads r) step

pub calls_le : (ws : List WorkerPc) → calls ws ≤ length ws
calls_le [] = omega arith
calls_le (starting ∷ ws) = omega (arith, calls_le ws)
calls_le (at_barrier ∷ ws) = omega (arith, calls_le ws)
calls_le (running ∷ ws) = omega (arith, calls_le ws)

all_called : (ws : List WorkerPc) → length ws ≤ calls ws → All (λ w. w ≢ starting) ws
all_called [] le = tt
all_called (starting ∷ ws) le = absurd (omega (arith, le, calls_le ws))
all_called (at_barrier ∷ ws) le = (λ e. cc, all_called ws (omega (arith, le)))
all_called (running ∷ ws) le = (λ e. cc, all_called ws (omega (arith, le)))

main_call_le : (m : MainPc) → main_call m ≤ 1
main_call_le spawning = omega arith
main_call_le main_at_barrier = omega arith
main_call_le main_running = omega arith

-- A barrier for one thread more than the workers that are created: in every reachable state where
-- the main thread or a worker is past the barrier, all of the workers have been created, each of
-- them has called the barrier, and so has the main thread.
pub spawn_workers-together :
    (threads size : ℕ) {s : Start}
    → size ≡ threads + 1
    → Reach threads size s
    → 0 < past s.workers + main_past s.main
    → (s.left ≡ 0)
      × (length s.workers ≡ threads)
      × All (λ w. w ≢ starting) s.workers
      × (s.main ≢ spawning)
spawn_workers-together threads size {s} e r p =
    let is = reach-IsStart threads (rw e at r) in
    let open' = is.opened p in
    let le = calls_le s.workers in
    let one = main_call_le s.main in
    (
      omega (arith, is.created, is.count, open', le, one),
      omega (arith, is.created, is.count, open', le, one),
      all_called s.workers (omega (arith, is.created, is.count, open', one)),
      λ m. omega (arith, ap main_call m, is.created, is.count, open', le),
    )
