-- ===== src/Condition/Atomic.antt =====
-- A wait and a signal each act at one moment: the mutex keeps the threads apart, and the stores to
-- the flag, in their order, are a run in which a wait finds the flag true and clears it at once.
use mathlib.Core.Path.{subst}
use quadrocopt.Base.{
  ◌≤◌, ℕ, suc, ◌+◌, ◌≡◌, refl, ap, arith, Bool, true, false, List, [], ◌∷◌, ◌++◌, sym, ◌∙◌,
}
use quadrocopt.Condition.{
  Owner, nobody, waiter_owns, signaller_owns, WaiterPc, outside, testing, blocked, woken, seen,
  cleared, SignallerPc, away, setting, raised, signalled, Event, wait, signal, System, WaiterStep,
  lock_to_wait, cond_wait, wake_for_no_reason, lock_again, leave_loop, clear, unlock_waited, wake,
  SignallerStep, lock_to_signal, set, cond_signal, unlock_signalled, waiter_thread,
  signaller_thread, Reach, start, next,
}

-- Who holds the mutex, by where the threads stand.
abbrev pub holds_waiting : WaiterPc → ℕ
holds_waiting outside = 0
holds_waiting testing = 1
holds_waiting blocked = 0
holds_waiting woken = 0
holds_waiting seen = 1
holds_waiting cleared = 1

abbrev pub holds_signalling : SignallerPc → ℕ
holds_signalling away = 0
holds_signalling setting = 1
holds_signalling raised = 1
holds_signalling signalled = 1

abbrev pub as_waiter : Owner → ℕ
as_waiter nobody = 0
as_waiter waiter_owns = 1
as_waiter signaller_owns = 0

abbrev pub as_signaller : Owner → ℕ
as_signaller nobody = 0
as_signaller waiter_owns = 0
as_signaller signaller_owns = 1

-- The flag after a run of waits and signals that each act at one moment.
pub data Run (init : Bool) : List Event → Bool → Type 0 where
  none_yet : Run init [] init
  waited : {l : List Event} → Run init l true → Run init (l ++ wait ∷ []) false
  signal_sent : {l : List Event} {b : Bool} → Run init l b → Run init (l ++ signal ∷ []) true

abbrev pub waits : List Event → ℕ
waits [] = 0
waits (wait ∷ l) = suc (waits l)
waits (signal ∷ l) = waits l

waits-wait : (l : List Event) → waits (l ++ wait ∷ []) ≡ suc (waits l)
waits-wait [] = refl
waits-wait (wait ∷ l) = ap suc (waits-wait l)
waits-wait (signal ∷ l) = waits-wait l

waits-signal : (l : List Event) → waits (l ++ signal ∷ []) ≡ waits l
waits-signal [] = refl
waits-signal (wait ∷ l) = ap suc (waits-signal l)
waits-signal (signal ∷ l) = waits-signal l

abbrev pub unreturned : WaiterPc → ℕ
unreturned outside = 0
unreturned testing = 0
unreturned blocked = 0
unreturned woken = 0
unreturned seen = 0
unreturned cleared = 1

unreturned-le : (pc : WaiterPc) → unreturned pc ≤ 1
unreturned-le cleared = omega arith
unreturned-le outside = omega arith
unreturned-le testing = omega arith
unreturned-le blocked = omega arith
unreturned-le woken = omega arith
unreturned-le seen = omega arith

one_owner : (who : Owner) → as_waiter who + as_signaller who ≤ 1
one_owner nobody = omega arith
one_owner waiter_owns = omega arith
one_owner signaller_owns = omega arith

-- A signal leaves all but a blocked thread where it is.
holds-wake : (pc : WaiterPc) → holds_waiting (wake pc) ≡ holds_waiting pc
holds-wake outside = refl
holds-wake testing = refl
holds-wake blocked = refl
holds-wake woken = refl
holds-wake seen = refl
holds-wake cleared = refl

unreturned-wake : (pc : WaiterPc) → unreturned (wake pc) ≡ unreturned pc
unreturned-wake outside = refl
unreturned-wake testing = refl
unreturned-wake blocked = refl
unreturned-wake woken = refl
unreturned-wake seen = refl
unreturned-wake cleared = refl

seen-wake : (pc : WaiterPc) → wake pc ≡ seen → pc ≡ seen
seen-wake outside e = cc
seen-wake testing e = cc
seen-wake blocked e = cc
seen-wake woken e = cc
seen-wake seen e = refl
seen-wake cleared e = cc

pub record IsAtomic (init : Bool) (s : System) : Type 0 where
  pub by_waiter : as_waiter s.pack.mutex_to_use ≡ holds_waiting s.waiter
  pub by_signaller : as_signaller s.pack.mutex_to_use ≡ holds_signalling s.signaller
  pub flag : s.waiter ≡ seen → s.pack.cond_to_verify ≡ true
  pub run : Run init s.log s.pack.cond_to_verify
  pub count : waits s.log ≡ s.returned + unreturned s.waiter

WaiterStep-IsAtomic :
    {init : Bool} {s t : System} → WaiterStep s t → IsAtomic init s → IsAtomic init t
WaiterStep-IsAtomic (lock_to_wait e f) i = ground (arith, i.by_waiter, i.by_signaller, i.count)
WaiterStep-IsAtomic (cond_wait e f) i = ground (arith, i.by_waiter, i.by_signaller, i.count)
WaiterStep-IsAtomic (wake_for_no_reason e) i = ground (arith, i.by_waiter, i.by_signaller, i.count)
WaiterStep-IsAtomic (lock_again e f) i = ground (arith, i.by_waiter, i.by_signaller, i.count)
WaiterStep-IsAtomic (leave_loop e f) i = ground (arith, i.by_waiter, i.by_signaller, i.count)
WaiterStep-IsAtomic {init} {s} (clear e) i = record {
  by_waiter = ground (arith, i.by_waiter);
  by_signaller = i.by_signaller;
  flag = λ c. cc;
  run = waited (subst (Run init s.log) (i.flag e) i.run);
  count = omega (arith, waits-wait s.log, i.count, ap unreturned e);
}
WaiterStep-IsAtomic (unlock_waited e) i = ground (arith, i.by_waiter, i.by_signaller, i.count)

SignallerStep-IsAtomic :
    {init : Bool} {s t : System} → SignallerStep s t → IsAtomic init s → IsAtomic init t
SignallerStep-IsAtomic (lock_to_signal e f) i = ground (arith, i.by_waiter, i.by_signaller, i.count)
SignallerStep-IsAtomic {init} {s} (set e) i = record {
  by_waiter = i.by_waiter;
  by_signaller = ground (arith, i.by_signaller);
  flag = λ c. refl;
  run = signal_sent i.run;
  count = omega (arith, waits-signal s.log, i.count);
}
SignallerStep-IsAtomic {init} {s} (cond_signal e) i = record {
  by_waiter = i.by_waiter ∙ sym (holds-wake s.waiter);
  by_signaller = ground (arith, i.by_signaller);
  flag = λ c. i.flag (seen-wake s.waiter c);
  run = i.run;
  count = omega (arith, unreturned-wake s.waiter, i.count);
}
SignallerStep-IsAtomic (unlock_signalled e) i = ground (arith, i.by_waiter, i.by_signaller, i.count)

pub Reach-IsAtomic : (init : Bool) {s : System} → Reach init s → IsAtomic init s
Reach-IsAtomic true start = record {
  by_waiter = refl;
  by_signaller = refl;
  flag = λ c. cc;
  run = none_yet;
  count = refl;
}
Reach-IsAtomic false start = record {
  by_waiter = refl;
  by_signaller = refl;
  flag = λ c. cc;
  run = none_yet;
  count = refl;
}
Reach-IsAtomic init (next r (waiter_thread st)) = WaiterStep-IsAtomic st (Reach-IsAtomic init r)
Reach-IsAtomic init (next r (signaller_thread st)) =
    SignallerStep-IsAtomic st (Reach-IsAtomic init r)

-- In every reachable state of the two threads: the stores to the flag so far are a run of waits and
-- signals that act at one moment each, where a wait finds the flag true and clears it, and end with
-- the flag as it is; each call of `wait_with_pack` that came back is one wait of it, with at most
-- one more, of a call that is about to come back; and not both threads hold the mutex.
pub waits_are_atomic :
    (init : Bool) {s : System}
    → Reach init s
    → Run init s.log s.pack.cond_to_verify
      × (s.returned ≤ waits s.log)
      × (waits s.log ≤ s.returned + 1)
      × (holds_waiting s.waiter + holds_signalling s.signaller ≤ 1)
waits_are_atomic init {s} r =
    let i = Reach-IsAtomic init r in
    (
      i.run,
      omega (arith, i.count),
      omega (arith, i.count, unreturned-le s.waiter),
      omega (arith, i.by_waiter, i.by_signaller, one_owner s.pack.mutex_to_use),
    )
