-- ===== src/Condition/Examples.antt =====
-- A wait that blocks, and a signal that is half done.
use quadrocopt.Base.{◌+◌, ◌≤◌, ◌≡◌, refl, true, false, [], ◌∷◌}
use quadrocopt.Condition.{
  signaller_owns, blocked, woken, raised, signal, System, lock_to_wait, cond_wait, SignallerStep,
  lock_to_signal, set, Reach, waiter_thread, signaller_thread, start, next,
}
use quadrocopt.Condition.Atomic.{Run, waits, holds_waiting, holds_signalling, waits_are_atomic}
use quadrocopt.Condition.Wakeup.{no_lost_wakeup}

-- The flag is true, and the waiting thread has not been woken yet.
abbrev half_signalled : System
half_signalled = record {
  pack = record { mutex_to_use = signaller_owns; cond_to_verify = true };
  waiter = blocked;
  signaller = raised;
  log = signal ∷ [];
  returned = 0;
}

half_signalled-Reach : Reach false half_signalled
half_signalled-Reach =
    next
      (next
        (next (next start (waiter_thread (lock_to_wait refl refl)))
          (waiter_thread (cond_wait refl refl)))
        (signaller_thread (lock_to_signal refl refl)))
      (signaller_thread (set refl))

waits_are_atomic_example :
    Run false (signal ∷ []) true
    × (half_signalled.returned ≤ waits (signal ∷ []))
    × (waits (signal ∷ []) ≤ half_signalled.returned + 1)
    × (holds_waiting blocked + holds_signalling raised ≤ 1)
waits_are_atomic_example = waits_are_atomic false half_signalled-Reach

no_lost_wakeup_example :
    (t : System) × SignallerStep half_signalled t
    × (t.waiter ≡ woken)
    × (t.pack.cond_to_verify ≡ true)
no_lost_wakeup_example = no_lost_wakeup false half_signalled-Reach refl refl
