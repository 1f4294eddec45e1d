-- ===== src/Condition/Wakeup.antt =====
-- No signal is lost: between the test of the flag and the wait, which gives the mutex back, no
-- signal can come.
use quadrocopt.Base.{◌≡◌, ◌≢◌, refl, arith, Bool, true}
use quadrocopt.Condition.{
  WaiterPc, outside, testing, blocked, woken, seen, cleared, raised, signalled, System, WaiterStep,
  lock_to_wait, cond_wait, wake_for_no_reason, lock_again, leave_loop, clear, unlock_waited, wake,
  SignallerStep, lock_to_signal, set, cond_signal, unlock_signalled, waiter_thread,
  signaller_thread, Reach, start, next,
}

-- A thread that waits although the flag is true is about to be woken.
abbrev Woken : System → Type 0
Woken s = s.waiter ≡ blocked → s.pack.cond_to_verify ≡ true → s.signaller ≡ raised

wake-blocked : (pc : WaiterPc) → wake pc ≢ blocked
wake-blocked outside e = cc
wake-blocked testing e = cc
wake-blocked blocked e = cc
wake-blocked woken e = cc
wake-blocked seen e = cc
wake-blocked cleared e = cc

WaiterStep-Woken : {s t : System} → WaiterStep s t → Woken s → Woken t
WaiterStep-Woken (lock_to_wait e f) w b g = cc
WaiterStep-Woken (cond_wait e f) w b g = ground arith
WaiterStep-Woken (wake_for_no_reason e) w b g = cc
WaiterStep-Woken (lock_again e f) w b g = cc
WaiterStep-Woken (leave_loop e f) w b g = cc
WaiterStep-Woken (clear e) w b g = cc
WaiterStep-Woken (unlock_waited e) w b g = cc

SignallerStep-Woken : {s t : System} → SignallerStep s t → Woken s → Woken t
SignallerStep-Woken (lock_to_signal e f) w b g = cc (w b g)
SignallerStep-Woken (set e) w b g = refl
SignallerStep-Woken {s} (cond_signal e) w b g = absurd (wake-blocked s.waiter b)
SignallerStep-Woken (unlock_signalled e) w b g = cc (w b g)

Reach-Woken : (init : Bool) {s : System} → Reach init s → Woken s
Reach-Woken init start b g = cc
Reach-Woken init (next r (waiter_thread st)) b g = WaiterStep-Woken st (Reach-Woken init r) b g
Reach-Woken init (next r (signaller_thread st)) b g =
    SignallerStep-Woken st (Reach-Woken init r) b g

-- In every reachable state where a thread is blocked in `pthread_cond_wait` although the flag is
-- true, the other thread is about to signal, and that call wakes it.
pub no_lost_wakeup :
    (init : Bool) {s : System}
    → Reach init s
    → s.waiter ≡ blocked
    → s.pack.cond_to_verify ≡ true
    → (t : System) × SignallerStep s t × (t.waiter ≡ woken) × (t.pack.cond_to_verify ≡ true)
no_lost_wakeup init {s} r b g = (
  record s { signaller = signalled; waiter = wake s.waiter },
  cond_signal (Reach-Woken init r b g),
  rw b,
  g,
)
