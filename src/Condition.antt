-- ===== src/Condition.antt =====
-- A `ThreadConditionPack` (client/threading_stuff.c, server/threading_stuff.c) between the thread
-- that waits on it and the thread that signals it, call by call. What the calls of pthreads do is
-- their documented behaviour: a lock is taken when it is free, `pthread_cond_wait` gives the lock
-- back, wakes for a signal or for no reason, and takes the lock again before it returns, and
-- `pthread_cond_signal` wakes a thread that waits.
pub mod Atomic
pub mod Wakeup
mod Examples
use quadrocopt.Base.{
  ℕ, suc, ◌≡◌, Bool, true, false, List, [], ◌∷◌, ◌++◌, get_elem?, Outcome, ok, ◌>>=◌, or_fault,
}

pub data Owner : Type 0 where
  nobody waiter_owns signaller_owns : Owner

-- The structure; the mutex is shown by its owner.
pub record ThreadConditionPack : Type 0 where
  pub mutex_to_use : Owner
  pub cond_to_verify : Bool

abbrev pub init_thread_cond_pack : ThreadConditionPack
init_thread_cond_pack = record { mutex_to_use = nobody; cond_to_verify = false }

abbrev pub set_cond_to_verify_to_true : ThreadConditionPack → ThreadConditionPack
set_cond_to_verify_to_true pack = record pack { cond_to_verify = true }

abbrev pub set_cond_to_verify_to_false : ThreadConditionPack → ThreadConditionPack
set_cond_to_verify_to_false pack = record pack { cond_to_verify = false }

abbrev pub is_cond_false : ThreadConditionPack → Bool
is_cond_false pack = elim pack.cond_to_verify [ true ↦ false | false ↦ true ]

-- `initialize_thread_cond_pack` of client/main.c and of server/main.c.
abbrev pub initialize_thread_cond_pack : (init_verif_var : Bool) → ThreadConditionPack
initialize_thread_cond_pack false = set_cond_to_verify_to_false init_thread_cond_pack
initialize_thread_cond_pack true = set_cond_to_verify_to_true init_thread_cond_pack

-- Packs in memory, by their addresses, and the flag of one.
abbrev pub Packs : Type 0
Packs = List ThreadConditionPack

abbrev pub flag : Packs → ℕ → Outcome Bool
flag packs i = or_fault (get_elem? packs i) >>= λ pack. ok pack.cond_to_verify

-- Where the one thread stands in `wait_with_pack`, and the other in `signal_with_pack`.
pub data WaiterPc : Type 0 where
  outside testing blocked woken seen cleared : WaiterPc

pub data SignallerPc : Type 0 where
  away setting raised signalled : SignallerPc

pub data Event : Type 0 where
  wait signal : Event

-- `log` records the stores to the flag, and `returned` counts the calls of `wait_with_pack` that
-- have come back.
pub record System : Type 0 where
  pub pack : ThreadConditionPack
  pub waiter : WaiterPc
  pub signaller : SignallerPc
  pub log : List Event
  pub returned : ℕ

abbrev pub initial : Bool → System
initial init_verif_var = record {
  pack = initialize_thread_cond_pack init_verif_var;
  waiter = outside;
  signaller = away;
  log = [];
  returned = 0;
}

abbrev pub own : Owner → ThreadConditionPack → ThreadConditionPack
own who pack = record pack { mutex_to_use = who }

pub data WaiterStep (s : System) : System → Type 0 where
  lock_to_wait :
      s.waiter ≡ outside
      → s.pack.mutex_to_use ≡ nobody
      → WaiterStep s (record s { waiter = testing; pack = own waiter_owns s.pack })
  cond_wait :
      s.waiter ≡ testing
      → is_cond_false s.pack ≡ true
      → WaiterStep s (record s { waiter = blocked; pack = own nobody s.pack })
  wake_for_no_reason : s.waiter ≡ blocked → WaiterStep s (record s { waiter = woken })
  lock_again :
      s.waiter ≡ woken
      → s.pack.mutex_to_use ≡ nobody
      → WaiterStep s (record s { waiter = testing; pack = own waiter_owns s.pack })
  leave_loop :
      s.waiter ≡ testing → is_cond_false s.pack ≡ false → WaiterStep s (record s { waiter = seen })
  clear :
      s.waiter ≡ seen
      → WaiterStep s (record s {
        waiter = cleared;
        pack = set_cond_to_verify_to_false s.pack;
        log = s.log ++ wait ∷ [];
      })
  unlock_waited :
      s.waiter ≡ cleared
      → WaiterStep s
          (record s { waiter = outside; pack = own nobody s.pack; returned = suc s.returned })

-- The thread that a signal wakes.
abbrev pub wake : WaiterPc → WaiterPc
wake blocked = woken
wake outside = outside
wake testing = testing
wake woken = woken
wake seen = seen
wake cleared = cleared

pub data SignallerStep (s : System) : System → Type 0 where
  lock_to_signal :
      s.signaller ≡ away
      → s.pack.mutex_to_use ≡ nobody
      → SignallerStep s (record s { signaller = setting; pack = own signaller_owns s.pack })
  set :
      s.signaller ≡ setting
      → SignallerStep s (record s {
        signaller = raised;
        pack = set_cond_to_verify_to_true s.pack;
        log = s.log ++ signal ∷ [];
      })
  cond_signal :
      s.signaller ≡ raised
      → SignallerStep s (record s { signaller = signalled; waiter = wake s.waiter })
  unlock_signalled :
      s.signaller ≡ signalled
      → SignallerStep s (record s { signaller = away; pack = own nobody s.pack })

pub data Step (s : System) : System → Type 0 where
  waiter_thread : {t : System} → WaiterStep s t → Step s t
  signaller_thread : {t : System} → SignallerStep s t → Step s t

pub data Reach (init_verif_var : Bool) : System → Type 0 where
  start : Reach init_verif_var (initial init_verif_var)
  next : {s t : System} → Reach init_verif_var s → Step s t → Reach init_verif_var t
