-- ===== src/Conversation/Network.antt =====
-- A run without disturbances is one of the threads alone.
use quadrocopt.Base.{ℕ, ◌≡◌, arith, List}
use quadrocopt.Conversation.{World, Reach, start, next, Run, begin, thread, network}

module _ {F : Type 0} {nought : F} {server_calculations : List F → List F} where
  pub undisturbed :
      {n : ℕ} {w : World F}
      → Run nought server_calculations n w
      → n ≡ 0
      → Reach nought server_calculations w
  undisturbed begin none = start
  undisturbed (thread r st) none = next (undisturbed r none) st
  undisturbed (network r d) none = absurd (omega (arith, none))
