-- ===== src/Client/Threads/Progress.antt =====
-- A call of `get_u` is never blocked for good, as long as the server answers.
use quadrocopt.Base.{
  ◌≡◌, ◌≢◌, refl, ap, ◌⊎◌, inl, inr, Bool, true, false, List, [], ◌∷◌, ◌++◌, arith, length,
  length-append, length-map, ◌+◌,
}
use quadrocopt.Client.Threads.{
  Batches, CalcPc, idle, wait_sender, adding, signal_sender, wait_listener, reading,
  signal_listener, SenderPc, wait_calc, fetching, signal_ready, sending, ListenerPc, receiving,
  wait_read, storing, signal_stored, System, wait_for_sender, add_batches, tell_sender,
  wait_for_listener, read_listener_batch, tell_listener, wait_for_calc, fetch_batches, tell_calc,
  send_calcs, receive_packet, wait_until_read, store_batch, signal_ready_batch, Step, CalcStep,
  SenderStep, ListenerStep, calculator, sender_thread, listener_thread, server, Reach,
  initial_batches,
}
use quadrocopt.Client.Threads.Invariant.{IsSystem, Answered, Reach-Answered}

module _ {F : Type 0} where
  abbrev pub ThreadStep : System F → System F → Type 0
  ThreadStep s t = CalcStep s t ⊎ SenderStep s t ⊎ ListenerStep s t

  abbrev pub ThreadMoves : System F → Type 0
  ThreadMoves s = (t : System F) × ThreadStep s t

  calc-Moves : {s t : System F} → CalcStep s t → ThreadMoves s
  calc-Moves st = (_, inl st)

  sender-Moves : {s t : System F} → SenderStep s t → ThreadMoves s
  sender-Moves st = (_, inr (inl st))

  listener-Moves : {s t : System F} → ListenerStep s t → ThreadMoves s
  listener-Moves st = (_, inr (inr st))

  abbrev pub IsQuiet : System F → Type 0
  IsQuiet s = (s.sender ≡ wait_calc) × (s.sender_to_signal ≡ false)

  -- `get_u` waits for a command, and all that could bring it one waits too.
  pub record IsStarved (s : System F) : Type 0 where
    pub waits : s.calc ≡ wait_listener
    pub quiet : IsQuiet s
    pub listens : s.listener ≡ receiving
    pub unsignalled : s.listener_from_signal ≡ false
    pub no_datagram : s.incoming ≡ []

  by_sender :
      {s : System F} (pc : SenderPc F) (b : Bool)
      → s.sender ≡ pc
      → s.sender_to_signal ≡ b
      → ThreadMoves s ⊎ IsQuiet s
  by_sender fetching b e f = inl (sender-Moves (fetch_batches e))
  by_sender (signal_ready c) b e f = inl (sender-Moves (tell_calc c e))
  by_sender (sending c) b e f = inl (sender-Moves (send_calcs c e))
  by_sender wait_calc true e f = inl (sender-Moves (wait_for_calc e f))
  by_sender wait_calc false e f = inr (e, f)

  by_queue :
      {s : System F}
      → s.calc ≡ wait_listener
      → s.listener ≡ receiving
      → s.listener_from_signal ≡ false
      → (inc : List (List F)) → s.incoming ≡ inc
      → ThreadMoves s ⊎ IsStarved s
  by_queue e l f (p ∷ inc) g = inl (listener-Moves (receive_packet p inc l g))
  by_queue {s} e l f [] g = elim (by_sender s.sender s.sender_to_signal refl refl) [
    | inl m ↦ inl m
    | inr q ↦ inr record { waits = e; quiet = q; listens = l; unsignalled = f; no_datagram = g }
  ]

module _ {F : Type 0} {nought : F} {left : List (Batches F)} {arrived : List (List F)} where
  asked-Moves :
      {s : System F} (b : Batches F)
      → IsSystem nought left arrived s
      → s.calc ≡ wait_sender b
      → ThreadMoves s
  asked-Moves {s} b i e = elim (by_sender s.sender s.sender_to_signal refl refl) [
    | inl m ↦ m
    | inr (p, q) ↦ calc-Moves (wait_for_sender b e (ground (arith, i.sender_token)))
  ]

  by_listener :
      {s : System F}
      → IsSystem nought left arrived s
      → s.calc ≡ wait_listener
      → (pc : ListenerPc F) (from to : Bool) → s.listener ≡ pc
      → s.listener_from_signal ≡ from
      → s.listener_to_signal ≡ to
      → ThreadMoves s ⊎ IsStarved s
  by_listener i e pc true to l f g = inl (calc-Moves (wait_for_listener e f))
  by_listener i e (storing p) false to l f g = inl (listener-Moves (store_batch p l))
  by_listener i e signal_stored false to l f g = inl (listener-Moves (signal_ready_batch l))
  by_listener i e (wait_read p) false true l f g = inl (listener-Moves (wait_until_read p l g))
  by_listener i e (wait_read p) false false l f g = absurd (ground (arith, i.listener_token))
  by_listener {s} i e receiving false to l f g = by_queue e l f s.incoming refl

  -- Inside `get_u` a thread of the client moves, or the client is starved.
  pub by_calculator :
      {s : System F}
      → IsSystem nought left arrived s
      → (pc : CalcPc F) → s.calc ≡ pc
      → pc ≢ idle
      → ThreadMoves s ⊎ IsStarved s
  by_calculator i idle e h = absurd (h refl)
  by_calculator i (wait_sender b) e h = inl (asked-Moves b i e)
  by_calculator i (adding b) e h = inl (calc-Moves (add_batches b e))
  by_calculator i signal_sender e h = inl (calc-Moves (tell_sender e))
  by_calculator {s} i wait_listener e h =
      by_listener i e s.listener s.listener_from_signal s.listener_to_signal refl refl refl
  by_calculator i reading e h = inl (calc-Moves (read_listener_batch e))
  by_calculator i signal_listener e h = inl (calc-Moves (tell_listener e))

  -- A starved client has two answers to come, for what has left and what is in its queue.
  pub starved-answers :
      {s : System F}
      → IsSystem nought left arrived s
      → IsStarved s
      → length left + length s.outgoing ≡ length arrived + 2
  starved-answers {s} i h =
      let gone : left ++ (s.outgoing ++ []) ≡ initial_batches nought ∷ s.asked =
        rw h.quiet.1 at (rw h.quiet.0 at (rw h.waits at i.out)) in
      let come : s.got ++ [] ≡ arrived =
        rw h.no_datagram at (rw h.unsignalled at (rw h.listens at (rw h.waits at i.back))) in
      ground (
        arith,
        i.balance,
        h.waits,
        ap length gone,
        ap length come,
        length-append left (s.outgoing ++ []),
        length-append s.outgoing [],
        length-append s.got [],
      )

module _ {F : Type 0} (nought : F) (answer : Batches F → List F) where
  abbrev Moves : System F → Type 0
  Moves s = (t : System F) × Step nought answer s t

  thread-Moves : {s : System F} → ThreadMoves s → Moves s
  thread-Moves (t, inl st) = (t, calculator st)
  thread-Moves (t, inr (inl st)) = (t, sender_thread st)
  thread-Moves (t, inr (inr st)) = (t, listener_thread st)

  server-Moves :
      {s : System F}
      → Answered nought answer s
      → IsStarved s
      → (out : List (Batches F)) → s.outgoing ≡ out
      → Moves s
  server-Moves a h (b ∷ out) e = (_, server b out e)
  server-Moves (left, i) h [] e =
      absurd (ground (arith, starved-answers i h, ap length e, length-map answer left))

  -- In every reachable state of the client inside a call of get_u, some thread or the server has a
  -- step.
  pub get_u-no_deadlock : {s : System F} → Reach nought answer s → s.calc ≢ idle → Moves s
  get_u-no_deadlock {s} r h =
      let a = Reach-Answered nought answer r in
      elim (by_calculator a.1 s.calc refl h) [
        | inl m ↦ thread-Moves m
        | inr starved ↦ server-Moves a starved s.outgoing refl
      ]
