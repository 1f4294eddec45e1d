-- ===== src/Conversation/Progress.antt =====
-- A call of `get_u` is never blocked for good by the threads of the two programs.
use quadrocopt.Base.{
  ℕ, ◌≡◌, ◌≢◌, refl, ap, sym, ◌∙◌, ◌⊎◌, inl, inr, Bool, true, false, List, [], ◌∷◌, ◌++◌, arith,
  length, length-append, length-map,
}
use mathlib.Core.List.{append-nil}
use quadrocopt.Client.Threads.{Batches, idle}
use quadrocopt.Client.Threads.Progress.{ThreadMoves, IsStarved, by_calculator, starved-answers}
use quadrocopt.Server.Threads.{
  ListenerPc, receiving, receive_packet, waiting, storing, signalling, CalcPc, wait_first,
  wait_second, reading, signal_first, signal_second, calculating, wait_sender, signal_sender,
  SenderPc, wait_calc, sending, signal_ready, System as Server, Reach as ServerReach,
  wait_listener_one, wait_listener_two, read_batches, signal_listener_one, signal_listener_two,
  calculate_res, wait_for_sender, signal_calculated, wait_for_calculator, send_calcs,
  signal_sender_ready,
}
use quadrocopt.Server.Threads.Handshake.{free, IsChannel, received-read}
use quadrocopt.Server.Threads.Invariant.{Reach-IsSystem}
use quadrocopt.Server.Threads.Pairing.{batches-InOrder, length-results_of}
use quadrocopt.Server.Threads.Progress.{listener-Works}
use quadrocopt.Server.Threads.Sending.{Reach-IsSent}
use quadrocopt.Conversation.{
  World, Step, Run, client_calculator, client_sender, client_listener, send_first, send_second,
  listener_one_receives, listener_two_receives, listener_one_works, listener_two_works,
  server_calculator, server_sends, server_sender_works,
}
use quadrocopt.Conversation.Network.{undisturbed}
use quadrocopt.Conversation.Journey.{IsConversation, Reach-Conversation}

module _ {F : Type 0} where
  abbrev IsIdle : Server F → Type 0
  IsIdle s = (s.sender ≡ wait_calc) × (s.calc_to_sender_signal ≡ false)

  ListenerPc-receiving : (pc : ListenerPc F) → (pc ≡ receiving) ⊎ (pc ≢ receiving)
  ListenerPc-receiving receiving = inl refl
  ListenerPc-receiving (waiting p) = inr (λ e. cc)
  ListenerPc-receiving (storing p) = inr (λ e. cc)
  ListenerPc-receiving signalling = inr (λ e. cc)

module _ {F : Type 0} (server_calculations : List F → List F) where
  -- Where the calculator waits for a listener and the sender for the calculator, a result was sent
  -- for each pair that was read.
  all_sent :
      {s : Server F}
      → ServerReach server_calculations s
      → IsIdle s
      → (s.calc ≡ wait_first) ⊎ (s.calc ≡ wait_second)
      → (length s.one.read ≡ length s.sent) × (length s.two.read ≡ length s.sent)
  all_sent {s} r q w =
      let (_, _, _, _, _, _, same, pairs) = batches-InOrder server_calculations r in
      let sent = (Reach-IsSent server_calculations r).count in
      let n = length-results_of server_calculations s.one.read s.two.read same in
      elim w [
        | inl e ↦
            let all = ap length (rw e at pairs) in
            ground (arith, all, n, same, sent, length-append s.results [])
        | inr e ↦
            let all = ap length (rw e at pairs) in
            ground (arith, all, n, same, sent, length-append s.results [])
      ]

module _ {F : Type 0} (nought : F) (server_calculations : List F → List F) where
  abbrev Moves : World F → Type 0
  Moves w = (v : World F) × Step nought server_calculations w v

  client-Moves : {w : World F} → ThreadMoves w.client → Moves w
  client-Moves (c, inl st) = (_, client_calculator st)
  client-Moves (c, inr (inl st)) = (_, client_sender st)
  client-Moves (c, inr (inr st)) = (_, client_listener st)

  by_server_sender :
      {w : World F} (pc : SenderPc) (b : Bool)
      → w.server.sender ≡ pc
      → w.server.calc_to_sender_signal ≡ b
      → Moves w ⊎ IsIdle w.server
  by_server_sender sending b e f = inl (_, server_sends _ (send_calcs e) refl)
  by_server_sender signal_ready b e f = inl (_, server_sender_works (signal_sender_ready e) refl)
  by_server_sender wait_calc true e f = inl (_, server_sender_works (wait_for_calculator e f) refl)
  by_server_sender wait_calc false e f = inr (e, f)

  -- The calculator waits for the first listener: it has its signal, the listener moves, or all
  -- that was sent to the listener is read.
  by_listener_one :
      {w : World F}
      → IsChannel w.server.one free
      → w.server.calc ≡ wait_first
      → (b : Bool) → w.server.one.listener_signal ≡ b
      → (q : List (List F)) → w.to_one ≡ q
      → Moves w ⊎ ((w.server.one.received ≡ w.server.one.read) × (w.to_one ≡ []))
  by_listener_one i e true f q g = inl (_, server_calculator (wait_listener_one e f))
  by_listener_one {w} i e false f q g = elim (ListenerPc-receiving w.server.one.pc) [
    | inr busy ↦ elim (listener-Works i busy) [
      | inl (c, st, same) ↦ inl (_, listener_one_works st same)
      | inr signal ↦ inl (_, server_calculator (wait_listener_one e signal))
    ]
    | inl ready ↦ by_queue q g ready
  ]
    where
      by_queue :
          (q : List (List F))
          → w.to_one ≡ q
          → w.server.one.pc ≡ receiving
          → Moves w ⊎ ((w.server.one.received ≡ w.server.one.read) × (w.to_one ≡ []))
      by_queue (p ∷ q) g ready = inl (_, listener_one_receives p q g (receive_packet p ready) refl)
      by_queue [] g ready = inr (received-read i ready f, g)

  by_listener_two :
      {w : World F}
      → IsChannel w.server.two free
      → w.server.calc ≡ wait_second
      → (b : Bool) → w.server.two.listener_signal ≡ b
      → (q : List (List F)) → w.to_two ≡ q
      → Moves w ⊎ ((w.server.two.received ≡ w.server.two.read) × (w.to_two ≡ []))
  by_listener_two i e true f q g = inl (_, server_calculator (wait_listener_two e f))
  by_listener_two {w} i e false f q g = elim (ListenerPc-receiving w.server.two.pc) [
    | inr busy ↦ elim (listener-Works i busy) [
      | inl (c, st, same) ↦ inl (_, listener_two_works st same)
      | inr signal ↦ inl (_, server_calculator (wait_listener_two e signal))
    ]
    | inl ready ↦ by_queue q g ready
  ]
    where
      by_queue :
          (q : List (List F))
          → w.to_two ≡ q
          → w.server.two.pc ≡ receiving
          → Moves w ⊎ ((w.server.two.received ≡ w.server.two.read) × (w.to_two ≡ []))
      by_queue (p ∷ q) g ready = inl (_, listener_two_receives p q g (receive_packet p ready) refl)
      by_queue [] g ready = inr (received-read i ready f, g)

  -- With nothing in the hand of the client's sender, the server moves, or it has answered all that
  -- has left the client.
  by_server_calculator :
      {left : List (Batches F)} {w : World F}
      → IsConversation nought server_calculations left w
      → w.second ≡ []
      → IsIdle w.server
      → (pc : CalcPc) → w.server.calc ≡ pc
      → Moves w ⊎ (length left ≡ length w.server.sent)
  by_server_calculator {left} {w} c n q wait_first e =
      let i = Reach-IsSystem server_calculations c.run in
      elim (by_listener_one (rw e at i.one) e w.server.one.listener_signal refl w.to_one refl) [
        | inl m ↦ inl m
        | inr (read, empty) ↦
            let (sent, _) = all_sent server_calculations c.run q (inl e) in
            let all = c.firsts ∙ ap (λ x. x ++ w.to_one) read in
            inr (
              sym (length-map (λ (b : Batches F). b.0) left)
              ∙ ap length (rw empty at all)
              ∙ ap length (append-nil w.server.one.read)
              ∙ sent)
      ]
  by_server_calculator {left} {w} c n q wait_second e =
      let i = Reach-IsSystem server_calculations c.run in
      elim (by_listener_two (rw e at i.two) e w.server.two.listener_signal refl w.to_two refl) [
        | inl m ↦ inl m
        | inr (read, empty) ↦
            let (_, sent) = all_sent server_calculations c.run q (inr e) in
            let all = c.seconds ∙ ap (λ x. x ++ (w.to_two ++ w.second)) read in
            inr (
              sym (length-map (λ (b : Batches F). b.1) left)
              ∙ ap length (rw n at (rw empty at all))
              ∙ ap length (append-nil w.server.two.read)
              ∙ sent)
      ]
  by_server_calculator c n q reading e = inl (_, server_calculator (read_batches e))
  by_server_calculator c n q signal_first e = inl (_, server_calculator (signal_listener_one e))
  by_server_calculator c n q signal_second e = inl (_, server_calculator (signal_listener_two e))
  by_server_calculator c n q calculating e = inl (_, server_calculator (calculate_res _ e refl))
  by_server_calculator {w} c n q wait_sender e =
      let i = Reach-IsSystem server_calculations c.run in
      inl (_, server_calculator (wait_for_sender e (ground (arith, i.token))))
  by_server_calculator c n q signal_sender e = inl (_, server_calculator (signal_calculated e))

  starved-Moves :
      {left : List (Batches F)} {w : World F}
      → IsConversation nought server_calculations left w
      → IsStarved w.client
      → (x : List (List F)) → w.second ≡ x
      → (out : List (Batches F)) → w.client.outgoing ≡ out
      → Moves w
  starved-Moves c h (p ∷ x) e out f = (_, send_second p x e)
  starved-Moves c h [] e (b ∷ out) f = (_, send_first b out f e)
  starved-Moves {w} c h [] e [] f =
      elim (by_server_sender w.server.sender w.server.calc_to_sender_signal refl refl) [
        | inl m ↦ m
        | inr q ↦ elim (by_server_calculator c e q w.server.calc refl) [
          | inl m ↦ m
          | inr all ↦ absurd (ground (arith, starved-answers c.client h, ap length f, all))
        ]
      ]

  -- In every state of both programs inside a call of get_u that is reached without a datagram
  -- being lost, repeated or brought out of order by the network, some thread of the client or of
  -- the server has a step or a datagram to send.
  pub both-no_deadlock :
      {w : World F} {disturbances : ℕ}
      → Run nought server_calculations disturbances w
      → disturbances ≡ 0
      → w.client.calc ≢ idle
      → Moves w
  both-no_deadlock {w} run none h =
      let r = undisturbed run none in
      let (left, c) = Reach-Conversation nought server_calculations r in
      elim (by_calculator c.client w.client.calc refl h) [
        | inl m ↦ client-Moves m
        | inr starved ↦ starved-Moves c starved w.second refl w.client.outgoing refl
      ]
