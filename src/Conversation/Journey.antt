-- ===== src/Conversation/Journey.antt =====
-- What both programs do together is a run of each, joined by what is on its way.
use mathlib.Core.List.{append_assoc, append-nil, map-append}
use quadrocopt.Base.{◌≡◌, refl, ap, sym, ◌∙◌, List, [], ◌∷◌, ◌++◌, map}
use quadrocopt.Client.Threads.{Batches}
use quadrocopt.Client.Threads.Invariant.{
  IsSystem, initial-IsSystem, CalcStep-IsSystem, SenderStep-IsSystem, ListenerStep-IsSystem,
  leave-IsSystem, arrive-IsSystem,
}
use quadrocopt.Server.Threads.{
  System as Server, CalcStep, SenderStep, wait_listener_one, wait_listener_two, read_batches,
  signal_listener_one, signal_listener_two, calculate_res, wait_for_sender, signal_calculated,
  wait_for_calculator, send_calcs, signal_sender_ready, listener_one, listener_two, calculator,
  sender_thread, Reach as ServerReach, start as server_start, next as server_next,
}
use quadrocopt.Conversation.{
  World, Step, Reach, start, next, client_calculator, client_sender, client_listener, send_first,
  send_second, listener_one_receives, listener_two_receives, listener_one_works, listener_two_works,
  server_calculator, server_sends, server_sender_works,
}

module _ {F : Type 0} (nought : F) (server_calculations : List F → List F) where
  -- `left` is the pairs of batches that the client's sender has begun to send.
  pub record IsConversation (left : List (Batches F)) (w : World F) : Type 0 where
    pub run : ServerReach server_calculations w.server
    pub client : IsSystem nought left w.server.sent w.client
    pub firsts : map (λ b. b.0) left ≡ w.server.one.received ++ w.to_one
    pub seconds : map (λ b. b.1) left ≡ w.server.two.received ++ (w.to_two ++ w.second)

  -- What the calculator and the sender of the server leave alone.
  abbrev SameTraffic : Server F → Server F → Type 0
  SameTraffic s t = (t.one.received ≡ s.one.received) × (t.two.received ≡ s.two.received)

  CalcStep-SameTraffic :
      {s t : Server F} → CalcStep server_calculations s t → (t.sent ≡ s.sent) × (SameTraffic s t)
  CalcStep-SameTraffic (wait_listener_one e f) = (refl, (refl, refl))
  CalcStep-SameTraffic (wait_listener_two e f) = (refl, (refl, refl))
  CalcStep-SameTraffic (read_batches e) = (refl, (refl, refl))
  CalcStep-SameTraffic (signal_listener_one e) = (refl, (refl, refl))
  CalcStep-SameTraffic (signal_listener_two e) = (refl, (refl, refl))
  CalcStep-SameTraffic (calculate_res res e f) = (refl, (refl, refl))
  CalcStep-SameTraffic (wait_for_sender e f) = (refl, (refl, refl))
  CalcStep-SameTraffic (signal_calculated e) = (refl, (refl, refl))

  SenderStep-SameTraffic : {s t : Server F} → SenderStep server_calculations s t → SameTraffic s t
  SenderStep-SameTraffic (wait_for_calculator e f) = (refl, refl)
  SenderStep-SameTraffic (send_calcs e) = (refl, refl)
  SenderStep-SameTraffic (signal_sender_ready e) = (refl, refl)

  abbrev pub Conversation : World F → Type 0
  Conversation w = (left : List (Batches F)) × IsConversation left w

  Step-Conversation :
      {v w : World F} → Step nought server_calculations v w → Conversation v → Conversation w
  Step-Conversation (client_calculator st) (left, i) = (
    left,
    record {
      run = i.run;
      client = CalcStep-IsSystem st i.client;
      firsts = i.firsts;
      seconds = i.seconds;
    },
  )
  Step-Conversation (client_sender st) (left, i) = (
    left,
    record {
      run = i.run;
      client = SenderStep-IsSystem st i.client;
      firsts = i.firsts;
      seconds = i.seconds;
    },
  )
  Step-Conversation (client_listener st) (left, i) = (
    left,
    record {
      run = i.run;
      client = ListenerStep-IsSystem st i.client;
      firsts = i.firsts;
      seconds = i.seconds;
    },
  )
  Step-Conversation {v} (send_first b rest e f) (left, i) = (
    left ++ b ∷ [],
    record {
      run = i.run;
      client = leave-IsSystem b rest e i.client;
      firsts =
          map-append _ left (b ∷ [])
          ∙ ap (λ x. x ++ b.0 ∷ []) i.firsts
          ∙ append_assoc v.server.one.received v.to_one (b.0 ∷ []);
      seconds =
          map-append _ left (b ∷ [])
          ∙ ap (λ x. x ++ b.1 ∷ []) (rw f at i.seconds)
          ∙ simp (append_assoc, append-nil);
    },
  )
  Step-Conversation {v} (send_second p rest e) (left, i) = (
    left,
    record {
      run = i.run;
      client = i.client;
      firsts = i.firsts;
      seconds = (rw e at i.seconds) ∙ simp append_assoc;
    },
  )
  Step-Conversation {v} (listener_one_receives p rest e st f) (left, i) = (
    left,
    record {
      run = server_next i.run (listener_one st);
      client = i.client;
      firsts =
          (rw e at i.firsts)
          ∙ sym (append_assoc v.server.one.received (p ∷ []) rest)
          ∙ ap (λ x. x ++ rest) (sym f);
      seconds = i.seconds;
    },
  )
  Step-Conversation {v} (listener_two_receives p rest e st f) (left, i) = (
    left,
    record {
      run = server_next i.run (listener_two st);
      client = i.client;
      firsts = i.firsts;
      seconds =
          (rw e at i.seconds)
          ∙ sym (append_assoc v.server.two.received (p ∷ []) (rest ++ v.second))
          ∙ ap (λ x. x ++ (rest ++ v.second)) (sym f);
    },
  )
  Step-Conversation (listener_one_works st f) (left, i) = (
    left,
    record {
      run = server_next i.run (listener_one st);
      client = i.client;
      firsts = rw f i.firsts;
      seconds = i.seconds;
    },
  )
  Step-Conversation (listener_two_works st f) (left, i) = (
    left,
    record {
      run = server_next i.run (listener_two st);
      client = i.client;
      firsts = i.firsts;
      seconds = rw f i.seconds;
    },
  )
  Step-Conversation (server_calculator st) (left, i) =
      let (sent, (one, two)) = CalcStep-SameTraffic st in
      (
        left,
        record {
          run = server_next i.run (calculator st);
          client = rw sent i.client;
          firsts = rw one i.firsts;
          seconds = rw two i.seconds;
        },
      )
  Step-Conversation (server_sends u st f) (left, i) =
      let (one, two) = SenderStep-SameTraffic st in
      (
        left,
        record {
          run = server_next i.run (sender_thread st);
          client = rw f (arrive-IsSystem u i.client);
          firsts = rw one i.firsts;
          seconds = rw two i.seconds;
        },
      )
  Step-Conversation (server_sender_works st f) (left, i) =
      let (one, two) = SenderStep-SameTraffic st in
      (
        left,
        record {
          run = server_next i.run (sender_thread st);
          client = rw f i.client;
          firsts = rw one i.firsts;
          seconds = rw two i.seconds;
        },
      )

  pub Reach-Conversation : {w : World F} → Reach nought server_calculations w → Conversation w
  Reach-Conversation start = (
    [],
    record { run = server_start; client = initial-IsSystem nought; firsts = refl; seconds = refl },
  )
  Reach-Conversation (next r st) = Step-Conversation st (Reach-Conversation r)
