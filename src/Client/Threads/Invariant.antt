-- ===== src/Client/Threads/Invariant.antt =====
-- The two handshakes of the client, and where every payload is on its way round. The threads are
-- taken by themselves: `left` is what the network has taken from them, and `arrived` what it has
-- brought, whatever the server answers.
use mathlib.Core.List.{append_assoc, append-nil}
use quadrocopt.Base.{
  ◌+◌, ◌≡◌, refl, ap, sym, ◌∙◌, Bool, true, false, ◌||◌, List, [], ◌∷◌, ◌++◌, arith, length,
  length-append, map,
}
use mathlib.Core.List.{map-append}
use quadrocopt.Client.Threads.{
  Batches, System, initial_batches, CalcStep, get_u, wait_for_sender, add_batches, tell_sender,
  wait_for_listener, read_listener_batch, tell_listener, SenderStep, wait_for_calc, fetch_batches,
  tell_calc, send_calcs, ListenerStep, receive_packet, wait_until_read, store_batch,
  signal_ready_batch, Step, calculator, sender_thread, listener_thread, server, Reach, start, next,
  initial,
}
use quadrocopt.Client.Threads.Journey.{
  one_if, only_if, calc_has_sender, sender_has, calc_has_listener, listener_has, is_signal_sender,
  unfetched, unread, sender_hand, listener_hand, half_done, outward, homeward,
}

module _ {F : Type 0} (nought : F) where
  pub record IsSystem (left : List (Batches F)) (arrived : List (List F)) (s : System F)
      : Type 0 where
    pub sender_token :
        one_if s.sender_to_signal
          + sender_has s.sender
          + one_if s.sender_from_signal
          + calc_has_sender s.calc
        ≡ 1
    pub listener_token :
        one_if s.listener_to_signal
          + listener_has s.listener
          + one_if s.listener_from_signal
          + calc_has_listener s.calc
        ≡ 1
    pub balance : length s.asked ≡ length s.got + half_done s.calc
    pub out : left ++ outward (unfetched s) s ≡ initial_batches nought ∷ s.asked
    pub back : homeward (unread s) s ≡ arrived

  pub initial-IsSystem : IsSystem [] [] (initial nought)
  initial-IsSystem = record {
    sender_token = refl;
    listener_token = refl;
    balance = refl;
    out = refl;
    back = refl;
  }

module _ {F : Type 0} where
  out_to :
      (left all : List (Batches F)) (s : System F) (f : Bool)
      → unfetched s ≡ f
      → left ++ outward f s ≡ all
      → left ++ outward (unfetched s) s ≡ all
  out_to left all s f q h = ap (λ x. left ++ outward x s) q ∙ h

  back_to :
      (arrived : List (List F)) (s : System F) (u : Bool)
      → unread s ≡ u
      → homeward u s ≡ arrived
      → homeward (unread s) s ≡ arrived
  back_to arrived s u q h = ap (λ x. homeward x s) q ∙ h

  -- Batches that join at the end of the journey.
  join :
      (l o h : List (Batches F)) (b : Batches F)
      → l ++ (o ++ (h ++ b ∷ [])) ≡ (l ++ (o ++ (h ++ []))) ++ b ∷ []
  join l o h b = simp (append_assoc, append-nil)

module _ {F : Type 0} {nought : F} {left : List (Batches F)} {arrived : List (List F)} where
  out_at :
      {s : System F} (f : Bool)
      → IsSystem nought left arrived s
      → unfetched s ≡ f
      → left ++ outward f s ≡ initial_batches nought ∷ s.asked
  out_at {s} f i q = ap (λ x. left ++ outward x s) (sym q) ∙ i.out

  back_at :
      {s : System F} (u : Bool)
      → IsSystem nought left arrived s
      → unread s ≡ u
      → homeward u s ≡ arrived
  back_at {s} u i q = ap (λ x. homeward x s) (sym q) ∙ i.back

  pub CalcStep-IsSystem :
      {s t : System F}
      → CalcStep s t
      → IsSystem nought left arrived s
      → IsSystem nought left arrived t
  CalcStep-IsSystem (get_u payload e) i = record {
    sender_token = ground (arith, i.sender_token);
    listener_token = ground (arith, i.listener_token);
    balance = ground (arith, i.balance);
    out = rw e at i.out;
    back = rw e at i.back;
  }
  CalcStep-IsSystem (wait_for_sender b e f) i = record {
    sender_token = ground (arith, i.sender_token);
    listener_token = ground (arith, i.listener_token);
    balance = ground (arith, i.balance);
    out = rw e at i.out;
    back = rw e at i.back;
  }
  CalcStep-IsSystem {s} {t} (add_batches b e) i = record {
    sender_token = ground (arith, i.sender_token);
    listener_token = ground (arith, i.listener_token);
    balance = ground (arith, i.balance, length-append s.asked (b ∷ []));
    out = out_to left _ t true (ground arith) (
        join left s.outgoing (sender_hand s.sender) b
        ∙ ap (λ x. x ++ b ∷ []) (out_at false i (ground (arith, i.sender_token))));
    back = rw e at i.back;
  }
  CalcStep-IsSystem {s} {t} (tell_sender e) i = record {
    sender_token = ground (arith, i.sender_token);
    listener_token = ground (arith, i.listener_token);
    balance = ground (arith, i.balance);
    out = out_to left _ t true refl (out_at true i (ground arith));
    back = rw e at i.back;
  }
  CalcStep-IsSystem {s} {t} (wait_for_listener e f) i = record {
    sender_token = ground (arith, i.sender_token);
    listener_token = ground (arith, i.listener_token);
    balance = ground (arith, i.balance);
    out = rw e at i.out;
    back = back_to arrived t true (ground arith) (back_at true i (ground arith));
  }
  CalcStep-IsSystem {s} {t} (read_listener_batch e) i = record {
    sender_token = ground (arith, i.sender_token);
    listener_token = ground (arith, i.listener_token);
    balance = ground (arith, i.balance, length-append s.got (s.listener_stock ∷ []));
    out = rw e at i.out;
    back =
        back_to arrived t false (ground (arith, i.listener_token))
          (append_assoc s.got (s.listener_stock ∷ []) _ ∙ back_at true i (ground arith));
  }
  CalcStep-IsSystem (tell_listener e) i = record {
    sender_token = ground (arith, i.sender_token);
    listener_token = ground (arith, i.listener_token);
    balance = ground (arith, i.balance);
    out = rw e at i.out;
    back = rw e at i.back;
  }

  pub SenderStep-IsSystem :
      {s t : System F}
      → SenderStep s t
      → IsSystem nought left arrived s
      → IsSystem nought left arrived t
  SenderStep-IsSystem {s} {t} (wait_for_calc e f) i = record {
    sender_token = ground (arith, i.sender_token);
    listener_token = i.listener_token;
    balance = i.balance;
    out = out_to left _ t true (ground arith) (rw e at (out_at true i (ground arith)));
    back = i.back;
  }
  SenderStep-IsSystem {s} {t} (fetch_batches e) i = record {
    sender_token = ground (arith, i.sender_token);
    listener_token = i.listener_token;
    balance = i.balance;
    out =
        out_to left _ t false (ground (arith, i.sender_token))
          (rw e at (out_at true i (ground arith)));
    back = i.back;
  }
  SenderStep-IsSystem (tell_calc b e) i = record {
    sender_token = ground (arith, i.sender_token);
    listener_token = i.listener_token;
    balance = i.balance;
    out = rw e at i.out;
    back = i.back;
  }
  SenderStep-IsSystem {s} (send_calcs b e) i = record {
    sender_token = ground (arith, i.sender_token);
    listener_token = i.listener_token;
    balance = i.balance;
    out =
        rw
          (append_assoc s.outgoing (b ∷ [])
            (only_if (s.sender_to_signal || is_signal_sender s.calc) s.sender_stock))
          (rw e at i.out);
    back = i.back;
  }

  pub ListenerStep-IsSystem :
      {s t : System F}
      → ListenerStep s t
      → IsSystem nought left arrived s
      → IsSystem nought left arrived t
  ListenerStep-IsSystem (receive_packet p rest e f) i = record {
    sender_token = i.sender_token;
    listener_token = ground (arith, i.listener_token);
    balance = i.balance;
    out = i.out;
    back = rw f at (rw e at i.back);
  }
  ListenerStep-IsSystem (wait_until_read p e f) i = record {
    sender_token = i.sender_token;
    listener_token = ground (arith, i.listener_token);
    balance = i.balance;
    out = i.out;
    back = rw e at i.back;
  }
  ListenerStep-IsSystem {s} {t} (store_batch p e) i = record {
    sender_token = i.sender_token;
    listener_token = ground (arith, i.listener_token);
    balance = i.balance;
    out = i.out;
    back =
        back_to arrived t true (ground arith)
          (rw e at (back_at false i (ground (arith, i.listener_token))));
  }
  ListenerStep-IsSystem {s} {t} (signal_ready_batch e) i = record {
    sender_token = i.sender_token;
    listener_token = ground (arith, i.listener_token);
    balance = i.balance;
    out = i.out;
    back = back_to arrived t true (ground arith) (rw e at (back_at true i (ground arith)));
  }

  -- The network takes the oldest batches, and brings a command.
  pub leave-IsSystem :
      {s : System F} (b : Batches F) (rest : List (Batches F))
      → s.outgoing ≡ b ∷ rest
      → IsSystem nought left arrived s
      → IsSystem nought (left ++ b ∷ []) arrived (record s { outgoing = rest })
  leave-IsSystem b rest e i = record {
    sender_token = i.sender_token;
    listener_token = i.listener_token;
    balance = i.balance;
    out = append_assoc left (b ∷ []) _ ∙ (rw e at i.out);
    back = i.back;
  }

  pub arrive-IsSystem :
      {s : System F} (u : List F)
      → IsSystem nought left arrived s
      → IsSystem nought left (arrived ++ u ∷ []) (record s { incoming = s.incoming ++ u ∷ [] })
  arrive-IsSystem {s} u i = record {
    sender_token = i.sender_token;
    listener_token = i.listener_token;
    balance = i.balance;
    out = i.out;
    back =
        arrive s.got (only_if (unread s) s.listener_stock) (listener_hand s.listener) s.incoming
        ∙ ap (λ x. x ++ u ∷ []) i.back;
  }
    where
      arrive :
          (g o h i : List (List F))
          → g ++ (o ++ (h ++ (i ++ u ∷ []))) ≡ (g ++ (o ++ (h ++ i))) ++ u ∷ []
      arrive g o h i = simp append_assoc

module _ {F : Type 0} (nought : F) (answer : Batches F → List F) where
  -- With a server that answers in turn, what arrived is the answers to what has left.
  abbrev pub Answered : System F → Type 0
  Answered s = (left : List (Batches F)) × IsSystem nought left (map answer left) s

  Step-Answered : {s t : System F} → Step nought answer s t → Answered s → Answered t
  Step-Answered (calculator st) (left, i) = (left, CalcStep-IsSystem st i)
  Step-Answered (sender_thread st) (left, i) = (left, SenderStep-IsSystem st i)
  Step-Answered (listener_thread st) (left, i) = (left, ListenerStep-IsSystem st i)
  Step-Answered (server b rest e) (left, i) = (
    left ++ b ∷ [],
    rw (map-append answer left (b ∷ [])) (arrive-IsSystem (answer b) (leave-IsSystem b rest e i)),
  )

  pub Reach-Answered : {s : System F} → Reach nought answer s → Answered s
  Reach-Answered start = ([], initial-IsSystem nought)
  Reach-Answered (next r st) = Step-Answered st (Reach-Answered r)
