-- ===== src/Server/Threads/Pairing.antt =====
-- What the calculator calculates from: the payloads of the two listeners, in the order received.
use mathlib.Core.List.{append-nil}
use quadrocopt.Base.{
  suc, ◌≤◌, ◌≡◌, refl, ap, sym, ◌∙◌, Bool, true, false, List, [], ◌∷◌, ◌++◌, arith, length,
  length-append, if◌then◌else◌,
}
use quadrocopt.Server.Threads.{
  ListenerPc, Channel, ListenerStep, receive_packet, wait_until_calc_reads, store_batch,
  signal_listener_ready, CalcPc, signal_first, signal_second, calculating, System, CalcStep, Step,
  listener_one, listener_two, calculator, sender_thread, Reach, start, next, wait_listener_one,
  wait_listener_two, read_batches, signal_listener_one, signal_listener_two, calculate_res,
  wait_for_sender, signal_calculated, wait_for_calculator, send_calcs, signal_sender_ready,
}
use quadrocopt.Server.Threads.Handshake.{unread, in_hand}
use quadrocopt.Server.Threads.Invariant.{Reach-IsSystem}

-- Between `read_batches` and `calculate_res` one calculation is due.
abbrev pub due : CalcPc → Bool
due signal_first = true
due signal_second = true
due calculating = true
due _ = false

module _ {F : Type 0} (server_calculations : List F → List F) where
  -- The results for two sequences of batches, pair by pair.
  abbrev pub results_of : List (List F) → List (List F) → List (List F)
  results_of [] ys = []
  results_of (a ∷ xs) [] = []
  results_of (a ∷ xs) (b ∷ ys) = server_calculations (a ++ b) ∷ results_of xs ys

  results_of-append :
      (xs ys : List (List F)) (a b : List F)
      → length xs ≡ length ys
      → results_of (xs ++ a ∷ []) (ys ++ b ∷ [])
        ≡ results_of xs ys ++ server_calculations (a ++ b) ∷ []
  results_of-append [] [] a b h = refl
  results_of-append [] (y ∷ ys) a b h = absurd (omega arith)
  results_of-append (x ∷ xs) [] a b h = absurd (omega arith)
  results_of-append (x ∷ xs) (y ∷ ys) a b h =
      ap (λ t. server_calculations (x ++ y) ∷ t) (results_of-append xs ys a b (omega arith))

  pub length-results_of :
      (xs ys : List (List F)) → length xs ≡ length ys → length (results_of xs ys) ≡ length xs
  length-results_of [] ys h = refl
  length-results_of (x ∷ xs) [] h = absurd (omega arith)
  length-results_of (x ∷ xs) (y ∷ ys) h = ap suc (length-results_of xs ys (omega arith))

  -- The results so far, with the one that is due.
  abbrev pub results_due : System F → List (List F)
  results_due s =
      s.results
      ++ (if due s.calc then server_calculations (s.first_batch ++ s.second_batch) ∷ [] else [])

  record Paired (s : System F) : Type 0 where
    same : length s.one.read ≡ length s.two.read
    pairs : results_due s ≡ results_of s.one.read s.two.read

  ListenerStep-read : {c d : Channel F} → ListenerStep c d → d.read ≡ c.read
  ListenerStep-read (receive_packet p e) = refl
  ListenerStep-read (wait_until_calc_reads p e f) = refl
  ListenerStep-read (store_batch p e) = refl
  ListenerStep-read (signal_listener_ready e) = refl

  CalcStep-Paired : {s t : System F} → CalcStep server_calculations s t → Paired s → Paired t
  CalcStep-Paired (wait_listener_one e f) i = record { same = i.same; pairs = rw e at i.pairs }
  CalcStep-Paired (wait_listener_two e f) i = record { same = i.same; pairs = rw e at i.pairs }
  CalcStep-Paired {s} (read_batches e) i = record {
    same = omega (
      arith,
      i.same,
      length-append s.one.read (s.one.batch ∷ []),
      length-append s.two.read (s.two.batch ∷ []),
    );
    pairs =
        ap (λ x. x ++ server_calculations (s.one.batch ++ s.two.batch) ∷ [])
          (sym (append-nil s.results) ∙ (rw e at i.pairs))
        ∙ sym (results_of-append s.one.read s.two.read s.one.batch s.two.batch i.same);
  }
  CalcStep-Paired (signal_listener_one e) i = record { same = i.same; pairs = rw e at i.pairs }
  CalcStep-Paired (signal_listener_two e) i = record { same = i.same; pairs = rw e at i.pairs }
  CalcStep-Paired {s} (calculate_res res e f) i = record {
    same = i.same;
    pairs = append-nil (s.results ++ res ∷ []) ∙ rw f (rw e at i.pairs);
  }
  CalcStep-Paired (wait_for_sender e f) i = record { same = i.same; pairs = rw e at i.pairs }
  CalcStep-Paired (signal_calculated e) i = record { same = i.same; pairs = rw e at i.pairs }

  Step-Paired : {s t : System F} → Step server_calculations s t → Paired s → Paired t
  Step-Paired {s} (listener_one st) i = record {
    same = rw (ListenerStep-read st) i.same;
    pairs = rw (ListenerStep-read st) i.pairs;
  }
  Step-Paired {s} (listener_two st) i = record {
    same = rw (ListenerStep-read st) i.same;
    pairs = rw (ListenerStep-read st) i.pairs;
  }
  Step-Paired (calculator st) i = CalcStep-Paired st i
  Step-Paired (sender_thread (wait_for_calculator e f)) i = record {
    same = i.same;
    pairs = i.pairs;
  }
  Step-Paired (sender_thread (send_calcs e)) i = record { same = i.same; pairs = i.pairs }
  Step-Paired (sender_thread (signal_sender_ready e)) i = record { same = i.same; pairs = i.pairs }

  Reach-Paired : {s : System F} → Reach server_calculations s → Paired s
  Reach-Paired start = record { same = refl; pairs = refl }
  Reach-Paired (next r st) = Step-Paired st (Reach-Paired r)

  in_flight :
      (b : Bool) (batch : List F) (pc : ListenerPc F) → length (unread b batch ++ in_hand pc) ≤ 2
  in_flight b batch pc = ground arith

  abbrev pub InOrder : System F → Type 0
  InOrder s =
      (new_one : List (List F)) × (new_two : List (List F)) × (s.one.received
        ≡ s.one.read ++ new_one)
      × (s.two.received ≡ s.two.read ++ new_two)
      × (length new_one ≤ 2)
      × (length new_two ≤ 2)
      × (length s.one.read ≡ length s.two.read)
      × (results_due s ≡ results_of s.one.read s.two.read)

  -- In every reachable state of the server the calculator has read as many batches of one listener
  -- as of the other, each a first part of what that listener has received, in order and without a
  -- gap, with at most two payloads of each still to be read; and the results, with the one that is
  -- due if the calculator has read and not yet calculated, are those of the batches read, pair by
  -- pair.
  pub batches-InOrder : {s : System F} → Reach server_calculations s → InOrder s
  batches-InOrder {s} r =
      let i = Reach-IsSystem server_calculations r in
      let p = Reach-Paired r in
      (_, _, i.one.history, i.two.history, in_flight _ _ _, in_flight _ _ _, p.same, p.pairs)
