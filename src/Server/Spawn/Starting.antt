-- ===== src/Server/Spawn/Starting.antt =====
-- The server's threads as they are started: each with the packs that the main thread waits for and
-- signals, in the state that Server.Threads starts from.
use quadrocopt.Base.{
  ℕ, ◌≡◌, refl, arith, Bool, ◌&&◌, List, [], ◌∷◌, Outcome, ok, exit, fault, ◌>>=◌, ◌==◌,
  if◌then◌else◌,
}
use quadrocopt.Condition.{Packs, flag}
use quadrocopt.Server.Threads.{Channel, System, initial, initial_channel}
use quadrocopt.Server.Spawn.{
  Globals, Thread, ListenerPack, SenderPack, listener, sender, first_thread, second_thread,
  sender_thread, initialize_condition_packs, spawn_workers,
}

-- The state of the protocol that packs, globals and threads make up: there is one where the two
-- listeners and the sender hold the packs that the main thread uses for them, each in memory.
module _ (F : Type 0) (packs : Packs) (g : Globals) where
  abbrev pub channel_of :
      ListenerPack → (listener_signal calc_to_listener_signal : ℕ) → Outcome (Channel F)
  channel_of lp s c = do
    raised ← flag packs s
    calc_raised ← flag packs c
    if (lp.cond_packs.listener_signal == s) && (lp.cond_packs.calc_to_listener_signal == c)
        then ok (record (initial_channel F) { listener_signal = raised; calc_signal = calc_raised })
        else fault

  abbrev pub sender_flags : SenderPack → Outcome (Bool × Bool)
  sender_flags sp = do
    raised ← flag packs g.sender_signal
    calc_raised ← flag packs g.calc_to_sender_signal
    if (sp.cond_packs.sender_signal == g.sender_signal)
          && (sp.cond_packs.calc_to_sender_signal == g.calc_to_sender_signal)
        then ok (raised, calc_raised)
        else fault

  abbrev pub system_of : List Thread → Outcome (System F)
  system_of (listener a ∷ listener b ∷ sender c ∷ []) = do
    one ← channel_of a g.listener_one_signal g.calc_signal_to_listener_one
    two ← channel_of b g.listener_two_signal g.calc_signal_to_listener_two
    flags ← sender_flags c
    ok (record (initial F) {
      one = one;
      two = two;
      sender_signal = flags.0;
      calc_to_sender_signal = flags.1;
    })
  system_of threads = fault

-- Where the three threads could be created.
abbrev pub all_created : Globals → (Thread → ℕ) → Bool
all_created g pthread_create =
    (pthread_create (first_thread g) == 0)
    && (pthread_create (second_thread g) == 0)
    && (pthread_create (sender_thread g) == 0)

abbrev pub pack_addresses : Globals → List ℕ
pack_addresses g =
    g.listener_one_signal ∷ g.listener_two_signal ∷ g.calc_signal_to_listener_one
    ∷ g.calc_signal_to_listener_two ∷ g.calc_to_sender_signal ∷ g.sender_signal ∷ []

abbrev pub threads_of : Globals → List Thread
threads_of g = first_thread g ∷ second_thread g ∷ sender_thread g ∷ []

-- After initialize_condition_packs, whatever the other globals are and whatever pthread_create
-- returns: spawn_workers exits unless all three statuses are 0; where they are, the threads it
-- starts hold the packs that the main thread uses for them. The six packs are in six cells, and
-- their flags are those of the state that the protocol of the threads starts in.
pub spawn_workers-initial :
    (F : Type 0) (globals : Globals) (pthread_create : Thread → ℕ)
    → let made = initialize_condition_packs [] globals in
      (spawn_workers made.0 pthread_create
        ≡ (if all_created made.0 pthread_create then ok (threads_of made.0) else exit))
      × (pack_addresses made.0 ≡ 0 ∷ 1 ∷ 2 ∷ 3 ∷ 4 ∷ 5 ∷ [])
      × (system_of F made.1 made.0 (threads_of made.0) ≡ ok (initial F))
unfolding spawn_workers
spawn_workers-initial F globals pthread_create = (ground arith, refl, refl)
