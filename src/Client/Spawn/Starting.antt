-- ===== src/Client/Spawn/Starting.antt =====
-- The client's threads as they are started: each with the packs that the main thread waits for and
-- signals, in the states that Client.Threads and Client.Printing start from.
use quadrocopt.Base.{
  ℕ, ◌≡◌, refl, Bool, true, false, List, [], ◌∷◌, Outcome, ok, exit, fault, ◌>>=◌, ◌==◌,
  if◌then◌else◌,
}
use quadrocopt.Heap.{Ptr}
use quadrocopt.Condition.{Packs, flag}
use quadrocopt.Client.Threads.{System, initial}
use quadrocopt.Client.Packs.{ThreadConditionPacksCollection, initialize_condition_packs}
use quadrocopt.Client.Spawn.{Globals, Thread, listener, sender, printer, spawn_workers}
use quadrocopt.Client.Spawn.Ending.{all_spawned, all_created, spawn_workers-all_spawned}

-- The flag of a pack that the main thread and another thread share.
abbrev pub shared : Packs → (main_pack thread_pack : ℕ) → Outcome Bool
shared packs main_pack thread_pack =
    if main_pack == thread_pack then flag packs main_pack else fault

module _ {F : Type 0} (nought : F) (packs : Packs) (g : Globals) where
  open g use {thread_cond_packs}

  -- The state of `get_u` and its threads, and the flags of the printer, to it and from it.
  abbrev pub system_of : List Thread → Outcome (System F × (Bool × Bool))
  system_of (listener lp ∷ sender sp ∷ printer pp ∷ []) = do
    to_sender ← shared packs thread_cond_packs.sender_to_signal sp.cond_packs.calc_to_sender_signal
    from_sender ← shared packs thread_cond_packs.sender_from_signal sp.cond_packs.sender_signal
    to_listener ←
        shared packs thread_cond_packs.listener_to_signal lp.cond_packs.calc_to_listener_signal
    from_listener ←
        shared packs thread_cond_packs.listener_from_signal lp.cond_packs.listener_signal
    to_printer ←
        shared packs thread_cond_packs.printer_to_signal pp.cond_packs.calc_to_printer_signal
    from_printer ← shared packs thread_cond_packs.printer_from_signal pp.cond_packs.printer_signal
    ok (
      record (initial nought) {
        sender_to_signal = to_sender;
        sender_from_signal = from_sender;
        listener_to_signal = to_listener;
        listener_from_signal = from_listener;
      },
      (to_printer, from_printer),
    )
  system_of threads = fault

abbrev pub pack_addresses : ThreadConditionPacksCollection → List ℕ
pack_addresses c =
    c.sender_to_signal ∷ c.sender_from_signal ∷ c.listener_to_signal ∷ c.listener_from_signal
    ∷ c.printer_to_signal ∷ c.printer_from_signal ∷ []

-- After initialize_condition_packs, whatever the other globals are and whatever pthread_create
-- returns: spawn_workers exits unless all three statuses are 0; where they are, the threads it
-- starts hold the packs that the main thread uses for them. The six packs are in six cells, their
-- flags are those of the state that the exchange of get_u starts in, and of the printer's two the
-- one that the main thread waits for is true.
pub all_spawned-initial :
    {F : Type 0} (nought : F) (globals : Globals) (junk : Ptr) (pthread_create : Thread → ℕ)
    (l s p : ℕ)
    → let made = initialize_condition_packs [] in
      let g = record globals { thread_cond_packs = made.0 } in
      (spawn_workers junk pthread_create g l s p
        ≡ (if all_created g junk pthread_create then ok (all_spawned g junk l s p) else exit))
      × (pack_addresses made.0 ≡ 0 ∷ 1 ∷ 2 ∷ 3 ∷ 4 ∷ 5 ∷ [])
      × (system_of nought made.1 g (all_spawned g junk l s p).threads
          ≡ ok (initial nought, (false, true)))
all_spawned-initial nought globals junk pthread_create l s p =
    let g : Globals = record globals { thread_cond_packs = (initialize_condition_packs []).0 } in
    ((spawn_workers-all_spawned g junk pthread_create l s p).0, refl, refl)
