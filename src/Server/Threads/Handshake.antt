-- ===== src/Server/Threads/Handshake.antt =====
-- The handshake between one listener and the calculator.
use quadrocopt.Base.{
  ℕ, ◌+◌, ◌≡◌, refl, ap, sym, ◌∙◌, Bool, true, false, ◌||◌, List, [], ◌∷◌, ◌++◌, arith,
}
use mathlib.Core.List.{append_assoc, append-nil}
use quadrocopt.Server.Threads.{
  ListenerPc, receiving, waiting, storing, signalling, Channel, ListenerStep, receive_packet,
  wait_until_calc_reads, store_batch, signal_listener_ready, take_batch, initial_channel,
}

-- What the calculator has of a channel: nothing, the right to read its batch, or the batch itself.
pub data Stage : Type 0 where
  free got taken : Stage

abbrev pub one_if : Bool → ℕ
one_if true = 1
one_if false = 0

abbrev pub held : Stage → ℕ
held free = 0
held got = 1
held taken = 1

abbrev pub is_got : Stage → Bool
is_got got = true
is_got free = false
is_got taken = false

module _ {F : Type 0} where
  abbrev pub writes : ListenerPc F → ℕ
  writes receiving = 0
  writes (waiting p) = 0
  writes (storing p) = 1
  writes signalling = 1

  abbrev pub is_signalling : ListenerPc F → Bool
  is_signalling signalling = true
  is_signalling receiving = false
  is_signalling (waiting p) = false
  is_signalling (storing p) = false

  -- The payload that was received and not stored yet.
  abbrev pub in_hand : ListenerPc F → List (List F)
  in_hand receiving = []
  in_hand (waiting p) = p ∷ []
  in_hand (storing p) = p ∷ []
  in_hand signalling = []

  -- Whether the stock holds a batch that the calculator has not read.
  abbrev pub full : Channel F → Stage → Bool
  full c g = is_signalling c.pc || (c.listener_signal || is_got g)

  abbrev pub unread : Bool → List F → List (List F)
  unread true batch = batch ∷ []
  unread false batch = []

  -- The right to touch the stock is in one place at a time: with the flag of the calculator's
  -- signal, with the listener, with the flag of the listener's signal, or with the calculator.
  pub record IsChannel (c : Channel F) (g : Stage) : Type 0 where
    pub token : one_if c.calc_signal + writes c.pc + one_if c.listener_signal + held g ≡ 1
    pub history : c.received ≡ c.read ++ (unread (full c g) c.batch ++ in_hand c.pc)
    pub clean : full c g ≡ false → c.batch ≡ []

  pub initial-IsChannel : IsChannel (initial_channel F) free
  initial-IsChannel = record { token = refl; history = refl; clean = λ e. refl }

  append_in_hand :
      (read u : List (List F)) (p : List F) → (read ++ (u ++ [])) ++ p ∷ [] ≡ read ++ (u ++ p ∷ [])
  append_in_hand read u p =
      ap (λ x. (read ++ x) ++ p ∷ []) (append-nil u) ∙ append_assoc read u (p ∷ [])

  -- While the listener stores a payload, the stock holds no unread batch.
  pub storing-full :
      {c : Channel F} {g : Stage} (p : List F) → IsChannel c g → c.pc ≡ storing p → full c g ≡ false
  storing-full {c} {g} p i e = ground (arith, i.token)

  pub ListenerStep-IsChannel :
      {c d : Channel F} {g : Stage} → ListenerStep c d → IsChannel c g → IsChannel d g
  ListenerStep-IsChannel {c} {g} (receive_packet p e) i = record {
    token = ground arith;
    history =
        ap (λ x. x ++ p ∷ []) (rw e at i.history)
        ∙ append_in_hand c.read (unread (c.listener_signal || is_got g) c.batch) p;
    clean = λ f. rw e at i.clean f;
  }
  ListenerStep-IsChannel (wait_until_calc_reads p e f) i = record {
    token = ground arith;
    history = rw e at i.history;
    clean = rw e at i.clean;
  }
  ListenerStep-IsChannel (store_batch p e) i = record {
    token = ground arith;
    history = rw e at (rw (storing-full p i e) at i.history);
    clean = λ f. cc;
  }
  ListenerStep-IsChannel (signal_listener_ready e) i = record {
    token = ground arith;
    history = rw e at i.history;
    clean = λ f. cc;
  }

  -- The calculator's three steps on the channel.
  offered-signalling :
      {c : Channel F} → IsChannel c free → c.listener_signal ≡ true → is_signalling c.pc ≡ false
  offered-signalling i e = ground (arith, i.token)

  got-full : {c : Channel F} → IsChannel c got → full c got ≡ true
  got-full i = ground (arith, i.token)

  got-quiet :
      {c : Channel F}
      → IsChannel c got
      → (is_signalling c.pc || (c.listener_signal || false)) ≡ false
  got-quiet i = ground (arith, i.token)

  pub wait-IsChannel :
      {c : Channel F}
      → IsChannel c free
      → c.listener_signal ≡ true
      → IsChannel (record c { listener_signal = false }) got
  wait-IsChannel {c} i e = record {
    token = ground (arith, i.token);
    history = rw (offered-signalling i e) (rw e at (rw (offered-signalling i e) at i.history));
    clean = λ f. ground arith;
  }

  pub take_batch-IsChannel : {c : Channel F} → IsChannel c got → IsChannel (take_batch c) taken
  take_batch-IsChannel {c} i = record {
    token = ground (arith, i.token);
    history =
        rw (got-quiet i) (
          (rw (got-full i) at i.history) ∙ sym (append_assoc c.read (c.batch ∷ []) (in_hand c.pc)));
    clean = λ f. refl;
  }

  pub signal-IsChannel :
      {c : Channel F} → IsChannel c taken → IsChannel (record c { calc_signal = true }) free
  signal-IsChannel i = record {
    token = ground (arith, i.token);
    history = i.history;
    clean = i.clean;
  }

  -- A listener that has handed everything over.
  pub received-read :
      {c : Channel F}
      → IsChannel c free
      → c.pc ≡ receiving
      → c.listener_signal ≡ false
      → c.received ≡ c.read
  received-read {c} i e f = (rw f at (rw e at i.history)) ∙ append-nil c.read
