-- ===== src/Conversation.antt =====
-- The client and the server together: the threads of client/main.c, client/run_sender.c and
-- client/run_listener.c, and those of server/main.c, server/run_listener.c and server/run_sender.c,
-- with the datagrams between them, in any interleaving.
-- The client's sender sends the first batch of a pair and then the second (`send_calcs` of
-- client/run_sender.c), each to a listener of its own; the server's sender sends a result back.
-- The network may lose datagrams, repeat them and change their order; `Run` counts how often it did.
pub mod Network
mod Journey
mod Fresh
mod Progress
mod Examples
use quadrocopt.Base.{ℕ, suc, ◌≡◌, List, [], ◌∷◌, ◌++◌}
use quadrocopt.Client.Threads.{
  Batches, System as Client, CalcStep as ClientCalcStep, SenderStep as ClientSenderStep,
  ListenerStep as ClientListenerStep, initial as initial_client,
}
use quadrocopt.Server.Threads.{
  System as Server, Channel, CalcStep, SenderStep, ListenerStep, initial as initial_server,
}

-- `to_one` and `to_two` are the datagrams on the way to the server's two listeners, and `second`
-- the batch that the client's sender has still to send after the first one of its pair.
pub record World (F : Type 0) : Type 0 where
  pub client : Client F
  pub server : Server F
  pub second : List (List F)
  pub to_one : List (List F)
  pub to_two : List (List F)

abbrev pub initial : {F : Type 0} → F → World F
initial {F} nought = record {
  client = initial_client nought;
  server = initial_server F;
  second = [];
  to_one = [];
  to_two = [];
}

module _ {F : Type 0} (nought : F) (server_calculations : List F → List F) where
  -- A thread of the server works if it takes no datagram and sends none.
  pub data Step (w : World F) : World F → Type 0 where
    client_calculator :
        {c : Client F} → ClientCalcStep w.client c → Step w (record w { client = c })
    client_sender : {c : Client F} → ClientSenderStep w.client c → Step w (record w { client = c })
    client_listener :
        {c : Client F} → ClientListenerStep w.client c → Step w (record w { client = c })
    send_first :
        (b : Batches F) (rest : List (Batches F))
        → w.client.outgoing ≡ b ∷ rest
        → w.second ≡ []
        → Step w (record w {
          client = record (w.client) { outgoing = rest };
          second = b.1 ∷ [];
          to_one = w.to_one ++ b.0 ∷ [];
        })
    send_second :
        (p : List F) (rest : List (List F))
        → w.second ≡ p ∷ rest
        → Step w (record w { second = rest; to_two = w.to_two ++ p ∷ [] })
    listener_one_receives :
        {c : Channel F} (p : List F) (rest : List (List F))
        → w.to_one ≡ p ∷ rest
        → ListenerStep w.server.one c
        → c.received ≡ w.server.one.received ++ p ∷ []
        → Step w (record w { to_one = rest; server = record (w.server) { one = c } })
    listener_two_receives :
        {c : Channel F} (p : List F) (rest : List (List F))
        → w.to_two ≡ p ∷ rest
        → ListenerStep w.server.two c
        → c.received ≡ w.server.two.received ++ p ∷ []
        → Step w (record w { to_two = rest; server = record (w.server) { two = c } })
    listener_one_works :
        {c : Channel F}
        → ListenerStep w.server.one c
        → c.received ≡ w.server.one.received
        → Step w (record w { server = record (w.server) { one = c } })
    listener_two_works :
        {c : Channel F}
        → ListenerStep w.server.two c
        → c.received ≡ w.server.two.received
        → Step w (record w { server = record (w.server) { two = c } })
    server_calculator :
        {s : Server F} → CalcStep server_calculations w.server s → Step w (record w { server = s })
    server_sends :
        {s : Server F} (u : List F)
        → SenderStep server_calculations w.server s
        → s.sent ≡ w.server.sent ++ u ∷ []
        → Step w (record w {
          server = s;
          client = record (w.client) { incoming = w.client.incoming ++ u ∷ [] };
        })
    server_sender_works :
        {s : Server F}
        → SenderStep server_calculations w.server s
        → s.sent ≡ w.server.sent
        → Step w (record w { server = s })

  -- The steps of the threads and of a network that carries every datagram once and in order.
  pub data Reach : World F → Type 0 where
    start : Reach (initial nought)
    next : {v w : World F} → Reach v → Step v w → Reach w

-- What a network does to the datagrams on the way to a socket, beside carrying them.
pub data Disturbs {F : Type 0} : (before after : List (List F)) → Type 0 where
  loses : (xs ys : List (List F)) (p : List F) → Disturbs (xs ++ p ∷ ys) (xs ++ ys)
  repeats : (xs ys : List (List F)) (p : List F) → Disturbs (xs ++ p ∷ ys) (xs ++ p ∷ p ∷ ys)
  swaps : (xs ys : List (List F)) (p q : List F) → Disturbs (xs ++ p ∷ q ∷ ys) (xs ++ q ∷ p ∷ ys)

pub data Disturbance {F : Type 0} (w : World F) : World F → Type 0 where
  to_first : {q : List (List F)} → Disturbs w.to_one q → Disturbance w (record w { to_one = q })
  to_second : {q : List (List F)} → Disturbs w.to_two q → Disturbance w (record w { to_two = q })
  to_client :
      {q : List (List F)}
      → Disturbs w.client.incoming q
      → Disturbance w (record w { client = record (w.client) { incoming = q } })

module _ {F : Type 0} (nought : F) (server_calculations : List F → List F) where
  -- The states that are reached after so many disturbances.
  pub data Run : (disturbances : ℕ) → World F → Type 0 where
    begin : Run 0 (initial nought)
    thread : {n : ℕ} {v w : World F} → Run n v → Step nought server_calculations v w → Run n w
    network : {n : ℕ} {v w : World F} → Run n v → Disturbance v w → Run (suc n) w
