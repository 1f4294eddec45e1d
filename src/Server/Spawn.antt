-- ===== src/Server/Spawn.antt =====
-- The start of the server's threads: `initialize_condition_packs`, `spawn_workers` and what they
-- call in server/main.c, and the structures of server/listener.c and server/sender.c that a thread
-- is given. Sockets, mutexes, stocks and condition packs are shown by their addresses; the condition
-- packs themselves are the cells of a list. What `pthread_create` returns is a parameter.
pub mod Starting
mod Examples
use quadrocopt.Base.{
  ℕ, ◌+◌, true, false, List, [], ◌∷◌, ◌++◌, length, Outcome, ok, exit, ◌>>=◌, ◌==◌, if◌then◌else◌,
}
use quadrocopt.Condition.{Packs, initialize_thread_cond_pack}

pub data ListenerT : Type 0 where
  listener_first listener_second : ListenerT

pub record ListenerMutexSet : Type 0 where
  pub batch_stock_access_mu : ℕ
  pub client_addr_mu : ℕ
  pub io_mu : ℕ

abbrev pub create_listener_mutex_set :
    (batch_stock_access_mu client_addr_mu io_mu : ℕ) → ListenerMutexSet
create_listener_mutex_set a b c = record {
  batch_stock_access_mu = a;
  client_addr_mu = b;
  io_mu = c;
}

pub record ListenerThreadCondPackets : Type 0 where
  pub listener_signal : ℕ
  pub calc_to_listener_signal : ℕ

abbrev pub initialize_cond_packs :
    (listener_signal calc_to_listener_signal : ℕ) → ListenerThreadCondPackets
initialize_cond_packs a b = record { listener_signal = a; calc_to_listener_signal = b }

pub record ListenerPack : Type 0 where
  pub type_ : ListenerT
  pub sd : ℕ
  pub client_addr : ℕ
  pub mu_set : ListenerMutexSet
  pub batch_stock : ℕ
  pub cond_packs : ListenerThreadCondPackets

abbrev pub initialize_listener_pack :
    ListenerT
    → (sd client_addr : ℕ) → ListenerMutexSet
    → ListenerThreadCondPackets
    → (bs : ℕ) → ListenerPack
initialize_listener_pack t sd client_addr mu_set cond_packs bs = record {
  type_ = t;
  sd = sd;
  client_addr = client_addr;
  mu_set = mu_set;
  batch_stock = bs;
  cond_packs = cond_packs;
}

pub record SenderMutexSet : Type 0 where
  pub client_addr_mu : ℕ
  pub io_mu : ℕ

abbrev pub initialize_sender_mutex_set : (client_addr_mu io_mu : ℕ) → SenderMutexSet
initialize_sender_mutex_set a b = record { client_addr_mu = a; io_mu = b }

pub record SenderThreadCondPacks : Type 0 where
  pub calc_to_sender_signal : ℕ
  pub sender_signal : ℕ

abbrev pub initialize_sender_cond_packs :
    (calc_to_sender_signal sender_signal : ℕ) → SenderThreadCondPacks
initialize_sender_cond_packs a b = record { calc_to_sender_signal = a; sender_signal = b }

pub record SenderPack : Type 0 where
  pub sd : ℕ
  pub client_addr : ℕ
  pub cs : ℕ
  pub mu_set : SenderMutexSet
  pub cond_packs : SenderThreadCondPacks

abbrev pub initialize_sender_pack :
    (sd client_addr cs : ℕ) → SenderMutexSet → SenderThreadCondPacks → SenderPack
initialize_sender_pack sd client_addr cs mu_set cond_packs = record {
  sd = sd;
  client_addr = client_addr;
  cs = cs;
  mu_set = mu_set;
  cond_packs = cond_packs;
}

-- The threads, by the callback that each runs.
pub data Thread : Type 0 where
  listener : ListenerPack → Thread
  sender : SenderPack → Thread

pub record Globals : Type 0 where
  pub batch_stock_access_mu : ℕ
  pub io_mu : ℕ
  pub client_addr_mu : ℕ
  pub listener_one_signal : ℕ
  pub listener_two_signal : ℕ
  pub calc_signal_to_listener_one : ℕ
  pub calc_signal_to_listener_two : ℕ
  pub calc_to_sender_signal : ℕ
  pub sender_signal : ℕ
  pub client_addr : ℕ
  pub sd_in_first : ℕ
  pub sd_in_second : ℕ
  pub sd_out : ℕ
  pub bs : ℕ
  pub cs : ℕ

-- The six packs, each in the next cell.
abbrev pub initialize_condition_packs : Packs → Globals → Globals × Packs
initialize_condition_packs h g = (
  record g {
    listener_one_signal = length h;
    listener_two_signal = length h + 1;
    calc_signal_to_listener_one = length h + 2;
    calc_signal_to_listener_two = length h + 3;
    calc_to_sender_signal = length h + 4;
    sender_signal = length h + 5;
  },
  h
      ++ initialize_thread_cond_pack false
        ∷ initialize_thread_cond_pack false
        ∷ initialize_thread_cond_pack true
        ∷ initialize_thread_cond_pack true
        ∷ initialize_thread_cond_pack false
        ∷ initialize_thread_cond_pack true
        ∷ [],
)

module _ (g : Globals) where
  -- The thread that `start_listener` creates.
  abbrev pub listener_thread : ListenerT → (listener_signal calc_to_listener_signal sd : ℕ) → Thread
  listener_thread t listener_signal calc_to_listener_signal sd = listener (
      initialize_listener_pack t sd g.client_addr
        (create_listener_mutex_set g.batch_stock_access_mu g.client_addr_mu g.io_mu)
        (initialize_cond_packs listener_signal calc_to_listener_signal) g.bs)

  abbrev pub first_thread : Thread
  first_thread =
      listener_thread listener_first g.listener_one_signal g.calc_signal_to_listener_one
        g.sd_in_first

  abbrev pub second_thread : Thread
  second_thread =
      listener_thread listener_second g.listener_two_signal g.calc_signal_to_listener_two
        g.sd_in_second

  -- The thread that `start_sender` creates.
  abbrev pub sender_thread : Thread
  sender_thread = sender (
      initialize_sender_pack g.sd_out g.client_addr g.cs
        (initialize_sender_mutex_set g.client_addr_mu g.io_mu)
        (initialize_sender_cond_packs g.calc_to_sender_signal g.sender_signal))

  module _ (pthread_create : Thread → ℕ) where
    -- The thread where the status of its creation is 0, and `exit_error` where it is not.
    abbrev pub start : Thread → Outcome Thread
    start t = if pthread_create t == 0 then ok t else exit

    abbrev pub create_listeners : Outcome (List Thread)
    create_listeners = do
      first ← start first_thread
      second ← start second_thread
      ok (first ∷ second ∷ [])

    abbrev pub create_sender : Outcome Thread
    create_sender = start sender_thread

    -- The barrier that `spawn_workers` waits at in the end is in Barrier.
    unfoldable pub spawn_workers : Outcome (List Thread)
    spawn_workers = do
      listeners ← create_listeners
      last ← create_sender
      ok (listeners ++ last ∷ [])
