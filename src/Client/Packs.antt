-- ===== src/Client/Packs.antt =====
-- What the client's threads are given: the collection of condition packs of client/data_struct.c, made
-- by `initialize_condition_packs` of client/main.c, and the structures of client/listener.c,
-- client/sender.c and client/printer.c. Sockets, mutexes, stocks and packs are shown by their
-- addresses; the packs themselves are the cells of a list.
use quadrocopt.Base.{ℕ, ◌+◌, true, false, [], ◌∷◌, ◌++◌, length}
use quadrocopt.Condition.{Packs, initialize_thread_cond_pack}

-- `ThreadConditionPacksCollection` of client/data_struct.c.
pub record ThreadConditionPacksCollection : Type 0 where
  pub sender_to_signal : ℕ
  pub sender_from_signal : ℕ
  pub listener_to_signal : ℕ
  pub listener_from_signal : ℕ
  pub printer_to_signal : ℕ
  pub printer_from_signal : ℕ

abbrev pub initialize_thread_cond_packs_collection :
    (sender_to_signal sender_from_signal listener_to_signal listener_from_signal : ℕ)
    (printer_to_signal printer_from_signal : ℕ)
    → ThreadConditionPacksCollection
initialize_thread_cond_packs_collection a b c d e f = record {
  sender_to_signal = a;
  sender_from_signal = b;
  listener_from_signal = d;
  listener_to_signal = c;
  printer_to_signal = e;
  printer_from_signal = f;
}

pub record ListenerThreadCondPackets : Type 0 where
  pub listener_signal : ℕ
  pub calc_to_listener_signal : ℕ

abbrev pub initialize_cond_packs :
    (listener_signal calc_to_listener_signal : ℕ) → ListenerThreadCondPackets
initialize_cond_packs a b = record { listener_signal = a; calc_to_listener_signal = b }

pub record ListenerPack : Type 0 where
  pub sd : ℕ
  pub io_mu : ℕ
  pub cond_packs : ListenerThreadCondPackets
  pub batch_stock : ℕ

-- The mutex set holds the one mutex that `create_listener_mutex_set` puts into it.
abbrev pub initialize_listener_pack :
    (sd io_mu : ℕ) → ListenerThreadCondPackets → (bs : ℕ) → ListenerPack
initialize_listener_pack sd mu_set cond_packs bs = record {
  sd = sd;
  io_mu = mu_set;
  batch_stock = bs;
  cond_packs = cond_packs;
}

pub record SenderThreadCondPacks : Type 0 where
  pub calc_to_sender_signal : ℕ
  pub sender_signal : ℕ

abbrev pub initialize_sender_cond_packs :
    (sender_signal calc_to_sender_signal : ℕ) → SenderThreadCondPacks
initialize_sender_cond_packs a b = record { calc_to_sender_signal = b; sender_signal = a }

pub record SenderPack : Type 0 where
  pub sd : ℕ
  pub server_addr : ℕ
  pub stock : ℕ
  pub io_mu : ℕ
  pub cond_packs : SenderThreadCondPacks

abbrev pub initialize_sender_pack :
    (sd server_addr s io_mu : ℕ) → SenderThreadCondPacks → SenderPack
initialize_sender_pack sd server_addr s mu_set cond_packs = record {
  sd = sd;
  server_addr = server_addr;
  stock = s;
  io_mu = mu_set;
  cond_packs = cond_packs;
}

pub record PrinterThreadCondPackets : Type 0 where
  pub printer_signal : ℕ
  pub calc_to_printer_signal : ℕ

abbrev pub initialize_printer_thread_cond_packs :
    (printer_signal calc_to_printer_signal : ℕ) → PrinterThreadCondPackets
initialize_printer_thread_cond_packs a b = record { printer_signal = a; calc_to_printer_signal = b }

pub record PrinterPack : Type 0 where
  pub io_mu : ℕ
  pub cond_packs : PrinterThreadCondPackets
  pub ps : ℕ

abbrev pub initialize_printer_pack : (io_mu : ℕ) → PrinterThreadCondPackets → (ps : ℕ) → PrinterPack
initialize_printer_pack mu_set cond_packs ps = record {
  io_mu = mu_set;
  cond_packs = cond_packs;
  ps = ps;
}

-- The six packs, each in the next cell.
abbrev pub initialize_condition_packs : Packs → ThreadConditionPacksCollection × Packs
initialize_condition_packs h = (
  initialize_thread_cond_packs_collection (length h) (length h + 1) (length h + 2) (length h + 3)
      (length h + 4) (length h + 5),
  h
      ++ initialize_thread_cond_pack true
        ∷ initialize_thread_cond_pack false
        ∷ initialize_thread_cond_pack true
        ∷ initialize_thread_cond_pack false
        ∷ initialize_thread_cond_pack false
        ∷ initialize_thread_cond_pack true
        ∷ [],
)
