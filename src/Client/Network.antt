-- ===== src/Client/Network.antt =====
-- The sockets of the client and the addresses of the server: `initialize_network_interface`,
-- `init_sa_in` and `set_server_address` of client/network_interactions.c, and their calls in
-- `initialize_globals` of client/main.c.
use quadrocopt.Base.{ℕ, List, Option, none, some, Outcome, ok, exit, ◌>>=◌}
use quadrocopt.Address.{
  SockaddrIn, Sockets, Bound, sin_port_of, bind_sockaddr, server_in_first_port,
  server_in_second_port, client_in_port,
}

-- The addresses are shown by the structures that `in_first` and `in_second` point to.
pub record ServerAddress : Type 0 where
  pub in_first : SockaddrIn
  pub in_second : SockaddrIn
  pub first_len : ℕ
  pub second_len : ℕ

pub record NetworkInterface : Type 0 where
  pub sd_in : ℕ
  pub sd_out : ℕ
  pub skaddr_in : SockaddrIn
  pub server_addr : Option ServerAddress

module _ (lib : Sockets) where
  abbrev pub init_sa_in : (host : List ℕ) (port : ℕ) → SockaddrIn
  init_sa_in host port = record {
    sin_family = lib.af_inet;
    s_addr = lib.inet_addr host;
    sin_port = sin_port_of lib port;
  }

  -- A `struct sockaddr` has 16 bytes.
  abbrev pub set_server_address : (host_addr : List ℕ) → ServerAddress
  set_server_address host_addr = record {
    in_first = init_sa_in host_addr server_in_first_port;
    first_len = 16;
    in_second = init_sa_in host_addr server_in_second_port;
    second_len = 16;
  }

  abbrev pub bind_sockets : (sd_in sd_out : Option ℕ) → Bound → Outcome (NetworkInterface × Bound)
  bind_sockets (some a) (some b) bound = do
    skaddr ← bind_sockaddr lib lib.inaddr_any client_in_port a bound
    ok (record { sd_in = a; sd_out = b; skaddr_in = skaddr.0; server_addr = none }, skaddr.1)
  bind_sockets _ _ bound = exit

  unfoldable pub initialize_network_interface : Bound → Outcome (NetworkInterface × Bound)
  initialize_network_interface bound = bind_sockets (lib.socket 0) (lib.socket 1) bound

  -- The first three lines of `initialize_globals`.
  unfoldable pub initialize_network :
      (server_addr_str : List ℕ) → Bound → Outcome (NetworkInterface × Bound)
  initialize_network server_addr_str bound = do
    made ← initialize_network_interface bound
    ok (record (made.0) { server_addr = some (set_server_address server_addr_str) }, made.1)
