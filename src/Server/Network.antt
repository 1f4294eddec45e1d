-- ===== src/Server/Network.antt =====
-- The sockets of the server and the address of the client: `initialize_network_interface`,
-- `initialize_client_address` and `set_client_address` of server/network_interactions.c.
use quadrocopt.Base.{ℕ, List, [], ◌∷◌, Option, some, Outcome, ok, exit, ◌>>=◌}
use quadrocopt.Address.{
  SockaddrIn, Sockets, Bound, sin_port_of, bind_sockaddr, server_in_first_port,
  server_in_second_port, server_out_port, client_in_port,
}

-- The address is shown by the structure that `addr` points to.
pub record ClientAddress : Type 0 where
  pub addr : SockaddrIn
  pub addr_len : ℕ

pub record NetworkInterface : Type 0 where
  pub sd_in_first : ℕ
  pub sd_in_second : ℕ
  pub sd_out : ℕ
  pub skaddr_in_first : SockaddrIn
  pub skaddr_in_second : SockaddrIn
  pub skaddr_out : SockaddrIn
  pub client_addr : ClientAddress

-- The text 127.0.0.1.
abbrev localhost : List ℕ
localhost = 49 ∷ 50 ∷ 55 ∷ 46 ∷ 48 ∷ 46 ∷ 48 ∷ 46 ∷ 49 ∷ []

abbrev pub set_client_address : ClientAddress → SockaddrIn → (addr_len : ℕ) → ClientAddress
set_client_address client_addr addr addr_len = record client_addr {
  addr = addr;
  addr_len = addr_len;
}

module _ (lib : Sockets) where
  -- A `struct sockaddr_in` has 16 bytes.
  abbrev pub initialize_client_address : ClientAddress
  initialize_client_address = record {
    addr = record {
      sin_family = lib.af_inet;
      s_addr = lib.inet_addr localhost;
      sin_port = sin_port_of lib client_in_port;
    };
    addr_len = 16;
  }

  abbrev pub bind_sockets :
      (sd_in_first sd_in_second sd_out : Option ℕ) → Bound → Outcome (NetworkInterface × Bound)
  bind_sockets (some a) (some b) (some c) bound = do
    first ← bind_sockaddr lib lib.inaddr_any server_in_first_port a bound
    second ← bind_sockaddr lib lib.inaddr_any server_in_second_port b first.1
    out ← bind_sockaddr lib lib.inaddr_any server_out_port c second.1
    ok (
      record {
        sd_in_first = a;
        sd_in_second = b;
        sd_out = c;
        skaddr_in_first = first.0;
        skaddr_in_second = second.0;
        skaddr_out = out.0;
        client_addr = initialize_client_address;
      },
      out.1,
    )
  bind_sockets _ _ _ bound = exit

  unfoldable pub initialize_network_interface : Bound → Outcome (NetworkInterface × Bound)
  initialize_network_interface bound =
      bind_sockets (lib.socket 0) (lib.socket 1) (lib.socket 2) bound
