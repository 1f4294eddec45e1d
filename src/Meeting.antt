-- ===== src/Meeting.antt =====
-- The sockets of the two programs together: client/network_interactions.c sends to the ports that
-- server/network_interactions.c binds, and the other way round.
mod Examples
use quadrocopt.Base.{
  ℕ, ◌%◌, ◌^◌, ◌<◌, ◌≡◌, ◌≢◌, refl, arith, Bool, true, ◌&&◌, ◌||◌, List, [], ◌∷◌, Option, none,
  some, Outcome, ok, exit, ◌==◌, if◌then◌else◌,
}
use quadrocopt.Address.{SockaddrIn, Sockets, Bound, sin_port_of, bind_sockaddr}
use quadrocopt.Server.Network as ServerNetwork
use quadrocopt.Client.Network as ClientNetwork

-- The socket that is bound to the port of an address.
abbrev pub at_port : Bound → SockaddrIn → Option ℕ
at_port [] to = none
at_port ((sd, skaddr) ∷ bound) to =
    if skaddr.sin_port == to.sin_port then some sd else at_port bound to

module _ (lib : Sockets) (of_host : ℕ → Bool) where
  -- A socket takes what is sent to its port, and to its address or, bound to INADDR_ANY, to any.
  abbrev takes : (bound to : SockaddrIn) → Bool
  takes bound to =
      bound.sin_port == to.sin_port
      && (bound.s_addr == lib.htonl lib.inaddr_any || bound.s_addr == to.s_addr)

  abbrev taken_by : Bound → SockaddrIn → Option ℕ
  taken_by [] to = none
  taken_by ((sd, skaddr) ∷ bound) to = if takes skaddr to then some sd else taken_by bound to

  -- The socket of this host that a datagram to an address arrives at, where `of_host` says which
  -- addresses are those of the host.
  abbrev pub arrives_at : Bound → SockaddrIn → Option ℕ
  arrives_at bound to = if of_host to.s_addr then taken_by bound to else none

-- What the programs rely on: `htons` gives different 16-bit ports different places in an address,
-- and a port that no socket is bound to can be bound.
pub record IsSockets (lib : Sockets) : Type 0 where
  pub htons_inj : (p q : ℕ) → p < 2 ^ 16 → q < 2 ^ 16 → lib.htons p ≡ lib.htons q → p ≡ q
  pub bind_free :
      (bound : Bound) (sd : ℕ) (skaddr : SockaddrIn)
      → at_port bound skaddr ≡ none
      → lib.bind bound sd skaddr ≡ true

module _ (lib : Sockets) where
  -- What `bind_sockaddr` binds for a port.
  abbrev bound_addr : (port : ℕ) → SockaddrIn
  bound_addr port = record {
    sin_family = lib.af_inet;
    s_addr = lib.htonl lib.inaddr_any;
    sin_port = sin_port_of lib port;
  }

  bind_sockaddr-free :
      (host port sd : ℕ) (bound : Bound)
      → IsSockets lib
      → at_port bound (bound_addr port) ≡ none
      → bind_sockaddr lib host port sd bound ≡ ok (bound_addr port, (sd, bound_addr port) ∷ bound)
  bind_sockaddr-free host port sd bound is free =
      rw (is.bind_free bound sd (bound_addr port) free) refl

  -- The ports of the server are at three places.
  first≢second : IsSockets lib → lib.htons 43567 ≢ lib.htons 43568
  first≢second is e = let q = is.htons_inj 43567 43568 (omega arith) (omega arith) e in omega arith

  first≢out : IsSockets lib → lib.htons 43567 ≢ lib.htons 43569
  first≢out is e = let q = is.htons_inj 43567 43569 (omega arith) (omega arith) e in omega arith

  second≢out : IsSockets lib → lib.htons 43568 ≢ lib.htons 43569
  second≢out is e = let q = is.htons_inj 43568 43569 (omega arith) (omega arith) e in omega arith

  abbrev server_bound : (a b c : ℕ) → Bound
  server_bound a b c = (c, bound_addr 43569) ∷ (b, bound_addr 43568) ∷ (a, bound_addr 43567) ∷ []

  server_binds :
      {a b c : ℕ}
      → IsSockets lib
      → lib.socket 0 ≡ some a
      → lib.socket 1 ≡ some b
      → lib.socket 2 ≡ some c
      → ServerNetwork.initialize_network_interface lib []
        ≡ ok (
          record {
            sd_in_first = a;
            sd_in_second = b;
            sd_out = c;
            skaddr_in_first = bound_addr 43567;
            skaddr_in_second = bound_addr 43568;
            skaddr_out = bound_addr 43569;
            client_addr = ServerNetwork.initialize_client_address lib;
          },
          server_bound a b c,
        )
  unfolding ServerNetwork.initialize_network_interface
  server_binds {a} {b} {c} is ea eb ec =
      let x = first≢second is in
      let y = first≢out is in
      let z = second≢out is in
      rw ea (
        rw eb (
          rw ec (
            rw (bind_sockaddr-free lib.inaddr_any 43567 a [] is refl) (
              rw
                (bind_sockaddr-free lib.inaddr_any 43568 b ((a, bound_addr 43567) ∷ []) is
                  (ground arith))
                (rw
                  (bind_sockaddr-free lib.inaddr_any 43569 c
                    ((b, bound_addr 43568) ∷ (a, bound_addr 43567) ∷ []) is (ground arith))
                  refl)))))

  -- And that of the client is at another one.
  in≢first : IsSockets lib → lib.htons 32547 ≢ lib.htons 43567
  in≢first is e = let q = is.htons_inj 32547 43567 (omega arith) (omega arith) e in omega arith

  in≢second : IsSockets lib → lib.htons 32547 ≢ lib.htons 43568
  in≢second is e = let q = is.htons_inj 32547 43568 (omega arith) (omega arith) e in omega arith

  in≢out : IsSockets lib → lib.htons 32547 ≢ lib.htons 43569
  in≢out is e = let q = is.htons_inj 32547 43569 (omega arith) (omega arith) e in omega arith

-- The socket library as the client's process sees it.
abbrev pub of_client : Sockets → (socket : ℕ → Option ℕ) → Sockets
of_client lib socket = record lib { socket = socket }

-- The text 127.0.0.1.
abbrev pub loopback : List ℕ
loopback = 49 ∷ 50 ∷ 55 ∷ 46 ∷ 48 ∷ 46 ∷ 48 ∷ 46 ∷ 49 ∷ []

-- A server, and then a client, on one host where nothing is bound before, where every socket can be
-- made and a port that is not taken can be bound; 127.0.0.1 is an address of the host, and so is the
-- one that the client is started with: both programs bind what they bind without an exit, what the
-- client sends to the first and to the second address of its server arrives at the sockets of the
-- first and of the second listener, and what the server sends to the address of its client arrives
-- at the socket of the client's listener.
pub addresses_meet :
    (lib : Sockets) (client_socket : ℕ → Option ℕ) (of_host : ℕ → Bool) {a b c d e : ℕ}
    (server_addr_str : List ℕ)
    → IsSockets lib
    → of_host (lib.inet_addr loopback) ≡ true
    → of_host (lib.inet_addr server_addr_str) ≡ true
    → lib.socket 0 ≡ some a
    → lib.socket 1 ≡ some b
    → lib.socket 2 ≡ some c
    → client_socket 0 ≡ some d
    → client_socket 1 ≡ some e
    → (si : ServerNetwork.NetworkInterface) × (sb : Bound) × (ci : ClientNetwork.NetworkInterface)
      × (bound : Bound) × (to : ClientNetwork.ServerAddress)
      × (ServerNetwork.initialize_network_interface lib [] ≡ ok (si, sb))
      × (ClientNetwork.initialize_network (of_client lib client_socket) server_addr_str sb
          ≡ ok (ci, bound))
      × (ci.server_addr ≡ some to)
      × (arrives_at lib of_host bound to.in_first ≡ some si.sd_in_first)
      × (arrives_at lib of_host bound to.in_second ≡ some si.sd_in_second)
      × (arrives_at lib of_host bound si.client_addr.addr ≡ some ci.sd_in)
unfolding ClientNetwork.initialize_network ClientNetwork.initialize_network_interface
addresses_meet lib client_socket of_host {a} {b} {c} {d} {e} host is home there ea eb ec ed ee =
    let x = first≢second lib is in
    let y = first≢out lib is in
    let z = second≢out lib is in
    let u = in≢first lib is in
    let v = in≢second lib is in
    let w = in≢out lib is in
    (
      _,
      server_bound lib a b c,
      record {
        sd_in = d;
        sd_out = e;
        skaddr_in = bound_addr lib 32547;
        server_addr = some (ClientNetwork.set_server_address lib host);
      },
      (d, bound_addr lib 32547) ∷ server_bound lib a b c,
      ClientNetwork.set_server_address lib host,
      server_binds lib is ea eb ec,
      rw ed (
          rw ee (
            rw
              (bind_sockaddr-free lib lib.inaddr_any 32547 d (server_bound lib a b c) is
                (ground arith))
              refl)),
      refl,
      rw there (ground arith),
      rw there (ground arith),
      rw home (ground arith),
    )
