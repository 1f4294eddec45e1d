-- ===== src/Address.antt =====
-- The addresses of both programs: `bind_sockaddr`, `are_hosts_unequal` and `copy_sockaddr`, which
-- client/network_interactions.c and server/network_interactions.c both define, and the ports of
-- constants.h. `malloc` is taken to succeed; what the socket library does is a parameter.
pub mod Copying
mod Examples
use quadrocopt.Base.{
  ℕ, zero, suc, ◌+◌, ◌%◌, ◌^◌, Bool, true, false, List, [], ◌∷◌, ◌++◌, length, get_elem?, Option,
  none, some, Outcome, ok, exit, fault, ◌>>=◌, or_fault, read_at, write_at, ◌==◌, if◌then◌else◌,
}
use quadrocopt.Heap.{Ptr}

-- `struct sockaddr` and `struct sockaddr_in`, the second without its padding.
pub record Sockaddr : Type 0 where
  pub sa_family : ℕ
  pub sa_data : List ℕ

pub record SockaddrIn : Type 0 where
  pub sin_family : ℕ
  pub sin_port : ℕ
  pub s_addr : ℕ

abbrev pub server_in_first_port : ℕ
server_in_first_port = 43567

abbrev pub server_in_second_port : ℕ
server_in_second_port = 43568

abbrev pub server_out_port : ℕ
server_out_port = 43569

abbrev pub client_in_port : ℕ
client_in_port = 32547

-- What the programs use of the socket library. `socket` has the number of the call, and gives no
-- descriptor where it fails. `bind` sees the sockets bound before, and says whether it succeeds.
pub record Sockets : Type 0 where
  pub af_inet : ℕ
  pub inaddr_any : ℕ
  pub htonl : ℕ → ℕ
  pub htons : ℕ → ℕ
  pub inet_addr : List ℕ → ℕ
  pub socket : ℕ → Option ℕ
  pub bind : List (ℕ × SockaddrIn) → ℕ → SockaddrIn → Bool

-- The sockets that are bound, the latest first.
abbrev pub Bound : Type 0
Bound = List (ℕ × SockaddrIn)

module _ (lib : Sockets) where
  -- `(unsigned short) port` keeps the lowest 16 bits.
  abbrev pub sin_port_of : ℕ → ℕ
  sin_port_of port = lib.htons (port % 2 ^ 16)

  -- The address, and the sockets bound after the call; `host` is not used.
  abbrev pub bind_sockaddr : (host port sd : ℕ) → Bound → Outcome (SockaddrIn × Bound)
  bind_sockaddr host port sd bound =
      let skaddr : SockaddrIn = record {
        sin_family = lib.af_inet;
        s_addr = lib.htonl lib.inaddr_any;
        sin_port = sin_port_of port;
      } in
      if lib.bind bound sd skaddr then ok (skaddr, (sd, skaddr) ∷ bound) else exit

-- The structures in memory, by their addresses.
abbrev pub Structs : Type 0
Structs = List Sockaddr

abbrev pub sockaddr_at : Structs → Ptr → Outcome Sockaddr
sockaddr_at h none = fault
sockaddr_at h (some i) = or_fault (get_elem? h i)

abbrev pub is_same : Ptr → Ptr → Bool
is_same none none = true
is_same (some i) (some j) = i == j
is_same _ _ = false

-- The assignments of the loop of `copy_sockaddr` from `i` on, for `left` rounds.
abbrev pub copy_loop : (left i : ℕ) (src new_data : List ℕ) → Outcome (List ℕ)
copy_loop zero i src new_data = ok new_data
copy_loop (suc left) i src new_data = do
  byte ← read_at src i 1
  new_data ← write_at new_data i byte
  copy_loop left (i + 1) src new_data

-- `junk` is what the new memory holds.
unfoldable pub copy_sockaddr : (junk : List ℕ) → Structs → (src : Ptr) → Outcome (Ptr × Structs)
copy_sockaddr junk h src = do
  source ← sockaddr_at h src
  sa_data ← copy_loop 14 0 source.sa_data junk
  ok (some (length h), h ++ record { sa_family = source.sa_family; sa_data = sa_data } ∷ [])

-- `as_in` is the cast from `struct sockaddr`.
module _ (as_in : Sockaddr → SockaddrIn) where
  abbrev pub compare_hosts : Structs → (first second : Ptr) → Outcome Bool
  compare_hosts h none second = ok true
  compare_hosts h (some i) none = ok true
  compare_hosts h (some i) (some j) = do
    first_in ← sockaddr_at h (some i)
    second_in ← sockaddr_at h (some j)
    ok (if (as_in first_in).s_addr == (as_in second_in).s_addr then false else true)

  unfoldable pub are_hosts_unequal : Structs → (first second : Ptr) → Outcome Bool
  are_hosts_unequal h first second =
      if is_same first second then ok false else compare_hosts h first second
