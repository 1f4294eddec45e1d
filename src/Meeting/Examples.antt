-- ===== src/Meeting/Examples.antt =====
-- The meeting of the two programs on hosts with concrete sockets.
use quadrocopt.Base.{
  Bool, length, ◌==◌, ◌||◌, if◌then◌else◌, ℕ, ◌+◌, ◌≡◌, refl, arith, true, false, [], ◌∷◌, none,
  some, ok,
}
use quadrocopt.Address.{Sockets, Bound}
use quadrocopt.Server.Network as ServerNetwork
use quadrocopt.Client.Network as ClientNetwork
use quadrocopt.Meeting.{at_port, arrives_at, of_client, IsSockets, addresses_meet}

-- A host whose ports are written with a shift of seven; a port is free where no socket has it.
abbrev host : (base : ℕ) → Sockets
host base = record {
  af_inet = 2;
  inaddr_any = 0;
  htonl = λ n. n;
  htons = λ n. n + 7;
  inet_addr = λ text. if length text == 9 then 127 else 10;
  socket = λ call. some (base + call);
  bind = λ bound sd skaddr. elim (at_port bound skaddr) [ none ↦ true | some s ↦ false ];
}

host-IsSockets : (base : ℕ) → IsSockets (host base)
host-IsSockets base = record {
  htons_inj = λ p q a b e. omega arith;
  bind_free = λ bound sd skaddr free. rw (free, host) refl;
}

-- The host has the addresses that its two texts stand for.
abbrev of_host : ℕ → Bool
of_host n = n == 127 || n == 10

addresses_meet_example :
    (si : ServerNetwork.NetworkInterface) × (sb : Bound) × (ci : ClientNetwork.NetworkInterface)
    × (bound : Bound) × (to : ClientNetwork.ServerAddress)
    × (ServerNetwork.initialize_network_interface (host 3) [] ≡ ok (si, sb))
    × (ClientNetwork.initialize_network (of_client (host 3) (λ call. some (9 + call))) (49 ∷ []) sb
        ≡ ok (ci, bound))
    × (ci.server_addr ≡ some to)
    × (arrives_at (host 3) of_host bound to.in_first ≡ some si.sd_in_first)
    × (arrives_at (host 3) of_host bound to.in_second ≡ some si.sd_in_second)
    × (arrives_at (host 3) of_host bound si.client_addr.addr ≡ some ci.sd_in)
addresses_meet_example =
    addresses_meet (host 3) (λ call. some (9 + call)) of_host (49 ∷ []) (host-IsSockets 3) refl refl
      refl refl refl refl refl
