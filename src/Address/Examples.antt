-- ===== src/Address/Examples.antt =====
-- A copy of a concrete address.
use quadrocopt.Base.{◌≡◌, refl, true, false, [], ◌∷◌, none, some, ok, fault, replicate}
use quadrocopt.Address.{Sockaddr, SockaddrIn, Structs, copy_sockaddr, are_hosts_unequal}
use quadrocopt.Address.Copying.{copy_sockaddr-copies}

abbrev remote : Sockaddr
remote = record { sa_family = 2; sa_data = replicate 14 8 }

-- A cast that reads the address at its bytes, and keeps the first byte of each number only.
abbrev first_bytes : Sockaddr → SockaddrIn
first_bytes sa = elim sa.sa_data [
  | p ∷ _ ∷ a ∷ _ ↦ record { sin_family = sa.sa_family; sin_port = p; s_addr = a }
  | _ ↦ record { sin_family = sa.sa_family; sin_port = 0; s_addr = 0 }
]

abbrev two_remotes : Structs
two_remotes = remote ∷ remote ∷ []

copied_address :
    (copy_sockaddr (replicate 14 0) (remote ∷ []) (some 0) ≡ ok (some 1, two_remotes))
    × (are_hosts_unequal first_bytes two_remotes (some 0) (some 1) ≡ ok false)
    × (are_hosts_unequal first_bytes two_remotes (some 0) none ≡ ok true)
    × (are_hosts_unequal first_bytes two_remotes none (some 0) ≡ ok true)
    × (copy_sockaddr (replicate 14 0) (remote ∷ []) none ≡ fault)
copied_address = copy_sockaddr-copies first_bytes (replicate 14 0) (remote ∷ []) 0 refl refl refl
