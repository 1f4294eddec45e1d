-- ===== src/Address/Copying.antt =====
-- A copy of an address is the same address.
use quadrocopt.Base.{
  ℕ, zero, suc, ◌+◌, ◌≡◌, refl, arith, true, false, List, [], ◌∷◌, ◌++◌, length, get_elem?, none,
  some, ok, fault, read_at-append, write_at-append, length-append, get_elem?-append,
  get_elem?-append_left,
}
use mathlib.Core.List.{append_assoc}
use quadrocopt.Address.{Sockaddr, SockaddrIn, Structs, copy_loop, copy_sockaddr, are_hosts_unequal}

-- The rounds that are left write the rest of the source over the rest of the new memory.
copy_loop-append :
    (left i : ℕ) (xs ys zs : List ℕ)
    → i ≡ length xs
    → left ≡ length ys
    → left ≡ length zs
    → copy_loop left i (xs ++ ys) (xs ++ zs) ≡ ok (xs ++ ys)
copy_loop-append zero i xs [] [] a b c = refl
copy_loop-append zero i xs [] (z ∷ zs) a b c = absurd (omega arith)
copy_loop-append zero i xs (y ∷ ys) zs a b c = absurd (omega arith)
copy_loop-append (suc left) i xs [] zs a b c = absurd (omega arith)
copy_loop-append (suc left) i xs (y ∷ ys) [] a b c = absurd (omega arith)
copy_loop-append (suc left) i xs (y ∷ ys) (z ∷ zs) a b c =
    rw (read_at-append xs (y ∷ []) ys i 1 a refl) (
      rw (write_at-append xs (z ∷ []) zs (y ∷ []) i a refl) (
        rw (← append_assoc xs (y ∷ []) ys) (
          rw (← append_assoc xs (y ∷ []) zs) (
            copy_loop-append left (i + 1) (xs ++ y ∷ []) ys zs
              (omega (arith, length-append xs (y ∷ []))) (omega arith) (omega arith)))))

-- An address of fourteen bytes, copied into new memory of as many: the copy is at a new place
-- behind what was in memory and equal to it, and the hosts of the two are not unequal, while the
-- host of either is unequal to NULL. A copy of NULL is a fault.
pub copy_sockaddr-copies :
    (as_in : Sockaddr → SockaddrIn) (junk : List ℕ) (h : Structs) (i : ℕ) {sa : Sockaddr}
    → get_elem? h i ≡ some sa
    → length sa.sa_data ≡ 14
    → length junk ≡ 14
    → (copy_sockaddr junk h (some i) ≡ ok (some (length h), h ++ sa ∷ []))
      × (are_hosts_unequal as_in (h ++ sa ∷ []) (some i) (some (length h)) ≡ ok false)
      × (are_hosts_unequal as_in (h ++ sa ∷ []) (some i) none ≡ ok true)
      × (are_hosts_unequal as_in (h ++ sa ∷ []) none (some i) ≡ ok true)
      × (copy_sockaddr junk h none ≡ fault)
unfolding copy_sockaddr are_hosts_unequal
copy_sockaddr-copies as_in junk h i {sa} at len len' =
    let whole = copy_loop-append 14 0 [] sa.sa_data junk refl (omega arith) (omega arith) in
    let new = get_elem?-append h [] sa in
    let old = get_elem?-append_left h (sa ∷ []) i at in
    (rw at (rw whole refl), rw old (rw new (ground arith)), refl, refl, refl)
