-- ===== src/Base/Memory.antt =====
-- What a run of C code ends in: a value, `exit(1)`, or an access that C leaves undefined.
-- And the two ends of a `memcpy`: a read and a write of a run of cells of an array.
use Prim.Native.Nat.{ℕ, ◌+◌, ◌≤◌}
use mathlib.Core.Path.{◌≡◌, refl}
use mathlib.Core.Option.{Option, none, some}
use mathlib.Core.List.{List, ◌++◌, append_assoc}
use native.Mathlib.Omega.{arith}
use quadrocopt.Base.Tests.{leb, if◌then◌else◌, le→leb}
use quadrocopt.Base.Lists.{
  length, take, drop, length-take, length-drop, length-append, take-append, drop-append,
}

pub data Outcome {ℓ} (A : Type ℓ) : Type ℓ where
  ok : A → Outcome A
  exit : Outcome A
  fault : Outcome A

infixl 5 ◌>>=◌
abbrev pub ◌>>=◌ {ℓ κ} : {A : Type ℓ} {B : Type κ} → Outcome A → (A → Outcome B) → Outcome B
ok a >>= f = f a
exit >>= f = exit
fault >>= f = fault

-- A chain that ends in a value: its first part does, and so does the rest from there.
pub >>=-eq-ok {ℓ κ} :
    {A : Type ℓ} {B : Type κ} (run : Outcome A) (rest : A → Outcome B) {last : B}
    → (run >>= rest) ≡ ok last
    → (first : A) × (run ≡ ok first) × (rest first ≡ ok last)
>>=-eq-ok fault rest ended = cc
>>=-eq-ok exit rest ended = cc
>>=-eq-ok (ok first) rest ended = (first, refl, ended)

-- A read of one cell.
abbrev pub or_fault {ℓ} : {A : Type ℓ} → Option A → Outcome A
or_fault none = fault
or_fault (some a) = ok a

module _ {ℓ} {A : Type ℓ} where
  -- `n` cells from `offset` on.
  unfoldable pub read_at : List A → (offset n : ℕ) → Outcome (List A)
  read_at l offset n = if leb (offset + n) (length l) then ok (take n (drop offset l)) else fault

  -- The cells of `src` over those of `l` from `offset` on.
  unfoldable pub write_at : List A → (offset : ℕ) → List A → Outcome (List A)
  write_at l offset src =
      if leb (offset + length src) (length l)
      then ok (take offset l ++ (src ++ drop (offset + length src) l))
      else fault

module _ {ℓ} {A : Type ℓ} where
  pub read_at-append :
      (xs ys zs : List A) (offset n : ℕ)
      → offset ≡ length xs
      → n ≡ length ys
      → read_at (xs ++ (ys ++ zs)) offset n ≡ ok ys
  unfolding read_at
  read_at-append xs ys zs offset n e d =
      rw
        (le→leb (offset + n) (length (xs ++ (ys ++ zs)))
          (omega (arith, length-append xs (ys ++ zs), length-append ys zs)))
        (rw (drop-append xs (ys ++ zs) offset e) (rw (take-append ys zs n d)))

  pub read_at-ok :
      (l : List A) (offset n : ℕ)
      → offset + n ≤ length l
      → read_at l offset n ≡ ok (take n (drop offset l))
  unfolding read_at
  read_at-ok l offset n h = rw (le→leb (offset + n) (length l) h)

  pub write_at-append :
      (xs ys zs src : List A) (offset : ℕ)
      → offset ≡ length xs
      → length src ≡ length ys
      → write_at (xs ++ (ys ++ zs)) offset src ≡ ok (xs ++ (src ++ zs))
  unfolding write_at
  write_at-append xs ys zs src offset e d =
      rw
        (le→leb (offset + length src) (length (xs ++ (ys ++ zs)))
          (omega (arith, length-append xs (ys ++ zs), length-append ys zs)))
        (rw (take-append xs (ys ++ zs) offset e) (
          rw (← append_assoc xs ys zs) (
            rw (
              drop-append (xs ++ ys) zs (offset + length src)
                (omega (arith, length-append xs ys))))))

  -- A read that succeeds lies within the array and gives `n` cells.
  pub read_at-eq-ok :
      (l : List A) (offset n : ℕ) {x : List A}
      → read_at l offset n ≡ ok x
      → (offset + n ≤ length l) × (length x ≡ n)
  unfolding read_at
  read_at-eq-ok l offset n h = ground (arith, length-take n (drop offset l), length-drop offset l)
