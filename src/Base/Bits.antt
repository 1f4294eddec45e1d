-- ===== src/Base/Bits.antt =====
-- `|` and `&` of 32-bit fields, as arithmetic.
use Prim.Native.Nat.{
  ℕ, zero, suc, ◌+◌, ◌*◌, ◌/◌, ◌%◌, ◌^◌, ◌≤◌, ◌<◌, min, max, bit_and, bit_or, digits, bitwise,
  bit_and-bitwise, bit_or-bitwise,
}
use mathlib.Core.Path.{◌≡◌, refl, ap}
use native.Mathlib.Nat.{le_refl, pow-suc}
use native.Mathlib.Omega.{arith}

-- `digits` recurs on fuel; more of it than the first number needs changes nothing.
module _ (rest : ℕ → ℕ) (digit : ℕ → ℕ → ℕ) where
  spare_fuel :
      (x y fuel more : ℕ)
      → x ≤ fuel
      → fuel ≤ more
      → digits rest digit more x y ≡ digits rest digit fuel x y
  spare_fuel zero y zero zero enough le = refl
  spare_fuel zero y zero (suc more) enough le = refl
  spare_fuel zero y (suc fuel) zero enough le = refl
  spare_fuel zero y (suc fuel) (suc more) enough le = refl
  spare_fuel (suc x) y zero more enough le = absurd (omega arith)
  spare_fuel (suc x) y (suc fuel) zero enough le = absurd (omega arith)
  spare_fuel (suc x) y (suc fuel) (suc more) enough le =
      rw (spare_fuel (suc x / 2) (y / 2) fuel more (omega arith) (omega arith))

  lowest_digit :
      (x y : ℕ)
      → bitwise rest digit (suc x) y
        ≡ 2 * bitwise rest digit (suc x / 2) (y / 2) + digit (suc x % 2) (y % 2)
  lowest_digit x y =
      let half = suc x / 2 in
      omega (arith, spare_fuel half (y / 2) half x (le_refl _) (omega arith))

-- `|` and `&` by the halves of both numbers and the lowest digits.
bit_or-halves : (x y : ℕ) → bit_or x y ≡ 2 * bit_or (x / 2) (y / 2) + max (x % 2) (y % 2)
bit_or-halves zero y = simp bit_or-bitwise (omega arith)
bit_or-halves (suc x) y = simp bit_or-bitwise (lowest_digit (λ r. r) max x y)

bit_and-halves : (x y : ℕ) → bit_and x y ≡ 2 * bit_and (x / 2) (y / 2) + min (x % 2) (y % 2)
bit_and-halves zero y = simp bit_and-bitwise (omega arith)
bit_and-halves (suc x) y = simp bit_and-bitwise (lowest_digit (λ r. 0) min x y)

pub bit_or_zero_left : (b : ℕ) → bit_or 0 b ≡ b
bit_or_zero_left b = simp bit_or-bitwise refl

mul-pow-suc : (q k : ℕ) → q * 2 ^ suc k ≡ 2 * (q * 2 ^ k)
mul-pow-suc q k = omega (arith, ap (λ (t : ℕ). q * t) (pow-suc 2 k))

-- A field above `k` low bits joins them by addition.
pub bit_or_above : (k r q : ℕ) → r < 2 ^ k → bit_or r (q * 2 ^ k) ≡ r + q * 2 ^ k
bit_or_above zero r q h =
    let e : r ≡ 0 = omega arith in rw e (omega (arith, bit_or_zero_left (q * 2 ^ 0)))
bit_or_above (suc k) r q h = ground (
  arith,
  bit_or-halves r (q * 2 ^ suc k),
  mul-pow-suc q k,
  pow-suc 2 k,
  bit_or_above k (r / 2) q (omega (arith, pow-suc 2 k)),
)

-- `&` commutes with a shift of both sides.
pub bit_and_shift : (k a b : ℕ) → bit_and (a * 2 ^ k) (b * 2 ^ k) ≡ bit_and a b * 2 ^ k
bit_and_shift zero a b =
    let e : (x : ℕ) → x * 2 ^ 0 ≡ x = λ x. omega arith in rw (e a) (rw (e b) (rw (e (bit_and a b))))
bit_and_shift (suc k) a b = ground (
  arith,
  bit_and-halves (a * 2 ^ suc k) (b * 2 ^ suc k),
  mul-pow-suc a k,
  mul-pow-suc b k,
  mul-pow-suc (bit_and a b) k,
  bit_and_shift k a b,
)

bit_and-nought : (bound x : ℕ) → x ≤ bound → bit_and x 0 ≡ 0
bit_and-nought bound zero small = refl
bit_and-nought (suc bound) (suc x) small =
    omega (arith, bit_and-halves (suc x) 0, bit_and-nought bound (suc x / 2) (omega arith))
bit_and-nought zero (suc x) small = absurd (omega arith)

-- A mask that ends in a one keeps the lowest digit.
bit_and_odd :
    (x half mask : ℕ) → mask ≡ 2 * half + 1 → bit_and x mask ≡ bit_and (x / 2) half * 2 + x % 2
bit_and_odd x half mask odd =
    let high : mask / 2 ≡ half = omega arith in
    let low : min (x % 2) (mask % 2) ≡ x % 2 = omega arith in
    rw (bit_and-halves x mask) (rw (high, low) (omega arith))

-- `& 0x0f` and `& 0xff` keep the low digits.
bit_and_nibble : (a : ℕ) → bit_and a 15 ≡ a % 16
bit_and_nibble a = omega (
  arith,
  bit_and_odd a 7 15 refl,
  bit_and_odd (a / 2) 3 7 refl,
  bit_and_odd (a / 2 / 2) 1 3 refl,
  bit_and_odd (a / 2 / 2 / 2) 0 1 refl,
  bit_and-nought (a / 2 / 2 / 2 / 2) (a / 2 / 2 / 2 / 2) (le_refl _),
)

pub bit_and_byte : (a : ℕ) → bit_and a 0xff ≡ a % 256
bit_and_byte a = omega (
  arith,
  bit_and_odd a 127 255 refl,
  bit_and_odd (a / 2) 63 127 refl,
  bit_and_odd (a / 2 / 2) 31 63 refl,
  bit_and_odd (a / 2 / 2 / 2) 15 31 refl,
  bit_and_nibble (a / 2 / 2 / 2 / 2),
)
