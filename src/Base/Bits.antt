-- ===== src/Base/Bits.antt =====
-- `&` at variables: masks of low bits, masks of high bits, and the power-of-two test.
use Prim.Native.Nat.{min, bit_and, digits, bit_and-bitwise}
use native.Mathlib.Nat.{pow-suc, one-le-pow}
use Prim.Native.Nat.{ℕ, zero, suc, ◌+◌, ◌-◌, ◌*◌, ◌/◌, ◌%◌, ◌^◌, ◌≤◌, ◌<◌}
use mathlib.Core.Path.{◌≡◌, refl, sym, ap, ◌∙◌}
use native.Mathlib.Omega.{arith}

-- Induction by halves.
by_halves {ℓ} : (P : ℕ → Type ℓ) → P 0 → ((a : ℕ) → P (suc a / 2) → P (suc a)) → (a : ℕ) → P a
by_halves P base step a = below a a (omega arith)
  where
    below : (fuel a : ℕ) → a ≤ fuel → P a
    below fuel zero h = base
    below zero (suc a) h = absurd (omega arith)
    below (suc fuel) (suc a) h = step a (below fuel (suc a / 2) (omega arith))

-- the recursion on binary digits that `bit_and` stands for
abbrev meet : ℕ → ℕ → ℕ → ℕ
meet fuel x y = digits (λ _. zero) min fuel x y

-- With fuel enough for the first number, the recursion is `bit_and`.
Meets : ℕ → Type 0
Meets x = (fuel y : ℕ) → x ≤ fuel → meet fuel x y ≡ meet x x y

meet_stable : (x : ℕ) → Meets x
unfolding Meets
meet_stable = by_halves Meets nothing more
  where
    nothing : Meets 0
    nothing zero y h = refl
    nothing (suc fuel) y h = refl

    more : (x : ℕ) → Meets (suc x / 2) → Meets (suc x)
    more x half zero y h = absurd (omega arith)
    more x half (suc fuel) y h =
        omega (arith, half fuel (y / 2) (omega arith), half x (y / 2) (omega arith))

meets : (fuel x y : ℕ) → x ≤ fuel → meet fuel x y ≡ bit_and x y
unfolding Meets
meets fuel x y h = meet_stable x fuel y h ∙ sym (bit_and-bitwise x y)

-- The lowest digit of `x & y`, and the rest.
pub bit_and_halves : (x y : ℕ) → bit_and x y ≡ bit_and (x / 2) (y / 2) * 2 + min (x % 2) (y % 2)
bit_and_halves zero y = omega (arith, bit_and-bitwise 0 (y / 2), bit_and-bitwise 0 y)
bit_and_halves (suc x) y =
    omega (arith, meets x (suc x / 2) (y / 2) (omega arith), bit_and-bitwise (suc x) y)

-- A mask of no bits clears all.
pub bit_and-zero : (x : ℕ) → bit_and x 0 ≡ 0
bit_and-zero =
    by_halves (λ x. bit_and x 0 ≡ 0) refl (λ x half. omega (arith, half, bit_and_halves (suc x) 0))

pub bit_and_self : (x : ℕ) → bit_and x x ≡ x
bit_and_self =
    by_halves (λ x. bit_and x x ≡ x) refl
      (λ x half. omega (arith, half, bit_and_halves (suc x) (suc x)))

-- A mask of `j` ones keeps the remainder by `2 ^ j`, here for `a = q * 2 ^ j + r`.
pub low_ones : (j q r : ℕ) → r < 2 ^ j → bit_and (q * 2 ^ j + r) (2 ^ j - 1) ≡ r
low_ones zero q r h = rw bit_and-zero (omega arith)
low_ones (suc j) q r h = ground (
  arith,
  bit_and_halves (q * 2 ^ suc j + r) (2 ^ suc j - 1),
  ap (λ (t : ℕ). q * t) (pow-suc 2 j),
  pow-suc 2 j,
  one-le-pow j 2,
  low_ones j q (r / 2),
)

-- A mask that ends in `k` zeros clears the `k` low bits and masks the rest.
pub high_ones :
    (k q r m : ℕ) → r < 2 ^ k → bit_and (q * 2 ^ k + r) (m * 2 ^ k) ≡ bit_and q m * 2 ^ k
high_ones zero q r m h = ground (arith)
high_ones (suc k) q r m h = ground (
  arith,
  bit_and_halves (q * 2 ^ suc k + r) (m * 2 ^ suc k),
  ap (λ (t : ℕ). q * t) (pow-suc 2 k),
  ap (λ (t : ℕ). m * t) (pow-suc 2 k),
  ap (λ (t : ℕ). bit_and q m * t) (pow-suc 2 k),
  pow-suc 2 k,
  high_ones k q (r / 2) m,
)
