-- ===== src/Base/Masks.antt =====
-- Laws of the bit operations at masks and tags, from the digit recursion they stand for.
use Prim.Native.Nat.{
  ℕ, zero, suc, ◌+◌, ◌-◌, ◌*◌, ◌/◌, ◌%◌, ◌^◌, ◌≤◌, ◌<◌, max, bit_and, bit_or, bit_or-bitwise,
}
use mathlib.Core.Path.{◌≡◌, refl, ap, ap₂}
use mathlib.Core.Logic.{inl, inr}
use native.Mathlib.Omega.{arith}
use native.Mathlib.Nat.{pow-suc}
use my_gx.Base.Bits.{digits_fuel_irrelevant, zero_or_more, bit_and_step, bit_and-zero}

bit_or_step : (a b : ℕ) → bit_or a b ≡ bit_or (a / 2) (b / 2) * 2 + max (a % 2) (b % 2)
bit_or_step zero b = omega (arith, bit_or-bitwise 0 b, bit_or-bitwise 0 (b / 2))
bit_or_step (suc a) b = omega (
  arith,
  bit_or-bitwise (suc a) b,
  bit_or-bitwise (suc a / 2) (b / 2),
  digits_fuel_irrelevant (λ b. b) max a (suc a / 2) (suc a / 2) (b / 2) (omega arith) (omega arith),
)

bit_or_zero_upto : (bound a : ℕ) → a ≤ bound → bit_or a 0 ≡ a
bit_or_zero_upto zero a h = let e : a ≡ 0 = omega arith in rw e refl
bit_or_zero_upto (suc bound) a h = elim (zero_or_more a) [
  | inl e ↦ rw e refl
  | inr some_digit ↦
      omega (arith, bit_or_step a 0, bit_or_zero_upto bound (a / 2) (omega (arith, some_digit)))
]

-- The lowest bit set in an even number, and read back.
pub bit_or_tag : (m b : ℕ) → b < 2 → bit_or (2 * m) b ≡ 2 * m + b
bit_or_tag m b h =
    let halves : bit_or (2 * m / 2) (b / 2) ≡ bit_or m 0 = ap₂ bit_or (omega arith) (omega arith) in
    omega (arith, bit_or_step (2 * m) b, halves, bit_or_zero_upto m m (omega arith))

pub bit_and_one : (a : ℕ) → bit_and a 1 ≡ a % 2
bit_and_one a = omega (arith, bit_and_step a 1, bit_and-zero (a / 2))

-- A number that fits is kept by a mask of k ones.
pub bit_and_ones : (k a : ℕ) → a < 2 ^ k → bit_and a (2 ^ k - 1) ≡ a
bit_and_ones zero a h = omega (arith, bit_and-zero a)
bit_and_ones (suc k) a h =
    let e = pow-suc 2 k in
    let halves : bit_and (a / 2) ((2 ^ suc k - 1) / 2) ≡ bit_and (a / 2) (2 ^ k - 1) =
      ap (bit_and (a / 2)) (omega (arith, e)) in
    omega
      (arith, e, bit_and_step a (2 ^ suc k - 1), halves, bit_and_ones k (a / 2) (omega (arith, e)))

-- A mask of k ones above a zero clears the lowest bit.
pub bit_and_untag : (k m b : ℕ) → b < 2 → m < 2 ^ k → bit_and (2 * m + b) (2 ^ suc k - 2) ≡ 2 * m
bit_and_untag k m b h fits =
    let e = pow-suc 2 k in
    let halves : bit_and ((2 * m + b) / 2) ((2 ^ suc k - 2) / 2) ≡ bit_and m (2 ^ k - 1) =
      ap₂ bit_and (omega arith) (omega (arith, e)) in
    omega (arith, e, bit_and_step (2 * m + b) (2 ^ suc k - 2), halves, bit_and_ones k m fits)

-- The third bit is set by `| 4`.
pub bit_or-four : (e : ℕ) → bit_or e 4 / 4 % 2 ≡ 1
bit_or-four e = omega (arith, bit_or_step e 4, bit_or_step (e / 2) 2, bit_or_step (e / 2 / 2) 1)
