-- ===== src/Base/Bits.antt =====
-- Laws of exclusive or at variables, from the digit recursion that the native operation stands for.
use Prim.Native.Nat.{
  ℕ, zero, suc, ◌+◌, ◌*◌, ◌/◌, ◌%◌, ◌^◌, ◌≤◌, ◌<◌, min, bit_and, bit_and-bitwise, bit_xor, digits,
  bit_xor-bitwise, differ,
}
use mathlib.Core.Path.{◌≡◌, refl, sym, ap, ◌∙◌}
use mathlib.Core.Logic.{◌⊎◌, inl, inr}
use mathlib.Core.WellFounded
use native.Mathlib.Omega.{arith}
use native.Mathlib.Nat.{pow-suc}
use my_gx.Base.Order.{lt_wf}

-- The digit recursion does not depend on its fuel, once that is enough.
module _ (rest : ℕ → ℕ) (digit : ℕ → ℕ → ℕ) where
  pub digits_fuel_irrelevant :
      (more less x y : ℕ)
      → x ≤ less
      → less ≤ more
      → digits rest digit more x y ≡ digits rest digit less x y
  digits_fuel_irrelevant zero zero x y h k = refl
  digits_fuel_irrelevant zero (suc less) x y h k = absurd (omega arith)
  digits_fuel_irrelevant (suc more) zero zero y h k = refl
  digits_fuel_irrelevant (suc more) zero (suc x) y h k = absurd (omega arith)
  digits_fuel_irrelevant (suc more) (suc less) zero y h k = refl
  digits_fuel_irrelevant (suc more) (suc less) (suc x) y h k =
      rw (digits_fuel_irrelevant more less (suc x / 2) (y / 2) (omega arith) (omega arith))

pub zero_or_more : (a : ℕ) → (a ≡ 0) ⊎ (0 < a)
zero_or_more zero = inl refl
zero_or_more (suc a) = inr (omega arith)

-- The exclusive or of two binary digits.
abbrev pub parity : ℕ → ℕ → ℕ
parity a b = (a + b) % 2

differ-parity : (a b : ℕ) → a < 2 → b < 2 → differ a b ≡ parity a b
differ-parity zero b p q = omega arith
differ-parity (suc zero) zero p q = refl
differ-parity (suc zero) (suc zero) p q = refl
differ-parity (suc zero) (suc (suc b)) p q = absurd (omega arith)
differ-parity (suc (suc a)) b p q = absurd (omega arith)

-- The lowest digit split off.
pub bit_xor_step : (a b : ℕ) → bit_xor a b ≡ bit_xor (a / 2) (b / 2) * 2 + parity (a % 2) (b % 2)
bit_xor_step zero b = simp bit_xor-bitwise (omega arith)
bit_xor_step (suc a) b = omega (
  arith,
  bit_xor-bitwise (suc a) b,
  bit_xor-bitwise (suc a / 2) (b / 2),
  digits_fuel_irrelevant (λ b. b) differ a (suc a / 2) (suc a / 2) (b / 2) (omega arith)
      (omega arith),
  differ-parity (suc a % 2) (b % 2) (omega arith) (omega arith),
)

bit_xor_zero_upto : (bound a : ℕ) → a ≤ bound → bit_xor a 0 ≡ a
bit_xor_zero_upto zero a h = let e : a ≡ 0 = omega arith in rw e refl
bit_xor_zero_upto (suc bound) a h = elim (zero_or_more a) [
  | inl e ↦ rw e refl
  | inr some_digit ↦
      omega (arith, bit_xor_step a 0, bit_xor_zero_upto bound (a / 2) (omega (arith, some_digit)))
]

pub bit_xor-zero : (a : ℕ) → bit_xor a 0 ≡ a
bit_xor-zero a = bit_xor_zero_upto a a (omega arith)

pub zero-bit_xor : (b : ℕ) → bit_xor 0 b ≡ b
zero-bit_xor b = simp bit_xor-bitwise (omega arith)

-- The two parts of an exclusive or.
pub bit_xor-half : (a b : ℕ) → bit_xor a b / 2 ≡ bit_xor (a / 2) (b / 2)
bit_xor-half a b = omega (arith, bit_xor_step a b)

pub bit_xor-odd : (a b : ℕ) → bit_xor a b % 2 ≡ parity (a % 2) (b % 2)
bit_xor-odd a b = omega (arith, bit_xor_step a b)

pub bit_xor_comm : (a b : ℕ) → bit_xor a b ≡ bit_xor b a
bit_xor_comm a = WellFounded.induction lt_wf {C = λ k. (b : ℕ) → bit_xor k b ≡ bit_xor b k} a step
  where
    step :
        (n : ℕ)
        → ((m : ℕ) → m < n → (b : ℕ) → bit_xor m b ≡ bit_xor b m)
        → (b : ℕ) → bit_xor n b ≡ bit_xor b n
    step zero ih b = omega (arith, bit_xor-zero b, zero-bit_xor b)
    step (suc n) ih b = omega (
      arith,
      bit_xor_step (suc n) b,
      bit_xor_step b (suc n),
      ih (suc n / 2) (omega arith) (b / 2),
    )

pub bit_xor_assoc : (a b c : ℕ) → bit_xor (bit_xor a b) c ≡ bit_xor a (bit_xor b c)
bit_xor_assoc a =
    WellFounded.induction lt_wf
      {C = λ k. (b c : ℕ) → bit_xor (bit_xor k b) c ≡ bit_xor k (bit_xor b c)} a step
  where
    step :
        (n : ℕ)
        → ((m : ℕ) → m < n → (b c : ℕ) → bit_xor (bit_xor m b) c ≡ bit_xor m (bit_xor b c))
        → (b c : ℕ) → bit_xor (bit_xor n b) c ≡ bit_xor n (bit_xor b c)
    step zero ih b c = rw (zero-bit_xor b, zero-bit_xor (bit_xor b c))
    step (suc n) ih b c = ground (
      arith,
      bit_xor_step (bit_xor (suc n) b) c,
      bit_xor_step (suc n) (bit_xor b c),
      bit_xor-half (suc n) b,
      bit_xor-half b c,
      bit_xor-odd (suc n) b,
      bit_xor-odd b c,
      ih (suc n / 2) (omega arith) (b / 2) (c / 2),
    )

-- An exclusive or needs no more bits than its arguments.
pub bit_xor-lt-pow : (k a b : ℕ) → a < 2 ^ k → b < 2 ^ k → bit_xor a b < 2 ^ k
bit_xor-lt-pow zero a b p q =
    let ea : a ≡ 0 = omega arith in let eb : b ≡ 0 = omega arith in rw (ea, eb) (omega arith)
bit_xor-lt-pow (suc k) a b p q =
    let e = pow-suc 2 k in
    omega (
      arith,
      e,
      bit_xor_step a b,
      bit_xor-lt-pow k (a / 2) (b / 2) (omega (arith, e)) (omega (arith, e)),
    )

pub bit_and_step : (a b : ℕ) → bit_and a b ≡ bit_and (a / 2) (b / 2) * 2 + min (a % 2) (b % 2)
bit_and_step zero b = omega (arith, bit_and-bitwise 0 b, bit_and-bitwise 0 (b / 2))
bit_and_step (suc a) b = omega (
  arith,
  bit_and-bitwise (suc a) b,
  bit_and-bitwise (suc a / 2) (b / 2),
  digits_fuel_irrelevant (λ b. 0) min a (suc a / 2) (suc a / 2) (b / 2) (omega arith) (omega arith),
)

bit_and_zero_upto : (bound a : ℕ) → a ≤ bound → bit_and a 0 ≡ 0
bit_and_zero_upto zero a h = let e : a ≡ 0 = omega arith in rw e refl
bit_and_zero_upto (suc bound) a h = elim (zero_or_more a) [
  | inl e ↦ rw e refl
  | inr some_digit ↦
      omega (arith, bit_and_step a 0, bit_and_zero_upto bound (a / 2) (omega (arith, some_digit)))
]

pub bit_and-zero : (a : ℕ) → bit_and a 0 ≡ 0
bit_and-zero a = bit_and_zero_upto a a (omega arith)

-- A mask of four or eight ones is a remainder.
pub bit_and_nibble : (a : ℕ) → bit_and a 0xf ≡ a % 16
bit_and_nibble a = omega (
  arith,
  bit_and_step a 15,
  bit_and_step (a / 2) 7,
  bit_and_step (a / 2 / 2) 3,
  bit_and_step (a / 2 / 2 / 2) 1,
  bit_and-zero (a / 2 / 2 / 2 / 2),
)

pub bit_and_byte : (a : ℕ) → bit_and a 0xff ≡ a % 256
bit_and_byte a = omega (
  arith,
  bit_and_step a 255,
  bit_and_step (a / 2) 127,
  bit_and_step (a / 2 / 2) 63,
  bit_and_step (a / 2 / 2 / 2) 31,
  bit_and_nibble (a / 2 / 2 / 2 / 2),
)

pub two_pow_suc-mul : (k m : ℕ) → 2 ^ suc k * m ≡ 2 * (2 ^ k * m)
two_pow_suc-mul k m = omega (arith, ap (λ (t : ℕ). t * m) (pow-suc 2 k))

-- Fields that do not overlap are put together by a sum.
pub bit_xor_fields : (k lo m : ℕ) → lo < 2 ^ k → bit_xor lo (2 ^ k * m) ≡ lo + 2 ^ k * m
bit_xor_fields zero lo m h =
    let e : lo ≡ 0 = omega arith in rw e (zero-bit_xor (1 * m) ∙ omega arith)
bit_xor_fields (suc k) lo m h = ground (
  arith,
  bit_xor_step lo (2 ^ suc k * m),
  two_pow_suc-mul k m,
  pow-suc 2 k,
  bit_xor_fields k (lo / 2) m,
)

abbrev pub drop_byte : ℕ → ℕ
drop_byte x = x / 2 / 2 / 2 / 2 / 2 / 2 / 2 / 2

pub bit_xor-drop_byte : (a b : ℕ) → drop_byte (bit_xor a b) ≡ bit_xor (drop_byte a) (drop_byte b)
bit_xor-drop_byte a b = simp bit_xor-half

bit_xor_self_upto : (bound a : ℕ) → a ≤ bound → bit_xor a a ≡ 0
bit_xor_self_upto zero a h = let e : a ≡ 0 = omega arith in rw e refl
bit_xor_self_upto (suc bound) a h = elim (zero_or_more a) [
  | inl e ↦ rw e refl
  | inr some_digit ↦
      omega (arith, bit_xor_step a a, bit_xor_self_upto bound (a / 2) (omega (arith, some_digit)))
]

pub bit_xor_self : (a : ℕ) → bit_xor a a ≡ 0
bit_xor_self a = bit_xor_self_upto a a (omega arith)

pub bit_xor_cancel : (a b : ℕ) → bit_xor a (bit_xor a b) ≡ b
bit_xor_cancel a b = rw (← bit_xor_assoc a a b, bit_xor_self a) (zero-bit_xor b)

pub bit_xor_left_injective : (a b c : ℕ) → bit_xor a b ≡ bit_xor a c → b ≡ c
bit_xor_left_injective a b c e = sym (bit_xor_cancel a b) ∙ ap (bit_xor a) e ∙ bit_xor_cancel a c

pub bit_xor_right_injective : (a b c : ℕ) → bit_xor b a ≡ bit_xor c a → b ≡ c
bit_xor_right_injective a b c e =
    bit_xor_left_injective a b c (bit_xor_comm a b ∙ e ∙ bit_xor_comm c a)
