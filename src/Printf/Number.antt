-- ===== src/Printf/Number.antt =====
-- mgx_sprintf_num of app/mgx_printf.cpp: the digits, and the padding and cutting around them.
use native.Mathlib.Nat.{pow-suc, pow-zero}
use my_gx.Base.{
  ℕ, zero, suc, ◌+◌, ◌-◌, ◌*◌, ◌/◌, ◌%◌, ◌^◌, ◌<◌, List, [], ◌∷◌, ◌++◌, Bool, true, false, take,
  length, replicate, codes, get_or, ltb, leb, ◌==◌, ◌&&◌, if◌then◌else◌, ◌≡◌, refl, sym, ap, ◌∙◌,
  arith, inl, inr, Bool-cases, take_of_le,
}
use my_gx.Base.Bits.{bit_and_nibble}
use my_gx.Printf.{
  int64_len, digits_loop, dec_digit, hex_digit, hex_digit_upper, number_digits, padding,
  mgx_sprintf_num,
}

-- A number read from its digits, each with the value `dv` of the character.
unfoldable pub value : (ℕ → ℕ) → ℕ → List ℕ → ℕ → ℕ
value dv base [] n = n
value dv base (c ∷ p) n = value dv base p (n * base + dv c)

some_power : (m base k : ℕ) → m < base ^ k → (m == 0) ≡ false → 0 < k
some_power m base zero h e = absurd (ground (arith, pow-zero base))
some_power m base (suc k) h e = omega arith

module _ (digit dv : ℕ → ℕ) (base : ℕ) (split : (n : ℕ) → n / base * base + dv (digit n) ≡ n)
    (shrink : (n k : ℕ) → n < base ^ suc k → n / base < base ^ k) where
  -- With room for all digits the loop puts the number before the digits that are there.
  digits_loop-value :
      (left n : ℕ) (p : List ℕ)
      → n < base ^ left
      → 0 < left
      → value dv base (digits_loop left digit base n p) 0 ≡ value dv base p n
  unfolding digits_loop value
  digits_loop-value zero n p h pos = absurd (omega arith)
  digits_loop-value (suc left) n p h pos = elim (Bool-cases (n / base == 0)) [
    | inl last ↦
        let e : n / base ≡ 0 = ground arith in
        rw last (
          ap (λ q. value dv base p (q * base + dv (digit n))) (sym e)
          ∙ ap (value dv base p) (split n))
    | inr more ↦ rw more (
        digits_loop-value left (n / base) (digit n ∷ p) (shrink n left h)
          (some_power (n / base) base left (shrink n left h) more)
        ∙ ap (value dv base p) (split n))
  ]

unfoldable pub dec_value : ℕ → ℕ
dec_value c = c - b'0'

pub hex_value : ℕ → ℕ
hex_value c = if leb c b'9' then c - b'0' else if leb b'a' c then c - b'a' + 10 else c - b'A' + 10

-- Whether two functions agree below a number, by trying.
agrees : ℕ → (ℕ → ℕ) → (ℕ → ℕ) → Bool
agrees zero f g = true
agrees (suc n) f g = f n == g n && agrees n f g

agrees-eq : (n : ℕ) (f g : ℕ → ℕ) → agrees n f g ≡ true → (i : ℕ) → i < n → f i ≡ g i
unfolding agrees
agrees-eq zero f g h i k = absurd (omega arith)
agrees-eq (suc n) f g h i k = elim (Bool-cases (i == n)) [
  | inl last ↦
      let e : i ≡ n = ground arith in
      let same : f n ≡ g n = ground (arith, h) in ap f e ∙ same ∙ ap g (sym e)
  | inr before ↦ agrees-eq n f g (ground (arith, h)) i (ground arith)
]

hex_digit-value : (n : ℕ) → hex_value (hex_digit n) ≡ n % 16
unfolding hex_value hex_digit agrees
hex_digit-value n = rw (bit_and_nibble n) (
    agrees-eq 16 (λ i. hex_value (get_or (codes "0123456789abcdef") i 0)) (λ i. i) refl (n % 16)
      (omega arith))

hex_digit_upper-value : (n : ℕ) → hex_value (hex_digit_upper n) ≡ n % 16
unfolding hex_value hex_digit_upper agrees
hex_digit_upper-value n = rw (bit_and_nibble n) (
    agrees-eq 16 (λ i. hex_value (get_or (codes "0123456789ABCDEF") i 0)) (λ i. i) refl (n % 16)
      (omega arith))

dec_loop-value :
    (n : ℕ) → n < 2 ^ 64 → value dec_value 10 (digits_loop int64_len dec_digit 10 n []) 0 ≡ n
unfolding dec_value value
dec_loop-value n h =
    digits_loop-value dec_digit dec_value 10 (λ m. omega arith)
      (λ m k lt. omega (arith, lt, pow-suc 10 k)) 20 n [] (omega arith) (omega arith)

hex_loop-value :
    (digit : ℕ → ℕ)
    → ((n : ℕ) → hex_value (digit n) ≡ n % 16)
    → (n : ℕ) → n < 2 ^ 64
    → value hex_value 16 (digits_loop int64_len digit 16 n []) 0 ≡ n
unfolding value
hex_loop-value digit dv n h =
    digits_loop-value digit hex_value 16 (λ m. omega (arith, dv m))
      (λ m k lt. omega (arith, lt, pow-suc 16 k)) 20 n [] (omega arith) (omega arith)

-- The number that the digits stand for.
unfoldable pub read_number : ℕ → List ℕ → ℕ
unfolding value dec_value hex_value
read_number hexadecimal p =
    if hexadecimal == 0 then value dec_value 10 p 0 else value hex_value 16 p 0

-- The digits of every 64-bit number, decimal or hexadecimal with small or capital letters, read back
-- as the number: the 20 bytes of `temp` are enough.
pub number_digits-read :
    (ui64 hexadecimal : ℕ)
    → ui64 < 2 ^ 64
    → read_number hexadecimal (number_digits ui64 hexadecimal) ≡ ui64
unfolding read_number number_digits
number_digits-read ui64 hexadecimal h = elim (Bool-cases (hexadecimal == 0)) [
  | inl decimal ↦ rw decimal (elim (Bool-cases (leb ui64 0xffff_ffff)) [
    | inl small ↦
        let same : ui64 % 2 ^ 32 ≡ ui64 = ground arith in
        rw small (dec_loop-value (ui64 % 2 ^ 32) (omega arith) ∙ same)
    | inr large ↦ rw large (dec_loop-value ui64 h)
  ])
  | inr hex ↦ rw hex (elim (Bool-cases (hexadecimal == 1)) [
    | inl small ↦ rw small (hex_loop-value hex_digit hex_digit-value ui64 h)
    | inr capital ↦ rw capital (hex_loop-value hex_digit_upper hex_digit_upper-value ui64 h)
  ])
]

padding-take :
    (room len width fill : ℕ)
    → padding room len width fill ≡ take room (replicate (width - len) fill)
unfolding padding
padding-take zero len width fill = refl
padding-take (suc room) len width fill = elim (Bool-cases (ltb len width)) [
  | inl short ↦
      let some_missing : width - len ≡ suc (width - (len + 1)) = ground arith in
      rw (short, some_missing) (ap (λ l. fill ∷ l) (padding-take room (len + 1) width fill))
  | inr wide ↦ let none_missing : width - len ≡ 0 = ground arith in rw (wide, none_missing) refl
]

-- Cutting each of two parts is cutting the whole.
take-append-rest :
    (room : ℕ) (xs ys : List ℕ)
    → take room xs ++ take (room - length (take room xs)) ys ≡ take room (xs ++ ys)
take-append-rest zero xs ys = refl
take-append-rest (suc room) [] ys =
    ap (λ n. take n ys) {x = suc room - 0} {y = suc room} (omega arith)
take-append-rest (suc room) (x ∷ xs) ys =
    let k = length (take room xs) in
    let left : suc room - suc k ≡ room - k = omega arith in
    ap (λ n. x ∷ (take room xs ++ take n ys)) left ∙ ap (λ l. x ∷ l) (take-append-rest room xs ys)

take-min : (n : ℕ) (p : List ℕ) → take (if ltb n (length p) then n else length p) p ≡ take n p
take-min n p = elim (Bool-cases (ltb n (length p))) [
  | inl short ↦ rw short refl
  | inr long ↦ rw long (take_of_le (length p) p (omega arith) ∙ sym (take_of_le n p (ground arith)))
]

-- What is written is the number, padded on the left to the width, and cut where the buffer ends.
pub mgx_sprintf_num-take :
    (room ui64 fill hexadecimal width : ℕ)
    → mgx_sprintf_num room ui64 fill hexadecimal width
      ≡ take room (
          replicate (width - length (number_digits ui64 hexadecimal)) fill
          ++ number_digits ui64 hexadecimal)
unfolding mgx_sprintf_num
mgx_sprintf_num-take room ui64 fill hexadecimal width =
    let p = number_digits ui64 hexadecimal in
    let pad = padding room (length p) width fill in
    ap (λ l. pad ++ l) (take-min (room - length pad) p)
    ∙ ap (λ l. l ++ take (room - length l) p) (padding-take room (length p) width fill)
    ∙ take-append-rest room (replicate (width - length p) fill) p
