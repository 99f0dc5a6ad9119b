-- ===== src/Conf/Lookup.antt =====
-- get_string and get_int of app/mgx_conf.cpp.
use my_gx.Base.{
  ℕ, zero, suc, ◌+◌, ◌-◌, ◌*◌, ◌/◌, ◌%◌, ◌^◌, ◌<◌, List, [], ◌∷◌, true, false, some, ltb, leb, ◌==◌,
  ==_self, length, ◌≡◌, ◌≢◌, refl, ap, ap₂, ◌∙◌, Bool-cases, inl, inr, arith, lt→ltb,
}
use my_gx.Conf.{
  Configs, ℤ, pos, same_text, get_string, get_int, stoi, to_int, digits_value, is_digit, is_space,
  is_empty, first_char,
}
use my_gx.Printf.{digits_loop, dec_digit, number_digits}
use my_gx.Printf.Number.{read_number, number_digits-read, value, dec_value}

same_text_self : (s : List ℕ) → same_text s s ≡ true
unfolding same_text
same_text_self [] = refl
same_text_self (b ∷ s) = rw (==_self b) (same_text_self s)

same_text_eq : (s t : List ℕ) → same_text s t ≡ true → s ≡ t
unfolding same_text
same_text_eq [] [] h = refl
same_text_eq [] (c ∷ t) h = cc
same_text_eq (b ∷ s) [] h = cc
same_text_eq (b ∷ s) (c ∷ t) h = elim (Bool-cases (b == c)) [
  | inl same ↦ ap₂ (λ (x : ℕ) (l : List ℕ). x ∷ l) (ground arith) (same_text_eq s t (rw same at h))
  | inr other ↦ absurd (cc (rw other at h))
]

same_text_ne : (s t : List ℕ) → s ≢ t → same_text s t ≡ false
same_text_ne s t ne = elim (Bool-cases (same_text s t)) [
  | inl same ↦ absurd (ne (same_text_eq s t same))
  | inr other ↦ other
]

-- A value that was put in is found under its key, and every other key is looked up as before.
pub get_string-put :
    (key k default_str val : List ℕ) (configs : Configs)
    → k ≢ key
    → (get_string key default_str ((key, val) ∷ configs) ≡ val)
      × (get_string k default_str ((key, val) ∷ configs) ≡ get_string k default_str configs)
unfolding get_string
get_string-put key k default_str val configs ne =
    (rw (same_text_self key) refl, rw (same_text_ne k key ne) refl)

abbrev AllDigits : List ℕ → Type 0
AllDigits [] = Unit {0}
AllDigits (b ∷ s) = (is_digit b ≡ true) × AllDigits s

dec_digit-is_digit : (n : ℕ) → is_digit (dec_digit n) ≡ true
dec_digit-is_digit n = ground arith

digits_loop-AllDigits :
    (left n : ℕ) (p : List ℕ) → AllDigits p → AllDigits (digits_loop left dec_digit 10 n p)
unfolding digits_loop
digits_loop-AllDigits zero n p h = h
digits_loop-AllDigits (suc left) n p h = elim (Bool-cases (n / 10 == 0)) [
  | inl done ↦ rw done (dec_digit-is_digit n, h)
  | inr more ↦
      rw more (digits_loop-AllDigits left (n / 10) (dec_digit n ∷ p) (dec_digit-is_digit n, h))
]

digits_value-value :
    (acc : ℕ) (s : List ℕ) → AllDigits s → digits_value acc s ≡ value dec_value 10 s acc
unfolding digits_value value dec_value
digits_value-value acc [] h = refl
digits_value-value acc (b ∷ s) (h, hs) = rw h (digits_value-value (acc * 10 + (b - b'0')) s hs)

digits_loop-nonempty :
    (left n : ℕ) (p : List ℕ) → 0 < length p → 0 < length (digits_loop left dec_digit 10 n p)
unfolding digits_loop
digits_loop-nonempty zero n p h = h
digits_loop-nonempty (suc left) n p h = elim (Bool-cases (n / 10 == 0)) [
  | inl done ↦ rw done (omega arith)
  | inr more ↦ rw more (digits_loop-nonempty left (n / 10) (dec_digit n ∷ p) (omega arith))
]

-- The first digit is made before the loop ends.
digits_loop_some : (left n : ℕ) → 0 < length (digits_loop (suc left) dec_digit 10 n [])
unfolding digits_loop
digits_loop_some left n = elim (Bool-cases (n / 10 == 0)) [
  | inl done ↦ rw done (omega arith)
  | inr more ↦ rw more (digits_loop-nonempty left (n / 10) (dec_digit n ∷ []) (omega arith))
]

number_digits-AllDigits :
    (n : ℕ) → n < 2 ^ 31 → AllDigits (number_digits n 0) × (0 < length (number_digits n 0))
unfolding number_digits
number_digits-AllDigits n h =
    let small : leb n 0xffff_ffff ≡ true = ground arith in
    rw small (digits_loop-AllDigits 20 (n % 2 ^ 32) [] tt, digits_loop_some 19 (n % 2 ^ 32))

digit_tests :
    (b : ℕ)
    → is_digit b ≡ true
    → (is_space b ≡ false) × ((b == b'-') ≡ false) × ((b == b'+') ≡ false)
digit_tests b h = (ground arith, ground arith, ground arith)

to_int-digits :
    (s : List ℕ)
    → is_digit (first_char s) ≡ true
    → ltb (digits_value 0 s) (2 ^ 31) ≡ true
    → to_int false s ≡ some (pos (digits_value 0 s))
unfolding to_int
to_int-digits s is small = rw (is, small) refl

stoi-digits :
    (s : List ℕ)
    → AllDigits s
    → 0 < length s
    → ltb (digits_value 0 s) (2 ^ 31) ≡ true
    → stoi s ≡ some (pos (digits_value 0 s))
unfolding stoi first_char
stoi-digits [] all h small = absurd (omega (arith, h))
stoi-digits (b ∷ s) (is, all) h small =
    let (no_space, no_minus, no_plus) = digit_tests b is in
    rw (no_space, no_minus, no_plus) (to_int-digits (b ∷ s) is small)

is_empty_some : (s : List ℕ) → 0 < length s → is_empty s ≡ false
unfolding is_empty
is_empty_some [] h = absurd (omega (arith, h))
is_empty_some (b ∷ s) h = refl

number_digits-value : (n : ℕ) → n < 2 ^ 31 → digits_value 0 (number_digits n 0) ≡ n
unfolding value read_number
number_digits-value n h =
    digits_value-value 0 (number_digits n 0) (number_digits-AllDigits n h).0
    ∙ number_digits-read n 0 (omega (arith, h))

pub stoi-number_digits : (n : ℕ) → n < 2 ^ 31 → stoi (number_digits n 0) ≡ some (pos n)
stoi-number_digits n h =
    let (all, some_digit) = number_digits-AllDigits n h in
    let read = number_digits-value n h in
    stoi-digits (number_digits n 0) all some_digit (lt→ltb _ _ (omega (arith, read, h)))
    ∙ ap (λ k. some (pos k)) read

-- A number below 2^31 that is written as mgx_printf writes it, in decimal digits, is the value that
-- get_int finds under its key.
pub get_int-number_digits :
    (key : List ℕ) (n : ℕ) (default_int : ℤ) (configs : Configs)
    → n < 2 ^ 31
    → get_int key default_int ((key, number_digits n 0) ∷ configs) ≡ some (pos n)
unfolding get_int get_string
get_int-number_digits key n default_int configs h =
    let (all, some_digit) = number_digits-AllDigits n h in
    rw (same_text_self key, is_empty_some (number_digits n 0) some_digit) (stoi-number_digits n h)
