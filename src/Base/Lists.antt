-- ===== src/Base/Lists.antt =====
-- Lists measured and indexed by native numbers, under the library's names.
use Prim.Native.Nat.{ℕ, zero, suc, ◌+◌, ◌-◌, ◌≤◌, ◌<◌, min}
use Prim.Native.Char.{code}
use Prim.Native.String.{String}
use mathlib.Core.Path.{◌≡◌, refl, sym, ap, ◌∙◌}
use mathlib.Core.List.{List, [], ◌∷◌, ◌++◌}
use mathlib.Core.Option.{Option, none, some}
use native.Mathlib.Omega.{arith}

-- The bytes of an ASCII text.
abbrev pub codes : String → List ℕ
codes String.[] = []
codes (String.◌∷◌ c s) = code c ∷ codes s

module _ {ℓ} {A : Type ℓ} where
  abbrev pub length : List A → ℕ
  length [] = 0
  length (x ∷ xs) = suc (length xs)

  abbrev pub get_elem? : List A → ℕ → Option A
  get_elem? [] i = none
  get_elem? (x ∷ xs) zero = some x
  get_elem? (x ∷ xs) (suc i) = get_elem? xs i

  abbrev pub get_or : List A → ℕ → A → A
  get_or [] i d = d
  get_or (x ∷ xs) zero d = x
  get_or (x ∷ xs) (suc i) d = get_or xs i d

  abbrev pub take : ℕ → List A → List A
  take zero xs = []
  take (suc n) [] = []
  take (suc n) (x ∷ xs) = x ∷ take n xs

  abbrev pub drop : ℕ → List A → List A
  drop zero xs = xs
  drop (suc n) [] = []
  drop (suc n) (x ∷ xs) = drop n xs

  abbrev pub replicate : ℕ → A → List A
  replicate zero a = []
  replicate (suc n) a = a ∷ replicate n a

module _ {ℓ} {A : Type ℓ} where
  pub length-append : (xs ys : List A) → length (xs ++ ys) ≡ length xs + length ys
  length-append [] ys = omega arith
  length-append (x ∷ xs) ys = omega (arith, length-append xs ys)

  pub take-append-drop : (n : ℕ) (xs : List A) → take n xs ++ drop n xs ≡ xs
  take-append-drop zero xs = refl
  take-append-drop (suc n) [] = refl
  take-append-drop (suc n) (x ∷ xs) = rw (take-append-drop n xs)

  pub length-take : (n : ℕ) (xs : List A) → length (take n xs) ≡ min n (length xs)
  length-take zero xs = omega arith
  length-take (suc n) [] = omega arith
  length-take (suc n) (x ∷ xs) = omega (arith, length-take n xs)

  pub length-drop : (n : ℕ) (xs : List A) → length (drop n xs) ≡ length xs - n
  length-drop zero xs = omega arith
  length-drop (suc n) [] = omega arith
  length-drop (suc n) (x ∷ xs) = omega (arith, length-drop n xs)

  pub length-replicate : (n : ℕ) (a : A) → length (replicate n a) ≡ n
  length-replicate zero a = refl
  length-replicate (suc n) a = ap suc (length-replicate n a)

  pub get_or-append :
      (i : ℕ) (d : A) (xs ys : List A) → i < length xs → get_or (xs ++ ys) i d ≡ get_or xs i d
  get_or-append i d [] ys h = absurd (omega arith)
  get_or-append zero d (x ∷ xs) ys h = refl
  get_or-append (suc i) d (x ∷ xs) ys h = get_or-append i d xs ys (omega arith)

  pub take_of_le : (n : ℕ) (xs : List A) → length xs ≤ n → take n xs ≡ xs
  take_of_le zero [] h = refl
  take_of_le zero (x ∷ xs) h = absurd (omega arith)
  take_of_le (suc n) [] h = refl
  take_of_le (suc n) (x ∷ xs) h = ap (λ r. x ∷ r) (take_of_le n xs (omega arith))

  pub drop_of_le : (n : ℕ) (xs : List A) → length xs ≤ n → drop n xs ≡ []
  drop_of_le zero [] h = refl
  drop_of_le zero (x ∷ xs) h = absurd (omega arith)
  drop_of_le (suc n) [] h = refl
  drop_of_le (suc n) (x ∷ xs) h = drop_of_le n xs (omega arith)

  -- A cut that falls in the first of two texts.
  pub take-append_of_le : (n : ℕ) (xs ys : List A) → n ≤ length xs → take n (xs ++ ys) ≡ take n xs
  take-append_of_le zero xs ys h = refl
  take-append_of_le (suc n) [] ys h = absurd (omega arith)
  take-append_of_le (suc n) (x ∷ xs) ys h = ap (◌∷◌ x) (take-append_of_le n xs ys (omega arith))

  pub drop-append_of_le :
      (n : ℕ) (xs ys : List A) → n ≤ length xs → drop n (xs ++ ys) ≡ drop n xs ++ ys
  drop-append_of_le zero xs ys h = refl
  drop-append_of_le (suc n) [] ys h = absurd (omega arith)
  drop-append_of_le (suc n) (x ∷ xs) ys h = drop-append_of_le n xs ys (omega arith)

  pub take-length : (xs : List A) → take (length xs) xs ≡ xs
  take-length [] = refl
  take-length (x ∷ xs) = ap (◌∷◌ x) (take-length xs)

  pub take-take_of_le : (n m : ℕ) (xs : List A) → n ≤ m → take n (take m xs) ≡ take n xs
  take-take_of_le zero m xs h = refl
  take-take_of_le (suc n) zero xs h = absurd (omega arith)
  take-take_of_le (suc n) (suc m) [] h = refl
  take-take_of_le (suc n) (suc m) (x ∷ xs) h = ap (◌∷◌ x) (take-take_of_le n m xs (omega arith))

module _ {ℓ} {A : Type ℓ} where
  -- The items `src` stored from index `at` on, as recv and memcpy store bytes.
  abbrev pub write_at : List A → ℕ → List A → List A
  write_at buf at src = take at buf ++ src ++ drop (at + length src) buf

  pub length-write_at :
      (buf src : List A) (at : ℕ)
      → at + length src ≤ length buf
      → length (write_at buf at src) ≡ length buf
  length-write_at buf src at h = omega (
    arith,
    length-append (take at buf ++ src) (drop (at + length src) buf),
    length-append (take at buf) src,
    length-take at buf,
    length-drop (at + length src) buf,
  )

  -- What stands before a write stays, and the write follows it.
  pub take-write_at :
      (buf src : List A) (at : ℕ)
      → at + length src ≤ length buf
      → take (at + length src) (write_at buf at src) ≡ take at buf ++ src
  take-write_at buf src at h =
      let front = take at buf ++ src in
      let len : length front ≡ at + length src =
        omega (arith, length-append (take at buf) src, length-take at buf) in
      ap (λ k. take k (write_at buf at src)) (sym len)
      ∙ take-append_of_le (length front) front (drop (at + length src) buf) (omega arith)
      ∙ take-length front
