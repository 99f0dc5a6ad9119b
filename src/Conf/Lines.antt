-- ===== src/Conf/Lines.antt =====
-- The lines of a configuration file and their split, in load of app/mgx_conf.cpp.
use my_gx.Base.{
  ℕ, zero, suc, ◌+◌, ◌-◌, List, [], ◌∷◌, ◌++◌, append_assoc, append-nil, false, ◌==◌, ==_self, some,
  length, length-append, take, drop, take_of_le, take-append_of_le, take-length, ◌≡◌, refl, sym, ap,
  ap₂, ◌∙◌, arith,
}
use my_gx.Conf.{strim, find_from, key_of, upto, val_of, substr, put_line, getlines, Configs}
use my_gx.Conf.Spaces.{spaces}

-- A text without the byte `c`.
abbrev pub HasNo : ℕ → List ℕ → Type 0
HasNo c [] = Unit {0}
HasNo c (b ∷ s) = ((b == c) ≡ false) × HasNo c s

pub HasNo-append : (c : ℕ) (s t : List ℕ) → HasNo c s → HasNo c t → HasNo c (s ++ t)
HasNo-append c [] t h k = k
HasNo-append c (b ∷ s) t (h, hs) k = (h, HasNo-append c s t hs k)

pub HasNo-spaces : (c n : ℕ) → (b' ' == c) ≡ false → HasNo c (spaces n)
HasNo-spaces c zero h = tt
HasNo-spaces c (suc n) h = (h, HasNo-spaces c n h)

pub getlines-append :
    (held line rest : List ℕ)
    → HasNo b'\n' line
    → getlines held (line ++ (b'\n' ∷ rest)) ≡ (held ++ line) ∷ getlines [] rest
unfolding getlines
getlines-append held [] rest h = ap (λ l. l ∷ getlines [] rest) (sym (append-nil held))
getlines-append held (b ∷ line) rest (h, hs) = rw h (
    getlines-append (held ++ (b ∷ [])) line rest hs
    ∙ ap (λ l. l ∷ getlines [] rest) (append_assoc held (b ∷ []) line))

-- The first `c` of a text.
pub find_from-append :
    (c i : ℕ) (x y : List ℕ)
    → HasNo c x
    → find_from (λ b. b == c) i (x ++ (c ∷ y)) ≡ some (i + length x)
unfolding find_from
find_from-append c i [] y h = rw (==_self c) (ap some (omega arith))
find_from-append c i (b ∷ x) y (h, hs) =
    rw h (find_from-append c (i + 1) x y hs ∙ ap some (omega arith))

pub take-length-append : (x y : List ℕ) → take (length x) (x ++ y) ≡ x
take-length-append x y = take-append_of_le (length x) x y (omega arith) ∙ take-length x

pub drop-length-cons : (c : ℕ) (x y : List ℕ) → drop (length x + 1) (x ++ (c ∷ y)) ≡ y
drop-length-cons c [] y = refl
drop-length-cons c (b ∷ x) y =
    let one_more : length (b ∷ x) + 1 ≡ suc (length x + 1) = omega arith in
    ap (λ k. drop k ((b ∷ x) ++ (c ∷ y))) one_more ∙ drop-length-cons c x y

-- The parts before and behind the index of a byte.
pub key_of-append : (c : ℕ) (x y : List ℕ) → key_of (some (length x)) (x ++ (c ∷ y)) ≡ x
unfolding key_of upto
key_of-append c x y = take-length-append x (c ∷ y)

pub val_of-append : (c : ℕ) (x y : List ℕ) → val_of (some (length x)) (x ++ (c ∷ y)) ≡ y
unfolding val_of key_of upto substr
val_of-append c x y =
    let whole = x ++ (c ∷ y) in
    let count = length whole - length (take (length x) whole) in
    ap (take count) (drop-length-cons c x y)
    ∙ take_of_le count y
        (omega (arith, ap length (take-length-append x (c ∷ y)), length-append x (c ∷ y)))

-- A line is split at its first '='.
pub put_line-append :
    (x y : List ℕ) (configs : Configs)
    → HasNo b'=' x
    → put_line (x ++ (b'=' ∷ y)) configs ≡ (strim x, strim y) ∷ configs
unfolding put_line
put_line-append x y configs h =
    let at : find_from (λ b. b == b'=') 0 (x ++ (b'=' ∷ y)) ≡ some (length x) =
      find_from-append b'=' 0 x y h ∙ ap some (omega arith) in
    rw at (
      ap₂ (λ (k v : List ℕ). (strim k, strim v) ∷ configs) (key_of-append b'=' x y)
        (val_of-append b'=' x y))
