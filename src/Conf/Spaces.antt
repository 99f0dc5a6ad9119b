-- ===== src/Conf/Spaces.antt =====
-- strim of include/mgx_string.h on texts with spaces around them.
use my_gx.Base.{
  ℕ, zero, suc, ◌<◌, List, [], ◌∷◌, ◌++◌, append-nil, true, length, replicate, ◌≡◌, refl, sym, ap,
  ◌∙◌, arith, length-append,
}
use my_gx.Conf.{strim, not_space, first_char}
use my_gx.Conf.Trim.{skip, unskip, cons_kept, cons_kept-full, strim-unskip}

abbrev pub spaces : ℕ → List ℕ
spaces n = replicate n b' '

-- A text that neither begins nor ends with a space.
pub record IsTrimmed (s : List ℕ) : Type 0 where
  pub front : not_space (first_char s) ≡ true
  pub back : unskip s ≡ s

pub skip-spaces : (n : ℕ) (s : List ℕ) → skip (spaces n ++ s) ≡ skip s
unfolding skip
skip-spaces zero s = refl
skip-spaces (suc n) s = skip-spaces n s

skip-spaces_only : (n : ℕ) → skip (spaces n) ≡ []
unfolding skip
skip-spaces_only n = ap skip (sym (append-nil (spaces n))) ∙ skip-spaces n []

pub unskip-spaces : (n : ℕ) → unskip (spaces n) ≡ []
unfolding unskip cons_kept
unskip-spaces zero = refl
unskip-spaces (suc n) = rw (unskip-spaces n) refl

pub skip_front :
    (s t : List ℕ) → not_space (first_char s) ≡ true → 0 < length s → skip (s ++ t) ≡ s ++ t
unfolding skip first_char
skip_front [] t h k = absurd (omega (arith, k))
skip_front (b ∷ s) t h k = rw h refl

pub unskip_behind : (s t : List ℕ) → unskip t ≡ [] → unskip (s ++ t) ≡ unskip s
unfolding unskip
unskip_behind [] t e = e
unskip_behind (b ∷ s) t e = ap (cons_kept b) (unskip_behind s t e)

pub unskip_kept : (s t : List ℕ) → 0 < length (unskip t) → unskip (s ++ t) ≡ s ++ unskip t
unfolding unskip
unskip_kept [] t h = refl
unskip_kept (b ∷ s) t h =
    ap (cons_kept b) (unskip_kept s t h)
    ∙ cons_kept-full b (s ++ unskip t) (omega (arith, h, length-append s (unskip t)))

pub unskip_char : (b : ℕ) (t : List ℕ) → not_space b ≡ true → unskip (b ∷ t) ≡ b ∷ unskip t
unfolding unskip
unskip_char b t h = kept b (unskip t) h
  where
    kept : (b : ℕ) (t : List ℕ) → not_space b ≡ true → cons_kept b t ≡ b ∷ t
    kept b [] h = rw h refl
    kept b (c ∷ t) h = refl

-- Spaces around a trimmed text are taken off.
pub strim_around : (c d : ℕ) (v : List ℕ) → IsTrimmed v → strim (spaces c ++ (v ++ spaces d)) ≡ v
unfolding unskip
strim_around c d [] i =
    strim-unskip (spaces c ++ spaces d) ∙ ap unskip (skip-spaces c (spaces d) ∙ skip-spaces_only d)
strim_around c d (b ∷ v) i =
    strim-unskip (spaces c ++ ((b ∷ v) ++ spaces d))
    ∙ ap unskip
        (skip-spaces c ((b ∷ v) ++ spaces d) ∙ skip_front (b ∷ v) (spaces d) i.front (omega arith))
    ∙ unskip_behind (b ∷ v) (spaces d) (unskip-spaces d)
    ∙ i.back

-- The same after the spaces behind have been taken off before.
pub strim_twice :
    (c d : ℕ) (v : List ℕ) → IsTrimmed v → strim (unskip (spaces c ++ (v ++ spaces d))) ≡ v
strim_twice c d [] i =
    ap strim (unskip_behind (spaces c) (spaces d) (unskip-spaces d) ∙ unskip-spaces c)
    ∙ strim_around 0 0 [] i
strim_twice c d (b ∷ v) i =
    let whole : unskip ((b ∷ v) ++ spaces d) ≡ b ∷ v =
      unskip_behind (b ∷ v) (spaces d) (unskip-spaces d) ∙ i.back in
    ap strim (
      unskip_kept (spaces c) ((b ∷ v) ++ spaces d) (omega (arith, ap length whole))
      ∙ ap (λ l. spaces c ++ l) (whole ∙ sym (append-nil (b ∷ v))))
    ∙ strim_around c 0 (b ∷ v) i
