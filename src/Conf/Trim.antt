-- ===== src/Conf/Trim.antt =====
-- strim of include/mgx_string.h, against the removal of spaces byte by byte.
use my_gx.Base.{
  ℕ, ◌+◌, ◌<◌, List, [], ◌∷◌, ◌++◌, append_assoc, none, some, if◌then◌else◌, take, drop, length,
  length-append, ◌≡◌, refl, sym, ap, ◌∙◌, Bool-cases, inl, inr, arith, take-append_of_le,
  take-length,
}
use my_gx.Conf.{strim, erase_front, erase_back, find_from, find_last, not_space}

-- The text without the spaces in front.
unfoldable pub skip : List ℕ → List ℕ
skip [] = []
skip (b ∷ s) = if not_space b then b ∷ s else skip s

-- The text without the spaces behind.
unfoldable pub cons_kept : ℕ → List ℕ → List ℕ
cons_kept b [] = if not_space b then b ∷ [] else []
cons_kept b (c ∷ s) = b ∷ c ∷ s

unfoldable pub unskip : List ℕ → List ℕ
unfolding cons_kept
unskip [] = []
unskip (b ∷ s) = cons_kept b (unskip s)

snoc_append : (pre : List ℕ) (b : ℕ) (s : List ℕ) → (pre ++ (b ∷ [])) ++ s ≡ pre ++ (b ∷ s)
snoc_append pre b s = append_assoc pre (b ∷ []) s

length-snoc : (pre : List ℕ) (b : ℕ) → length (pre ++ (b ∷ [])) ≡ length pre + 1
length-snoc pre b = length-append pre (b ∷ [])

drop-length : (pre s : List ℕ) → drop (length pre) (pre ++ s) ≡ s
drop-length [] s = refl
drop-length (b ∷ pre) s = drop-length pre s

take-length-append : (pre s : List ℕ) → take (length pre) (pre ++ s) ≡ pre
take-length-append pre s = take-append_of_le (length pre) pre s (omega arith) ∙ take-length pre

erase_front-skip :
    (pre s : List ℕ) → erase_front (find_from not_space (length pre) s) (pre ++ s) ≡ skip s
unfolding erase_front find_from skip
erase_front-skip pre [] = refl
erase_front-skip pre (b ∷ s) = elim (Bool-cases (not_space b)) [
  | inl there ↦ rw there (drop-length pre (b ∷ s))
  | inr space ↦ rw space (
      ap (λ (k : ℕ). erase_front (find_from not_space k s) (pre ++ (b ∷ s)))
        (sym (length-snoc pre b))
      ∙ ap (erase_front (find_from not_space (length (pre ++ (b ∷ []))) s))
          (sym (snoc_append pre b s))
      ∙ erase_front-skip (pre ++ (b ∷ [])) s)
]

-- What the search from behind finds.
data Found (pre s : List ℕ) : Type 0 where
  nothing : find_last not_space (length pre) s ≡ none → unskip s ≡ [] → Found pre s
  found :
      (j : ℕ)
      → find_last not_space (length pre) s ≡ some j
      → take (j + 1) (pre ++ s) ≡ pre ++ unskip s
      → 0 < length (unskip s)
      → Found pre s

pub cons_kept-full : (b : ℕ) (s : List ℕ) → 0 < length s → cons_kept b s ≡ b ∷ s
unfolding cons_kept
cons_kept-full b [] h = absurd (omega (arith, h))
cons_kept-full b (c ∷ s) h = refl

find_last-Found : (pre s : List ℕ) → Found pre s
unfolding find_last unskip cons_kept
find_last-Found pre [] = nothing refl refl
find_last-Found pre (b ∷ s) =
    let at : find_last not_space (length (pre ++ (b ∷ []))) s
        ≡ find_last not_space (length pre + 1) s =
      ap (λ k. find_last not_space k s) (length-snoc pre b) in
    elim (find_last-Found (pre ++ (b ∷ [])) s) [
      | found j e took full ↦
          found j (rw (sym at ∙ e) refl)
            (ap (take (j + 1)) (sym (snoc_append pre b s))
              ∙ took
              ∙ snoc_append pre b (unskip s)
              ∙ ap (λ l. pre ++ l) (sym (cons_kept-full b (unskip s) full)))
            (rw (cons_kept-full b (unskip s) full) (omega arith))
      | nothing e empty ↦ elim (Bool-cases (not_space b)) [
        | inl there ↦
            found (length pre) (rw (sym at ∙ e, there) refl)
              (rw (empty, there)
                (ap (λ k. take k (pre ++ (b ∷ s))) (sym (length-snoc pre b))
                  ∙ ap (take (length (pre ++ (b ∷ [])))) (sym (snoc_append pre b s))
                  ∙ take-length-append (pre ++ (b ∷ [])) s))
              (rw (empty, there) (omega arith))
        | inr space ↦ nothing (rw (sym at ∙ e, space) refl) (rw (empty, space) refl)
      ]
    ]

erase_back-unskip : (s : List ℕ) → erase_back (find_last not_space 0 s) s ≡ unskip s
unfolding erase_back
erase_back-unskip s = elim (find_last-Found [] s) [
  | nothing e empty ↦ rw e (sym empty)
  | found j e took full ↦ rw e took
]

-- strim takes the spaces in front off, and then the spaces behind, and nothing else.
pub strim-unskip : (s : List ℕ) → strim s ≡ unskip (skip s)
unfolding strim
strim-unskip s =
    ap (λ (f : List ℕ). erase_back (find_last not_space 0 f) f) (erase_front-skip [] s)
    ∙ erase_back-unskip (skip s)
