-- ===== src/Receive/Frames.antt =====
-- The package format of include/mgx_comm.h as a reading of the byte stream, one byte at a time.
use my_gx.Base.{
  ℕ, suc, ◌-◌, ◌≤◌, ◌<◌, Bool, true, false, List, [], ◌∷◌, ◌++◌, append_assoc, Option, none, some,
  length, take, drop, length-take, take-append-drop, sym, ltb, ◌==◌, ◌||◌, if◌then◌else◌, ◌≡◌, ◌≢◌,
  refl, ap, ◌∙◌, arith,
}
use mathlib.Core.List.{cons-ne-nil}
use native.Mathlib.Decide.{dec_lt}
use my_gx.Conn.{pkg_hdr_size, pkg_max_size}
use my_gx.Receive.{pkg_size, with_first}

-- A size that the server takes for a package's.
abbrev pub is_bad : ℕ → Bool
is_bad size = ltb size pkg_hdr_size || ltb (pkg_max_size - 1000) size

-- The bytes held back after another one has come, and the package that it completes. A complete
-- header with a bad size is thrown away.
unfoldable pub settle : List ℕ → List ℕ × Option (List ℕ)
settle held =
    if ltb (length held) pkg_hdr_size
    then (held, none)
    else if is_bad (pkg_size held)
    then ([], none)
    else if length held == pkg_size held
    then ([], some held)
    else (held, none)

-- The packages in a stream, and what is held back at its end.
unfoldable pub frames : List ℕ → List ℕ → List (List ℕ) × List ℕ
unfolding settle
frames held [] = ([], held)
frames held (b ∷ bs) =
    let (held', out) = settle (held ++ b ∷ []) in
    let (outs, last) = frames held' bs in (with_first out outs, last)

-- What a second text adds.
abbrev pub continue : List (List ℕ) × List ℕ → List ℕ → List (List ℕ) × List ℕ
continue (outs, held) bs = let (more, last) = frames held bs in (outs ++ more, last)

pub frames-nil : (held : List ℕ) → frames held [] ≡ ([], held)
unfolding frames
frames-nil held = refl

pub frames-append : (held xs ys : List ℕ) → frames held (xs ++ ys) ≡ continue (frames held xs) ys
unfolding frames
frames-append held [] ys = refl
frames-append held (x ∷ xs) ys = ground (arith, frames-append (settle (held ++ x ∷ [])).0 xs ys)

-- The outcome of a text that can complete a package with its last byte only.
abbrev pub at_once : List ℕ × Option (List ℕ) → List (List ℕ) × List ℕ
at_once (held, out) = (with_first out [], held)

frames_quiet :
    (held bs : List ℕ) (b : ℕ)
    → settle (held ++ b ∷ []) ≡ (held ++ b ∷ [], none)
    → frames held (b ∷ bs) ≡ frames (held ++ b ∷ []) bs
unfolding frames
frames_quiet held bs b quiet = rw quiet

frames_one : (held : List ℕ) (b : ℕ) → frames held (b ∷ []) ≡ at_once (settle (held ++ b ∷ []))
unfolding frames
frames_one held b = refl

pub frames-at_once :
    (held bs : List ℕ)
    → bs ≢ []
    → ((n : ℕ) → 0 < n → n < length bs → settle (held ++ take n bs) ≡ (held ++ take n bs, none))
    → frames held bs ≡ at_once (settle (held ++ bs))
frames-at_once held [] ne quiet = absurd (ne refl)
frames-at_once held (b ∷ []) ne quiet = frames_one held b
frames-at_once held (b ∷ c ∷ bs) ne quiet =
    frames_quiet held (c ∷ bs) b (quiet 1 (omega arith) (omega arith))
    ∙ frames-at_once (held ++ b ∷ []) (c ∷ bs) (cons-ne-nil c bs) (λ n p q.
      rw (append_assoc held (b ∷ []) (take n (c ∷ bs))) (quiet (suc n) (omega arith) (omega arith)))
    ∙ ap (λ l. at_once (settle l)) (append_assoc held (b ∷ []) (c ∷ bs))

-- Short of a header, nothing is decided.
pub settle_short : (held : List ℕ) → length held < pkg_hdr_size → settle held ≡ (held, none)
unfolding settle
settle_short held h = ground arith

-- Short of the size in a good header, neither.
pub settle_open :
    (held : List ℕ)
    → is_bad (pkg_size held) ≡ false
    → length held < pkg_size held
    → settle held ≡ (held, none)
unfolding settle
settle_open held good h = ground arith

pub settle_bad :
    (held : List ℕ)
    → pkg_hdr_size ≤ length held
    → is_bad (pkg_size held) ≡ true
    → settle held ≡ ([], none)
unfolding settle
settle_bad held h bad = ground arith

pub settle_whole :
    (held : List ℕ)
    → is_bad (pkg_size held) ≡ false
    → length held ≡ pkg_size held
    → settle held ≡ ([], some held)
unfolding settle
settle_whole held good h = ground arith

-- The size in a header is read from its first two bytes, whatever follows.
pub pkg_size-append : (xs ys : List ℕ) → 2 ≤ length xs → pkg_size (xs ++ ys) ≡ pkg_size xs
unfolding pkg_size
pkg_size-append [] ys h = absurd (omega arith)
pkg_size-append (x ∷ []) ys h = absurd (omega arith)
pkg_size-append (x ∷ y ∷ xs) ys h = refl

-- A package as a client sends it: a good size in its first two bytes, and as many bytes.
pub record IsPackage (p : List ℕ) : Type 0 where
  pub good : is_bad (pkg_size p) ≡ false
  pub whole : length p ≡ pkg_size p

abbrev pub concat : List (List ℕ) → List ℕ
concat [] = []
concat (p ∷ ps) = p ++ concat ps

abbrev pub AllPackages : List (List ℕ) → Type 0
AllPackages [] = Unit {0}
AllPackages (p ∷ ps) = IsPackage p × AllPackages ps

settle_prefix :
    (p : List ℕ) (n : ℕ) → IsPackage p → n < length p → settle (take n p) ≡ (take n p, none)
settle_prefix p n ok h = elim (dec_lt n pkg_hdr_size) [
  | yes short ↦ settle_short (take n p) (omega (arith, len))
  | no long ↦
      settle_open (take n p) (rw (same_size (omega arith)) ok.good)
        (rw (same_size (omega arith)) (omega (arith, len, ok.whole)))
]
  where
    len : length (take n p) ≡ n
    len = omega (arith, length-take n p)

    same_size : 2 ≤ n → pkg_size (take n p) ≡ pkg_size p
    same_size two =
        sym (pkg_size-append (take n p) (drop n p) (omega (arith, len)))
        ∙ ap pkg_size (take-append-drop n p)

IsPackage-long : (p : List ℕ) → IsPackage p → p ≢ []
IsPackage-long p ok e = ground (arith, ap length e)

frames_package : (p : List ℕ) → IsPackage p → frames [] p ≡ (p ∷ [], [])
frames_package p ok =
    frames-at_once [] p (λ e. absurd (IsPackage-long p ok e)) (λ n _ h. settle_prefix p n ok h)
    ∙ ap at_once (settle_whole p ok.good ok.whole)

-- Packages sent one after another, with nothing between them, are read as they were sent.
pub frames-concat : (ps : List (List ℕ)) → AllPackages ps → frames [] (concat ps) ≡ (ps, [])
frames-concat [] ok = unfold frames in refl
frames-concat (p ∷ ps) (ok, oks) =
    frames-append [] p (concat ps)
    ∙ ap (λ r. continue r (concat ps)) (frames_package p ok)
    ∙ ap (λ r. (p ∷ r.0, r.1)) (frames-concat ps oks)
