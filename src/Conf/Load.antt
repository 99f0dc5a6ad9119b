-- ===== src/Conf/Load.antt =====
-- Configuration files written line by line, and what load of app/mgx_conf.cpp makes of them.
use my_gx.Base.{
  ℕ, ◌<◌, List, [], ◌∷◌, ◌++◌, append_assoc, true, false, ◌==◌, ◌||◌, some, length, length-append,
  ◌≡◌, refl, sym, ap, ap₂, ◌∙◌, Bool-cases, inl, inr, arith,
}
use my_gx.Conf.{
  strim, not_space, first_char, is_empty, is_comment, load_line, load_lines, load, getlines,
  last_line, Configs,
}
use my_gx.Conf.Trim.{skip, unskip, strim-unskip}
use my_gx.Conf.Spaces.{
  spaces, IsTrimmed, skip-spaces, skip_front, unskip_kept, unskip_char, strim_around, strim_twice,
}
use my_gx.Conf.Lines.{HasNo, HasNo-append, HasNo-spaces, getlines-append, put_line-append}

-- What a configuration file is written from: an empty line, a comment or a section, and an entry,
-- with the spaces around its parts.
pub data Item : Type 0 where
  blank_line : Item
  comment : ℕ → List ℕ → Item
  entry : ℕ → List ℕ → ℕ → ℕ → List ℕ → ℕ → Item

unfoldable pub line_of : Item → List ℕ
line_of blank_line = []
line_of (comment a text) = spaces a ++ text
line_of (entry a key b c val d) =
    spaces a ++ ((key ++ spaces b) ++ (b'=' ∷ (spaces c ++ (val ++ spaces d))))

unfoldable pub write_items : List Item → List ℕ
unfolding line_of
write_items [] = []
write_items (item ∷ items) = line_of item ++ (b'\n' ∷ write_items items)

unfoldable pub put_item : Item → Configs → Configs
put_item blank_line configs = configs
put_item (comment a text) configs = configs
put_item (entry a key b c val d) configs = (key, val) ∷ configs

unfoldable pub put_items : List Item → Configs → Configs
unfolding put_item
put_items [] configs = configs
put_items (item ∷ items) configs = put_items items (put_item item configs)

-- A key is not empty, has no '=' and does not look like a comment; keys and values have no spaces
-- around them, and nothing has a newline.
pub record IsKey (key : List ℕ) : Type 0 where
  pub nonempty : 0 < length key
  pub trimmed : IsTrimmed key
  pub no_comment : is_comment key ≡ false
  pub no_equals : HasNo b'=' key
  pub one_line : HasNo b'\n' key

unfoldable pub IsItem : Item → Type 0
IsItem blank_line = Unit {0}
IsItem (comment a text) = (is_comment text ≡ true) × HasNo b'\n' text
IsItem (entry a key b c val d) = IsKey key × IsTrimmed val × HasNo b'\n' val

abbrev pub AllItems : List Item → Type 0
AllItems [] = Unit {0}
AllItems (item ∷ items) = IsItem item × AllItems items

line_of-HasNo : (item : Item) → IsItem item → HasNo b'\n' (line_of item)
unfolding line_of IsItem
line_of-HasNo blank_line i = tt
line_of-HasNo (comment a text) (is, h) = HasNo-append _ (spaces a) text (HasNo-spaces _ a refl) h
line_of-HasNo (entry a key b c val d) (k, _, h) =
    HasNo-append _ (spaces a) _ (HasNo-spaces _ a refl) (
      HasNo-append _ (key ++ spaces b) _
        (HasNo-append _ key (spaces b) k.one_line (HasNo-spaces _ b refl))
        (
          refl,
          HasNo-append _ (spaces c) _ (HasNo-spaces _ c refl)
              (HasNo-append _ val (spaces d) h (HasNo-spaces _ d refl)),
        ))

-- A comment, after strim.
comment_char : (c : ℕ) → (c == b'#' || c == b'[' || c == b'/') ≡ true → not_space c ≡ true
comment_char c h = ground arith

load_line-comment :
    (a : ℕ) (text : List ℕ) (configs : Configs)
    → is_comment text ≡ true
    → load_line (spaces a ++ text) configs ≡ configs
unfolding load_line is_comment first_char
load_line-comment a [] configs h = cc
load_line-comment a (b ∷ text) configs h =
    let char = comment_char b h in
    let stripped : strim (spaces a ++ (b ∷ text)) ≡ b ∷ unskip text =
      strim-unskip (spaces a ++ (b ∷ text))
      ∙ ap unskip (skip-spaces a (b ∷ text) ∙ skip_front (b ∷ []) text char (omega arith))
      ∙ unskip_char b text char in
    elim (Bool-cases (is_empty (spaces a ++ (b ∷ text)))) [
      | inl none_there ↦ rw none_there refl
      | inr there ↦ rw (there, stripped, h) refl
    ]

first_char-append : (s t : List ℕ) → 0 < length s → first_char (s ++ t) ≡ first_char s
unfolding first_char
first_char-append [] t h = absurd (omega (arith, h))
first_char-append (b ∷ s) t h = refl

is_empty-append : (s t : List ℕ) → 0 < length t → is_empty (s ++ t) ≡ false
unfolding is_empty
is_empty-append [] [] h = absurd (omega (arith, h))
is_empty-append [] (b ∷ t) h = refl
is_empty-append (b ∷ s) t h = refl

-- An entry, after strim.
load_line-entry :
    (a : ℕ) (key : List ℕ) (b c : ℕ) (val : List ℕ) (d : ℕ) (configs : Configs)
    → IsKey key
    → IsTrimmed val
    → load_line (line_of (entry a key b c val d)) configs ≡ (key, val) ∷ configs
unfolding load_line line_of is_comment
load_line-entry a key b c val d configs k v =
    let x = key ++ spaces b in
    let y = spaces c ++ (val ++ spaces d) in
    let line = spaces a ++ (x ++ (b'=' ∷ y)) in
    let starts : skip (x ++ (b'=' ∷ y)) ≡ x ++ (b'=' ∷ y) =
      ap skip (append_assoc key (spaces b) (b'=' ∷ y))
      ∙ skip_front key (spaces b ++ (b'=' ∷ y)) k.trimmed.front k.nonempty
      ∙ sym (append_assoc key (spaces b) (b'=' ∷ y)) in
    let tail : unskip (b'=' ∷ y) ≡ b'=' ∷ unskip y = unskip_char b'=' y refl in
    let stripped : strim line ≡ x ++ (b'=' ∷ unskip y) =
      strim-unskip line
      ∙ ap unskip (skip-spaces a (x ++ (b'=' ∷ y)) ∙ starts)
      ∙ unskip_kept x (b'=' ∷ y) (omega (arith, ap length tail))
      ∙ ap (λ t. x ++ t) tail in
    let first : first_char (x ++ (b'=' ∷ unskip y)) ≡ first_char key =
      ap first_char (append_assoc key (spaces b) (b'=' ∷ unskip y))
      ∙ first_char-append key _ k.nonempty in
    let there : is_empty line ≡ false =
      is_empty-append (spaces a) (x ++ (b'=' ∷ y)) (omega (arith, length-append x (b'=' ∷ y))) in
    rw (there, stripped, first, k.no_comment)
      (put_line-append x (unskip y) configs
          (HasNo-append _ key (spaces b) k.no_equals (HasNo-spaces _ b refl))
        ∙ ap₂ (λ (l r : List ℕ). (l, r) ∷ configs) (strim_around 0 b key k.trimmed)
            (strim_twice c d val v))

load_line_empty : (configs : Configs) → load_line [] configs ≡ configs
unfolding load_line is_empty
load_line_empty configs = refl

load_lines_none : (configs : Configs) → load_lines (getlines [] []) configs ≡ configs
unfolding load_lines getlines last_line
load_lines_none configs = refl

load_line-item :
    (item : Item) (configs : Configs)
    → IsItem item
    → load_line (line_of item) configs ≡ put_item item configs
unfolding IsItem put_item line_of
load_line-item blank_line configs i = load_line_empty configs
load_line-item (comment a text) configs (is, h) = load_line-comment a text configs is
load_line-item (entry a key b c val d) configs (k, v, h) =
    load_line-entry a key b c val d configs k v

load_lines-items :
    (items : List Item) (configs : Configs)
    → AllItems items
    → load_lines (getlines [] (write_items items)) configs ≡ put_items items configs
unfolding load_lines write_items put_items
load_lines-items [] configs all = load_lines_none configs
load_lines-items (item ∷ items) configs (i, all) =
    ap (λ l. load_lines l configs)
      (getlines-append [] (line_of item) (write_items items) (line_of-HasNo item i))
    ∙ ap (load_lines (getlines [] (write_items items))) (load_line-item item configs i)
    ∙ load_lines-items items (put_item item configs) all

-- A file written from empty lines, comments and entries, with any spaces around the parts of an
-- entry, is loaded to its entries: those put in later stand first.
pub load-write_items :
    (items : List Item) (configs : Configs)
    → AllItems items
    → load (some (write_items items)) configs ≡ (true, put_items items configs)
unfolding load
load-write_items items configs all =
    ap (λ (c : Configs). (true, c)) (load_lines-items items configs all)
