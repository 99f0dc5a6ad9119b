-- ===== src/Conf.antt =====
-- The configuration file: load, get_string and get_int of app/mgx_conf.cpp, and strim of
-- include/mgx_string.h. A text is the list of its bytes, and the map of the configuration lists its
-- entries, the last one put in first.
pub mod Trim
pub mod Spaces
pub mod Lines
pub mod Load
pub mod Lookup
mod Examples
use my_gx.Base.{
  ℕ, zero, suc, ◌+◌, ◌-◌, ◌*◌, ◌^◌, ◌<◌, List, [], ◌∷◌, ◌++◌, Bool, true, false, not, ◌&&◌, ◌||◌,
  Option, none, some, ltb, leb, ◌==◌, if◌then◌else◌, take, drop, length,
}

-- Operations of std::string.
unfoldable pub is_empty : List ℕ → Bool
is_empty [] = true
is_empty (b ∷ s) = false

-- `find_first_of` and `find_first_not_of`; `none` is npos.
unfoldable pub find_from : (ℕ → Bool) → ℕ → List ℕ → Option ℕ
find_from test i [] = none
find_from test i (b ∷ s) = if test b then some i else find_from test (i + 1) s

unfoldable pub find_last : (ℕ → Bool) → ℕ → List ℕ → Option ℕ
find_last test i [] = none
find_last test i (b ∷ s) = elim (find_last test (i + 1) s) [
  | some j ↦ some j
  | none ↦ if test b then some i else none
]

-- `substr(at, count)`, and `substr(0, npos)` for `none`.
unfoldable pub substr : List ℕ → ℕ → ℕ → List ℕ
substr s at count = take count (drop at s)

unfoldable pub upto : Option ℕ → List ℕ → List ℕ
upto none s = s
upto (some i) s = take i s

-- `erase(0, i)` and `erase(i + 1)`, where npos + 1 is 0.
unfoldable pub erase_front : Option ℕ → List ℕ → List ℕ
erase_front none s = []
erase_front (some i) s = drop i s

unfoldable pub erase_back : Option ℕ → List ℕ → List ℕ
erase_back none s = []
erase_back (some i) s = take (i + 1) s

abbrev pub not_space : ℕ → Bool
not_space b = not (b == b' ')

unfoldable pub strim : List ℕ → List ℕ
unfolding erase_front erase_back find_from find_last
strim str =
    let front = erase_front (find_from not_space 0 str) str in
    erase_back (find_last not_space 0 front) front

-- `line[0]`, which is 0 for an empty line.
unfoldable pub first_char : List ℕ → ℕ
first_char [] = 0
first_char (b ∷ s) = b

unfoldable pub is_comment : List ℕ → Bool
unfolding first_char
is_comment line = first_char line == b'#' || first_char line == b'[' || first_char line == b'/'

abbrev pub Configs : Type 0
Configs = List (List ℕ × List ℕ)

-- The split at the index of '='. For npos the int `index` is -1, so val is `substr(0, 0)`.
unfoldable pub key_of : Option ℕ → List ℕ → List ℕ
unfolding upto
key_of index line = upto index line

unfoldable pub val_of : Option ℕ → List ℕ → List ℕ
unfolding substr key_of
val_of none line = substr line 0 (length line - length (key_of none line))
val_of (some i) line = substr line (i + 1) (length line - length (key_of (some i) line))

unfoldable pub put_line : List ℕ → Configs → Configs
unfolding key_of val_of strim find_from
put_line line configs =
    let index = find_from (λ b. b == b'=') 0 line in
    (strim (key_of index line), strim (val_of index line)) ∷ configs

-- One round of the loop of load.
unfoldable pub load_line : List ℕ → Configs → Configs
unfolding is_empty is_comment put_line strim
load_line line configs =
    if is_empty line
    then configs
    else if is_comment (strim line)
    then configs
    else put_line (strim line) configs

unfoldable pub load_lines : List (List ℕ) → Configs → Configs
unfolding load_line
load_lines [] configs = configs
load_lines (line ∷ lines) configs = load_lines lines (load_line line configs)

-- The lines that getline reads: `held` is what stands before the text on the present line. A text
-- that ends with a newline has no further line.
unfoldable pub last_line : List ℕ → List (List ℕ)
last_line [] = []
last_line (b ∷ held) = (b ∷ held) ∷ []

unfoldable pub getlines : List ℕ → List ℕ → List (List ℕ)
unfolding last_line
getlines held [] = last_line held
getlines held (b ∷ s) = if b == b'\n' then held ∷ getlines [] s else getlines (held ++ (b ∷ [])) s

-- load: the result, and the configuration. `none` is a file that cannot be opened.
unfoldable pub load : Option (List ℕ) → Configs → Bool × Configs
unfolding load_lines getlines
load none configs = (false, configs)
load (some text) configs = (true, load_lines (getlines [] text) configs)

unfoldable pub same_text : List ℕ → List ℕ → Bool
same_text [] [] = true
same_text [] (c ∷ t) = false
same_text (b ∷ s) [] = false
same_text (b ∷ s) (c ∷ t) = b == c && same_text s t

unfoldable pub get_string : List ℕ → List ℕ → Configs → List ℕ
unfolding same_text
get_string key default_str [] = default_str
get_string key default_str ((k, v) ∷ configs) =
    if same_text key k then v else get_string key default_str configs

-- An int.
pub data ℤ : Type 0 where
  pos : ℕ → ℤ
  negsuc : ℕ → ℤ

abbrev pub is_digit : ℕ → Bool
is_digit b = leb b'0' b && leb b b'9'

abbrev pub is_space : ℕ → Bool
is_space b = b == b' ' || (leb 9 b && leb b 13)

-- std::stoi, base 10: spaces, a sign, and the digits up to the first other character. It throws
-- invalid_argument where there are none, and out_of_range beyond an int; `none` is an exception.
unfoldable pub digits_value : ℕ → List ℕ → ℕ
digits_value acc [] = acc
digits_value acc (b ∷ s) = if is_digit b then digits_value (acc * 10 + (b - b'0')) s else acc

unfoldable pub negate : ℕ → ℤ
negate zero = pos zero
negate (suc n) = negsuc n

unfoldable pub to_int : Bool → List ℕ → Option ℤ
unfolding digits_value negate first_char
to_int negative s =
    let n = digits_value 0 s in
    if not (is_digit (first_char s))
    then none
    else if negative
    then (if leb n (2 ^ 31) then some (negate n) else none)
    else (if ltb n (2 ^ 31) then some (pos n) else none)

unfoldable pub signed : List ℕ → Option ℤ
unfolding to_int
signed [] = none
signed (b ∷ s) =
    if b == b'-'
    then to_int true s
    else (if b == b'+' then to_int false s else to_int false (b ∷ s))

unfoldable pub stoi : List ℕ → Option ℤ
unfolding signed
stoi [] = none
stoi (b ∷ s) = let rest = stoi s in if is_space b then rest else signed (b ∷ s)

unfoldable pub get_int : List ℕ → ℤ → Configs → Option ℤ
unfolding get_string stoi is_empty
get_int key default_int configs =
    let val = get_string key [] configs in if is_empty val then some default_int else stoi val
