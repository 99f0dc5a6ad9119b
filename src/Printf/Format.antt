-- ===== src/Printf/Format.antt =====
-- The loop of mgx_vslprintf in app/mgx_printf.cpp.
pub mod Pieces
pub mod Bound
pub mod Total
mod Examples
use my_gx.Base.{
  ℕ, zero, suc, ◌+◌, ◌-◌, ◌*◌, ◌/◌, ◌%◌, ◌^◌, List, [], ◌∷◌, ◌++◌, Bool, true, false, not, Option,
  none, some, take, length, get_or, ltb, leb, ◌==◌, ◌&&◌, ◌||◌, if◌then◌else◌,
}
use my_gx.Printf.{
  Double, Arg, int32, int64, real, text, Spec, no_slen, read_width, read_flags, Value, number_arg,
  print_number, mgx_sprintf_num,
}

-- `%s`: up to the NUL, or as many bytes as `*` said; `none` when these are not all in the text.
pub print_text : ℕ → ℕ → List ℕ → Option (List ℕ)
print_text room slen p =
    if slen == no_slen
    then some (take room p)
    else (let len = if ltb slen room then slen else room in
        if leb len (length p + 1) then some (take len (p ++ 0 ∷ [])) else none)

-- `for (n = frac_width; n; n--) scale *= 10;`
pub scale_of : ℕ → ℕ
scale_of zero = 1
scale_of (suc n) = scale_of n * 10 % 2 ^ 64

-- `%f` after its sign was taken off.
pub print_fraction : ℕ → Spec → Double → List ℕ
print_fraction room sp f =
    let scale = scale_of sp.frac_width in
    let carries = f.scaled scale == scale in
    if sp.frac_width == 0
    then mgx_sprintf_num room f.whole sp.fill 0 sp.width
    else (let whole = if carries then (f.whole + 1) % 2 ^ 64 else f.whole in
        let frac = if carries then 0 else f.scaled scale in
        let front = mgx_sprintf_num room whole sp.fill 0 sp.width in
        let point = if ltb 0 (room - length front) then b'.' ∷ [] else [] in
        front
        ++ (point
            ++ mgx_sprintf_num (room - length front - length point) frac b'0' 0 sp.frac_width))

pub print_real : ℕ → Spec → Double → List ℕ
print_real room sp f =
    if f.is_negative then b'-' ∷ print_fraction (room - 1) sp f else print_fraction room sp f

-- `%p` is a number with these settings.
pub number_spec : ℕ → Spec → Spec
number_spec c sp = if c == b'p' then record sp { hex = 2; fill = b'0'; width = 16 } else sp

-- What a conversion prints that takes this argument; `none` if it does not fit, which C leaves undefined.
pub print_arg : ℕ → ℕ → Spec → Arg → Option (List ℕ)
print_arg room c sp (text p) = if c == b's' then print_text room sp.slen p else none
print_arg room c sp (real f) = if c == b'f' then some (print_real room sp f) else none
print_arg room c sp (int64 v) = elim (number_arg c sp.sign (int64 v)) [
  | none ↦ none
  | some n ↦ some (print_number room (number_spec c sp) n)
]
print_arg room c sp (int32 v) =
    if c == b'c' then some (v % 256 ∷ []) else elim (number_arg c sp.sign (int32 v)) [
      | none ↦ none
      | some n ↦ some (print_number room (number_spec c sp) n)
    ]

-- The conversions that take an argument.
pub takes_arg : ℕ → Bool
takes_arg c =
    c == b's'
    || c == b'O'
    || c == b'P'
    || c == b'T'
    || c == b'M'
    || c == b'z'
    || c == b'i'
    || c == b'd'
    || c == b'l'
    || c == b'D'
    || c == b'L'
    || c == b'f'
    || c == b'p'
    || c == b'c'

-- What the other conversions write: `Z`, `N`, and a character that stands for itself.
pub plain_byte : ℕ → ℕ
plain_byte c = if c == b'Z' then 0 else if c == b'N' then 10 else c

-- What one round of the loop writes, and the format and the arguments that are left.
pub record Round : Type 0 where
  pub out : List ℕ
  pub fmt : List ℕ
  pub args : List Arg

pub with_arg : ℕ → ℕ → Spec → List ℕ → List Arg → Option Round
with_arg room c sp fmt [] = none
with_arg room c sp fmt (a ∷ args) = elim (print_arg room c sp a) [
  | none ↦ none
  | some out ↦ some (record { out = out; fmt = fmt; args = args })
]

-- The conversion behind the flags. At the end of the format the default case copies the NUL and
-- goes on behind it, which C leaves undefined.
pub convert : ℕ → List ℕ × Spec × List Arg → Option Round
convert room ([], sp, args) = none
convert room (c ∷ fmt, sp, args) =
    if takes_arg c
    then with_arg room c sp fmt args
    else some (record { out = plain_byte c ∷ []; fmt = fmt; args = args })

-- What stands behind a `%`.
pub conversion : ℕ → List ℕ → List Arg → Option Round
conversion room fmt args =
    let (width, flags) = read_width 0 fmt in
    let spec : Spec = record {
      fill = if get_or fmt 0 0 == b'0' then b'0' else b' ';
      width = width;
      sign = true;
      hex = 0;
      frac_width = 0;
      slen = no_slen;
    } in
    elim (read_flags flags spec args) [ none ↦ none | some r ↦ convert room r ]

-- One round of the loop, at a character of the format, with room for one byte at least.
pub round : ℕ → ℕ → List ℕ → List Arg → Option Round
round room c fmt args =
    if c == b'%'
    then conversion room fmt args
    else some (record { out = c ∷ []; fmt = fmt; args = args })

-- What a call of mgx_vslprintf writes; `undefined` when a conversion does not fit its argument or
-- the format ends within one.
pub data Printed : Type 0 where
  wrote : List ℕ → Printed
  undefined out_of_fuel : Printed

abbrev pub after : List ℕ → Printed → Printed
after out (wrote more) = wrote (out ++ more)
after out undefined = undefined
after out out_of_fuel = out_of_fuel

-- The loop, on fuel.
pub mgx_vslprintf : ℕ → ℕ → List ℕ → List Arg → Printed
mgx_vslprintf zero room fmt args = out_of_fuel
mgx_vslprintf (suc fuel) room [] args = wrote []
mgx_vslprintf (suc fuel) zero (c ∷ fmt) args = wrote []
mgx_vslprintf (suc fuel) (suc room) (c ∷ fmt) args = elim (round (suc room) c fmt args) [
  | none ↦ undefined
  | some r ↦ after r.out (mgx_vslprintf fuel (suc room - length r.out) r.fmt r.args)
]
