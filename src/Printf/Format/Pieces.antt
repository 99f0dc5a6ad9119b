-- ===== src/Printf/Format/Pieces.antt =====
-- The room that single conversions of mgx_vslprintf in app/mgx_printf.cpp take.
use my_gx.Base.{
  ℕ, ◌+◌, ◌-◌, ◌%◌, ◌^◌, ◌≤◌, ◌<◌, List, [], ◌∷◌, ◌++◌, Bool, true, false, Option, none, some,
  length, length-append, length-take, replicate, ltb, leb, ◌==◌, if◌then◌else◌, arith, inl, inr,
  Bool-cases,
}
use my_gx.Printf.{
  Double, Arg, int32, int64, real, text, Spec, no_slen, Value, signed, unsigned, number_arg,
  print_number, mgx_sprintf_num, number_digits,
}
use my_gx.Printf.Number.{mgx_sprintf_num-take}
use my_gx.Printf.Format.{print_text, print_fraction, print_real, number_spec, print_arg, scale_of}

length-mgx_sprintf_num :
    (room ui64 fill hexadecimal width : ℕ)
    → length (mgx_sprintf_num room ui64 fill hexadecimal width) ≤ room
length-mgx_sprintf_num room ui64 fill hexadecimal width =
    let p = number_digits ui64 hexadecimal in
    rw (mgx_sprintf_num-take room ui64 fill hexadecimal width)
      (omega (arith, length-take room (replicate (width - length p) fill ++ p)))

length-print_number :
    (room : ℕ) (sp : Spec) (v : Value) → 0 < room → length (print_number room sp v) ≤ room
unfolding print_number
length-print_number room sp (unsigned v) h = length-mgx_sprintf_num room v sp.fill sp.hex sp.width
length-print_number room sp (signed v) h = ground (
  arith,
  length-mgx_sprintf_num room v sp.fill sp.hex sp.width,
  length-mgx_sprintf_num (room - 1) (2 ^ 64 - v) sp.fill sp.hex sp.width,
)

-- A point is written only if there is room for it.
length-point : (room : ℕ) → length {A = ℕ} (if ltb 0 room then b'.' ∷ [] else []) ≤ room
length-point room = ground arith

length-print_fraction :
    (room : ℕ) (sp : Spec) (f : Double) → length (print_fraction room sp f) ≤ room
unfolding print_fraction
length-print_fraction room sp f =
    let scale = scale_of sp.frac_width in
    let carries = f.scaled scale == scale in
    let whole = if carries then (f.whole + 1) % 2 ^ 64 else f.whole in
    let frac = if carries then 0 else f.scaled scale in
    let front : List ℕ = mgx_sprintf_num room whole sp.fill 0 sp.width in
    let point : List ℕ = if ltb 0 (room - length front) then b'.' ∷ [] else [] in
    let last : List ℕ =
      mgx_sprintf_num (room - length front - length point) frac b'0' 0 sp.frac_width in
    elim (Bool-cases (sp.frac_width == 0)) [
      | inl without ↦ rw without (length-mgx_sprintf_num room f.whole sp.fill 0 sp.width)
      | inr with_point ↦
          let total : length (front ++ (point ++ last)) ≤ room = omega (
            arith,
            length-append front (point ++ last),
            length-append point last,
            length-mgx_sprintf_num room whole sp.fill 0 sp.width,
            length-point (room - length front),
            length-mgx_sprintf_num (room - length front - length point) frac b'0' 0 sp.frac_width,
          ) in
          rw with_point total
    ]

length-print_real :
    (room : ℕ) (sp : Spec) (f : Double) → 0 < room → length (print_real room sp f) ≤ room
unfolding print_real
length-print_real room sp f h =
    ground (arith, length-print_fraction room sp f, length-print_fraction (room - 1) sp f)

-- What may be there keeps to the room.
abbrev pub OutFits : ℕ → Option (List ℕ) → Type 0
OutFits room none = Unit {0}
OutFits room (some out) = length out ≤ room

print_text-OutFits : (room slen : ℕ) (p : List ℕ) → OutFits room (print_text room slen p)
unfolding print_text
print_text-OutFits room slen p = elim (Bool-cases (slen == no_slen)) [
  | inl to_nul ↦ rw to_nul (omega (arith, length-take room p))
  | inr counted ↦
      let len = if ltb slen room then slen else room in
      let within : len ≤ room = ground arith in
      rw counted (elim (Bool-cases (leb len (length p + 1))) [
        | inl there ↦ rw there (omega (arith, within, length-take len (p ++ 0 ∷ [])))
        | inr beyond ↦ rw beyond tt
      ])
]

-- What holds of both branches.
pub either_way :
    {A B : Type 0} (P : B → Type 0) (o : Option A) (x : B) (f : A → B)
    → P x
    → ((a : A) → P (f a))
    → P (elim o [ none ↦ x | some a ↦ f a ])
either_way P none x f h hs = h
either_way P (some a) x f h hs = hs a

pub both_ways :
    {B : Type 0} (P : B → Type 0) (b : Bool) (x y : B) → P x → P y → P (if b then x else y)
both_ways P true x y hx hy = hx
both_ways P false x y hx hy = hy

-- A conversion that is done only for its own letter.
guarded :
    (room : ℕ) (b : Bool) (o : Option (List ℕ))
    → OutFits room o
    → OutFits room (if b then o else none)
guarded room true o h = h
guarded room false o h = tt

-- What is printed of a number that may be there.
abbrev printed_value : ℕ → Spec → Option Value → Option (List ℕ)
printed_value room sp none = none
printed_value room sp (some v) = some (print_number room sp v)

printed_value-OutFits :
    (room : ℕ) (sp : Spec) (o : Option Value) → 0 < room → OutFits room (printed_value room sp o)
printed_value-OutFits room sp none h = tt
printed_value-OutFits room sp (some v) h = length-print_number room sp v h

pub print_arg-OutFits :
    (room c : ℕ) (sp : Spec) (a : Arg) → 0 < room → OutFits room (print_arg room c sp a)
unfolding print_arg
print_arg-OutFits room c sp (text p) h =
    guarded room (c == b's') (print_text room sp.slen p) (print_text-OutFits room sp.slen p)
print_arg-OutFits room c sp (real f) h =
    guarded room (c == b'f') (some (print_real room sp f)) (length-print_real room sp f h)
print_arg-OutFits room c sp (int64 v) h =
    printed_value-OutFits room (number_spec c sp) (number_arg c sp.sign (int64 v)) h
print_arg-OutFits room c sp (int32 v) h = elim (Bool-cases (c == b'c')) [
  | inl char ↦ rw char h
  | inr number ↦
      rw number (printed_value-OutFits room (number_spec c sp) (number_arg c sp.sign (int32 v)) h)
]
