-- ===== src/Printf/Format/Bound.antt =====
-- The fuel and the buffer of mgx_vslprintf in app/mgx_printf.cpp.
use my_gx.Base.{
  ℕ, zero, suc, ◌+◌, ◌-◌, ◌*◌, ◌%◌, ◌^◌, ◌≤◌, ◌<◌, List, [], ◌∷◌, true, false, Option, none, some,
  take, length, length-append, get_or, ◌==◌, if◌then◌else◌, ◌≡◌, refl, ap, ◌∙◌, arith, inl, inr,
  Bool-cases,
}
use my_gx.Printf.{Arg, Spec, no_slen, read_width, read_flags, simple_flag, slen_arg}
use my_gx.Printf.Format.{
  print_arg, takes_arg, Round, with_arg, convert, conversion, round, Printed, wrote, undefined,
  out_of_fuel, after, mgx_vslprintf,
}
use my_gx.Printf.Format.Pieces.{OutFits, either_way, both_ways, print_arg-OutFits}

-- A round, if it is defined, keeps to the room and leaves at most `n` characters of the format.
abbrev pub RoundFits : ℕ → ℕ → Option Round → Type 0
RoundFits room n none = Unit {0}
RoundFits room n (some r) = (length r.out ≤ room) × (length r.fmt ≤ n)

RoundFits-mono : (room m n : ℕ) (o : Option Round) → m ≤ n → RoundFits room m o → RoundFits room n o
RoundFits-mono room m n none h f = tt
RoundFits-mono room m n (some r) h (out, shorter) = (out, omega arith)

abbrev FlagsFit : ℕ → Option (List ℕ × Spec × List Arg) → Type 0
FlagsFit n none = Unit {0}
FlagsFit n (some (fmt, _, _)) = length fmt ≤ n

length-read_width : (width : ℕ) (fmt : List ℕ) → length (read_width width fmt).1 ≤ length fmt
unfolding read_width
length-read_width width [] = omega arith
length-read_width width (c ∷ fmt) =
    ground (arith, length-read_width ((width * 10 + (c - b'0')) % 2 ^ 64) fmt)

FlagsFit-mono :
    (m n : ℕ) (o : Option (List ℕ × Spec × List Arg)) → m ≤ n → FlagsFit m o → FlagsFit n o
FlagsFit-mono m n none h f = tt
FlagsFit-mono m n (some (fmt, sp, args)) h f = omega arith

read_flags-FlagsFit :
    (fmt : List ℕ) (sp : Spec) (args : List Arg) → FlagsFit (length fmt) (read_flags fmt sp args)
unfolding read_flags
read_flags-FlagsFit [] sp args = omega arith
read_flags-FlagsFit (c ∷ fmt) sp args =
    let later : (sp' : Spec) (args' : List Arg)
        → FlagsFit (suc (length fmt)) (read_flags fmt sp' args') =
      λ sp' args'.
        FlagsFit-mono (length fmt) (suc (length fmt)) (read_flags fmt sp' args') (omega arith)
          (read_flags-FlagsFit fmt sp' args') in
    either_way Fit (simple_flag c sp) _ (λ sp'. read_flags fmt sp' args)
      (both_ways Fit (c == b'.') _ _ (omega (arith, length-read_width sp.frac_width fmt)) (
        both_ways Fit (c == b'*') _ _
          (either_way Fit (slen_arg args) none
            (λ given. read_flags fmt (record sp { slen = given.0 }) given.1) tt
            (λ given. later (record sp { slen = given.0 }) given.1))
          (omega arith)))
      (λ sp'. later sp' args)
  where
    Fit : Option (List ℕ × Spec × List Arg) → Type 0
    Fit = FlagsFit (suc (length fmt))

with_arg-RoundFits :
    (room c : ℕ) (sp : Spec) (fmt : List ℕ) (args : List Arg)
    → 0 < room
    → RoundFits room (length fmt) (with_arg room c sp fmt args)
unfolding with_arg
with_arg-RoundFits room c sp fmt [] h = tt
with_arg-RoundFits room c sp fmt (a ∷ args) h =
    go (print_arg room c sp a) (print_arg-OutFits room c sp a h)
  where
    go :
        (o : Option (List ℕ))
        → OutFits room o
        → RoundFits room (length fmt) (elim o [
          | none ↦ none
          | some out ↦ some (record { out = out; fmt = fmt; args = args })
        ])
    go none f = tt
    go (some out) f = (f, omega arith)

convert-RoundFits :
    (room n : ℕ) (fmt : List ℕ) (sp : Spec) (args : List Arg)
    → 0 < room
    → length fmt ≤ n
    → RoundFits room n (convert room (fmt, sp, args))
unfolding convert
convert-RoundFits room n [] sp args h k = tt
convert-RoundFits room n (c ∷ fmt) sp args h k = elim (Bool-cases (takes_arg c)) [
  | inl with ↦ rw with (
      RoundFits-mono room (length fmt) n (with_arg room c sp fmt args) (omega arith)
        (with_arg-RoundFits room c sp fmt args h))
  | inr without ↦ rw without (h, omega arith)
]

conversion-RoundFits :
    (room : ℕ) (fmt : List ℕ) (args : List Arg)
    → 0 < room
    → RoundFits room (length fmt) (conversion room fmt args)
unfolding conversion
conversion-RoundFits room fmt args h = go (read_flags (read_width 0 fmt).1 spec args) (
    FlagsFit-mono (length (read_width 0 fmt).1) (length fmt)
      (read_flags (read_width 0 fmt).1 spec args) (length-read_width 0 fmt)
      (read_flags-FlagsFit (read_width 0 fmt).1 spec args))
  where
    spec : Spec
    spec = record {
      fill = if get_or fmt 0 0 == b'0' then b'0' else b' ';
      width = (read_width 0 fmt).0;
      sign = true;
      hex = 0;
      frac_width = 0;
      slen = no_slen;
    }

    go :
        (o : Option (List ℕ × Spec × List Arg))
        → FlagsFit (length fmt) o
        → RoundFits room (length fmt) (elim o [ none ↦ none | some r ↦ convert room r ])
    go none f = tt
    go (some (left, sp, args')) f = convert-RoundFits room (length fmt) left sp args' h f

round-RoundFits :
    (room c : ℕ) (fmt : List ℕ) (args : List Arg)
    → 0 < room
    → RoundFits room (length fmt) (round room c fmt args)
unfolding round
round-RoundFits room c fmt args h = elim (Bool-cases (c == b'%')) [
  | inl percent ↦ rw percent (conversion-RoundFits room fmt args h)
  | inr plain ↦ rw plain (h, omega arith)
]

-- A call that has ended within its room, or that C leaves undefined.
abbrev pub Within : ℕ → Printed → Type 0
Within room (wrote out) = length out ≤ room
Within room undefined = Unit {0}
Within room out_of_fuel = ⊥

after-Within :
    (room : ℕ) (out : List ℕ) (q : Printed)
    → length out ≤ room
    → Within (room - length out) q
    → Within room (after out q)
after-Within room out (wrote more) h w = omega (arith, length-append out more)
after-Within room out undefined h w = tt
after-Within room out out_of_fuel h w = absurd w

after_round :
    (fuel room n : ℕ) (o : Option Round)
    → RoundFits (suc room) n o
    → ((left : ℕ) (fmt : List ℕ) (args : List Arg)
        → length fmt ≤ n
        → Within left (mgx_vslprintf fuel left fmt args))
    → Within (suc room) (elim o [
      | none ↦ undefined
      | some r ↦ after r.out (mgx_vslprintf fuel (suc room - length r.out) r.fmt r.args)
    ])
after_round fuel room n none f rest = tt
after_round fuel room n (some r) (out, shorter) rest =
    after-Within (suc room) r.out (mgx_vslprintf fuel (suc room - length r.out) r.fmt r.args) out
      (rest (suc room - length r.out) r.fmt r.args shorter)

-- With fuel for each character of the format and one more round, mgx_vslprintf does not run out of it,
-- whatever the format and the arguments: either it comes to something that C leaves undefined, as a
-- format that ends within a conversion or an argument that is missing or of another type, or it ends,
-- and what it writes keeps to the buffer.
pub mgx_vslprintf-Within :
    (fuel room : ℕ) (fmt : List ℕ) (args : List Arg)
    → length fmt < fuel
    → Within room (mgx_vslprintf fuel room fmt args)
unfolding mgx_vslprintf
mgx_vslprintf-Within zero room fmt args h = absurd (omega arith)
mgx_vslprintf-Within (suc fuel) room [] args h = omega arith
mgx_vslprintf-Within (suc fuel) zero (c ∷ fmt) args h = omega arith
mgx_vslprintf-Within (suc fuel) (suc room) (c ∷ fmt) args h =
    after_round fuel room (length fmt) (round (suc room) c fmt args)
      (round-RoundFits (suc room) c fmt args (omega arith))
      (λ left fmt' args' shorter. mgx_vslprintf-Within fuel left fmt' args' (omega arith))

-- A format without a `%`.
abbrev pub NoPercent : List ℕ → Type 0
NoPercent [] = Unit {0}
NoPercent (c ∷ fmt) = ((c == b'%') ≡ false) × NoPercent fmt

round-plain :
    (room c : ℕ) (fmt : List ℕ) (args : List Arg)
    → (c == b'%') ≡ false
    → round room c fmt args ≡ some (record { out = c ∷ []; fmt = fmt; args = args })
unfolding round
round-plain room c fmt args plain = rw plain refl

-- A format without a `%` is copied up to the end of the buffer.
pub mgx_vslprintf-plain :
    (fuel room : ℕ) (fmt : List ℕ) (args : List Arg)
    → length fmt < fuel
    → NoPercent fmt
    → mgx_vslprintf fuel room fmt args ≡ wrote (take room fmt)
unfolding mgx_vslprintf
mgx_vslprintf-plain zero room fmt args h p = absurd (omega arith)
mgx_vslprintf-plain (suc fuel) zero [] args h p = refl
mgx_vslprintf-plain (suc fuel) (suc room) [] args h p = refl
mgx_vslprintf-plain (suc fuel) zero (c ∷ fmt) args h p = refl
mgx_vslprintf-plain (suc fuel) (suc room) (c ∷ fmt) args h (plain, p) =
    let left : suc room - 1 ≡ room = omega arith in
    let rest = mgx_vslprintf-plain fuel room fmt args (omega arith) p in
    rw (mgx_vslprintf, round-plain (suc room) c fmt args plain)
      (ap (λ n. after (c ∷ []) (mgx_vslprintf fuel n fmt args)) left ∙ ap (after (c ∷ [])) rest)
