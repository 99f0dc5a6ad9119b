-- ===== src/Printf/Format/Total.antt =====
-- Calls of mgx_vslprintf in app/mgx_printf.cpp that C does not leave undefined.
use my_gx.Base.{
  ap₂, subst, if_false, ℕ, zero, suc, ◌-◌, ◌≤◌, ◌<◌, List, [], ◌∷◌, false, Option, none, some,
  length, ◌==◌, ◌≡◌, ◌≢◌, refl, sym, ap, ◌∙◌,
}
use my_gx.Printf.{
  Double, Arg, int32, int64, real, text, read_width, read_flags, simple_flag, number_arg,
}
use my_gx.Printf.Format.{
  Round, Printed, wrote, undefined, out_of_fuel, after, round, conversion, convert, with_arg,
  print_arg, print_text, takes_arg, mgx_vslprintf,
}
use my_gx.Printf.Format.Bound.{Within, mgx_vslprintf-Within}

-- A format with the arguments that it wants: text, and the conversions `%s` of a text, `%d` of an int, `%P` of
-- a process,
-- `%l` of a long, `%c` of a character and `%f` of a double, without flags.
pub data Wants : List ℕ → List Arg → Type 0 where
  no_more : (args : List Arg) → Wants [] args
  plain :
      (c : ℕ) (fmt : List ℕ) (args : List Arg)
      → (c == b'%') ≡ false
      → Wants fmt args
      → Wants (c ∷ fmt) args
  string :
      (p fmt : List ℕ) (args : List Arg)
      → Wants fmt args
      → Wants (b'%' ∷ b's' ∷ fmt) (text p ∷ args)
  int :
      (v : ℕ) (fmt : List ℕ) (args : List Arg)
      → Wants fmt args
      → Wants (b'%' ∷ b'd' ∷ fmt) (int32 v ∷ args)
  long :
      (v : ℕ) (fmt : List ℕ) (args : List Arg)
      → Wants fmt args
      → Wants (b'%' ∷ b'l' ∷ fmt) (int64 v ∷ args)
  char :
      (v : ℕ) (fmt : List ℕ) (args : List Arg)
      → Wants fmt args
      → Wants (b'%' ∷ b'c' ∷ fmt) (int32 v ∷ args)
  pid :
      (v : ℕ) (fmt : List ℕ) (args : List Arg)
      → Wants fmt args
      → Wants (b'%' ∷ b'P' ∷ fmt) (int32 v ∷ args)
  float :
      (f : Double) (fmt : List ℕ) (args : List Arg)
      → Wants fmt args
      → Wants (b'%' ∷ b'f' ∷ fmt) (real f ∷ args)

-- A round that is defined, and leaves this format and these arguments.
abbrev Leaves : Option Round → List ℕ → List Arg → Type 0
Leaves o fmt args = (r : Round) × (o ≡ some r) × (r.fmt ≡ fmt) × (r.args ≡ args)

string-Leaves :
    (room : ℕ) (p : List ℕ) (fmt : List ℕ) (args : List Arg)
    → Leaves (round room b'%' (b's' ∷ fmt) (text p ∷ args)) fmt args
unfolding round conversion read_width read_flags convert with_arg print_arg print_text takes_arg
    simple_flag number_arg
string-Leaves room p fmt args = (_, refl, refl, refl)

int-Leaves :
    (room : ℕ) (v : ℕ) (fmt : List ℕ) (args : List Arg)
    → Leaves (round room b'%' (b'd' ∷ fmt) (int32 v ∷ args)) fmt args
unfolding round conversion read_width read_flags convert with_arg print_arg print_text takes_arg
    simple_flag number_arg
int-Leaves room v fmt args = (_, refl, refl, refl)

long-Leaves :
    (room : ℕ) (v : ℕ) (fmt : List ℕ) (args : List Arg)
    → Leaves (round room b'%' (b'l' ∷ fmt) (int64 v ∷ args)) fmt args
unfolding round conversion read_width read_flags convert with_arg print_arg print_text takes_arg
    simple_flag number_arg
long-Leaves room v fmt args = (_, refl, refl, refl)

char-Leaves :
    (room : ℕ) (v : ℕ) (fmt : List ℕ) (args : List Arg)
    → Leaves (round room b'%' (b'c' ∷ fmt) (int32 v ∷ args)) fmt args
unfolding round conversion read_width read_flags convert with_arg print_arg print_text takes_arg
    simple_flag number_arg
char-Leaves room v fmt args = (_, refl, refl, refl)

pid-Leaves :
    (room : ℕ) (v : ℕ) (fmt : List ℕ) (args : List Arg)
    → Leaves (round room b'%' (b'P' ∷ fmt) (int32 v ∷ args)) fmt args
unfolding round conversion read_width read_flags convert with_arg print_arg print_text takes_arg
    simple_flag number_arg
pid-Leaves room v fmt args = (_, refl, refl, refl)

float-Leaves :
    (room : ℕ) (f : Double) (fmt : List ℕ) (args : List Arg)
    → Leaves (round room b'%' (b'f' ∷ fmt) (real f ∷ args)) fmt args
unfolding round conversion read_width read_flags convert with_arg print_arg print_text takes_arg
    simple_flag number_arg
float-Leaves room f fmt args = (_, refl, refl, refl)

plain-Leaves :
    (room c : ℕ) (fmt : List ℕ) (args : List Arg)
    → (c == b'%') ≡ false
    → Leaves (round room c fmt args) fmt args
unfolding round
plain-Leaves room c fmt args e = (_, if_false (c == b'%') _ _ e, refl, refl)

after-defined : (out : List ℕ) (q : Printed) → q ≢ undefined → after out q ≢ undefined
after-defined out (wrote more) ne = λ e. cc
after-defined out undefined ne = absurd (ne refl)
after-defined out out_of_fuel ne = λ e. cc

-- After a round that is defined the rest decides.
abbrev continue : ℕ → ℕ → Option Round → Printed
continue fuel room o = elim o [
  | none ↦ undefined
  | some r ↦ after r.out (mgx_vslprintf fuel (suc room - length r.out) r.fmt r.args)
]

mgx_vslprintf-round :
    (fuel room c : ℕ) (fmt : List ℕ) (args : List Arg)
    → mgx_vslprintf (suc fuel) (suc room) (c ∷ fmt) args
      ≡ continue fuel room (round (suc room) c fmt args)
unfolding mgx_vslprintf
mgx_vslprintf-round fuel room c fmt args = refl

next :
    (fuel room c : ℕ) (front fmt : List ℕ) (args args' : List Arg)
    → Leaves (round (suc room) c front args) fmt args'
    → ((left : ℕ) → mgx_vslprintf fuel left fmt args' ≢ undefined)
    → mgx_vslprintf (suc fuel) (suc room) (c ∷ front) args ≢ undefined
next fuel room c front fmt args args' (r, reached, its_fmt, its_args) rest =
    let left = suc room - length r.out in
    let goes_on =
      mgx_vslprintf-round fuel room c front args
      ∙ ap (continue fuel room) reached
      ∙ ap₂ (λ (f : List ℕ) (l : List Arg). after r.out (mgx_vslprintf fuel left f l)) its_fmt
          its_args in
    subst (λ q. q ≢ undefined) (sym goes_on)
      (after-defined r.out (mgx_vslprintf fuel left fmt args') (rest left))

Wants-defined :
    (fuel room : ℕ) (fmt : List ℕ) (args : List Arg)
    → Wants fmt args
    → mgx_vslprintf fuel room fmt args ≢ undefined
unfolding mgx_vslprintf
Wants-defined zero room fmt args w = λ e. cc
Wants-defined (suc fuel) room _ args (no_more _) = λ e. cc
Wants-defined (suc fuel) zero _ args (plain c fmt _ e w) = λ e. cc
Wants-defined (suc fuel) (suc room) _ args (plain c fmt _ e w) =
    next fuel room c fmt fmt args args (plain-Leaves (suc room) c fmt args e)
      (λ left. Wants-defined fuel left fmt args w)
Wants-defined (suc fuel) zero _ _ (string p fmt args w) = λ e. cc
Wants-defined (suc fuel) (suc room) _ _ (string p fmt args w) =
    next fuel room b'%' (b's' ∷ fmt) fmt (text p ∷ args) args (string-Leaves (suc room) p fmt args)
      (λ left. Wants-defined fuel left fmt args w)
Wants-defined (suc fuel) zero _ _ (int v fmt args w) = λ e. cc
Wants-defined (suc fuel) (suc room) _ _ (int v fmt args w) =
    next fuel room b'%' (b'd' ∷ fmt) fmt (int32 v ∷ args) args (int-Leaves (suc room) v fmt args)
      (λ left. Wants-defined fuel left fmt args w)
Wants-defined (suc fuel) zero _ _ (long v fmt args w) = λ e. cc
Wants-defined (suc fuel) (suc room) _ _ (long v fmt args w) =
    next fuel room b'%' (b'l' ∷ fmt) fmt (int64 v ∷ args) args (long-Leaves (suc room) v fmt args)
      (λ left. Wants-defined fuel left fmt args w)
Wants-defined (suc fuel) zero _ _ (char v fmt args w) = λ e. cc
Wants-defined (suc fuel) (suc room) _ _ (char v fmt args w) =
    next fuel room b'%' (b'c' ∷ fmt) fmt (int32 v ∷ args) args (char-Leaves (suc room) v fmt args)
      (λ left. Wants-defined fuel left fmt args w)
Wants-defined (suc fuel) zero _ _ (pid v fmt args w) = λ e. cc
Wants-defined (suc fuel) (suc room) _ _ (pid v fmt args w) =
    next fuel room b'%' (b'P' ∷ fmt) fmt (int32 v ∷ args) args (pid-Leaves (suc room) v fmt args)
      (λ left. Wants-defined fuel left fmt args w)
Wants-defined (suc fuel) zero _ _ (float f fmt args w) = λ e. cc
Wants-defined (suc fuel) (suc room) _ _ (float f fmt args w) =
    next fuel room b'%' (b'f' ∷ fmt) fmt (real f ∷ args) args (float-Leaves (suc room) f fmt args)
      (λ left. Wants-defined fuel left fmt args w)

ended :
    (room : ℕ) (q : Printed)
    → Within room q
    → q ≢ undefined
    → (out : List ℕ) × (q ≡ wrote out) × (length out ≤ room)
ended room (wrote out) w ne = (out, refl, w)
ended room undefined w ne = absurd (ne refl)
ended room out_of_fuel w ne = absurd w

-- A format of text and of conversions `%s`, `%d`, `%P`, `%l`, `%c` and `%f` without flags, with the
-- arguments that they want: mgx_vslprintf ends, with fuel for each character and one more round, and
-- what it writes keeps to the buffer.
pub mgx_vslprintf-Wants :
    (fuel room : ℕ) (fmt : List ℕ) (args : List Arg)
    → Wants fmt args
    → length fmt < fuel
    → (out : List ℕ) × (mgx_vslprintf fuel room fmt args ≡ wrote out) × (length out ≤ room)
mgx_vslprintf-Wants fuel room fmt args w h =
    ended room (mgx_vslprintf fuel room fmt args) (mgx_vslprintf-Within fuel room fmt args h)
      (Wants-defined fuel room fmt args w)
