-- ===== src/Printf.antt =====
-- Formatted printing into a buffer: app/mgx_printf.cpp. What is printed is the list of the bytes
-- written; `room` is `last - buf`. A format is its bytes without the NUL behind them. The target is
-- LP64: size_t, long, time_t and pointers have 64 bits, int 32, each given by its bits.
pub mod Format
pub mod Number
use Prim.Native.Nat.{bit_and}
use my_gx.Base.{
  ℕ, zero, suc, ◌+◌, ◌-◌, ◌*◌, ◌/◌, ◌%◌, ◌^◌, List, [], ◌∷◌, ◌++◌, Bool, true, false, not, Option,
  none, some, take, length, get_or, codes, ltb, leb, ◌==◌, ◌&&◌, ◌||◌, if◌then◌else◌,
}

-- MGX_INT64_LEN
abbrev pub int64_len : ℕ
int64_len = 20

-- The do loops that write digits downwards from the end of `temp`: what is given is the room left
-- in temp, the digit that a number ends with, the base, the number, and the digits so far.
unfoldable pub digits_loop : ℕ → (ℕ → ℕ) → ℕ → ℕ → List ℕ → List ℕ
digits_loop zero digit base n p = p
digits_loop (suc left) digit base n p =
    let rest = digits_loop left digit base (n / base) (digit n ∷ p) in
    if n / base == 0 then digit n ∷ p else rest

abbrev pub dec_digit : ℕ → ℕ
dec_digit n = n % 10 + b'0'

pub hex_digit : ℕ → ℕ
hex_digit n = get_or (codes "0123456789abcdef") (bit_and n 0xf) 0

pub hex_digit_upper : ℕ → ℕ
hex_digit_upper n = get_or (codes "0123456789ABCDEF") (bit_and n 0xf) 0

-- The digits of a number: the 32-bit and the 64-bit loop, and the two hexadecimal ones.
unfoldable pub number_digits : ℕ → ℕ → List ℕ
number_digits ui64 hexadecimal =
    if hexadecimal == 0
    then (if leb ui64 0xffff_ffff
        then digits_loop int64_len dec_digit 10 (ui64 % 2 ^ 32) []
        else digits_loop int64_len dec_digit 10 ui64 [])
    else if hexadecimal == 1
    then digits_loop int64_len hex_digit 16 ui64 []
    else digits_loop int64_len hex_digit_upper 16 ui64 []

-- `while (len++ < width && buf < last) *buf++ = zero;`
pub padding : ℕ → ℕ → ℕ → ℕ → List ℕ
padding zero len width fill = []
padding (suc room) len width fill =
    let rest = padding room (len + 1) width fill in if ltb len width then fill ∷ rest else []

pub mgx_sprintf_num : ℕ → ℕ → ℕ → ℕ → ℕ → List ℕ
mgx_sprintf_num room ui64 fill hexadecimal width =
    let p = number_digits ui64 hexadecimal in
    let pad = padding room (length p) width fill in
    let left = room - length pad in pad ++ take (if ltb left (length p) then left else length p) p

-- A double, by what the code computes from it: `f < 0`, `(int64_t)f` and, for a scale,
-- `(uint64_t)((f - (double)ui64) * scale + 0.5)`, both after its sign was taken off.
pub record Double : Type 0 where
  pub is_negative : Bool
  pub whole : ℕ
  pub scaled : ℕ → ℕ

-- The arguments; a text is given without the NUL behind it.
pub data Arg : Type 0 where
  int32 : ℕ → Arg
  int64 : ℕ → Arg
  real : Double → Arg
  text : List ℕ → Arg

-- The local variables that a conversion sets.
pub record Spec : Type 0 where
  pub fill : ℕ
  pub width : ℕ
  pub sign : Bool
  pub hex : ℕ
  pub frac_width : ℕ
  pub slen : ℕ

-- `(size_t)-1`
abbrev pub no_slen : ℕ
no_slen = 2 ^ 64 - 1

abbrev pub is_digit : ℕ → Bool
is_digit c = leb b'0' c && leb c b'9'

-- The loops that read a width; an uintptr_t wraps.
pub read_width : ℕ → List ℕ → ℕ × List ℕ
read_width width [] = (width, [])
read_width width (c ∷ fmt) =
    let rest = read_width ((width * 10 + (c - b'0')) % 2 ^ 64) fmt in
    if is_digit c then rest else (width, c ∷ fmt)

-- The flags `u`, `X` and `x`.
pub simple_flag : ℕ → Spec → Option Spec
simple_flag c sp =
    if c == b'u'
    then some (record sp { sign = false })
    else if c == b'X'
    then some (record sp { hex = 2; sign = false })
    else if c == b'x'
    then some (record sp { hex = 1; sign = false })
    else none

-- `slen = va_arg(args, size_t)`; `none` when there is no such argument, which C leaves undefined.
pub slen_arg : List Arg → Option (ℕ × List Arg)
slen_arg (int64 n ∷ args) = some (n, args)
slen_arg _ = none

-- The `for (;;)` loop over the flags.
pub read_flags : List ℕ → Spec → List Arg → Option (List ℕ × Spec × List Arg)
read_flags [] sp args = some ([], sp, args)
read_flags (c ∷ fmt) sp args = elim (simple_flag c sp) [
  | some sp' ↦ read_flags fmt sp' args
  | none ↦
      if c == b'.'
      then (let (width, rest) = read_width sp.frac_width fmt in
          some (rest, record sp { frac_width = width }, args))
      else (let star : Option (List ℕ × Spec × List Arg) = elim (slen_arg args) [
        | none ↦ none
        | some (n, args') ↦ read_flags fmt (record sp { slen = n }) args'
      ] in
          if c == b'*' then star else some (c ∷ fmt, sp, args))
]

-- A number to be printed, with its sign or without.
pub data Value : Type 0 where
  signed unsigned : ℕ → Value

-- `(int64_t)` of an int.
abbrev pub sign_extend : ℕ → ℕ
sign_extend v = if ltb v (2 ^ 31) then v else v + (2 ^ 64 - 2 ^ 32)

-- What a conversion of a number reads from its argument.
pub number_arg : ℕ → Bool → Arg → Option Value
number_arg c sign (int64 v) =
    if c == b'O' || c == b'T'
    then some (signed v)
    else if c == b'M'
    then some (if v == 2 ^ 64 - 1 then signed v else unsigned v)
    else if c == b'z' || c == b'l' || c == b'L'
    then some (if sign then signed v else unsigned v)
    else if c == b'p'
    then some (unsigned v)
    else none
number_arg c sign (int32 v) =
    if c == b'P'
    then some (signed (sign_extend v))
    else if c == b'i' || c == b'd' || c == b'D'
    then some (if sign then signed (sign_extend v) else unsigned v)
    else none
number_arg c sign _ = none

-- A negative number is one whose highest bit is set.
pub print_number : ℕ → Spec → Value → List ℕ
print_number room sp (unsigned v) = mgx_sprintf_num room v sp.fill sp.hex sp.width
print_number room sp (signed v) =
    if ltb v (2 ^ 63)
    then mgx_sprintf_num room v sp.fill sp.hex sp.width
    else b'-' ∷ mgx_sprintf_num (room - 1) (2 ^ 64 - v) sp.fill sp.hex sp.width
