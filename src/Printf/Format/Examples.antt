-- ===== src/Printf/Format/Examples.antt =====
-- Tests and instances for app/mgx_printf.cpp.
use my_gx.Base.{
  ℕ, List, ◌≤◌, take, replicate, length, ◌++◌, ◌-◌, ◌^◌, [], ◌∷◌, codes, ◌≡◌, refl, arith,
}
use my_gx.Printf.{
  int32, int64, text, read_width, read_flags, simple_flag, slen_arg, number_arg, print_number,
  mgx_sprintf_num, number_digits, digits_loop, hex_digit, padding,
}
use my_gx.Printf.Number.{read_number, number_digits-read, mgx_sprintf_num-take}
use my_gx.Printf.Format.{
  print_text, number_spec, print_arg, takes_arg, plain_byte, with_arg, convert, conversion, round,
  wrote, undefined, mgx_vslprintf,
}
use my_gx.Printf.Format.Total.{plain, string, int, no_more, mgx_vslprintf-Wants}
use my_gx.Printf.Format.Bound.{Within, mgx_vslprintf-Within}

mixed :
    mgx_vslprintf 40 64
      (codes "recv %d of %05ui, %*s%%")
      (int32 (2 ^ 32 - 7) ∷ int32 42 ∷ int64 2 ∷ text (codes "mgx") ∷ [])
    ≡ wrote (codes "recv -7 of 00042, mg%")
unfolding mgx_vslprintf round conversion convert with_arg print_arg takes_arg plain_byte print_text
    number_spec read_width read_flags simple_flag slen_arg number_arg print_number mgx_sprintf_num
    number_digits digits_loop padding
mixed = refl

cut : mgx_vslprintf 40 5 (codes "0x%xi.") (int32 48879 ∷ []) ≡ wrote (codes "0xbee")
unfolding mgx_vslprintf round conversion convert with_arg print_arg takes_arg plain_byte print_text
    number_spec read_width read_flags simple_flag slen_arg number_arg print_number mgx_sprintf_num
    number_digits digits_loop padding hex_digit
cut = refl

ends_in_percent : mgx_vslprintf 40 5 (codes "ab%") [] ≡ undefined
unfolding mgx_vslprintf round conversion convert read_width read_flags
ends_in_percent = refl

number_digits-read_example : read_number 2 (number_digits 48879 2) ≡ 48879
number_digits-read_example = number_digits-read 48879 2 (omega arith)

mgx_vslprintf-Within_example :
    Within 5 (mgx_vslprintf 10 5 (codes "%08ui %s") (int32 42 ∷ text [] ∷ []))
mgx_vslprintf-Within_example =
    mgx_vslprintf-Within 10 5 (codes "%08ui %s") (int32 42 ∷ text [] ∷ []) (omega arith)

mgx_sprintf_num-take_example :
    mgx_sprintf_num 4 1234 b'0' 0 6
    ≡ take 4 (replicate (6 - length (number_digits 1234 0)) b'0' ++ number_digits 1234 0)
mgx_sprintf_num-take_example = mgx_sprintf_num-take 4 1234 b'0' 0 6

mgx_vslprintf-Wants_example :
    (out : List ℕ) × (mgx_vslprintf 7 10 (codes "a%s=%d") (text (codes "x") ∷ int32 5 ∷ [])
      ≡ wrote out)
    × (length out ≤ 10)
mgx_vslprintf-Wants_example =
    mgx_vslprintf-Wants 7 10 (codes "a%s=%d") (text (codes "x") ∷ int32 5 ∷ [])
      (plain b'a' _ _ refl (string (codes "x") _ _ (plain b'=' _ _ refl (int 5 _ _ (no_more [])))))
      (omega arith)
