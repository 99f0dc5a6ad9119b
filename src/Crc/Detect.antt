-- ===== src/Crc/Detect.antt =====
-- What the checksum of misc/mgx_crc32.cpp detects.
use Prim.Native.Nat.{bit_xor}
use my_gx.Base.{
  ℕ, zero, suc, ◌*◌, ◌/◌, ◌^◌, ◌≤◌, ◌<◌, List, [], ◌∷◌, ◌++◌, ◌≡◌, ◌≢◌, refl, ap, sym, ◌∙◌, arith,
}
use my_gx.Base.Bits.{
  bit_xor_fields, bit_xor_assoc, bit_xor_comm, bit_xor-lt-pow, bit_xor_left_injective,
  bit_xor_right_injective,
}
use my_gx.Crc.{shift_round, shift_rounds, get_crc32}
use my_gx.Crc.Equiv.{AreBytes, serial_crc, serial_crc-lt, round-lt, rounds-lt, get_crc32-eq-serial}

-- The polynomial has the top bit, so a round that applied it shows.
poly-top : (m : ℕ) → m < 2 ^ 31 → 2 ^ 31 ≤ bit_xor 0xedb8_8320 m
poly-top m h =
    let low = bit_xor 0x6db8_8320 m in
    let low_lt : low < 2 ^ 31 = bit_xor-lt-pow 31 0x6db8_8320 m (omega arith) h in
    let split : bit_xor low (2 ^ 31 * 1) ≡ bit_xor 0xedb8_8320 m =
      bit_xor_assoc 0x6db8_8320 m (2 ^ 31 * 1)
      ∙ ap (bit_xor 0x6db8_8320) (bit_xor_comm m (2 ^ 31 * 1))
      ∙ sym (bit_xor_assoc 0x6db8_8320 (2 ^ 31 * 1) m) in
    omega (arith, bit_xor_fields 31 low 1 low_lt, split)

round-injective : (c d : ℕ) → c < 2 ^ 32 → d < 2 ^ 32 → shift_round c ≡ shift_round d → c ≡ d
unfolding shift_round
round-injective c d hc hd e =
    ground (
      arith,
      poly-top (c / 2),
      poly-top (d / 2),
      bit_xor_left_injective 0xedb8_8320 (c / 2) (d / 2),
    )

rounds-injective :
    (j c d : ℕ) → c < 2 ^ 32 → d < 2 ^ 32 → shift_rounds j c ≡ shift_rounds j d → c ≡ d
unfolding shift_rounds
rounds-injective zero c d hc hd e = e
rounds-injective (suc j) c d hc hd e =
    round-injective c d hc hd
      (rounds-injective j (shift_round c) (shift_round d) (round-lt c hc) (round-lt d hd) e)

-- The rest of a text keeps two checksums apart.
serial_crc-injective :
    (buf : List ℕ) (c d : ℕ)
    → AreBytes buf
    → c < 2 ^ 32
    → d < 2 ^ 32
    → serial_crc buf c ≡ serial_crc buf d
    → c ≡ d
unfolding serial_crc
serial_crc-injective [] c d h hc hd e = e
serial_crc-injective (b ∷ buf) c d (hb, h) hc hd e =
    let xc : bit_xor c b < 2 ^ 32 = bit_xor-lt-pow 32 c b hc (omega arith) in
    let xd : bit_xor d b < 2 ^ 32 = bit_xor-lt-pow 32 d b hd (omega arith) in
    let same = serial_crc-injective buf _ _ h (rounds-lt 8 _ xc) (rounds-lt 8 _ xd) e in
    bit_xor_right_injective b c d (rounds-injective 8 _ _ xc xd same)

AreBytes-append : (xs ys : List ℕ) → AreBytes xs → AreBytes ys → AreBytes (xs ++ ys)
AreBytes-append [] ys hx hy = hy
AreBytes-append (x ∷ xs) ys (h, hx) hy = (h, AreBytes-append xs ys hx hy)

serial_crc-append :
    (xs ys : List ℕ) (crc : ℕ) → serial_crc (xs ++ ys) crc ≡ serial_crc ys (serial_crc xs crc)
unfolding serial_crc
serial_crc-append [] ys crc = refl
serial_crc-append (x ∷ xs) ys crc = serial_crc-append xs ys (shift_rounds 8 (bit_xor crc x))

-- Two bodies of bytes that differ in exactly one byte, at any place, have different checksums.
pub get_crc32_detects :
    (xs ys : List ℕ) (b c : ℕ)
    → AreBytes xs
    → AreBytes ys
    → b < 256
    → c < 256
    → b ≢ c
    → get_crc32 (xs ++ b ∷ ys) ≢ get_crc32 (xs ++ c ∷ ys)
unfolding serial_crc
get_crc32_detects xs ys b c hx hy hb hc ne e = ne (bit_xor_left_injective start b c same_byte)
  where
    start : ℕ
    start = serial_crc xs 0xffff_ffff

    start_lt : start < 2 ^ 32
    start_lt = serial_crc-lt xs 0xffff_ffff hx (omega arith)

    after_lt : (x : ℕ) → x < 256 → bit_xor start x < 2 ^ 32
    after_lt x h = bit_xor-lt-pow 32 start x start_lt (omega arith)

    at : (x : ℕ) → x < 256 → get_crc32 (xs ++ x ∷ ys) ≡ serial_crc (x ∷ ys) start
    at x h =
        get_crc32-eq-serial (xs ++ x ∷ ys) (AreBytes-append xs (x ∷ ys) hx (h, hy))
        ∙ serial_crc-append xs (x ∷ ys) 0xffff_ffff

    same_byte : bit_xor start b ≡ bit_xor start c
    same_byte = rounds-injective 8 _ _ (after_lt b hb) (after_lt c hc) (
        serial_crc-injective ys _ _ hy (rounds-lt 8 _ (after_lt b hb))
          (rounds-lt 8 _ (after_lt c hc)) (sym (at b hb) ∙ e ∙ at c hc))
