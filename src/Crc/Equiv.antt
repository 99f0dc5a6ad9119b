-- ===== src/Crc/Equiv.antt =====
-- The table of misc/mgx_crc32.cpp against the bit-serial definition of the checksum.
use Prim.Native.Nat.{bit_xor}
use my_gx.Base.{
  ℕ, zero, suc, ◌+◌, ◌*◌, ◌/◌, ◌%◌, ◌^◌, ◌<◌, List, [], ◌∷◌, ◌++◌, ◌≡◌, refl, ap, sym, ◌∙◌, arith,
  get_or,
}
use my_gx.Base.Bits.{
  bit_xor_assoc, bit_xor-half, bit_xor-odd, bit_xor-zero, bit_and_byte, two_pow_suc-mul,
  bit_xor_fields, bit_xor-zero, drop_byte, bit_xor-drop_byte, bit_xor-lt-pow,
}
use my_gx.Crc.{
  shift_round, shift_rounds, fill_table, init_crc32_table, crc_byte, update_crc, get_crc32,
}

table_at : (left i k : ℕ) → k < left → get_or (fill_table left i) k 0 ≡ shift_rounds 8 (i + k)
unfolding fill_table
table_at zero i k h = absurd (omega arith)
table_at (suc left) i zero h = ap (shift_rounds 8) {x = i} {y = i + 0} (omega arith)
table_at (suc left) i (suc k) h =
    table_at left (i + 1) k (omega arith)
    ∙ ap (shift_rounds 8) {x = i + 1 + k} {y = i + suc k} (omega arith)

-- A round is linear in the digits above the lowest.
round-even : (y m : ℕ) → shift_round (bit_xor y (2 * m)) ≡ bit_xor (shift_round y) m
unfolding shift_round
round-even y m =
    ground
      (arith, bit_xor-half y (2 * m), bit_xor-odd y (2 * m), bit_xor_assoc 0xedb8_8320 (y / 2) m)

rounds-split : (j y m : ℕ) → shift_rounds j (bit_xor y (2 ^ j * m)) ≡ bit_xor (shift_rounds j y) m
unfolding shift_rounds
rounds-split zero y m = ap (bit_xor y) {x = 1 * m} {y = m} (omega arith)
rounds-split (suc j) y m =
    rw (two_pow_suc-mul j m, round-even y (2 ^ j * m)) (rounds-split j (shift_round y) m)

-- A number is its low byte and the digits above it, put together.
byte-split : (x : ℕ) → bit_xor (x % 256) (2 ^ 8 * (x / 256)) ≡ x
byte-split x = bit_xor_fields 8 (x % 256) (x / 256) (omega arith) ∙ omega arith

table_entry : (k : ℕ) → k < 256 → get_or init_crc32_table k 0 ≡ shift_rounds 8 k
unfolding init_crc32_table
table_entry k h = table_at 256 0 k h ∙ ap (shift_rounds 8) {x = 0 + k} {y = k} (omega arith)

rounds-byte : (x : ℕ) → shift_rounds 8 x ≡ bit_xor (shift_rounds 8 (x % 256)) (x / 256)
rounds-byte x = ap (shift_rounds 8) (sym (byte-split x)) ∙ rounds-split 8 (x % 256) (x / 256)

-- Shifting out the low byte undoes the exclusive or with a byte.
byte-out : (crc b : ℕ) → b < 256 → bit_xor crc b / 256 ≡ crc / 256
byte-out crc b h =
    let gone : drop_byte b ≡ 0 = omega arith in
    let shifted : bit_xor (drop_byte crc) (drop_byte b) ≡ drop_byte crc =
      rw gone (bit_xor-zero (drop_byte crc)) in
    omega (arith, bit_xor-drop_byte crc b, shifted)

-- The byte-wise table step is eight bit-serial rounds.
pub crc_byte-eq-rounds :
    (crc b : ℕ) → b < 256 → crc_byte init_crc32_table crc b ≡ shift_rounds 8 (bit_xor crc b)
unfolding crc_byte
crc_byte-eq-rounds crc b h =
    let x = bit_xor crc b in
    rw (bit_and_byte x, table_entry (x % 256) (omega arith), rounds-byte x, byte-out crc b h)

-- The textbook checksum: every byte is put into the low digits and shifted out in eight rounds.
unfoldable pub serial_crc : List ℕ → ℕ → ℕ
serial_crc [] crc = crc
serial_crc (b ∷ buf) crc = serial_crc buf (shift_rounds 8 (bit_xor crc b))

abbrev pub AreBytes : List ℕ → Type 0
AreBytes [] = Unit {0}
AreBytes (b ∷ buf) = (b < 256) × AreBytes buf

pub update_crc-eq-serial :
    (buf : List ℕ) (crc : ℕ)
    → AreBytes buf
    → update_crc init_crc32_table buf crc ≡ serial_crc buf crc
unfolding update_crc serial_crc
update_crc-eq-serial [] crc h = refl
update_crc-eq-serial (b ∷ buf) crc (hb, h) =
    rw (crc_byte-eq-rounds crc b hb) (update_crc-eq-serial buf (shift_rounds 8 (bit_xor crc b)) h)

-- On bytes, the table-driven get_crc32 is the bit-serial checksum with the reflected polynomial,
-- started at all ones.
pub get_crc32-eq-serial : (buf : List ℕ) → AreBytes buf → get_crc32 buf ≡ serial_crc buf 0xffff_ffff
unfolding get_crc32
get_crc32-eq-serial buf h = update_crc-eq-serial buf 0xffff_ffff h

pub round-lt : (c : ℕ) → c < 2 ^ 32 → shift_round c < 2 ^ 32
unfolding shift_round
round-lt c h = ground (arith, bit_xor-lt-pow 32 0xedb8_8320 (c / 2))

pub rounds-lt : (j c : ℕ) → c < 2 ^ 32 → shift_rounds j c < 2 ^ 32
unfolding shift_rounds
rounds-lt zero c h = h
rounds-lt (suc j) c h = rounds-lt j (shift_round c) (round-lt c h)

pub serial_crc-lt :
    (buf : List ℕ) (crc : ℕ) → AreBytes buf → crc < 2 ^ 32 → serial_crc buf crc < 2 ^ 32
unfolding serial_crc
serial_crc-lt [] crc h c = c
serial_crc-lt (b ∷ buf) crc (hb, h) c =
    serial_crc-lt buf _ h (rounds-lt 8 (bit_xor crc b) (bit_xor-lt-pow 32 crc b c (omega arith)))

-- A checksum of bytes fits an unsigned int.
pub get_crc32-lt : (buf : List ℕ) → AreBytes buf → get_crc32 buf < 2 ^ 32
get_crc32-lt buf h = rw (get_crc32-eq-serial buf h) (serial_crc-lt buf 0xffff_ffff h (omega arith))

-- A checksum can be computed piece by piece: the third argument of get_crc32 carries it on.
pub update_crc-append :
    (table xs ys : List ℕ) (crc : ℕ)
    → update_crc table (xs ++ ys) crc ≡ update_crc table ys (update_crc table xs crc)
unfolding update_crc
update_crc-append table [] ys crc = refl
update_crc-append table (x ∷ xs) ys crc = update_crc-append table xs ys (crc_byte table crc x)
