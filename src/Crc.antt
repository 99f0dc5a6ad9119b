-- ===== src/Crc.antt =====
-- The checksum of a package body: misc/mgx_crc32.cpp and include/mgx_crc32.h.
pub mod Equiv
pub mod Detect
mod Examples
use Prim.Native.Nat.{bit_xor, bit_and}
use my_gx.Base.{ℕ, zero, suc, ◌+◌, ◌/◌, ◌%◌, List, [], ◌∷◌, get_or, ◌==◌, if◌then◌else◌}

-- One round of the inner loop of init_crc32_table: `c & 1`, `c >> 1`, and the polynomial.
pub shift_round : ℕ → ℕ
shift_round c = if c % 2 == 1 then bit_xor 0xedb8_8320 (c / 2) else c / 2

-- `for (int j = 0; j < 8; j++)`: the first argument counts the rounds left.
pub shift_rounds : ℕ → ℕ → ℕ
shift_rounds zero c = c
shift_rounds (suc j) c = shift_rounds j (shift_round c)

-- `for (unsigned int i = 0; i < 256; i++)`: the rounds left, and `i`.
pub fill_table : ℕ → ℕ → List ℕ
fill_table zero i = []
fill_table (suc left) i = shift_rounds 8 i ∷ fill_table left (i + 1)

pub init_crc32_table : List ℕ
unfolding fill_table shift_rounds shift_round
init_crc32_table = fill_table 256 0

-- `crc32_table[(crc ^ buf[i]) & 0xff] ^ (crc >> 8)`; a masked index is below 256, so it is in range.
pub crc_byte : List ℕ → ℕ → ℕ → ℕ
crc_byte table crc b = bit_xor (get_or table (bit_and (bit_xor crc b) 0xff) 0) (crc / 256)

-- The loop of get_crc32, over the bytes of the buffer. It has no final complement.
pub update_crc : List ℕ → List ℕ → ℕ → ℕ
update_crc table [] crc = crc
update_crc table (b ∷ buf) crc = update_crc table buf (crc_byte table crc b)

-- get_crc32 with its default start value.
pub get_crc32 : List ℕ → ℕ
unfolding update_crc crc_byte init_crc32_table
get_crc32 buf = update_crc init_crc32_table buf 0xffff_ffff
