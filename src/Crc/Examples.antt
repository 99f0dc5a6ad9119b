-- ===== src/Crc/Examples.antt =====
-- Tests and instances for the checksum of misc/mgx_crc32.cpp.
use my_gx.Base.{ℕ, List, [], ◌∷◌, ◌++◌, ◌≡◌, ◌≢◌, refl, codes, arith}
use my_gx.Crc.{
  get_crc32, update_crc, crc_byte, init_crc32_table, fill_table, shift_rounds, shift_round,
}
use my_gx.Crc.Equiv.{AreBytes, serial_crc, get_crc32-eq-serial}
use my_gx.Crc.Detect.{get_crc32_detects}

abbrev ping : List ℕ
ping = 8 ∷ 0 ∷ 255 ∷ []

abbrev ping-AreBytes : AreBytes ping
ping-AreBytes = (omega arith, (omega arith, (omega arith, tt)))

check_value : get_crc32 (codes "123456789") ≡ 0x340b_c6d9
unfolding get_crc32 update_crc crc_byte init_crc32_table fill_table shift_rounds shift_round
check_value = refl

table_entry_1 : shift_rounds 8 1 ≡ 0x7707_3096
unfolding shift_rounds shift_round
table_entry_1 = refl

get_crc32-eq-serial_example : get_crc32 ping ≡ serial_crc ping 0xffff_ffff
get_crc32-eq-serial_example = get_crc32-eq-serial ping ping-AreBytes

get_crc32_detects_example : get_crc32 (ping ++ 1 ∷ ping) ≢ get_crc32 (ping ++ 129 ∷ ping)
get_crc32_detects_example =
    get_crc32_detects ping ping 1 129 ping-AreBytes ping-AreBytes (omega arith) (omega arith)
      (omega arith)
