-- ===== src/Endian/Tests.antt =====
-- Runs of the little-endian fields on a row of zeros.
use sd_fat.Base.{◌/◌, ◌%◌, ◌^◌, ◌≡◌, ◌↔◌, arith}
use sd_fat.Endian.{Bytes, get_le64, set_le64}
use sd_fat.Endian.Laws.{get_le64-set_le64_iff}

abbrev zeros : Bytes
zeros _ = 0

-- A value that does not come back.
get_le64-set_le64_iff_example :
    (get_le64 (set_le64 zeros 0 (2 ^ 48)) 0 ≡ 2 ^ 48) ↔ (2 ^ 48 / 2 ^ 48 % 256 ≡ 0)
get_le64-set_le64_iff_example = get_le64-set_le64_iff zeros 0 (2 ^ 48) (omega arith)
