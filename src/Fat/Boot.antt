-- ===== src/Fat/Boot.antt =====
-- src/common/FsStructs.h: the fields of the boot sector that `init` reads, by their offsets in pbs_t
-- and BpbFat32_t. A field for 16 bits that is 0 gives way to the one for 32 bits.
use sd_fat.Base.{ℕ, ◌==◌, if◌then◌else◌}
use sd_fat.Endian.{Bytes, get_le16, get_le32}

abbrev pub bytes_per_sector : Bytes → ℕ
bytes_per_sector b = get_le16 b 11

abbrev pub sectors_per_cluster : Bytes → ℕ
sectors_per_cluster b = b 13

abbrev pub reserved_sector_count : Bytes → ℕ
reserved_sector_count b = get_le16 b 14

abbrev pub fat_count : Bytes → ℕ
fat_count b = b 16

abbrev pub root_dir_entry_count : Bytes → ℕ
root_dir_entry_count b = get_le16 b 17

abbrev pub sectors_per_fat : Bytes → ℕ
sectors_per_fat b = if get_le16 b 22 == 0 then get_le32 b 36 else get_le16 b 22

abbrev pub total_sectors : Bytes → ℕ
total_sectors b = if get_le16 b 19 == 0 then get_le32 b 32 else get_le16 b 19

abbrev pub root_cluster : Bytes → ℕ
root_cluster b = get_le32 b 44
