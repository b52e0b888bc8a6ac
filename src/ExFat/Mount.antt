-- ===== src/ExFat/Mount.antt =====
-- src/ExFatLib/ExFatPartition.cpp: `init`. What it reads of the volume is its value, a Layout; the
-- fields of the boot sector are at their offsets in ExFatPbs_t of src/common/FsStructs.h.
use sd_fat.Base.{
  ℕ, ◌+◌, Bool, not, ◌&&◌, ◌||◌, Method, done, fail, stuck, bind, ltb, ◌==◌, if◌then◌else◌, u32,
}
use sd_fat.Endian.{Bytes, get_le32}
use sd_fat.Device.{BlockDevice}
use sd_fat.Cache.{for_read, init, prepare}
use sd_fat.Fat.Mount.{partition_entry}
use sd_fat.ExFat.{Layout, ExFatPartition, on_cache}
use sd_fat.ExFat.Bitmap.{bitmap_find}

-- The name in the boot sector begins with "EXFAT", and its sectors are 512 bytes long.
abbrev pub is_exfat : Bytes → Bool
is_exfat b = b 3 == 0x45 && b 4 == 0x58 && b 5 == 0x46 && b 6 == 0x41 && b 7 == 0x54 && b 108 == 9

abbrev pub layout_of : ℕ → Bytes → Layout
layout_of s b = record {
  fat_start_sector = u32 (s + get_le32 b 80);
  fat_length = get_le32 b 84;
  cluster_heap_start_sector = u32 (s + get_le32 b 88);
  cluster_count = get_le32 b 92;
  root_directory_cluster = get_le32 b 96;
  sectors_per_cluster_shift = b 109;
}

module _ (B : BlockDevice) where
  open B use {Dev}

  -- The start sector: the argument, or the one of an entry of the partition table.
  unfoldable pub part_start : ℕ → ℕ → Method (ExFatPartition Dev) ℕ
  part_start part start p =
      let mp = partition_entry part in
      if part == 0
      then done start p
      else if ltb 4 part
      then fail p
      else bind (on_cache (prepare B 0 for_read) p) (λ _ q.
        let b = q.cache.buffer in
        if b (mp + 4) == 0 || (not (b mp == 0) && not (b mp == 0x80))
        then fail q
        else done (get_le32 b (mp + 8)) q)

  -- The search for the first free cluster; what it returns is not looked at.
  unfoldable pub first_search : Layout → Method (ExFatPartition Dev) Layout
  first_search v p = elim (bitmap_find B v 0 1 (record p { bitmap_start = 0 })) [
    | done _ q ↦ done v q
    | fail q ↦ done v q
    | stuck ↦ stuck
  ]

  unfoldable pub read_layout : ℕ → Method (ExFatPartition Dev) Layout
  unfolding first_search
  read_layout s p = bind (on_cache (prepare B s for_read) p) (λ _ q.
      let search = first_search (layout_of s q.cache.buffer) q in
      if is_exfat q.cache.buffer then search else fail q)

  unfoldable pub mount_exfat : Bool → Dev → ℕ → ℕ → Method (ExFatPartition Dev) Layout
  unfolding part_start read_layout
  mount_exfat attached dev part start p =
      bind (part_start part start (record p { cache = init p.cache attached dev })) read_layout
