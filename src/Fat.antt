-- ===== src/Fat.antt =====
-- src/FatLib/FatPartition.h and FatPartition.cpp: the file allocation table of a FAT12, FAT16 or
-- FAT32 volume behind the sector cache. The members that `init` sets once are the record Geometry;
-- 512 bytes per sector, FAT12_SUPPORT = 1 and USE_SEPARATE_FAT_CACHE = 0.
pub mod Layout
pub mod Window
pub mod Stored
pub mod Wide
pub mod Fat12
pub mod Put12
pub mod Table
pub mod Ends
pub mod Boot
pub mod Mount
pub mod MountShift
pub mod Mounted
pub mod Example
mod Tests
use sd_fat.Base.{
  ℕ, ◌+◌, ◌-◌, ◌≤◌, ◌<◌, ◌%◌, ◌^◌, Bool, true, false, ◌||◌, Outcome, Method, ◌>>=◌, ◌>>◌, pure,
  failure, this, modify, done, fail, bind, bit_and, bit_or, ltb, ◌==◌, if◌then◌else◌, u8, u16, u32,
  ◌<<<◌, ◌>>>◌,
}
use sd_fat.Endian.{Bytes, poke, get_le16, get_le32, set_le16, set_le32}
use sd_fat.Device.{BlockDevice}
use sd_fat.Cache.{FsCache, Access, for_read, for_write, prepare}

pub record Geometry : Type 0 where
  pub fat_type : ℕ
  pub fat_count : ℕ
  pub sectors_per_cluster : ℕ
  pub sectors_per_cluster_shift : ℕ
  pub cluster_sector_mask : ℕ
  pub root_dir_entry_count : ℕ
  pub sectors_per_fat : ℕ
  pub fat_start_sector : ℕ
  pub data_start_sector : ℕ
  pub root_dir_start : ℕ
  pub last_cluster : ℕ

abbrev pub sector_mask : ℕ
sector_mask = 511

-- The return values 0 and 1 of `fatGet`; -1 is a failing call.
pub data Link : Type 0 where
  eoc : Link
  next : ℕ → Link

-- `isEOC` and the value that `fatGet` passes on.
abbrev pub link_of : Geometry → ℕ → Link
link_of g n = if ltb g.last_cluster n then eoc else next n

-- What `fatPutEOC` stores.
abbrev pub eoc_mark : ℕ
eoc_mark = 0x0FFFFFFF

abbrev pub store : {D : Type 0} → Bytes → FsCache D → FsCache D
store b c = record c { buffer = b }

-- The two bytes that `fatPut` stores for a FAT12 entry, made from those that are there.
abbrev pub low12 : ℕ → ℕ → ℕ → ℕ
low12 n v old = if bit_and n 1 == 0 then u8 v else u8 (bit_or (bit_and old 0xF) (u8 v <<< 4))

abbrev pub high12 : ℕ → ℕ → ℕ → ℕ
high12 n v old =
    if bit_and n 1 == 0 then u8 (bit_or (bit_and old 0xF0) (u8 (v >>> 4) >>> 4)) else u8 (v >>> 4)

module _ (B : BlockDevice) (g : Geometry) where
  open B use {Dev}

  unfoldable pub fat_cache_prepare : ℕ → Access → Method (FsCache Dev) (Unit {0})
  fat_cache_prepare s a = prepare B s (record a { mirror = a.mirror || g.fat_count == 2 })

  -- `Layout.Fat32`, `Layout.Fat16` and `Layout.Fat12` of the entry that each branch reads.
  unfoldable pub get32 : ℕ → Method (FsCache Dev) ℕ
  get32 n = do
    fat_cache_prepare (u32 (g.fat_start_sector + n >>> 7)) for_read
    c ← this
    pure (get_le32 c.buffer (bit_and (u32 (n <<< 2)) sector_mask))

  unfoldable pub get16 : ℕ → Method (FsCache Dev) ℕ
  get16 n = do
    let m = bit_and n 0xFFFF
    fat_cache_prepare (u32 (g.fat_start_sector + m >>> 8)) for_read
    c ← this
    pure (get_le16 c.buffer (bit_and (u32 (m <<< 1)) sector_mask))

  -- The second byte of a FAT12 entry, which may be the first one of the next sector.
  unfoldable pub second_byte : ℕ → ℕ → Access → Method (FsCache Dev) ℕ
  second_byte s index a c =
      if index + 1 == 512
      then bind (fat_cache_prepare (u32 (s + 1)) a c) (λ _. pure 0)
      else done (index + 1) c

  unfoldable pub get12 : ℕ → Method (FsCache Dev) ℕ
  unfolding second_byte
  get12 n = do
    let index = u16 (u16 n + u16 n >>> 1)
    let s = u32 (g.fat_start_sector + index >>> 9)
    fat_cache_prepare s for_read
    c ← this
    let i = bit_and index sector_mask
    let low = c.buffer i
    j ← second_byte s i for_read
    c ← this
    let tmp = bit_or low (u16 (c.buffer j <<< 8))
    pure (if bit_and n 1 == 0 then bit_and tmp 0xFFF else tmp >>> 4)

  unfoldable pub get_raw : ℕ → Method (FsCache Dev) ℕ
  get_raw n =
      if g.fat_type == 32
      then get32 n
      else if g.fat_type == 16
      then get16 n
      else if g.fat_type == 12
      then get12 n
      else failure

  unfoldable pub fat_get : ℕ → Method (FsCache Dev) Link
  unfolding get_raw
  fat_get n c =
      if ltb n 2 || ltb g.last_cluster n
      then fail c
      else bind (get_raw n c) (λ v. pure (link_of g v))

  unfoldable pub put32 : ℕ → ℕ → Method (FsCache Dev) (Unit {0})
  put32 n v = do
    fat_cache_prepare (u32 (g.fat_start_sector + n >>> 7)) for_write
    modify (λ c. store (set_le32 c.buffer (bit_and (u32 (n <<< 2)) sector_mask) v) c)

  unfoldable pub put16 : ℕ → ℕ → Method (FsCache Dev) (Unit {0})
  put16 n v = do
    let m = bit_and n 0xFFFF
    fat_cache_prepare (u32 (g.fat_start_sector + m >>> 8)) for_write
    modify (λ c. store (set_le16 c.buffer (bit_and (u32 (m <<< 1)) sector_mask) v) c)

  unfoldable pub put12 : ℕ → ℕ → Method (FsCache Dev) (Unit {0})
  unfolding second_byte
  put12 n v = do
    let index = u16 (u16 n + u16 n >>> 1)
    let s = u32 (g.fat_start_sector + index >>> 9)
    fat_cache_prepare s for_write
    let i = bit_and index sector_mask
    modify (λ c. store (poke c.buffer i (low12 n v (c.buffer i))) c)
    j ← second_byte s i for_write
    modify (λ c. store (poke c.buffer j (high12 n v (c.buffer j))) c)

  unfoldable pub put_raw : ℕ → ℕ → Method (FsCache Dev) (Unit {0})
  put_raw n v =
      if g.fat_type == 32
      then put32 n v
      else if g.fat_type == 16
      then put16 n v
      else if g.fat_type == 12
      then put12 n v
      else failure

  unfoldable pub fat_put : ℕ → ℕ → Method (FsCache Dev) (Unit {0})
  unfolding put_raw
  fat_put n v c = if ltb n 2 || ltb g.last_cluster n then fail c else put_raw n v c
