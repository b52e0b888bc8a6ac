-- ===== src/ExFat.antt =====
-- src/ExFatLib/ExFatPartition.h and ExFatPartition.cpp: an exFAT volume, its table and the chains in
-- it. The members that `init` sets for good are the Layout, m_bitmapStart and the cache are the state.
-- USE_EXFAT_BITMAP_CACHE = 0: one cache for all sectors, which are 512 bytes long.
pub mod Bitmap
pub mod Scan
pub mod State
pub mod Find
pub mod Found
pub mod Flip
pub mod Modify
pub mod Taken
pub mod Mount
pub mod Mounted
pub mod Chains
pub mod Count
pub mod Counted
mod Tests
use sd_fat.Base.{
  ℕ, zero, suc, ◌+◌, ◌-◌, ◌*◌, ◌/◌, ◌%◌, ◌^◌, Bool, true, false, ◌||◌, Outcome, Method, done, fail,
  stuck, bind, ltb, ◌==◌, if◌then◌else◌, u32, sub32, ◌<<<◌, ◌>>>◌, bit_and,
}
use sd_fat.Endian.{Bytes, get_le32, set_le32}
use sd_fat.Device.{BlockDevice}
use sd_fat.Cache.{FsCache, Access, for_read, for_write, prepare}
use sd_fat.Fat.{Link, eoc, next, store}

pub record Layout : Type 0 where
  pub fat_start_sector : ℕ
  pub fat_length : ℕ
  pub cluster_heap_start_sector : ℕ
  pub cluster_count : ℕ
  pub root_directory_cluster : ℕ
  pub sectors_per_cluster_shift : ℕ

pub record ExFatPartition (D : Type 0) : Type 0 where
  pub bitmap_start : ℕ
  pub cache : FsCache D

-- A call of the cache.
abbrev pub on_cache : {D A : Type 0} → Method (FsCache D) A → Method (ExFatPartition D) A
on_cache m p = elim (m p.cache) [
  | done a c ↦ done a (record p { cache = c })
  | fail c ↦ fail (record p { cache = c })
  | stuck ↦ stuck
]

-- Bytes of the buffer replaced.
abbrev pub on_buffer : {D : Type 0} → (Bytes → Bytes) → ExFatPartition D → ExFatPartition D
on_buffer f p = record p { cache = store (f p.cache.buffer) p.cache }

-- EXFAT_EOC.
abbrev pub exfat_eoc : ℕ
exfat_eoc = 0xFFFFFFFF

abbrev pub bytes_per_cluster_shift : Layout → ℕ
bytes_per_cluster_shift v = 9 + v.sectors_per_cluster_shift

-- `m_clusterMask`.
abbrev pub cluster_mask : Layout → ℕ
cluster_mask v = u32 (1 <<< bytes_per_cluster_shift v) - 1

abbrev pub cluster_start_sector : Layout → ℕ → ℕ
cluster_start_sector v cluster =
    u32 (v.cluster_heap_start_sector + u32 (sub32 cluster 2 <<< v.sectors_per_cluster_shift))

-- Where the entry of a cluster is.
abbrev pub entry_sector : Layout → ℕ → ℕ
entry_sector v cluster = u32 (v.fat_start_sector + cluster >>> 7)

abbrev pub entry_offset : ℕ → ℕ
entry_offset cluster = bit_and (u32 (cluster <<< 2)) 511

-- A position in a directory.
pub record DirPos : Type 0 where
  pub cluster : ℕ
  pub position : ℕ
  pub is_contiguous : Bool

module _ (B : BlockDevice) (v : Layout) where
  open B use {Dev}

  unfoldable pub fat_get : ℕ → Method (ExFatPartition Dev) Link
  fat_get cluster p =
      if ltb (u32 (v.cluster_count + 1)) cluster
      then fail p
      else bind (on_cache (prepare B (entry_sector v cluster) for_read) p) (λ _ q.
        let n = get_le32 q.cache.buffer (entry_offset cluster) in
        if n == exfat_eoc then done eoc q else done (next n) q)

  unfoldable pub fat_put : ℕ → ℕ → Method (ExFatPartition Dev) (Unit {0})
  fat_put cluster value p =
      if ltb cluster 2 || ltb (u32 (v.cluster_count + 1)) cluster
      then fail p
      else bind (on_cache (prepare B (entry_sector v cluster) for_write) p)
          (λ _ q. done tt (on_buffer (λ b. set_le32 b (entry_offset cluster) value) q))

  -- The loop of `chainSize`, with rounds for fuel. A failing `fatGet` is the value 0.
  unfoldable pub size_rounds : ℕ → ℕ → ℕ → ExFatPartition Dev → Outcome (ExFatPartition Dev) ℕ
  size_rounds zero n cluster p = stuck
  size_rounds (suc fuel) n cluster p = elim (fat_get cluster p) [
    | done l q ↦ elim l [ eoc ↦ done (u32 (n + 1)) q | next d ↦ size_rounds fuel (u32 (n + 1)) d q ]
    | fail q ↦ done 0 q
    | stuck ↦ stuck
  ]

  unfoldable pub chain_size : ℕ → Method (ExFatPartition Dev) ℕ
  unfolding size_rounds
  chain_size cluster = size_rounds (v.cluster_count + 3) 0 cluster

  unfoldable pub root_length : Method (ExFatPartition Dev) ℕ
  unfolding chain_size
  root_length p =
      bind (chain_size v.root_directory_cluster p)
        (λ n q. done (u32 (n <<< bytes_per_cluster_shift v)) q)

  -- The buffer position of a directory entry.
  unfoldable pub dir_cache : DirPos → Access → Method (ExFatPartition Dev) ℕ
  dir_cache pos options p =
      let sector =
        u32 (cluster_start_sector v pos.cluster + bit_and (cluster_mask v) pos.position >>> 9) in
      bind (on_cache (prepare B sector options) p) (λ _ q. done (bit_and pos.position 511) q)

  -- The loop of `dirSeek` over clusters.
  unfoldable pub seek_rounds : ℕ → DirPos → Method (ExFatPartition Dev) (Bool × DirPos)
  seek_rounds zero pos p = done (true, pos) p
  seek_rounds (suc n) pos p =
      let follow = bind (fat_get pos.cluster p) (λ l q. elim l [
        | eoc ↦ done (false, pos) q
        | next d ↦ seek_rounds n (record pos { cluster = d }) q
      ]) in
      let on = seek_rounds n (record pos { cluster = u32 (pos.cluster + 1) }) p in
      if pos.is_contiguous then on else follow

  -- The value is whether the chain goes as far, and the position after the call.
  unfoldable pub dir_seek : DirPos → ℕ → Method (ExFatPartition Dev) (Bool × DirPos)
  unfolding seek_rounds
  dir_seek pos offset =
      let tmp = u32 (bit_and (cluster_mask v) pos.position + offset) in
      seek_rounds (tmp >>> bytes_per_cluster_shift v)
        (record pos { position = u32 (pos.position + offset) })
