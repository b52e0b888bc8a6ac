-- ===== src/File/Write.antt =====
-- src/FatLib/FatFile.cpp: `write`. The caller's bytes are the function from their positions, and not
-- the buffer of the cache.
pub mod Store
pub mod Wrote
pub mod Round
pub mod Enter
pub mod Chain
pub mod Step
pub mod Content
pub mod Start
pub mod Stores
pub mod Stored
pub mod Ends
pub mod ReadBack
use sd_fat.Base.{
  ℕ, zero, suc, ◌+◌, ◌-◌, true, not, ◌&&◌, ◌||◌, none, some, Method, done, fail, stuck, bind, ltb,
  leb, ◌==◌, if◌then◌else◌, u32, sub32, ◌<<<◌, ◌>>>◌,
}
use sd_fat.Endian.{Bytes}
use sd_fat.Device.{BlockDevice}
use sd_fat.Cache.{
  FsCache, Access, for_write, reserve_for_write, prepare, sync, cache_safe_write,
  cache_safe_write_range,
}
use sd_fat.Fat.{Geometry, eoc, next, fat_get}
use sd_fat.Fat.Layout.{IsGeometry}
use sd_fat.Alloc.{FatTable}
use sd_fat.Alloc.Mounted.{mounted_table}
use sd_fat.File.{
  FatFile, Handle, on_fat, set_file, on_failure, sector_of_cluster, cluster_start_sector, seek_set,
  add_cluster,
}
use sd_fat.File.Read.{min_size, memcpy, sectors_at, position_offset}
use sd_fat.File.Entry.{Clock, on_buffer}

module _ (B : BlockDevice) (g : Geometry) (hg : IsGeometry g) where
  open B use {Dev}

  abbrev pub vol_table : FatTable
  vol_table = mounted_table B g hg

  -- `m_curCluster` at the start of a cluster: the next one of the chain, or a new one.
  unfoldable pub write_cluster : Method (Handle (FsCache Dev)) (Unit {0})
  write_cluster h =
      let f = h.file in
      let follow = bind (on_fat (fat_get B g f.cur_cluster) h) (λ l q. elim l [
        | eoc ↦ add_cluster vol_table g q
        | next d ↦ done tt (set_file (λ f. record f { cur_cluster = d }) q)
      ]) in
      let first =
        bind (add_cluster vol_table g h)
          (λ _ q. done tt (set_file (λ f. record f { first_cluster = f.cur_cluster }) q)) in
      if not (f.cur_cluster == 0)
      then (if f.contiguous && ltb f.cur_position f.file_size
          then done tt (set_file (λ f. record f { cur_cluster = u32 (f.cur_cluster + 1) }) h)
          else follow)
      else if f.first_cluster == 0
      then first
      else done tt (set_file (λ f. record f { cur_cluster = f.first_cluster }) h)

  abbrev pub write_sector_number : FatFile → ℕ
  write_sector_number f =
      u32 (cluster_start_sector g f.cur_cluster + sector_of_cluster g f.cur_position)

  -- `cacheOption`.
  abbrev pub write_option : FatFile → Access
  write_option f =
      if position_offset B g f == 0 && (leb f.file_size f.cur_position || f.preallocated)
      then reserve_for_write
      else for_write

  -- The three ways in which a round stores bytes; the value is their number.
  unfoldable pub write_part : Bytes → ℕ → ℕ → Method (Handle (FsCache Dev)) ℕ
  write_part src at to_write h =
      let offset = position_offset B g h.file in
      let n = min_size to_write (512 - offset) in
      bind (on_fat (prepare B (write_sector_number h.file) (write_option h.file)) h) (λ _ q.
        let p = on_buffer B (λ b. memcpy b offset src at n) q in
        let full = bind (on_fat (sync B) p) (λ _. done n) in
        if n + offset == 512 then full else done n p)

  unfoldable pub write_many : Bytes → ℕ → ℕ → Method (Handle (FsCache Dev)) ℕ
  write_many src at to_write h =
      let ns =
        min_size (to_write >>> 9)
          (g.sectors_per_cluster - sector_of_cluster g h.file.cur_position) in
      bind (on_fat (cache_safe_write_range B (write_sector_number h.file) ns (sectors_at src at)) h)
        (λ _ q. done (ns <<< 9) q)

  unfoldable pub write_one : Bytes → ℕ → Method (Handle (FsCache Dev)) ℕ
  write_one src at h =
      bind (on_fat (cache_safe_write B (write_sector_number h.file) (sectors_at src at 0)) h)
        (λ _ q. done 512 q)

  unfoldable pub write_sectors : Bytes → ℕ → ℕ → Method (Handle (FsCache Dev)) ℕ
  unfolding write_part write_many write_one
  write_sectors src at to_write h =
      let part = write_part src at to_write h in
      let many = write_many src at to_write h in
      let one = write_one src at h in
      if not (position_offset B g h.file == 0) || ltb to_write 512
      then part
      else if leb 1024 to_write
      then many
      else one

  -- The loop, with rounds for fuel; `at` is how far `src` has moved.
  unfoldable pub write_rounds : ℕ → Bytes → ℕ → ℕ → Method (Handle (FsCache Dev)) (Unit {0})
  unfolding write_cluster write_sectors
  write_rounds zero src at to_write h = if to_write == 0 then done tt h else stuck
  write_rounds (suc fuel) src at to_write h =
      let enter = write_cluster h in
      let go =
        bind
          (if sector_of_cluster g h.file.cur_position == 0 && position_offset B g h.file == 0
            then enter
            else done tt h)
          (λ _ q. bind (write_sectors src at to_write q) (λ n p.
            write_rounds fuel src (at + n) (to_write - n)
              (set_file (λ f. record f { cur_position = u32 (f.cur_position + n) }) p))) in
      if to_write == 0 then done tt h else go

  -- The new size, and whether `sync` has to store the entry.
  abbrev pub written : Clock → FatFile → FatFile
  written clock f =
      if ltb f.file_size f.cur_position
      then record f { file_size = f.cur_position; dir_dirty = true }
      else elim clock [ none ↦ f | some t ↦ record f { dir_dirty = true } ]

  -- A failing call is the result 0.
  unfoldable pub write : Clock → Bytes → ℕ → Method (Handle (FsCache Dev)) ℕ
  unfolding write_rounds
  write clock src nbyte h =
      let seek = seek_set vol_table g h.file.file_size h in
      let store_all = λ (q : Handle (FsCache Dev)).
        bind (write_rounds nbyte src 0 nbyte q) (λ _ p. done nbyte (set_file (written clock) p)) in
      on_failure (set_file (λ f. record f { write_error = true })) (
        if not h.file.writable
        then fail h
        else bind (if h.file.append then seek else done tt h) (λ _ q.
          let all = store_all q in
          if ltb (sub32 0xFFFFFFFF q.file.cur_position) nbyte then fail q else all))
