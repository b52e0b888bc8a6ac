-- ===== src/File/Read.antt =====
-- src/FatLib/FatFile.cpp: `readPrivate` with no `cache` argument, which is `read`. The caller's
-- buffer is the function from its positions to bytes, and not the buffer of the cache.
use sd_fat.Base.{
  ℕ, zero, suc, ◌+◌, ◌-◌, ◌*◌, ◌/◌, ◌%◌, Bool, true, false, not, ◌&&◌, ◌||◌, Method, done, fail,
  stuck, bind, ltb, leb, ◌==◌, if◌then◌else◌, u32, u16, sub32, sub16, ◌>>>◌, ◌<<<◌, bit_and,
}
use sd_fat.Endian.{Bytes}
use sd_fat.Device.{BlockDevice, Sectors}
use sd_fat.Cache.{FsCache, for_read, prepare, cache_safe_read, cache_safe_read_range}
use sd_fat.Fat.{Geometry, eoc, next, sector_mask, fat_get}
use sd_fat.File.{
  FatFile, Handle, on_fat, set_file, on_failure, is_file, is_dir, is_root32, is_root_fixed,
  dir_size, sector_of_cluster, cluster_start_sector,
}

abbrev pub min_size : ℕ → ℕ → ℕ
min_size a b = if ltb a b then a else b

-- `memcpy(dst + i, src + j, n)`.
abbrev pub memcpy : Bytes → ℕ → Bytes → ℕ → ℕ → Bytes
memcpy dst i src j n k = if leb i k && ltb k (i + n) then src (k - i + j) else dst k

-- The sectors of the caller's memory from position `i` on, and `n` bytes of sectors put there.
abbrev pub sectors_at : Bytes → ℕ → Sectors
sectors_at dst i s j = dst (i + 512 * s + j)

abbrev pub put_sectors_at : Bytes → ℕ → Sectors → ℕ → Bytes
put_sectors_at dst i src n k =
    if leb i k && ltb k (i + n) then src ((k - i) / 512) ((k - i) % 512) else dst k

module _ (B : BlockDevice) (g : Geometry) where
  open B use {Dev}

  -- `m_curCluster` at the start of a new cluster; `false` is the `break` at the end of a directory.
  unfoldable pub next_cluster : Method (Handle (FsCache Dev)) Bool
  next_cluster h =
      let f = h.file in
      let first = if is_root32 f.kind then g.root_dir_start else f.first_cluster in
      let go = bind (on_fat (fat_get B g f.cur_cluster) h) (λ l q. elim l [
        | eoc ↦ if is_dir f.kind then done false q else fail q
        | next d ↦ done true (set_file (λ f. record f { cur_cluster = d }) q)
      ]) in
      if f.cur_position == 0
      then done true (set_file (λ f. record f { cur_cluster = first }) h)
      else if is_file f.kind && f.contiguous
      then done true (set_file (λ f. record f { cur_cluster = u32 (f.cur_cluster + 1) }) h)
      else go

  -- The sector of the current position, which `next_cluster` has prepared.
  abbrev pub position_sector : FatFile → ℕ
  position_sector f =
      if is_root_fixed f.kind
      then u32 (g.root_dir_start + f.cur_position >>> 9)
      else u32 (cluster_start_sector g f.cur_cluster + sector_of_cluster g f.cur_position)

  abbrev pub position_offset : FatFile → ℕ
  position_offset f = bit_and f.cur_position sector_mask

  unfoldable pub enter_cluster : Method (Handle (FsCache Dev)) Bool
  unfolding next_cluster
  enter_cluster h =
      let f = h.file in
      let go = next_cluster h in
      if not (is_root_fixed f.kind)
        && position_offset f == 0
        && sector_of_cluster g f.cur_position == 0
      then go
      else done true h

  -- The three ways in which a round moves bytes: the memory after it, and the number of bytes.
  unfoldable pub read_part : Bytes → ℕ → ℕ → Method (Handle (FsCache Dev)) (Bytes × ℕ)
  read_part dst at to_read h =
      let offset = position_offset h.file in
      let n = min_size to_read (512 - offset) in
      bind (on_fat (prepare B (position_sector h.file) for_read) h)
        (λ _ q. done (memcpy dst at q.vol.table.buffer offset n, n) q)

  unfoldable pub read_many : Bytes → ℕ → ℕ → Method (Handle (FsCache Dev)) (Bytes × ℕ)
  read_many dst at to_read h =
      let all = to_read >>> 9 in
      let ns =
        if is_root_fixed h.file.kind
        then all
        else min_size all (g.sectors_per_cluster - sector_of_cluster g h.file.cur_position) in
      bind (on_fat (cache_safe_read_range B (position_sector h.file) ns (sectors_at dst at)) h)
        (λ b q. done (put_sectors_at dst at b (ns <<< 9), ns <<< 9) q)

  unfoldable pub read_one : Bytes → ℕ → Method (Handle (FsCache Dev)) (Bytes × ℕ)
  read_one dst at h =
      bind (on_fat (cache_safe_read B (position_sector h.file) (sectors_at dst at 0)) h)
        (λ b q. done (memcpy dst at b 0 512, 512) q)

  unfoldable pub read_sectors : Bytes → ℕ → ℕ → Method (Handle (FsCache Dev)) (Bytes × ℕ)
  unfolding read_part read_many read_one
  read_sectors dst at to_read h =
      let part = read_part dst at to_read h in
      let many = read_many dst at to_read h in
      let one = read_one dst at h in
      if not (position_offset h.file == 0)
        || ltb to_read 512
        || position_sector h.file == h.vol.table.sector
      then part
      else if leb 1024 to_read
      then many
      else one

  -- The loop, with rounds for fuel: the memory, and what is left of `toRead`.
  unfoldable pub read_rounds : ℕ → Bytes → ℕ → ℕ → Method (Handle (FsCache Dev)) (Bytes × ℕ)
  unfolding enter_cluster read_sectors
  read_rounds zero dst at to_read h = if to_read == 0 then done (dst, 0) h else stuck
  read_rounds (suc fuel) dst at to_read h =
      let go = bind (enter_cluster h) (λ more q. elim more [
        | false ↦ done (dst, to_read) q
        | true ↦ bind (read_sectors dst at to_read q) (λ r p.
            read_rounds fuel r.0 (at + r.1) (to_read - r.1)
              (set_file (λ f. record f { cur_position = u32 (f.cur_position + r.1) }) p))
      ]) in
      if to_read == 0 then done (dst, 0) h else go

  -- The number of bytes to read: cut to what is left of the file or the directory.
  abbrev pub read_limit : FatFile → ℕ → ℕ
  read_limit f nbyte =
      if is_file f.kind
      then min_size nbyte (sub32 f.file_size f.cur_position)
      else if is_root_fixed f.kind
      then min_size nbyte (sub16 (dir_size * g.root_dir_entry_count) (u16 f.cur_position))
      else nbyte

  -- The result is the memory and the number of bytes read; a failing call is -1.
  unfoldable pub read_private : Bytes → ℕ → Method (Handle (FsCache Dev)) (Bytes × ℕ)
  unfolding read_rounds
  read_private dst nbyte h =
      let n = read_limit h.file nbyte in
      on_failure (set_file (λ f. record f { read_error = true })) (
        if h.file.readable
        then bind (read_rounds n dst 0 n h) (λ r q. done (r.0, n - r.1) q)
        else fail h)
