-- ===== src/File/Entry.antt =====
-- src/FatLib/FatFile.cpp: the directory entry of a file, which `sync` stores and `openCachedEntry`
-- reads, with the offsets of DirFat_t in src/common/FsStructs.h. The callback for date and time is
-- the user's: its values, if there is one, are an argument.
use sd_fat.Base.{
  ℕ, ◌+◌, ◌*◌, Bool, true, false, not, ◌&&◌, ◌||◌, Option, none, some, Method, done, fail, stuck,
  bind, ◌==◌, if◌then◌else◌, u32, ◌<<<◌, ◌>>>◌, bit_and, bit_or,
}
use sd_fat.Endian.{Bytes, poke, get_le16, set_le16, set_le32}
use sd_fat.Device.{BlockDevice}
use sd_fat.Cache.{FsCache, Access, for_write, prepare, sync}
use sd_fat.Fat.{store}
use sd_fat.File.{
  closed, FatFile, Handle, on_fat, set_file, on_failure, is_open, is_file, is_sub_dir,
}

-- `FsDateTime::callback`: a date and a time.
abbrev pub Clock : Type 0
Clock = Option (ℕ × ℕ)

-- The place of a directory entry in its sector.
abbrev pub entry_place : ℕ → ℕ
entry_place index = 32 * bit_and index 0xF

-- `m_attributes & FS_ATTRIB_COPY`.
abbrev pub attributes : FatFile → ℕ
attributes f = bit_or f.attrib (if is_sub_dir f.kind then 0x10 else 0)

-- The first cluster of an entry.
abbrev pub entry_cluster : Bytes → ℕ → ℕ
entry_cluster b i = bit_or (u32 (get_le16 b (i + 20) <<< 16)) (get_le16 b (i + 26))

-- `isFatFileOrSubdir` and `isFatFile`.
abbrev pub is_fat_file_or_subdir : Bytes → ℕ → Bool
is_fat_file_or_subdir b i = bit_and (b (i + 11)) 0x08 == 0

abbrev pub is_fat_file : Bytes → ℕ → Bool
is_fat_file b i = bit_and (b (i + 11)) 0x18 == 0

abbrev pub put_clock : Clock → Bytes → ℕ → Bytes
put_clock none b i = b
put_clock (some (date, time)) b i =
    set_le16 (set_le16 (set_le16 b (i + 24) date) (i + 18) date) (i + 22) time

-- The members of the file, stored in the entry at place `i`.
unfoldable pub put_entry : Clock → FatFile → Bytes → ℕ → Bytes
put_entry clock f b i =
    let b = poke b (i + 11) (attributes f) in
    let b = if is_file f.kind then set_le32 b (i + 28) f.file_size else b in
    let b = set_le16 b (i + 26) (bit_and f.first_cluster 0xFFFF) in
    let b = set_le16 b (i + 20) (f.first_cluster >>> 16) in put_clock clock b i

-- The file that `memset` leaves, and the one that is closed.
abbrev pub blank : FatFile
blank = record {
  kind = closed;
  attrib = 0;
  write_error = false;
  read_error = false;
  readable = false;
  writable = false;
  append = false;
  preallocated = false;
  contiguous = false;
  dir_dirty = false;
  lfn_ord = 0;
  dir_index = 0;
  dir_cluster = 0;
  cur_cluster = 0;
  cur_position = 0;
  dir_sector = 0;
  file_size = 0;
  first_cluster = 0;
}

abbrev pub set_closed : FatFile → FatFile
set_closed f = record f {
  kind = closed;
  attrib = 0;
  readable = false;
  writable = false;
  append = false;
  preallocated = false;
  contiguous = false;
  dir_dirty = false;
}

module _ (B : BlockDevice) where
  open B use {Dev, sync_device}

  -- `cacheSync`.
  unfoldable pub cache_sync : Method (FsCache Dev) (Unit {0})
  cache_sync c = bind (sync B c) (λ _ t.
      let (ok, d) = sync_device t.device in
      if ok then done tt (record t { device = d }) else fail (record t { device = d }))

  -- The pointer that `cacheDirEntry` returns, as a place in the buffer.
  unfoldable pub cache_dir_entry : Access → Method (Handle (FsCache Dev)) ℕ
  cache_dir_entry a h =
      bind (on_fat (prepare B h.file.dir_sector a) h) (λ _ q. done (entry_place h.file.dir_index) q)

  abbrev pub on_buffer : (Bytes → Bytes) → Handle (FsCache Dev) → Handle (FsCache Dev)
  on_buffer f h = record h {
    vol = record (h.vol) { table = store (f h.vol.table.buffer) h.vol.table };
  }

  -- The part of `sync` under FILE_FLAG_DIR_DIRTY.
  unfoldable pub update_entry : Clock → Method (Handle (FsCache Dev)) (Unit {0})
  unfolding cache_dir_entry
  update_entry clock h = bind (cache_dir_entry for_write h) (λ i q.
      if q.vol.table.buffer i == 0xE5
      then fail q
      else done tt (
          set_file (λ f. record f { dir_dirty = false })
            (on_buffer (λ b. put_entry clock h.file b i) q)))

  unfoldable pub file_sync : Clock → Method (Handle (FsCache Dev)) (Unit {0})
  unfolding update_entry cache_sync
  file_sync clock h =
      let update = update_entry clock h in
      if not (is_open h.file.kind)
      then done tt h
      else on_failure (set_file (λ f. record f { write_error = true }))
          (bind (if h.file.dir_dirty then update else done tt h) (λ _. on_fat cache_sync))

  -- `close`, which closes the file also when `sync` fails.
  unfoldable pub close : Clock → Method (Handle (FsCache Dev)) (Unit {0})
  unfolding file_sync
  close clock h = elim (file_sync clock h) [
    | done a q ↦ done a (set_file set_closed q)
    | fail q ↦ fail (set_file set_closed q)
    | stuck ↦ stuck
  ]

  -- `attrib`; 0x27 is FS_ATTRIB_USER_SETTABLE and 1 FS_ATTRIB_READ_ONLY.
  unfoldable pub set_attrib : Clock → ℕ → Method (Handle (FsCache Dev)) (Unit {0})
  unfolding file_sync
  set_attrib clock bits h =
      if not (is_file h.file.kind || is_sub_dir h.file.kind) || not (bit_and bits 0x27 == bits)
      then fail h
      else if not (bit_and bits 1 == 0) && h.file.writable
      then fail h
      else file_sync clock (set_file (λ f. record f { attrib = bits; dir_dirty = true }) h)
