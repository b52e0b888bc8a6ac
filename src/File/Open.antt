-- ===== src/File/Open.antt =====
-- src/FatLib/FatFile.cpp: opening a file from its directory entry in the cache, and the directories
-- that have no entry.
use sd_fat.Base.{
  ℕ, ◌+◌, Bool, true, false, not, ◌&&◌, ◌||◌, Method, done, fail, bind, ◌==◌, if◌then◌else◌,
  bit_and, bit_or,
}
use sd_fat.Endian.{Bytes, get_le32}
use sd_fat.Device.{BlockDevice}
use sd_fat.Cache.{FsCache}
use sd_fat.Fat.{Geometry}
use sd_fat.Fat.Layout.{IsGeometry}
use sd_fat.Alloc.{FatTable, free_chain}
use sd_fat.Alloc.Mounted.{mounted_table}
use sd_fat.File.{
  Kind, plain_file, sub_dir, root_fixed, root32, FatFile, Handle, on_volume, set_file, on_failure,
  is_open, seek_set,
}
use sd_fat.File.Entry.{
  blank, set_closed, entry_place, entry_cluster, is_fat_file_or_subdir, is_fat_file,
}

-- `oflag & O_ACCMODE`, and the other bits of `oflag` that are read here.
pub data AccessMode : Type 0 where
  read_only : AccessMode
  write_only : AccessMode
  read_write : AccessMode
  no_mode : AccessMode

pub record OpenFlags : Type 0 where
  pub mode : AccessMode
  pub truncates : Bool
  pub appends : Bool
  pub at_end : Bool

abbrev pub reads : AccessMode → Bool
reads read_only = true
reads write_only = false
reads read_write = true
reads no_mode = false

abbrev pub writes : AccessMode → Bool
writes read_only = false
writes write_only = true
writes read_write = true
writes no_mode = false

-- The members that the entry at place `i` and the flags decide; 0x27 is FS_ATTRIB_USER_SETTABLE and
-- 0x20 FS_ATTRIB_ARCHIVE.
abbrev pub opened : Bytes → ℕ → OpenFlags → ℕ → FatFile → FatFile
opened b i flags lfn_ord f =
    let bits = bit_and (b (i + 11)) 0x27 in
    record f {
      kind = if is_fat_file b i then plain_file else sub_dir;
      attrib = if writes flags.mode then bit_or bits 0x20 else bits;
      lfn_ord = lfn_ord;
      readable = reads flags.mode;
      writable = writes flags.mode;
      append = flags.appends;
    }

-- The flags that `openCachedEntry` does not accept for the entry at place `i`.
abbrev pub is_refused : Bytes → ℕ → OpenFlags → Bool
is_refused b i flags =
    not (reads flags.mode || writes flags.mode)
    || (not (writes flags.mode) && flags.truncates)
    || (writes flags.mode && (not (is_fat_file b i) || not (bit_and (b (i + 11)) 1 == 0)))

module _ (B : BlockDevice) (g : Geometry) (hg : IsGeometry g) where
  open B use {Dev}

  abbrev pub vol_table : FatTable
  vol_table = mounted_table B g hg

  -- The clusters of the file: kept, or freed for O_TRUNC.
  unfoldable pub open_clusters : Bool → ℕ → ℕ → Method (Handle (FsCache Dev)) (Unit {0})
  open_clusters truncates cluster size h =
      let free = on_volume (free_chain vol_table cluster) h in
      if truncates
      then bind (if cluster == 0 then done tt h else free)
          (λ _ q. done tt (set_file (λ f. record f { dir_dirty = true }) q))
      else done tt (set_file (λ f. record f { first_cluster = cluster; file_size = size }) h)

  -- `dir` is the directory that the entry with number `index` belongs to.
  unfoldable pub open_cached_entry :
      FatFile → ℕ → OpenFlags → ℕ → Method (Handle (FsCache Dev)) (Unit {0})
  unfolding open_clusters
  open_cached_entry dir index flags lfn_ord h =
      let b = h.vol.table.buffer in
      let i = entry_place index in
      let start = record h {
        file = record blank { dir_index = index; dir_cluster = dir.first_cluster };
      } in
      let ready =
        set_file (λ f. record (opened b i flags lfn_ord f) { dir_sector = h.vol.table.sector })
          start in
      let clusters =
        open_clusters flags.truncates (entry_cluster b i) (get_le32 b (i + 28)) ready in
      on_failure (set_file set_closed) (
        if not (is_fat_file_or_subdir b i)
        then fail start
        else if is_refused b i flags
        then fail (set_file (λ f. record f { lfn_ord = lfn_ord }) start)
        else bind clusters
            (λ _ q. if flags.at_end then seek_set vol_table g q.file.file_size q else done tt q))

module _ {S : Type 0} (g : Geometry) where
  unfoldable pub open_root : Method (Handle S) (Unit {0})
  open_root h =
      let root = λ (k : Kind). set_file (λ _. record blank { kind = k; readable = true }) h in
      if is_open h.file.kind
      then fail h
      else if g.fat_type == 12 || g.fat_type == 16
      then done tt (root root_fixed)
      else if g.fat_type == 32
      then done tt (root root32)
      else fail (set_file (λ _. blank) h)

  -- `file` is a file of the directory that is opened.
  unfoldable pub open_cluster : FatFile → Method (Handle S) (Unit {0})
  unfolding open_root
  open_cluster file h =
      if file.dir_cluster == 0
      then open_root h
      else done tt (
          set_file
            (λ _. record blank {
              kind = sub_dir;
              readable = true;
              first_cluster = file.dir_cluster;
            })
            h)
