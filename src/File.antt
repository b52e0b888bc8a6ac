-- ===== src/File.antt =====
-- src/FatLib/FatFile.h and FatFile.cpp: an open file of a FAT volume. The FILE_ATTR bits of
-- `m_attributes` are a Kind, the bits that a user sets are `attrib`, and the bits of `m_flags` and
-- `m_error` are Booleans. A method works on a handle: the members of the file, and the volume
-- that `m_vol` points to. USE_FAT_FILE_FLAG_CONTIGUOUS = 1 and USE_MULTI_SECTOR_IO = 1.
pub mod Read
pub mod Sectors
pub mod Place
pub mod Cluster
pub mod Calls
pub mod Follow
pub mod Enter
pub mod Visible
pub mod Distinct
pub mod Round
pub mod Content
pub mod ReadEnds
pub mod ReadFault
pub mod Seek
pub mod SeekEnds
pub mod SeekRead
pub mod Mounted
pub mod Entry
pub mod Open
pub mod Reopened
pub mod Write
pub mod Chains
pub mod Truncate
pub mod TruncateRest
pub mod Truncated
pub mod Rows
pub mod DirCluster
mod Example
mod Tests
mod OpenTests
mod WriteTests
use sd_fat.Base.{
  ℕ, zero, suc, ◌+◌, ◌-◌, ◌*◌, ◌/◌, ◌%◌, ◌≤◌, ◌<◌, ◌≡◌, ◌^◌, Bool, true, false, not, ◌&&◌, ◌||◌,
  Outcome, Method, ◌>>=◌, ◌>>◌, pure, failure, this, modify, done, fail, stuck, bind, ltb, leb,
  ◌==◌, if◌then◌else◌, u32, sub32, ◌>>>◌, ◌<<<◌, bit_and,
}
use sd_fat.Fat.{Geometry, Link, eoc, next}
use sd_fat.Alloc.{FatTable, Partition, on_table, allocate_cluster}

pub data Kind : Type 0 where
  closed : Kind
  plain_file : Kind
  sub_dir : Kind
  root_fixed : Kind
  root32 : Kind

pub record FatFile : Type 0 where
  pub kind : Kind
  pub attrib : ℕ
  pub write_error : Bool
  pub read_error : Bool
  pub readable : Bool
  pub writable : Bool
  pub append : Bool
  pub preallocated : Bool
  pub contiguous : Bool
  pub dir_dirty : Bool
  pub lfn_ord : ℕ
  pub dir_index : ℕ
  pub dir_cluster : ℕ
  pub cur_cluster : ℕ
  pub cur_position : ℕ
  pub dir_sector : ℕ
  pub file_size : ℕ
  pub first_cluster : ℕ

abbrev pub is_open : Kind → Bool
is_open closed = false
is_open plain_file = true
is_open sub_dir = true
is_open root_fixed = true
is_open root32 = true

abbrev pub is_file : Kind → Bool
is_file closed = false
is_file plain_file = true
is_file sub_dir = false
is_file root_fixed = false
is_file root32 = false

abbrev pub is_sub_dir : Kind → Bool
is_sub_dir closed = false
is_sub_dir plain_file = false
is_sub_dir sub_dir = true
is_sub_dir root_fixed = false
is_sub_dir root32 = false

abbrev pub is_root_fixed : Kind → Bool
is_root_fixed closed = false
is_root_fixed plain_file = false
is_root_fixed sub_dir = false
is_root_fixed root_fixed = true
is_root_fixed root32 = false

abbrev pub is_root32 : Kind → Bool
is_root32 closed = false
is_root32 plain_file = false
is_root32 sub_dir = false
is_root32 root_fixed = false
is_root32 root32 = true

abbrev pub is_dir : Kind → Bool
is_dir k = is_sub_dir k || is_root_fixed k || is_root32 k

abbrev pub dir_size : ℕ
dir_size = 32

pub record Handle (S : Type 0) : Type 0 where
  pub file : FatFile
  pub vol : Partition S

-- A call on the volume, and one on the table of the volume alone.
abbrev pub on_volume : {S A : Type 0} → Method (Partition S) A → Method (Handle S) A
on_volume m h = elim (m h.vol) [
  | done a p ↦ done a (record h { vol = p })
  | fail p ↦ fail (record h { vol = p })
  | stuck ↦ stuck
]

abbrev pub on_fat : {S A : Type 0} → Method S A → Method (Handle S) A
on_fat m = on_volume (on_table m)

-- An assignment to members of the file.
abbrev pub set_file : {S : Type 0} → (FatFile → FatFile) → Handle S → Handle S
set_file f h = record h { file = f h.file }

-- A call whose failure leaves another object than the call that fails inside it.
abbrev pub on_failure : {S A : Type 0} → (S → S) → Outcome S A → Outcome S A
on_failure f (done a s) = done a s
on_failure f (fail s) = fail (f s)
on_failure f stuck = stuck

abbrev pub bytes_per_cluster_shift : Geometry → ℕ
bytes_per_cluster_shift g = g.sectors_per_cluster_shift + 9

abbrev pub sector_of_cluster : Geometry → ℕ → ℕ
sector_of_cluster g position = bit_and (position >>> 9) g.cluster_sector_mask

abbrev pub cluster_start_sector : Geometry → ℕ → ℕ
cluster_start_sector g cluster =
    u32 (g.data_start_sector + sub32 cluster 2 <<< g.sectors_per_cluster_shift)

module _ (T : FatTable) (g : Geometry) where
  open T use {State, get}

  -- The loop of `seekSet`: `n` links from cluster `c` on.
  unfoldable pub walk : ℕ → ℕ → Method State ℕ
  walk zero c s = done c s
  walk (suc n) c s = bind (get c s) (λ l t. elim l [ eoc ↦ fail t | next d ↦ walk n d t ])

  -- The label `done` of `seekSet`, with the cluster of the new position.
  abbrev pub seek_done : ℕ → ℕ → Method (Handle State) (Unit {0})
  seek_done pos c =
      modify
        (set_file (λ f. record f { cur_cluster = c; cur_position = pos; preallocated = false }))

  -- The part of `seekSet` that follows the chain, to the cluster with number `new` of the file.
  unfoldable pub seek_chain : ℕ → ℕ → Method (Handle State) (Unit {0})
  unfolding walk
  seek_chain pos new h =
      let f = h.file in
      let cur = sub32 f.cur_position 1 >>> bytes_per_cluster_shift g in
      let first = if is_root32 f.kind then g.root_dir_start else f.first_cluster in
      let back = ltb new cur || f.cur_position == 0 in
      let start = if back then first else f.cur_cluster in
      let rounds = if back then new else new - cur in
      bind (on_fat (walk rounds start) h) (seek_done pos)

  unfoldable pub seek_set : ℕ → Method (Handle State) (Unit {0})
  unfolding seek_chain
  seek_set pos h =
      let f = h.file in
      let new = (pos - 1) >>> bytes_per_cluster_shift g in
      if not (is_open f.kind)
      then fail h
      else if pos == f.cur_position
      then done tt h
      else if pos == 0
      then seek_done pos 0 h
      else if is_file f.kind && ltb f.file_size pos
      then fail h
      else if is_root_fixed f.kind
      then (if leb pos (dir_size * g.root_dir_entry_count)
          then seek_done pos f.cur_cluster h
          else fail h)
      else if f.contiguous
      then seek_done pos (u32 (f.first_cluster + new)) h
      else seek_chain pos new h

  -- `rewind`.
  unfoldable pub rewind : Method (Handle State) (Unit {0})
  rewind = seek_set 0

  unfoldable pub add_cluster : Method (Handle State) (Unit {0})
  add_cluster h =
      let cc = h.file.cur_cluster in
      bind (on_volume (allocate_cluster T cc) h) (λ n q. done tt (
        set_file
          (λ f. record f {
            cur_cluster = n;
            dir_dirty = true;
            contiguous =
                if cc == 0 then true else if n == u32 (cc + 1) then f.contiguous else false;
          })
          q))
