-- ===== src/Fat/Mount.antt =====
-- src/FatLib/FatPartition.cpp: `init`, which reads the partition table and the boot sector of a
-- volume. The offsets of the fields are those of MbrSector_t, pbs_t and BpbFat32_t of
-- src/common/FsStructs.h.
use sd_fat.Base.{
  ℕ, zero, suc, ◌+◌, ◌-◌, ◌*◌, ◌/◌, Bool, not, ◌&&◌, ◌||◌, Option, none, Method, ◌>>=◌, ◌>>◌,
  modify, done, fail, stuck, bind, ltb, ◌==◌, if◌then◌else◌, u8, u32, sub32, ◌<<<◌, ◌>>>◌,
}
use sd_fat.Endian.{Bytes, get_le32}
use sd_fat.Device.{BlockDevice}
use sd_fat.Cache.{FsCache, for_read, prepare, init, set_mirror_offset}
use sd_fat.Fat.{Geometry}
use sd_fat.Fat.Boot

-- The members of a FatPartition: those that `init` sets once are the Geometry.
pub record Mount (D : Type 0) : Type 0 where
  pub geometry : Geometry
  pub alloc_search_start : ℕ
  pub free_cluster_count : Option ℕ
  pub cache : FsCache D

abbrev pub on_cache : {D A : Type 0} → Method (FsCache D) A → Method (Mount D) A
on_cache m v = elim (m v.cache) [
  | done a c ↦ done a (record v { cache = c })
  | fail c ↦ fail (record v { cache = c })
  | stuck ↦ stuck
]

abbrev pub set_geometry : {D : Type 0} → (Geometry → Geometry) → Mount D → Mount D
set_geometry f v = record v { geometry = f v.geometry }

-- Entry `part` of the partition table, from 1 on.
abbrev pub partition_entry : ℕ → ℕ
partition_entry part = 446 + 16 * (part - 1)

-- The part of `init` behind the shift: the places of the areas, the last cluster and the type.
abbrev pub with_fats : ℕ → Bytes → Geometry → Geometry
with_fats start b g = record g {
  sectors_per_fat = Boot.sectors_per_fat b;
  fat_start_sector = u32 (start + Boot.reserved_sector_count b);
  root_dir_entry_count = Boot.root_dir_entry_count b;
}

abbrev pub with_areas : Geometry → Geometry
with_areas g =
    let root = u32 (g.fat_start_sector + u32 (g.fat_count * g.sectors_per_fat)) in
    record g {
      root_dir_start = root;
      data_start_sector = u32 (root + (32 * g.root_dir_entry_count + 511) / 512);
    }

-- `countOfClusters`.
abbrev pub cluster_count : ℕ → Bytes → Geometry → ℕ
cluster_count start b g =
    sub32 (Boot.total_sectors b) (sub32 g.data_start_sector start) >>> g.sectors_per_cluster_shift

abbrev pub with_type : ℕ → Bytes → Geometry → Geometry
with_type n b g =
    let h = record g { last_cluster = u32 (n + 1) } in
    if ltb n 4085
    then record h { fat_type = 12 }
    else if ltb n 65525
    then record h { fat_type = 16 }
    else record h { root_dir_start = Boot.root_cluster b; fat_type = 32 }

abbrev pub with_layout : ℕ → Bytes → Geometry → Geometry
with_layout start b g =
    let h = with_areas (with_fats start b g) in with_type (cluster_count start b h) b h

abbrev pub with_cluster_size : Bytes → Geometry → Geometry
with_cluster_size b g = record g {
  fat_count = Boot.fat_count b;
  sectors_per_cluster = Boot.sectors_per_cluster b;
  cluster_sector_mask = u8 (Boot.sectors_per_cluster b + 255);
  sectors_per_cluster_shift = 0;
}

module _ {D : Type 0} where
  -- The loop that finds the shift, with rounds for fuel.
  unfoldable pub shift_rounds : ℕ → ℕ → Method (Mount D) (Unit {0})
  shift_rounds zero tmp v = stuck
  shift_rounds (suc fuel) tmp v =
      let g = v.geometry in
      let more = shift_rounds fuel (u8 (tmp <<< 1)) (
        set_geometry
          (λ g. record g { sectors_per_cluster_shift = u8 (g.sectors_per_cluster_shift + 1) }) v) in
      if g.sectors_per_cluster == tmp then done tt v else if tmp == 0 then fail v else more

  -- `init` from the boot sector on, which stands in the buffer of the cache.
  unfoldable pub read_boot : ℕ → Method (Mount D) (Unit {0})
  unfolding shift_rounds
  read_boot start v =
      let b = v.cache.buffer in
      if not (Boot.bytes_per_sector b == 512)
      then fail v
      else if not (Boot.fat_count b == 1) && not (Boot.fat_count b == 2)
      then fail v
      else bind (shift_rounds 10 1 (set_geometry (with_cluster_size b) v)) (λ _ w.
        done tt (record w {
          geometry = with_layout start b w.geometry;
          free_cluster_count = none;
          cache = set_mirror_offset w.cache (Boot.sectors_per_fat b);
        }))

module _ (B : BlockDevice) where
  open B use {Dev}

  -- The start sector: the argument, or the one of an entry of the partition table.
  unfoldable pub find_start : ℕ → ℕ → Method (Mount Dev) ℕ
  find_start part start v =
      let mp = partition_entry part in
      if part == 0
      then done start v
      else if ltb 4 part
      then fail v
      else bind (on_cache (prepare B 0 for_read) v) (λ _ w.
        let b = w.cache.buffer in
        if b (mp + 4) == 0 || (not (b mp == 0) && not (b mp == 0x80))
        then fail w
        else done (get_le32 b (mp + 8)) w)

  abbrev pub reset : Bool → Dev → Mount Dev → Mount Dev
  reset attached dev v = record v {
    geometry = record (v.geometry) { fat_type = 0 };
    alloc_search_start = 1;
    cache = init v.cache attached dev;
  }

  unfoldable pub mount : Bool → Dev → ℕ → ℕ → Method (Mount Dev) (Unit {0})
  unfolding find_start read_boot
  mount attached dev part start = do
    modify (reset attached dev)
    s ← find_start part start
    on_cache (prepare B s for_read)
    read_boot s
