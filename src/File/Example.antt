-- ===== src/File/Example.antt =====
-- A file of two clusters on a FAT12 volume in memory, and the boot sector of such a volume.
use sd_fat.Base.{ℕ, Bool, refl, arith, true, false, none, List, [], ◌∷◌, ◌==◌, if◌then◌else◌}
use sd_fat.Endian.{Bytes}
use sd_fat.Device.Ram.{Ram, ram_device}
use sd_fat.Cache.{FsCache, no_sector}
use sd_fat.Alloc.Plain.{volume}
use sd_fat.Fat.{Geometry}
use sd_fat.Fat.Window.{IsMounted}
use sd_fat.Fat.Example.{small_volume, small_volume-IsGeometry}
use sd_fat.Fat.Mount.{Mount}
use sd_fat.File.{FatFile, Handle, plain_file}
use sd_fat.File.Sectors.{Kept}
use sd_fat.File.Place.{IsLayout, IsPlaced}
use sd_fat.File.Follow.{IsFile}

pub small_volume-IsLayout : IsLayout small_volume
small_volume-IsLayout = record {
  cluster_size = refl;
  mask = refl;
  behind = omega arith;
  behind_both = λ _. omega arith;
  fits = omega arith;
}

-- Cluster 2 leads to cluster 3, which ends the chain.
abbrev fat_bytes : Bytes
fat_bytes i = if i == 3 then 0x03 else if i == 4 then 0xF0 else if i == 5 then 0xFF else 0

-- Every byte of a sector of the data area is the sector's number.
abbrev pub file_ram : (ℕ → Bool) → Ram
file_ram bad = record { cells = λ s i. if s == 1 then fat_bytes i else s; bad = bad }

-- The cache of the volume whose sectors `bad` cannot be read.
abbrev pub faulty_cache : (ℕ → Bool) → FsCache Ram
faulty_cache bad = record {
  dirty = false;
  mirror = false;
  attached = true;
  device = file_ram bad;
  sector = no_sector;
  mirror_offset = 2;
  buffer = λ _. 0;
}

pub faulty_cache-IsMounted : (bad : ℕ → Bool) → IsMounted ram_device small_volume (faulty_cache bad)
faulty_cache-IsMounted bad = record {
  coherent = record { bytes = λ i. omega arith; clean = λ _ ne. absurd (ne refl) };
  offset = refl;
  home = λ e. cc;
}

abbrev pub file_cache : FsCache Ram
file_cache = faulty_cache (λ _. false)

abbrev pub two_clusters : List ℕ
two_clusters = 2 ∷ 3 ∷ []

abbrev pub small_file : FatFile
small_file = record {
  kind = plain_file;
  attrib = 0;
  write_error = false;
  read_error = false;
  readable = true;
  writable = true;
  append = false;
  preallocated = false;
  contiguous = false;
  dir_dirty = false;
  lfn_ord = 0;
  dir_index = 0;
  dir_cluster = 0;
  cur_cluster = 0;
  cur_position = 0;
  dir_sector = 5;
  file_size = 700;
  first_cluster = 2;
}

abbrev pub small_handle : Handle (FsCache Ram)
small_handle = record {
  file = small_file;
  vol = record { alloc_search_start = 1; free_cluster_count = none; table = file_cache };
}

-- The clusters of the file, wherever its current cluster and its position are.
pub small_file-IsFile :
    (bad : ℕ → Bool) (cluster position : ℕ)
    → IsFile ram_device small_volume small_volume-IsGeometry small_volume-IsLayout two_clusters
        (faulty_cache bad)
        (record small_file { cur_cluster = cluster; cur_position = position })
small_file-IsFile bad cluster position = (
  refl,
  record {
    chain = (refl, omega arith, (omega arith, tt), (refl, omega arith));
    inside = ((omega arith, omega arith), ((omega arith, omega arith), tt));
    room = omega arith;
    small = omega arith;
    in_row = λ e. cc;
  },
)

pub small_file-IsPlaced : IsPlaced small_volume two_clusters small_file
small_file-IsPlaced = record { inside = omega arith; cluster = λ lt. absurd (omega arith) }

pub faulty_cache-Kept :
    (bad : ℕ → Bool)
    → Kept ram_device small_volume small_volume-IsGeometry (faulty_cache bad) (faulty_cache bad)
faulty_cache-Kept bad = (faulty_cache-IsMounted bad, λ t v. refl)

-- The same file on the small table of the allocation.
abbrev pub plain_handle : Handle (ℕ → ℕ)
plain_handle = record { file = small_file; vol = volume }

abbrev pub plain_volume : Geometry
plain_volume = record small_volume { last_cluster = 6 }

pub plain_volume-IsLayout : IsLayout plain_volume
plain_volume-IsLayout = record {
  cluster_size = refl;
  mask = refl;
  behind = omega arith;
  behind_both = λ _. omega arith;
  fits = omega arith;
}

-- The boot sector of a volume with one sector per cluster and two FATs of two sectors.
abbrev pub boot_bytes : Bytes
boot_bytes i =
    if i == 12
    then 2
    else if i == 13
    then 1
    else if i == 14
    then 1
    else if i == 16
    then 2
    else if i == 17
    then 16
    else if i == 19
    then 0x96
    else if i == 20
    then 1
    else if i == 22
    then 2
    else 0

abbrev pub boot_ram : Ram
boot_ram = record { cells = λ s i. if s == 0 then boot_bytes i else 0; bad = λ _. false }

abbrev pub unmounted : Mount Ram
unmounted = record {
  geometry = small_volume;
  alloc_search_start = 0;
  free_cluster_count = none;
  cache = file_cache;
}
