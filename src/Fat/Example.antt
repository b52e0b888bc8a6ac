-- ===== src/Fat/Example.antt =====
-- A FAT12 volume in memory: its table fills two sectors, and the entry of cluster 341 has a byte in
-- each of them.
use sd_fat.Base.{refl, inl, arith, true, false, Outcome, done, fail, stuck, ◌==◌}
use sd_fat.Device.Ram.{Ram, ram_device}
use sd_fat.Cache.{FsCache, no_sector}
use sd_fat.Cache.View.{IsCoherent}
use sd_fat.Fat.{Geometry, Link, eoc}
use sd_fat.Fat.Layout.{IsGeometry}
use sd_fat.Fat.Window.{IsMounted}

abbrev pub small_volume : Geometry
small_volume = record {
  fat_type = 12;
  fat_count = 2;
  sectors_per_cluster = 1;
  sectors_per_cluster_shift = 0;
  cluster_sector_mask = 0;
  root_dir_entry_count = 16;
  sectors_per_fat = 2;
  fat_start_sector = 1;
  data_start_sector = 6;
  root_dir_start = 5;
  last_cluster = 400;
}

pub small_volume-IsGeometry : IsGeometry small_volume
small_volume-IsGeometry = record {
  types = inl refl;
  clusters12 = λ _. omega arith;
  clusters16 = λ e. absurd (omega arith);
  clusters32 = λ e. absurd (omega arith);
  room12 = λ _. omega arith;
  room16 = λ e. absurd (omega arith);
  room32 = λ e. absurd (omega arith);
  sectors = omega arith;
}

-- Every byte of the medium is 0x5A, and sector 9 cannot be read.
abbrev pub small_ram : Ram
small_ram = record { cells = λ _ _. 0x5A; bad = λ s. s == 9 }

-- The cache after `init`.
abbrev pub small_cache : FsCache Ram
small_cache = record {
  dirty = false;
  mirror = false;
  attached = true;
  device = small_ram;
  sector = no_sector;
  mirror_offset = 2;
  buffer = λ _. 0;
}

pub small_cache-IsCoherent : IsCoherent ram_device small_cache
small_cache-IsCoherent = record { bytes = λ i. omega arith; clean = λ _ ne. absurd (ne refl) }

pub small_cache-IsMounted : IsMounted ram_device small_volume small_cache
small_cache-IsMounted = record { coherent = small_cache-IsCoherent; offset = refl; home = λ e. cc }

-- What a run leaves behind, and what it returns.
abbrev pub state_of : {A : Type 0} → Outcome (FsCache Ram) A → FsCache Ram
state_of (done a c) = c
state_of (fail c) = c
state_of stuck = small_cache

abbrev pub value_of : Outcome (FsCache Ram) Link → Link
value_of (done a c) = a
value_of (fail c) = eoc
value_of stuck = eoc
