-- ===== src/File/Tests.antt =====
-- Runs on the file and the volume of the examples.
use sd_fat.Base.{
  ℕ, suc, ◌+◌, ◌-◌, ◌*◌, ◌≤◌, ◌<◌, ◌≡◌, ◌≢◌, inl, refl, arith, Bool, ◌==◌, true, false, min,
  Outcome, done, fail, stuck,
}
use sd_fat.Endian.{Bytes, get_le16, get_le32}
use sd_fat.Device.Ram.{Ram, ram_device}
use sd_fat.Cache.{
  FsCache, no_sector, sync, mirror_fat, fetch, prepare, cache_safe_read, cache_safe_read_range,
  fetch_range, init, invalidate, set_mirror_offset,
}
use sd_fat.Cache.View.{view}
use sd_fat.Fat.{
  Geometry, fat_cache_prepare, second_byte, get_raw, get12, fat_get, put_raw, put12, fat_put,
}
use sd_fat.Fat.Layout.{IsGeometry}
use sd_fat.Fat.Window.{IsMounted}
use sd_fat.Fat.Example.{small_volume, small_volume-IsGeometry}
use sd_fat.Fat.Mount.{Mount, mount, find_start, read_boot, shift_rounds}
use sd_fat.Alloc.{allocate_cluster, take_cluster, link_cluster, find_free, look}
use sd_fat.Alloc.Mounted.{mounted_table}
use sd_fat.Alloc.Run.{alloc_contiguous, find_run, take_run, link_down}
use sd_fat.Alloc.RunLinked.{LinkedRun, row}
use sd_fat.Alloc.Chain.{IsChain}
use sd_fat.Alloc.Plain.{plain_table, volume}
use sd_fat.File.{Handle, set_file, sub_dir, add_cluster, walk, seek_set, seek_chain}
use sd_fat.File.Place.{IsPlaced, IsLayout, IsStored, cluster_at, file_byte}
use sd_fat.File.Read.{
  next_cluster, enter_cluster, read_part, read_many, read_one, read_sectors, read_rounds,
  read_private,
}
use sd_fat.File.Content.{HasRead, read_private-HasRead}
use sd_fat.File.ReadEnds.{read_private-ends}
use sd_fat.File.ReadFault.{failed_read_moves}
use sd_fat.File.SeekEnds.{seek_set_failed}
use sd_fat.File.SeekRead.{read_sought}
use sd_fat.File.Mounted.{IsSound, mount_sound}
use sd_fat.File.Chains.{take_clusters, range_end, contiguous_range, clear_sectors, add_dir_cluster}
use sd_fat.File.DirCluster.{add_dir_cluster-cur_position}
use sd_fat.File.Rows.{take_clusters-IsStored, contiguous_range-row}
use sd_fat.File.Example.{
  small_volume-IsLayout, file_cache, two_clusters, small_file, small_handle, small_file-IsFile,
  small_file-IsPlaced, faulty_cache, faulty_cache-Kept, boot_ram, unmounted, plain_handle,
  plain_volume, plain_volume-IsLayout,
}

abbrev state_of : {S A : Type 0} → S → Outcome S A → S
state_of s (done a q) = q
state_of s (fail q) = q
state_of s stuck = s

abbrev bytes_of : Outcome (Handle (FsCache Ram)) (Bytes × ℕ) → Bytes
bytes_of (done a q) = a.0
bytes_of (fail q) = λ _. 0
bytes_of stuck = λ _. 0

abbrev no_bytes : Bytes
no_bytes i = 0

-- The last 100 bytes of the first cluster and all of the second, asked for beyond the end.
after_read : Outcome (Handle (FsCache Ram)) (Bytes × ℕ)
after_read = read_private ram_device small_volume no_bytes 1000 small_handle

read_private-HasRead_example :
    (700 ≡ min 1000 700)
    × HasRead ram_device small_volume small_volume-IsGeometry small_volume-IsLayout two_clusters
        file_cache small_file no_bytes 0 700
        (bytes_of after_read)
        (state_of small_handle after_read)
unfolding read_private read_rounds enter_cluster next_cluster read_sectors read_part read_many
    read_one fat_get get_raw get12 second_byte fat_cache_prepare prepare sync mirror_fat fetch
    cache_safe_read cache_safe_read_range fetch_range after_read
read_private-HasRead_example =
    read_private-HasRead ram_device small_volume small_volume-IsGeometry small_volume-IsLayout
      two_clusters file_cache no_bytes 1000 small_handle (small_file-IsFile (λ _. false) 0 0)
      small_file-IsPlaced (faulty_cache-Kept (λ _. false)) refl

read_private-ends_example : read_private ram_device small_volume no_bytes 1000 small_handle ≢ stuck
read_private-ends_example =
    read_private-ends ram_device small_volume small_volume-IsGeometry small_volume-IsLayout
      two_clusters file_cache no_bytes 1000 small_handle (small_file-IsFile (λ _. false) 0 0)
      small_file-IsPlaced (faulty_cache-Kept (λ _. false))

-- From position 600, in the second cluster.
at_600 : Handle (FsCache Ram)
at_600 = state_of small_handle (
    seek_set (mounted_table ram_device small_volume small_volume-IsGeometry) small_volume 600
      small_handle)

read_600 : Outcome (Handle (FsCache Ram)) (Bytes × ℕ)
read_600 = read_private ram_device small_volume no_bytes 20 at_600

read_sought_example :
    (20 ≡ min 20 100)
    × ((j : ℕ)
        → j < 20
        → bytes_of read_600 j
          ≡ file_byte small_volume (view ram_device file_cache) two_clusters (600 + j))
unfolding read_private read_rounds enter_cluster next_cluster read_sectors read_part read_many
    read_one fat_get get_raw get12 second_byte fat_cache_prepare prepare sync mirror_fat fetch
    cache_safe_read cache_safe_read_range fetch_range seek_set seek_chain walk at_600 read_600
read_sought_example =
    read_sought ram_device small_volume small_volume-IsGeometry file_cache small_volume-IsLayout
      two_clusters 600 20 no_bytes small_handle {q = at_600} {p = state_of at_600 read_600}
      (small_file-IsFile (λ _. false) 0 0) small_file-IsPlaced (faulty_cache-Kept (λ _. false)) refl
      refl

seek_set_failed_example :
    (seek_set plain_table small_volume 701 plain_handle ≢ stuck)
    × ((q : Handle (ℕ → ℕ))
        → seek_set plain_table small_volume 701 plain_handle ≡ fail q
        → q.file ≡ small_file)
seek_set_failed_example = seek_set_failed plain_table small_volume 701 plain_handle

abbrev empty_handle : Handle (ℕ → ℕ)
empty_handle = record {
  file = record small_file { first_cluster = 0; file_size = 0 };
  vol = volume;
}

allocated : Handle (ℕ → ℕ)
allocated = state_of empty_handle (take_clusters plain_table plain_volume 600 empty_handle)

take_clusters-IsStored_example :
    IsStored plain_volume allocated.vol.table (row allocated.file.first_cluster 2) allocated.file
    × (allocated.file.file_size ≡ 600)
    × LinkedRun plain_table 2 allocated.file.first_cluster volume allocated.vol
unfolding take_clusters alloc_contiguous find_run take_run link_down allocated
take_clusters-IsStored_example =
    take_clusters-IsStored plain_table plain_volume plain_volume-IsLayout refl 600 empty_handle tt
      (omega arith) (omega arith) refl

-- The clusters 5 and 6 of the file just made are found to be a row.
measured : Handle (ℕ → ℕ)
measured = state_of allocated (contiguous_range plain_table plain_volume allocated)

contiguous_range-row_example :
    (n : ℕ) × IsChain allocated.vol.table 6 allocated.file.first_cluster
      (row allocated.file.first_cluster (suc n))
    × (9 ≡ 6 + (allocated.file.first_cluster - 2) * 1)
    × (10 + 1 ≡ 9 + suc n * 1)
    × (measured.file ≡ record (allocated.file) { contiguous = true })
unfolding take_clusters alloc_contiguous find_run take_run link_down allocated contiguous_range
    range_end measured
contiguous_range-row_example =
    contiguous_range-row plain_table plain_volume plain_volume-IsLayout refl allocated tt refl

-- `init` of the device that holds the boot sector.
mounted_volume : Mount Ram
mounted_volume = state_of unmounted (mount ram_device true boot_ram 0 0 unmounted)

boot_ram-IsSound : IsSound 0 (ram_device.media boot_ram 0)
unfolding get_le16 get_le32
boot_ram-IsSound = record {
  some_sectors = λ (e : 1 ≡ 0). omega (arith, e);
  areas = omega arith;
  fits = omega arith;
  both = omega arith;
  room12 = λ _. omega arith;
  room16 = λ (e : 4085 ≤ 400) _. absurd (omega arith);
  room32 = λ (e : 65525 ≤ 400). absurd (omega arith);
  small = omega arith;
}

mount_sound_example :
    IsGeometry mounted_volume.geometry
    × IsLayout mounted_volume.geometry
    × IsMounted ram_device mounted_volume.geometry mounted_volume.cache
    × ((t : ℕ)
        → t ≢ no_sector
        → view ram_device mounted_volume.cache t ≡ ram_device.media boot_ram t)
unfolding mount find_start read_boot shift_rounds init invalidate set_mirror_offset prepare fetch
    sync mirror_fat get_le16 get_le32 mounted_volume
mount_sound_example =
    mount_sound ram_device true boot_ram 0 0 unmounted (λ i. omega arith) (λ e. omega (arith, e))
      boot_ram-IsSound refl

-- Clusters of 64 KB.
abbrev large_volume : Geometry
large_volume = record small_volume {
  sectors_per_cluster = 128;
  sectors_per_cluster_shift = 7;
  cluster_sector_mask = 127;
}

large_volume-IsGeometry : IsGeometry large_volume
large_volume-IsGeometry = record {
  types = inl refl;
  clusters12 = λ _. omega arith;
  clusters16 = λ e. absurd (omega arith);
  clusters32 = λ e. absurd (omega arith);
  room12 = λ _. omega arith;
  room16 = λ e. absurd (omega arith);
  room32 = λ e. absurd (omega arith);
  sectors = omega arith;
}

abbrev directory_handle : Handle (FsCache Ram)
directory_handle = record small_handle {
  file = record small_file { kind = sub_dir; cur_cluster = 3; cur_position = 1000; file_size = 0 };
}

extended : Handle (FsCache Ram)
extended =
    state_of directory_handle
      (add_dir_cluster ram_device large_volume large_volume-IsGeometry directory_handle)

add_dir_cluster-cur_position_example : extended.file.cur_position ≡ 1000
unfolding add_dir_cluster clear_sectors add_cluster allocate_cluster take_cluster link_cluster
    find_free look fat_get get_raw get12 fat_put put_raw put12 second_byte fat_cache_prepare prepare
    sync mirror_fat fetch extended
add_dir_cluster-cur_position_example =
    add_dir_cluster-cur_position ram_device large_volume large_volume-IsGeometry directory_handle
      refl refl

-- The second cluster cannot be read.
abbrev bad_seven : ℕ → Bool
bad_seven s = s == 7

abbrev at_boundary : Handle (FsCache Ram)
at_boundary = record {
  file = record small_file { cur_cluster = 2; cur_position = 512 };
  vol = record (small_handle.vol) { table = faulty_cache bad_seven };
}

at_boundary-IsPlaced : IsPlaced small_volume two_clusters at_boundary.file
at_boundary-IsPlaced = record { inside = omega arith; cluster = λ _. refl }

entered : Handle (FsCache Ram)
entered = state_of at_boundary (enter_cluster ram_device small_volume at_boundary)

failed_sector : Handle (FsCache Ram)
failed_sector = state_of at_boundary (read_sectors ram_device small_volume no_bytes 0 100 entered)

failed_read_moves_example :
    (read_private ram_device small_volume no_bytes 100 at_boundary
      ≡ fail (set_file (λ f. record f { read_error = true }) failed_sector))
    × (failed_sector.file.cur_position ≡ 512)
    × (failed_sector.file.cur_cluster ≡ cluster_at small_volume two_clusters 1)
    × ¬ IsPlaced small_volume two_clusters (record failed_sector.file { read_error = true })
unfolding enter_cluster next_cluster read_sectors read_part read_many read_one fat_get get_raw get12
    second_byte fat_cache_prepare prepare sync mirror_fat fetch cache_safe_read
    cache_safe_read_range fetch_range entered failed_sector
failed_read_moves_example =
    failed_read_moves ram_device small_volume small_volume-IsGeometry small_volume-IsLayout
      two_clusters (faulty_cache bad_seven) no_bytes 100 at_boundary entered failed_sector
      (small_file-IsFile bad_seven 2 512) at_boundary-IsPlaced (faulty_cache-Kept bad_seven) refl
      (omega arith) (omega arith) (refl, refl) (omega arith) refl refl
