-- ===== src/File/OpenTests.antt =====
-- The entry of the example file, stored and opened again.
use sd_fat.Base.{◌≡◌, refl, arith, true, false, some, done}
use sd_fat.Device.Ram.{Ram, ram_device}
use sd_fat.Cache.{FsCache}
use sd_fat.Fat.Example.{small_volume, small_volume-IsGeometry}
use sd_fat.File.{FatFile, Handle, plain_file}
use sd_fat.File.Entry.{Clock, put_entry}
use sd_fat.File.Open.{open_cached_entry}
use sd_fat.File.Reopened.{to_read, open_cached_entry-put_entry}
use sd_fat.File.Example.{file_cache, small_file, small_handle}

-- A read-only file.
abbrev kept_file : FatFile
kept_file = record small_file { attrib = 33 }

abbrev some_time : Clock
some_time = some (0x5A21, 0x6000)

-- Entry 3 of the sector in the cache.
entry_handle : Handle (FsCache Ram)
entry_handle = record small_handle {
  vol = record (small_handle.vol) {
    table = record file_cache { buffer = put_entry some_time kept_file (λ _. 0xE5) 96 };
  };
}

open_cached_entry-put_entry_example :
    (q : Handle (FsCache Ram)) × (open_cached_entry ram_device small_volume small_volume-IsGeometry
        small_file 3 to_read 0 entry_handle
      ≡ done tt q)
    × (q.file.kind ≡ plain_file)
    × (q.file.attrib ≡ 33)
    × (q.file.first_cluster ≡ 2)
    × (q.file.file_size ≡ 700)
    × (q.file.cur_position ≡ 0)
    × (q.vol ≡ entry_handle.vol)
unfolding entry_handle
open_cached_entry-put_entry_example =
    open_cached_entry-put_entry ram_device small_volume small_volume-IsGeometry some_time kept_file
      small_file (λ _. 0xE5) 3 0 true false false true entry_handle refl (omega arith) (omega arith)
      refl refl
