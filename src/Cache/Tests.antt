-- ===== src/Cache/Tests.antt =====
-- Runs of the cache on a device in memory, in which sector 9 cannot be read.
use sd_fat.Base.{ℕ, ◌≡◌, ◌≢◌, refl, arith, true, false, Outcome, done, fail, stuck, ◌==◌}
use sd_fat.Endian.{Bytes}
use sd_fat.Device.{Sectors}
use sd_fat.Device.Ram.{Ram, ram_device}
use sd_fat.Cache.{FsCache, for_read, no_sector, sync, mirror_fat, fetch, prepare, cache_safe_read}
use sd_fat.Cache.View.{view, IsCopy, IsCoherent}
use sd_fat.Cache.Prepare.{Prepared, prepare-Prepared}
use sd_fat.Cache.Safe.{sync_flushes}
use sd_fat.Cache.Fault.{spoiled, prepare_failed_read}

-- Sector 3 is cached and dirty, and owed to sector 7.
abbrev held : FsCache Ram
held = record {
  dirty = true;
  mirror = true;
  attached = true;
  device = record { cells = λ s i. s; bad = λ s. s == 9 };
  sector = 3;
  mirror_offset = 4;
  buffer = λ _. 0xAA;
}

-- The same, written back.
abbrev clean : FsCache Ram
clean = record held {
  dirty = false;
  mirror = false;
  device = record { cells = λ s i. 0xAA; bad = λ s. s == 9 };
}

held-IsCoherent : IsCoherent ram_device held
held-IsCoherent = record { bytes = λ i. omega arith; clean = λ e. cc }

abbrev state_of : {A : Type 0} → Outcome (FsCache Ram) A → FsCache Ram
state_of (done a c) = c
state_of (fail c) = c
state_of stuck = held

abbrev blank : Bytes
blank _ = 0

abbrev ones : Sectors
ones _ _ = 1

prepared : FsCache Ram
prepared = state_of (prepare ram_device 5 for_read held)

prepare-Prepared_example : Prepared ram_device 5 for_read held prepared
unfolding prepare sync mirror_fat fetch prepared
prepare-Prepared_example = prepare-Prepared ram_device 5 for_read held held-IsCoherent refl

synced : FsCache Ram
synced = state_of (sync ram_device held)

sync_flushes_example :
    ((t : ℕ)
      → t ≢ no_sector
      → ¬ IsCopy ram_device held t
      → ram_device.media synced.device t ≡ view ram_device held t)
    × ((t : ℕ)
        → IsCopy ram_device held t
        → ram_device.media synced.device t ≡ view ram_device held 3)
    × IsCoherent ram_device synced
    × (synced.dirty ≡ false)
unfolding sync mirror_fat synced
sync_flushes_example = sync_flushes ram_device held held-IsCoherent refl

-- Sector 9 fails, and then sector 3 reads as 0xFF.
prepare_failed_read_example :
    (prepare ram_device 9 for_read clean ≡ fail (spoiled ram_device 9 clean))
    × (cache_safe_read ram_device 3 blank (spoiled ram_device 9 clean)
        ≡ done (λ _. 0xFF) (spoiled ram_device 9 clean))
prepare_failed_read_example =
    prepare_failed_read ram_device 9 for_read clean blank refl refl (omega arith) refl refl
