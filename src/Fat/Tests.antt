-- ===== src/Fat/Tests.antt =====
-- Runs of `fatGet` and `fatPut` on the example volume.
use sd_fat.Base.{◌≤◌, ◌≡◌, refl}
use sd_fat.Device.Ram.{Ram, ram_device}
use sd_fat.Cache.{FsCache, sync, mirror_fat, fetch, prepare}
use sd_fat.Fat.{
  eoc, next, link_of, fat_cache_prepare, second_byte, get_raw, put_raw, get12, put12, fat_get,
  fat_put,
}
use sd_fat.Fat.Layout.{entry}
use sd_fat.Fat.Window.{IsMounted, SameView}
use sd_fat.Fat.Stored.{table}
use sd_fat.Fat.Table.{Entered, fat_get-entry, fat_put-Entered}
use sd_fat.Fat.Example.{
  small_volume, small_volume-IsGeometry, small_cache, small_cache-IsMounted, state_of, value_of,
}

after_get : FsCache Ram
after_get = state_of (fat_get ram_device small_volume 341 small_cache)

fat_get-entry_example :
    (2 ≤ 341)
    × (341 ≤ 400)
    × (eoc
        ≡ link_of small_volume (entry small_volume (table ram_device small_volume small_cache) 341))
    × IsMounted ram_device small_volume after_get
    × SameView ram_device small_volume small_cache after_get
unfolding fat_get get_raw get12 second_byte fat_cache_prepare prepare sync mirror_fat fetch
    after_get
fat_get-entry_example =
    fat_get-entry ram_device small_volume small_volume-IsGeometry 341 small_cache-IsMounted refl

after_put : FsCache Ram
after_put = state_of (fat_put ram_device small_volume 341 7 small_cache)

fat_put-Entered_example :
    (2 ≤ 341)
    × (341 ≤ 400)
    × Entered ram_device small_volume small_volume-IsGeometry 341 7 small_cache after_put
unfolding fat_put put_raw put12 second_byte fat_cache_prepare prepare sync mirror_fat fetch
    after_put
fat_put-Entered_example =
    fat_put-Entered ram_device small_volume small_volume-IsGeometry 341 7 small_cache-IsMounted refl

-- The entry is read back after the write, across the sectors.
get_after_put : value_of (fat_get ram_device small_volume 341 after_put) ≡ next 7
unfolding fat_get fat_put get_raw get12 put_raw put12 second_byte fat_cache_prepare prepare sync
    mirror_fat fetch after_put
get_after_put = refl
