-- ===== src/Cache/Ends.antt =====
-- `sync` and `prepare` have no loop: they return.
use sd_fat.Base.{ℕ, ◌≢◌, arith, bind-ne-stuck, done, stuck, if◌then◌else◌}
use sd_fat.Endian.{Bytes}
use sd_fat.Device.{BlockDevice, Sectors}
use sd_fat.Cache.{
  cache_safe_write, cache_safe_write_range, FsCache, Access, sync, mirror_fat, fetch, prepare,
  is_cached_range, cache_safe_read, cache_safe_read_range, fetch_range,
}

module _ (B : BlockDevice) where
  open B use {Dev}

  pub sync-ne-stuck : (c : FsCache Dev) → sync B c ≢ stuck
  unfolding sync mirror_fat
  sync-ne-stuck c = ground arith

  fetch-ne-stuck : (s : ℕ) (a : Access) (c : FsCache Dev) → fetch B s a c ≢ stuck
  unfolding fetch
  fetch-ne-stuck s a c = ground arith

  pub prepare-ne-stuck : (s : ℕ) (a : Access) (c : FsCache Dev) → prepare B s a c ≢ stuck
  unfolding prepare
  prepare-ne-stuck s a c = ground (
    arith,
    bind-ne-stuck (sync B c) (λ _. fetch B s a) (sync-ne-stuck c) (λ _ c' _. fetch-ne-stuck s a c'),
  )

  pub cache_safe_read-ne-stuck :
      (s : ℕ) (dst : Bytes) (c : FsCache Dev) → cache_safe_read B s dst c ≢ stuck
  unfolding cache_safe_read
  cache_safe_read-ne-stuck s dst c = ground arith

  fetch_range-ne-stuck :
      (s n : ℕ) (dst : Sectors) (c : FsCache Dev) → fetch_range B s n dst c ≢ stuck
  unfolding fetch_range
  fetch_range-ne-stuck s n dst c = ground arith

  pub cache_safe_read_range-ne-stuck :
      (s n : ℕ) (dst : Sectors) (c : FsCache Dev) → cache_safe_read_range B s n dst c ≢ stuck
  unfolding cache_safe_read_range
  cache_safe_read_range-ne-stuck s n dst c =
      bind-ne-stuck (if is_cached_range c s n then sync B c else done tt c)
        (λ _. fetch_range B s n dst) (ground (arith, sync-ne-stuck c))
        (λ _ c' _. fetch_range-ne-stuck s n dst c')

  pub cache_safe_write-ne-stuck :
      (s : ℕ) (src : Bytes) (c : FsCache Dev) → cache_safe_write B s src c ≢ stuck
  unfolding cache_safe_write
  cache_safe_write-ne-stuck s src c = ground arith

  pub cache_safe_write_range-ne-stuck :
      (s n : ℕ) (src : Sectors) (c : FsCache Dev) → cache_safe_write_range B s n src c ≢ stuck
  unfolding cache_safe_write_range
  cache_safe_write_range-ne-stuck s n src c = ground arith
