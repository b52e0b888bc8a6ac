-- ===== src/Cache/Fault.antt =====
-- What `FsCache::prepare` leaves behind when the device cannot read the new sector: `m_sector` is
-- set only on success, but `m_buffer` has been handed to the read.
use sd_fat.Base.{ℕ, ◌≡◌, ◌≢◌, arith, true, false, done, fail}
use sd_fat.Endian.{Bytes}
use sd_fat.Device.{BlockDevice}
use sd_fat.Cache.{FsCache, Access, sync, prepare, fetch, cache_safe_read}

module _ (B : BlockDevice) where
  open B use {Dev, read_sector}

  -- The cache after the failed read of sector `s`.
  abbrev pub spoiled : ℕ → FsCache Dev → FsCache Dev
  spoiled s c =
      let (_, b, d) = read_sector c.device s c.buffer in record c { buffer = b; device = d }

  -- When a clean cache is asked for another sector and the device fails to read it, `prepare`
  -- fails, and a later read of the sector that the cache held succeeds with the bytes that the
  -- failed read left in the buffer.
  pub prepare_failed_read :
      (s : ℕ) (a : Access) (c : FsCache Dev) (dst : Bytes)
      → c.attached ≡ true
      → c.dirty ≡ false
      → c.sector ≢ s
      → a.no_read ≡ false
      → (read_sector c.device s c.buffer).0 ≡ false
      → (prepare B s a c ≡ fail (spoiled s c))
        × (cache_safe_read B c.sector dst (spoiled s c)
            ≡ done (read_sector c.device s c.buffer).1 (spoiled s c))
  unfolding prepare sync fetch cache_safe_read
  prepare_failed_read s a c dst at cl ne nr bad = (ground arith, ground arith)
