-- ===== src/Cache/Safe.antt =====
-- The cache against its specification, the view: writing back, and the calls of `FsCache` that go
-- past the cache and keep it consistent with the medium.
use sd_fat.Base.{
  ℕ, ◌+◌, ◌-◌, ◌^◌, ◌≤◌, ◌<◌, ◌≡◌, ◌≢◌, ◌⊎◌, inl, inr, ap, ◌∙◌, arith, true, false, done, bind,
  bind-done, Bool-cases,
}
use sd_fat.Endian.{Bytes}
use sd_fat.Endian.Laws.{IsBytes}
use sd_fat.Device.{BlockDevice, Sectors, put_sectors}
use sd_fat.Cache.{
  FsCache, no_sector, is_cached_range, sync, cache_safe_read, cache_safe_read_range,
  cache_safe_write, cache_safe_write_range, fetch_range,
}
use sd_fat.Cache.View.{view, IsCopy, IsCoherent, Synced, sync-Synced, write_at}

module _ (B : BlockDevice) where
  open B use {
    Dev, media, read_sector, read_sectors, write_sectors, read_media, read_ok, reads_media,
    reads_ok, writes_ok, media-IsBytes,
  }

  -- `sync` of a coherent cache that succeeds leaves every sector of the medium as a client saw
  -- it, the copy in the second FAT equal to the cached sector, and the cache coherent and clean.
  pub sync_flushes :
      (c : FsCache Dev) {c' : FsCache Dev}
      → IsCoherent B c
      → sync B c ≡ done tt c'
      → ((t : ℕ) → t ≢ no_sector → ¬ IsCopy B c t → media c'.device t ≡ view B c t)
        × ((t : ℕ) → IsCopy B c t → media c'.device t ≡ view B c c.sector)
        × IsCoherent B c'
        × (c'.dirty ≡ false)
  sync_flushes c {c'} co h =
      let sy : Synced B c c' = sync-Synced B c co.bytes h in
      (
        λ t p q. ground (arith, sy.others t, sy.stored co),
        λ t q. ground (arith, sy.mirrored t),
        record {
          bytes = ground (arith, co.bytes, sy.same_buffer);
          clean = λ _ ns.
              rw (sy.same_sector, sy.same_buffer) (sy.stored co (λ e. ns (sy.same_sector ∙ e)));
        },
        sy.is_clean,
      )

  -- Reading one sector, if it succeeds, yields what a client sees in it and changes nothing that
  -- a client sees.
  pub cache_safe_read-view :
      (s : ℕ) (dst : Bytes) (c : FsCache Dev) {b : Bytes} {c' : FsCache Dev}
      → cache_safe_read B s dst c ≡ done b c'
      → (b ≡ view B c s) × ((t : ℕ) → view B c' t ≡ view B c t)
  unfolding cache_safe_read
  cache_safe_read-view s dst c h = (
    ground (arith, read_ok c.device s dst),
    λ t. ground (arith, ap (λ m. m t) (read_media c.device s dst)),
  )

  -- Writing one sector of bytes past a coherent cache, if it succeeds, leaves the new bytes in it
  -- for a client, every other sector as it was, and the cache coherent; the sector is not number
  -- 0xFFFFFFFF.
  pub cache_safe_write-view :
      (s : ℕ) (src : Bytes) (c : FsCache Dev) {c' : FsCache Dev}
      → IsCoherent B c
      → IsBytes src
      → s ≢ no_sector
      → cache_safe_write B s src c ≡ done tt c'
      → (view B c' s ≡ src)
        × ((t : ℕ) → t ≢ s → t ≢ no_sector → view B c' t ≡ view B c t)
        × IsCoherent B c'
  unfolding cache_safe_write
  cache_safe_write-view s src c co hb ns h = (
    ground (arith, write_at B c.device s src s hb),
    λ t p q. ground (arith, write_at B c.device s src t hb),
    record {
      bytes = ground (arith, co.bytes);
      clean = ground (arith, co.clean, write_at B c.device s src c.sector hb);
    },
  )

  range_read :
      (s n : ℕ) (dst : Sectors) (c : FsCache Dev) {b : Sectors} {c' : FsCache Dev}
      → fetch_range B s n dst c ≡ done b c'
      → (i : ℕ) → i < n
      → b i ≡ media c.device (s + i)
  unfolding fetch_range
  range_read s n dst c h i lt =
      ground
        (arith, λ (p : (read_sectors c.device s n dst).0 ≡ true). reads_ok c.device s n dst p i lt)

  -- Reading several sectors past a coherent cache, if it succeeds, yields what a client sees in
  -- them, a cached one included, when the range ends below 2 ^ 32 and meets no copy that is owed
  -- to the second FAT.
  pub cache_safe_read_range-view :
      (s n : ℕ) (dst : Sectors) (c : FsCache Dev) {b : Sectors} {c' : FsCache Dev}
      → IsCoherent B c
      → s + n < 2 ^ 32
      → ((i : ℕ) → i < n → ¬ IsCopy B c (s + i))
      → cache_safe_read_range B s n dst c ≡ done b c'
      → (i : ℕ) → i < n
      → b i ≡ view B c (s + i)
  cache_safe_read_range-view s n dst c {b} {c'} co fit free h i lt =
      elim (Bool-cases (is_cached_range c s n)) [
        | inl e ↦
            let (_, c1, p, q) = bind-done (sync B c) (λ _. fetch_range B s n dst) (flushed e) in
            range_read s n dst c1 q i lt ∙ (sync_flushes c co p).0 (s + i) (omega arith) (free i lt)
        | inr e ↦ range_read s n dst c (direct e) i lt ∙ uncached e
      ]
    where
      flushed :
          is_cached_range c s n ≡ true → bind (sync B c) (λ _. fetch_range B s n dst) ≡ done b c'
      flushed e = unfold cache_safe_read_range in rw (e, cache_safe_read_range) at h

      direct : is_cached_range c s n ≡ false → fetch_range B s n dst c ≡ done b c'
      direct e = unfold cache_safe_read_range in rw (e, cache_safe_read_range) at h

      uncached : is_cached_range c s n ≡ false → media c.device (s + i) ≡ view B c (s + i)
      uncached e = ground arith

  -- Writing several sectors of bytes past a coherent cache, if it succeeds, leaves the new bytes
  -- in them for a client, every other sector as it was, and the cache coherent; the range ends
  -- below 2 ^ 32.
  pub cache_safe_write_range-view :
      (s n : ℕ) (src : Sectors) (c : FsCache Dev) {c' : FsCache Dev}
      → IsCoherent B c
      → ((i : ℕ) → i < n → IsBytes (src i))
      → s + n < 2 ^ 32
      → cache_safe_write_range B s n src c ≡ done tt c'
      → ((i : ℕ) → i < n → view B c' (s + i) ≡ src i)
        × ((t : ℕ) → (t < s) ⊎ (s + n ≤ t) → t ≢ no_sector → view B c' t ≡ view B c t)
        × IsCoherent B c'
  unfolding cache_safe_write_range
  cache_safe_write_range-view s n src c co hb fit h = (
    λ i lt.
        ground (arith, writes_at c.device (s + i) hb, ap src {x = s + i - s} {y = i} (omega arith)),
    λ t p q. ground (arith, writes_at c.device t hb),
    record {
      bytes = ground (arith, co.bytes);
      clean = ground (arith, co.clean, writes_at c.device c.sector hb);
    },
  )
    where
      writes_at :
          (d : Dev) (t : ℕ)
          → ((i : ℕ) → i < n → IsBytes (src i))
          → (write_sectors d s n src).0 ≡ true
          → media (write_sectors d s n src).1 t ≡ put_sectors (media d) s n src t
      writes_at d t hb e = ap (λ m. m t) (writes_ok d s n src hb e)
