-- ===== src/Cache/View.antt =====
-- What a client of the cache sees: the cached sector from the buffer, any other from the medium.
-- A dirty FAT sector is also owed to the second FAT, so the statements leave that copy aside.
use sd_fat.Base.{ℕ, ◌+◌, ◌≡◌, ◌≢◌, ap, arith, true, false, done, ◌==◌, if◌then◌else◌, u32}
use sd_fat.Endian.{Bytes}
use sd_fat.Endian.Laws.{IsBytes}
use sd_fat.Device.{BlockDevice, Sectors, put_sector}
use sd_fat.Cache.{FsCache, no_sector, sync}

module _ (B : BlockDevice) where
  open B use {
    Dev, media, read_sector, write_sector, read_media, read_bytes, read_ok, write_ok, media-IsBytes,
  }

  abbrev pub view : FsCache Dev → Sectors
  view c t = if t == c.sector then c.buffer else media c.device t

  -- The sector of the second FAT that the next `sync` overwrites.
  abbrev pub IsCopy : FsCache Dev → ℕ → Type 0
  IsCopy c t = (c.dirty ≡ true) × (c.mirror ≡ true) × (t ≡ u32 (c.sector + c.mirror_offset))

  -- A clean cache agrees with the medium.
  pub record IsCoherent (c : FsCache Dev) : Type 0 where
    pub bytes : IsBytes c.buffer
    pub clean : c.dirty ≡ false → c.sector ≢ no_sector → media c.device c.sector ≡ c.buffer

  -- What a `sync` that reports success has done.
  pub record Synced (c c' : FsCache Dev) : Type 0 where
    pub same_sector : c'.sector ≡ c.sector
    pub same_buffer : c'.buffer ≡ c.buffer
    pub same_offset : c'.mirror_offset ≡ c.mirror_offset
    pub same_attached : c'.attached ≡ c.attached
    pub same_mirror : c'.mirror ≡ c.mirror
    pub is_clean : c'.dirty ≡ false
    pub others : (t : ℕ) → t ≢ c.sector → ¬ IsCopy c t → media c'.device t ≡ media c.device t
    pub stored : IsCoherent c → c.sector ≢ no_sector → media c'.device c.sector ≡ c.buffer
    pub mirrored : (t : ℕ) → IsCopy c t → media c'.device t ≡ c.buffer

  pub write_at :
      (d : Dev) (s : ℕ) (b : Bytes) (t : ℕ)
      → IsBytes b
      → (write_sector d s b).0 ≡ true
      → media (write_sector d s b).1 t ≡ put_sector (media d) s b t
  write_at d s b t h e = ap (λ m. m t) (write_ok d s b h e)

  pub sync-Synced :
      (c : FsCache Dev) {c' : FsCache Dev} → IsBytes c.buffer → sync B c ≡ done tt c' → Synced c c'
  unfolding sync
  sync-Synced c {c'} h e = record {
    same_sector = ground arith;
    same_buffer = ground arith;
    same_offset = ground arith;
    same_attached = ground arith;
    same_mirror = ground arith;
    is_clean = ground arith;
    others = λ t ne nc. ground (arith, first t, second t);
    stored = λ co ns. ground (arith, first c.sector, second c.sector, co.clean);
    mirrored = λ t k. ground (arith, first t, second t);
  }
    where
      first :
          (t : ℕ)
          → (write_sector c.device c.sector c.buffer).0 ≡ true
          → media (write_sector c.device c.sector c.buffer).1 t
            ≡ put_sector (media c.device) c.sector c.buffer t
      first t = write_at c.device c.sector c.buffer t h

      second :
          (t : ℕ)
          → (write_sector
              (write_sector c.device c.sector c.buffer).1
              (u32 (c.sector + c.mirror_offset))
              c.buffer).0
            ≡ true
          → media
              (write_sector
                (write_sector c.device c.sector c.buffer).1
                (u32 (c.sector + c.mirror_offset))
                c.buffer).1
              t
            ≡ put_sector
                (media (write_sector c.device c.sector c.buffer).1)
                (u32 (c.sector + c.mirror_offset))
                c.buffer
                t
      second t =
          write_at (write_sector c.device c.sector c.buffer).1 (u32 (c.sector + c.mirror_offset))
            c.buffer t h
