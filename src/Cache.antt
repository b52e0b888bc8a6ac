-- ===== src/Cache.antt =====
-- src/common/FsCache.h and FsCache.cpp: the one-sector write-back cache between a volume and its
-- device. The bits of `m_status` and of the `option` argument are Booleans; `m_buffer` is the
-- function that its bytes are.
pub mod View
pub mod Prepare
pub mod Fault
pub mod Safe
pub mod Ends
mod Tests
use sd_fat.Base.{
  ℕ, ◌+◌, ◌-◌, ◌^◌, ◌%◌, ◌≡◌, Bool, true, false, not, ◌&&◌, ◌||◌, Outcome, done, fail, Method, bind,
  ltb, leb, ◌==◌, if◌then◌else◌, u32,
}
use sd_fat.Endian.{Bytes}
use sd_fat.Device.{BlockDevice, Sectors}

-- `m_blockDev` is `device`, and `attached` says that it is not null.
pub record FsCache (D : Type 0) : Type 0 where
  pub dirty : Bool
  pub mirror : Bool
  pub attached : Bool
  pub device : D
  pub sector : ℕ
  pub mirror_offset : ℕ
  pub buffer : Bytes

-- The `option` argument of `prepare`.
pub record Access : Type 0 where
  pub dirty : Bool
  pub mirror : Bool
  pub no_read : Bool

abbrev pub for_read : Access
for_read = record { dirty = false; mirror = false; no_read = false }

abbrev pub for_write : Access
for_write = record { dirty = true; mirror = false; no_read = false }

abbrev pub reserve_for_write : Access
reserve_for_write = record { dirty = true; mirror = false; no_read = true }

-- `m_sector` of a cache that holds no sector.
abbrev pub no_sector : ℕ
no_sector = 0xFFFFFFFF

module _ {D : Type 0} where
  unfoldable pub invalidate : FsCache D → FsCache D
  invalidate c = record c { dirty = false; mirror = false; sector = no_sector }

  unfoldable pub init : FsCache D → Bool → D → FsCache D
  unfolding invalidate
  init c attached d = invalidate (record c { attached = attached; device = d })

  unfoldable pub set_dirty : FsCache D → FsCache D
  set_dirty c = record c { dirty = true }

  unfoldable pub set_mirror_offset : FsCache D → ℕ → FsCache D
  set_mirror_offset c offset = record c { mirror_offset = offset }

  abbrev pub is_cached : FsCache D → ℕ → Bool
  is_cached c s = s == c.sector

  -- A sector number and a count are 32 bits wide.
  abbrev pub is_cached_range : FsCache D → ℕ → ℕ → Bool
  is_cached_range c s count = leb s c.sector && ltb c.sector (u32 (s + count))

module _ (B : BlockDevice) where
  open B use {Dev, read_sector, read_sectors, write_sector, write_sectors}

  -- The second write of `sync`, which follows a first one that left the device at `d`.
  unfoldable pub mirror_fat : FsCache Dev → Dev → Outcome (FsCache Dev) (Unit {0})
  mirror_fat c d =
      let (ok, d') = write_sector d (u32 (c.sector + c.mirror_offset)) c.buffer in
      if ok
      then done tt (record c { device = d'; dirty = false })
      else fail (record c { device = d' })

  unfoldable pub sync : Method (FsCache Dev) (Unit {0})
  unfolding mirror_fat
  sync c =
      let (ok, d) = write_sector c.device c.sector c.buffer in
      if c.dirty
      then (if ok
          then (if c.mirror
              then mirror_fat c d
              else done tt (record c { device = d; dirty = false }))
          else fail (record c { device = d }))
      else done tt c

  -- The new sector is claimed, and `m_status` starts again from the option.
  abbrev claim : ℕ → Access → FsCache Dev → FsCache Dev
  claim s a c = record c { sector = s; dirty = a.dirty; mirror = a.mirror }

  -- The part of `prepare` behind a `sync` that succeeded.
  unfoldable pub fetch : ℕ → Access → Method (FsCache Dev) (Unit {0})
  fetch s a c =
      let (ok, b, d) = read_sector c.device s c.buffer in
      if a.no_read
      then done tt (claim s a c)
      else if ok
      then done tt (claim s a (record c { buffer = b; device = d }))
      else fail (record c { buffer = b; device = d })

  -- The result of `prepare` is a pointer to `m_buffer`, which callers reach through the state.
  unfoldable pub prepare : ℕ → Access → Method (FsCache Dev) (Unit {0})
  unfolding fetch
  prepare s a c =
      if not c.attached
      then fail c
      else if c.sector == s
      then done tt (record c { dirty = c.dirty || a.dirty; mirror = c.mirror || a.mirror })
      else bind (sync c) (λ _. fetch s a)

  unfoldable pub clear : Method (FsCache Dev) (Unit {0})
  unfolding invalidate
  clear c = bind (if c.dirty then sync c else done tt c) (λ _ c'. done tt (invalidate c'))

  -- The value is what `dst` holds after the call.
  unfoldable pub cache_safe_read : ℕ → Bytes → Method (FsCache Dev) Bytes
  cache_safe_read s dst c =
      let (ok, b, d) = read_sector c.device s dst in
      if is_cached c s
      then done c.buffer c
      else if ok
      then done b (record c { device = d })
      else fail (record c { device = d })

  -- The tail of the reading of several sectors.
  unfoldable pub fetch_range : ℕ → ℕ → Sectors → Method (FsCache Dev) Sectors
  fetch_range s count dst c =
      let (ok, b, d) = read_sectors c.device s count dst in
      if ok then done b (record c { device = d }) else fail (record c { device = d })

  unfoldable pub cache_safe_read_range : ℕ → ℕ → Sectors → Method (FsCache Dev) Sectors
  unfolding fetch_range
  cache_safe_read_range s count dst c =
      bind (if is_cached_range c s count then sync c else done tt c) (λ _. fetch_range s count dst)

  unfoldable pub cache_safe_write : ℕ → Bytes → Method (FsCache Dev) (Unit {0})
  unfolding invalidate
  cache_safe_write s src c =
      let c' = if is_cached c s then invalidate c else c in
      let (ok, d) = write_sector c'.device s src in
      if ok then done tt (record c' { device = d }) else fail (record c' { device = d })

  unfoldable pub cache_safe_write_range : ℕ → ℕ → Sectors → Method (FsCache Dev) (Unit {0})
  unfolding invalidate
  cache_safe_write_range s count src c =
      let c' = if is_cached_range c s count then invalidate c else c in
      let (ok, d) = write_sectors c'.device s count src in
      if ok then done tt (record c' { device = d }) else fail (record c' { device = d })
