-- ===== src/Cache/Prepare.antt =====
-- What `FsCache::prepare` promises: the sector that is asked for is in the buffer, and no other
-- sector has changed for a client.
use sd_fat.Base.{
  ℕ, ◌≡◌, ◌≢◌, ◌⊎◌, inl, inr, ap, arith, true, false, done, bind, bind-done, Bool-cases, ◌==◌,
}
use sd_fat.Endian.{Bytes}
use sd_fat.Device.{BlockDevice}
use sd_fat.Cache.{FsCache, Access, no_sector, sync, prepare, fetch}
use sd_fat.Cache.View.{view, IsCopy, IsCoherent, Synced, sync-Synced}

module _ (B : BlockDevice) where
  open B use {Dev, media, read_sector, read_media, read_bytes, read_ok, media-IsBytes}

  pub record Prepared (s : ℕ) (a : Access) (c c' : FsCache Dev) : Type 0 where
    pub attached : c'.attached ≡ true
    pub sector : c'.sector ≡ s
    pub offset : c'.mirror_offset ≡ c.mirror_offset
    pub content : a.no_read ≡ false → ¬ IsCopy B c s → c'.buffer ≡ view B c s
    pub others : (t : ℕ) → t ≢ s → t ≢ no_sector → ¬ IsCopy B c t → view B c' t ≡ view B c t
    pub coherent : (a.no_read ≡ false) ⊎ (a.dirty ≡ true) → IsCoherent B c'
    pub marked : a.dirty ≡ true → c'.dirty ≡ true
    pub mirror : c'.mirror ≡ true → (a.mirror ≡ true) ⊎ ((c.mirror ≡ true) × (c.sector ≡ s))
    pub mirrored : a.mirror ≡ true → c'.mirror ≡ true

  -- The branch where the sector is cached already.
  hit :
      (s : ℕ) (a : Access) (c : FsCache Dev) {c' : FsCache Dev}
      → IsCoherent B c
      → c.sector ≡ s
      → prepare B s a c ≡ done tt c'
      → Prepared s a c c'
  unfolding prepare
  hit s a c co e h = record {
    attached = ground arith;
    sector = ground arith;
    offset = ground arith;
    content = λ p q. ground arith;
    others = λ t p q r. ground arith;
    coherent = λ p. record { bytes = ground (arith, co.bytes); clean = ground (arith, co.clean) };
    marked = ground arith;
    mirror = ground arith;
    mirrored = ground arith;
  }

  read_at : (d : Dev) (s : ℕ) (b : Bytes) (t : ℕ) → media (read_sector d s b).2 t ≡ media d t
  read_at d s b t = ap (λ m. m t) (read_media d s b)

  -- The branch where the sector is fetched, after the old one is written back to give `c1`.
  fetched :
      (s : ℕ) (a : Access) (c c1 : FsCache Dev) {c' : FsCache Dev}
      → IsCoherent B c
      → c.sector ≢ s
      → c.attached ≡ true
      → Synced B c c1
      → fetch B s a c1 ≡ done tt c'
      → Prepared s a c c'
  unfolding fetch
  fetched s a c c1 co ne at sy h = record {
    attached = ground (arith, sy.same_attached);
    sector = ground arith;
    offset = ground (arith, sy.same_offset);
    content = λ p q. ground (arith, read_ok c1.device s c1.buffer, sy.others s);
    others = λ t p q r.
        ground (arith, read_at c1.device s c1.buffer t, sy.others t, sy.stored co, sy.same_sector);
    coherent = λ p. record {
      bytes = ground (arith, co.bytes, sy.same_buffer, read_bytes c1.device s c1.buffer);
      clean = ground (arith, read_ok c1.device s c1.buffer, read_at c1.device s c1.buffer s);
    };
    marked = ground arith;
    mirror = ground arith;
    mirrored = ground arith;
  }

  -- `prepare` that succeeds on a coherent cache leaves the sector asked for in the buffer (unless
  -- it was told not to read), every other sector as a client saw it (the copy that is still owed
  -- to the second FAT aside), and a coherent cache, unless it reserved a sector without marking
  -- it for writing.
  pub prepare-Prepared :
      (s : ℕ) (a : Access) (c : FsCache Dev) {c' : FsCache Dev}
      → IsCoherent B c
      → prepare B s a c ≡ done tt c'
      → Prepared s a c c'
  prepare-Prepared s a c {c'} co h = elim (Bool-cases (c.sector == s)) [
    | inl e ↦ hit s a c co (ground arith) h
    | inr e ↦
        let (_, c1, p, q) = bind-done (sync B c) (λ _. fetch B s a) (missed e) in
        fetched s a c c1 co (ground arith) attached (sync-Synced B c co.bytes p) q
  ]
    where
      attached : c.attached ≡ true
      attached = unfold prepare in ground arith

      missed : (c.sector == s) ≡ false → bind (sync B c) (λ _. fetch B s a) ≡ done tt c'
      missed e = unfold prepare in ground arith
