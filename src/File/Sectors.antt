-- ===== src/File/Sectors.antt =====
-- Sectors behind a mounted volume's cache, reached past the FAT: each call of the cache keeps the
-- volume mounted and what a client sees of it.
use sd_fat.Base.{
  ℕ, ◌+◌, ◌^◌, ◌<◌, ◌≡◌, inl, inr, ap, ◌∙◌, arith, refl, subst, Outcome, done-injective, true,
  false, done, bind, bind-done, Bool-cases, ℕ_discrete,
}
use sd_fat.Endian.{Bytes}
use sd_fat.Device.{BlockDevice, Sectors}
use sd_fat.Cache.{
  FsCache, Access, is_cached, is_cached_range, fetch_range, sync, prepare, cache_safe_read,
  cache_safe_read_range,
}
use sd_fat.Cache.View.{view, Synced, sync-Synced}
use sd_fat.Cache.Prepare.{Prepared, prepare-Prepared}
use sd_fat.Cache.Safe.{sync_flushes, cache_safe_read-view, cache_safe_read_range-view}
use sd_fat.Fat.{Geometry}
use sd_fat.Fat.Layout.{IsGeometry}
use sd_fat.Fat.Window.{IsMounted, IsVisible, SameView, Window, visible-not-IsCopy}

module _ (B : BlockDevice) (g : Geometry) (h : IsGeometry g) where
  open B use {Dev, media, read_sector, read_sectors, read_media, reads_media}

  -- The volume stays mounted and a client sees no change.
  abbrev pub Kept : FsCache Dev → FsCache Dev → Type 0
  Kept c c' = IsMounted B g c' × SameView B g c c'

  pub prepare-Window :
      (s : ℕ) (a : Access) (c : FsCache Dev) {c' : FsCache Dev}
      → IsMounted B g c
      → IsVisible B g s
      → a.no_read ≡ false
      → a.mirror ≡ false
      → prepare B s a c ≡ done tt c'
      → Window B g s a c c'
  prepare-Window s a c {c'} m v nr nm e = record {
    mounted = record {
      coherent = p.coherent (inl nr);
      offset = omega (arith, p.offset, m.offset);
      home = λ k. ground (arith, p.mirror k, m.home, p.sector);
    };
    sector = p.sector;
    content = content;
    same = λ t w. elim (ℕ_discrete t s) [
      | yes e ↦ ground (arith, p.sector, content)
      | no ne ↦ p.others t ne w.0 (visible-not-IsCopy B g h m t w)
    ];
    marked = p.marked;
  }
    where
      p : Prepared B s a c c'
      p = prepare-Prepared B s a c m.coherent e

      content : c'.buffer ≡ view B c s
      content = p.content nr (visible-not-IsCopy B g h m s v)

  -- Another device object with the same medium.
  same_media :
      (c : FsCache Dev) (d : Dev)
      → media d ≡ media c.device
      → IsMounted B g c
      → Kept c (record c { device = d })
  same_media c d e m = (
    record {
      coherent = record {
        bytes = m.coherent.bytes;
        clean = λ p q. ap (λ (x : Sectors). x c.sector) e ∙ m.coherent.clean p q;
      };
      offset = m.offset;
      home = m.home;
    },
    λ t v. ground (arith, ap (λ (x : Sectors). x t) e),
  )

  pub cache_safe_read-Kept :
      (s : ℕ) (dst : Bytes) (c : FsCache Dev) {b : Bytes} {c' : FsCache Dev}
      → IsMounted B g c
      → cache_safe_read B s dst c ≡ done b c'
      → (b ≡ view B c s) × Kept c c'
  cache_safe_read-Kept s dst c {b} {c'} m e = (
    (cache_safe_read-view B s dst c e).0,
    elim (Bool-cases (is_cached c s)) [
      | inl hit ↦ subst (Kept c) (done-injective (cached hit)).1 (m, λ t v. refl)
      | inr miss ↦
          subst (Kept c) (done-injective (fetched miss)).1
            (same_media c (read_sector c.device s dst).2 (read_media c.device s dst) m)
    ],
  )
    where
      cached :
          is_cached c s ≡ true → ◌≡◌ {A = Outcome (FsCache Dev) Bytes} (done c.buffer c) (done b c')
      cached k = unfold cache_safe_read in ground arith

      fetched :
          is_cached c s ≡ false
          → ◌≡◌ {A = Outcome (FsCache Dev) Bytes}
              (done
                (read_sector c.device s dst).1
                (record c { device = (read_sector c.device s dst).2 }))
              (done b c')
      fetched k = unfold cache_safe_read in ground arith

  pub sync-Kept :
      (c : FsCache Dev) {c' : FsCache Dev} → IsMounted B g c → sync B c ≡ done tt c' → Kept c c'
  sync-Kept c {c'} m e =
      let y : Synced B c c' = sync-Synced B c m.coherent.bytes e in
      let f = sync_flushes B c m.coherent e in
      (
        record {
          coherent = f.2;
          offset = y.same_offset ∙ m.offset;
          home = ground (arith, m.home, y.same_mirror, y.same_sector);
        },
        λ t v.
            ground
              (arith, f.0 t v.0 (visible-not-IsCopy B g h m t v), y.same_sector, y.same_buffer),
      )

  fetch_range-Kept :
      (s n : ℕ) (dst : Sectors) (c : FsCache Dev) {b : Sectors} {c' : FsCache Dev}
      → IsMounted B g c
      → fetch_range B s n dst c ≡ done b c'
      → Kept c c'
  fetch_range-Kept s n dst c {b} {c'} m e =
      subst (Kept c) (done-injective ok).1
        (same_media c (read_sectors c.device s n dst).2 (reads_media c.device s n dst) m)
    where
      ok :
          ◌≡◌ {A = Outcome (FsCache Dev) Sectors}
            (done
              (read_sectors c.device s n dst).1
              (record c { device = (read_sectors c.device s n dst).2 }))
            (done b c')
      ok = unfold fetch_range in ground arith

  pub Kept-trans : (c c1 c2 : FsCache Dev) → Kept c c1 → Kept c1 c2 → Kept c c2
  Kept-trans c c1 c2 p q = (q.0, λ t v. q.1 t v ∙ p.1 t v)

  pub cache_safe_read_range-Kept :
      (s n : ℕ) (dst : Sectors) (c : FsCache Dev) {b : Sectors} {c' : FsCache Dev}
      → IsMounted B g c
      → s + n < 2 ^ 32
      → ((i : ℕ) → i < n → IsVisible B g (s + i))
      → cache_safe_read_range B s n dst c ≡ done b c'
      → ((i : ℕ) → i < n → b i ≡ view B c (s + i)) × Kept c c'
  cache_safe_read_range-Kept s n dst c {b} {c'} m fit vis e = (
    λ i lt.
        cache_safe_read_range-view B s n dst c m.coherent fit
          (λ i lt. visible-not-IsCopy B g h m (s + i) (vis i lt)) e i lt,
    elim (Bool-cases (is_cached_range c s n)) [
      | inl k ↦
          let (_, c1, p, q) = bind-done (sync B c) (λ _. fetch_range B s n dst) (flushed k) in
          let one = sync-Kept c m p in Kept-trans c c1 c' one (fetch_range-Kept s n dst c1 one.0 q)
      | inr k ↦ fetch_range-Kept s n dst c m (direct k)
    ],
  )
    where
      flushed :
          is_cached_range c s n ≡ true → bind (sync B c) (λ _. fetch_range B s n dst) ≡ done b c'
      flushed k = unfold cache_safe_read_range in rw (k, cache_safe_read_range) at e

      direct : is_cached_range c s n ≡ false → fetch_range B s n dst c ≡ done b c'
      direct k = unfold cache_safe_read_range in rw (k, cache_safe_read_range) at e
