-- ===== src/Fat/Window.antt =====
-- A mounted volume: the cache is coherent, and only sectors of the first FAT are owed to the
-- second. Then `fatCachePrepare` of a FAT sector opens a window on it and changes nothing else.
use sd_fat.Base.{ℕ, ◌≡◌, ◌≢◌, inl, arith, true, false, ◌||◌, done, ◌==◌, ℕ_discrete}
use sd_fat.Device.{BlockDevice}
use sd_fat.Cache.{FsCache, Access, no_sector}
use sd_fat.Cache.View.{view, IsCopy, IsCoherent}
use sd_fat.Cache.Prepare.{Prepared, prepare-Prepared}
use sd_fat.Fat.{Geometry, fat_cache_prepare}
use sd_fat.Fat.Layout.{IsGeometry, InFat, InMirror}

module _ (B : BlockDevice) (g : Geometry) where
  open B use {Dev}

  pub record IsMounted (c : FsCache Dev) : Type 0 where
    pub coherent : IsCoherent B c
    pub offset : c.mirror_offset ≡ g.sectors_per_fat
    pub home : c.mirror ≡ true → InFat g c.sector × (g.fat_count ≡ 2)

  -- A sector that no FAT access writes but the first FAT's own.
  abbrev pub IsVisible : ℕ → Type 0
  IsVisible t = (t ≢ no_sector) × ¬ InMirror g t

  -- The two caches show a client the same sectors.
  abbrev pub SameView : FsCache Dev → FsCache Dev → Type 0
  SameView c c' = (t : ℕ) → IsVisible t → view B c' t ≡ view B c t

  pub InFat-IsVisible : {s : ℕ} → IsGeometry g → InFat g s → IsVisible s
  InFat-IsVisible h p = (omega (arith, h.sectors), λ q. omega arith)

  pub visible-not-IsCopy :
      {c : FsCache Dev} → IsGeometry g → IsMounted c → (t : ℕ) → IsVisible t → ¬ IsCopy B c t
  visible-not-IsCopy h m t v k =
      let f = m.home k.1 in
      v.1 (
        f.1,
        omega (arith, f.0, m.offset, h.sectors, k.2),
        omega (arith, f.0, m.offset, h.sectors, k.2),
      )

  -- The window on sector `s` after `fatCachePrepare`.
  pub record Window (s : ℕ) (a : Access) (c c' : FsCache Dev) : Type 0 where
    pub mounted : IsMounted c'
    pub sector : c'.sector ≡ s
    pub content : c'.buffer ≡ view B c s
    pub same : SameView c c'
    pub marked : a.dirty ≡ true → c'.dirty ≡ true

  pub fat_cache_prepare-Window :
      (s : ℕ) (a : Access) (c : FsCache Dev) {c' : FsCache Dev}
      → IsGeometry g
      → IsMounted c
      → InFat g s
      → a.no_read ≡ false
      → a.mirror ≡ false
      → fat_cache_prepare B g s a c ≡ done tt c'
      → Window s a c c'
  unfolding fat_cache_prepare
  fat_cache_prepare-Window s a c {c'} h m f nr nm e = record {
    mounted = record {
      coherent = p.coherent (inl nr);
      offset = omega (arith, p.offset, m.offset);
      home = λ k. (rw p.sector f, ground (arith, p.mirror k, m.home));
    };
    sector = p.sector;
    content = content;
    same = λ t v. elim (ℕ_discrete t s) [
      | yes e ↦ ground (arith, p.sector, content)
      | no ne ↦ p.others t ne v.0 (visible-not-IsCopy h m t v)
    ];
    marked = p.marked;
  }
    where
      a' : Access
      a' = record a { mirror = a.mirror || g.fat_count == 2 }

      p : Prepared B s a' c c'
      p = prepare-Prepared B s a' c m.coherent e

      content : c'.buffer ≡ view B c s
      content = p.content nr (visible-not-IsCopy h m s (InFat-IsVisible h f))
