-- ===== src/File/Write/Store.antt =====
-- Sectors of the data area of a mounted volume, stored through the cache or past it.
use sd_fat.Base.{ℕ, ◌+◌, ◌^◌, ◌≤◌, ◌<◌, ◌≡◌, ◌≢◌, ◌⊎◌, inr, ap, ◌∙◌, arith, true, false, done}
use sd_fat.Endian.{Bytes}
use sd_fat.Endian.Laws.{IsBytes}
use sd_fat.Device.{BlockDevice, Sectors}
use sd_fat.Cache.{
  FsCache, Access, no_sector, invalidate, prepare, cache_safe_write, cache_safe_write_range,
}
use sd_fat.Cache.View.{view, IsCoherent}
use sd_fat.Cache.Prepare.{Prepared, prepare-Prepared}
use sd_fat.Cache.Safe.{cache_safe_write-view, cache_safe_write_range-view}
use sd_fat.Fat.{Geometry, store}
use sd_fat.Fat.Layout.{IsGeometry, InFat}
use sd_fat.Fat.Window.{IsMounted, IsVisible, visible-not-IsCopy}
use sd_fat.File.Sectors.{Kept}

module _ (B : BlockDevice) (g : Geometry) (hg : IsGeometry g) where
  open B use {Dev}

  -- Sectors `s` to `s + n - 1` hold the bytes of `b` now, and a client sees the others as before.
  pub record Replaced (s n : ℕ) (b : Sectors) (c c' : FsCache Dev) : Type 0 where
    pub mounted : IsMounted B g c'
    pub content : (i : ℕ) → i < n → view B c' (s + i) ≡ b i
    pub others : (t : ℕ) → (t < s) ⊎ (s + n ≤ t) → IsVisible B g t → view B c' t ≡ view B c t

  -- A later cache that shows a client the same.
  pub Replaced-Kept :
      (s n : ℕ) (b : Sectors) (c c1 c' : FsCache Dev)
      → ((i : ℕ) → i < n → IsVisible B g (s + i))
      → Replaced s n b c c1
      → Kept B g hg c1 c'
      → Replaced s n b c c'
  Replaced-Kept s n b c c1 c' vis r k = record {
    mounted = k.0;
    content = λ i lt. k.1 (s + i) (vis i lt) ∙ r.content i lt;
    others = λ t out v. k.1 t v ∙ r.others t out v;
  }

  -- The cache after `prepare` of a sector for writing.
  pub record Opened (s : ℕ) (a : Access) (c c1 : FsCache Dev) : Type 0 where
    pub mounted : IsMounted B g c1
    pub sector : c1.sector ≡ s
    pub marked : c1.dirty ≡ true
    pub content : a.no_read ≡ false → c1.buffer ≡ view B c s
    pub others : (t : ℕ) → t ≢ s → IsVisible B g t → view B c1 t ≡ view B c t

  pub prepare-Opened :
      (s : ℕ) (a : Access) (c : FsCache Dev) {c1 : FsCache Dev}
      → IsMounted B g c
      → IsVisible B g s
      → a.dirty ≡ true
      → a.mirror ≡ false
      → prepare B s a c ≡ done tt c1
      → Opened s a c c1
  prepare-Opened s a c {c1} m v di nm e = record {
    mounted = record {
      coherent = p.coherent (inr di);
      offset = omega (arith, p.offset, m.offset);
      home = λ k. ground (arith, p.mirror k, m.home, p.sector);
    };
    sector = p.sector;
    marked = p.marked di;
    content = λ nr. p.content nr (visible-not-IsCopy B g hg m s v);
    others = λ t ne w. p.others t ne w.0 (visible-not-IsCopy B g hg m t w);
  }
    where
      p : Prepared B s a c c1
      p = prepare-Prepared B s a c m.coherent e

  -- New bytes in the buffer of an opened sector.
  pub store-Replaced :
      (s : ℕ) (a : Access) (b : Bytes) (c c1 : FsCache Dev)
      → IsBytes b
      → Opened s a c c1
      → Replaced s 1 (λ _. b) c (store b c1)
  store-Replaced s a b c c1 hb o = record {
    mounted = record {
      coherent = record { bytes = hb; clean = ground (arith, o.marked) };
      offset = o.mounted.offset;
      home = o.mounted.home;
    };
    content = λ i lt. ground (arith, o.sector);
    others = λ t out v. ground (arith, o.sector, o.others t (omega arith) v);
  }

  pub cache_safe_write-Replaced :
      (s : ℕ) (src : Bytes) (c : FsCache Dev) {c' : FsCache Dev}
      → IsMounted B g c
      → IsBytes src
      → s ≢ no_sector
      → cache_safe_write B s src c ≡ done tt c'
      → Replaced s 1 (λ _. src) c c'
  cache_safe_write-Replaced s src c {c'} m hb ns e = record {
    mounted = record {
      coherent = w.2;
      offset = unfold cache_safe_write invalidate in ground (arith, m.offset);
      home = λ k. unfold cache_safe_write invalidate in ground (arith, m.home);
    };
    content = λ i lt. ap (view B c') {x = s + i} {y = s} (omega arith) ∙ w.0;
    others = λ t out v. w.1 t (omega arith) v.0;
  }
    where
      w :
          (view B c' s ≡ src)
          × ((t : ℕ) → t ≢ s → t ≢ no_sector → view B c' t ≡ view B c t)
          × IsCoherent B c'
      w = cache_safe_write-view B s src c m.coherent hb ns e

  pub cache_safe_write_range-Replaced :
      (s n : ℕ) (src : Sectors) (c : FsCache Dev) {c' : FsCache Dev}
      → IsMounted B g c
      → ((i : ℕ) → i < n → IsBytes (src i))
      → s + n < 2 ^ 32
      → cache_safe_write_range B s n src c ≡ done tt c'
      → Replaced s n src c c'
  cache_safe_write_range-Replaced s n src c {c'} m hb fit e =
      let w = cache_safe_write_range-view B s n src c m.coherent hb fit e in
      record {
        mounted = record { coherent = w.2; offset = offset_kept; home = home_kept };
        content = w.0;
        others = λ t out v. w.1 t out v.0;
      }
    where
      offset_kept : c'.mirror_offset ≡ g.sectors_per_fat
      offset_kept = unfold cache_safe_write_range invalidate in ground (arith, m.offset)

      home_kept : c'.mirror ≡ true → InFat g c'.sector × (g.fat_count ≡ 2)
      home_kept k = unfold cache_safe_write_range invalidate in ground (arith, m.home)
