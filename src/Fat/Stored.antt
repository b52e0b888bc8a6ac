-- ===== src/Fat/Stored.antt =====
-- Reading and storing bytes of the first FAT through a window on one of its sectors.
use sd_fat.Base.{
  ℕ, ◌+◌, ◌-◌, ◌*◌, ◌/◌, ◌%◌, ◌≤◌, ◌<◌, ◌≡◌, ◌≢◌, ◌⊎◌, refl, ap, sym, ◌∙◌, arith, done, bind,
  bind-done, done-injective, subst, ℕ_discrete,
}
use sd_fat.Endian.{Bytes}
use sd_fat.Endian.Laws.{IsBytes}
use sd_fat.Device.{BlockDevice, Sectors}
use sd_fat.Cache.{FsCache, Access, for_read, for_write}
use sd_fat.Cache.View.{view}
use sd_fat.Fat.{Geometry, store, fat_cache_prepare}
use sd_fat.Fat.Layout.{IsGeometry, InFat, fat_byte}
use sd_fat.Fat.Window.{
  IsMounted, IsVisible, SameView, Window, InFat-IsVisible, fat_cache_prepare-Window,
}

pub fat_byte_at :
    (g : Geometry) (v : Sectors) (s i k : ℕ)
    → s ≡ g.fat_start_sector + k / 512
    → i ≡ k % 512
    → v s i ≡ fat_byte g v k
fat_byte_at g v s i k p q = rw (p, q)

module _ (B : BlockDevice) (g : Geometry) where
  open B use {Dev, media-IsBytes}

  abbrev pub table : FsCache Dev → Bytes
  table c = fat_byte g (view B c)

  -- Bytes of the table, seen through a window.
  pub Window-table :
      {s : ℕ} {a : Access} {c c1 : FsCache Dev} (i k : ℕ)
      → Window B g s a c c1
      → s ≡ g.fat_start_sector + k / 512
      → i ≡ k % 512
      → c1.buffer i ≡ table c k
  Window-table {s} {a} {c} i k w p q = ap (λ b. b i) w.content ∙ fat_byte_at g (view B c) s i k p q

  pub SameView-table :
      (c c' : FsCache Dev) (k : ℕ)
      → IsGeometry g
      → k < 512 * g.sectors_per_fat
      → SameView B g c c'
      → table c' k ≡ table c k
  SameView-table c c' k h lt s =
      ap (λ b. b (k % 512)) (s (g.fat_start_sector + k / 512) (InFat-IsVisible B g h (omega arith)))

  pub table-lt : (c : FsCache Dev) (k : ℕ) → IsMounted B g c → table c k < 256
  table-lt c k m = ground (
    arith,
    m.coherent.bytes (k % 512),
    media-IsBytes c.device (g.fat_start_sector + k / 512) (k % 512),
  )

  -- The table from `c` to `c'` has changed at most in bytes `lo` to `lo + len - 1`, and no sector
  -- outside the FATs has.
  pub record Stored (lo len : ℕ) (c c' : FsCache Dev) : Type 0 where
    pub mounted : IsMounted B g c'
    pub frame :
        (k : ℕ) → k < 512 * g.sectors_per_fat → (k < lo) ⊎ (lo + len ≤ k) → table c' k ≡ table c k
    pub outside : (t : ℕ) → IsVisible B g t → ¬ InFat g t → view B c' t ≡ view B c t

  -- New bytes `b` in the window, equal to the old ones but for `len` bytes from `off` on.
  module _ {s : ℕ} {c c1 : FsCache Dev} (off len lo : ℕ) (b : Bytes) (h : IsGeometry g)
      (w : Window B g s for_write c c1) (f : InFat g s) (bytes : IsBytes b)
      (at : lo ≡ 512 * (s - g.fat_start_sector) + off)
      (rest : (j : ℕ) → (j < off) ⊎ (off + len ≤ j) → b j ≡ c1.buffer j)
      (fit : off + len ≤ 512) where
    store-IsMounted : IsMounted B g (store b c1)
    store-IsMounted = record {
      coherent = record { bytes = bytes; clean = ground (arith, w.marked) };
      offset = w.mounted.offset;
      home = w.mounted.home;
    }

    store_elsewhere : (t : ℕ) → t ≢ s → IsVisible B g t → view B (store b c1) t ≡ view B c t
    store_elsewhere t ne v = ground (arith, w.sector, w.same t v)

    pub store-table :
        (k i : ℕ) → lo ≤ k → k < lo + len → i + lo ≡ k + off → table (store b c1) k ≡ b i
    store-table k i p q e =
        sym (fat_byte_at g (view B (store b c1)) s i k (omega arith) (omega arith))
        ∙ ground (arith, w.sector)

    store_frame :
        (k : ℕ)
        → k < 512 * g.sectors_per_fat
        → (k < lo) ⊎ (lo + len ≤ k)
        → table (store b c1) k ≡ table c k
    store_frame k lt o = elim (ℕ_discrete (g.fat_start_sector + k / 512) s) [
      | yes e ↦
          ground (
            arith,
            w.sector,
            rest (k % 512) (omega arith),
            ap (λ (x : Bytes). x (k % 512)) w.content,
          )
      | no ne ↦
          ap (λ x. x (k % 512))
            (store_elsewhere (g.fat_start_sector + k / 512) ne
              (InFat-IsVisible B g h (omega arith)))
    ]

    pub store-Stored : Stored lo len c (store b c1)
    store-Stored = record {
      mounted = store-IsMounted;
      frame = store_frame;
      outside = λ t v nf. store_elsewhere t (λ e. nf (rw e f)) v;
    }

  -- One change after another.
  pub Stored-trans :
      (lo : ℕ) {c c1 c2 : FsCache Dev}
      → Stored lo 1 c c1
      → Stored (lo + 1) 1 c1 c2
      → Stored lo 2 c c2
  Stored-trans lo p q = record {
    mounted = q.mounted;
    frame = λ k lt o. q.frame k lt (omega arith) ∙ p.frame k lt (omega arith);
    outside = λ t v nf. q.outside t v nf ∙ p.outside t v nf;
  }

  -- A value read through a window, and the cache that is left.
  pub peek :
      {A : Type 0} (s : ℕ) (read : FsCache Dev → A) {a : A} {c c' : FsCache Dev}
      → IsGeometry g
      → IsMounted B g c
      → InFat g s
      → bind (fat_cache_prepare B g s for_read c) (λ _ x. done (read x) x) ≡ done a c'
      → (a ≡ read c') × Window B g s for_read c c'
  peek s read {a} {c} {c'} h m f e =
      let (_, c1, p, q) =
        bind-done (fat_cache_prepare B g s for_read c) (λ _ x. done (read x) x) e in
      let (ev, ec) = done-injective q in
      subst (λ x. (a ≡ read x) × Window B g s for_read c x) ec
        (sym ev, fat_cache_prepare-Window B g s for_read c h m f refl refl p)

  -- Bytes stored through a window.
  pub poked :
      (s : ℕ) (write : Bytes → Bytes) {c c' : FsCache Dev}
      → IsGeometry g
      → IsMounted B g c
      → InFat g s
      → bind (fat_cache_prepare B g s for_write c) (λ _ x. done tt (store (write x.buffer) x))
        ≡ done tt c'
      → (c1 : FsCache Dev) × Window B g s for_write c c1 × (store (write c1.buffer) c1 ≡ c')
  poked s write {c} h m f e =
      let (_, c1, p, q) =
        bind-done (fat_cache_prepare B g s for_write c) (λ _ x. done tt (store (write x.buffer) x))
          e in
      (c1, fat_cache_prepare-Window B g s for_write c h m f refl refl p, (done-injective q).1)
