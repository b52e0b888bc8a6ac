-- ===== src/ExFat/State.antt =====
-- The sectors of an exFAT volume behind its cache, and the bits of the allocation bitmap.
use sd_fat.Base.{
  ℕ, ◌+◌, ◌-◌, ◌/◌, ◌%◌, ◌^◌, ◌<◌, ◌≡◌, ◌≢◌, inl, refl, ◌∙◌, ap, arith, true, false, Outcome,
  Method, done, fail, stuck, done-injective, ℕ_discrete,
}
use sd_fat.Base.Digit.{digit}
use sd_fat.Device.{BlockDevice, Sectors}
use sd_fat.Cache.{FsCache, Access, no_sector, prepare}
use sd_fat.Cache.View.{view, IsCoherent}
use sd_fat.Cache.Prepare.{Prepared, prepare-Prepared}
use sd_fat.ExFat.{Layout, ExFatPartition, on_cache}

-- The table lies in front of the cluster heap, the heap begins with the bitmap, and the numbers of
-- its sectors and of the clusters fit 32 bits.
pub record IsVolume (v : Layout) : Type 0 where
  pub some_clusters : 0 < v.cluster_count
  pub small : v.cluster_count < 2 ^ 32 - 16
  pub table : v.fat_start_sector + (v.cluster_count + 1) / 128 < v.cluster_heap_start_sector
  pub bitmap : v.cluster_heap_start_sector + v.cluster_count / 4096 < no_sector

-- The bit of a cluster number, less 2.
abbrev pub bitmap_bit : Layout → Sectors → ℕ → ℕ
bitmap_bit v m n = digit (m (v.cluster_heap_start_sector + n / 4096) (n / 8 % 512)) (n % 8)

pub on_cache-done :
    {D A : Type 0} (m : Method (FsCache D) A) (p : ExFatPartition D) {a : A} {q : ExFatPartition D}
    → on_cache m p ≡ done a q
    → (c : FsCache D) × (m p.cache ≡ done a c) × (record p { cache = c } ≡ q)
on_cache-done {D} {A} m p {a} {q} e = go (m p.cache) refl e
  where
    go :
        (o : Outcome (FsCache D) A)
        → m p.cache ≡ o
        → ◌≡◌ {A = Outcome (ExFatPartition D) A}
            (elim o [
              | done a c ↦ done a (record p { cache = c })
              | fail c ↦ fail (record p { cache = c })
              | stuck ↦ stuck
            ])
            (done a q)
        → (c : FsCache D) × (m p.cache ≡ done a c) × (record p { cache = c } ≡ q)
    go (done x c) y z = (c, y ∙ ap (λ t. done t c) (done-injective z).0, (done-injective z).1)
    go (fail c) y z = absurd (cc)
    go stuck y z = absurd (cc)

pub on_cache-ne-stuck :
    {D A : Type 0} (m : Method (FsCache D) A) (p : ExFatPartition D)
    → m p.cache ≢ stuck
    → on_cache m p ≢ stuck
on_cache-ne-stuck m p n = ground (arith, n)

module _ (B : BlockDevice) where
  open B use {Dev}

  -- The cache is coherent, and owes no copy.
  pub record IsReady (c : FsCache Dev) : Type 0 where
    pub coherent : IsCoherent B c
    pub no_mirror : c.mirror ≡ false

  -- A client sees the same sectors.
  abbrev pub SameView : FsCache Dev → FsCache Dev → Type 0
  SameView c c' = (t : ℕ) → t ≢ no_sector → view B c' t ≡ view B c t

  -- Sector `s` is in the buffer.
  pub record Opened (s : ℕ) (a : Access) (c c1 : FsCache Dev) : Type 0 where
    pub ready : IsReady c1
    pub sector : c1.sector ≡ s
    pub content : c1.buffer ≡ view B c s
    pub same : SameView c c1
    pub marked : a.dirty ≡ true → c1.dirty ≡ true

  pub prepare-Opened :
      (s : ℕ) (a : Access) (c : FsCache Dev) {c1 : FsCache Dev}
      → IsReady c
      → s ≢ no_sector
      → a.no_read ≡ false
      → a.mirror ≡ false
      → prepare B s a c ≡ done tt c1
      → Opened s a c c1
  prepare-Opened s a c {c1} r ns nr nm e = record {
    ready = record {
      coherent = p.coherent (inl nr);
      no_mirror = ground (arith, p.mirror, r.no_mirror);
    };
    sector = p.sector;
    content = content;
    same = λ t nt. elim (ℕ_discrete t s) [
      | yes e ↦ ground (arith, p.sector, content)
      | no ne ↦ p.others t ne nt (λ k. absurd (ground (arith, k, r.no_mirror)))
    ];
    marked = p.marked;
  }
    where
      p : Prepared B s a c c1
      p = prepare-Prepared B s a c r.coherent e

      content : c1.buffer ≡ view B c s
      content = p.content nr (λ k. absurd (ground (arith, k, r.no_mirror)))
