-- ===== src/File/Follow.antt =====
-- A file whose clusters are a chain of a mounted volume, and the step from the cluster of the byte
-- before the position to the cluster of the position.
use sd_fat.Base.{
  ℕ, suc, ◌+◌, ◌-◌, ◌/◌, ◌%◌, ◌≤◌, ◌<◌, ◌≡◌, sym, ◌∙◌, ap, subst, arith, true, List, dec_lt, done,
  u32,
}
use native.Mathlib.Nat.{div-div-eq-div-mul, mod-eq_of_lt, div-lt_iff_lt-mul}
use sd_fat.Base.Lists.{length, get_or}
use sd_fat.Device.{BlockDevice}
use sd_fat.Cache.{FsCache}
use sd_fat.Fat.{Geometry, Link, next, link_of, fat_get}
use sd_fat.Fat.Layout.{IsGeometry, entry}
use sd_fat.Fat.Stored.{table}
use sd_fat.Fat.Table.{fat_get-entry}
use sd_fat.Alloc.Mounted.{SameView-entry}
use sd_fat.File.{FatFile, plain_file}
use sd_fat.File.Sectors.{Kept, Kept-trans}
use sd_fat.File.Place.{IsLayout, IsStored, IsPlaced, cluster_at, cluster_pos, last_small}
use sd_fat.File.Cluster.{IsChain-next, All-get, row_inside, row_start}

module _ (B : BlockDevice) (g : Geometry) (hg : IsGeometry g) (d : IsLayout g) (cs : List ℕ)
    (c0 : FsCache (B.Dev)) where
  open B use {Dev}

  -- The clusters `cs` belong to the file in the volume as it was at `c0`.
  abbrev pub IsFile : FatFile → Type 0
  IsFile f = (f.kind ≡ plain_file) × IsStored g (λ n. entry g (table B g c0) n) cs f

  pub cluster_number :
      (f : FatFile) (p : ℕ)
      → IsFile f
      → p < f.file_size
      → p / 512 / g.sectors_per_cluster < length cs
  cluster_number f p i lt = rw (div-div-eq-div-mul p 512 g.sectors_per_cluster) (
      (div-lt_iff_lt-mul {x = p} {y = length cs} (omega (arith, cluster_pos g d))).1
        (omega (arith, i.1.room)))

  abbrev pub Starts : FatFile → Type 0
  Starts f = (f.cur_position % 512 ≡ 0) × (f.cur_position / 512 % g.sectors_per_cluster ≡ 0)

  -- A position at the start of a cluster is in the cluster behind that of the byte before it.
  pub next_number :
      (f : FatFile)
      → 0 < f.cur_position
      → Starts f
      → suc ((f.cur_position - 1) / 512 / g.sectors_per_cluster)
        ≡ f.cur_position / 512 / g.sectors_per_cluster
  next_number f pos st =
      let w : ℕ = g.sectors_per_cluster in
      omega (
        arith,
        row_start (f.cur_position / 512) w st.1 (omega (arith, st.0)) (cluster_pos g d),
        ap (λ t. t / w) {x = (f.cur_position - 1) / 512} {y = f.cur_position / 512 - 1}
            (omega (arith, st.0)),
      )

  -- `fatGet` of the cluster before the position leads to the cluster of the position.
  pub followed :
      (f : FatFile) (l : Link) (c c' : FsCache Dev)
      → IsFile f
      → IsPlaced g cs f
      → f.cur_position < f.file_size
      → 0 < f.cur_position
      → Starts f
      → Kept B g hg c0 c
      → fat_get B g f.cur_cluster c ≡ done l c'
      → (l ≡ next (cluster_at g cs (f.cur_position / 512))) × Kept B g hg c0 c'
  followed f l c c' i p lt pos st k e =
      let n : ℕ = (f.cur_position - 1) / 512 / g.sectors_per_cluster in
      let m = next_number f pos st in
      let (lo, hi, r, mounted, same) = fat_get-entry B g hg f.cur_cluster k.0 e in
      let old = SameView-entry B g hg c0 c f.cur_cluster hi k.1 in
      let here = p.cluster pos in
      let (to, le) =
        IsChain-next (λ t. entry g (table B g c0) t) g.last_cluster f.first_cluster cs n i.1.chain
          (omega (arith, m, cluster_number f f.cur_position i lt)) in
      let x : entry g (table B g c) f.cur_cluster ≡ cluster_at g cs (f.cur_position / 512) =
        old ∙ ap (λ t. entry g (table B g c0) t) here ∙ to ∙ ap (λ t. get_or cs t 0) m in
      let small : cluster_at g cs (f.cur_position / 512) ≤ g.last_cluster =
        subst (λ t. t ≤ g.last_cluster)
          (ap (λ t. entry g (table B g c0) t) (sym here) ∙ sym old ∙ x) le in
      (r ∙ ap (link_of g) x ∙ ground (arith, small), Kept-trans B g hg c0 c c' k (mounted, same))

  -- In a row the cluster behind that of the byte before the position is the one of the position.
  pub row_step :
      (f : FatFile)
      → IsFile f
      → IsPlaced g cs f
      → f.cur_position < f.file_size
      → Starts f
      → 0 < f.cur_position
      → f.contiguous ≡ true
      → u32 (f.cur_cluster + 1) ≡ cluster_at g cs (f.cur_position / 512)
  row_step f i p lt st pos row =
      let n : ℕ = (f.cur_position - 1) / 512 / g.sectors_per_cluster in
      let m = next_number f pos st in
      let fit : suc n < length cs = omega (arith, m, cluster_number f f.cur_position i lt) in
      let here = p.cluster pos in
      let all = All-get (λ c. (2 ≤ c) × (c ≤ g.last_cluster)) cs (suc n) i.1.inside fit in
      omega (
        arith,
        here,
        i.1.in_row row n (omega arith),
        i.1.in_row row (suc n) fit,
        all,
        last_small g d,
      )
      ∙ ap (λ t. get_or cs t 0) m

  -- Inside a cluster the current cluster is that of the position already.
  pub same_cluster :
      (f : FatFile)
      → IsPlaced g cs f
      → ¬ Starts f
      → f.cur_cluster ≡ cluster_at g cs (f.cur_position / 512)
  same_cluster f p inner = elim (dec_lt 0 (f.cur_position % 512)) [
    | yes a ↦
        p.cluster (omega arith)
        ∙ ap (cluster_at g cs) {x = (f.cur_position - 1) / 512} {y = f.cur_position / 512}
            (omega arith)
    | no a ↦ elim (dec_lt 0 (f.cur_position / 512 % g.sectors_per_cluster)) [
      | yes b ↦
          p.cluster (positive b)
          ∙ ap (cluster_at g cs) {x = (f.cur_position - 1) / 512} {y = f.cur_position / 512 - 1}
              (omega arith)
          ∙ ap (λ t. get_or cs t 0)
              (row_inside (f.cur_position / 512) g.sectors_per_cluster b (cluster_pos g d))
      | no b ↦ absurd (inner (omega arith, omega arith))
    ]
  ]
    where
      positive : 0 < f.cur_position / 512 % g.sectors_per_cluster → 0 < f.cur_position
      positive b = elim (dec_lt 0 (f.cur_position / 512)) [
        | yes a ↦ omega arith
        | no a ↦ absurd (
            omega (
              arith,
              mod-eq_of_lt (cluster_pos g d),
              ap (λ t. t % g.sectors_per_cluster) {x = f.cur_position / 512} {y = 0} (omega arith),
            ))
      ]
