-- ===== src/File/Write/Wrote.antt =====
-- Bytes of a file replaced: what a run of sectors that is stored means for the bytes of the file.
use sd_fat.Base.{
  ℕ, ◌+◌, ◌-◌, ◌*◌, ◌/◌, ◌%◌, ◌≤◌, ◌<◌, ◌≡◌, ◌≢◌, ◌⊎◌, inl, inr, sym, ◌∙◌, ap, arith, false, List,
  dec_lt, dec_le,
}
use sd_fat.Base.Lists.{length}
use sd_fat.Endian.{Bytes}
use sd_fat.Device.{BlockDevice, Sectors}
use sd_fat.Cache.{FsCache}
use sd_fat.Cache.View.{view}
use sd_fat.Fat.{Geometry}
use sd_fat.Fat.Layout.{IsGeometry}
use sd_fat.Fat.Window.{IsMounted, IsVisible}
use sd_fat.File.{FatFile}
use sd_fat.File.Place.{IsLayout, IsPlaced, data_sector, file_byte, cluster_pos}
use sd_fat.File.Follow.{IsFile, cluster_number}
use sd_fat.File.Visible.{row_plus, data_sector-IsVisible, sector_on}
use sd_fat.File.Distinct.{data_sector-injective}
use sd_fat.File.Write.Store.{Replaced}

-- The file with room for `size` bytes.
abbrev pub grown : FatFile → ℕ → FatFile
grown f size = record f { file_size = size }

-- The current cluster is that of the byte before the position, and none at the start.
pub record IsReadyToWrite (g : Geometry) (cs : List ℕ) (f : FatFile) (size : ℕ) : Type 0 where
  pub placed : IsPlaced g cs (grown f size)
  pub at_start : f.cur_position ≡ 0 → f.cur_cluster ≡ 0

-- Byte `k` behind the bytes that are written: the file has it, and has not just been preallocated.
abbrev pub IsDefined : FatFile → ℕ → Type 0
IsDefined f k = (k < f.file_size) × (f.preallocated ≡ false)

-- A number is outside a range that it meets nowhere.
apart : (s lo n : ℕ) → ((t : ℕ) → t < n → s ≢ lo + t) → (s < lo) ⊎ (lo + n ≤ s)
apart s lo n f = elim (dec_lt s lo) [
  | yes a ↦ inl a
  | no a ↦ elim (dec_le (lo + n) s) [
    | yes z ↦ inr z
    | no z ↦ absurd (f (s - lo) (omega arith) (omega arith))
  ]
]

module _ (B : BlockDevice) (g : Geometry) (hg : IsGeometry g) (d : IsLayout g) (cs : List ℕ) where
  open B use {Dev}

  -- A sector that belongs to no place of the file.
  abbrev pub IsForeign : ℕ → Type 0
  IsForeign t = (q : ℕ) → q / g.sectors_per_cluster < length cs → t ≢ data_sector g cs q

  -- Among the first `size` bytes of the file those from its position on are the `n` bytes of `src`
  -- behind place `at`, the others and all other sectors are as before.
  pub record Wrote (f : FatFile) (size : ℕ) (src : Bytes) (at n : ℕ) (c c' : FsCache Dev)
      : Type 0 where
    pub mounted : IsMounted B g c'
    pub content :
        (k : ℕ)
        → k < size
        → f.cur_position ≤ k
        → k < f.cur_position + n
        → file_byte g (view B c') cs k ≡ src (at + (k - f.cur_position))
    pub kept :
        (k : ℕ)
        → k < size
        → (k < f.cur_position) ⊎ ((f.cur_position + n ≤ k) × IsDefined f k)
        → file_byte g (view B c') cs k ≡ file_byte g (view B c) cs k
    pub others : (t : ℕ) → IsVisible B g t → IsForeign t → view B c' t ≡ view B c t

  module _ (f : FatFile) (size : ℕ) (src : Bytes) (at n ns : ℕ) (b : Sectors) (c c' : FsCache Dev)
      (i : IsFile B g hg d cs c (grown f size))
      (r : Replaced B g hg (data_sector g cs (f.cur_position / 512)) ns b c c')
      (fit : f.cur_position / 512 % g.sectors_per_cluster + ns ≤ g.sectors_per_cluster)
      (number : f.cur_position / 512 / g.sectors_per_cluster < length cs) where
    abbrev q0 : ℕ
    q0 = f.cur_position / 512

    -- A sector of the run, and one outside it.
    inside : (q : ℕ) → q0 ≤ q → q < q0 + ns → view B c' (data_sector g cs q) ≡ b (q - q0)
    inside q lo hi =
        let (e, _, _) = sector_on B g hg d cs c (grown f size) q0 (q - q0) i number (omega arith) in
        let e' : data_sector g cs q ≡ data_sector g cs q0 + (q - q0) =
          ap (data_sector g cs) {x = q} {y = q0 + (q - q0)} (omega arith) ∙ e in
        ap (view B c') e' ∙ r.content (q - q0) (omega arith)

    outside :
        (q : ℕ)
        → q / g.sectors_per_cluster < length cs
        → (q < q0) ⊎ (q0 + ns ≤ q)
        → view B c' (data_sector g cs q) ≡ view B c (data_sector g cs q)
    outside q lt out =
        let v = data_sector-IsVisible B g hg d cs c q (grown f size) i lt in
        r.others (data_sector g cs q)
          (apart (data_sector g cs q) (data_sector g cs q0) ns (not_in q lt out)) v.1
      where
        not_in :
            (q : ℕ)
            → q / g.sectors_per_cluster < length cs
            → (q < q0) ⊎ (q0 + ns ≤ q)
            → (t : ℕ) → t < ns
            → data_sector g cs q ≢ data_sector g cs q0 + t
        not_in q lt out t tn e =
            let (x, _, _) = sector_on B g hg d cs c (grown f size) q0 t i number (omega arith) in
            let (a, _) = row_plus q0 g.sectors_per_cluster t (cluster_pos g d) (omega arith) in
            let z =
              data_sector-injective B g hg d cs c (grown f size) q (q0 + t) i lt
                (omega (arith, a, number)) (e ∙ sym x) in
            omega (arith, z, out)

    foreign : (t : ℕ) → IsForeign t → (t < data_sector g cs q0) ⊎ (data_sector g cs q0 + ns ≤ t)
    foreign t fo = apart t (data_sector g cs q0) ns (λ u lt e.
        let (x, _, _) = sector_on B g hg d cs c (grown f size) q0 u i number (omega arith) in
        let (y, _) = row_plus q0 g.sectors_per_cluster u (cluster_pos g d) (omega arith) in
        fo (q0 + u) (omega (arith, y, number)) (omega (arith, x, e)))

    pub Replaced-Wrote :
        f.cur_position + n ≤ 512 * (q0 + ns)
        → ((k : ℕ)
            → f.cur_position ≤ k
            → k < f.cur_position + n
            → b (k / 512 - q0) (k % 512) ≡ src (at + (k - f.cur_position)))
        → ((k : ℕ)
            → q0 ≤ k / 512
            → k / 512 < q0 + ns
            → (k < f.cur_position) ⊎ ((f.cur_position + n ≤ k) × IsDefined f k)
            → b (k / 512 - q0) (k % 512) ≡ file_byte g (view B c) cs k)
        → Wrote f size src at n c c'
    Replaced-Wrote long new old = record {
      mounted = r.mounted;
      content = λ k ks lo hi.
          ap (λ (x : Bytes). x (k % 512)) (inside (k / 512) (omega arith) (omega arith))
          ∙ new k lo hi;
      kept = λ k ks o. elim (dec_lt (k / 512) q0) [
        | yes a ↦ ap (λ (x : Bytes). x (k % 512)) (outside (k / 512) (has k ks) (inl a))
        | no a ↦ elim (dec_le (q0 + ns) (k / 512)) [
          | yes z ↦ ap (λ (x : Bytes). x (k % 512)) (outside (k / 512) (has k ks) (inr z))
          | no z ↦
              ap (λ (x : Bytes). x (k % 512)) (inside (k / 512) (omega arith) (omega arith))
              ∙ old k (omega arith) (omega arith) o
        ]
      ];
      others = λ t v fo. r.others t (foreign t fo) v;
    }
      where
        has : (k : ℕ) → k < size → k / 512 / g.sectors_per_cluster < length cs
        has k ks = cluster_number B g hg d cs c (grown f size) k i ks
