-- ===== src/File/Place.antt =====
-- Where the bytes of a file are: its clusters as a list, and the cluster of a position.
use sd_fat.Base.{
  ℕ, zero, suc, ◌+◌, ◌-◌, ◌*◌, ◌/◌, ◌%◌, ◌^◌, ◌≤◌, ◌<◌, ◌≡◌, refl, sym, ◌∙◌, ap, arith, true, List,
  sub32, ◌>>>◌, bit_and,
}
use native.Mathlib.Nat.{div-div-eq-div-mul, mul-le-mul_left, mul-le-mul_right, one-le-pow, pow-suc}
use sd_fat.Base.Lists.{length, get_or, All}
use sd_fat.Base.Bits.{and_low}
use sd_fat.Endian.{Bytes}
use sd_fat.Device.{Sectors}
use sd_fat.Cache.{no_sector}
use sd_fat.Fat.{Geometry}
use sd_fat.Alloc.Chain.{IsChain}
use sd_fat.File.{FatFile, sector_of_cluster, cluster_start_sector, bytes_per_cluster_shift}

-- The data area lies behind the FATs, and its sector numbers fit 32 bits.
pub record IsLayout (g : Geometry) : Type 0 where
  pub cluster_size : g.sectors_per_cluster ≡ 2 ^ g.sectors_per_cluster_shift
  pub mask : g.cluster_sector_mask ≡ g.sectors_per_cluster - 1
  pub behind : g.fat_start_sector + g.sectors_per_fat ≤ g.data_start_sector
  pub behind_both :
      g.fat_count ≡ 2 → g.fat_start_sector + 2 * g.sectors_per_fat ≤ g.data_start_sector
  pub fits : g.data_start_sector + g.last_cluster * g.sectors_per_cluster < no_sector

-- The cluster that holds sector `q` of the file.
abbrev pub cluster_at : Geometry → List ℕ → ℕ → ℕ
cluster_at g cs q = get_or cs (q / g.sectors_per_cluster) 0

-- Sector `q` of the file on the device, and byte `k` of the file.
abbrev pub data_sector : Geometry → List ℕ → ℕ → ℕ
data_sector g cs q =
    g.data_start_sector
    + (cluster_at g cs q - 2) * g.sectors_per_cluster
    + q % g.sectors_per_cluster

abbrev pub file_byte : Geometry → Sectors → List ℕ → Bytes
file_byte g v cs k = v (data_sector g cs (k / 512)) (k % 512)

-- The clusters of a file: a chain in the table, with room for the bytes of the file.
pub record IsStored (g : Geometry) (e : ℕ → ℕ) (cs : List ℕ) (f : FatFile) : Type 0 where
  pub chain : IsChain e g.last_cluster f.first_cluster cs
  pub inside : All (λ c. (2 ≤ c) × (c ≤ g.last_cluster)) cs
  pub room : f.file_size ≤ length cs * (512 * g.sectors_per_cluster)
  pub small : f.file_size < 2 ^ 32
  pub in_row : f.contiguous ≡ true → (i : ℕ) → i < length cs → get_or cs i 0 ≡ f.first_cluster + i

-- The current cluster is the one of the byte before the position.
pub record IsPlaced (g : Geometry) (cs : List ℕ) (f : FatFile) : Type 0 where
  pub inside : f.cur_position ≤ f.file_size
  pub cluster : 0 < f.cur_position → f.cur_cluster ≡ cluster_at g cs ((f.cur_position - 1) / 512)

two_pow_nine : (k n : ℕ) → n ≡ k + 9 → 2 ^ n ≡ 512 * 2 ^ k
two_pow_nine zero n e = rw e refl
two_pow_nine (suc k) zero e = absurd (omega arith)
two_pow_nine (suc k) (suc n) e =
    omega (arith, pow-suc 2 n, pow-suc 2 k, two_pow_nine k n (omega arith))

-- Place `s` of row `a` comes before row `b`.
pub row_before : (a b w s : ℕ) → a < b → s < w → a * w + s < b * w
row_before a b w s lt fit = omega (arith, mul-le-mul_right {m = a + 1} {n = b} w (omega arith))

module _ (g : Geometry) (d : IsLayout g) where
  pub cluster_pos : 0 < g.sectors_per_cluster
  cluster_pos = omega (arith, d.cluster_size, one-le-pow g.sectors_per_cluster_shift 2)

  pub sector_of_cluster-mod : (k : ℕ) → sector_of_cluster g k ≡ k / 512 % g.sectors_per_cluster
  sector_of_cluster-mod k =
      ap (λ m. bit_and (k / 512) m) (d.mask ∙ ap (λ w. w - 1) d.cluster_size)
      ∙ and_low g.sectors_per_cluster_shift (k / 512)
      ∙ ap (λ w. k / 512 % w) (sym d.cluster_size)

  -- The number of a cluster in its file.
  pub shift-div : (k : ℕ) → k >>> bytes_per_cluster_shift g ≡ k / 512 / g.sectors_per_cluster
  shift-div k =
      ap (λ w. k / w)
        (two_pow_nine g.sectors_per_cluster_shift (bytes_per_cluster_shift g) refl
          ∙ ap (λ w. 512 * w) (sym d.cluster_size))
      ∙ sym (div-div-eq-div-mul k 512 g.sectors_per_cluster)

  pub last_small : g.last_cluster < 2 ^ 32 - 1
  last_small = omega (
    arith,
    d.fits,
    mul-le-mul_left {m = 1} {n = g.sectors_per_cluster} g.last_cluster cluster_pos,
  )

  -- Sector `s` of cluster `c` is a sector of the data area.
  pub sector-inside :
      (c s : ℕ)
      → 2 ≤ c
      → c ≤ g.last_cluster
      → s < g.sectors_per_cluster
      → g.data_start_sector + (c - 2) * g.sectors_per_cluster + s < no_sector
  sector-inside c s lo hi lt =
      omega
        (arith, d.fits, row_before (c - 2) g.last_cluster g.sectors_per_cluster s (omega arith) lt)

  pub cluster_start_sector-at :
      (c : ℕ)
      → 2 ≤ c
      → c ≤ g.last_cluster
      → cluster_start_sector g c ≡ g.data_start_sector + (c - 2) * g.sectors_per_cluster
  cluster_start_sector-at c lo hi =
      let e : sub32 c 2 ≡ c - 2 = omega (arith, last_small) in
      rw (e, sym d.cluster_size) (omega (arith, sector-inside c 0 lo hi cluster_pos))
