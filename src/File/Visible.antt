-- ===== src/File/Visible.antt =====
-- The sectors of a file on a mounted volume: each is one that a client sees.
use sd_fat.Base.{ℕ, ◌+◌, ◌-◌, ◌*◌, ◌/◌, ◌%◌, ◌≤◌, ◌<◌, ◌≡◌, ◌∙◌, ap, subst, arith, List, u32}
use native.Mathlib.Nat.{div-add-mod', mod-lt}
use sd_fat.Base.Lists.{length, get_or}
use sd_fat.Device.{BlockDevice}
use sd_fat.Cache.{FsCache, no_sector}
use sd_fat.Fat.{Geometry}
use sd_fat.Fat.Layout.{IsGeometry}
use sd_fat.Fat.Window.{IsVisible}
use sd_fat.File.{FatFile, cluster_start_sector}
use sd_fat.File.Place.{
  IsLayout, cluster_at, data_sector, cluster_pos, cluster_start_sector-at, sector-inside,
}
use sd_fat.File.Cluster.{All-get, row_of}
use sd_fat.File.Follow.{IsFile}

-- `t` places on in a row that has them.
pub row_plus :
    (q w t : ℕ) → 0 < w → q % w + t < w → ((q + t) / w ≡ q / w) × ((q + t) % w ≡ q % w + t)
row_plus q w t pos fit =
    let e : q + t ≡ q / w * w + (q % w + t) = omega (arith, div-add-mod' q w) in
    let x : (q + t) / w ≡ q / w = ap (λ a. a / w) e ∙ row_of (q / w) w (q % w + t) fit in
    (x, omega (arith, e, div-add-mod' (q + t) w, ap (λ a. a * w) x))

module _ (B : BlockDevice) (g : Geometry) (hg : IsGeometry g) (d : IsLayout g) (cs : List ℕ)
    (c0 : FsCache (B.Dev)) where
  open B use {Dev}

  -- Sector `q` of the file, when the file has it, is a visible sector.
  module _ (q : ℕ) (f : FatFile) (i : IsFile B g hg d cs c0 f)
      (lt : q / g.sectors_per_cluster < length cs) where
    pub cluster_in : (2 ≤ cluster_at g cs q) × (cluster_at g cs q ≤ g.last_cluster)
    cluster_in =
        All-get (λ c. (2 ≤ c) × (c ≤ g.last_cluster)) cs (q / g.sectors_per_cluster) i.1.inside lt

    pub data_sector-IsVisible :
        (data_sector g cs q < no_sector) × IsVisible B g (data_sector g cs q)
    data_sector-IsVisible =
        let low =
          sector-inside g d (cluster_at g cs q) (q % g.sectors_per_cluster) cluster_in.0
            cluster_in.1 (mod-lt q (cluster_pos g d)) in
        (low, (λ e. omega (arith, e, low), λ m. omega (arith, m.2, d.behind_both m.0)))

    pub data_sector-place :
        u32 (cluster_start_sector g (cluster_at g cs q) + q % g.sectors_per_cluster)
        ≡ data_sector g cs q
    data_sector-place = omega (
      arith,
      data_sector-IsVisible.0,
      cluster_start_sector-at g d (cluster_at g cs q) cluster_in.0 cluster_in.1,
    )

  -- Sector `t` from the one with number `q` on, in the same cluster.
  pub sector_on :
      (f : FatFile) (q t : ℕ)
      → IsFile B g hg d cs c0 f
      → q / g.sectors_per_cluster < length cs
      → q % g.sectors_per_cluster + t < g.sectors_per_cluster
      → (data_sector g cs (q + t) ≡ data_sector g cs q + t)
        × IsVisible B g (data_sector g cs q + t)
        × (data_sector g cs q + t < no_sector)
  sector_on f q t i number fit =
      let (a, b) = row_plus q g.sectors_per_cluster t (cluster_pos g d) fit in
      let e : data_sector g cs (q + t) ≡ data_sector g cs q + t =
        omega (arith, b, ap (λ x. (get_or cs x 0 - 2) * g.sectors_per_cluster) a) in
      let v = data_sector-IsVisible (q + t) f i (omega (arith, a, number)) in
      (e, subst (IsVisible B g) e v.1, omega (arith, e, v.0))
