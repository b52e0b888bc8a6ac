-- ===== src/File/Distinct.antt =====
-- No sector of the device is two sectors of one file: a chain names each cluster once.
use sd_fat.Base.{
  ℕ, zero, suc, ◌+◌, ◌-◌, ◌*◌, ◌/◌, ◌%◌, ◌<◌, ◌≡◌, ◌≢◌, sym, ◌∙◌, ap, arith, List, [], ◌∷◌,
}
use native.Mathlib.Nat.{div-add-mod', mod-lt}
use sd_fat.Base.Lists.{length, get_or}
use sd_fat.Device.{BlockDevice}
use sd_fat.Cache.{FsCache}
use sd_fat.Fat.{Geometry}
use sd_fat.Fat.Layout.{IsGeometry}
use sd_fat.Alloc.Chain.{IsChain}
use sd_fat.File.{FatFile}
use sd_fat.File.Place.{IsLayout, data_sector, cluster_at, cluster_pos}
use sd_fat.File.Cluster.{All-get, row_of}
use sd_fat.File.Follow.{IsFile}
use sd_fat.File.Visible.{cluster_in}

-- A later cluster is not the first.
first_once :
    (e : ℕ → ℕ) (last c : ℕ) (cs : List ℕ) (j : ℕ)
    → IsChain e last c cs
    → suc j < length cs
    → get_or cs (suc j) 0 ≢ c
first_once e last c [] j h lt = absurd h
first_once e last c (x ∷ []) j h lt = absurd (omega arith)
first_once e last c (x ∷ y ∷ r) j h lt = All-get (λ i. i ≢ c) (y ∷ r) j h.2 (omega arith)

pub IsChain-injective :
    (e : ℕ → ℕ) (last c : ℕ) (cs : List ℕ) (i j : ℕ)
    → IsChain e last c cs
    → i < length cs
    → j < length cs
    → get_or cs i 0 ≡ get_or cs j 0
    → i ≡ j
IsChain-injective e last c [] i j h p q s = absurd h
IsChain-injective e last c (x ∷ []) i j h p q s = omega arith
IsChain-injective e last c (x ∷ y ∷ r) zero zero h p q s = omega arith
IsChain-injective e last c (x ∷ y ∷ r) zero (suc j) h p q s =
    absurd (first_once e last c (x ∷ y ∷ r) j h q (sym s ∙ h.0))
IsChain-injective e last c (x ∷ y ∷ r) (suc i) zero h p q s =
    absurd (first_once e last c (x ∷ y ∷ r) i h p (s ∙ h.0))
IsChain-injective e last c (x ∷ y ∷ r) (suc i) (suc j) h p q s =
    ap suc (IsChain-injective e last (e c) (y ∷ r) i j h.3 (omega arith) (omega arith) s)

-- A place determines its row and its column.
row_unique : (a b w s t : ℕ) → s < w → t < w → a * w + s ≡ b * w + t → (a ≡ b) × (s ≡ t)
row_unique a b w s t p q e =
    let x : a ≡ b = sym (row_of a w s p) ∙ ap (λ n. n / w) e ∙ row_of b w t q in
    (x, omega (arith, e, ap (λ n. n * w) x))

module _ (B : BlockDevice) (g : Geometry) (hg : IsGeometry g) (d : IsLayout g) (cs : List ℕ)
    (c0 : FsCache (B.Dev)) where
  pub data_sector-injective :
      (f : FatFile) (q p : ℕ)
      → IsFile B g hg d cs c0 f
      → q / g.sectors_per_cluster < length cs
      → p / g.sectors_per_cluster < length cs
      → data_sector g cs q ≡ data_sector g cs p
      → q ≡ p
  data_sector-injective f q p i lq lp e =
      let w : ℕ = g.sectors_per_cluster in
      let pos = cluster_pos g d in
      let a = cluster_in B g hg d cs c0 q f i lq in
      let b = cluster_in B g hg d cs c0 p f i lp in
      let (x, y) =
        row_unique (cluster_at g cs q - 2) (cluster_at g cs p - 2) w (q % w) (p % w) (mod-lt q pos)
          (mod-lt p pos) (omega (arith, e)) in
      let z =
        IsChain-injective _ g.last_cluster f.first_cluster cs (q / w) (p / w) i.1.chain lq lp
          (omega (arith, x, a, b)) in
      omega (arith, y, div-add-mod' q w, div-add-mod' p w, ap (λ n. n * w) z)
