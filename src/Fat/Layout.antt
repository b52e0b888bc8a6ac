-- ===== src/Fat/Layout.antt =====
-- The table as the FAT format defines it, with no cache and no sectors: a run of bytes, and where
-- in it the entry of a cluster lies.
use sd_fat.Base.{ℕ, ◌+◌, ◌-◌, ◌*◌, ◌/◌, ◌%◌, ◌^◌, ◌≤◌, ◌<◌, ◌≡◌, ◌⊎◌, ◌==◌, if◌then◌else◌}
use sd_fat.Endian.{Bytes}
use sd_fat.Device.{Sectors}
use sd_fat.Cache.{no_sector}
use sd_fat.Fat.{Geometry}

-- Byte `k` of the first FAT.
abbrev pub fat_byte : Geometry → Sectors → Bytes
fat_byte g v k = v (g.fat_start_sector + k / 512) (k % 512)

abbrev pub entry32 : Bytes → ℕ → ℕ
entry32 b n = b (4 * n) + 2 ^ 8 * b (4 * n + 1) + 2 ^ 16 * b (4 * n + 2) + 2 ^ 24 * b (4 * n + 3)

abbrev pub entry16 : Bytes → ℕ → ℕ
entry16 b n = b (2 * n) + 2 ^ 8 * b (2 * n + 1)

-- Two entries share three bytes.
abbrev pub entry12 : Bytes → ℕ → ℕ
entry12 b n =
    let w = b (n + n / 2) + 2 ^ 8 * b (n + n / 2 + 1) in
    if n % 2 == 0 then w % 2 ^ 12 else w / 2 ^ 4

abbrev pub entry : Geometry → Bytes → ℕ → ℕ
entry g b n =
    if g.fat_type == 32 then entry32 b n else if g.fat_type == 16 then entry16 b n else entry12 b n

-- What an entry of this type can hold.
abbrev pub entry_limit : Geometry → ℕ
entry_limit g = if g.fat_type == 32 then 2 ^ 32 else if g.fat_type == 16 then 2 ^ 16 else 2 ^ 12

-- A sector of the first FAT, and one of the second, where there are two.
abbrev pub InFat : Geometry → ℕ → Type 0
InFat g s = (g.fat_start_sector ≤ s) × (s < g.fat_start_sector + g.sectors_per_fat)

abbrev pub InMirror : Geometry → ℕ → Type 0
InMirror g s =
    (g.fat_count ≡ 2)
    × (g.fat_start_sector + g.sectors_per_fat ≤ s)
    × (s < g.fat_start_sector + 2 * g.sectors_per_fat)

-- A volume whose table has room for the entries of all its clusters, and whose sector numbers fit
-- 32 bits.
pub record IsGeometry (g : Geometry) : Type 0 where
  pub types : (g.fat_type ≡ 12) ⊎ ((g.fat_type ≡ 16) ⊎ (g.fat_type ≡ 32))
  pub clusters12 : g.fat_type ≡ 12 → g.last_cluster < 2 ^ 12 - 1
  pub clusters16 : g.fat_type ≡ 16 → g.last_cluster < 2 ^ 16 - 1
  pub clusters32 : g.fat_type ≡ 32 → g.last_cluster < 2 ^ 28 - 1
  pub room12 : g.fat_type ≡ 12 → 3 * g.last_cluster + 3 ≤ 1024 * g.sectors_per_fat
  pub room16 : g.fat_type ≡ 16 → 2 * g.last_cluster + 2 ≤ 512 * g.sectors_per_fat
  pub room32 : g.fat_type ≡ 32 → 4 * g.last_cluster + 4 ≤ 512 * g.sectors_per_fat
  pub sectors : g.fat_start_sector + 2 * g.sectors_per_fat ≤ no_sector
