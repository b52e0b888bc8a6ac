-- ===== src/File/Mounted.antt =====
-- The layout that `init` finds in a sound boot sector is one that the FAT and the files can work on.
use sd_fat.Base.{
  ℕ, ◌+◌, ◌-◌, ◌*◌, ◌/◌, ◌^◌, ◌≤◌, ◌<◌, ◌≡◌, ◌≢◌, ◌⊎◌, inl, inr, refl, sym, ap, subst, ◌∙◌, arith,
  Bool, true, false, done, ltb, if◌then◌else◌, u8, u32,
}
use native.Mathlib.Nat.{div-add-mod', one-le-pow, pow-le-pow_right}
use sd_fat.Endian.{Bytes}
use sd_fat.Cache.{no_sector}
use sd_fat.Fat.{Geometry}
use sd_fat.Fat.Boot
use sd_fat.Fat.Layout.{IsGeometry}
use sd_fat.Fat.Mount.{
  Mount, mount, with_cluster_size, with_layout, with_areas, with_fats, with_type, cluster_count,
}
use sd_fat.Fat.MountShift.{IsPower}
use sd_fat.Fat.Mounted.{HasBoot, start_of, mount-MountedAt}
use sd_fat.Fat.Window.{IsMounted}
use sd_fat.Cache.View.{view}
use sd_fat.Device.{BlockDevice}
use sd_fat.Endian.Laws.{IsBytes}
use sd_fat.File.Place.{IsLayout}

-- The sectors before the data area, counted from the start of the volume, and the clusters behind.
abbrev pub sectors_before : Bytes → ℕ
sectors_before b =
    Boot.reserved_sector_count b
    + Boot.fat_count b * Boot.sectors_per_fat b
    + (32 * Boot.root_dir_entry_count b + 511) / 512

abbrev pub clusters_of : Bytes → ℕ
clusters_of b = (Boot.total_sectors b - sectors_before b) / Boot.sectors_per_cluster b

-- A boot sector whose areas fit the volume and 32-bit sector numbers, and whose FAT has room.
pub record IsSound (start : ℕ) (b : Bytes) : Type 0 where
  pub some_sectors : Boot.sectors_per_cluster b ≢ 0
  pub areas : sectors_before b ≤ Boot.total_sectors b
  pub fits : start + Boot.total_sectors b + Boot.sectors_per_cluster b < no_sector
  pub both : start + Boot.reserved_sector_count b + 2 * Boot.sectors_per_fat b ≤ no_sector
  pub room12 : clusters_of b < 4085 → 3 * clusters_of b + 6 ≤ 1024 * Boot.sectors_per_fat b
  pub room16 :
      4085 ≤ clusters_of b
      → clusters_of b < 65525
      → 2 * clusters_of b + 4 ≤ 512 * Boot.sectors_per_fat b
  pub room32 : 65525 ≤ clusters_of b → 4 * clusters_of b + 8 ≤ 512 * Boot.sectors_per_fat b
  pub small : clusters_of b < 2 ^ 28 - 2

-- The type that the number of clusters decides.
abbrev IsTyped : ℕ → ℕ → Type 0
IsTyped n t =
    ((n < 4085) × (t ≡ 12)) ⊎ (((4085 ≤ n) × (n < 65525) × (t ≡ 16)) ⊎ ((65525 ≤ n) × (t ≡ 32)))

record Typed (n : ℕ) (h g : Geometry) : Type 0 where
  typed : IsTyped n g.fat_type
  last : g.last_cluster ≡ u32 (n + 1)
  fat_count : g.fat_count ≡ h.fat_count
  cluster : g.sectors_per_cluster ≡ h.sectors_per_cluster
  shift : g.sectors_per_cluster_shift ≡ h.sectors_per_cluster_shift
  mask : g.cluster_sector_mask ≡ h.cluster_sector_mask
  fat : g.sectors_per_fat ≡ h.sectors_per_fat
  first : g.fat_start_sector ≡ h.fat_start_sector
  behind : g.data_start_sector ≡ h.data_start_sector

with_type-Typed : (n : ℕ) (b : Bytes) (h : Geometry) → Typed n h (with_type n b h)
with_type-Typed n b h = go (ltb n 4085) (ltb n 65525) refl refl
  where
    go :
        (p q : Bool)
        → ltb n 4085 ≡ p
        → ltb n 65525 ≡ q
        → Typed n h (
            if p
            then record h { last_cluster = u32 (n + 1); fat_type = 12 }
            else if q
            then record h { last_cluster = u32 (n + 1); fat_type = 16 }
            else record h {
              last_cluster = u32 (n + 1);
              root_dir_start = Boot.root_cluster b;
              fat_type = 32;
            })
    go true q x y = record {
      typed = inl (ground arith, refl);
      last = refl;
      fat_count = refl;
      cluster = refl;
      shift = refl;
      mask = refl;
      fat = refl;
      first = refl;
      behind = refl;
    }
    go false true x y = record {
      typed = inr (inl (ground arith, ground arith, refl));
      last = refl;
      fat_count = refl;
      cluster = refl;
      shift = refl;
      mask = refl;
      fat = refl;
      first = refl;
      behind = refl;
    }
    go false false x y = record {
      typed = inr (inr (ground arith, refl));
      last = refl;
      fat_count = refl;
      cluster = refl;
      shift = refl;
      mask = refl;
      fat = refl;
      first = refl;
      behind = refl;
    }

less_one : (n : ℕ) → 0 < n → n < 256 → u8 (n + 255) ≡ n - 1
less_one n lo hi = omega arith

module _ (start : ℕ) (b : Bytes) (s : IsSound start b) where
  abbrev size : ℕ
  size = Boot.sectors_per_cluster b

  -- The areas, with nothing cut to 32 bits.
  areas-at :
      (g : Geometry)
      → g.fat_count ≡ Boot.fat_count b
      → let h = with_areas (with_fats start b g) in
        (h.fat_start_sector ≡ start + Boot.reserved_sector_count b)
        × (h.data_start_sector ≡ start + sectors_before b)
  areas-at g e =
      let p : ℕ = Boot.fat_count b * Boot.sectors_per_fat b in
      (omega (arith, s.fits, s.areas), rw e (omega (arith, s.fits, s.areas)))

  both_fats :
      Boot.fat_count b ≡ 2 → Boot.fat_count b * Boot.sectors_per_fat b ≡ 2 * Boot.sectors_per_fat b
  both_fats e = ap (λ t. t * Boot.sectors_per_fat b) e

  fats :
      (Boot.fat_count b ≡ 1) ⊎ (Boot.fat_count b ≡ 2)
      → Boot.sectors_per_fat b ≤ Boot.fat_count b * Boot.sectors_per_fat b
  fats (inl e) = omega (arith, ap (λ t. t * Boot.sectors_per_fat b) e)
  fats (inr e) = omega (arith, both_fats e)

  -- The clusters fit the sectors behind the areas.
  cluster_room : clusters_of b * size ≤ Boot.total_sectors b - sectors_before b
  cluster_room = omega (arith, div-add-mod' (Boot.total_sectors b - sectors_before b) size)

  module _ (g : Geometry) (j : ℕ) (power : size ≡ 2 ^ j) where
    power_pos : 0 < size
    power_pos = omega (arith, power, one-le-pow j 2)

    power_small : j ≤ 7 → size < 256
    power_small le = omega (arith, power, pow-le-pow_right {n = 2} (omega arith) {i = j} {j = 7} le)

    abbrev started : Geometry
    started = record (with_cluster_size b g) { sectors_per_cluster_shift = j }

    abbrev areas : Geometry
    areas = with_areas (with_fats start b started)

    count-at : cluster_count start b areas ≡ clusters_of b
    count-at =
        let (_, at) = areas-at started refl in
        ap (λ t. t / 2 ^ j) (omega (arith, at, s.fits, s.areas))
        ∙ ap (λ t. (Boot.total_sectors b - sectors_before b) / t) (sym power)

    typed : Typed (clusters_of b) areas (with_layout start b started)
    typed =
        subst (λ t. Typed t areas (with_layout start b started)) count-at
          (with_type-Typed (cluster_count start b areas) b areas)

    -- The same for any geometry with these fields.
    module _ (G : Geometry) (t : Typed (clusters_of b) areas G)
        (fc : (Boot.fat_count b ≡ 1) ⊎ (Boot.fat_count b ≡ 2)) where
      last-at : G.last_cluster ≡ clusters_of b + 1
      last-at = omega (arith, t.last, s.small)

      fat-at : G.sectors_per_fat ≡ Boot.sectors_per_fat b
      fat-at = t.fat

      first-at : G.fat_start_sector ≡ start + Boot.reserved_sector_count b
      first-at = t.first ∙ (areas-at started refl).0

      behind-at : G.data_start_sector ≡ start + sectors_before b
      behind-at = t.behind ∙ (areas-at started refl).1

      layout-IsGeometry : IsGeometry G
      layout-IsGeometry =
          rows (clusters_of b) (Boot.sectors_per_fat b) last-at fat-at t.typed s.room12 s.room16
            s.room32 s.small (omega (arith, s.both, first-at))
        where
          rows :
              (n f : ℕ)
              → G.last_cluster ≡ n + 1
              → G.sectors_per_fat ≡ f
              → IsTyped n G.fat_type
              → (n < 4085 → 3 * n + 6 ≤ 1024 * f)
              → (4085 ≤ n → n < 65525 → 2 * n + 4 ≤ 512 * f)
              → (65525 ≤ n → 4 * n + 8 ≤ 512 * f)
              → n < 2 ^ 28 - 2
              → G.fat_start_sector + 2 * f ≤ no_sector
              → IsGeometry G
          rows n f ln fn ty r12 r16 r32 sm se = record {
            types = ground (arith, ty);
            clusters12 = λ e. ground (arith, ty);
            clusters16 = λ e. ground (arith, ty);
            clusters32 = λ e. ground (arith, sm);
            room12 = λ e. ground (arith, ty, r12);
            room16 = λ e. ground (arith, ty, r16);
            room32 = λ e. ground (arith, ty, r32);
            sectors = omega arith;
          }

      layout-IsLayout : j ≤ 7 → IsLayout G
      layout-IsLayout le = record {
        cluster_size = t.cluster ∙ power ∙ ap (λ k. 2 ^ k) (sym t.shift);
        mask = t.mask ∙ less_one size power_pos (power_small le) ∙ ap (λ k. k - 1) (sym t.cluster);
        behind = rw (first-at, fat-at, behind-at) (omega (arith, fats fc));
        behind_both =
            λ e. rw (first-at, fat-at, behind-at) (omega (arith, both_fats (sym t.fat_count ∙ e)));
        fits = rw (last-at, behind-at, t.cluster) (omega (arith, cluster_room, s.fits, s.areas));
      }

  pub HasBoot-layout :
      {D : Type 0} (g : Geometry) (w : Mount D)
      → HasBoot start b g w
      → IsGeometry w.geometry × IsLayout w.geometry
  HasBoot-layout g w h = go h.power
    where
      go : IsPower size h.shift → IsGeometry w.geometry × IsLayout w.geometry
      go (inl (p, le)) =
          let G : Geometry = with_layout start b (started g h.shift p) in
          let t = typed g h.shift p in
          subst (λ x. IsGeometry x × IsLayout x) (sym h.geometry)
            (
              layout-IsGeometry g h.shift p G t h.fat_count,
              layout-IsLayout g h.shift p G t h.fat_count le,
            )
      go (inr (z, e)) = absurd (s.some_sectors z)

module _ (B : BlockDevice) where
  open B use {Dev, media}

  -- `init` that succeeds, of a volume whose boot sector is sound (its areas fit the volume and
  -- its FAT has room for its clusters) and does not start in sector 0xFFFFFFFF, from a cache
  -- whose buffer holds bytes, finds a layout that is sound, leaves the volume mounted, and shows
  -- a client the sectors of the device.
  pub mount_sound :
      (attached : Bool) (d : Dev) (part start : ℕ) (v : Mount Dev) {w : Mount Dev}
      → IsBytes v.cache.buffer
      → start_of (media d) part start ≢ no_sector
      → IsSound (start_of (media d) part start) (media d (start_of (media d) part start))
      → mount B attached d part start v ≡ done tt w
      → IsGeometry w.geometry
        × IsLayout w.geometry
        × IsMounted B w.geometry w.cache
        × ((t : ℕ) → t ≢ no_sector → view B w.cache t ≡ media d t)
  mount_sound attached d part start v {w} ib ne s e =
      let m = mount-MountedAt B attached d part start v ib ne e in
      let at = start_of (media d) part start in
      let (geometry, layout) =
        HasBoot-layout at (media d at) s (record v.geometry { fat_type = 0 }) w m.boot in
      (geometry, layout, m.mounted, m.shown)
