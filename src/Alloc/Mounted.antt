-- ===== src/Alloc/Mounted.antt =====
-- The table of a mounted volume fills the interface of the allocation: `fatGet` and `fatPut` behind
-- the sector cache are its operations.
use sd_fat.Base.{ℕ, ◌+◌, ◌-◌, ◌*◌, ◌/◌, ◌%◌, ◌^◌, ◌≤◌, ◌<◌, ◌≡◌, ◌≢◌, ap, inl, inr, arith, done}
use sd_fat.Endian.{Bytes}
use sd_fat.Device.{BlockDevice}
use sd_fat.Cache.{FsCache}
use sd_fat.Cache.View.{view}
use sd_fat.Fat.{Geometry, Link, eoc_mark, link_of, fat_get, fat_put}
use sd_fat.Fat.Layout.{IsGeometry, InFat, entry, entry_limit}
use sd_fat.Fat.Window.{IsMounted, SameView}
use sd_fat.Fat.Stored.{table, SameView-table}
use sd_fat.Fat.Table.{fat_get-entry, fat_put-Entered}
use sd_fat.Fat.Ends.{fat_get-ne-stuck, fat_put-ne-stuck}
use sd_fat.Alloc.{FatTable}

module _ (B : BlockDevice) (g : Geometry) (h : IsGeometry g) where
  open B use {Dev}

  -- Entries are read from bytes inside the table.
  entry-same :
      (b b' : Bytes) (i : ℕ)
      → i ≤ g.last_cluster
      → ((k : ℕ) → k < 512 * g.sectors_per_fat → b' k ≡ b k)
      → entry g b' i ≡ entry g b i
  entry-same b b' i le f = elim h.types [
    | inl t ↦ ground (arith, h.room12 t, f (i + i / 2), f (i + i / 2 + 1))
    | inr (inl t) ↦ ground (arith, h.room16 t, f (2 * i), f (2 * i + 1))
    | inr (inr t) ↦
        ground (arith, h.room32 t, f (4 * i), f (4 * i + 1), f (4 * i + 2), f (4 * i + 3))
  ]

  -- The sectors of the first FAT are all that the entries are made of.
  pub SameFat-entry :
      (c c' : FsCache Dev) (i : ℕ)
      → i ≤ g.last_cluster
      → ((t : ℕ) → InFat g t → view B c' t ≡ view B c t)
      → entry g (table B g c') i ≡ entry g (table B g c) i
  SameFat-entry c c' i le s =
      entry-same (table B g c) (table B g c') i le
        (λ k lt. ap (λ (b : Bytes). b (k % 512)) (s (g.fat_start_sector + k / 512) (omega arith)))

  -- What a client sees of the volume is all that its entries are made of.
  pub SameView-entry :
      (c c' : FsCache Dev) (i : ℕ)
      → i ≤ g.last_cluster
      → SameView B g c c'
      → entry g (table B g c') i ≡ entry g (table B g c) i
  SameView-entry c c' i le s =
      entry-same (table B g c) (table B g c') i le (λ k lt. SameView-table B g c c' k h lt s)

  pub last_fits : g.last_cluster < entry_limit g
  last_fits = elim h.types [
    | inl t ↦ ground (arith, h.clusters12 t)
    | inr (inl t) ↦ ground (arith, h.clusters16 t)
    | inr (inr t) ↦ ground (arith, h.clusters32 t)
  ]

  pub mark_fits : g.last_cluster < eoc_mark % entry_limit g
  mark_fits = elim h.types [
    | inl t ↦ ground (arith, h.clusters12 t)
    | inr (inl t) ↦ ground (arith, h.clusters16 t)
    | inr (inr t) ↦ ground (arith, h.clusters32 t)
  ]

  pub last_small : g.last_cluster < 2 ^ 28 - 1
  last_small = elim h.types [
    | inl t ↦ omega (arith, h.clusters12 t)
    | inr (inl t) ↦ omega (arith, h.clusters16 t)
    | inr (inr t) ↦ omega (arith, h.clusters32 t)
  ]

  pub get_ok :
      (n : ℕ) {l : Link} {c c' : FsCache Dev}
      → IsMounted B g c
      → fat_get B g n c ≡ done l c'
      → (2 ≤ n)
        × (n ≤ g.last_cluster)
        × (l ≡ link_of g (entry g (table B g c) n))
        × IsMounted B g c'
        × ((i : ℕ) → i ≤ g.last_cluster → entry g (table B g c') i ≡ entry g (table B g c) i)
  get_ok n {l} {c} {c'} m e =
      let (lo, hi, r, m', s) = fat_get-entry B g h n m e in
      (lo, hi, r, m', λ i le. SameView-entry c c' i le s)

  pub put_ok :
      (n v : ℕ) {c c' : FsCache Dev}
      → IsMounted B g c
      → fat_put B g n v c ≡ done tt c'
      → (2 ≤ n)
        × (n ≤ g.last_cluster)
        × (entry g (table B g c') n ≡ v % entry_limit g)
        × IsMounted B g c'
        × ((i : ℕ)
            → i ≢ n
            → i ≤ g.last_cluster
            → entry g (table B g c') i ≡ entry g (table B g c) i)
  put_ok n v m e =
      let (lo, hi, x) = fat_put-Entered B g h n v m e in (lo, hi, x.here, x.mounted, x.elsewhere)

  abbrev pub mounted_table : FatTable
  mounted_table = record {
    State = FsCache Dev;
    last_cluster = g.last_cluster;
    limit = entry_limit g;
    get = fat_get B g;
    put = fat_put B g;
    IsReady = IsMounted B g;
    entry = λ c n. entry g (table B g c) n;
    last_fits = last_fits;
    last_small = last_small;
    mark_fits = mark_fits;
    get_ok = get_ok;
    put_ok = put_ok;
    get_returns = fat_get-ne-stuck B g;
    put_returns = fat_put-ne-stuck B g;
  }
