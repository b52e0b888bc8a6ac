-- ===== src/ExFat/Mounted.antt =====
-- What `init` leaves of an exFAT volume.
use sd_fat.Base.{
  ℕ, ◌+◌, ◌-◌, ◌/◌, ◌%◌, ◌^◌, ◌<◌, ◌≡◌, ◌≢◌, ◌⊎◌, inl, inr, refl, sym, ◌∙◌, ap, subst, arith, Bool,
  true, false, not, ◌&&◌, ◌||◌, ◌==◌, if◌then◌else◌, Bool-cases, Outcome, Method, done, fail, stuck,
  bind, bind-done, done-injective,
}
use sd_fat.Endian.{Bytes, get_le32}
use sd_fat.Endian.Laws.{IsBytes}
use sd_fat.Device.{BlockDevice}
use sd_fat.Cache.{FsCache, for_read, no_sector, init, prepare}
use sd_fat.Cache.View.{view}
use sd_fat.Fat.Mount.{partition_entry}
use sd_fat.Fat.Mounted.{start_of}
use sd_fat.ExFat.{Layout, ExFatPartition, on_cache}
use sd_fat.ExFat.Bitmap.{bitmap_find, find_start}
use sd_fat.ExFat.Mount.{is_exfat, layout_of, part_start, first_search, read_layout, mount_exfat}
use sd_fat.ExFat.State.{IsVolume, bitmap_bit, on_cache-done, IsReady, prepare-Opened}
use sd_fat.ExFat.Find.{Found, IsFound}
use sd_fat.ExFat.Found.{bitmap_find-Found}

-- The layout of a volume whose boot sector is in sector `s` and holds the bytes `b`, by the places
-- that the format gives to its fields.
abbrev pub format_layout : ℕ → Bytes → Layout
format_layout s b = record {
  fat_start_sector = (s + get_le32 b 80) % 2 ^ 32;
  fat_length = get_le32 b 84;
  cluster_heap_start_sector = (s + get_le32 b 88) % 2 ^ 32;
  cluster_count = get_le32 b 92;
  root_directory_cluster = get_le32 b 96;
  sectors_per_cluster_shift = b 109;
}

module _ (B : BlockDevice) where
  open B use {Dev, media}

  -- The cache shows the medium of `d`.
  Shows : Dev → FsCache Dev → Type 0
  Shows d c = IsReady B c × ((t : ℕ) → t ≢ no_sector → view B c t ≡ media d t)

  init-Shows :
      (d : Dev) (c : FsCache Dev) (attached : Bool) → IsBytes c.buffer → Shows d (init c attached d)
  unfolding init Shows
  init-Shows d c attached ib = (
    record { coherent = record { bytes = ib; clean = λ _ ne. absurd (ne refl) }; no_mirror = refl },
    λ t ne. ground arith,
  )

  prepare-Shows :
      (d : Dev) (s : ℕ) (p : ExFatPartition Dev) {u : Unit {0}} {q : ExFatPartition Dev}
      → Shows d p.cache
      → s ≢ no_sector
      → on_cache (prepare B s for_read) p ≡ done u q
      → Shows d q.cache × (q.cache.buffer ≡ media d s)
  unfolding Shows
  prepare-Shows d s p {u} {q} h ne e =
      let (c, x, y) = on_cache-done (prepare B s for_read) p e in
      let o = prepare-Opened B s for_read p.cache h.0 ne refl refl x in
      subst (λ t. Shows d t.cache × (t.cache.buffer ≡ media d s)) y
        ((o.ready, λ t nt. o.same t nt ∙ h.1 t nt), o.content ∙ h.1 s ne)

  part_start-Shows :
      (d : Dev) (part start : ℕ) (p : ExFatPartition Dev) {s : ℕ} {q : ExFatPartition Dev}
      → Shows d p.cache
      → part_start B part start p ≡ done s q
      → Shows d q.cache × (s ≡ start_of (media d) part start)
  unfolding part_start
  part_start-Shows d part start p {s} {q} h e = elim (Bool-cases (part == 0)) [
    | inl z ↦
        let (x, y) = done-injective (given z) in
        (subst (λ t. Shows d t.cache) y h, ground (arith, x))
    | inr n ↦
        let (_, u, x, y) = bind-done (on_cache (prepare B 0 for_read) p) pick (listed n) in
        let (sh, content) = prepare-Shows d 0 p h (λ z. omega (arith, z)) x in
        let (a, b) = done-injective (picked u y) in
        (
          subst (λ t. Shows d t.cache) b sh,
          sym a ∙ ap (λ t. get_le32 t (mp + 8)) content ∙ ground (arith),
        )
  ]
    where
      mp : ℕ
      mp = partition_entry part

      given : (part == 0) ≡ true → done start p ≡ done s q
      given z = ground arith

      pick : Unit {0} → Method (ExFatPartition Dev) ℕ
      pick _ w =
          let b = w.cache.buffer in
          if b (mp + 4) == 0 || (not (b mp == 0) && not (b mp == 0x80))
          then fail w
          else done (get_le32 b (mp + 8)) w

      listed : (part == 0) ≡ false → bind (on_cache (prepare B 0 for_read) p) pick ≡ done s q
      listed n = ground arith

      picked :
          (u : ExFatPartition Dev)
          → pick tt u ≡ done s q
          → done (get_le32 u.cache.buffer (mp + 8)) u ≡ done s q
      picked u y = ground arith

  -- The volume that `init` leaves when its search for a free cluster reads the bitmap: the cache
  -- shows the medium of `d`, and `m_bitmapStart` is a free cluster of the volume.
  pub record Searched (v : Layout) (d : Dev) (q : ExFatPartition Dev) : Type 0 where
    pub ready : IsReady B q.cache
    pub shown : (t : ℕ) → t ≢ no_sector → view B q.cache t ≡ media d t
    pub inside : q.bitmap_start < v.cluster_count
    pub free : bitmap_bit v (media d) q.bitmap_start ≡ 0

  -- The search for a free cluster, from `m_bitmapStart` = 0 with a cache that shows the medium of
  -- `d`, has failed.
  pub record Unsearched (v : Layout) (d : Dev) (q : ExFatPartition Dev) : Type 0 where
    pub before : ExFatPartition Dev
    pub first : before.bitmap_start ≡ 0
    pub shown : (t : ℕ) → t ≢ no_sector → view B before.cache t ≡ media d t
    pub failed : bitmap_find B v 0 1 before ≡ fail q

  -- A volume that `init` has mounted, with its boot sector in sector `s`: the layout is the one of
  -- the boot sector, and the search for a free cluster has failed or found one.
  pub record Mounted (d : Dev) (s : ℕ) (v : Layout) (q : ExFatPartition Dev) : Type 0 where
    pub named :
        (media d s 3 ≡ 0x45)
        × (media d s 4 ≡ 0x58)
        × (media d s 5 ≡ 0x46)
        × (media d s 6 ≡ 0x41)
        × (media d s 7 ≡ 0x54)
    pub sector_size : media d s 108 ≡ 9
    pub layout : v ≡ format_layout s (media d s)
    pub searched : Unsearched v d q ⊎ Searched v d q

  -- What the search meets, from the volume `p` with the layout `v`.
  first_search-Searched :
      (v : Layout) (iv : IsVolume v) (d : Dev) (p : ExFatPartition Dev) {w : Layout}
      {q : ExFatPartition Dev}
      → Shows d p.cache
      → first_search B v p ≡ done w q
      → (w ≡ v) × ((bitmap_find B v 0 1 (record p { bitmap_start = 0 }) ≡ fail q) ⊎ Searched v d q)
  unfolding first_search Shows
  first_search-Searched v iv d p {w} {q} h e =
      go (bitmap_find B v 0 1 (record p { bitmap_start = 0 })) refl e
    where
      p0 : ExFatPartition Dev
      p0 = record p { bitmap_start = 0 }

      same_bit :
          (i : ℕ) → i < v.cluster_count → bitmap_bit v (media d) i ≡ bitmap_bit v (view B p.cache) i
      same_bit i lt =
          ap (λ (b : ℕ → ℕ). b (i / 8 % 512) / 2 ^ (i % 8) % 2)
            (sym (h.1 (v.cluster_heap_start_sector + i / 4096) (omega (arith, iv.bitmap))))

      from : find_start B v 0 p0 ≡ 0
      from = ground arith

      met :
          (n : ℕ) (r : ExFatPartition Dev)
          → Found B v iv p.cache true (find_start B v 0 p0) 1 n p0 r
          → IsFound B v iv p.cache (find_start B v 0 p0) 1 n
          → Searched v d r
      met n r f (inl x) =
          let at : r.bitmap_start ≡ n - 2 = f.noted ∙ ground (arith, x.0) in
          record {
            ready = f.kept.0;
            shown = λ t nt. f.kept.1 t nt ∙ h.1 t nt;
            inside = omega (arith, at, x.1.0);
            free =
                ap (bitmap_bit v (media d)) at
                ∙ same_bit (n - 2) (omega (arith, x.1.0))
                ∙ x.1.1 (n - 2) (omega arith) (omega arith);
          }
      met n r f (inr x) = absurd (omega (arith, x.1, from))

      go :
          (o : Outcome (ExFatPartition Dev) ℕ)
          → bitmap_find B v 0 1 p0 ≡ o
          → ◌≡◌ {A = Outcome (ExFatPartition Dev) Layout}
              (elim o [ done _ q ↦ done v q | fail q ↦ done v q | stuck ↦ stuck ])
              (done w q)
          → (w ≡ v) × ((bitmap_find B v 0 1 p0 ≡ fail q) ⊎ Searched v d q)
      go (done n r) x y =
          let f = bitmap_find-Found B v iv 0 1 p0 h.0 (omega arith) x in
          (
            sym (done-injective y).0,
            inr (subst (Searched v d) (done-injective y).1 (met n r f f.result)),
          )
      go (fail r) x y = (sym (done-injective y).0, inl (x ∙ ap fail (done-injective y).1))
      go stuck x y = absurd (cc)

  -- The boot sector of `init` from device `d`.
  abbrev pub boot_start : Dev → ℕ → ℕ → ℕ
  boot_start d part start = start_of (media d) part start

  -- The layout that the boot sector gives.
  abbrev pub boot_layout : Dev → ℕ → ℕ → Layout
  boot_layout d part start =
      format_layout (boot_start d part start) (media d (boot_start d part start))

  read_layout-Mounted :
      (s : ℕ) (d : Dev) (p : ExFatPartition Dev) {w : Layout} {q : ExFatPartition Dev}
      → Shows d p.cache
      → s ≢ no_sector
      → IsVolume (layout_of s (media d s))
      → read_layout B s p ≡ done w q
      → Mounted d s w q
  unfolding read_layout Shows
  read_layout-Mounted s d p {w} {q} h ne iv e =
      let (u, p1, x, y) = bind-done (on_cache (prepare B s for_read) p) search e in
      let (sh, content) = prepare-Shows d s p h ne x in
      let z =
        subst
          (λ (b : Bytes).
            (if is_exfat b then first_search B (layout_of s b) p1 else fail p1) ≡ done w q)
          content y in
      elim (Bool-cases (is_exfat (media d s))) [
        | inl t ↦
            ended p1 sh t
              (first_search-Searched (layout_of s (media d s)) iv d p1 sh (passed p1 t z))
        | inr t ↦ absurd (refused p1 t z)
      ]
    where
      L : Layout
      L = layout_of s (media d s)

      passed :
          (p1 : ExFatPartition Dev)
          → is_exfat (media d s) ≡ true
          → (if is_exfat (media d s) then first_search B L p1 else fail p1) ≡ done w q
          → first_search B L p1 ≡ done w q
      passed p1 t z = ap (λ b. if b then first_search B L p1 else fail p1) (sym t) ∙ z

      refused :
          (p1 : ExFatPartition Dev)
          → is_exfat (media d s) ≡ false
          → (if is_exfat (media d s) then first_search B L p1 else fail p1) ≢ done w q
      refused p1 t z =
          absurd (ground (arith, ap (λ b. if b then first_search B L p1 else fail p1) (sym t) ∙ z))

      name_of :
          is_exfat (media d s) ≡ true
          → (media d s 3 ≡ 0x45)
            × (media d s 4 ≡ 0x58)
            × (media d s 5 ≡ 0x46)
            × (media d s 6 ≡ 0x41)
            × (media d s 7 ≡ 0x54)
      name_of t = (
        ground (arith, t),
        ground (arith, t),
        ground (arith, t),
        ground (arith, t),
        ground (arith, t),
      )

      shift_of : is_exfat (media d s) ≡ true → media d s 108 ≡ 9
      shift_of t = ground (arith, t)

      ended :
          (p1 : ExFatPartition Dev)
          → Shows d p1.cache
          → is_exfat (media d s) ≡ true
          → (w ≡ L)
            × ((bitmap_find B L 0 1 (record p1 { bitmap_start = 0 }) ≡ fail q) ⊎ Searched L d q)
          → Mounted d s w q
      ended p1 sh t (e, r) = record {
        named = name_of t;
        sector_size = shift_of t;
        layout = e;
        searched = subst (λ v. Unsearched v d q ⊎ Searched v d q) (sym e) (either r);
      }
        where
          either :
              (bitmap_find B L 0 1 (record p1 { bitmap_start = 0 }) ≡ fail q) ⊎ Searched L d q
              → Unsearched L d q ⊎ Searched L d q
          either (inl x) = inl (record {
            before = record p1 { bitmap_start = 0 };
            first = refl;
            shown = sh.1;
            failed = x;
          })
          either (inr x) = inr x

      search : Unit {0} → Method (ExFatPartition Dev) Layout
      search _ q =
          let on = first_search B (layout_of s q.cache.buffer) q in
          if is_exfat q.cache.buffer then on else fail q

  -- `init` of an exFAT volume that succeeds, when its boot sector is not in sector 0xFFFFFFFF and
  -- gives a table in front of the cluster heap and sectors and clusters that fit 32 bits, from a
  -- cache whose buffer holds bytes, has found the name EXFAT at byte 3 and the shift 9 of
  -- 512-byte sectors at byte 108 of the boot sector, and the layout is that of the fields at
  -- bytes 80 to 99 and 109, with the places of the table and of the cluster heap counted from the
  -- boot sector; either the search of `bitmapFind` for a free cluster, with `m_bitmapStart` 0 and
  -- a cache that shows the sectors of the device, failed, which `init` does not look at, or
  -- `m_bitmapStart` is a free cluster of the volume, and the cache is coherent, owes no copy and
  -- shows a client the sectors of the device.
  pub mount_exfat-Mounted :
      (attached : Bool) (d : Dev) (part start : ℕ) (p : ExFatPartition Dev) {w : Layout}
      {q : ExFatPartition Dev}
      → IsBytes p.cache.buffer
      → boot_start d part start ≢ no_sector
      → IsVolume (boot_layout d part start)
      → mount_exfat B attached d part start p ≡ done w q
      → Mounted d (boot_start d part start) w q
  unfolding mount_exfat
  mount_exfat-Mounted attached d part start p {w} {q} ib ne iv e =
      let p0 : ExFatPartition Dev = record p { cache = init p.cache attached d } in
      let (s, p1, x, y) = bind-done (part_start B part start p0) (read_layout B) e in
      let (sh, at) = part_start-Shows d part start p0 (init-Shows d p.cache attached ib) x in
      subst (λ t. Mounted d t w q) at
        (read_layout-Mounted s d p1 sh (λ z. ne (sym at ∙ z))
          (subst (λ t. IsVolume (layout_of t (media d t))) (sym at) iv) y)
