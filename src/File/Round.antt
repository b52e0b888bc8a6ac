-- ===== src/File/Round.antt =====
-- One round of `readPrivate`: the bytes that it moves are bytes of the file.
use sd_fat.Base.{
  ℕ, ◌+◌, ◌-◌, ◌*◌, ◌/◌, ◌%◌, ◌^◌, ◌≤◌, ◌<◌, ◌≡◌, ◌⊎◌, inl, inr, refl, sym, ◌∙◌, ap, subst, arith,
  Bool, not, ◌||◌, List, ◌==◌, ltb, leb, if◌then◌else◌, Outcome, done, bind-done, done-injective,
  Bool-cases, u32,
}
use native.Mathlib.Nat.{mod-lt}
use sd_fat.Base.Lists.{length}
use sd_fat.Base.Bits.{and_low}
use sd_fat.Endian.{Bytes}
use sd_fat.Device.{BlockDevice, Sectors}
use sd_fat.Cache.{FsCache, for_read, prepare, cache_safe_read, cache_safe_read_range}
use sd_fat.Cache.View.{view}
use sd_fat.Fat.{Geometry}
use sd_fat.Fat.Layout.{IsGeometry}
use sd_fat.Fat.Window.{IsVisible}
use sd_fat.File.{Handle, on_fat, is_root_fixed, sector_of_cluster, cluster_start_sector}
use sd_fat.File.Sectors.{
  Kept, Kept-trans, prepare-Window, cache_safe_read-Kept, cache_safe_read_range-Kept,
}
use sd_fat.File.Place.{
  IsLayout, cluster_at, data_sector, file_byte, cluster_pos, sector_of_cluster-mod,
}
use sd_fat.File.Calls.{on_fat-done}
use sd_fat.File.Follow.{IsFile, cluster_number}
use sd_fat.File.Read.{
  memcpy, min_size, sectors_at, put_sectors_at, position_offset, position_sector, read_part,
  read_many, read_one, read_sectors,
}
use sd_fat.File.Visible.{row_plus, data_sector-IsVisible, data_sector-place, sector_on}

module _ (B : BlockDevice) (g : Geometry) (hg : IsGeometry g) (d : IsLayout g) (cs : List ℕ)
    (c0 : FsCache (B.Dev)) where
  open B use {Dev}

  -- What a round from handle `h` with `to_read` bytes to go has done.
  pub record Moved (dst : Bytes) (at to_read : ℕ) (h : Handle (FsCache Dev)) (b : Bytes) (n : ℕ)
      (p : Handle (FsCache Dev)) : Type 0 where
    pub same_file : p.file ≡ h.file
    pub kept : Kept B g hg c0 p.vol.table
    pub some_bytes : 0 < n
    pub not_more : n ≤ to_read
    pub moved : (j : ℕ) → j < n → b (at + j) ≡ file_byte g (view B c0) cs (h.file.cur_position + j)
    pub others : (k : ℕ) → (k < at) ⊎ (at + n ≤ k) → b k ≡ dst k
    pub same_cluster :
        (h.file.cur_position + n - 1) / 512 / g.sectors_per_cluster
        ≡ h.file.cur_position / 512 / g.sectors_per_cluster

  module _ (dst : Bytes) (at to_read : ℕ) (h : Handle (FsCache Dev))
      (i : IsFile B g hg d cs c0 h.file) (lt : h.file.cur_position < h.file.file_size)
      (here : h.file.cur_cluster ≡ cluster_at g cs (h.file.cur_position / 512))
      (k : Kept B g hg c0 h.vol.table) (some : 0 < to_read) where
    abbrev pos : ℕ
    pos = h.file.cur_position

    number : pos / 512 / g.sectors_per_cluster < length cs
    number = cluster_number B g hg d cs c0 h.file pos i lt

    offset_at : position_offset B g h.file ≡ pos % 512
    offset_at = and_low 9 pos

    sector_at : position_sector B g h.file ≡ data_sector g cs (pos / 512)
    sector_at =
        let e : position_sector B g h.file
            ≡ u32 (cluster_start_sector g h.file.cur_cluster + sector_of_cluster g pos) =
          ground (arith, i.0) in
        e
        ∙ rw (here, sector_of_cluster-mod g d pos)
            (data_sector-place B g hg d cs c0 (pos / 512) h.file i number)

    -- The handle behind a call of the cache.
    abbrev with_cache : FsCache Dev → Handle (FsCache Dev)
    with_cache c = record h { vol = record h.vol { table = c } }

    -- The same results under other names.
    carry :
        (r0 r : Bytes × ℕ) (c : FsCache Dev) (p : Handle (FsCache Dev))
        → ◌≡◌ {A = Outcome (Handle (FsCache Dev)) (Bytes × ℕ)} (done r0 (with_cache c)) (done r p)
        → Moved dst at to_read h r0.0 r0.1 (with_cache c)
        → Moved dst at to_read h r.0 r.1 p
    carry r0 r c p f m =
        subst (λ x. Moved dst at to_read h x.0 x.1 p) (done-injective f).0
          (subst (Moved dst at to_read h r0.0 r0.1) (done-injective f).1 m)

    visible : IsVisible B g (data_sector g cs (pos / 512))
    visible = (data_sector-IsVisible B g hg d cs c0 (pos / 512) h.file i number).1

    -- The bytes of the sector of the position.
    abbrev sector_bytes : Bytes
    sector_bytes = view B c0 (data_sector g cs (pos / 512))

    seen : view B h.vol.table (position_sector B g h.file) ≡ sector_bytes
    seen = rw sector_at (k.1 (data_sector g cs (pos / 512)) visible)

    -- `n` bytes of the sector of the position.
    from_sector :
        (n : ℕ) (c : FsCache Dev) (src : Bytes) (o : ℕ)
        → 0 < n
        → n ≤ to_read
        → pos % 512 + n ≤ 512
        → src ≡ sector_bytes
        → o ≡ pos % 512
        → Kept B g hg c0 c
        → Moved dst at to_read h (memcpy dst at src o n) n (with_cache c)
    from_sector n c src o some_n le fit e oe kept = record {
      same_file = refl;
      kept = kept;
      some_bytes = some_n;
      not_more = le;
      moved = λ j lj. byte j lj;
      others = λ t o. ground arith;
      same_cluster = ap (λ t. t / g.sectors_per_cluster) (omega arith);
    }
      where
        byte :
            (j : ℕ) → j < n → memcpy dst at src o n (at + j) ≡ file_byte g (view B c0) cs (pos + j)
        byte j lj =
            let u : at + j - at + o ≡ (pos + j) % 512 = omega arith in
            let copied : memcpy dst at src o n (at + j) ≡ src (at + j - at + o) = ground arith in
            copied
            ∙ ap src u
            ∙ ap (λ (b : Bytes). b ((pos + j) % 512)) e
            ∙ ap (λ t. view B c0 (data_sector g cs t) ((pos + j) % 512)) {x = pos / 512}
                {y = (pos + j) / 512} (omega arith)

    read_part-Moved :
        {r : Bytes × ℕ} {p : Handle (FsCache Dev)}
        → read_part B g dst at to_read h ≡ done r p
        → Moved dst at to_read h r.0 r.1 p
    unfolding read_part
    read_part-Moved {r} {p} e =
        let n = min_size to_read (512 - position_offset B g h.file) in
        let s = position_sector B g h.file in
        let (_, q, a, b) =
          bind-done (on_fat (prepare B s for_read) h)
            (λ _ q. done (memcpy dst at q.vol.table.buffer (position_offset B g h.file) n, n) q)
            e in
        let (c, z, y) = on_fat-done (prepare B s for_read) h a in
        let w =
          prepare-Window B g hg s for_read h.vol.table k.0 (rw sector_at visible) refl refl z in
        let f =
          subst
            (λ x.
              ◌≡◌ {A = Outcome (Handle (FsCache Dev)) (Bytes × ℕ)}
                (done (memcpy dst at x.vol.table.buffer (position_offset B g h.file) n, n) x)
                (done r p))
            (sym y) b in
        carry (memcpy dst at c.buffer (position_offset B g h.file) n, n) r c p f
          (from_sector n c c.buffer (position_offset B g h.file) (ground (arith, offset_at))
            (ground (arith, offset_at)) (ground (arith, offset_at)) (w.content ∙ seen) offset_at
            (Kept-trans B g hg c0 h.vol.table c k (w.mounted, w.same)))

    read_one-Moved :
        {r : Bytes × ℕ} {p : Handle (FsCache Dev)}
        → position_offset B g h.file ≡ 0
        → 512 ≤ to_read
        → read_one B g dst at h ≡ done r p
        → Moved dst at to_read h r.0 r.1 p
    unfolding read_one
    read_one-Moved {r} {p} oz le e =
        let s = position_sector B g h.file in
        let (b, q, x, y) =
          bind-done (on_fat (cache_safe_read B s (sectors_at dst at 0)) h)
            (λ b q. done (memcpy dst at b 0 512, 512) q) e in
        let (c, z, v) = on_fat-done (cache_safe_read B s (sectors_at dst at 0)) h x in
        let (eb, kept) = cache_safe_read-Kept B g hg s (sectors_at dst at 0) h.vol.table k.0 z in
        let f =
          subst
            (λ x.
              ◌≡◌ {A = Outcome (Handle (FsCache Dev)) (Bytes × ℕ)}
                (done (memcpy dst at b 0 512, 512) x) (done r p))
            (sym v) y in
        carry (memcpy dst at b 0 512, 512) r c p f
          (from_sector 512 c b 0 (omega arith) le (omega (arith, oz, offset_at)) (eb ∙ seen)
            (sym oz ∙ offset_at) (Kept-trans B g hg c0 h.vol.table c k kept))

    from_sectors :
        (ns : ℕ) (c : FsCache Dev) (src : Sectors)
        → pos % 512 ≡ 0
        → 0 < ns
        → 512 * ns ≤ to_read
        → pos / 512 % g.sectors_per_cluster + ns ≤ g.sectors_per_cluster
        → ((t : ℕ) → t < ns → src t ≡ view B c0 (data_sector g cs (pos / 512 + t)))
        → Kept B g hg c0 c
        → Moved dst at to_read h
            (put_sectors_at dst at src (ns * 2 ^ 9))
            (ns * 2 ^ 9)
            (with_cache c)
    from_sectors ns c src z some_ns le fit e kept = record {
      same_file = refl;
      kept = kept;
      some_bytes = omega arith;
      not_more = omega arith;
      moved = λ j lj. byte j lj;
      others = λ t o. ground arith;
      same_cluster =
          ap (λ t. t / g.sectors_per_cluster) {x = (pos + ns * 2 ^ 9 - 1) / 512}
            {y = pos / 512 + (ns - 1)} (omega arith)
          ∙ (row_plus (pos / 512) g.sectors_per_cluster (ns - 1) (cluster_pos g d) (omega arith)).0;
    }
      where
        byte :
            (j : ℕ)
            → j < ns * 2 ^ 9
            → put_sectors_at dst at src (ns * 2 ^ 9) (at + j) ≡ file_byte g (view B c0) cs (pos + j)
        byte j lj =
            let copied : put_sectors_at dst at src (ns * 2 ^ 9) (at + j)
                ≡ src ((at + j - at) / 512) ((at + j - at) % 512) =
              ground arith in
            copied
            ∙ ap (λ x. src (x / 512) (x % 512)) {x = at + j - at} {y = j} (omega arith)
            ∙ ap (λ (b : Bytes). b (j % 512)) (e (j / 512) (omega arith))
            ∙ ap (λ t. view B c0 (data_sector g cs t) (j % 512)) {x = pos / 512 + j / 512}
                {y = (pos + j) / 512} (omega arith)
            ∙ ap (λ x. view B c0 (data_sector g cs ((pos + j) / 512)) x) {x = j % 512}
                {y = (pos + j) % 512} (omega arith)

    read_many-Moved :
        {r : Bytes × ℕ} {p : Handle (FsCache Dev)}
        → position_offset B g h.file ≡ 0
        → 1024 ≤ to_read
        → read_many B g dst at to_read h ≡ done r p
        → Moved dst at to_read h r.0 r.1 p
    unfolding read_many
    read_many-Moved {r} {p} oz le e =
        let s = position_sector B g h.file in
        let ns : ℕ =
          if is_root_fixed h.file.kind
          then to_read / 512
          else min_size (to_read / 512) (g.sectors_per_cluster - sector_of_cluster g pos) in
        let soc = sector_of_cluster-mod g d pos in
        let low = mod-lt (pos / 512) {m = g.sectors_per_cluster} (cluster_pos g d) in
        let some_ns : 0 < ns = ground (arith, i.0, soc, low) in
        let fit : pos / 512 % g.sectors_per_cluster + ns ≤ g.sectors_per_cluster =
          ground (arith, i.0, soc, low) in
        let few : 512 * ns ≤ to_read = ground (arith, i.0) in
        let (b, q, x, y) =
          bind-done (on_fat (cache_safe_read_range B s ns (sectors_at dst at)) h)
            (λ b q. done (put_sectors_at dst at b (ns * 2 ^ 9), ns * 2 ^ 9) q) e in
        let (c, z, v) = on_fat-done (cache_safe_read_range B s ns (sectors_at dst at)) h x in
        let (eb, kept) =
          cache_safe_read_range-Kept B g hg s ns (sectors_at dst at) h.vol.table k.0
            (omega (
              arith,
              sector_at,
              (sector_on B g hg d cs c0 h.file (pos / 512) (ns - 1) i number (omega arith)).2,
            ))
            (λ t lt.
              rw sector_at
                ((sector_on B g hg d cs c0 h.file (pos / 512) t i number (omega arith)).1))
            z in
        let f =
          subst
            (λ x.
              ◌≡◌ {A = Outcome (Handle (FsCache Dev)) (Bytes × ℕ)}
                (done (put_sectors_at dst at b (ns * 2 ^ 9), ns * 2 ^ 9) x) (done r p))
            (sym v) y in
        carry (put_sectors_at dst at b (ns * 2 ^ 9), ns * 2 ^ 9) r c p f
          (from_sectors ns c b (omega (arith, oz, offset_at)) some_ns few fit
            (λ t lt.
              let (e, vis, _) =
                sector_on B g hg d cs c0 h.file (pos / 512) t i number (omega arith) in
              eb t lt
              ∙ ap (λ x. view B h.vol.table (x + t)) sector_at
              ∙ k.1 (data_sector g cs (pos / 512) + t) vis
              ∙ ap (view B c0) (sym e))
            (Kept-trans B g hg c0 h.vol.table c k kept))

    -- A round that succeeds moves bytes of the file.
    pub read_sectors-Moved :
        {r : Bytes × ℕ} {p : Handle (FsCache Dev)}
        → read_sectors B g dst at to_read h ≡ done r p
        → Moved dst at to_read h r.0 r.1 p
    unfolding read_sectors
    read_sectors-Moved {r} {p} e = elim (Bool-cases in_part) [
      | inl y ↦ read_part-Moved (ground arith)
      | inr y ↦ elim (Bool-cases (leb 1024 to_read)) [
        | inl z ↦ read_many-Moved (ground arith) (ground arith) (ground arith)
        | inr z ↦ read_one-Moved (ground arith) (ground arith) (ground arith)
      ]
    ]
      where
        in_part : Bool
        in_part =
            not (position_offset B g h.file == 0)
            || ltb to_read 512
            || position_sector B g h.file == h.vol.table.sector
