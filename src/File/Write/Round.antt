-- ===== src/File/Write/Round.antt =====
-- One round of `write`, from the cluster of the position on.
use sd_fat.Base.{
  ℕ, ◌+◌, ◌-◌, ◌*◌, ◌/◌, ◌%◌, ◌^◌, ◌≤◌, ◌<◌, ◌≡◌, ◌⊎◌, inl, inr, refl, sym, ◌∙◌, ap, subst, arith,
  Bool, false, not, ◌||◌, List, ◌==◌, ltb, leb, if◌then◌else◌, Outcome, done, bind, bind-done,
  done-injective, Bool-cases,
}
use native.Mathlib.Nat.{mod-lt}
use sd_fat.Base.Lists.{length}
use sd_fat.Base.Bits.{and_low}
use sd_fat.Endian.{Bytes}
use sd_fat.Endian.Laws.{IsBytes}
use sd_fat.Device.{BlockDevice}
use sd_fat.Cache.{FsCache, no_sector, prepare, sync, cache_safe_write, cache_safe_write_range}
use sd_fat.Cache.View.{view}
use sd_fat.Fat.{Geometry, store}
use sd_fat.Fat.Layout.{IsGeometry}
use sd_fat.Fat.Window.{IsMounted, IsVisible}
use sd_fat.File.{Handle, on_fat, sector_of_cluster}
use sd_fat.File.Calls.{on_fat-done}
use sd_fat.File.Sectors.{sync-Kept}
use sd_fat.File.Place.{
  IsLayout, cluster_at, data_sector, file_byte, cluster_pos, sector_of_cluster-mod,
}
use sd_fat.File.Follow.{IsFile, cluster_number}
use sd_fat.File.Visible.{row_plus, data_sector-IsVisible, data_sector-place, sector_on}
use sd_fat.File.Read.{min_size, memcpy, sectors_at, position_offset}
use sd_fat.File.Entry.{on_buffer}
use sd_fat.File.Write.{
  write_sector_number, write_option, write_part, write_many, write_one, write_sectors,
}
use sd_fat.File.Write.Store.{
  Replaced, Replaced-Kept, Opened, prepare-Opened, store-Replaced, cache_safe_write-Replaced,
  cache_safe_write_range-Replaced,
}
use sd_fat.File.Write.Wrote.{grown, IsDefined, Wrote, Replaced-Wrote}

module _ (B : BlockDevice) (g : Geometry) (hg : IsGeometry g) (d : IsLayout g) (cs : List ℕ) where
  open B use {Dev}

  -- What a round from handle `h` with `to_write` bytes to go has done.
  pub record Advanced (size : ℕ) (src : Bytes) (at to_write : ℕ) (h : Handle (FsCache Dev)) (n : ℕ)
      (p : Handle (FsCache Dev)) : Type 0 where
    pub same_file : p.file ≡ h.file
    pub some_bytes : 0 < n
    pub not_more : n ≤ to_write
    pub wrote : Wrote B g hg d cs h.file size src at n h.vol.table p.vol.table
    pub same_cluster :
        (h.file.cur_position + n - 1) / 512 / g.sectors_per_cluster
        ≡ h.file.cur_position / 512 / g.sectors_per_cluster

  module _ (size : ℕ) (src : Bytes) (at to_write : ℕ) (h : Handle (FsCache Dev))
      (i : IsFile B g hg d cs h.vol.table (grown h.file size)) (m : IsMounted B g h.vol.table)
      (fit : h.file.cur_position + to_write ≤ size)
      (here : h.file.cur_cluster ≡ cluster_at g cs (h.file.cur_position / 512))
      (some : 0 < to_write) (bytes : IsBytes src) where
    abbrev pos : ℕ
    pos = h.file.cur_position

    abbrev q0 : ℕ
    q0 = pos / 512

    number : q0 / g.sectors_per_cluster < length cs
    number = cluster_number B g hg d cs h.vol.table (grown h.file size) pos i (omega arith)

    offset_at : position_offset B g h.file ≡ pos % 512
    offset_at = and_low 9 pos

    sector_at : write_sector_number B g hg h.file ≡ data_sector g cs q0
    sector_at =
        rw (here, sector_of_cluster-mod g d pos)
          (data_sector-place B g hg d cs h.vol.table q0 (grown h.file size) i number)

    visible : (data_sector g cs q0 < no_sector) × IsVisible B g (data_sector g cs q0)
    visible = data_sector-IsVisible B g hg d cs h.vol.table q0 (grown h.file size) i number

    row : q0 % g.sectors_per_cluster + 1 ≤ g.sectors_per_cluster
    row = omega (arith, mod-lt q0 {m = g.sectors_per_cluster} (cluster_pos g d))

    -- The handle behind a call of the cache.
    abbrev with_cache : FsCache Dev → Handle (FsCache Dev)
    with_cache c = record h { vol = record h.vol { table = c } }

    -- The same result under another name.
    carry :
        (n0 n : ℕ) (q p : Handle (FsCache Dev))
        → ◌≡◌ {A = Outcome (Handle (FsCache Dev)) ℕ} (done n0 q) (done n p)
        → Advanced size src at to_write h n0 q
        → Advanced size src at to_write h n p
    carry n0 n q p f a =
        subst (λ x. Advanced size src at to_write h x p) (done-injective f).0
          (subst (Advanced size src at to_write h n0) (done-injective f).1 a)

    -- One sector that holds `n` bytes of `src` at the place of the position now.
    one_sector :
        (n : ℕ) (b : Bytes) (c : FsCache Dev)
        → 0 < n
        → n ≤ to_write
        → pos % 512 + n ≤ 512
        → ((j : ℕ) → pos % 512 ≤ j → j < pos % 512 + n → b j ≡ src (at + (j - pos % 512)))
        → ((k : ℕ)
            → k / 512 ≡ q0
            → (k < pos) ⊎ ((pos + n ≤ k) × IsDefined h.file k)
            → b (k % 512) ≡ file_byte g (view B h.vol.table) cs k)
        → Replaced B g hg (data_sector g cs q0) 1 (λ _. b) h.vol.table c
        → Advanced size src at to_write h n (with_cache c)
    one_sector n b c sn le in_one new old r = record {
      same_file = refl;
      some_bytes = sn;
      not_more = le;
      wrote =
          Replaced-Wrote B g hg d cs h.file size src at n 1 (λ _. b) h.vol.table c i r row number
            (omega arith)
            (λ k lo hi.
              new (k % 512) (omega arith) (omega arith)
              ∙ ap src {x = at + (k % 512 - pos % 512)} {y = at + (k - pos)} (omega arith))
            (λ k lo hi o. old k (omega arith) o);
      same_cluster = ap (λ t. t / g.sectors_per_cluster) (omega arith);
    }

    -- Bytes of `src` in the buffer of the prepared sector.
    in_buffer :
        (n : ℕ) (c1 : FsCache Dev)
        → pos % 512 + n ≤ 512
        → Opened B g hg (data_sector g cs q0) (write_option B g hg h.file) h.vol.table c1
        → (let b = memcpy c1.buffer (position_offset B g h.file) src at n in
            Replaced B g hg (data_sector g cs q0) 1 (λ _. b) h.vol.table (store b c1)
            × ((j : ℕ) → pos % 512 ≤ j → j < pos % 512 + n → b j ≡ src (at + (j - pos % 512)))
            × ((k : ℕ)
                → k / 512 ≡ q0
                → (k < pos) ⊎ ((pos + n ≤ k) × IsDefined h.file k)
                → b (k % 512) ≡ file_byte g (view B h.vol.table) cs k))
    in_buffer n c1 in_one o = (
      store-Replaced B g hg (data_sector g cs q0) (write_option B g hg h.file) buffer h.vol.table c1
          (λ k.
            ground (arith, o.mounted.coherent.bytes k, bytes (k - position_offset B g h.file + at)))
          o,
      λ j lo hi.
          let copied : buffer j ≡ src (j - position_offset B g h.file + at) =
            ground (arith, offset_at) in
          copied ∙ ap src (omega (arith, offset_at)),
      λ k e out.
          let copied : buffer (k % 512) ≡ c1.buffer (k % 512) = ground (arith, offset_at) in
          let read : (write_option B g hg h.file).no_read ≡ false = ground (arith, offset_at) in
          copied
          ∙ ap (λ (x : Bytes). x (k % 512)) (o.content read)
          ∙ ap (λ t. view B h.vol.table (data_sector g cs t) (k % 512)) (sym e),
    )
      where
        buffer : Bytes
        buffer = memcpy c1.buffer (position_offset B g h.file) src at n

    write_part-Advanced :
        {n : ℕ} {p : Handle (FsCache Dev)}
        → write_part B g hg src at to_write h ≡ done n p
        → Advanced size src at to_write h n p
    unfolding write_part
    write_part-Advanced {n} {p} e =
        let s = write_sector_number B g hg h.file in
        let (_, q, a, b) =
          bind-done (on_fat (prepare B s (write_option B g hg h.file)) h) after e in
        let (c1, z, y) = on_fat-done (prepare B s (write_option B g hg h.file)) h a in
        let o =
          prepare-Opened B g hg s (write_option B g hg h.file) h.vol.table m
            (rw sector_at visible.1) (ground arith) (ground arith) z in
        stored c1
          (subst (λ t. Opened B g hg t (write_option B g hg h.file) h.vol.table c1) sector_at o)
          (subst (λ x. after tt x ≡ done n p) (sym y) b)
      where
        count : ℕ
        count = min_size to_write (512 - position_offset B g h.file)

        full : Bool
        full = count + position_offset B g h.file == 512

        filled : Handle (FsCache Dev) → Handle (FsCache Dev)
        filled q = on_buffer B (λ b. memcpy b (position_offset B g h.file) src at count) q

        after : Unit {0} → Handle (FsCache Dev) → Outcome (Handle (FsCache Dev)) ℕ
        after _ q =
            let p = filled q in
            let full_one = bind (on_fat (sync B) p) (λ _. done count) in
            if full then full_one else done count p

        stored :
            (c1 : FsCache Dev)
            → Opened B g hg (data_sector g cs q0) (write_option B g hg h.file) h.vol.table c1
            → after tt (with_cache c1) ≡ done n p
            → Advanced size src at to_write h n p
        stored c1 o e =
            let sn : 0 < count = ground (arith, offset_at) in
            let le : count ≤ to_write = ground (arith, offset_at) in
            let in_one : pos % 512 + count ≤ 512 = ground (arith, offset_at) in
            let (r, new, old) = in_buffer count c1 in_one o in
            elim (Bool-cases full) [
              | inl f ↦
                  let (_, q, a, b) =
                    bind-done (on_fat (sync B) (filled (with_cache c1))) (λ _. done count)
                      (ground arith) in
                  let (c2, z, y) = on_fat-done (sync B) (filled (with_cache c1)) a in
                  carry count n (with_cache c2) p (ap (done count) y ∙ b) (
                    one_sector count _ c2 sn le in_one new old (
                      Replaced-Kept B g hg (data_sector g cs q0) 1 _ h.vol.table _ c2
                        (λ t lt. subst (IsVisible B g) (omega arith) visible.1) r
                        (sync-Kept B g hg _ r.mounted z)))
              | inr f ↦
                  carry count n (filled (with_cache c1)) p (ground arith)
                    (one_sector count _ _ sn le in_one new old r)
            ]

    write_one-Advanced :
        {n : ℕ} {p : Handle (FsCache Dev)}
        → position_offset B g h.file ≡ 0
        → 512 ≤ to_write
        → write_one B g hg src at h ≡ done n p
        → Advanced size src at to_write h n p
    unfolding write_one
    write_one-Advanced {n} {p} oz le e =
        let s = write_sector_number B g hg h.file in
        let b : Bytes = sectors_at src at 0 in
        let (_, q, x, y) = bind-done (on_fat (cache_safe_write B s b) h) (λ _. done 512) e in
        let (c, z, v) = on_fat-done (cache_safe_write B s b) h x in
        let r =
          cache_safe_write-Replaced B g hg s b h.vol.table m (λ k. bytes (at + 512 * 0 + k))
            (rw sector_at visible.1.0) z in
        carry 512 n (with_cache c) p (ap (done 512) v ∙ y) (
          one_sector 512 b c (omega arith) le (omega (arith, oz, offset_at))
            (λ j lo hi. ap src (omega (arith, oz, offset_at)))
            (λ k e out. absurd (omega (arith, oz, offset_at, out)))
            (subst (λ t. Replaced B g hg t 1 (λ _. b) h.vol.table c) sector_at r))

    -- Whole sectors of one cluster.
    some_sectors :
        (ns : ℕ) (c : FsCache Dev)
        → pos % 512 ≡ 0
        → 0 < ns
        → ns * 2 ^ 9 ≤ to_write
        → q0 % g.sectors_per_cluster + ns ≤ g.sectors_per_cluster
        → Replaced B g hg (data_sector g cs q0) ns (sectors_at src at) h.vol.table c
        → Advanced size src at to_write h (ns * 2 ^ 9) (with_cache c)
    some_sectors ns c z sn le few r = record {
      same_file = refl;
      some_bytes = omega arith;
      not_more = le;
      wrote =
          Replaced-Wrote B g hg d cs h.file size src at (ns * 2 ^ 9) ns (sectors_at src at)
            h.vol.table c i r few number (omega arith) (λ k lo hi. ap src (omega arith))
            (λ k lo hi out. absurd (omega (arith, out)));
      same_cluster =
          ap (λ t. t / g.sectors_per_cluster) {x = (pos + ns * 2 ^ 9 - 1) / 512} {y = q0 + (ns - 1)}
            (omega arith)
          ∙ (row_plus q0 g.sectors_per_cluster (ns - 1) (cluster_pos g d) (omega arith)).0;
    }

    write_many-Advanced :
        {n : ℕ} {p : Handle (FsCache Dev)}
        → position_offset B g h.file ≡ 0
        → 1024 ≤ to_write
        → write_many B g hg src at to_write h ≡ done n p
        → Advanced size src at to_write h n p
    unfolding write_many
    write_many-Advanced {n} {p} oz le e =
        let s = write_sector_number B g hg h.file in
        let ns : ℕ = min_size (to_write / 512) (g.sectors_per_cluster - sector_of_cluster g pos) in
        let soc = sector_of_cluster-mod g d pos in
        let low = mod-lt q0 {m = g.sectors_per_cluster} (cluster_pos g d) in
        let sn : 0 < ns = ground (arith, soc, low) in
        let few : q0 % g.sectors_per_cluster + ns ≤ g.sectors_per_cluster =
          ground (arith, soc, low) in
        let small : ns * 2 ^ 9 ≤ to_write = ground arith in
        let (_, _, bound) =
          sector_on B g hg d cs h.vol.table (grown h.file size) q0 (ns - 1) i number
            (omega arith) in
        let (_, q, x, y) =
          bind-done (on_fat (cache_safe_write_range B s ns (sectors_at src at)) h)
            (λ _. done (ns * 2 ^ 9)) e in
        let (c, z, v) = on_fat-done (cache_safe_write_range B s ns (sectors_at src at)) h x in
        let r =
          cache_safe_write_range-Replaced B g hg s ns (sectors_at src at) h.vol.table m
            (λ t lt k. bytes (at + 512 * t + k)) (omega (arith, sector_at, bound)) z in
        carry (ns * 2 ^ 9) n (with_cache c) p (ap (done (ns * 2 ^ 9)) v ∙ y) (
          some_sectors ns c (omega (arith, oz, offset_at)) sn small few
            (subst (λ t. Replaced B g hg t ns (sectors_at src at) h.vol.table c) sector_at r))

    -- A round that succeeds stores bytes of `src` at the place of the position.
    pub write_sectors-Advanced :
        {n : ℕ} {p : Handle (FsCache Dev)}
        → write_sectors B g hg src at to_write h ≡ done n p
        → Advanced size src at to_write h n p
    unfolding write_sectors
    write_sectors-Advanced {n} {p} e = elim (Bool-cases in_part) [
      | inl y ↦ write_part-Advanced (ground arith)
      | inr y ↦ elim (Bool-cases (leb 1024 to_write)) [
        | inl z ↦ write_many-Advanced (ground arith) (ground arith) (ground arith)
        | inr z ↦ write_one-Advanced (ground arith) (ground arith) (ground arith)
      ]
    ]
      where
        in_part : Bool
        in_part = not (position_offset B g h.file == 0) || ltb to_write 512
