-- ===== src/Fat/Fat12.antt =====
-- `fatGet` and `fatPut` on FAT12: two entries share three bytes, and an entry may begin in one
-- sector and end in the next.
use sd_fat.Base.{
  ℕ, ◌+◌, ◌*◌, ◌/◌, ◌^◌, ◌%◌, ◌≤◌, ◌<◌, ◌≡◌, inl, inr, refl, sym, ◌∙◌, arith, true, false, done,
  bind, bind-done, done-injective, subst, Bool-cases, bit_and, bit_or, u16, u32, ◌>>>◌, ◌<<<◌, ◌==◌,
  ==→eq, ==→ne, if◌then◌else◌,
}
use sd_fat.Base.Bits.{and_low, or_fields_low}
use sd_fat.Endian.{Bytes}
use sd_fat.Device.{BlockDevice}
use sd_fat.Cache.{FsCache, Access, for_read}
use sd_fat.Fat.{Geometry, fat_cache_prepare, second_byte, get12}
use sd_fat.Fat.Layout.{IsGeometry, InFat, entry12}
use sd_fat.Fat.Window.{IsMounted, SameView, Window, fat_cache_prepare-Window}
use sd_fat.Fat.Stored.{table, Window-table, SameView-table, table-lt}

-- The first byte of the entry, and the index, sector and offset that the code computes for it.
abbrev pub start12 : ℕ → ℕ
start12 n = n + n / 2

abbrev pub index12 : ℕ → ℕ
index12 n = u16 (u16 n + u16 n >>> 1)

abbrev pub sector12 : Geometry → ℕ → ℕ
sector12 g n = u32 (g.fat_start_sector + index12 n >>> 9)

abbrev pub offset12 : ℕ → ℕ
offset12 n = bit_and (index12 n) 511

module _ (B : BlockDevice) (g : Geometry) (h : IsGeometry g) where
  open B use {Dev}

  -- A window on the sector that is cached already.
  again :
      {s : ℕ} {a : Access} {c : FsCache Dev}
      → IsMounted B g c
      → c.sector ≡ s
      → (a.dirty ≡ true → c.dirty ≡ true)
      → Window B g s a c c
  again m e d = record {
    mounted = m;
    sector = e;
    content = ground arith;
    same = λ t v. refl;
    marked = d;
  }

  -- The second byte lies in the window that `second_byte` leaves open.
  pub second_byte-Window :
      (lo s i : ℕ) (a : Access) {j : ℕ} {c c' : FsCache Dev}
      → IsMounted B g c
      → c.sector ≡ s
      → (a.dirty ≡ true → c.dirty ≡ true)
      → a.no_read ≡ false
      → a.mirror ≡ false
      → s ≡ g.fat_start_sector + lo / 512
      → i ≡ lo % 512
      → lo + 1 < 512 * g.sectors_per_fat
      → second_byte B g s i a c ≡ done j c'
      → Window B g (g.fat_start_sector + (lo + 1) / 512) a c c' × (j ≡ (lo + 1) % 512)
  second_byte-Window lo s i a {j} {c} {c'} m e d nr nm es ei fit q =
      elim (Bool-cases (i + 1 == 512)) [
        | inl y ↦
            let (_, c1, p, r) =
              bind-done (fat_cache_prepare B g (u32 (s + 1)) a c) (λ _ x. done 0 x) (crossed y) in
            let w : Window B g (u32 (s + 1)) a c c1 =
              fat_cache_prepare-Window B g (u32 (s + 1)) a c h m
                (omega (arith, ==→eq (i + 1) 512 y, h.sectors)) nr nm p in
            let (ej, ec) = done-injective r in
            (
              subst (λ x. Window B g x a c c') (omega (arith, ==→eq (i + 1) 512 y, h.sectors))
                  (subst (λ x. Window B g (u32 (s + 1)) a c x) ec w),
              omega (arith, ==→eq (i + 1) 512 y),
            )
        | inr y ↦
            let (ej, ec) = done-injective (stayed y) in
            (
              subst (λ x. Window B g (g.fat_start_sector + (lo + 1) / 512) a c x) ec
                  (again m (omega (arith, ==→ne (i + 1) 512 y)) d),
              omega (arith, ==→ne (i + 1) 512 y),
            )
      ]
    where
      crossed :
          (i + 1 == 512) ≡ true
          → bind (fat_cache_prepare B g (u32 (s + 1)) a c) (λ _ x. done 0 x) ≡ done j c'
      crossed y = unfold second_byte in rw (y, second_byte) at q

      stayed : (i + 1 == 512) ≡ false → done (i + 1) c ≡ done j c'
      stayed y = unfold second_byte in rw (y, second_byte) at q

  module _ (n : ℕ) (t : g.fat_type ≡ 12) (le : n ≤ g.last_cluster) where
    pub place12 :
        ((sector12 g n) ≡ g.fat_start_sector + start12 n / 512)
        × ((offset12 n) ≡ start12 n % 512)
        × InFat g (sector12 g n)
        × (start12 n + 1 < 512 * g.sectors_per_fat)
    place12 = omega (arith, h.sectors, h.room12 t, h.clusters12 t, and_low 9 (index12 n))

    -- What the code makes of the two bytes.
    abbrev join12 : ℕ → ℕ → ℕ
    join12 low high =
        let tmp = bit_or low (u16 (high <<< 8)) in
        if bit_and n 1 == 0 then bit_and tmp 0xFFF else tmp >>> 4

    join12-entry12 :
        (b : Bytes)
        → b (start12 n) < 256
        → b (start12 n + 1) < 256
        → join12 (b (start12 n)) (b (start12 n + 1)) ≡ entry12 b n
    join12-entry12 b p q = ground (
      arith,
      or_fields_low 8 (b (start12 n + 1)) (b (start12 n)),
      and_low 12 (b (start12 n) + 2 ^ 8 * b (start12 n + 1)),
      and_low 1 n,
    )

    peeked12 :
        {j : ℕ} {c c1 c2 : FsCache Dev}
        → Window B g (sector12 g n) for_read c c1
        → Window B g (g.fat_start_sector + (start12 n + 1) / 512) for_read c1 c2
          × (j ≡ (start12 n + 1) % 512)
        → IsMounted B g c
        → (join12 (c1.buffer (offset12 n)) (c2.buffer j) ≡ entry12 (table B g c) n)
          × IsMounted B g c2
          × SameView B g c c2
    peeked12 {j} {c} {c1} {c2} w (w2, ej) m = (
      rw (low, high)
          (join12-entry12 (table B g c) (table-lt B g c (start12 n) m)
            (table-lt B g c (start12 n + 1) m)),
      w2.mounted,
      λ s vis. w2.same s vis ∙ w.same s vis,
    )
      where
        low : c1.buffer (offset12 n) ≡ table B g c (start12 n)
        low = Window-table B g (offset12 n) (start12 n) w place12.0 place12.1

        high : c2.buffer j ≡ table B g c (start12 n + 1)
        high =
            Window-table B g j (start12 n + 1) w2 refl ej
            ∙ SameView-table B g c c1 (start12 n + 1) h place12.3 w.same

    pub get12-Peeked :
        {v : ℕ} {c c' : FsCache Dev}
        → IsMounted B g c
        → get12 B g n c ≡ done v c'
        → (v ≡ entry12 (table B g c) n) × IsMounted B g c' × SameView B g c c'
    unfolding get12
    get12-Peeked {v} {c} {c'} m e = ended (
        bind-done (fat_cache_prepare B g (sector12 g n) for_read c)
          (λ _ x.
            bind (second_byte B g (sector12 g n) (offset12 n) for_read x)
              (λ j y. done (join12 (x.buffer (offset12 n)) (y.buffer j)) y))
          e)
      where
        finished :
            {c1 : FsCache Dev}
            → Window B g (sector12 g n) for_read c c1
            → (j : ℕ) × (c2 : FsCache Dev) × (second_byte B g
                  (sector12 g n)
                  (offset12 n)
                  for_read
                  c1
                ≡ done j c2)
              × (done (join12 (c1.buffer (offset12 n)) (c2.buffer j)) c2 ≡ done v c')
            → (v ≡ entry12 (table B g c) n) × IsMounted B g c' × SameView B g c c'
        finished {c1} w (j, c2, r, z) =
            subst (λ x. (v ≡ entry12 (table B g c) n) × IsMounted B g x × SameView B g c x)
              (done-injective z).1 (sym (done-injective z).0 ∙ r2.0, r2.1, r2.2)
          where
            r2 :
                (join12 (c1.buffer (offset12 n)) (c2.buffer j) ≡ entry12 (table B g c) n)
                × IsMounted B g c2
                × SameView B g c c2
            r2 =
                peeked12 w
                  (second_byte-Window (start12 n) (sector12 g n) (offset12 n) for_read w.mounted
                    w.sector (λ d. cc) refl refl place12.0 place12.1 place12.3 r)
                  m

        ended :
            (_ : Unit {0}) × (c1 : FsCache Dev) × (fat_cache_prepare B g (sector12 g n) for_read c
                ≡ done tt c1)
              × (bind
                    (second_byte B g (sector12 g n) (offset12 n) for_read c1)
                    (λ j y. done (join12 (c1.buffer (offset12 n)) (y.buffer j)) y)
                  ≡ done v c')
            → (v ≡ entry12 (table B g c) n) × IsMounted B g c' × SameView B g c c'
        ended (_, c1, p, q) =
            finished
              (fat_cache_prepare-Window B g (sector12 g n) for_read c h m place12.2 refl refl p)
              (bind-done (second_byte B g (sector12 g n) (offset12 n) for_read c1)
                (λ j y. done (join12 (c1.buffer (offset12 n)) (y.buffer j)) y) q)
