-- ===== src/ExFat/Find.antt =====
-- `bitmapFind`: what it finds, that it returns, and where it does not.
use sd_fat.Base.{
  ℕ, zero, suc, ◌+◌, ◌-◌, ◌*◌, ◌/◌, ◌%◌, ◌≤◌, ◌<◌, ◌≡◌, ◌≢◌, ◌⊎◌, inl, inr, refl, sym, ◌∙◌, ap,
  arith, Bool, true, false, ◌&&◌, leb, if◌then◌else◌, Method, done, stuck, bind-done,
  done-injective, bind-ne-stuck, u32, subst,
}
use sd_fat.Base.Bits.{and_low}
use sd_fat.Base.Digit.{digit}
use sd_fat.Endian.{Bytes}
use sd_fat.Device.{BlockDevice}
use sd_fat.Cache.{FsCache, for_read, prepare}
use sd_fat.Cache.Ends.{prepare-ne-stuck}
use sd_fat.Cache.View.{view}
use sd_fat.ExFat.{Layout, ExFatPartition, on_cache}
use sd_fat.ExFat.Bitmap.{
  bit_place, bitmap_sector, Scan, found, no_space, more, scan_bits, find_rounds,
}
use sd_fat.ExFat.Scan.{IsRun, AllUsed, Search, to_go, Scanned, scan_bits-Scanned}
use sd_fat.ExFat.State.{
  IsVolume, bitmap_bit, on_cache-done, on_cache-ne-stuck, IsReady, SameView, prepare-Opened,
}

pub bit_place-mod : (n : ℕ) → bit_place n ≡ n % 4096
bit_place-mod n = ground (arith, and_low 9 (n / 8), and_low 3 n)

module _ (B : BlockDevice) (v : Layout) (iv : IsVolume v) (c0 : FsCache (B.Dev)) where
  open B use {Dev}

  abbrev pub used : ℕ → ℕ
  used = bitmap_bit v (view B c0)

  -- A client sees the volume as it was at `c0`.
  abbrev pub Kept : FsCache Dev → Type 0
  Kept c = IsReady B c × SameView B c0 c

  -- What the search yields: a run of free clusters, or none.
  abbrev pub IsFound : ℕ → ℕ → ℕ → Type 0
  IsFound start count n =
      ((2 ≤ n) × IsRun v used start count (n - 2))
      ⊎ ((n ≡ 1) × (0 < start) × (count ≡ 1 → AllUsed v used start count))

  pub record Found (note : Bool) (start count n : ℕ) (p q : ExFatPartition Dev) : Type 0 where
    pub result : IsFound start count n
    pub kept : IsReady B q.cache × SameView B c0 q.cache
    pub noted : q.bitmap_start ≡ (if note && leb 2 n then n - 2 else p.bitmap_start)

  module _ (note : Bool) (start count : ℕ) (below : start < v.cluster_count)
      (some : 0 < count) where
    -- The search of the sector of `e`.
    scanned :
        (e b : ℕ) (p : ExFatPartition Dev) (c1 : FsCache Dev)
        → Search v used start count e b
        → Kept p.cache
        → prepare B (bitmap_sector v e) for_read p.cache ≡ done tt c1
        → Scanned v used start count
            (to_go v used start count e - 1)
            (scan_bits v start count c1.buffer (4096 - e % 4096) (e % 4096) e b)
          × Kept c1
    scanned e b p c1 s k x =
        let at : bitmap_sector v e ≡ v.cluster_heap_start_sector + e / 4096 =
          omega (arith, s.inside, iv.bitmap) in
        let o =
          prepare-Opened B (bitmap_sector v e) for_read p.cache k.0
            (omega (arith, at, s.inside, iv.bitmap)) refl refl x in
        let seen : c1.buffer ≡ view B c0 (v.cluster_heap_start_sector + e / 4096) =
          o.content
          ∙ k.1 (bitmap_sector v e) (omega (arith, at, s.inside, iv.bitmap))
          ∙ ap (view B c0) at in
        (
          subst
              (λ t.
                Scanned v used start count (to_go v used start count e - 1)
                  (scan_bits v start count c1.buffer t (e % 4096) e b))
              (omega arith)
              (scan_bits-Scanned v used start count c1.buffer (4096 * (e / 4096))
                (λ i lt.
                  ap (λ (t : Bytes). digit (t (i / 8)) (i % 8)) seen
                  ∙ ap (λ t. digit (view B c0 (v.cluster_heap_start_sector + t) (i / 8)) (i % 8))
                      {x = e / 4096} {y = (4096 * (e / 4096) + i) / 4096} (omega arith)
                  ∙ ap
                      (λ t.
                        digit
                          (view B c0 (v.cluster_heap_start_sector + (4096 * (e / 4096) + i) / 4096)
                            t)
                          (i % 8))
                      {x = i / 8} {y = (4096 * (e / 4096) + i) / 8 % 512} (omega arith)
                  ∙ ap (digit _) {x = i % 8} {y = (4096 * (e / 4096) + i) % 8} (omega arith))
                (omega arith) below (omega (arith, iv.small)) some (4095 - e % 4096) (e % 4096) e b
                (to_go v used start count e - 1) s (omega arith) (omega arith)
                (λ pos. ground (arith, s.inside))),
          (o.ready, λ t nt. o.same t nt ∙ k.1 t nt),
        )

    -- What a round makes of the search of its sector.
    abbrev decide : ℕ → Scan → Method (ExFatPartition Dev) ℕ
    decide fuel s q = elim s [
      | found b ↦ done (u32 (b + 2)) (if note then record q { bitmap_start = b } else q)
      | no_space ↦ done 1 q
      | more e b ↦ find_rounds B v fuel note start count 0 e b q
    ]

    by_scan :
        (fuel m : ℕ) (p : ExFatPartition Dev) {n : ℕ} {q : ExFatPartition Dev} (a : Scan)
        (c1 : FsCache Dev)
        → Scanned v used start count m a
        → Kept c1
        → ((e b : ℕ)
            → Search v used start count e b
            → find_rounds B v fuel note start count (e % 4096) e b (record p { cache = c1 })
              ≡ done n q
            → Found note start count n (record p { cache = c1 }) q)
        → decide fuel a (record p { cache = c1 }) ≡ done n q
        → Found note start count n p q
    by_scan fuel m p {n} {q} (found b) c1 r k1 ih z =
        let (en, eq) = done-injective z in
        let at : b + 2 ≡ n = omega (arith, r.0, iv.small, en) in
        subst (λ t. Found note start count t p q) at
          (subst (Found note start count (b + 2) p) eq (record {
            result =
                inl
                  (omega arith, (omega (arith, r.0), λ i lo hi. r.1 i (omega arith) (omega arith)));
            kept = if-kept note b;
            noted = if-noted note b;
          }))
      where
        if-kept :
            (w : Bool) (b : ℕ)
            → Kept
                (if w
                  then record p { cache = c1; bitmap_start = b }
                  else record p { cache = c1 }).cache
        if-kept true b = k1
        if-kept false b = k1

        if-noted :
            (w : Bool) (b : ℕ)
            → (if w
                then record p { cache = c1; bitmap_start = b }
                else record p { cache = c1 }).bitmap_start
              ≡ (if w && leb 2 (b + 2) then b + 2 - 2 else p.bitmap_start)
        if-noted true b = ground arith
        if-noted false b = refl
    by_scan fuel m p {n} {q} no_space c1 r k1 ih z =
        let (en, eq) = done-injective z in
        subst (λ t. Found note start count t p q) en
          (subst (Found note start count 1 p) eq
            (record { result = inr (refl, r.0, r.1); kept = k1; noted = ground arith }))
    by_scan fuel m p {n} {q} (more e b) c1 r k1 ih z =
        let f = ih e b r.0 (
          subst
            (λ t. find_rounds B v fuel note start count t e b (record p { cache = c1 }) ≡ done n q)
            (sym r.1) z) in
        record { result = f.result; kept = f.kept; noted = f.noted }

    pub find_rounds-Found :
        (fuel e b : ℕ) (p : ExFatPartition Dev) {n : ℕ} {q : ExFatPartition Dev}
        → Search v used start count e b
        → Kept p.cache
        → find_rounds B v fuel note start count (e % 4096) e b p ≡ done n q
        → Found note start count n p q
    unfolding find_rounds
    find_rounds-Found zero e b p s k x = absurd cc
    find_rounds-Found (suc fuel) e b p {n} {q} s k x =
        let (_, p1, y, z) =
          bind-done (on_cache (prepare B (bitmap_sector v e) for_read) p)
            (λ _ p1.
              decide fuel (scan_bits v start count p1.cache.buffer (4096 - e % 4096) (e % 4096) e b)
                p1)
            x in
        let (c1, w, u) = on_cache-done (prepare B (bitmap_sector v e) for_read) p y in
        let (sc, k1) = scanned e b p c1 s k w in
        by_scan fuel (to_go v used start count e - 1) p
          (scan_bits v start count c1.buffer (4096 - e % 4096) (e % 4096) e b) c1 sc k1
          (λ e1 b1 s1. find_rounds-Found fuel e1 b1 (record p { cache = c1 }) s1 k1)
          (rw (sym u) at z)

    -- Where the search begins.
    pub at_start : Search v used start count start start
    at_start = record {
      inside = below;
      ordered = omega arith;
      run = λ i lo hi. absurd (omega arith);
      single = λ _. refl;
      passed = λ one i p. absurd (ground arith);
    }

    -- A round that returns, in the number of rounds that are left of the search.
    pub find_rounds-ends :
        (fuel e b : ℕ) (p : ExFatPartition Dev)
        → 0 < start
        → Search v used start count e b
        → Kept p.cache
        → to_go v used start count e < fuel
        → find_rounds B v fuel note start count (e % 4096) e b p ≢ stuck
    unfolding find_rounds
    find_rounds-ends zero e b p pos s k lt = absurd (omega arith)
    find_rounds-ends (suc fuel) e b p pos s k lt =
        bind-ne-stuck (on_cache (prepare B (bitmap_sector v e) for_read) p) _
          (on_cache-ne-stuck (prepare B (bitmap_sector v e) for_read) p
            (prepare-ne-stuck B (bitmap_sector v e) for_read p.cache))
          (λ _ p1 y.
            let (c1, w, u) = on_cache-done (prepare B (bitmap_sector v e) for_read) p y in
            let (sc, k1) = scanned e b p c1 s k w in
            subst
              (λ x.
                decide fuel
                  (scan_bits v start count x.cache.buffer (4096 - e % 4096) (e % 4096) e b) x
                ≢ stuck)
              u
              (goes_on (scan_bits v start count c1.buffer (4096 - e % 4096) (e % 4096) e b) c1 sc
                (λ e1 b1 s1 near.
                  find_rounds-ends fuel e1 b1 (record p { cache = c1 }) pos s1 k1
                    (ground (arith, near, s.inside, lt)))))
      where
        goes_on :
            (a : Scan) (c1 : FsCache Dev)
            → Scanned v used start count (to_go v used start count e - 1) a
            → ((e1 b1 : ℕ)
                → Search v used start count e1 b1
                → to_go v used start count e1 ≤ to_go v used start count e - 1
                → find_rounds B v fuel note start count (e1 % 4096) e1 b1 (record p { cache = c1 })
                  ≢ stuck)
            → decide fuel a (record p { cache = c1 }) ≢ stuck
        goes_on (found b1) c1 r ih = λ z. cc
        goes_on no_space c1 r ih = λ z. cc
        goes_on (more e1 b1) c1 r ih =
            subst
              (λ t. find_rounds B v fuel note start count t e1 b1 (record p { cache = c1 }) ≢ stuck)
              r.1 (ih e1 b1 r.0 (r.2 pos))
