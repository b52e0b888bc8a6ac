-- ===== src/ExFat/Found.antt =====
-- `bitmapFind` as a whole.
use sd_fat.Base.{
  ℕ, zero, suc, true, false, ◌∙◌, ap, Bool, Bool-cases, Outcome, Method, fail, bind, if◌then◌else◌,
  u32, ◌+◌, ◌-◌, ◌*◌, ◌<◌, ◌≡◌, ◌≢◌, inl, inr, refl, sym, arith, ◌&&◌, ◌==◌, done, stuck, subst,
}
use sd_fat.Endian.{Bytes}
use sd_fat.Device.{BlockDevice}
use sd_fat.Cache.{FsCache, for_read, sync, fetch, prepare}
use sd_fat.Cache.View.{view}
use sd_fat.ExFat.{Layout, ExFatPartition}
use sd_fat.ExFat.Bitmap.{
  Scan, found, no_space, more, scan_bits, bitmap_sector, bit_place, find_rounds, find_start,
  bitmap_find,
}
use sd_fat.ExFat.Scan.{to_go}
use sd_fat.ExFat.State.{IsVolume, bitmap_bit, IsReady}
use sd_fat.ExFat.Find.{Found, bit_place-mod, find_rounds-Found, find_rounds-ends, at_start}

module _ (B : BlockDevice) (v : Layout) (iv : IsVolume v) where
  open B use {Dev, read_sector}

  find_start-lt :
      (cluster : ℕ) (p : ExFatPartition Dev) → find_start B v cluster p < v.cluster_count
  find_start-lt cluster p = ground (arith, iv.some_clusters)

  -- On an exFAT volume whose table lies in front of its cluster heap and whose sectors and
  -- clusters fit 32 bits, with a coherent cache that owes no copy, `bitmapFind` of at least one
  -- cluster that returns a value of at least 2 has found that many free clusters in a row inside
  -- the volume; every other value is 1, and then the search did not begin at the first cluster
  -- and, for one cluster, none is free. What a client sees has not changed, and `m_bitmapStart`
  -- has moved only in a search for one cluster from nowhere, to the cluster found.
  pub bitmap_find-Found :
      (cluster count : ℕ) (p : ExFatPartition Dev) {n : ℕ} {q : ExFatPartition Dev}
      → IsReady B p.cache
      → 0 < count
      → bitmap_find B v cluster count p ≡ done n q
      → Found B v iv p.cache (cluster == 0 && count == 1) (find_start B v cluster p) count n p q
  unfolding bitmap_find
  bitmap_find-Found cluster count p {n} {q} r some e =
      let start = find_start B v cluster p in
      find_rounds-Found B v iv p.cache (cluster == 0 && count == 1) start count
        (find_start-lt cluster p) some (2 * v.cluster_count + 1) start start p
        (at_start B v iv p.cache (cluster == 0 && count == 1) start count (find_start-lt cluster p)
          some)
        (r, λ t nt. refl)
        (subst
          (λ t.
            find_rounds B v (2 * v.cluster_count + 1) (cluster == 0 && count == 1) start count t
              start start p
            ≡ done n q)
          (bit_place-mod start) e)

  -- On an exFAT volume whose table lies in front of its cluster heap and whose sectors and
  -- clusters fit 32 bits, with a coherent cache that owes no copy, `bitmapFind` of at least one
  -- cluster returns when the search does not begin at the first cluster.
  pub bitmap_find-ends :
      (cluster count : ℕ) (p : ExFatPartition Dev)
      → IsReady B p.cache
      → 0 < count
      → 0 < find_start B v cluster p
      → bitmap_find B v cluster count p ≢ stuck
  unfolding bitmap_find
  bitmap_find-ends cluster count p r some pos =
      let start = find_start B v cluster p in
      let lt = find_start-lt cluster p in
      subst
        (λ t.
          find_rounds B v (2 * v.cluster_count + 1) (cluster == 0 && count == 1) start count t start
            start p
          ≢ stuck)
        (sym (bit_place-mod start))
        (find_rounds-ends B v iv p.cache (cluster == 0 && count == 1) start count lt some
          (2 * v.cluster_count + 1) start start p pos
          (at_start B v iv p.cache (cluster == 0 && count == 1) start count lt some)
          (r, λ t nt. refl) (enough start lt))
    where
      enough :
          (start : ℕ)
          → start < v.cluster_count
          → to_go v (bitmap_bit v (view B p.cache)) start count start < 2 * v.cluster_count + 1
      enough start lt = ground arith

  -- A search of a full volume from the first cluster returns no value.
  find_rounds_unfinished :
      (cluster count : ℕ) (p : ExFatPartition Dev)
      → IsReady B p.cache
      → 0 < count
      → find_start B v cluster p ≡ 0
      → ((i : ℕ) → i < v.cluster_count → bitmap_bit v (view B p.cache) i ≢ 0)
      → (rounds n : ℕ) (q : ExFatPartition Dev)
      → find_rounds B v rounds
          (cluster == 0 && count == 1)
          (find_start B v cluster p)
          count
          (bit_place (find_start B v cluster p))
          (find_start B v cluster p)
          (find_start B v cluster p)
          p
        ≢ done n q
  find_rounds_unfinished cluster count p r some z full rounds n q e =
      let start = find_start B v cluster p in
      let f =
        find_rounds-Found B v iv p.cache (cluster == 0 && count == 1) start count
          (find_start-lt cluster p) some rounds start start p
          (at_start B v iv p.cache (cluster == 0 && count == 1) start count
            (find_start-lt cluster p) some)
          (r, λ t nt. refl)
          (subst
            (λ t.
              find_rounds B v rounds (cluster == 0 && count == 1) start count t start start p
              ≡ done n q)
            (bit_place-mod start) e) in
      elim f.result [
        | inl a ↦ full (n - 2) (omega (arith, a.1.0)) (a.1.1 (n - 2) (omega arith) (omega arith))
        | inr a ↦ absurd (omega (arith, a.1, z))
      ]

  -- The cache has its device, which works, and nothing to write back.
  pub record Works (Good : Dev → Type 0) (c : FsCache Dev) : Type 0 where
    pub attached : c.attached ≡ true
    pub clean : c.dirty ≡ false
    pub good : Good c.device

  module _ (Good : Dev → Type 0)
      (good_read : (d : Dev) (s : ℕ) (b : Bytes)
        → Good d
        → ((read_sector d s b).0 ≡ true) × Good (read_sector d s b).2) where
    prepare-Works :
        (s : ℕ) (c : FsCache Dev)
        → Works Good c
        → (c' : FsCache Dev) × (prepare B s for_read c ≡ done tt c') × Works Good c'
    unfolding prepare sync fetch
    prepare-Works s c w = elim (Bool-cases (c.sector == s)) [
      | inl e ↦ (c, cached e, w)
      | inr e ↦ (
        record c {
          device = (read_sector c.device s c.buffer).2;
          sector = s;
          dirty = false;
          mirror = false;
          buffer = (read_sector c.device s c.buffer).1;
        },
        fetched e,
        record {
          attached = w.attached;
          clean = refl;
          good = (good_read c.device s c.buffer w.good).1;
        },
      )
    ]
      where
        cached : (c.sector == s) ≡ true → prepare B s for_read c ≡ done tt c
        cached e = ground (arith, w.attached, w.clean)

        fetched :
            (c.sector == s) ≡ false
            → prepare B s for_read c
              ≡ done tt (record c {
                device = (read_sector c.device s c.buffer).2;
                sector = s;
                dirty = false;
                mirror = false;
                buffer = (read_sector c.device s c.buffer).1;
              })
        fetched e = ground (arith, w.attached, w.clean, (good_read c.device s c.buffer w.good).0)

    -- No round of the search fails.
    find_rounds-ne-fail :
        (fuel : ℕ) (note : Bool) (start count j e b : ℕ) (p q : ExFatPartition Dev)
        → Works Good p.cache
        → find_rounds B v fuel note start count j e b p ≢ fail q
    unfolding find_rounds
    find_rounds-ne-fail zero note start count j e b p q w z = cc
    find_rounds-ne-fail (suc fuel) note start count j e b p q w z =
        let (c, x, k) = prepare-Works (bitmap_sector v e) p.cache w in
        go (record p { cache = c })
          (λ e b z. find_rounds-ne-fail fuel note start count 0 e b (record p { cache = c }) q k z)
          (scan_bits v start count c.buffer (4096 - j) j e b)
          (ap
              (λ o.
                bind
                  (elim o [
                    | done a c ↦ done a (record p { cache = c })
                    | fail c ↦ fail (record p { cache = c })
                    | stuck ↦ stuck
                  ])
                  round)
              (sym x)
            ∙ z)
      where
        next : ExFatPartition Dev → Scan → Outcome (ExFatPartition Dev) ℕ
        next p s = elim s [
          | found b ↦ done (u32 (b + 2)) (if note then record p { bitmap_start = b } else p)
          | no_space ↦ done 1 p
          | more e b ↦ find_rounds B v fuel note start count 0 e b p
        ]

        round : Unit {0} → Method (ExFatPartition Dev) ℕ
        round _ p = next p (scan_bits v start count p.cache.buffer (4096 - j) j e b)

        go :
            (p1 : ExFatPartition Dev)
            → ((e b : ℕ) → find_rounds B v fuel note start count 0 e b p1 ≢ fail q)
            → (s : Scan) → next p1 s ≢ fail q
        go p1 on (found b) z = cc
        go p1 on no_space z = cc
        go p1 on (more e b) z = on e b z

    -- On an exFAT volume whose table lies in front of its cluster heap and whose sectors and
    -- clusters fit 32 bits, with a coherent cache that owes no copy, and a device whose reads
    -- succeed and leave it so, attached to a cache that has nothing to write back, when no
    -- cluster is free and the search begins at the first one, the loop of `bitmapFind` is not
    -- done after any number of rounds: it returns neither a value nor an error.
    pub bitmap_find_hangs :
        (cluster count : ℕ) (p : ExFatPartition Dev)
        → IsReady B p.cache
        → Works Good p.cache
        → 0 < count
        → find_start B v cluster p ≡ 0
        → ((i : ℕ) → i < v.cluster_count → bitmap_bit v (view B p.cache) i ≢ 0)
        → (rounds : ℕ)
        → find_rounds B v rounds
            (cluster == 0 && count == 1)
            (find_start B v cluster p)
            count
            (bit_place (find_start B v cluster p))
            (find_start B v cluster p)
            (find_start B v cluster p)
            p
          ≡ stuck
    bitmap_find_hangs cluster count p r w some z full rounds =
        go
          (find_rounds B v rounds (cluster == 0 && count == 1) start count (bit_place start) start
            start p)
          (λ n q. find_rounds_unfinished cluster count p r some z full rounds n q)
          (λ q.
            find_rounds-ne-fail rounds (cluster == 0 && count == 1) start count (bit_place start)
              start start p q w)
      where
        start : ℕ
        start = find_start B v cluster p

        go :
            (o : Outcome (ExFatPartition Dev) ℕ)
            → ((n : ℕ) (q : ExFatPartition Dev) → o ≢ done n q)
            → ((q : ExFatPartition Dev) → o ≢ fail q)
            → o ≡ stuck
        go (done n q) a b = absurd (a n q refl)
        go (fail q) a b = absurd (b q refl)
        go stuck a b = refl
