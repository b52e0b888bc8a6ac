-- ===== src/ExFat/Counted.antt =====
-- `freeClusterCount` as a whole.
use sd_fat.Base.{
  ℕ, zero, suc, ◌+◌, ◌-◌, ◌*◌, ◌/◌, ◌≤◌, ◌<◌, ◌≡◌, ◌≢◌, refl, sym, ◌∙◌, ap, subst, arith, Outcome,
  Method, done, stuck, bind-done, bind-ne-stuck, done-injective, u32, sub32,
}
use sd_fat.Device.{BlockDevice}
use sd_fat.Cache.{FsCache, for_read, no_sector, prepare}
use sd_fat.Cache.Ends.{prepare-ne-stuck}
use sd_fat.Cache.View.{view}
use sd_fat.ExFat.{Layout, ExFatPartition, on_cache}
use sd_fat.ExFat.Chains.{Count, counted, uncounted, count_bytes, count_rounds, free_cluster_count}
use sd_fat.ExFat.Count.{
  used_below, used_below-zero, used_below-le, used_below-free, Counted, count_bytes-Counted,
}
use sd_fat.ExFat.State.{
  IsVolume, bitmap_bit, on_cache-done, on_cache-ne-stuck, IsReady, SameView, prepare-Opened,
}

module _ (B : BlockDevice) (v : Layout) (iv : IsVolume v) where
  open B use {Dev}

  module _ (c0 : FsCache Dev) where
    abbrev used : ℕ → ℕ
    used = used_below v (view B c0)

    -- What the loop knows of the cache.
    abbrev Kept : FsCache Dev → Type 0
    Kept c = IsReady B c × SameView B c0 c

    -- What the loop does with the count of one sector.
    abbrev continue : ℕ → ℕ → Count → Method (ExFatPartition Dev) ℕ
    continue fuel s (counted n) q = done n q
    continue fuel s (uncounted nc u) q = count_rounds B v fuel s nc u q

    -- The count of sector `t`, from a cache that has read it.
    read_sector-Counted :
        (t : ℕ) (p : ExFatPartition Dev) {u : Unit {0}} {q : ExFatPartition Dev}
        → Kept p.cache
        → 4096 * t < v.cluster_count
        → on_cache (prepare B (v.cluster_heap_start_sector + t) for_read) p ≡ done u q
        → Kept q.cache
          × Counted v
              (view B c0)
              t
              (count_bytes v 512 0 (4096 * t) (used (4096 * t)) q.cache.buffer)
    read_sector-Counted t p {u} {q} k lt e =
        let s = v.cluster_heap_start_sector + t in
        let ne : s ≢ no_sector = λ z. omega (arith, z, lt, iv.bitmap) in
        let (c, x, y) = on_cache-done (prepare B s for_read) p e in
        let o = prepare-Opened B s for_read p.cache k.0 ne refl refl x in
        let start : 8 * (512 * t + 0) ≡ 4096 * t = omega arith in
        subst
          (λ (z : ExFatPartition Dev).
            Kept z.cache
            × Counted v (view B c0) t
                (count_bytes v 512 0 (4096 * t) (used (4096 * t)) z.cache.buffer))
          y
          (
            (o.ready, λ r nr. o.same r nr ∙ k.1 r nr),
            subst (λ a. Counted v (view B c0) t (count_bytes v 512 0 a (used a) c.buffer)) start
                (count_bytes-Counted v iv (view B c0) t 512 0 c.buffer refl (omega (arith, lt))
                  (o.content ∙ k.1 s ne)),
          )

    -- The result of the loop.
    abbrev result : ℕ
    result = sub32 v.cluster_count (used (8 * ((v.cluster_count + 7) / 8)))

    -- The loop goes on from sector `t`.
    abbrev rounds : ℕ → ℕ → Method (ExFatPartition Dev) ℕ
    rounds fuel t =
        count_rounds B v fuel (v.cluster_heap_start_sector + t) (4096 * t) (used (4096 * t))

    -- A sector that is not the last leads to the next one.
    next_sector :
        (fuel t nc u : ℕ) (q : ExFatPartition Dev)
        → Counted v (view B c0) t (uncounted nc u)
        → count_rounds B v fuel (u32 (v.cluster_heap_start_sector + t + 1)) nc u q
          ≡ rounds fuel (t + 1) q
    next_sector fuel t nc u q (a, b, lt) =
        let s : u32 (v.cluster_heap_start_sector + t + 1) ≡ v.cluster_heap_start_sector + (t + 1) =
          omega (arith, a, lt, iv.bitmap) in
        rw (s, b, a)

    count_rounds-Counted :
        (fuel t : ℕ) (p : ExFatPartition Dev) {n : ℕ} {q : ExFatPartition Dev}
        → Kept p.cache
        → 4096 * t < v.cluster_count
        → rounds fuel t p ≡ done n q
        → (n ≡ result) × Kept q.cache
    unfolding count_rounds
    count_rounds-Counted zero t p k lt e = absurd (cc)
    count_rounds-Counted (suc fuel) t p {n} {q} k lt e =
        let (_, p1, x, y) =
          bind-done (on_cache (prepare B (v.cluster_heap_start_sector + t) for_read) p)
            (λ _ r. elim (count_bytes v 512 0 (4096 * t) (used (4096 * t)) r.cache.buffer) [
              | counted n ↦ done n r
              | uncounted nc u ↦
                  count_rounds B v fuel (u32 (v.cluster_heap_start_sector + t + 1)) nc u r
            ])
            e in
        let (k1, c) = read_sector-Counted t p k lt x in
        go (λ r kr ltr er. count_rounds-Counted fuel (t + 1) r kr ltr er) p1 k1
          (count_bytes v 512 0 (4096 * t) (used (4096 * t)) p1.cache.buffer) c y
      where
        go :
            ((r : ExFatPartition Dev)
              → Kept r.cache
              → 4096 * (t + 1) < v.cluster_count
              → rounds fuel (t + 1) r ≡ done n q
              → (n ≡ result) × Kept q.cache)
            → (p1 : ExFatPartition Dev) → Kept p1.cache
            → (c : Count) → Counted v (view B c0) t c
            → ◌≡◌ {A = Outcome (ExFatPartition Dev) ℕ}
                (elim c [
                  | counted n ↦ done n p1
                  | uncounted nc u ↦
                      count_rounds B v fuel (u32 (v.cluster_heap_start_sector + t + 1)) nc u p1
                ])
                (done n q)
            → (n ≡ result) × Kept q.cache
        go on p1 k1 (counted m) c y =
            (sym (done-injective y).0 ∙ c, subst (λ z. Kept z.cache) (done-injective y).1 k1)
        go on p1 k1 (uncounted nc u) c y =
            on p1 k1 (omega (arith, c.0, c.2)) (sym (next_sector fuel t nc u p1 c) ∙ y)

    count_rounds-ends :
        (fuel t : ℕ) (p : ExFatPartition Dev)
        → Kept p.cache
        → 4096 * t < v.cluster_count
        → fuel + t ≡ v.cluster_count / 4096 + 1
        → rounds fuel t p ≢ stuck
    unfolding count_rounds
    count_rounds-ends zero t p k lt size = absurd (omega (arith, lt, size))
    count_rounds-ends (suc fuel) t p k lt size =
        bind-ne-stuck (on_cache (prepare B (v.cluster_heap_start_sector + t) for_read) p)
          (λ _ r. elim (count_bytes v 512 0 (4096 * t) (used (4096 * t)) r.cache.buffer) [
            | counted n ↦ done n r
            | uncounted nc u ↦
                count_rounds B v fuel (u32 (v.cluster_heap_start_sector + t + 1)) nc u r
          ])
          (on_cache-ne-stuck (prepare B (v.cluster_heap_start_sector + t) for_read) p
            (prepare-ne-stuck B (v.cluster_heap_start_sector + t) for_read p.cache))
          (λ _ p1 x.
            let (k1, c) = read_sector-Counted t p k lt x in
            go (λ r kr ltr. count_rounds-ends fuel (t + 1) r kr ltr (omega (arith, size))) p1 k1
              (count_bytes v 512 0 (4096 * t) (used (4096 * t)) p1.cache.buffer) c)
      where
        go :
            ((r : ExFatPartition Dev)
              → Kept r.cache
              → 4096 * (t + 1) < v.cluster_count
              → rounds fuel (t + 1) r ≢ stuck)
            → (p1 : ExFatPartition Dev) → Kept p1.cache
            → (c : Count) → Counted v (view B c0) t c
            → ◌≢◌ {A = Outcome (ExFatPartition Dev) ℕ}
                (elim c [
                  | counted n ↦ done n p1
                  | uncounted nc u ↦
                      count_rounds B v fuel (u32 (v.cluster_heap_start_sector + t + 1)) nc u p1
                ])
                stuck
        go on p1 k1 (counted m) c = λ z. cc
        go on p1 k1 (uncounted nc u) c =
            λ z. on p1 k1 (omega (arith, c.0, c.2)) (sym (next_sector fuel t nc u p1 c) ∙ z)

  -- `freeClusterCount` begins with sector 0 of the bitmap.
  first_round :
      (p : ExFatPartition Dev)
      → rounds p.cache (v.cluster_count / 4096 + 1) 0 p ≡ free_cluster_count B v p
  unfolding free_cluster_count
  first_round p =
      ap
        (λ s. count_rounds B v (v.cluster_count / 4096 + 1) s 0 (used_below v (view B p.cache) 0) p)
        {x = v.cluster_heap_start_sector + 0} {y = v.cluster_heap_start_sector} (omega arith)
      ∙ ap (λ u. count_rounds B v (v.cluster_count / 4096 + 1) v.cluster_heap_start_sector 0 u p)
          (used_below-zero v (view B p.cache))

  -- `freeClusterCount` returns.
  free_cluster_count-ends :
      (p : ExFatPartition Dev) → IsReady B p.cache → free_cluster_count B v p ≢ stuck
  free_cluster_count-ends p r = λ z.
      count_rounds-ends p.cache (v.cluster_count / 4096 + 1) 0 p (r, λ t nt. refl)
        (omega (arith, iv.some_clusters)) (omega arith) (first_round p ∙ z)

  -- On an exFAT volume whose table lies in front of its cluster heap and whose sectors and
  -- clusters fit 32 bits, with a coherent cache that owes no copy, when the bits behind the last
  -- cluster, up to the end of its byte, are 0, `freeClusterCount` that succeeds returns the
  -- number that, with the clusters whose bits are set counted one by one, makes up all clusters
  -- of the volume, and changes nothing that a client sees.
  pub free_cluster_count_sum :
      (p : ExFatPartition Dev) {n : ℕ} {q : ExFatPartition Dev}
      → IsReady B p.cache
      → ((i : ℕ)
          → v.cluster_count ≤ i
          → i < 8 * ((v.cluster_count + 7) / 8)
          → bitmap_bit v (view B p.cache) i ≡ 0)
      → free_cluster_count B v p ≡ done n q
      → (n + used_below v (view B p.cache) v.cluster_count ≡ v.cluster_count)
        × IsReady B q.cache
        × SameView B p.cache q.cache
  free_cluster_count_sum p r pad e =
      let size : ℕ = 8 * ((v.cluster_count + 7) / 8) in
      let rest : ℕ = size - v.cluster_count in
      let same : used_below v (view B p.cache) size
          ≡ used_below v (view B p.cache) v.cluster_count =
        ap (used_below v (view B p.cache)) {x = size} {y = v.cluster_count + rest} (omega arith)
        ∙ used_below-free v (view B p.cache) v.cluster_count rest
            (λ i lo hi. pad i lo (omega (arith, hi))) in
      let c =
        count_rounds-Counted p.cache (v.cluster_count / 4096 + 1) 0 p (r, λ t nt. refl)
          (omega (arith, iv.some_clusters)) (first_round p ∙ e) in
      (
        omega (arith, c.0, same, used_below-le v (view B p.cache) v.cluster_count, iv.small),
        c.1.0,
        c.1.1,
      )
