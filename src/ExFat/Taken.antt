-- ===== src/ExFat/Taken.antt =====
-- `bitmapFind` and `bitmapModify` together: clusters are taken and given back.
use sd_fat.Base.{
  ℕ, zero, suc, ◌+◌, ◌-◌, ◌*◌, ◌/◌, ◌%◌, ◌^◌, ◌≤◌, ◌<◌, ◌≡◌, ◌≢◌, ◌⊎◌, inl, inr, refl, sym, ◌∙◌, ap,
  subst, arith, Bool, true, false, ltb, if◌then◌else◌, Bool-cases, Outcome, done, fail, stuck,
  bind-ne-stuck, u32, sub32,
}
use sd_fat.Device.{BlockDevice}
use sd_fat.Cache.{FsCache, for_write, no_sector, prepare}
use sd_fat.Cache.Ends.{prepare-ne-stuck}
use sd_fat.Cache.View.{view}
use sd_fat.Fat.{store}
use sd_fat.ExFat.{Layout, ExFatPartition, on_cache}
use sd_fat.ExFat.Bitmap.{
  bitmap_sector, Flip, mismatch, finished, unfinished, flip_bits, modify_rounds, bitmap_find,
  bitmap_modify, find_start, moved_start, bit_place,
}
use sd_fat.ExFat.State.{
  IsVolume, bitmap_bit, on_cache-done, on_cache-ne-stuck, IsReady, SameView, Opened, prepare-Opened,
}
use sd_fat.ExFat.Find.{IsFound, bit_place-mod}
use sd_fat.ExFat.Found.{bitmap_find-Found}
use sd_fat.ExFat.Flip.{FlippedBy, flip_bits-Flipped}
use sd_fat.ExFat.Modify.{bitmap_modify-Changed, decide, stored}

module _ (B : BlockDevice) (v : Layout) (iv : IsVolume v) where
  open B use {Dev}

  -- `count` clusters from `n` on were free before and are in use now; no other bit and no sector
  -- outside the bitmap has changed.
  pub record Taken (n count : ℕ) (c c' : FsCache Dev) : Type 0 where
    pub ready : IsReady B c'
    pub inside : n - 2 + count ≤ v.cluster_count
    pub free : (i : ℕ) → i < count → bitmap_bit v (view B c) (n - 2 + i) ≡ 0
    pub in_use : (i : ℕ) → i < count → bitmap_bit v (view B c') (n - 2 + i) ≡ 1
    pub others :
        (i : ℕ)
        → i < v.cluster_count
        → (i < n - 2) ⊎ (n - 2 + count ≤ i)
        → bitmap_bit v (view B c') i ≡ bitmap_bit v (view B c) i
    pub outside :
        (t : ℕ)
        → t ≢ no_sector
        → (t < v.cluster_heap_start_sector)
          ⊎ (v.cluster_heap_start_sector + v.cluster_count / 4096 < t)
        → view B c' t ≡ view B c t

  -- The bits are part of what a client sees.
  same_bit :
      (c c' : FsCache Dev) (i : ℕ)
      → i < v.cluster_count
      → SameView B c c'
      → bitmap_bit v (view B c') i ≡ bitmap_bit v (view B c) i
  same_bit c c' i lt s =
      ap (λ (b : ℕ → ℕ). b (i / 8 % 512) / 2 ^ (i % 8) % 2)
        (s (v.cluster_heap_start_sector + i / 4096) (omega (arith, iv.bitmap)))

  -- On an exFAT volume whose table lies in front of its cluster heap and whose sectors and
  -- clusters fit 32 bits, with a coherent cache that owes no copy, when `bitmapFind` of at least
  -- one cluster finds a place and `bitmapModify` that takes as many clusters there succeeds,
  -- those clusters are inside the volume, were free and are in use; no bit of another cluster and
  -- no sector in front of or behind the bitmap has changed for a client.
  pub find_modify-Taken :
      (cluster count : ℕ) (p : ExFatPartition Dev) {n : ℕ} {q r : ExFatPartition Dev}
      → IsReady B p.cache
      → 0 < count
      → bitmap_find B v cluster count p ≡ done n q
      → 2 ≤ n
      → bitmap_modify B v n count true q ≡ done tt r
      → Taken n count p.cache r.cache
  find_modify-Taken cluster count p {n} {q} {r} ready pos f lo m =
      let found = bitmap_find-Found B v iv cluster count p ready pos f in
      let (fit, free) = run found.result in
      let c =
        bitmap_modify-Changed B v iv n count true q found.kept.0 lo (omega (arith, fit, iv.small))
          pos m in
      record {
        ready = c.1.ready;
        inside = fit;
        free = λ i lt. free (n - 2 + i) (omega arith) (omega arith);
        in_use = λ i lt. c.1.now (n - 2 + i) (omega (arith, fit)) ∙ ground arith;
        others =
            λ i lt out. c.1.now i lt ∙ ground (arith, same_bit p.cache q.cache i lt found.kept.1);
        outside = λ t nt out. c.1.others t nt out ∙ found.kept.1 t nt;
      }
    where
      run :
          IsFound B v iv p.cache (find_start B v cluster p) count n
          → (n - 2 + count ≤ v.cluster_count)
            × ((i : ℕ) → n - 2 ≤ i → i < n - 2 + count → bitmap_bit v (view B p.cache) i ≡ 0)
      run (inl a) = a.1
      run (inr a) = absurd (omega (arith, a.0, lo))

  -- On an exFAT volume whose table lies in front of its cluster heap and whose sectors and
  -- clusters fit 32 bits, with a coherent cache that owes no copy, when `bitmapModify` takes at
  -- least one cluster, from cluster 2 on and below 2 ^ 32, and then gives the same ones back, and
  -- both succeed, every bit of the bitmap is what it was before, and `m_bitmapStart` is at most
  -- the first of the clusters.
  pub modify_modify :
      (cluster count : ℕ) (p : ExFatPartition Dev) {q r : ExFatPartition Dev}
      → IsReady B p.cache
      → 2 ≤ cluster
      → cluster + count < 2 ^ 32
      → 0 < count
      → bitmap_modify B v cluster count true p ≡ done tt q
      → bitmap_modify B v cluster count false q ≡ done tt r
      → ((i : ℕ)
          → i < v.cluster_count
          → bitmap_bit v (view B r.cache) i ≡ bitmap_bit v (view B p.cache) i)
        × (r.bitmap_start ≤ cluster - 2)
  modify_modify cluster count p {q} {r} ready lo hi pos a b =
      let x = bitmap_modify-Changed B v iv cluster count true p ready lo hi pos a in
      let y = bitmap_modify-Changed B v iv cluster count false q x.1.ready lo hi pos b in
      (λ i lt. y.1.now i lt ∙ ground (arith, x.1.now i lt, x.1.old i), ground (arith, y.2))

  modify_rounds-ends :
      (fuel : ℕ) (value : Bool) (e count : ℕ) (p : ExFatPartition Dev)
      → IsReady B p.cache
      → e + count ≤ v.cluster_count
      → 0 < count
      → e % 4096 + count ≤ 4096 * fuel
      → modify_rounds B v fuel value (bitmap_sector v e) (e % 4096) count p ≢ stuck
  unfolding modify_rounds
  modify_rounds-ends zero value e count p r fit pos enough = absurd (omega arith)
  modify_rounds-ends (suc fuel) value e count p r fit pos enough =
      bind-ne-stuck (on_cache (prepare B (bitmap_sector v e) for_write) p) _
        (on_cache-ne-stuck (prepare B (bitmap_sector v e) for_write) p
          (prepare-ne-stuck B (bitmap_sector v e) for_write p.cache))
        (λ _ p1 y.
          let at : bitmap_sector v e ≡ v.cluster_heap_start_sector + e / 4096 =
            omega (arith, iv.bitmap) in
          let (c1, w, u) = on_cache-done (prepare B (bitmap_sector v e) for_write) p y in
          let o =
            prepare-Opened B (bitmap_sector v e) for_write p.cache r (omega (arith, at, iv.bitmap))
              refl refl w in
          subst
            (λ x.
              decide B v iv fuel value (bitmap_sector v e)
                (flip_bits value (4096 - e % 4096) (e % 4096) count x.cache.buffer) x
              ≢ stuck)
            u
            (goes_on (flip_bits value (4096 - e % 4096) (e % 4096) count c1.buffer) c1
              (subst (λ t. Opened B t for_write p.cache c1) at o)
              (flip_bits-Flipped value (4096 - e % 4096) (e % 4096) count c1.buffer
                o.ready.coherent.bytes pos (omega (arith, iv.small)))
              (λ e1 n1 c2 r1 f1 p1 m1.
                modify_rounds-ends fuel value e1 n1 (record p { cache = c2 }) r1 f1 p1 m1)))
    where
      goes_on :
          (a : Flip) (c1 : FsCache Dev)
          → Opened B (v.cluster_heap_start_sector + e / 4096) for_write p.cache c1
          → FlippedBy value (4096 - e % 4096) (e % 4096) count c1.buffer a
          → ((e1 n1 : ℕ) (c2 : FsCache Dev)
              → IsReady B c2
              → e1 + n1 ≤ v.cluster_count
              → 0 < n1
              → e1 % 4096 + n1 ≤ 4096 * fuel
              → modify_rounds B v fuel value
                  (bitmap_sector v e1)
                  (e1 % 4096)
                  n1
                  (record p { cache = c2 })
                ≢ stuck)
          → decide B v iv fuel value (bitmap_sector v e) a (record p { cache = c1 }) ≢ stuck
      goes_on (mismatch b) c1 o f ih = λ z. cc
      goes_on (finished b) c1 o f ih = λ z. cc
      goes_on (unfinished b n) c1 o f ih =
          let m : ℕ = 4096 - e % 4096 in
          let one =
            stored B v iv value e m p.cache c1 b (omega (arith, f.0)) (omega arith) (omega arith) o
              f.2 in
          let sector : bitmap_sector v (e + m) ≡ u32 (bitmap_sector v e + 1) =
            omega (arith, iv.bitmap, f.0) in
          let place : (e + m) % 4096 ≡ 0 = omega arith in
          subst (λ t. modify_rounds B v fuel value t 0 n (record p { cache = store b c1 }) ≢ stuck)
            sector
            (subst
              (λ t.
                modify_rounds B v fuel value (bitmap_sector v (e + m)) t n
                  (record p { cache = store b c1 })
                ≢ stuck)
              place
              (ih (e + m) n (store b c1) one.ready (omega (arith, f.0)) f.1
                (omega (arith, f.0, enough))))

  -- On an exFAT volume whose table lies in front of its cluster heap and whose sectors and
  -- clusters fit 32 bits, with a coherent cache that owes no copy, `bitmapModify` of at least one
  -- cluster, from cluster 2 on and below 2 ^ 32, returns.
  pub bitmap_modify-ends :
      (cluster count : ℕ) (value : Bool) (p : ExFatPartition Dev)
      → IsReady B p.cache
      → 2 ≤ cluster
      → cluster + count < 2 ^ 32
      → 0 < count
      → bitmap_modify B v cluster count value p ≢ stuck
  unfolding bitmap_modify
  bitmap_modify-ends cluster count value p r lo hi pos =
      let start : sub32 cluster 2 ≡ cluster - 2 = omega arith in
      subst (λ t. body t (bit_place t) ≢ stuck) (sym start)
        (subst (λ t. body (cluster - 2) t ≢ stuck) (sym (bit_place-mod (cluster - 2)))
          (elim (Bool-cases (ltb v.cluster_count (u32 (cluster - 2 + count)))) [
            | inl y ↦ rw y (λ z. cc)
            | inr y ↦ rw y (
                modify_rounds-ends (sub32 count 1 / 4096 + 2) value (cluster - 2) count _ r
                  (ground arith) pos (omega arith))
          ]))
    where
      body : ℕ → ℕ → Outcome (ExFatPartition Dev) (Unit {0})
      body start place =
          if ltb v.cluster_count (u32 (start + count))
          then fail p
          else modify_rounds B v (sub32 count 1 / 4096 + 2) value (bitmap_sector v start) place
              count (record p { bitmap_start = moved_start B v value start count p.bitmap_start })
