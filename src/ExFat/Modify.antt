-- ===== src/ExFat/Modify.antt =====
-- `bitmapModify`: exactly the bits of the clusters that are named change.
use sd_fat.Base.{
  ℕ, zero, suc, ◌+◌, ◌-◌, ◌/◌, ◌%◌, ◌^◌, ◌≤◌, ◌<◌, ◌≡◌, ◌≢◌, ◌⊎◌, inl, inr, refl, sym, ◌∙◌, ap,
  subst, arith, Bool, ◌&&◌, ◌==◌, leb, ltb, if◌then◌else◌, Bool-cases, Outcome, Method, done, fail,
  bind-done, done-injective, dec_lt, u32, sub32,
}
use sd_fat.Base.Digit.{digit}
use sd_fat.Endian.{Bytes}
use sd_fat.Device.{BlockDevice, Sectors}
use sd_fat.Cache.{FsCache, for_write, no_sector, prepare}
use sd_fat.Cache.View.{view}
use sd_fat.Fat.{store}
use sd_fat.ExFat.{Layout, ExFatPartition, on_cache, on_buffer}
use sd_fat.ExFat.Bitmap.{
  bit_place, bitmap_sector, Flip, mismatch, finished, unfinished, flip_bits, modify_rounds,
  moved_start, bitmap_modify,
}
use sd_fat.ExFat.State.{IsVolume, bitmap_bit, on_cache-done, IsReady, Opened, prepare-Opened}
use sd_fat.ExFat.Find.{bit_place-mod}
use sd_fat.ExFat.Flip.{sector_bit, as_bit, Flipped, FlippedBy, flip_bits-Flipped}

-- A bit of the bitmap in its sector.
in_sector :
    (v : Layout) (m : Sectors) (i s : ℕ)
    → i / 4096 ≡ s
    → bitmap_bit v m i ≡ sector_bit (m (v.cluster_heap_start_sector + s)) (i % 4096)
in_sector v m i s at =
    ap (λ t. digit (m (v.cluster_heap_start_sector + t) (i / 8 % 512)) (i % 8)) at
    ∙ ap (λ t. digit (m (v.cluster_heap_start_sector + s) t) (i % 8)) {x = i / 8 % 512}
        {y = i % 4096 / 8} (omega arith)
    ∙ ap (digit (m (v.cluster_heap_start_sector + s) (i % 4096 / 8))) {x = i % 8} {y = i % 4096 % 8}
        (omega arith)

module _ (B : BlockDevice) (v : Layout) (iv : IsVolume v) where
  open B use {Dev}

  -- The bits of clusters `e` to `e + n - 1`, less 2, had the other value and have `value` now; the
  -- other bits and the sectors outside the bitmap are as before.
  pub record Changed (value : Bool) (e n : ℕ) (c c' : FsCache Dev) : Type 0 where
    pub ready : IsReady B c'
    pub now :
        (i : ℕ)
        → i < v.cluster_count
        → bitmap_bit v (view B c') i
          ≡ (if leb e i && ltb i (e + n) then as_bit value else bitmap_bit v (view B c) i)
    pub old : (i : ℕ) → e ≤ i → i < e + n → bitmap_bit v (view B c) i ≡ 1 - as_bit value
    pub others :
        (t : ℕ)
        → t ≢ no_sector
        → (t < v.cluster_heap_start_sector)
          ⊎ (v.cluster_heap_start_sector + v.cluster_count / 4096 < t)
        → view B c' t ≡ view B c t

  pub Changed-trans :
      (value : Bool) (e n m : ℕ) (c c1 c' : FsCache Dev)
      → e + n + m ≤ v.cluster_count
      → Changed value e n c c1
      → Changed value (e + n) m c1 c'
      → Changed value e (n + m) c c'
  Changed-trans value e n m c c1 c' fit x y = record {
    ready = y.ready;
    now = λ i lt. y.now i lt ∙ ground (arith, x.now i lt);
    old = λ i lo hi. elim (dec_lt i (e + n)) [
      | yes a ↦ x.old i lo a
      | no a ↦ ground (arith, x.now i, y.old i)
    ];
    others = λ t nt out. y.others t nt out ∙ x.others t nt out;
  }

  -- The bits of one sector, changed in the buffer.
  pub stored :
      (value : Bool) (e n : ℕ) (c c1 : FsCache Dev) (b : Bytes)
      → e + n ≤ v.cluster_count
      → 0 < n
      → e % 4096 + n ≤ 4096
      → Opened B (v.cluster_heap_start_sector + e / 4096) for_write c c1
      → Flipped value (e % 4096) n c1.buffer b
      → Changed value e n c (store b c1)
  stored value e n c c1 b fit pos in_one o f = record {
    ready = record {
      coherent = record { bytes = f.bytes; clean = ground (arith, o.marked) };
      no_mirror = o.ready.no_mirror;
    };
    now = λ i lt. elim (Bool-cases (i / 4096 == e / 4096)) [
      | inl same ↦
          let at : i / 4096 ≡ e / 4096 = ground arith in
          let here : view B (store b c1) (v.cluster_heap_start_sector + e / 4096) ≡ b =
            ground (arith, o.sector) in
          in_sector v (view B (store b c1)) i (e / 4096) at
          ∙ ap (λ (t : Bytes). sector_bit t (i % 4096)) here
          ∙ f.now (i % 4096)
          ∙ ground (arith, before i at)
      | inr other ↦
          let away : view B (store b c1) (v.cluster_heap_start_sector + i / 4096)
              ≡ view B c (v.cluster_heap_start_sector + i / 4096) =
            ground (arith, o.sector, o.same (v.cluster_heap_start_sector + i / 4096), iv.bitmap) in
          ap (λ (t : Bytes). digit (t (i / 8 % 512)) (i % 8)) away ∙ ground arith
    ];
    old = λ i lo hi. before i (omega arith) ∙ f.old (i % 4096) (omega arith) (omega arith);
    others = λ t nt out. ground (arith, o.sector, o.same t nt, iv.bitmap);
  }
    where
      before :
          (i : ℕ)
          → i / 4096 ≡ e / 4096
          → bitmap_bit v (view B c) i ≡ sector_bit c1.buffer (i % 4096)
      before i at =
          in_sector v (view B c) i (e / 4096) at
          ∙ ap (λ (t : Bytes). sector_bit t (i % 4096)) (sym o.content)

  -- What a round makes of a sector whose bits it has changed.
  abbrev pub decide : ℕ → Bool → ℕ → Flip → Method (ExFatPartition Dev) (Unit {0})
  decide fuel value sector r q = elim r [
    | mismatch b ↦ fail (on_buffer (λ _. b) q)
    | finished b ↦ done tt (on_buffer (λ _. b) q)
    | unfinished b n ↦ modify_rounds B v fuel value (u32 (sector + 1)) 0 n (on_buffer (λ _. b) q)
  ]

  -- The state and the member that the rounds leave alone.
  abbrev ChangedFrom : Bool → ℕ → ℕ → ExFatPartition Dev → ExFatPartition Dev → Type 0
  ChangedFrom value e n p q = Changed value e n p.cache q.cache × (q.bitmap_start ≡ p.bitmap_start)

  by_flip :
      (fuel : ℕ) (value : Bool) (e count : ℕ) (p : ExFatPartition Dev) {q : ExFatPartition Dev}
      (r : Flip) (c1 : FsCache Dev)
      → e + count ≤ v.cluster_count
      → 0 < count
      → Opened B (v.cluster_heap_start_sector + e / 4096) for_write p.cache c1
      → FlippedBy value (4096 - e % 4096) (e % 4096) count c1.buffer r
      → ((e1 n1 : ℕ) (p1 : ExFatPartition Dev)
          → IsReady B p1.cache
          → e1 + n1 ≤ v.cluster_count
          → 0 < n1
          → modify_rounds B v fuel value (bitmap_sector v e1) (e1 % 4096) n1 p1 ≡ done tt q
          → ChangedFrom value e1 n1 p1 q)
      → decide fuel value (bitmap_sector v e) r (record p { cache = c1 }) ≡ done tt q
      → ChangedFrom value e count p q
  by_flip fuel value e count p (mismatch b) c1 fit pos o f ih z = absurd cc
  by_flip fuel value e count p {q} (finished b) c1 fit pos o f ih z =
      subst (ChangedFrom value e count p) (done-injective z).1
        (stored value e count p.cache c1 b fit pos (omega (arith, f.0)) o f.1, refl)
  by_flip fuel value e count p {q} (unfinished b n) c1 fit pos o f ih z =
      let m : ℕ = 4096 - e % 4096 in
      let one =
        stored value e m p.cache c1 b (omega (arith, f.0)) (omega arith) (omega arith) o f.2 in
      let sector : u32 (bitmap_sector v e + 1) ≡ bitmap_sector v (e + m) =
        omega (arith, iv.bitmap, f.0) in
      let place : 0 ≡ (e + m) % 4096 = omega arith in
      let rest =
        ih (e + m) n (record p { cache = store b c1 }) one.ready (omega (arith, f.0)) f.1
          (subst
            (λ t.
              modify_rounds B v fuel value (bitmap_sector v (e + m)) t n
                (record p { cache = store b c1 })
              ≡ done tt q)
            place
            (subst
              (λ t.
                modify_rounds B v fuel value t 0 n (record p { cache = store b c1 }) ≡ done tt q)
              sector z)) in
      (
        subst (λ t. Changed value e t p.cache q.cache) (omega (arith, f.0))
            (Changed-trans value e m n p.cache (store b c1) q.cache (omega (arith, f.0)) one
              rest.0),
        rest.1,
      )

  modify_rounds-Changed :
      (fuel : ℕ) (value : Bool) (e count : ℕ) (p : ExFatPartition Dev) {q : ExFatPartition Dev}
      → IsReady B p.cache
      → e + count ≤ v.cluster_count
      → 0 < count
      → modify_rounds B v fuel value (bitmap_sector v e) (e % 4096) count p ≡ done tt q
      → ChangedFrom value e count p q
  unfolding modify_rounds
  modify_rounds-Changed zero value e count p r fit pos x = absurd cc
  modify_rounds-Changed (suc fuel) value e count p {q} r fit pos x =
      let at : bitmap_sector v e ≡ v.cluster_heap_start_sector + e / 4096 =
        omega (arith, iv.bitmap) in
      let (_, p1, y, z) =
        bind-done (on_cache (prepare B (bitmap_sector v e) for_write) p)
          (λ _ p1.
            decide fuel value (bitmap_sector v e)
              (flip_bits value (4096 - e % 4096) (e % 4096) count p1.cache.buffer) p1)
          x in
      let (c1, w, u) = on_cache-done (prepare B (bitmap_sector v e) for_write) p y in
      let o =
        prepare-Opened B (bitmap_sector v e) for_write p.cache r (omega (arith, at, iv.bitmap)) refl
          refl w in
      by_flip fuel value e count p (flip_bits value (4096 - e % 4096) (e % 4096) count c1.buffer) c1
        fit pos (subst (λ t. Opened B t for_write p.cache c1) at o)
        (flip_bits-Flipped value (4096 - e % 4096) (e % 4096) count c1.buffer o.ready.coherent.bytes
          pos (omega (arith, iv.small)))
        (λ e1 n1 p1 r1 f1 s1. modify_rounds-Changed fuel value e1 n1 p1 r1 f1 s1) (rw (sym u) at z)

  -- On an exFAT volume whose table lies in front of its cluster heap and whose sectors and
  -- clusters fit 32 bits, with a coherent cache that owes no copy, `bitmapModify` that succeeds
  -- on at least one cluster, from cluster 2 on and below 2 ^ 32, stays inside the volume; the bit
  -- of each of the clusters was the opposite of the new value and is the new value, and no bit of
  -- another cluster and no sector in front of or behind the bitmap has changed for a client;
  -- `m_bitmapStart` moves behind the clusters when they are taken and it was one of them (to 0 at
  -- the end of the volume), to the first of them when they are given back and it was above it,
  -- and stays as it was otherwise.
  pub bitmap_modify-Changed :
      (cluster count : ℕ) (value : Bool) (p : ExFatPartition Dev) {q : ExFatPartition Dev}
      → IsReady B p.cache
      → 2 ≤ cluster
      → cluster + count < 2 ^ 32
      → 0 < count
      → bitmap_modify B v cluster count value p ≡ done tt q
      → (cluster - 2 + count ≤ v.cluster_count)
        × Changed value (cluster - 2) count p.cache q.cache
        × (q.bitmap_start ≡ (
            if value
            then (if leb (cluster - 2) p.bitmap_start && ltb p.bitmap_start (cluster - 2 + count)
                then (if ltb (cluster - 2 + count) v.cluster_count then cluster - 2 + count else 0)
                else p.bitmap_start)
            else if ltb (cluster - 2) p.bitmap_start
            then cluster - 2
            else p.bitmap_start))
  unfolding bitmap_modify
  bitmap_modify-Changed cluster count value p {q} r lo hi pos e =
      let start : sub32 cluster 2 ≡ cluster - 2 = omega arith in
      let fit : cluster - 2 + count ≤ v.cluster_count = ground (arith, start) in
      let c =
        modify_rounds-Changed (sub32 count 1 / 4096 + 2) value (cluster - 2) count
          (record p { bitmap_start = moved_start B v value (cluster - 2) count p.bitmap_start }) r
          fit pos (run start) in
      let wide : u32 (cluster - 2 + count) ≡ cluster - 2 + count = omega (arith, hi) in
      (fit, c.0, c.1 ∙ ground (arith, wide))
    where
      change : ℕ → ℕ → Outcome (ExFatPartition Dev) (Unit {0})
      change start place =
          modify_rounds B v (sub32 count 1 / 4096 + 2) value (bitmap_sector v start) place count
            (record p { bitmap_start = moved_start B v value start count p.bitmap_start })

      body : ℕ → ℕ → Outcome (ExFatPartition Dev) (Unit {0})
      body start place =
          if ltb v.cluster_count (u32 (start + count)) then fail p else change start place

      run : sub32 cluster 2 ≡ cluster - 2 → change (cluster - 2) ((cluster - 2) % 4096) ≡ done tt q
      run start =
          let at : body (cluster - 2) ((cluster - 2) % 4096) ≡ done tt q =
            subst (λ t. body (cluster - 2) t ≡ done tt q) (bit_place-mod (cluster - 2))
              (subst (λ t. body t (bit_place t) ≡ done tt q) start e) in
          ground (arith, at)
