-- ===== src/File/Rows.antt =====
-- Files whose clusters are a row: what `preAllocate` makes, and what `contiguousRange` finds.
use sd_fat.Base.{
  ℕ, zero, suc, ◌+◌, ◌-◌, ◌*◌, ◌/◌, ◌^◌, ◌≤◌, ◌<◌, ◌≡◌, refl, sym, ap, subst, ◌∙◌, arith, true,
  false, Outcome, Method, done, fail, bind, bind-done, done-injective, Bool-cases, inl, inr,
  ℕ_discrete, ◌==◌, ltb, if◌then◌else◌, u32, sub32, ◌>>>◌,
}
use native.Mathlib.Nat.{add-mul, div-add-mod', mod-lt, div-le_self}
use sd_fat.Base.Lists.{length, get_or, All}
use sd_fat.Fat.{Geometry, Link, eoc, next}
use sd_fat.Alloc.{FatTable}
use sd_fat.Alloc.Chain.{IsChain}
use sd_fat.Alloc.Run.{alloc_contiguous}
use sd_fat.Alloc.RunLinked.{row, row-IsChain, LinkedRun, alloc_contiguous-LinkedRun}
use sd_fat.File.{
  FatFile, Handle, on_volume, on_fat, set_file, bytes_per_cluster_shift, cluster_start_sector,
}
use sd_fat.File.Place.{
  IsLayout, IsStored, cluster_pos, shift-div, cluster_start_sector-at, sector-inside,
}
use sd_fat.File.Calls.{on_volume-done, on_fat-done}
use sd_fat.File.Chains.{take_clusters, range_end, contiguous_range}

row-length : (b n : ℕ) → length (row b n) ≡ n
row-length b zero = refl
row-length b (suc n) = ap suc (row-length (suc b) n)

row-get : (b n i : ℕ) → i < n → get_or (row b n) i 0 ≡ b + i
row-get b zero i lt = absurd (omega arith)
row-get b (suc n) zero lt = omega arith
row-get b (suc n) (suc i) lt = row-get (suc b) n i (omega arith) ∙ omega arith

row-All : (b n lo hi : ℕ) → lo ≤ b → b + n ≤ suc hi → All (λ c. (lo ≤ c) × (c ≤ hi)) (row b n)
row-All b zero lo hi x y = tt
row-All b (suc n) lo hi x y =
    ((x, omega arith), row-All (suc b) n lo hi (omega arith) (omega arith))

module _ (T : FatTable) (g : Geometry) (d : IsLayout g)
    (same : T.last_cluster ≡ g.last_cluster) where
  open T use {State, last_cluster, get, IsReady, entry, get_ok, last_small}

  -- The clusters that `preAllocate` asks for.
  abbrev pub clusters_for : ℕ → ℕ
  clusters_for n = 1 + (n - 1) >>> bytes_per_cluster_shift g

  enough : (n : ℕ) → n ≤ clusters_for n * (512 * g.sectors_per_cluster)
  enough n =
      let w : ℕ = g.sectors_per_cluster in
      let q : ℕ = (n - 1) / 512 in
      rw (shift-div g d (n - 1))
        (omega (arith, div-add-mod' q w, mod-lt q {m = w} (cluster_pos g d)))

  -- On a table that is ready and a volume whose layout is sound, `preAllocate` of 1 to 2 ^ 32 - 1
  -- bytes, up to its call of `sync`, if it succeeds, gives the file that size and a chain of
  -- clusters in a row that holds it, and changes the table as `allocContiguous` does.
  pub take_clusters-IsStored :
      (n : ℕ) (h : Handle State) {q : Handle State}
      → IsReady h.vol.table
      → 0 < n
      → n < 2 ^ 32
      → take_clusters T g n h ≡ done tt q
      → IsStored g (entry q.vol.table) (row q.file.first_cluster (clusters_for n)) q.file
        × (q.file.file_size ≡ n)
        × LinkedRun T (clusters_for n) q.file.first_cluster h.vol q.vol
  unfolding take_clusters
  take_clusters-IsStored n h {q} m lo hi e =
      let (b, p, x, y) =
        bind-done (on_volume (alloc_contiguous T (u32 (clusters_for n))) h) taken e in
      let (v, z, w) = on_volume-done (alloc_contiguous T (u32 (clusters_for n))) h x in
      let k : u32 (clusters_for n) ≡ clusters_for n =
        omega (arith, shift-div g d (n - 1), div-le_self ((n - 1) / 512) g.sectors_per_cluster) in
      let r =
        subst (λ t. LinkedRun T t b h.vol v) k
          (alloc_contiguous-LinkedRun T (u32 (clusters_for n)) h.vol m z) in
      subst
        (λ t.
          IsStored g (entry t.vol.table) (row t.file.first_cluster (clusters_for n)) t.file
          × (t.file.file_size ≡ n)
          × LinkedRun T (clusters_for n) t.file.first_cluster h.vol t.vol)
        (ap (set_file (taken_file b n)) w ∙ (done-injective y).1)
        (
          record {
            chain = subst (λ t. IsChain (entry v.table) t b (row b (clusters_for n))) same r.chain;
            inside =
                subst (λ t. All (λ c. (2 ≤ c) × (c ≤ t)) (row b (clusters_for n))) same
                  (row-All b (clusters_for n) 2 last_cluster r.low (omega (arith, r.high)));
            room = rw (row-length b (clusters_for n)) (enough n);
            small = hi;
            in_row = λ _ i lt.
                row-get b (clusters_for n) i (omega (arith, row-length b (clusters_for n)));
          },
          refl,
          r,
        )
    where
      taken_file : ℕ → ℕ → FatFile → FatFile
      taken_file b n f = record f {
        first_cluster = b;
        file_size = n;
        preallocated = true;
        contiguous = true;
        dir_dirty = true;
      }

      taken : ℕ → Method (Handle State) (Unit {0})
      taken b q = done tt (set_file (taken_file b n) q)

  -- The clusters from `c` to `z` are a row of links, and the entry of `z` ends the chain.
  record RowTo (s : State) (c z : ℕ) (s' : State) : Type 0 where
    size : ℕ
    last : z ≡ c + size
    inside : (2 ≤ c) × (z ≤ last_cluster)
    links : (i : ℕ) → c ≤ i → i < c + size → entry s i ≡ suc i
    ends : last_cluster < entry s z
    ready : IsReady s'
    entries : (i : ℕ) → i ≤ last_cluster → entry s' i ≡ entry s i

  range_end-RowTo :
      (fuel c : ℕ) (s : State) {z : ℕ} {s' : State}
      → IsReady s
      → range_end T g fuel c s ≡ done z s'
      → RowTo s c z s'
  unfolding range_end
  range_end-RowTo zero c s {z} {s'} m e = absurd cc
  range_end-RowTo (suc fuel) c s {z} {s'} m e =
      let (l, t, x, y) = bind-done (get c s) after e in
      let (lo, hi, link, ready, rest) = get_ok c m x in
      elim l
          as (λ l.
            l ≡ (if ltb last_cluster (entry s c) then eoc else next (entry s c))
            → after l t ≡ done z s'
            → RowTo s c z s') [
              | eoc ↦ λ k y.
                  let (p, q) = done-injective y in
                  record {
                    size = 0;
                    last = omega (arith, p);
                    inside = (lo, omega (arith, p, hi));
                    links = λ i a b. absurd (omega arith);
                    ends = subst (λ t. last_cluster < entry s t) p (ground arith);
                    ready = subst IsReady q ready;
                    entries = λ i a. ap (λ t. entry t i) (sym q) ∙ rest i a;
                  }
              | next v ↦ λ k y. elim (Bool-cases (v == u32 (c + 1))) [
                | inl on ↦
                    let here : entry s c ≡ suc c = ground (arith, last_small) in
                    let r = range_end-RowTo fuel (suc c) t ready (
                      subst (λ b. range_end T g fuel b t ≡ done z s') {x = u32 (c + 1)} {y = suc c}
                        (omega (arith, last_small)) (goes_on v t y on)) in
                    record {
                      size = suc r.size;
                      last = omega (arith, r.last);
                      inside = (lo, r.inside.1);
                      links = λ i a b. elim (ℕ_discrete i c) [
                        | yes q ↦ ap (entry s) q ∙ here ∙ omega arith
                        | no q ↦
                            sym (rest i (omega (arith, r.last, r.inside)))
                            ∙ r.links i (omega arith) (omega arith)
                      ];
                      ends = subst (λ b. last_cluster < b) (rest z r.inside.1) r.ends;
                      ready = r.ready;
                      entries = λ i a. r.entries i a ∙ rest i a;
                    }
                | inr off ↦ absurd (stops v t y off)
              ]
            ]
        link y
    where
      after : Link → State → Outcome State ℕ
      after l t = elim l [
        | eoc ↦ done c t
        | next d ↦ if d == u32 (c + 1) then range_end T g fuel (u32 (c + 1)) t else fail t
      ]

      goes_on :
          (v : ℕ) (t : State)
          → after (next v) t ≡ done z s'
          → (v == u32 (c + 1)) ≡ true
          → range_end T g fuel (u32 (c + 1)) t ≡ done z s'
      goes_on v t y on = ground arith

      stops : (v : ℕ) (t : State) → after (next v) t ≡ done z s' → (v == u32 (c + 1)) ≡ false → ⊥
      stops v t y off = ground arith

  -- On a table that is ready and a volume whose layout is sound, `contiguousRange` that succeeds
  -- was called for a file whose clusters are a chain in a row; it returns the first sector of the
  -- first cluster and the last sector of the last one, and changes nothing of the file but the
  -- mark of a contiguous one.
  pub contiguous_range-row :
      (h : Handle State) {a z : ℕ} {q : Handle State}
      → IsReady h.vol.table
      → contiguous_range T g h ≡ done (a, z) q
      → (n : ℕ) × IsChain
          (entry h.vol.table)
          last_cluster
          h.file.first_cluster
          (row h.file.first_cluster (suc n))
        × (a ≡ g.data_start_sector + (h.file.first_cluster - 2) * g.sectors_per_cluster)
        × (z + 1 ≡ a + suc n * g.sectors_per_cluster)
        × (q.file ≡ record h.file { contiguous = true })
  unfolding contiguous_range
  contiguous_range-row h {a} {z} {q} m e =
      let (c, p, x, y) =
        bind-done (on_fat (range_end T g (last_cluster + 2) f.first_cluster) h) found called in
      let (t, v, w) = on_fat-done (range_end T g (last_cluster + 2) f.first_cluster) h x in
      let r = range_end-RowTo (last_cluster + 2) f.first_cluster h.vol.table m v in
      let (ab, qe) = done-injective y in
      (
        r.size,
        row-IsChain (entry h.vol.table) last_cluster f.first_cluster r.size
            (λ i lo hi. (r.links i lo hi, omega (arith, r.last, r.inside)))
            (subst (λ b. last_cluster < entry h.vol.table b) r.last r.ends),
        sym (ap (λ b. b.0) ab)
            ∙ cluster_start_sector-at g d f.first_cluster (r.inside.0)
                (omega (arith, r.last, r.inside, same)),
        omega (
          arith,
          ap (λ b. b.1) ab,
          ap (λ b. b.0) ab,
          cluster_start_sector-at g d f.first_cluster (r.inside.0)
              (omega (arith, r.last, r.inside, same)),
          cluster_start_sector-at g d c (omega (arith, r.last, r.inside))
              (omega (arith, r.inside, same)),
          sector-inside g d c (g.sectors_per_cluster - 1) (omega (arith, r.last, r.inside))
              (omega (arith, r.inside, same)) (omega (arith, cluster_pos g d)),
          cluster_pos g d,
          ap (λ b. b * g.sectors_per_cluster) {x = c - 2} {y = f.first_cluster - 2 + r.size}
              (omega (arith, r.last, r.inside)),
          add-mul (f.first_cluster - 2) r.size g.sectors_per_cluster,
        ),
        ap (λ b. b.file) (sym qe) ∙ ap (λ b. record (b.file) { contiguous = true }) (sym w),
      )
    where
      f : FatFile
      f = h.file

      found : ℕ → Method (Handle State) (ℕ × ℕ)
      found c q =
          done
            (
              cluster_start_sector g f.first_cluster,
              sub32 (u32 (cluster_start_sector g c + g.sectors_per_cluster)) 1,
            )
            (set_file (λ f. record f { contiguous = true }) q)

      called :
          bind (on_fat (range_end T g (last_cluster + 2) f.first_cluster) h) found ≡ done (a, z) q
      called = ground arith
