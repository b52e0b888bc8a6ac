-- ===== src/File/Seek.antt =====
-- `seekSet`: the cluster of the new position is found from the current one or from the first.
use sd_fat.Base.{
  ℕ, zero, suc, ◌+◌, ◌-◌, ◌/◌, ◌≤◌, ◌<◌, ◌≡◌, inl, inr, refl, sym, ◌∙◌, ap, subst, arith, Bool,
  true, false, ◌||◌, List, ◌==◌, ltb, Outcome, Method, done, fail, bind, bind-done, done-injective,
  Bool-cases, u32, sub32, ◌>>>◌,
}
use native.Mathlib.Nat.{div-div-eq-div-mul, div-lt_iff_lt-mul}
use sd_fat.Base.Lists.{length, get_or}
use sd_fat.Fat.{Geometry, Link, eoc, next}
use sd_fat.Alloc.{FatTable}
use sd_fat.Alloc.Chain.{IsChain}
use sd_fat.File.{
  FatFile, Handle, plain_file, on_fat, bytes_per_cluster_shift, walk, seek_done, seek_chain,
  seek_set,
}
use sd_fat.File.Place.{IsLayout, IsStored, IsPlaced, cluster_at, cluster_pos, last_small, shift-div}
use sd_fat.File.Cluster.{IsChain-first, IsChain-next, All-get}
use sd_fat.File.Calls.{on_fat-done}

module _ (T : FatTable) where
  open T use {State, last_cluster, get, IsReady, entry, get_ok}

  -- The state is ready, and the entries are those of `s`.
  pub record SameEntries (s s' : State) : Type 0 where
    pub ready : IsReady s'
    pub same : (i : ℕ) → i ≤ last_cluster → entry s' i ≡ entry s i

  pub SameEntries-refl : (s : State) → IsReady s → SameEntries s s
  SameEntries-refl s r = record { ready = r; same = λ i le. refl }

  module _ (g : Geometry) (cs : List ℕ) (c0 : ℕ) (s0 : State)
      (chain : IsChain (entry s0) last_cluster c0 cs) where
    abbrev after : ℕ → Link → Method State ℕ
    after n l t = elim l [ eoc ↦ fail t | next d ↦ walk T g n d t ]

    -- The loop of `seekSet` goes along the chain.
    pub walk-chain :
        (n k : ℕ) (s : State) {c : ℕ} {s' : State}
        → SameEntries s0 s
        → k + n < length cs
        → walk T g n (get_or cs k 0) s ≡ done c s'
        → (c ≡ get_or cs (k + n) 0) × SameEntries s0 s'
    unfolding walk
    walk-chain zero k s {c} {s'} m lt e =
        let (x, y) = done-injective e in
        (
          sym x ∙ ap (λ t. get_or cs t 0) {x = k} {y = k + 0} (omega arith),
          subst (SameEntries s0) y m,
        )
    walk-chain (suc n) k s {c} {s'} m lt e =
        let (l, t, x, y) = bind-done (get (get_or cs k 0) s) (after n) e in
        let (lo, hi, r, ready, same) = get_ok (get_or cs k 0) m.ready x in
        let (to, le) = IsChain-next (entry s0) last_cluster c0 cs k chain (omega arith) in
        let en : entry s (get_or cs k 0) ≡ get_or cs (suc k) 0 = m.same (get_or cs k 0) hi ∙ to in
        let small : get_or cs (suc k) 0 ≤ last_cluster = subst (λ t. t ≤ last_cluster) to le in
        let on : l ≡ next (get_or cs (suc k) 0) = r ∙ ground (arith, en, small) in
        let m' : SameEntries s0 t = record {
          ready = ready;
          same = λ i le. same i le ∙ m.same i le;
        } in
        let (u, v) =
          walk-chain n (suc k) t {c = c} {s' = s'} m' (omega arith)
            (subst (λ w. after n w t ≡ done c s') on y) in
        (u ∙ ap (λ t. get_or cs t 0) {x = suc k + n} {y = k + suc n} (omega arith), v)

    module _ (d : IsLayout g) (last : last_cluster ≡ g.last_cluster) where
      -- The chain holds the file, in the table as it was at `s0`.
      abbrev pub IsWhole : FatFile → Type 0
      IsWhole f = (f.kind ≡ plain_file) × (f.first_cluster ≡ c0) × IsStored g (entry s0) cs f

      -- The file is placed at `pos`, and nothing else of it has changed but the mark of preallocated
      -- clusters.
      pub record Sought (f : FatFile) (pos : ℕ) (q : Handle State) : Type 0 where
        pub same_file : q.file ≡ record f {
          cur_cluster = q.file.cur_cluster;
          cur_position = pos;
          preallocated = q.file.preallocated;
        }
        pub inside : pos ≤ f.file_size
        pub placed : IsPlaced g cs q.file
        pub table : SameEntries s0 q.vol.table

      number-inside :
          (f : FatFile) (pos : ℕ)
          → IsStored g (entry s0) cs f
          → 0 < pos
          → pos ≤ f.file_size
          → (pos - 1) / 512 / g.sectors_per_cluster < length cs
      number-inside f pos i lo hi = rw (div-div-eq-div-mul (pos - 1) 512 g.sectors_per_cluster) (
          (div-lt_iff_lt-mul {x = pos - 1} {y = length cs} (omega (arith, cluster_pos g d))).1
            (omega (arith, i.room)))

      -- The label `done`, with the cluster of the byte before the position.
      arrived :
          (pos c : ℕ) (h r : Handle State)
          → r.file ≡ h.file
          → SameEntries s0 r.vol.table
          → (0 < pos → c ≡ cluster_at g cs ((pos - 1) / 512))
          → pos ≤ h.file.file_size
          → {q : Handle State} → seek_done T g pos c r ≡ done tt q
          → Sought h.file pos q
      arrived pos c h r rf m at hi {q} e = subst (Sought h.file pos) (done-injective e).1 (record {
        same_file =
            ap {A = FatFile}
              (λ t. record t { cur_cluster = c; cur_position = pos; preallocated = false }) rf;
        inside = hi;
        placed = record { inside = subst (λ t. pos ≤ t.file_size) (sym rf) hi; cluster = at };
        table = m;
      })

      -- The links from cluster number `k` of the file on.
      followed :
          (k rounds start pos : ℕ) (h : Handle State) {q : Handle State}
          → IsWhole h.file
          → SameEntries s0 h.vol.table
          → 0 < pos
          → pos ≤ h.file.file_size
          → start ≡ get_or cs k 0
          → k + rounds ≡ (pos - 1) / 512 / g.sectors_per_cluster
          → bind (on_fat (walk T g rounds start) h) (seek_done T g pos) ≡ done tt q
          → Sought h.file pos q
      followed k rounds start pos h {q} i m lo hi at sum e =
          let (c, r, x, y) = bind-done (on_fat (walk T g rounds start) h) (seek_done T g pos) e in
          let (t, z, w) = on_fat-done (walk T g rounds start) h x in
          let (u, v) =
            walk-chain rounds k h.vol.table m
              (omega (arith, sum, number-inside h.file pos i.2 lo hi))
              (subst (λ b. walk T g rounds b h.vol.table ≡ done c t) at z) in
          arrived pos c h r (ap (λ b. b.file) (sym w)) (subst (λ b. SameEntries s0 b.vol.table) w v)
            (λ _. u ∙ ap (λ b. get_or cs b 0) sum) hi y

      pub seek_chain-Sought :
          (pos : ℕ) (h : Handle State) {q : Handle State}
          → IsWhole h.file
          → IsPlaced g cs h.file
          → SameEntries s0 h.vol.table
          → 0 < pos
          → pos ≤ h.file.file_size
          → seek_chain T g pos ((pos - 1) >>> bytes_per_cluster_shift g) h ≡ done tt q
          → Sought h.file pos q
      unfolding seek_chain
      seek_chain-Sought pos h {q} i pl m lo hi e = elim (Bool-cases back) [
        | inl b ↦
            followed 0 (new pos) c0 pos h i m lo hi
              (sym (IsChain-first (entry s0) last_cluster c0 cs chain))
              (omega (arith, shift-div g d (pos - 1))) (by_start b)
        | inr b ↦
            followed (new h.file.cur_position) (new pos - new h.file.cur_position)
              h.file.cur_cluster pos h i m lo hi
              (pl.cluster (later b)
                ∙ ap (λ b. get_or cs b 0) (sym (shift-div g d (h.file.cur_position - 1))))
              (ahead b) (by_current b)
      ]
        where
          f : FatFile
          f = h.file

          new : ℕ → ℕ
          new p = (p - 1) >>> bytes_per_cluster_shift g

          back : Bool
          back =
              ltb (new pos) (sub32 h.file.cur_position 1 >>> bytes_per_cluster_shift g)
              || h.file.cur_position == 0

          by_start :
              back ≡ true → bind (on_fat (walk T g (new pos) c0) h) (seek_done T g pos) ≡ done tt q
          by_start b = ground (arith, i.0, i.1, e)

          by_current :
              back ≡ false
              → bind
                  (on_fat (walk T g (new pos - new f.cur_position) f.cur_cluster) h)
                  (seek_done T g pos)
                ≡ done tt q
          by_current b = ground (arith, i.0, pl.inside, i.2.small, e)

          later : back ≡ false → 0 < f.cur_position
          later b = ground arith

          ahead :
              back ≡ false
              → new f.cur_position + (new pos - new f.cur_position)
                ≡ (pos - 1) / 512 / g.sectors_per_cluster
          ahead b = ground (arith, shift-div g d (pos - 1), pl.inside, i.2.small)

      pub seek_set-Sought :
          (pos : ℕ) (h : Handle State) {q : Handle State}
          → IsWhole h.file
          → IsPlaced g cs h.file
          → SameEntries s0 h.vol.table
          → seek_set T g pos h ≡ done tt q
          → Sought h.file pos q
      unfolding seek_set
      seek_set-Sought pos h {q} i pl m e = elim (Bool-cases (pos == f.cur_position)) [
        | inl here ↦ subst (Sought f pos) (stays here) (record {
          same_file =
              ap {A = ℕ} (λ t. record f { cur_position = t }) {x = f.cur_position} {y = pos}
                (ground arith);
          inside = ground (arith, pl.inside);
          placed = pl;
          table = m;
        })
        | inr n ↦ elim (Bool-cases (pos == 0)) [
          | inl z ↦
              arrived pos 0 h h refl m (λ lo. absurd (ground arith)) (ground (arith)) (to_start n z)
          | inr p ↦ elim (Bool-cases f.contiguous) [
            | inl row ↦
                arrived pos (u32 (f.first_cluster + (pos - 1) >>> bytes_per_cluster_shift g)) h h
                  refl m (λ lo. row_at lo (fits n p) row) (fits n p) (ground (arith, i.0, e))
            | inr y ↦
                seek_chain-Sought pos h i pl m (ground arith) (fits n p) (ground (arith, i.0, e))
          ]
        ]
      ]
        where
          f : FatFile
          f = h.file

          stays : (pos == f.cur_position) ≡ true → h ≡ q
          stays here =
              let x : ◌≡◌ {A = Outcome (Handle State) Unit} (done tt h) (done tt q) =
                ground (arith, i.0, e) in
              (done-injective x).1

          to_start :
              (pos == f.cur_position) ≡ false
              → (pos == 0) ≡ true
              → seek_done T g pos 0 h ≡ done tt q
          to_start n z = ground (arith, i.0, e)

          fits : (pos == f.cur_position) ≡ false → (pos == 0) ≡ false → pos ≤ f.file_size
          fits n p = ground (arith, i.0, e)

          row_at :
              0 < pos
              → pos ≤ f.file_size
              → f.contiguous ≡ true
              → u32 (f.first_cluster + (pos - 1) >>> bytes_per_cluster_shift g)
                ≡ cluster_at g cs ((pos - 1) / 512)
          row_at lo hi row =
              let n : ℕ = (pos - 1) / 512 / g.sectors_per_cluster in
              let lt = number-inside f pos i.2 lo hi in
              let all = All-get (λ c. (2 ≤ c) × (c ≤ g.last_cluster)) cs n i.2.inside lt in
              omega (arith, i.2.in_row row n lt, all, last_small g d, shift-div g d (pos - 1))
