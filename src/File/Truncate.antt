-- ===== src/File/Truncate.antt =====
-- `truncate` up to its call of `sync`: the chain of the file ends at the cluster of the position, and
-- the clusters behind it are free.
use sd_fat.Base.{
  ℕ, suc, ◌+◌, ◌-◌, ◌*◌, ◌/◌, ◌≤◌, ◌<◌, ◌≡◌, ◌≢◌, sym, ◌∙◌, ap, subst, arith, true, List, Outcome,
  Method, done, bind, bind-done, done-injective, ◌==◌, if◌then◌else◌, dec_lt,
}
use native.Mathlib.Nat.{div-div-eq-div-mul, div-lt_iff_lt-mul, div-add-mod', mod-lt}
use sd_fat.Base.Lists.{length, get_or, take, drop, All}
use sd_fat.Fat.{Geometry}
use sd_fat.Alloc.{FatTable, Partition, free_chain}
use sd_fat.Alloc.Chain.{raised, IsChain, IsAbsent}
use sd_fat.Alloc.Cut.{All-take, length-take, IsChain-cut, get_or-take, IsChain-nonempty}
use sd_fat.Alloc.Free.{free_chain-Released}
use sd_fat.File.{FatFile, Handle, on_volume, set_file}
use sd_fat.File.Calls.{on_volume-done}
use sd_fat.File.Place.{IsLayout, IsStored, cluster_pos}
use sd_fat.File.Cluster.{IsChain-first, All-get}
use sd_fat.File.Write.Wrote.{IsReadyToWrite}

module _ (T : FatTable) (g : Geometry) (d : IsLayout g) (same : T.last_cluster ≡ g.last_cluster)
    (cs : List ℕ) where
  open T use {State, last_cluster, get, put, IsReady, entry, get_ok, put_ok, mark_fits}

  -- How many clusters the file keeps.
  abbrev pub kept_clusters : FatFile → ℕ
  kept_clusters f =
      if f.cur_cluster == 0 then 0 else suc ((f.cur_position - 1) / 512 / g.sectors_per_cluster)

  -- The file ends at its position, in the front of its chain; the clusters behind are free and
  -- counted, and no other entry has changed.
  pub record Truncated (h q : Handle State) : Type 0 where
    pub same_file : q.file ≡ record h.file {
      first_cluster = if h.file.cur_cluster == 0 then 0 else h.file.first_cluster;
      file_size = h.file.cur_position;
      dir_dirty = true;
    }
    pub ready : IsReady q.vol.table
    pub stored :
        h.file.cur_cluster ≢ 0
        → IsStored g (entry q.vol.table) (take (kept_clusters h.file) cs) q.file
    pub free : All (λ i. entry q.vol.table i ≡ 0) (drop (kept_clusters h.file) cs)
    pub others :
        (i : ℕ) → i ≤ last_cluster → IsAbsent i cs → entry q.vol.table i ≡ entry h.vol.table i
    pub counted :
        q.vol.free_cluster_count
        ≡ raised (length (drop (kept_clusters h.file) cs)) h.vol.free_cluster_count

  module _ (h : Handle State) (m : IsReady h.vol.table)
      (i : IsStored g (entry h.vol.table) cs h.file)
      (r : IsReadyToWrite g cs h.file h.file.file_size) where
    abbrev f : FatFile
    f = h.file

    abbrev n : ℕ
    n = (f.cur_position - 1) / 512 / g.sectors_per_cluster

    -- What follows the cut: the chain from cluster `c`, if it is not 0, is freed.
    abbrev pub release : ℕ → Method (Handle State) (Unit {0})
    release c q =
        let free = on_volume (free_chain T c) q in
        bind (if c == 0 then done tt q else free) (λ _ p.
          done tt (set_file (λ f. record f { file_size = f.cur_position; dir_dirty = true }) p))

    -- The file that ends at its position.
    abbrev pub end_file : FatFile
    end_file = record f { file_size = f.cur_position; dir_dirty = true }

    positive : f.cur_cluster ≢ 0 → 0 < f.cur_position
    positive ne = elim (dec_lt 0 f.cur_position) [
      | yes a ↦ a
      | no a ↦ absurd (ne (r.at_start (omega arith)))
    ]

    pub number : f.cur_cluster ≢ 0 → n < length cs
    number ne =
        let a = positive ne in
        let b = r.placed.inside in
        rw (div-div-eq-div-mul (f.cur_position - 1) 512 g.sectors_per_cluster) (
          (div-lt_iff_lt-mul {x = f.cur_position - 1} {y = length cs}
              (omega (arith, cluster_pos g d))).1
            (omega (arith, i.room, a, b)))

    pub here : f.cur_cluster ≢ 0 → f.cur_cluster ≡ get_or cs n 0
    here ne = r.placed.cluster (positive ne)

    -- The position fits the clusters that are kept.
    room : f.cur_cluster ≢ 0 → f.cur_position ≤ suc n * (512 * g.sectors_per_cluster)
    room ne =
        let w : ℕ = g.sectors_per_cluster in
        let q : ℕ = (f.cur_position - 1) / 512 in
        omega (arith, div-add-mod' q w, mod-lt q {m = w} (cluster_pos g d))

    -- The front of the chain holds the file that ends at the position.
    pub front :
        (e : ℕ → ℕ) (p : FatFile)
        → f.cur_cluster ≢ 0
        → p.first_cluster ≡ f.first_cluster
        → p.file_size ≡ f.cur_position
        → p.contiguous ≡ f.contiguous
        → All (λ x. e x ≡ entry h.vol.table x) (take n cs)
        → g.last_cluster < e (get_or cs n 0)
        → IsStored g e (take (suc n) cs) p
    front e p ne ef es ec old end = record {
      chain =
          subst (λ t. IsChain e g.last_cluster t (take (suc n) cs)) (sym ef)
            (IsChain-cut (entry h.vol.table) e g.last_cluster f.first_cluster cs n i.chain
              (number ne) old end);
      inside = All-take _ (suc n) cs i.inside;
      room =
          subst (λ t. p.file_size ≤ t * (512 * g.sectors_per_cluster))
            (sym (length-take (suc n) cs (number ne)))
            (subst (λ t. t ≤ suc n * (512 * g.sectors_per_cluster)) (sym es) (room ne));
      small = omega (arith, es, r.placed.inside, i.small);
      in_row = λ e k lt.
          get_or-take (suc n) k cs (omega (arith, lt, length-take (suc n) cs (number ne)))
          ∙ i.in_row (sym ec ∙ e) k
              (omega (arith, lt, length-take (suc n) cs (number ne), number ne))
          ∙ ap (λ t. t + k) (sym ef);
    }

    -- The handle behind the last assignments, and the volume `p`.
    abbrev pub ended : FatFile → Partition State → Handle State
    ended f0 p = record {
      file = record f0 { file_size = f0.cur_position; dir_dirty = true };
      vol = p;
    }

    pub nothing_freed : (q1 q : Handle State) → release 0 q1 ≡ done tt q → ended q1.file q1.vol ≡ q
    nothing_freed q1 q e = (done-injective e).1

    pub freed :
        (c : ℕ) (q1 q : Handle State)
        → c ≢ 0
        → release c q1 ≡ done tt q
        → (p : Partition State) × (free_chain T c q1.vol ≡ done tt p) × (ended q1.file p ≡ q)
    freed c q1 q ne e =
        let (_, q2, a, b) = bind-done (on_volume (free_chain T c) q1) finish (goes e) in
        let (p, x, y) = on_volume-done (free_chain T c) q1 a in
        (p, x, ap (λ (t : Handle State). ended t.file t.vol) y ∙ (done-injective b).1)
      where
        finish : Unit {0} → Handle State → Outcome (Handle State) (Unit {0})
        finish _ p =
            done tt (set_file (λ f. record f { file_size = f.cur_position; dir_dirty = true }) p)

        goes : release c q1 ≡ done tt q → bind (on_volume (free_chain T c) q1) finish ≡ done tt q
        goes e = ground arith

    pub all_freed :
        (q : Handle State)
        → f.cur_cluster ≡ 0
        → release f.first_cluster (set_file (λ f. record f { first_cluster = 0 }) h) ≡ done tt q
        → Truncated h q
    all_freed q z e =
        let c : (2 ≤ get_or cs 0 0) × (get_or cs 0 0 ≤ g.last_cluster) =
          All-get (λ c. (2 ≤ c) × (c ≤ g.last_cluster)) cs 0 i.inside some in
        let a = IsChain-first (entry h.vol.table) g.last_cluster f.first_cluster cs i.chain in
        let (p, x, y) =
          freed f.first_cluster (set_file (λ f. record f { first_cluster = 0 }) h) q
            (omega (arith, c, a)) e in
        let rel =
          free_chain-Released T f.first_cluster cs h.vol p m
            (subst (λ t. IsChain (entry h.vol.table) t f.first_cluster cs) (sym same) i.chain) x in
        subst (Truncated h) y (record {
          same_file =
              ap
                (λ c. record h.file {
                  first_cluster = c;
                  file_size = h.file.cur_position;
                  dir_dirty = true;
                })
                (ground arith);
          ready = rel.ready;
          stored = λ ne. absurd (ne z);
          free = subst (λ k. All (λ i. entry p.table i ≡ 0) (drop k cs)) none_kept rel.free;
          others = rel.others;
          counted =
              rel.counted
              ∙ ap (λ k. raised (length (drop k cs)) h.vol.free_cluster_count) none_kept;
        })
      where
        none_kept : 0 ≡ kept_clusters f
        none_kept = ground arith

        some : 0 < length cs
        some = IsChain-nonempty (entry h.vol.table) g.last_cluster f.first_cluster cs i.chain
