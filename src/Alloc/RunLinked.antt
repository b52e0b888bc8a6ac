-- ===== src/Alloc/RunLinked.antt =====
-- `allocContiguous`: the run that it returns is one chain, and what it changes in the table.
use sd_fat.Base.{
  ℕ, zero, suc, ◌+◌, ◌-◌, ◌≤◌, ◌<◌, ◌≡◌, ◌≢◌, ◌⊎◌, inr, refl, sym, ◌∙◌, ap, subst, arith, true,
  Option, List, [], ◌∷◌, done, bind, bind-done, done-injective, if◌then◌else◌, u32, ℕ_discrete,
}
use native.Mathlib.Nat.{mod-eq_of_lt}
use sd_fat.Base.Lists.{All}
use sd_fat.Fat.{eoc_mark}
use sd_fat.Alloc.{FatTable, Partition, on_table, count_down}
use sd_fat.Alloc.Allocate.{on_table-done}
use sd_fat.Alloc.Chain.{lowered, IsChain}
use sd_fat.Alloc.Run.{Search, find_run, run_rounds, link_down, take_run, alloc_contiguous}
use sd_fat.Alloc.RunFound.{RunOf, find_run-RunOf}

-- `n` clusters in a row, from `b` on.
abbrev pub row : ℕ → ℕ → List ℕ
row b zero = []
row b (suc n) = b ∷ row (suc b) n

row_above : (b c n : ℕ) → c < b → All (λ i. i ≢ c) (row b n)
row_above b c zero lt = tt
row_above b c (suc n) lt = (omega arith, row_above (suc b) c n (omega arith))

-- Entries that each lead to the next cluster, up to a last one past `last`.
pub row-IsChain :
    (e : ℕ → ℕ) (last b n : ℕ)
    → ((i : ℕ) → b ≤ i → i < b + n → (e i ≡ suc i) × (i < last))
    → last < e (b + n)
    → IsChain e last b (row b (suc n))
row-IsChain e last b zero on end =
    (refl, subst (λ t. last < e t) {x = b + 0} {y = b} (omega arith) end)
row-IsChain e last b (suc n) on end =
    let (here, in_last) = on b (omega arith) (omega arith) in
    (
      refl,
      omega (arith, here),
      row_above (suc b) b (suc n) (omega arith),
      subst (λ t. IsChain e last t (row (suc b) (suc n))) (sym here)
          (row-IsChain e last (suc b) n (λ i lo hi. on i (omega arith) (omega arith))
            (subst (λ t. last < e t) {x = b + suc n} {y = suc b + n} (omega arith) end)),
    )

module _ (T : FatTable) where
  open T use {State, last_cluster, limit, put, IsReady, entry, put_ok, last_fits, mark_fits}

  -- The `count` clusters from `b` on were free and are one chain now; no other entry has changed.
  pub record LinkedRun (count b : ℕ) (p p' : Partition State) : Type 0 where
    pub some_clusters : 0 < count
    pub low : 2 ≤ b
    pub high : b + count ≤ last_cluster + 1
    pub was_free : (i : ℕ) → b ≤ i → i < b + count → entry p.table i ≡ 0
    pub chain : IsChain (entry p'.table) last_cluster b (row b count)
    pub others :
        (i : ℕ) → i ≤ last_cluster → (i < b) ⊎ (b + count ≤ i) → entry p'.table i ≡ entry p.table i
    pub ready : IsReady p'.table
    pub counted : p'.free_cluster_count ≡ lowered count p.free_cluster_count

  -- What the loop that links the clusters does: `n` entries below `f`.
  record Down (n f : ℕ) (s s' : State) : Type 0 where
    ready : IsReady s'
    linked : (i : ℕ) → f ≤ i + n → i < f → entry s' i ≡ suc i
    others : (i : ℕ) → i ≤ last_cluster → (i + n < f) ⊎ (f ≤ i) → entry s' i ≡ entry s i

  link_down-Down :
      (n f : ℕ) (s : State) {s' : State}
      → IsReady s
      → n ≤ f
      → f ≤ last_cluster
      → link_down T n f s ≡ done tt s'
      → Down n f s s'
  unfolding link_down
  link_down-Down zero f s {s'} m fit le e =
      subst (Down 0 f s) (done-injective e).1
        (record { ready = m; linked = λ i a b. absurd (omega arith); others = λ i a b. refl })
  link_down-Down (suc n) f s {s'} m fit le e =
      let (_, t, x, y) = bind-done (put (f - 1) f s) (λ _. link_down T n (f - 1)) e in
      let (lo, hi, here, ready, rest) = put_ok (f - 1) f m x in
      let w = link_down-Down n (f - 1) t ready (omega arith) (omega arith) y in
      record {
        ready = w.ready;
        linked = λ i a b. elim (ℕ_discrete i (f - 1)) [
          | yes q ↦
              w.others i (omega arith) (inr (omega arith))
              ∙ ap (entry t) q
              ∙ here
              ∙ mod-eq_of_lt (omega (arith, last_fits))
              ∙ omega arith
          | no q ↦ w.linked i (omega arith) (omega arith)
        ];
        others = λ i a b. w.others i a (ground arith) ∙ rest i (λ q. ground arith) a;
      }

  abbrev remember : Search → Partition State → Partition State
  remember r p = if r.set_start then record p { alloc_search_start = r.end_cluster } else p

  remember-table : (r : Search) (p : Partition State) → (remember r p).table ≡ p.table
  remember-table r p = ground arith

  remember-count :
      (r : Search) (p : Partition State) → (remember r p).free_cluster_count ≡ p.free_cluster_count
  remember-count r p = ground arith

  -- The mark of the end, and the links below it.
  marked-LinkedRun :
      (count : ℕ) (r : Search) (s : State) (p p' q : Partition State) {s1 s2 : State}
      → RunOf T s count r p.table
      → put r.end_cluster eoc_mark p.table ≡ done tt s1
      → Down (r.end_cluster - r.bgn_cluster) r.end_cluster s1 s2
      → p'.table ≡ s2
      → p'.free_cluster_count ≡ lowered count q.free_cluster_count
      → q.table ≡ s
      → LinkedRun count r.bgn_cluster q p'
  marked-LinkedRun count r s p p' q {s1} {s2} f x w at n old =
      let c = r.end_cluster in
      let b = r.bgn_cluster in
      let k : ℕ = c - b in
      let last = f.free c f.order (omega arith) in
      let first = f.free b (omega arith) (omega (arith, f.order)) in
      let (_, _, here, _, rest) = put_ok c eoc_mark f.table.0 x in
      record {
        some_clusters = omega (arith, f.size, f.order);
        low = first.0;
        high = omega (arith, f.size, last.1);
        was_free = λ i lo hi. rw old (f.free i lo (omega (arith, f.size))).2;
        chain = rw at (
            subst (λ t. IsChain (entry s2) last_cluster b (row b t)) {x = suc k} {y = count}
              (omega (arith, f.size, f.order))
              (row-IsChain (entry s2) last_cluster b k
                (λ i lo hi. (
                  w.linked i (omega (arith, f.order)) (omega (arith, f.order)),
                  omega (arith, last.1, f.order),
                ))
                (subst (λ t. last_cluster < entry s2 t) {x = c} {y = b + k} (omega (arith, f.order))
                  (omega (arith, w.others c last.1 (inr (omega arith)), here, mark_fits)))));
        others = λ i le o.
            rw (at, old)
              (w.others i le (ground (arith, f.size, f.order))
                ∙ rest i (λ z. ground (arith, f.size, f.order)) le
                ∙ f.table.1 i le);
        ready = rw at w.ready;
        counted = n;
      }

  take_run-LinkedRun :
      (count : ℕ) (r : Search) (s : State) (p : Partition State) {b : ℕ} {p' : Partition State}
      → RunOf T s count r p.table
      → take_run T count r p ≡ done b p'
      → LinkedRun count b (record p { table = s }) p'
  unfolding take_run
  take_run-LinkedRun count r s p {b} {p'} ff e =
      let f = r.end_cluster in
      let n = f - r.bgn_cluster in
      let (_, q, x, y) =
        bind-done (on_table (put f eoc_mark) (remember r p))
          (λ _ q.
            bind (on_table (link_down T n f) q) (λ _ t. done r.bgn_cluster (count_down count t)))
          e in
      let (_, t, u, v) =
        bind-done (on_table (link_down T n f) q) (λ _ t. done r.bgn_cluster (count_down count t))
          y in
      let (s1, x', qe) = on_table-done (put f eoc_mark) (remember r p) x in
      let (s2, u', te) = on_table-done (link_down T n f) q u in
      let w =
        link_down-Down n f s1
          (put_ok f eoc_mark ff.table.0
            (subst (λ t. put f eoc_mark t ≡ done tt s1) (remember-table r p) x')).3
          (omega arith) (ff.free f ff.order (omega arith)).1
          (subst (λ t. link_down T n f t.table ≡ done tt s2) (sym qe) u') in
      let (ve, vs) = done-injective v in
      subst (λ t. LinkedRun count t (record p { table = s }) p') ve
        (marked-LinkedRun count r s p p' (record p { table = s }) ff
          (subst (λ t. put f eoc_mark t ≡ done tt s1) (remember-table r p) x') w
          (ap (λ t. t.table) (sym vs) ∙ ap (λ t. t.table) (sym te))
          (ap (λ t. t.free_cluster_count) (sym vs)
            ∙ ap (counted_down s) (
                ap (λ t. t.free_cluster_count) (sym te)
                ∙ ap (λ t. t.free_cluster_count) (sym qe)
                ∙ remember-count r p))
          refl)
    where
      counted_down : State → Option ℕ → Option ℕ
      counted_down t k =
          (count_down count (record {
            alloc_search_start = 0;
            free_cluster_count = k;
            table = t;
          })).free_cluster_count

  -- On a table that is ready, `allocContiguous` that succeeds was asked for at least one cluster
  -- and returns the first of that many clusters in a row, which were free and are one chain now;
  -- no other entry has changed, and the free count is less by their number (it is unknown if it
  -- was, or was smaller than that).
  pub alloc_contiguous-LinkedRun :
      (count : ℕ) (p : Partition State) {b : ℕ} {p' : Partition State}
      → IsReady p.table
      → alloc_contiguous T count p ≡ done b p'
      → LinkedRun count b p p'
  unfolding alloc_contiguous
  alloc_contiguous-LinkedRun count p {b} {p'} m e =
      let c = u32 (p.alloc_search_start + 1) in
      let r : Search = record { bgn_cluster = c; end_cluster = c; set_start = true } in
      let (r', q, x, y) =
        bind-done (on_table (find_run T (run_rounds T) count r) p) (take_run T count) e in
      let (s', z, w) = on_table-done (find_run T (run_rounds T) count r) p x in
      let f =
        find_run-RunOf T p.table (run_rounds T) count r p.table (omega arith)
          (λ i a b. absurd (omega arith)) (m, λ i le. refl) z in
      take_run-LinkedRun count r' p.table (record p { table = s' }) f
        (subst (λ t. take_run T count r' t ≡ done b p') (sym w) y)
