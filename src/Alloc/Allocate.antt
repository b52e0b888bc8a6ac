-- ===== src/Alloc/Allocate.antt =====
-- `allocateCluster`: the cluster that it returns, and what it changes in the table.
use sd_fat.Base.{
  ℕ, ◌≤◌, ◌<◌, ◌≡◌, ◌≢◌, refl, inl, inr, sym, ◌∙◌, ap, subst, arith, Bool, true, false, Outcome,
  Method, done, fail, stuck, bind, bind-done, done-injective, Bool-cases, ltb, ◌==◌, ==→eq,
  if◌then◌else◌,
}
use native.Mathlib.Nat.{mod-eq_of_lt}
use sd_fat.Fat.{eoc_mark}
use sd_fat.Alloc.{
  FatTable, Partition, on_table, count_down, find_free, search_rounds, take_cluster,
  allocate_cluster, link_cluster,
}
use sd_fat.Alloc.Chain.{lowered}
use sd_fat.Alloc.Find.{Found, find_free-Found}

pub on_table-done :
    {S A : Type 0} (m : Method S A) (p : Partition S) {a : A} {q : Partition S}
    → on_table m p ≡ done a q
    → (s : S) × (m p.table ≡ done a s) × (record p { table = s } ≡ q)
on_table-done {S} {A} m p {a} {q} e = go (m p.table) refl e
  where
    go :
        (o : Outcome S A)
        → m p.table ≡ o
        → ◌≡◌ {A = Outcome (Partition S) A}
            (elim o [
              | done a s ↦ done a (record p { table = s })
              | fail s ↦ fail (record p { table = s })
              | stuck ↦ stuck
            ])
            (done a q)
        → (s : S) × (m p.table ≡ done a s) × (record p { table = s } ≡ q)
    go (done x s) y z = (s, y ∙ ap (λ t. done t s) (done-injective z).0, (done-injective z).1)
    go (fail s) y z = absurd (cc)
    go stuck y z = absurd (cc)

module _ (T : FatTable) where
  open T use {
    State, last_cluster, limit, get, put, IsReady, entry, get_ok, put_ok, get_returns, put_returns,
    last_small, last_fits, mark_fits,
  }

  pub record Allocated (current f : ℕ) (p p' : Partition State) : Type 0 where
    pub low : 2 ≤ f
    pub high : f ≤ last_cluster
    pub other : f ≢ current
    pub was_free : entry p.table f ≡ 0
    pub ready : IsReady p'.table
    pub ends : last_cluster < entry p'.table f
    pub linked : current ≢ 0 → entry p'.table current ≡ f
    pub others :
        (i : ℕ) → i ≤ last_cluster → i ≢ f → i ≢ current → entry p'.table i ≡ entry p.table i
    pub counted : p'.free_cluster_count ≡ lowered 1 p.free_cluster_count

  -- The second `fatPut`, which is skipped for a file with no cluster.
  link_step :
      (current f : ℕ) (p : Partition State) {q : Partition State}
      → IsReady p.table
      → f ≤ last_cluster
      → link_cluster T current f p ≡ done tt q
      → IsReady q.table
        × (current ≢ 0 → entry q.table current ≡ f)
        × ((i : ℕ) → i ≤ last_cluster → i ≢ current → entry q.table i ≡ entry p.table i)
        × (q.free_cluster_count ≡ p.free_cluster_count)
  unfolding link_cluster
  link_step current f p {q} m le e = elim (Bool-cases (current == 0)) [
    | inl z ↦
        let same : p ≡ q = (done-injective (skipped z)).1 in
        subst
          (λ x.
            IsReady x.table
            × (current ≢ 0 → entry x.table current ≡ f)
            × ((i : ℕ) → i ≤ last_cluster → i ≢ current → entry x.table i ≡ entry p.table i)
            × (x.free_cluster_count ≡ p.free_cluster_count))
          same (m, λ ne. absurd (ne (==→eq current 0 z)), λ i _ _. refl, refl)
    | inr z ↦
        let (s, a, b) = on_table-done (put current f) p (put_called z) in
        let (_, _, here, ready, rest) = put_ok current f m a in
        subst
          (λ x.
            IsReady x.table
            × (current ≢ 0 → entry x.table current ≡ f)
            × ((i : ℕ) → i ≤ last_cluster → i ≢ current → entry x.table i ≡ entry p.table i)
            × (x.free_cluster_count ≡ p.free_cluster_count))
          b
          (
            ready,
            λ _. here ∙ mod-eq_of_lt (omega (arith, last_fits)),
            λ i li ne. rest i ne li,
            refl,
          )
  ]
    where
      skipped : (current == 0) ≡ true → done tt p ≡ done tt q
      skipped z = rw (z, link_cluster) at e

      put_called : (current == 0) ≡ false → on_table (put current f) p ≡ done tt q
      put_called z = rw (z, link_cluster) at e

  abbrev remember : ℕ → Bool → Partition State → Partition State
  remember f b p = if b then record p { alloc_search_start = f } else p

  remember-table : (f : ℕ) (b : Bool) (p : Partition State) → (remember f b p).table ≡ p.table
  remember-table f b p = ground arith

  -- What is left to do once cluster `f` is found in the table of `p`.
  take_cluster-Allocated :
      (current f : ℕ) (b : Bool) (s : State) (p : Partition State) {x : ℕ} {p' : Partition State}
      → Found T current f s p.table
      → take_cluster T current (f, b) p ≡ done x p'
      → (x ≡ f) × Allocated current f (record p { table = s }) p'
  unfolding take_cluster
  take_cluster-Allocated current f b s p {x} {p'} fd e = marked (
      bind-done (on_table (put f eoc_mark) (remember f b p))
        (λ _ q. bind (link_cluster T current f q) (λ _ r. done f (count_down 1 r))) e)
    where
      linked :
          (s1 : State)
          → put f eoc_mark p.table ≡ done tt s1
          → (_ : Unit {0}) × (r : Partition State) × (link_cluster T current f
                (record (remember f b p) { table = s1 })
              ≡ done tt r)
            × (done f (count_down 1 r) ≡ done x p')
          → (x ≡ f) × Allocated current f (record p { table = s }) p'
      linked s1 a (_, r, l, z) =
          let (_, _, here, ready, rest) = put_ok f eoc_mark fd.ready a in
          let (ready', link, keep, count) =
            link_step current f (record (remember f b p) { table = s1 }) ready fd.high l in
          (
            sym (done-injective z).0,
            subst (Allocated current f (record p { table = s })) (done-injective z).1 (record {
              low = fd.low;
              high = fd.high;
              other = fd.other;
              was_free = fd.free;
              ready = ready';
              ends = ground (arith, here, mark_fits, keep f fd.high fd.other);
              linked = link;
              others = λ i li nf nc. keep i li nc ∙ rest i nf li ∙ fd.same i li;
              counted = ground (arith, count);
            }),
          )

      marked :
          (_ : Unit {0}) × (q : Partition State) × (on_table (put f eoc_mark) (remember f b p)
              ≡ done tt q)
            × (bind (link_cluster T current f q) (λ _ r. done f (count_down 1 r)) ≡ done x p')
          → (x ≡ f) × Allocated current f (record p { table = s }) p'
      marked (_, q, a, z) =
          let (s1, y, w) = on_table-done (put f eoc_mark) (remember f b p) a in
          linked s1 (rw (remember-table f b p) at y) (
            bind-done (link_cluster T current f (record (remember f b p) { table = s1 }))
              (λ _ r. done f (count_down 1 r)) (rw (sym w) at z))

  -- The search that `allocateCluster` starts.
  abbrev search : ℕ → Method (Partition State) (ℕ × Bool)
  search current p =
      if ltb p.alloc_search_start current
      then on_table (find_free T (search_rounds T) current p.alloc_search_start current false) p
      else on_table
          (find_free T (search_rounds T) current p.alloc_search_start p.alloc_search_start true) p

  -- On a table that is ready, `allocateCluster` that succeeds returns a cluster of the volume
  -- that was free; its entry is an end of chain, the entry of the current cluster (if there is
  -- one) leads to it, no other entry has changed, and the free count is one less (it is unknown
  -- if it was, or was 0).
  pub allocate_cluster-Allocated :
      (current : ℕ) (p : Partition State) {f : ℕ} {p' : Partition State}
      → IsReady p.table
      → allocate_cluster T current p ≡ done f p'
      → Allocated current f p p'
  allocate_cluster-Allocated current p {f} {p'} m e =
      from_search
        (bind-done (search current p) (take_cluster T current) (unfold allocate_cluster in e))
    where
      begun :
          (r : ℕ × Bool) (q : Partition State)
          → search current p ≡ done r q
          → (s : State) × (find : ℕ) × (b : Bool) × (find_free T
                (search_rounds T)
                current
                p.alloc_search_start
                find
                b
                p.table
              ≡ done r s)
            × (record p { table = s } ≡ q)
      begun r q y = elim (Bool-cases (ltb p.alloc_search_start current)) [
        | inl z ↦
            let (s, a, b) =
              on_table-done
                (find_free T (search_rounds T) current p.alloc_search_start current false) p
                (rw z at y) in
            (s, current, false, a, b)
        | inr z ↦
            let (s, a, b) =
              on_table-done
                (find_free T (search_rounds T) current p.alloc_search_start p.alloc_search_start
                  true)
                p (rw z at y) in
            (s, p.alloc_search_start, true, a, b)
      ]

      from_search :
          (r : ℕ × Bool) × (q : Partition State) × (search current p ≡ done r q)
            × (take_cluster T current r q ≡ done f p')
          → Allocated current f p p'
      from_search (r, q, y, z) =
          let (s, find, b, a, w) = begun r q y in
          let fd =
            find_free-Found T (search_rounds T) current p.alloc_search_start find b r p.table s m
              a in
          let (x, al) =
            take_cluster-Allocated current r.0 r.1 p.table (record p { table = s }) fd
              (rw (sym w) at z) in
          subst (λ k. Allocated current k p p') (sym x) al
