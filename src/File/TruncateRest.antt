-- ===== src/File/TruncateRest.antt =====
-- `truncate` where the file keeps clusters: the position is in its last one, or the chain is cut.
use sd_fat.Base.{
  ℕ, suc, ◌+◌, ◌-◌, ◌/◌, ◌≤◌, ◌<◌, ◌≡◌, ◌≢◌, refl, sym, ◌∙◌, ap, subst, arith, true, Option, none,
  some, List, [], done, dec_lt,
}
use sd_fat.Base.Lists.{length, get_or, take, drop, All}
use sd_fat.Fat.{Geometry}
use sd_fat.Alloc.{FatTable, Partition}
use sd_fat.Alloc.Chain.{raised, IsChain, IsAbsent, IsChain-same, All-zip}
use sd_fat.Alloc.Cut.{All-take, All-drop, IsChain-drop, IsChain-apart, IsChain-last, drop_all}
use sd_fat.Alloc.Free.{Released, free_chain-Released}
use sd_fat.File.{FatFile, Handle}
use sd_fat.File.Place.{IsLayout, IsStored}
use sd_fat.File.Cluster.{IsChain-next, All-get}
use sd_fat.File.Write.Wrote.{IsReadyToWrite}
use sd_fat.File.Truncate.{
  kept_clusters, Truncated, release, nothing_freed, freed, number, here, front, end_file,
}

count-zero : (o : Option ℕ) → o ≡ elim o [ none ↦ none | some k ↦ some (k + 0) ]
count-zero none = refl
count-zero (some k) = ap some (omega arith)

module _ (T : FatTable) (g : Geometry) (d : IsLayout g) (same : T.last_cluster ≡ g.last_cluster)
    (cs : List ℕ) where
  open T use {State, last_cluster, get, put, IsReady, entry, get_ok, put_ok, mark_fits}

  module _ (h : Handle State) (m : IsReady h.vol.table)
      (i : IsStored g (entry h.vol.table) cs h.file)
      (r : IsReadyToWrite g cs h.file h.file.file_size) where
    abbrev f : FatFile
    f = h.file

    abbrev n : ℕ
    n = (f.cur_position - 1) / 512 / g.sectors_per_cluster

    -- The position is in the last cluster.
    pub none_freed :
        (t : State) (q : Handle State)
        → f.cur_cluster ≢ 0
        → last_cluster < entry h.vol.table f.cur_cluster
        → IsReady t
        → ((i : ℕ) → i ≤ last_cluster → entry t i ≡ entry h.vol.table i)
        → (release T g d same cs h m i r) 0 (record h { vol = record h.vol { table = t } })
          ≡ done tt q
        → Truncated T g d same cs h q
    none_freed t q ne end ready old e =
        subst (Truncated T g d same cs h)
          ((nothing_freed T g d same cs h m i r) (record h { vol = record h.vol { table = t } }) q
            e)
          (record {
            same_file =
                ap
                  (λ c. record h.file {
                    first_cluster = c;
                    file_size = h.file.cur_position;
                    dir_dirty = true;
                  })
                  (ground arith);
            ready = ready;
            stored = λ _.
                subst (λ k. IsStored g (entry t) (take k cs) (end_file T g d same cs h m i r)) kept
                  ((front T g d same cs h m i r) (entry t) (end_file T g d same cs h m i r) ne refl
                    refl refl (All-take _ n cs all_old)
                    (omega (arith, same, at_end, end, (here T g d same cs h m i r) ne)));
            free = subst (λ l. All (λ i. entry t i ≡ 0) l) (sym gone) tt;
            others = λ i le a. old i le;
            counted = zero_count ∙ ap (λ l. raised (length l) h.vol.free_cluster_count) (sym gone);
          })
      where
        kept : suc n ≡ kept_clusters T g d same cs f
        kept = ground arith

        all_old : All (λ x. entry t x ≡ entry h.vol.table x) cs
        all_old = All-zip cs (λ x a _. old x (omega (arith, a.1, same))) i.inside i.inside

        at_end : entry t (get_or cs n 0) ≡ entry h.vol.table f.cur_cluster
        at_end =
            All-get (λ x. entry t x ≡ entry h.vol.table x) cs n all_old
              ((number T g d same cs h m i r) ne)
            ∙ ap (entry h.vol.table) (sym ((here T g d same cs h m i r) ne))

        gone : drop (kept_clusters T g d same cs f) cs ≡ []
        gone = elim (dec_lt (suc n) (length cs)) [
          | yes a ↦
              let (_, b) =
                IsChain-next (entry h.vol.table) g.last_cluster f.first_cluster cs n i.chain a in
              absurd (
                omega
                  (arith, b, end, same, ap (entry h.vol.table) ((here T g d same cs h m i r) ne)))
          | no a ↦ drop_all (kept_clusters T g d same cs f) cs (omega (arith, a, kept))
        ]

        zero_count : h.vol.free_cluster_count ≡ raised 0 h.vol.free_cluster_count
        zero_count = count-zero h.vol.free_cluster_count

    -- The clusters behind that of the position, from `c` on, are (freed T g d same cs h m i r).
    pub rest_freed :
        (c : ℕ) (s t : State) (q : Handle State)
        → f.cur_cluster ≢ 0
        → c ≡ entry h.vol.table f.cur_cluster
        → c ≤ last_cluster
        → ((i : ℕ) → i ≤ last_cluster → entry s i ≡ entry h.vol.table i)
        → last_cluster < entry t f.cur_cluster
        → IsReady t
        → ((i : ℕ) → i ≢ f.cur_cluster → i ≤ last_cluster → entry t i ≡ entry s i)
        → (release T g d same cs h m i r) c (record h { vol = record h.vol { table = t } })
          ≡ done tt q
        → Truncated T g d same cs h q
    rest_freed c s t q ne link inside old end ready new e =
        let vol : Partition State = record h.vol { table = t } in
        let (p, x, y) =
          (freed T g d same cs h m i r) c (record h { vol = vol }) q (omega (arith, lead, c_in))
            e in
        let rel =
          free_chain-Released T c (drop (suc n) cs) vol p ready
            (IsChain-same (entry h.vol.table) (entry t) last_cluster c (drop (suc n) cs) behind_old
              behind)
            x in
        subst (Truncated T g d same cs h) y (record {
          same_file =
              ap
                (λ c. record h.file {
                  first_cluster = c;
                  file_size = h.file.cur_position;
                  dir_dirty = true;
                })
                (ground arith);
          ready = rel.ready;
          stored = λ _.
              subst (λ k. IsStored g (entry p.table) (take k cs) (end_file T g d same cs h m i r))
                kept
                ((front T g d same cs h m i r) (entry p.table) (end_file T g d same cs h m i r) ne
                  refl refl refl (in_front p rel) (at_cut p rel));
          free = subst (λ k. All (λ i. entry p.table i ≡ 0) (drop k cs)) kept rel.free;
          others = λ j le a.
              rel.others j le (All-drop _ (suc n) cs a)
              ∙ new j
                  (λ z.
                    All-get (λ x. x ≢ j) cs n a ((number T g d same cs h m i r) ne)
                      (sym ((here T g d same cs h m i r) ne) ∙ sym z))
                  le
              ∙ old j le;
          counted =
              rel.counted ∙ ap (λ k. raised (length (drop k cs)) h.vol.free_cluster_count) kept;
        })
      where
        kept : suc n ≡ kept_clusters T g d same cs f
        kept = ground arith

        next_one :
            suc n < length cs
            → (entry h.vol.table (get_or cs n 0) ≡ get_or cs (suc n) 0)
              × (entry h.vol.table (get_or cs n 0) ≤ g.last_cluster)
        next_one = IsChain-next (entry h.vol.table) g.last_cluster f.first_cluster cs n i.chain

        longer : suc n < length cs
        longer = elim (dec_lt (suc n) (length cs)) [
          | yes a ↦ a
          | no a ↦
              let b =
                IsChain-last (entry h.vol.table) g.last_cluster f.first_cluster cs n i.chain
                  (omega (arith, a, (number T g d same cs h m i r) ne)) in
              absurd (
                omega (
                  arith,
                  b,
                  link,
                  inside,
                  same,
                  ap (entry h.vol.table) ((here T g d same cs h m i r) ne),
                ))
        ]

        lead : c ≡ get_or cs (suc n) 0
        lead = link ∙ ap (entry h.vol.table) ((here T g d same cs h m i r) ne) ∙ (next_one longer).0

        c_in : (2 ≤ get_or cs (suc n) 0) × (get_or cs (suc n) 0 ≤ g.last_cluster)
        c_in = All-get (λ c. (2 ≤ c) × (c ≤ g.last_cluster)) cs (suc n) i.inside longer

        apart :
            All (λ x. IsAbsent x (drop (suc n) cs) × (x ≢ get_or cs n 0)) (take n cs)
            × IsAbsent (get_or cs n 0) (drop (suc n) cs)
        apart =
            IsChain-apart (entry h.vol.table) g.last_cluster f.first_cluster cs n i.chain
              ((number T g d same cs h m i r) ne)

        behind : IsChain (entry h.vol.table) last_cluster c (drop (suc n) cs)
        behind =
            subst (λ t. IsChain (entry h.vol.table) t c (drop (suc n) cs)) (sym same)
              (subst (λ t. IsChain (entry h.vol.table) g.last_cluster t (drop (suc n) cs))
                (sym lead)
                (IsChain-drop (entry h.vol.table) g.last_cluster f.first_cluster cs n i.chain
                  longer))

        behind_old : All (λ x. entry t x ≡ entry h.vol.table x) (drop (suc n) cs)
        behind_old =
            All-zip (drop (suc n) cs)
              (λ x a b.
                new x (λ z. a (z ∙ (here T g d same cs h m i r) ne)) (omega (arith, b.1, same))
                ∙ old x (omega (arith, b.1, same)))
              apart.1 (All-drop _ (suc n) cs i.inside)

        in_front :
            (p : Partition State)
            → Released T (drop (suc n) cs) (record h.vol { table = t }) p
            → All (λ x. entry p.table x ≡ entry h.vol.table x) (take n cs)
        in_front p rel =
            All-zip (take n cs)
              (λ x a b.
                rel.others x (omega (arith, b.1, same)) a.0
                ∙ new x (λ z. a.1 (z ∙ (here T g d same cs h m i r) ne)) (omega (arith, b.1, same))
                ∙ old x (omega (arith, b.1, same)))
              apart.0 (All-take _ n cs i.inside)

        at_cut :
            (p : Partition State)
            → Released T (drop (suc n) cs) (record h.vol { table = t }) p
            → g.last_cluster < entry p.table (get_or cs n 0)
        at_cut p rel =
            let b =
              All-get (λ c. (2 ≤ c) × (c ≤ g.last_cluster)) cs n i.inside
                ((number T g d same cs h m i r) ne) in
            omega (
              arith,
              rel.others (get_or cs n 0) (omega (arith, b, same)) apart.1,
              ap (entry t) ((here T g d same cs h m i r) ne),
              end,
              same,
            )
