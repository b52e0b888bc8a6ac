-- ===== src/File/Truncated.antt =====
-- `truncate` up to its call of `sync`.
use sd_fat.Base.{
  ℕ, ◌≡◌, ◌≢◌, inl, inr, sym, ◌∙◌, subst, arith, true, false, List, Outcome, done, bind, bind-done,
  done-injective, Bool-cases, ◌==◌, ==→eq,
}
use sd_fat.Fat.{eoc_mark, Geometry, Link, eoc, next}
use sd_fat.Alloc.{FatTable, fat_put_eoc}
use sd_fat.File.{Handle, on_fat, set_file}
use sd_fat.File.Calls.{on_fat-done}
use sd_fat.File.Place.{IsLayout, IsStored}
use sd_fat.File.Chains.{cut_chain, release_rest}
use sd_fat.File.Write.Wrote.{IsReadyToWrite}
use sd_fat.File.Truncate.{Truncated, release, all_freed}
use sd_fat.File.TruncateRest.{none_freed, rest_freed}

module _ (T : FatTable) (g : Geometry) (d : IsLayout g) (same : T.last_cluster ≡ g.last_cluster)
    (cs : List ℕ) where
  open T use {State, last_cluster, get, put, IsReady, entry, get_ok, put_ok, mark_fits}

  -- On a table that is ready and a volume whose layout is sound, with a regular file whose
  -- clusters are a chain that holds it and whose current cluster is that of the byte before the
  -- position (and none at the start), the part of `truncate` that cuts the chain, if it succeeds,
  -- makes the position the size of the file and leaves it, at a position behind the start, the
  -- front of its clusters that holds that size as a chain (at the start it has no cluster); the
  -- clusters behind them are free, the entry of every cluster that is not of the file is as
  -- before, and the free count is larger by the number of clusters that were freed (an unknown
  -- one stays unknown).
  pub release_rest-Truncated :
      (h : Handle State) {q : Handle State}
      → IsReady h.vol.table
      → IsStored g (entry h.vol.table) cs h.file
      → IsReadyToWrite g cs h.file h.file.file_size
      → release_rest T g h ≡ done tt q
      → Truncated T g d same cs h q
  release_rest-Truncated h {q} m i r e = elim (Bool-cases (h.file.cur_cluster == 0)) [
    | inl z ↦ all_freed T g d same cs h m i r q (==→eq h.file.cur_cluster 0 z) (at_start z)
    | inr ne ↦
        let (c, q1, x, y) = bind-done cut (release T g d same cs h m i r) (behind ne) in
        cut_done (ground arith) c q1 x y
  ]
    where
      after : Link → Handle State → Outcome (Handle State) ℕ
      after l q = elim l [
        | eoc ↦ done 0 q
        | next d ↦ bind (on_fat (fat_put_eoc T h.file.cur_cluster) q) (λ _. done d)
      ]

      cut : Outcome (Handle State) ℕ
      cut = bind (on_fat (get h.file.cur_cluster) h) after

      at_start :
          (h.file.cur_cluster == 0) ≡ true
          → release T g d same cs h m i r h.file.first_cluster
              (set_file (λ f. record f { first_cluster = 0 }) h)
            ≡ done tt q
      at_start z = unfold release_rest cut_chain in ground arith

      behind :
          (h.file.cur_cluster == 0) ≡ false → bind cut (release T g d same cs h m i r) ≡ done tt q
      behind z = unfold release_rest cut_chain in ground arith

      -- The same call under other names.
      released :
          {c c1 : ℕ} {q1 q2 : Handle State}
          → c ≡ c1
          → q1 ≡ q2
          → release T g d same cs h m i r c1 q2 ≡ done tt q
          → release T g d same cs h m i r c q1 ≡ done tt q
      released {c} {c1} {q1} {q2} ec eq y =
          subst (λ x. release T g d same cs h m i r x q1 ≡ done tt q) (sym ec)
            (subst (λ x. release T g d same cs h m i r c1 x ≡ done tt q) (sym eq) y)

      -- What the cut leaves, by the link of the current cluster.
      by_link :
          (l : Link) (s : State) (c : ℕ) (q1 : Handle State)
          → h.file.cur_cluster ≢ 0
          → get h.file.cur_cluster h.vol.table ≡ done l s
          → after l (record h { vol = record h.vol { table = s } }) ≡ done c q1
          → release T g d same cs h m i r c q1 ≡ done tt q
          → Truncated T g d same cs h q
      by_link eoc s c q1 ne z b y =
          let (lo, hi, link, ready, old) = get_ok h.file.cur_cluster m z in
          let (ec, eq) = done-injective b in
          none_freed T g d same cs h m i r s q ne (ground (arith, link)) ready old
            (released ec eq y)
      by_link (next k) s c q1 ne z b y =
          let (lo, hi, link, ready, old) = get_ok h.file.cur_cluster m z in
          let (_, q2, a, w) =
            bind-done
              (on_fat (fat_put_eoc T h.file.cur_cluster)
                (record h { vol = record h.vol { table = s } }))
              (λ _. done k) b in
          let (t, u, v) =
            on_fat-done (fat_put_eoc T h.file.cur_cluster)
              (record h { vol = record h.vol { table = s } }) a in
          let (_, _, stored, ready', new) = put_ok h.file.cur_cluster eoc_mark ready u in
          let (ec, eq) = done-injective w in
          rest_freed T g d same cs h m i r k s t q ne (ground (arith, link)) (ground (arith, link))
            old (omega (arith, stored, mark_fits)) ready' new (released ec (v ∙ eq) y)

      cut_done :
          h.file.cur_cluster ≢ 0
          → (c : ℕ) (q1 : Handle State) → cut ≡ done c q1
          → release T g d same cs h m i r c q1 ≡ done tt q
          → Truncated T g d same cs h q
      cut_done ne c q1 x y =
          let (l, q2, a, b) = bind-done (on_fat (get h.file.cur_cluster) h) after x in
          let (s, z, v) = on_fat-done (get h.file.cur_cluster) h a in
          by_link l s c q1 ne z (rw v b) y
