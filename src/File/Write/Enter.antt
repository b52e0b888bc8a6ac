-- ===== src/File/Write/Enter.antt =====
-- The start of a round of `write`: the current cluster becomes the one of the position, where the
-- chain of the file reaches so far.
use sd_fat.Base.{
  ℕ, ◌+◌, ◌-◌, ◌/◌, ◌%◌, ◌≤◌, ◌<◌, ◌≡◌, inl, inr, refl, sym, ◌∙◌, ap, subst, arith, Bool, true,
  false, ◌&&◌, List, ◌==◌, ltb, if◌then◌else◌, dec_lt, Outcome, Method, done, bind, bind-done,
  done-injective, Bool-cases, u32,
}
use native.Mathlib.Nat.{div-eq_of_lt}
use sd_fat.Base.Lists.{get_or}
use sd_fat.Base.Bits.{and_low}
use sd_fat.Device.{BlockDevice}
use sd_fat.Cache.{FsCache}
use sd_fat.Fat.{Geometry, Link, eoc, next, fat_get}
use sd_fat.Fat.Layout.{IsGeometry}
use sd_fat.Alloc.{FatTable}
use sd_fat.Alloc.Mounted.{mounted_table}
use sd_fat.File.{FatFile, Handle, on_fat, set_file, add_cluster, sector_of_cluster}
use sd_fat.File.Calls.{on_fat-done}
use sd_fat.File.Sectors.{Kept}
use sd_fat.File.Place.{IsLayout, cluster_at, cluster_pos, sector_of_cluster-mod}
use sd_fat.File.Cluster.{IsChain-first}
use sd_fat.File.Follow.{IsFile, Starts, cluster_number, followed, row_step, same_cluster}
use sd_fat.File.Enter.{Entered}
use sd_fat.File.Visible.{cluster_in}
use sd_fat.File.Read.{position_offset}
use sd_fat.File.Write.{write_cluster}
use sd_fat.File.Write.Wrote.{grown, IsReadyToWrite}

module _ (B : BlockDevice) (g : Geometry) (hg : IsGeometry g) where
  open B use {Dev}

  -- The head of a round of the loop.
  abbrev pub entering : Method (Handle (FsCache Dev)) (Unit {0})
  entering h =
      let enter = write_cluster B g hg h in
      if sector_of_cluster g h.file.cur_position == 0 && position_offset B g h.file == 0
      then enter
      else done tt h

module _ (B : BlockDevice) (g : Geometry) (hg : IsGeometry g) (d : IsLayout g) (cs : List ℕ)
    (c0 : FsCache (B.Dev)) where
  open B use {Dev}

  abbrev pub vol_table : FatTable
  vol_table = mounted_table B g hg

  abbrev pub with_cluster : ℕ → Handle (FsCache Dev) → Handle (FsCache Dev)
  with_cluster k h = set_file (λ f. record f { cur_cluster = k }) h

  finish :
      (k : ℕ) (f : FatFile) (r q : Handle (FsCache Dev))
      → ◌≡◌ {A = Outcome (Handle (FsCache Dev)) (Unit {0})} (done tt r) (done tt q)
      → Entered B g hg d cs c0 k f r
      → Entered B g hg d cs c0 k f q
  finish k f r q e en = subst (Entered B g hg d cs c0 k f) (done-injective e).1 en

  module _ (size : ℕ) (h : Handle (FsCache Dev)) (i : IsFile B g hg d cs c0 (grown h.file size))
      (p : IsReadyToWrite g cs h.file size) (lt : h.file.cur_position < size)
      (k : Kept B g hg c0 h.vol.table) where
    abbrev f : FatFile
    f = h.file

    abbrev goal : ℕ
    goal = cluster_at g cs (f.cur_position / 512)

    -- No current cluster means the start of the file.
    pub at_zero : f.cur_cluster ≡ 0 → f.cur_position ≡ 0
    at_zero z = elim (dec_lt 0 f.cur_position) [
      | yes a ↦
          let n =
            cluster_number B g hg d cs c0 (grown f size) (f.cur_position - 1) i (omega arith) in
          let c = cluster_in B g hg d cs c0 ((f.cur_position - 1) / 512) (grown f size) i n in
          absurd (omega (arith, c, p.placed.cluster a))
      | no a ↦ omega arith
    ]

    pub first_at : f.cur_position ≡ 0 → (f.first_cluster ≡ goal) × (2 ≤ f.first_cluster)
    first_at z =
        let n = cluster_number B g hg d cs c0 (grown f size) f.cur_position i lt in
        let c = cluster_in B g hg d cs c0 (f.cur_position / 512) (grown f size) i n in
        let zero_div : 0 ≡ f.cur_position / 512 / g.sectors_per_cluster =
          sym (div-eq_of_lt (cluster_pos g d))
          ∙ ap (λ t. t / g.sectors_per_cluster) {x = 0} {y = f.cur_position / 512} (omega arith) in
        let e : f.first_cluster ≡ goal =
          sym (IsChain-first _ g.last_cluster f.first_cluster cs i.1.chain)
          ∙ ap (λ t. get_or cs t 0) zero_div in
        (e, omega (arith, e, c))

    abbrev pub after : Link → Method (Handle (FsCache Dev)) (Unit {0})
    after l q = elim l [ eoc ↦ add_cluster vol_table g q | next n ↦ done tt (with_cluster n q) ]

    write_cluster-Entered :
        (q : Handle (FsCache Dev))
        → Starts B g hg d cs c0 (grown f size)
        → write_cluster B g hg h ≡ done tt q
        → Entered B g hg d cs c0 goal f q
    write_cluster-Entered q st e = elim (Bool-cases (f.cur_cluster == 0)) [
      | inl z ↦
          let (a, lo) = first_at (at_zero (ground arith)) in
          finish goal f (with_cluster f.first_cluster h) q (start z lo)
            (ap (λ t. record f { cur_cluster = t }) a, k)
      | inr pos ↦
          let some : 0 < f.cur_position = positive pos in
          elim (Bool-cases (f.contiguous && ltb f.cur_position f.file_size)) [
            | inl row ↦
                finish goal f (with_cluster (u32 (f.cur_cluster + 1)) h) q (in_row pos row) (
                  ap (λ t. record f { cur_cluster = t })
                      (row_step B g hg d cs c0 (grown f size) i p.placed lt st some (ground arith)),
                  k,
                )
            | inr chain ↦
                let (l, r, a, b) =
                  bind-done (on_fat (fat_get B g f.cur_cluster) h) after (by_chain pos chain) in
                let (c', z, y) = on_fat-done (fat_get B g f.cur_cluster) h a in
                let (lk, kept) =
                  followed B g hg d cs c0 (grown f size) l h.vol.table c' i p.placed lt some st k
                    z in
                finish goal f (with_cluster goal r) q (subst (λ t. after t r ≡ done tt q) lk b)
                  (rw (sym y) (refl, kept))
          ]
    ]
      where
        positive : (f.cur_cluster == 0) ≡ false → 0 < f.cur_position
        positive pos = ground (arith, p.at_start)

        start :
            (f.cur_cluster == 0) ≡ true
            → 2 ≤ f.first_cluster
            → ◌≡◌ {A = Outcome (Handle (FsCache Dev)) (Unit {0})}
                (done tt (with_cluster f.first_cluster h))
                (done tt q)
        start z lo = unfold write_cluster in ground arith

        in_row :
            (f.cur_cluster == 0) ≡ false
            → (f.contiguous && ltb f.cur_position f.file_size) ≡ true
            → ◌≡◌ {A = Outcome (Handle (FsCache Dev)) (Unit {0})}
                (done tt (with_cluster (u32 (f.cur_cluster + 1)) h))
                (done tt q)
        in_row z r = unfold write_cluster in ground arith

        by_chain :
            (f.cur_cluster == 0) ≡ false
            → (f.contiguous && ltb f.cur_position f.file_size) ≡ false
            → bind (on_fat (fat_get B g f.cur_cluster) h) after ≡ done tt q
        by_chain z r = unfold write_cluster in ground arith

    pub entering-Entered :
        (q : Handle (FsCache Dev)) → entering B g hg h ≡ done tt q → Entered B g hg d cs c0 goal f q
    entering-Entered q e = elim (Bool-cases starts) [
      | inl y ↦ write_cluster-Entered q (ground (arith, a, b)) (ground arith)
      | inr n ↦ finish goal f h q (ground arith) (
        ap (λ t. record f { cur_cluster = t })
            (same_cluster B g hg d cs c0 (grown f size) p.placed (λ st. ground (arith, a, b))),
        k,
      )
    ]
      where
        starts : Bool
        starts = sector_of_cluster g f.cur_position == 0 && position_offset B g f == 0

        a : position_offset B g f ≡ f.cur_position % 512
        a = and_low 9 f.cur_position

        b : sector_of_cluster g f.cur_position ≡ f.cur_position / 512 % g.sectors_per_cluster
        b = sector_of_cluster-mod g d f.cur_position
