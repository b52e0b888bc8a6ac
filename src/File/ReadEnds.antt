-- ===== src/File/ReadEnds.antt =====
-- `read` of a regular file returns: each round moves at least one byte.
use sd_fat.Base.{
  ℕ, zero, suc, ◌+◌, ◌-◌, ◌≤◌, ◌≢◌, inl, inr, refl, sym, subst, arith, Bool, true, false, List,
  ◌==◌, if◌then◌else◌, Outcome, Method, done, fail, stuck, bind, bind-ne-stuck, Bool-cases,
}
use sd_fat.Endian.{Bytes}
use sd_fat.Device.{BlockDevice}
use sd_fat.Cache.{FsCache, for_read, prepare, cache_safe_read, cache_safe_read_range}
use sd_fat.Cache.Ends.{prepare-ne-stuck, cache_safe_read-ne-stuck, cache_safe_read_range-ne-stuck}
use sd_fat.Fat.{Geometry, Link, eoc, next, fat_get}
use sd_fat.Fat.Ends.{fat_get-ne-stuck}
use sd_fat.Fat.Layout.{IsGeometry}
use sd_fat.Alloc.Ends.{on_table-ne-stuck}
use sd_fat.File.{is_dir, Handle, on_fat, set_file, on_failure}
use sd_fat.File.Sectors.{Kept}
use sd_fat.File.Place.{IsLayout, IsPlaced}
use sd_fat.File.Enter.{enter_cluster-Entered}
use sd_fat.File.Follow.{IsFile}
use sd_fat.File.Content.{moved_on, rest, round-Moved, begins-IsFile, begins-IsPlaced, begins-fit}
use sd_fat.File.Read.{
  next_cluster, enter_cluster, read_part, read_many, read_one, read_sectors, read_rounds,
  read_limit, read_private, sectors_at,
}

pub on_fat-ne-stuck :
    {S A : Type 0} (m : Method S A) (h : Handle S) → m h.vol.table ≢ stuck → on_fat m h ≢ stuck
on_fat-ne-stuck m h n = ground (arith, on_table-ne-stuck m h.vol n)

pub done-ne-stuck : {S A : Type 0} (a : A) (s : S) → ◌≢◌ {A = Outcome S A} (done a s) stuck
done-ne-stuck a s e = cc

pub on_failure-ends :
    {S A : Type 0} (f : S → S) (o : Outcome S A) → o ≢ stuck → on_failure f o ≢ stuck
on_failure-ends f (done a s) n e = absurd (cc)
on_failure-ends f (fail s) n e = absurd (cc)
on_failure-ends f stuck n e = n refl

module _ (B : BlockDevice) (g : Geometry) where
  open B use {Dev}

  next_cluster-ends : (h : Handle (FsCache Dev)) → next_cluster B g h ≢ stuck
  unfolding next_cluster
  next_cluster-ends h = ground (
    arith,
    bind-ne-stuck (on_fat (fat_get B g h.file.cur_cluster) h) after
        (on_fat-ne-stuck (fat_get B g h.file.cur_cluster) h
          (fat_get-ne-stuck B g h.file.cur_cluster h.vol.table))
        (λ l q _. after-ends l q),
  )
    where
      after : Link → Handle (FsCache Dev) → Outcome (Handle (FsCache Dev)) Bool
      after l q = elim l [
        | eoc ↦ if is_dir h.file.kind then done false q else fail q
        | next k ↦ done true (set_file (λ f. record f { cur_cluster = k }) q)
      ]

      after-ends : (l : Link) (q : Handle (FsCache Dev)) → after l q ≢ stuck
      after-ends eoc q = ground arith
      after-ends (next k) q = done-ne-stuck true _

  enter_cluster-ends : (h : Handle (FsCache Dev)) → enter_cluster B g h ≢ stuck
  unfolding enter_cluster
  enter_cluster-ends h = ground (arith, next_cluster-ends h)

  read_part-ends :
      (dst : Bytes) (at to_read : ℕ) (h : Handle (FsCache Dev))
      → read_part B g dst at to_read h ≢ stuck
  unfolding read_part
  read_part-ends dst at to_read h =
      bind-ne-stuck (on_fat (prepare B _ for_read) h) _
        (on_fat-ne-stuck (prepare B _ for_read) h (prepare-ne-stuck B _ for_read h.vol.table))
        (λ _ _ _. done-ne-stuck _ _)

  read_many-ends :
      (dst : Bytes) (at to_read : ℕ) (h : Handle (FsCache Dev))
      → read_many B g dst at to_read h ≢ stuck
  unfolding read_many
  read_many-ends dst at to_read h =
      bind-ne-stuck (on_fat (cache_safe_read_range B _ _ (sectors_at dst at)) h) _
        (on_fat-ne-stuck (cache_safe_read_range B _ _ _) h
          (cache_safe_read_range-ne-stuck B _ _ (sectors_at dst at) h.vol.table))
        (λ _ _ _. done-ne-stuck _ _)

  read_one-ends : (dst : Bytes) (at : ℕ) (h : Handle (FsCache Dev)) → read_one B g dst at h ≢ stuck
  unfolding read_one
  read_one-ends dst at h =
      bind-ne-stuck (on_fat (cache_safe_read B _ (sectors_at dst at 0)) h) _
        (on_fat-ne-stuck (cache_safe_read B _ _) h
          (cache_safe_read-ne-stuck B _ (sectors_at dst at 0) h.vol.table))
        (λ _ _ _. done-ne-stuck _ _)

  read_sectors-ends :
      (dst : Bytes) (at to_read : ℕ) (h : Handle (FsCache Dev))
      → read_sectors B g dst at to_read h ≢ stuck
  unfolding read_sectors
  read_sectors-ends dst at to_read h = ground (
    arith,
    read_part-ends dst at to_read h,
    read_many-ends dst at to_read h,
    read_one-ends dst at h,
  )

module _ (B : BlockDevice) (g : Geometry) (hg : IsGeometry g) (d : IsLayout g) (cs : List ℕ)
    (c0 : FsCache (B.Dev)) where
  open B use {Dev}

  read_rounds-ends :
      (fuel : ℕ) (dst : Bytes) (at to_read : ℕ) (h : Handle (FsCache Dev))
      → IsFile B g hg d cs c0 h.file
      → IsPlaced g cs h.file
      → Kept B g hg c0 h.vol.table
      → h.file.cur_position + to_read ≤ h.file.file_size
      → to_read ≤ fuel
      → read_rounds B g fuel dst at to_read h ≢ stuck
  unfolding read_rounds
  read_rounds-ends zero dst at to_read h i pl k fit le = ground arith
  read_rounds-ends (suc fuel) dst at to_read h i pl k fit le = elim (Bool-cases (to_read == 0)) [
    | inl z ↦ ground arith
    | inr z ↦
        let more_rounds =
          bind-ne-stuck (enter_cluster B g h) (rest B g hg d cs c0 fuel dst at to_read)
            (enter_cluster-ends B g h)
            (λ more q x.
              let (em, en) =
                enter_cluster-Entered B g hg d cs c0 h q more i pl (ground arith) k x in
              subst (λ t. rest B g hg d cs c0 fuel dst at to_read t q ≢ stuck) (sym em)
                (bind-ne-stuck (read_sectors B g dst at to_read q) _
                  (read_sectors-ends B g dst at to_read q)
                  (λ r p v.
                    let m =
                      round-Moved B g hg d cs c0 dst at to_read h q i (ground arith) en
                        (ground arith) v in
                    read_rounds-ends fuel r.0 (at + r.1) (to_read - r.1)
                      (moved_on B g hg d cs c0 r.1 p)
                      (begins-IsFile B g hg d cs c0 h q p dst r.0 at to_read r.1 en m fit i.1.small
                        i)
                      (begins-IsPlaced B g hg d cs c0 h q p dst r.0 at to_read r.1 en m fit
                        i.1.small)
                      m.kept
                      (begins-fit B g hg d cs c0 h q p dst r.0 at to_read r.1 en m fit i.1.small)
                      (omega (arith, m.some_bytes))))) in
        ground (arith, more_rounds)
  ]

  -- `read` of a regular file returns, on a mounted FAT volume whose layout is sound, when the
  -- clusters of the file are a chain that holds it and the current cluster is that of the byte
  -- before the position.
  pub read_private-ends :
      (dst : Bytes) (nbyte : ℕ) (h : Handle (FsCache Dev))
      → IsFile B g hg d cs c0 h.file
      → IsPlaced g cs h.file
      → Kept B g hg c0 h.vol.table
      → read_private B g dst nbyte h ≢ stuck
  unfolding read_private
  read_private-ends dst nbyte h i pl k =
      on_failure-ends read_failed (if h.file.readable then called else fail h)
        (ground (arith, called-ends))
    where
      limit : ℕ
      limit = read_limit B g h.file nbyte

      read_failed : Handle (FsCache Dev) → Handle (FsCache Dev)
      read_failed = set_file (λ f. record f { read_error = true })

      report : Bytes × ℕ → Method (Handle (FsCache Dev)) (Bytes × ℕ)
      report r q = done (r.0, limit - r.1) q

      called : Outcome (Handle (FsCache Dev)) (Bytes × ℕ)
      called = bind (read_rounds B g limit dst 0 limit h) report

      called-ends : called ≢ stuck
      called-ends =
          bind-ne-stuck (read_rounds B g limit dst 0 limit h) report
            (read_rounds-ends limit dst 0 limit h i pl k (ground (arith, i.0, i.1.small, pl.inside))
              (omega arith))
            (λ r q _. done-ne-stuck (r.0, limit - r.1) q)
