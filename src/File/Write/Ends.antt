-- ===== src/File/Write/Ends.antt =====
-- `write` within the clusters that a file has returns: each round stores at least one byte.
use sd_fat.Base.{
  ℕ, zero, suc, ◌+◌, ◌-◌, ◌*◌, ◌^◌, ◌≤◌, ◌<◌, ◌≡◌, ◌≢◌, inl, inr, refl, sym, ap, subst, arith, Bool,
  true, false, not, List, ◌==◌, ltb, if◌then◌else◌, Outcome, Method, done, fail, stuck, bind,
  bind-ne-stuck, Bool-cases, sub32,
}
use sd_fat.Base.Lists.{length}
use sd_fat.Base.Bits.{and_low}
use sd_fat.Endian.{Bytes}
use sd_fat.Endian.Laws.{IsBytes}
use sd_fat.Device.{BlockDevice}
use sd_fat.Cache.{FsCache, prepare, sync, cache_safe_write, cache_safe_write_range}
use sd_fat.Cache.Ends.{
  sync-ne-stuck, prepare-ne-stuck, cache_safe_write-ne-stuck, cache_safe_write_range-ne-stuck,
}
use sd_fat.Fat.{Geometry, Link, fat_get}
use sd_fat.Fat.Ends.{fat_get-ne-stuck}
use sd_fat.Fat.Layout.{IsGeometry}
use sd_fat.Fat.Window.{IsMounted}
use sd_fat.Alloc.Mounted.{mounted_table}
use sd_fat.File.{FatFile, Handle, on_fat, set_file, sector_of_cluster}
use sd_fat.File.Calls.{on_fat-done}
use sd_fat.File.Place.{IsLayout, sector_of_cluster-mod}
use sd_fat.File.Follow.{IsFile, Starts, followed}
use sd_fat.File.Read.{memcpy, min_size, position_offset, sectors_at}
use sd_fat.File.ReadEnds.{on_fat-ne-stuck, done-ne-stuck, on_failure-ends}
use sd_fat.File.SeekEnds.{seek_set_failed}
use sd_fat.File.Entry.{Clock, on_buffer}
use sd_fat.File.Write.{
  write_cluster, write_part, write_many, write_one, write_sectors, write_rounds, written, write,
}
use sd_fat.File.Write.Wrote.{grown, IsReadyToWrite}
use sd_fat.File.Write.Enter.{entering, entering-Entered, first_at, at_zero, after}
use sd_fat.File.Write.Step.{rest, moved_on, begins-IsFile, begins-ready, begins-fit, round-Wrote}
use sd_fat.File.Write.Content.{round-Advanced}
use sd_fat.File.Write.Start.{
  write_start, size_after, Positioned, position, position-Positioned, grown_at, ready_at, enough,
}

module _ (B : BlockDevice) (g : Geometry) (hg : IsGeometry g) where
  open B use {Dev}

  write_part-ends :
      (src : Bytes) (at to_write : ℕ) (h : Handle (FsCache Dev))
      → write_part B g hg src at to_write h ≢ stuck
  unfolding write_part
  write_part-ends src at to_write h =
      bind-ne-stuck (on_fat (prepare B _ _) h) _
        (on_fat-ne-stuck (prepare B _ _) h (prepare-ne-stuck B _ _ h.vol.table))
        (λ _ q _. ground (arith, flushed (on_buffer B (λ b. memcpy b offset src at count) q) count))
    where
      offset : ℕ
      offset = position_offset B g h.file

      count : ℕ
      count = min_size to_write (512 - offset)

      flushed : (p : Handle (FsCache Dev)) (n : ℕ) → bind (on_fat (sync B) p) (λ _. done n) ≢ stuck
      flushed p n =
          bind-ne-stuck (on_fat (sync B) p) (λ _. done n)
            (on_fat-ne-stuck (sync B) p (sync-ne-stuck B p.vol.table)) (λ _ q _. done-ne-stuck n q)

  write_many-ends :
      (src : Bytes) (at to_write : ℕ) (h : Handle (FsCache Dev))
      → write_many B g hg src at to_write h ≢ stuck
  unfolding write_many
  write_many-ends src at to_write h =
      bind-ne-stuck (on_fat (cache_safe_write_range B _ _ (sectors_at src at)) h) _
        (on_fat-ne-stuck (cache_safe_write_range B _ _ _) h
          (cache_safe_write_range-ne-stuck B _ _ (sectors_at src at) h.vol.table))
        (λ _ q _. done-ne-stuck _ q)

  write_one-ends :
      (src : Bytes) (at : ℕ) (h : Handle (FsCache Dev)) → write_one B g hg src at h ≢ stuck
  unfolding write_one
  write_one-ends src at h =
      bind-ne-stuck (on_fat (cache_safe_write B _ (sectors_at src at 0)) h) _
        (on_fat-ne-stuck (cache_safe_write B _ _) h
          (cache_safe_write-ne-stuck B _ (sectors_at src at 0) h.vol.table))
        (λ _ q _. done-ne-stuck _ q)

  pub write_sectors-ends :
      (src : Bytes) (at to_write : ℕ) (h : Handle (FsCache Dev))
      → write_sectors B g hg src at to_write h ≢ stuck
  unfolding write_sectors
  write_sectors-ends src at to_write h = ground (
    arith,
    write_part-ends src at to_write h,
    write_many-ends src at to_write h,
    write_one-ends src at h,
  )

module _ (B : BlockDevice) (g : Geometry) (hg : IsGeometry g) (d : IsLayout g) (cs : List ℕ) where
  open B use {Dev}

  module _ (size : ℕ) (h : Handle (FsCache Dev))
      (i : IsFile B g hg d cs h.vol.table (grown h.file size)) (r : IsReadyToWrite g cs h.file size)
      (lt : h.file.cur_position < size) (m : IsMounted B g h.vol.table) where
    write_cluster-ends :
        Starts B g hg d cs h.vol.table (grown h.file size) → write_cluster B g hg h ≢ stuck
    unfolding write_cluster
    write_cluster-ends st = elim (Bool-cases (h.file.cur_cluster == 0)) [
      | inl z ↦
          let (_, lo) =
            first_at B g hg d cs h.vol.table size h i r lt (m, λ t v. refl)
              (at_zero B g hg d cs h.vol.table size h i r lt (m, λ t v. refl) (ground arith)) in
          ground arith
      | inr pos ↦
          let some : 0 < h.file.cur_position = positive pos in
          let on =
            bind-ne-stuck (on_fat (fat_get B g h.file.cur_cluster) h) leads
              (on_fat-ne-stuck (fat_get B g h.file.cur_cluster) h
                (fat_get-ne-stuck B g h.file.cur_cluster h.vol.table))
              (λ l q e.
                let (c, z, _) = on_fat-done (fat_get B g h.file.cur_cluster) h e in
                let (lk, _) =
                  followed B g hg d cs h.vol.table (grown h.file size) l h.vol.table c i r.placed lt
                    some st (m, λ t v. refl) z in
                subst (λ l. leads l q ≢ stuck) (sym lk) (done-ne-stuck tt _)) in
          ground (arith, on)
    ]
      where
        positive : (h.file.cur_cluster == 0) ≡ false → 0 < h.file.cur_position
        positive pos = ground (arith, r.at_start)

        leads : Link → Method (Handle (FsCache Dev)) (Unit {0})
        leads = after B g hg d cs h.vol.table size h i r lt (m, λ t v. refl)

    entering-ends : entering B g hg h ≢ stuck
    entering-ends = ground (
      arith,
      λ (a : position_offset B g h.file ≡ 0) (b : sector_of_cluster g h.file.cur_position ≡ 0).
          write_cluster-ends (
            omega (arith, a, and_low 9 h.file.cur_position),
            omega (arith, b, sector_of_cluster-mod g d h.file.cur_position),
          ),
    )

  write_rounds-ends :
      (fuel size : ℕ) (src : Bytes) (at to_write : ℕ) (h : Handle (FsCache Dev))
      → IsFile B g hg d cs h.vol.table (grown h.file size)
      → IsReadyToWrite g cs h.file size
      → IsMounted B g h.vol.table
      → h.file.cur_position + to_write ≤ size
      → IsBytes src
      → to_write ≤ fuel
      → write_rounds B g hg fuel src at to_write h ≢ stuck
  unfolding write_rounds
  write_rounds-ends zero size src at to_write h i r m fit bytes le = ground arith
  write_rounds-ends (suc fuel) size src at to_write h i r m fit bytes le =
      elim (Bool-cases (to_write == 0)) [
        | inl z ↦ ground arith
        | inr z ↦
            let more_rounds =
              bind-ne-stuck (entering B g hg h) (rest B g hg d cs fuel src at to_write)
                (entering-ends size h i r (ground arith) m)
                (λ _ q x.
                  let en =
                    entering-Entered B g hg d cs h.vol.table size h i r (ground arith)
                      (m, λ t v. refl) q x in
                  bind-ne-stuck (write_sectors B g hg src at to_write q) _
                    (write_sectors-ends B g hg src at to_write q)
                    (λ n p v.
                      let a =
                        round-Advanced B g hg d cs size src at to_write h q i fit en (ground arith)
                          bytes v in
                      write_rounds-ends fuel size src (at + n) (to_write - n)
                        (moved_on B g hg d cs n p)
                        (begins-IsFile B g hg d cs size src at to_write h q p n i fit en a)
                        (begins-ready B g hg d cs size src at to_write h q p n i fit en a)
                        (round-Wrote B g hg d cs size src at to_write h q p n i fit en a).mounted
                        (begins-fit B g hg d cs size src at to_write h q p n i fit en a) bytes
                        (omega (arith, a.some_bytes)))) in
            ground (arith, more_rounds)
      ]

  -- On a mounted FAT volume whose layout is sound, with a regular file whose clusters are a chain
  -- that holds it and whose current cluster is that of the byte before the position (and none at
  -- the start), `write` of bytes that the clusters of the file have room for returns.
  pub write-ends :
      (clock : Clock) (src : Bytes) (nbyte : ℕ) (h : Handle (FsCache Dev))
      → IsFile B g hg d cs h.vol.table h.file
      → IsReadyToWrite g cs h.file h.file.file_size
      → IsMounted B g h.vol.table
      → IsBytes src
      → write_start h.file + nbyte ≤ length cs * (512 * g.sectors_per_cluster)
      → write B g hg clock src nbyte h ≢ stuck
  unfolding write
  write-ends clock src nbyte h i r m bytes room =
      on_failure-ends failed (if not h.file.writable then fail h else called)
        (ground (arith, called-ends))
    where
      failed : Handle (FsCache Dev) → Handle (FsCache Dev)
      failed = set_file (λ f. record f { write_error = true })

      finish : Unit {0} → Handle (FsCache Dev) → Outcome (Handle (FsCache Dev)) ℕ
      finish _ p = done nbyte (set_file (written B g hg clock) p)

      all : Handle (FsCache Dev) → Outcome (Handle (FsCache Dev)) ℕ
      all q = bind (write_rounds B g hg nbyte src 0 nbyte q) finish

      too_long : Handle (FsCache Dev) → Bool
      too_long q = ltb (sub32 0xFFFFFFFF q.file.cur_position) nbyte

      store_all : Unit {0} → Handle (FsCache Dev) → Outcome (Handle (FsCache Dev)) ℕ
      store_all _ q = if too_long q then fail q else all q

      called : Outcome (Handle (FsCache Dev)) ℕ
      called = bind (position B g hg d cs h) store_all

      small :
          (q : Handle (FsCache Dev))
          → Positioned B g hg d cs h q
          → too_long q ≡ false
          → write_start h.file + nbyte < 2 ^ 32
      small q s y =
          ground
            (arith, ap (λ (f : FatFile). f.cur_position) s.same_file, i.1.small, r.placed.inside)

      all-ends :
          (q : Handle (FsCache Dev))
          → Positioned B g hg d cs h q
          → too_long q ≡ false
          → all q ≢ stuck
      all-ends q s y =
          let lt = small q s y in
          bind-ne-stuck (write_rounds B g hg nbyte src 0 nbyte q) finish
            (write_rounds-ends nbyte (size_after h.file nbyte) src 0 nbyte q
              (grown_at B g hg d cs nbyte h q i room lt s)
              (ready_at B g hg d cs nbyte h q i room lt s) s.kept.0
              (enough B g hg d cs nbyte h q i room lt s) bytes (omega arith))
            (λ _ q _. done-ne-stuck nbyte _)

      position-ends : position B g hg d cs h ≢ stuck
      position-ends =
          ground (arith, (seek_set_failed (mounted_table B g hg) g h.file.file_size h).0)

      called-ends : called ≢ stuck
      called-ends = bind-ne-stuck (position B g hg d cs h) store_all position-ends (λ _ q x.
          let s = position-Positioned B g hg d cs h i r m x in ground (arith, all-ends q s))
