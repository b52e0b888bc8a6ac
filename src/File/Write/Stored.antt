-- ===== src/File/Write/Stored.antt =====
-- `write` of a regular file whose clusters have room.
use sd_fat.Base.{
  ℕ, ◌+◌, ◌*◌, ◌^◌, ◌≤◌, ◌<◌, ◌≡◌, sym, ap, subst, arith, true, not, List, ltb, if◌then◌else◌,
  Outcome, done, fail, bind, bind-done, done-injective, sub32,
}
use sd_fat.Base.Lists.{length}
use sd_fat.Endian.{Bytes}
use sd_fat.Endian.Laws.{IsBytes}
use sd_fat.Device.{BlockDevice}
use sd_fat.Cache.{FsCache}
use sd_fat.Fat.{Geometry}
use sd_fat.Fat.Layout.{IsGeometry}
use sd_fat.Fat.Window.{IsMounted}
use sd_fat.File.{FatFile, Handle, set_file, on_failure}
use sd_fat.File.Place.{IsLayout}
use sd_fat.File.Follow.{IsFile}
use sd_fat.File.Entry.{Clock}
use sd_fat.File.Content.{on_failure-done}
use sd_fat.File.Write.{write_rounds, written, write}
use sd_fat.File.Write.Wrote.{IsReadyToWrite}
use sd_fat.File.Write.Content.{write_rounds-HasWritten}
use sd_fat.File.Write.Start.{
  write_start, size_after, Positioned, position, position-Positioned, grown_file, grown_at,
  ready_at, enough,
}
use sd_fat.File.Write.Stores.{Stores, HasWritten-Stores}

module _ (B : BlockDevice) (g : Geometry) (hg : IsGeometry g) (d : IsLayout g) (cs : List ℕ) where
  open B use {Dev}

  -- On a mounted FAT volume whose layout is sound, with a regular file whose clusters are a chain
  -- that holds it and whose current cluster is that of the byte before the position (and none at
  -- the start), `write` of bytes that the clusters of the file have room for, if it succeeds,
  -- returns the number asked for; those bytes are the bytes of the file from where `write` began
  -- on, and the position is behind them; the other bytes of the file (those behind the new ones
  -- only if the file is not marked as preallocated) and all sectors that a client sees and that
  -- are not of its clusters are as before; the size has grown to the position if that is larger,
  -- the entry is marked for `sync` if the size has grown or there is a clock, and the file still
  -- has its clusters, with the current one that of the byte before the position.
  pub write-Stores :
      (clock : Clock) (src : Bytes) (nbyte : ℕ) (h : Handle (FsCache Dev)) {n : ℕ}
      {p : Handle (FsCache Dev)}
      → IsFile B g hg d cs h.vol.table h.file
      → IsReadyToWrite g cs h.file h.file.file_size
      → IsMounted B g h.vol.table
      → IsBytes src
      → write_start h.file + nbyte ≤ length cs * (512 * g.sectors_per_cluster)
      → write B g hg clock src nbyte h ≡ done n p
      → (n ≡ nbyte) × Stores B g hg d cs clock src nbyte h p
  write-Stores clock src nbyte h {n} {p} i r m bytes room e =
      let (_, q, x, y) = bind-done (position B g hg d cs h) after called in
      let s = position-Positioned B g hg d cs h i r m x in
      let (_, p0, z, v) = bind-done (write_rounds B g hg nbyte src 0 nbyte q) finish (fits q y) in
      let (en, ep) = done-injective v in
      let lt = small q s y in
      let w =
        write_rounds-HasWritten B g hg d cs nbyte (size_after h.file nbyte) src 0 nbyte q
          (grown_at B g hg d cs nbyte h q i room lt s) (ready_at B g hg d cs nbyte h q i room lt s)
          s.kept.0 (enough B g hg d cs nbyte h q i room lt s) bytes z in
      (
        sym en,
        subst (Stores B g hg d cs clock src nbyte h) ep (
            HasWritten-Stores B g hg d cs clock src nbyte h q p0 i
              (grown_file B g hg d cs nbyte h q i room lt s) s w),
      )
    where
      finish : Unit {0} → Handle (FsCache Dev) → Outcome (Handle (FsCache Dev)) ℕ
      finish _ p = done nbyte (set_file (written B g hg clock) p)

      after : Unit {0} → Handle (FsCache Dev) → Outcome (Handle (FsCache Dev)) ℕ
      after _ q =
          let all = bind (write_rounds B g hg nbyte src 0 nbyte q) finish in
          if ltb (sub32 0xFFFFFFFF q.file.cur_position) nbyte then fail q else all

      fits :
          (q : Handle (FsCache Dev))
          → after tt q ≡ done n p
          → bind (write_rounds B g hg nbyte src 0 nbyte q) finish ≡ done n p
      fits q y = ground arith

      small :
          (q : Handle (FsCache Dev))
          → Positioned B g hg d cs h q
          → after tt q ≡ done n p
          → write_start h.file + nbyte < 2 ^ 32
      small q s y =
          ground
            (arith, ap (λ (f : FatFile). f.cur_position) s.same_file, i.1.small, r.placed.inside)

      body : Outcome (Handle (FsCache Dev)) ℕ
      body = if not h.file.writable then fail h else bind (position B g hg d cs h) after

      outer : on_failure (set_file (λ f. record f { write_error = true })) body ≡ done n p
      outer = unfold write in e

      called : bind (position B g hg d cs h) after ≡ done n p
      called =
          ground
            (arith, on_failure-done (set_file (λ f. record f { write_error = true })) body outer)
