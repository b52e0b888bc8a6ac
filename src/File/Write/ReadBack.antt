-- ===== src/File/Write/ReadBack.antt =====
-- `write`, `seekSet` back, and `read`.
use sd_fat.Base.{ℕ, ◌+◌, ◌*◌, ◌≤◌, ◌<◌, ◌≡◌, ◌∙◌, refl, arith, List, done}
use sd_fat.Base.Lists.{length}
use sd_fat.Endian.{Bytes}
use sd_fat.Endian.Laws.{IsBytes}
use sd_fat.Device.{BlockDevice}
use sd_fat.Cache.{FsCache}
use sd_fat.Fat.{Geometry}
use sd_fat.Fat.Layout.{IsGeometry}
use sd_fat.Fat.Window.{IsMounted}
use sd_fat.Alloc.Mounted.{mounted_table}
use sd_fat.File.{Handle, seek_set}
use sd_fat.File.Place.{IsLayout}
use sd_fat.File.Follow.{IsFile}
use sd_fat.File.SeekRead.{read_sought}
use sd_fat.File.Read.{read_private}
use sd_fat.File.Entry.{Clock}
use sd_fat.File.Write.{write}
use sd_fat.File.Write.Wrote.{IsReadyToWrite}
use sd_fat.File.Write.Start.{write_start}
use sd_fat.File.Write.Stores.{Stores-file_size}
use sd_fat.File.Write.Stored.{write-Stores}

module _ (B : BlockDevice) (g : Geometry) (hg : IsGeometry g) (d : IsLayout g) (cs : List ℕ) where
  open B use {Dev}

  -- On a mounted FAT volume whose layout is sound, with a regular file whose clusters are a chain
  -- that holds it and whose current cluster is that of the byte before the position (and none at
  -- the start), `write` of bytes that the clusters of the file have room for, if it succeeds,
  -- returns the number asked for; when `seekSet` back to where it began (the end of the file if
  -- it appends, else the position) and `read` of as many bytes succeed too, they return that
  -- number and the bytes that were written.
  pub write_read :
      (clock : Clock) (src dst : Bytes) (nbyte : ℕ) (h : Handle (FsCache Dev)) {n m : ℕ}
      {p q r : Handle (FsCache Dev)} {b : Bytes}
      → IsFile B g hg d cs h.vol.table h.file
      → IsReadyToWrite g cs h.file h.file.file_size
      → IsMounted B g h.vol.table
      → IsBytes src
      → write_start h.file + nbyte ≤ length cs * (512 * g.sectors_per_cluster)
      → write B g hg clock src nbyte h ≡ done n p
      → seek_set (mounted_table B g hg) g (write_start h.file) p ≡ done tt q
      → read_private B g dst nbyte q ≡ done (b, m) r
      → (n ≡ nbyte) × (m ≡ nbyte) × ((j : ℕ) → j < nbyte → b j ≡ src j)
  write_read clock src dst nbyte h {n} {m} {p} {q} {r} {b} i ready mounted bytes room w s e =
      let (en, st) = write-Stores B g hg d cs clock src nbyte h i ready mounted bytes room w in
      let (em, same) =
        read_sought B g hg p.vol.table d cs (write_start h.file) nbyte dst p st.stored
          st.ready.placed (st.mounted, λ t v. refl) s e in
      let long = Stores-file_size B g hg d cs clock src nbyte h p st in
      let em' : m ≡ nbyte = omega (arith, em, long) in
      (en, em', λ j lt. same j (omega (arith, em', lt)) ∙ st.content j lt)
