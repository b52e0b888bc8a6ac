-- ===== src/File/Write/Content.antt =====
-- `write` within the clusters that a file has: the bytes of the file become those of the caller.
use sd_fat.Base.{
  ℕ, zero, suc, ◌+◌, ◌-◌, ◌/◌, ◌≤◌, ◌<◌, ◌≡◌, inl, inr, refl, sym, ap, subst, arith, true, false,
  List, ◌==◌, Outcome, done, bind, bind-done, done-injective, Bool-cases, ==→eq,
}
use sd_fat.Endian.{Bytes}
use sd_fat.Endian.Laws.{IsBytes}
use sd_fat.Device.{BlockDevice}
use sd_fat.Cache.{FsCache}
use sd_fat.Fat.{Geometry}
use sd_fat.Fat.Layout.{IsGeometry}
use sd_fat.Fat.Window.{IsMounted, InFat-IsVisible}
use sd_fat.File.{FatFile, Handle}
use sd_fat.File.Place.{IsLayout, cluster_at}
use sd_fat.File.Follow.{IsFile}
use sd_fat.File.Enter.{Entered}
use sd_fat.File.Write.{write_sectors, write_rounds}
use sd_fat.File.Write.Wrote.{grown, IsReadyToWrite}
use sd_fat.File.Write.Round.{Advanced, write_sectors-Advanced}
use sd_fat.File.Write.Enter.{entering, entering-Entered}
use sd_fat.File.Write.Step.{
  HasWritten, rest, moved_on, begins-IsFile, begins-ready, begins-fit, round-Wrote, extend,
}
use sd_fat.File.Write.Chain.{SameFat-IsFile, nothing-Wrote}

module _ (B : BlockDevice) (g : Geometry) (hg : IsGeometry g) (d : IsLayout g) (cs : List ℕ) where
  open B use {Dev}

  -- No bytes are left to write.
  write_rounds-empty :
      (fuel size : ℕ) (src : Bytes) (at to_write : ℕ) (h : Handle (FsCache Dev))
      {p : Handle (FsCache Dev)}
      → IsReadyToWrite g cs h.file size
      → IsMounted B g h.vol.table
      → (to_write == 0) ≡ true
      → write_rounds B g hg fuel src at to_write h ≡ done tt p
      → HasWritten B g hg d cs h.file size src at to_write h.vol.table p
  write_rounds-empty fuel size src at to_write h {p} r m z e =
      subst (HasWritten B g hg d cs h.file size src at to_write h.vol.table)
        (done-injective (empty fuel e)).1
        (record {
          same_file =
              ap (λ t. record h.file { cur_position = t }) (omega (arith, ==→eq to_write 0 z));
          ready = r;
          wrote =
              nothing-Wrote B g hg d cs h.file size src at to_write h.vol.table m
                (==→eq to_write 0 z);
        })
    where
      empty :
          (fuel : ℕ)
          → write_rounds B g hg fuel src at to_write h ≡ done tt p
          → ◌≡◌ {A = Outcome (Handle (FsCache Dev)) (Unit {0})} (done tt h) (done tt p)
      empty zero e = unfold write_rounds in ground arith
      empty (suc fuel) e = unfold write_rounds in ground arith

  -- A round with bytes left.
  write_rounds-on :
      (fuel : ℕ) (src : Bytes) (at to_write : ℕ) (h : Handle (FsCache Dev))
      {p : Handle (FsCache Dev)}
      → (to_write == 0) ≡ false
      → write_rounds B g hg (suc fuel) src at to_write h ≡ done tt p
      → bind (entering B g hg h) (rest B g hg d cs fuel src at to_write) ≡ done tt p
  unfolding write_rounds
  write_rounds-on fuel src at to_write h z e = ground arith

  -- The bytes of a round, from the cluster of the position.
  pub round-Advanced :
      (size : ℕ) (src : Bytes) (at to_write : ℕ) (h q : Handle (FsCache Dev)) {n : ℕ}
      {p0 : Handle (FsCache Dev)}
      → IsFile B g hg d cs h.vol.table (grown h.file size)
      → h.file.cur_position + to_write ≤ size
      → Entered B g hg d cs h.vol.table (cluster_at g cs (h.file.cur_position / 512)) h.file q
      → 0 < to_write
      → IsBytes src
      → write_sectors B g hg src at to_write q ≡ done n p0
      → Advanced B g hg d cs size src at to_write q n p0
  round-Advanced size src at to_write h q i fit en left bytes e =
      write_sectors-Advanced B g hg d cs size src at to_write q
        (subst (λ f. IsFile B g hg d cs q.vol.table (grown f size)) (sym en.0)
          (SameFat-IsFile B g hg d cs (grown h.file size) (grown (entered h.file) size) h.vol.table
            q.vol.table (λ t f. en.1.1 t (InFat-IsVisible B g hg f)) refl refl refl refl i))
        en.1.0 (subst (λ (f : FatFile). f.cur_position + to_write ≤ size) (sym en.0) fit)
        (subst (λ (f : FatFile). f.cur_cluster ≡ cluster_at g cs (f.cur_position / 512)) (sym en.0)
          refl)
        left bytes e
    where
      entered : FatFile → FatFile
      entered f = record f { cur_cluster = cluster_at g cs (f.cur_position / 512) }

  -- The rounds that succeed write all of `to_write`.
  pub write_rounds-HasWritten :
      (fuel size : ℕ) (src : Bytes) (at to_write : ℕ) (h : Handle (FsCache Dev))
      {p : Handle (FsCache Dev)}
      → IsFile B g hg d cs h.vol.table (grown h.file size)
      → IsReadyToWrite g cs h.file size
      → IsMounted B g h.vol.table
      → h.file.cur_position + to_write ≤ size
      → IsBytes src
      → write_rounds B g hg fuel src at to_write h ≡ done tt p
      → HasWritten B g hg d cs h.file size src at to_write h.vol.table p
  write_rounds-HasWritten zero size src at to_write h i r m fit bytes e =
      write_rounds-empty zero size src at to_write h r m (unfold write_rounds in ground arith) e
  write_rounds-HasWritten (suc fuel) size src at to_write h {p} i r m fit bytes e =
      elim (Bool-cases (to_write == 0)) [
        | inl z ↦ write_rounds-empty (suc fuel) size src at to_write h r m z e
        | inr z ↦
            let c : FsCache Dev = h.vol.table in
            let (_, q, x, y) =
              bind-done (entering B g hg h) (rest B g hg d cs fuel src at to_write)
                (write_rounds-on fuel src at to_write h z e) in
            let en =
              entering-Entered B g hg d cs c size h i r (ground arith) (m, λ t v. refl) q x in
            let (n, p0, v, w) =
              bind-done (write_sectors B g hg src at to_write q)
                (λ n p.
                  write_rounds B g hg fuel src (at + n) (to_write - n) (moved_on B g hg d cs n p))
                y in
            let a = round-Advanced size src at to_write h q i fit en (ground arith) bytes v in
            extend B g hg d cs size src at to_write h q p0 n i fit en a p (
              write_rounds-HasWritten fuel size src (at + n) (to_write - n)
                (moved_on B g hg d cs n p0)
                (begins-IsFile B g hg d cs size src at to_write h q p0 n i fit en a)
                (begins-ready B g hg d cs size src at to_write h q p0 n i fit en a)
                (round-Wrote B g hg d cs size src at to_write h q p0 n i fit en a).mounted
                (begins-fit B g hg d cs size src at to_write h q p0 n i fit en a) bytes w)
      ]
