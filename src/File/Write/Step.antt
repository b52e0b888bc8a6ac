-- ===== src/File/Write/Step.antt =====
-- One round of the loop of `write`, and the head of the next.
use sd_fat.Base.{
  ℕ, ◌+◌, ◌-◌, ◌/◌, ◌≤◌, ◌≡◌, refl, sym, ◌∙◌, ap, subst, arith, List, Method, bind, u32,
}
use sd_fat.Base.Lists.{get_or}
use sd_fat.Endian.{Bytes}
use sd_fat.Device.{BlockDevice}
use sd_fat.Cache.{FsCache}
use sd_fat.Fat.{Geometry}
use sd_fat.Fat.Layout.{IsGeometry}
use sd_fat.Fat.Window.{InFat-IsVisible}
use sd_fat.File.{FatFile, Handle, set_file}
use sd_fat.File.Place.{IsLayout, cluster_at}
use sd_fat.File.Follow.{IsFile}
use sd_fat.File.Enter.{Entered}
use sd_fat.File.Write.{write_sectors, write_rounds}
use sd_fat.File.Write.Wrote.{grown, IsReadyToWrite, Wrote}
use sd_fat.File.Write.Round.{Advanced}
use sd_fat.File.Write.Chain.{InFat-IsForeign, SameFat-IsFile, Kept-Wrote, Wrote-trans}

module _ (B : BlockDevice) (g : Geometry) (hg : IsGeometry g) (d : IsLayout g) (cs : List ℕ) where
  open B use {Dev}

  -- `n` bytes of `src` behind place `at` have been written from the position of `f` on, the file
  -- is placed behind them, and nothing else of it has changed.
  pub record HasWritten (f : FatFile) (size : ℕ) (src : Bytes) (at n : ℕ) (c : FsCache Dev)
      (p : Handle (FsCache Dev)) : Type 0 where
    pub same_file :
        p.file ≡ record f { cur_cluster = p.file.cur_cluster; cur_position = f.cur_position + n }
    pub ready : IsReadyToWrite g cs p.file size
    pub wrote : Wrote B g hg d cs f size src at n c p.vol.table

  abbrev pub moved_on : ℕ → Handle (FsCache Dev) → Handle (FsCache Dev)
  moved_on n p = set_file (λ f. record f { cur_position = u32 (f.cur_position + n) }) p

  -- The rest of a round, from the cluster of the position.
  abbrev pub rest : ℕ → Bytes → ℕ → ℕ → Unit {0} → Method (Handle (FsCache Dev)) (Unit {0})
  rest fuel src at to_write _ q =
      bind (write_sectors B g hg src at to_write q)
        (λ n p. write_rounds B g hg fuel src (at + n) (to_write - n) (moved_on n p))

  -- The file `f` at the position behind `n` more bytes.
  abbrev pub at_round : FatFile → ℕ → FatFile
  at_round f n = record f {
    cur_cluster = cluster_at g cs (f.cur_position / 512);
    cur_position = f.cur_position + n;
  }

  module _ (size : ℕ) (src : Bytes) (at to_write : ℕ) (h q p0 : Handle (FsCache Dev)) (n : ℕ)
      (i : IsFile B g hg d cs h.vol.table (grown h.file size))
      (fit : h.file.cur_position + to_write ≤ size)
      (en : Entered B g hg d cs h.vol.table (cluster_at g cs (h.file.cur_position / 512)) h.file q)
      (a : Advanced B g hg d cs size src at to_write q n p0) where
    pub begins : (moved_on n p0).file ≡ at_round h.file n
    begins =
        ap (λ (f : FatFile). record f { cur_position = u32 (f.cur_position + n) })
          (a.same_file ∙ en.0)
        ∙ ap
            (λ t. record h.file {
              cur_cluster = cluster_at g cs (h.file.cur_position / 512);
              cur_position = t;
            })
            {x = u32 (h.file.cur_position + n)} {y = h.file.cur_position + n}
            (omega (arith, a.not_more, i.1.small))

    -- The bytes of the round.
    pub round-Wrote : Wrote B g hg d cs h.file size src at n h.vol.table p0.vol.table
    round-Wrote =
        let w =
          subst (λ f. Wrote B g hg d cs f size src at n q.vol.table p0.vol.table) en.0 a.wrote in
        Kept-Wrote B g hg d cs h.file size src at n h.vol.table q.vol.table p0.vol.table i en.1
          (record { mounted = w.mounted; content = w.content; kept = w.kept; others = w.others })

    pub begins-IsFile : IsFile B g hg d cs p0.vol.table (grown (moved_on n p0).file size)
    begins-IsFile =
        subst (λ f. IsFile B g hg d cs p0.vol.table (grown f size)) (sym begins)
          (SameFat-IsFile B g hg d cs (grown h.file size) (grown (at_round h.file n) size)
            h.vol.table p0.vol.table
            (λ t f.
              round-Wrote.others t (InFat-IsVisible B g hg f) (InFat-IsForeign B g hg d cs t f))
            refl refl refl refl i)

    pub begins-ready : IsReadyToWrite g cs (moved_on n p0).file size
    begins-ready =
        subst (λ f. IsReadyToWrite g cs f size) (sym begins)
          (record {
            placed = record {
              inside = omega (arith, a.not_more);
              cluster = λ _.
                  ap (λ t. get_or cs t 0)
                    (sym (
                      subst
                        (λ t.
                          (t + n - 1) / 512 / g.sectors_per_cluster
                          ≡ t / 512 / g.sectors_per_cluster)
                        (ap (λ (t : FatFile). t.cur_position) en.0) a.same_cluster));
            };
            at_start = λ z. absurd (omega (arith, a.some_bytes));
          })

    pub begins-fit : (moved_on n p0).file.cur_position + (to_write - n) ≤ size
    begins-fit =
        subst (λ (f : FatFile). f.cur_position + (to_write - n) ≤ size) (sym begins)
          (omega (arith, a.not_more))

    -- One round and the later ones.
    pub extend :
        (p : Handle (FsCache Dev))
        → HasWritten (moved_on n p0).file size src (at + n) (to_write - n) p0.vol.table p
        → HasWritten h.file size src at to_write h.vol.table p
    extend p r = record {
      same_file =
          r'.same_file
          ∙ ap (λ t. record h.file { cur_cluster = p.file.cur_cluster; cur_position = t })
              {x = h.file.cur_position + n + (to_write - n)} {y = h.file.cur_position + to_write}
              (omega (arith, a.not_more));
      ready = r'.ready;
      wrote =
          subst (λ t. Wrote B g hg d cs h.file size src at t h.vol.table p.vol.table)
            (omega (arith, a.not_more))
            (Wrote-trans B g hg d cs h.file size src at n (to_write - n) (at_round h.file n)
              h.vol.table p0.vol.table p.vol.table refl refl refl round-Wrote r'.wrote);
    }
      where
        r' : HasWritten (at_round h.file n) size src (at + n) (to_write - n) p0.vol.table p
        r' = subst (λ f. HasWritten f size src (at + n) (to_write - n) p0.vol.table p) begins r
