-- ===== src/File/Write/Chain.antt =====
-- Writing to the data area leaves the FAT alone, so the file keeps its clusters.
use sd_fat.Base.{
  ℕ, ◌+◌, ◌-◌, ◌/◌, ◌%◌, ◌≡◌, inl, inr, refl, sym, ◌∙◌, ap, subst, arith, List, dec_lt,
}
use sd_fat.Endian.{Bytes}
use sd_fat.Device.{BlockDevice}
use sd_fat.Cache.{FsCache}
use sd_fat.Cache.View.{view}
use sd_fat.Fat.{Geometry}
use sd_fat.Fat.Layout.{IsGeometry, InFat, entry}
use sd_fat.Fat.Stored.{table}
use sd_fat.Fat.Window.{IsMounted}
use sd_fat.Alloc.Chain.{IsChain, IsChain-same, All-zip}
use sd_fat.Alloc.Mounted.{SameFat-entry}
use sd_fat.File.{FatFile}
use sd_fat.File.Sectors.{Kept}
use sd_fat.File.Place.{IsLayout, data_sector}
use sd_fat.File.Follow.{IsFile, cluster_number}
use sd_fat.File.Visible.{data_sector-IsVisible}
use sd_fat.File.Write.Wrote.{grown, IsForeign, Wrote}

module _ (B : BlockDevice) (g : Geometry) (hg : IsGeometry g) (d : IsLayout g) (cs : List ℕ) where
  open B use {Dev}

  pub InFat-IsForeign : (t : ℕ) → InFat g t → IsForeign B g hg d cs t
  InFat-IsForeign t f q lt e = omega (arith, f, e, d.behind)

  -- The same FAT, and the same kind, size, first cluster and shape of the file.
  pub SameFat-IsFile :
      (f f' : FatFile) (c c' : FsCache Dev)
      → ((t : ℕ) → InFat g t → view B c' t ≡ view B c t)
      → f'.kind ≡ f.kind
      → f'.file_size ≡ f.file_size
      → f'.first_cluster ≡ f.first_cluster
      → f'.contiguous ≡ f.contiguous
      → IsFile B g hg d cs c f
      → IsFile B g hg d cs c' f'
  SameFat-IsFile f f' c c' same ek es ef ec i = (
    ek ∙ i.0,
    record {
      chain =
          subst (λ t. IsChain (entry g (table B g c')) g.last_cluster t cs) (sym ef)
            (IsChain-same (entry g (table B g c)) (entry g (table B g c')) g.last_cluster
              f.first_cluster cs
              (All-zip cs (λ t x _. SameFat-entry B g hg c c' t x.1 same) i.1.inside i.1.inside)
              i.1.chain);
      inside = i.1.inside;
      room = omega (arith, es, i.1.room);
      small = omega (arith, es, i.1.small);
      in_row = λ e n lt. i.1.in_row (sym ec ∙ e) n lt ∙ ap (λ t. t + n) (sym ef);
    },
  )

  module _ (f : FatFile) (size : ℕ) (src : Bytes) (at n : ℕ) where
    -- What a client sees before the bytes are stored is what it saw earlier.
    pub Kept-Wrote :
        (c c1 c' : FsCache Dev)
        → IsFile B g hg d cs c (grown f size)
        → Kept B g hg c c1
        → Wrote B g hg d cs f size src at n c1 c'
        → Wrote B g hg d cs f size src at n c c'
    Kept-Wrote c c1 c' i k w = record {
      mounted = w.mounted;
      content = w.content;
      kept = λ t ts o.
          w.kept t ts o
          ∙ ap (λ (b : Bytes). b (t % 512))
              (k.1 (data_sector g cs (t / 512))
                (data_sector-IsVisible B g hg d cs c (t / 512) (grown f size) i
                  (cluster_number B g hg d cs c (grown f size) t i ts)).1);
      others = λ t v fo. w.others t v fo ∙ k.1 t v;
    }

    -- Nothing is stored.
    pub nothing-Wrote :
        (c : FsCache Dev) → IsMounted B g c → n ≡ 0 → Wrote B g hg d cs f size src at n c c
    nothing-Wrote c m z = record {
      mounted = m;
      content = λ k ks lo hi. absurd (omega arith);
      kept = λ k ks o. refl;
      others = λ t v fo. refl;
    }

    -- `m` more bytes behind these.
    pub Wrote-trans :
        (m : ℕ) (f' : FatFile) (c c1 c' : FsCache Dev)
        → f'.cur_position ≡ f.cur_position + n
        → f'.file_size ≡ f.file_size
        → f'.preallocated ≡ f.preallocated
        → Wrote B g hg d cs f size src at n c c1
        → Wrote B g hg d cs f' size src (at + n) m c1 c'
        → Wrote B g hg d cs f size src at (n + m) c c'
    Wrote-trans m f' c c1 c' ep es ea w v = record {
      mounted = v.mounted;
      content = λ k ks lo hi. elim (dec_lt k (f.cur_position + n)) [
        | yes a ↦ v.kept k ks (inl (omega arith)) ∙ w.content k ks lo a
        | no a ↦
            v.content k ks (omega arith) (omega arith)
            ∙ ap src {x = at + n + (k - f'.cur_position)} {y = at + (k - f.cur_position)}
                (omega arith)
      ];
      kept = λ k ks o. elim o [
        | inl a ↦ v.kept k ks (inl (omega arith)) ∙ w.kept k ks (inl a)
        | inr a ↦
            v.kept k ks (inr (omega arith, (omega (arith, a.1.0, es), ea ∙ a.1.1)))
            ∙ w.kept k ks (inr (omega arith, a.1))
      ];
      others = λ t s fo. v.others t s fo ∙ w.others t s fo;
    }
