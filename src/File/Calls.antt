-- ===== src/File/Calls.antt =====
-- Inversion of the calls that a method of a file makes on the volume and on its table.
use sd_fat.Base.{◌≡◌, refl, ◌∙◌, ap, Outcome, Method, done, fail, stuck, done-injective}
use sd_fat.Alloc.{Partition, on_table}
use sd_fat.Alloc.Allocate.{on_table-done}
use sd_fat.File.{Handle, on_volume, on_fat}

pub on_volume-done :
    {S A : Type 0} (m : Method (Partition S) A) (h : Handle S) {a : A} {q : Handle S}
    → on_volume m h ≡ done a q
    → (p : Partition S) × (m h.vol ≡ done a p) × (record h { vol = p } ≡ q)
on_volume-done {S} {A} m h {a} {q} e = go (m h.vol) refl e
  where
    go :
        (o : Outcome (Partition S) A)
        → m h.vol ≡ o
        → ◌≡◌ {A = Outcome (Handle S) A}
            (elim o [
              | done a p ↦ done a (record h { vol = p })
              | fail p ↦ fail (record h { vol = p })
              | stuck ↦ stuck
            ])
            (done a q)
        → (p : Partition S) × (m h.vol ≡ done a p) × (record h { vol = p } ≡ q)
    go (done x p) y z = (p, y ∙ ap (λ t. done t p) (done-injective z).0, (done-injective z).1)
    go (fail p) y z = absurd (cc)
    go stuck y z = absurd (cc)

pub on_fat-done :
    {S A : Type 0} (m : Method S A) (h : Handle S) {a : A} {q : Handle S}
    → on_fat m h ≡ done a q
    → (s : S) × (m h.vol.table ≡ done a s) × (record h { vol = record h.vol { table = s } } ≡ q)
on_fat-done m h e =
    let (p, x, y) = on_volume-done (on_table m) h e in
    let (s, z, w) = on_table-done m h.vol x in (s, z, ap (λ t. record h { vol = t }) w ∙ y)
