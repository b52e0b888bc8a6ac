-- ===== src/Fat/Table.antt =====
-- `fatGet` and `fatPut` against the table of the FAT format, on all three FAT types.
use sd_fat.Base.{
  ℕ, ◌+◌, ◌*◌, ◌/◌, ◌%◌, ◌≤◌, ◌<◌, ◌≡◌, ◌≢◌, ◌⊎◌, inl, inr, ap, sym, ◌∙◌, arith, done, bind,
  bind-done, done-injective, subst, ◌==◌, if◌then◌else◌,
}
use sd_fat.Endian.{Bytes}
use sd_fat.Device.{BlockDevice}
use sd_fat.Cache.{FsCache}
use sd_fat.Cache.View.{view}
use sd_fat.Fat.{
  Geometry, Link, link_of, get_raw, put_raw, get32, get16, get12, put32, put16, put12, fat_get,
  fat_put,
}
use sd_fat.Fat.Layout.{IsGeometry, InFat, entry, entry12, entry_limit}
use sd_fat.Fat.Window.{IsMounted, IsVisible, SameView}
use sd_fat.Fat.Stored.{table, table-lt}
use sd_fat.Fat.Wide.{get32-Peeked, get16-Peeked, put32-Stored, put16-Stored}
use sd_fat.Fat.Fat12.{start12, get12-Peeked}
use sd_fat.Fat.Put12.{put12-Put12, low12-sum, high12-sum}

-- A neighbour keeps its half of a shared byte.
entry12-neighbour :
    (n i v : ℕ) (b b' : Bytes)
    → i ≢ n
    → b (start12 n) < 256
    → b (start12 n + 1) < 256
    → b' (start12 n) ≡ (if n % 2 == 0 then v % 256 else b (start12 n) % 16 + 16 * (v % 16))
    → b' (start12 n + 1)
      ≡ (if n % 2 == 0 then b (start12 n + 1) / 16 * 16 + v / 256 % 16 else v / 16 % 256)
    → ((start12 i < start12 n) ⊎ (start12 n + 2 ≤ start12 i) → b' (start12 i) ≡ b (start12 i))
    → ((start12 i + 1 < start12 n) ⊎ (start12 n + 2 ≤ start12 i + 1)
        → b' (start12 i + 1) ≡ b (start12 i + 1))
    → entry12 b' i ≡ entry12 b i
entry12-neighbour n i v b b' ne p q low high f f' = ground arith

module _ (B : BlockDevice) (g : Geometry) (h : IsGeometry g) where
  open B use {Dev}

  entry-12 : (b : Bytes) (i : ℕ) → g.fat_type ≡ 12 → entry g b i ≡ entry12 b i
  entry-12 b i t = ground arith

  -- The entry of `n` holds `v` after the change from `c` to `c'`, every other entry is as before,
  -- and so is every sector outside the two FATs.
  pub record Entered (n v : ℕ) (c c' : FsCache Dev) : Type 0 where
    pub mounted : IsMounted B g c'
    pub here : entry g (table B g c') n ≡ v % entry_limit g
    pub elsewhere :
        (i : ℕ) → i ≢ n → i ≤ g.last_cluster → entry g (table B g c') i ≡ entry g (table B g c) i
    pub outside : (t : ℕ) → IsVisible B g t → ¬ InFat g t → view B c' t ≡ view B c t

  module _ (n v : ℕ) (le : n ≤ g.last_cluster) {c c' : FsCache Dev} (m : IsMounted B g c) where
    put32-Entered : g.fat_type ≡ 32 → put32 B g n v c ≡ done tt c' → Entered n v c c'
    put32-Entered t e =
        let (s, x) = put32-Stored B g h n t le v m e in
        record {
          mounted = s.mounted;
          here = ground (arith, x);
          elsewhere = λ i ne li. ground (
            arith,
            s.frame (4 * i),
            s.frame (4 * i + 1),
            s.frame (4 * i + 2),
            s.frame (4 * i + 3),
            h.room32 t,
          );
          outside = s.outside;
        }

    put16-Entered : g.fat_type ≡ 16 → put16 B g n v c ≡ done tt c' → Entered n v c c'
    put16-Entered t e =
        let (s, x) = put16-Stored B g h n t le v m e in
        record {
          mounted = s.mounted;
          here = ground (arith, x);
          elsewhere = λ i ne li. ground (arith, s.frame (2 * i), s.frame (2 * i + 1), h.room16 t);
          outside = s.outside;
        }

    put12-Entered : g.fat_type ≡ 12 → put12 B g n v c ≡ done tt c' → Entered n v c c'
    put12-Entered t e =
        let p = put12-Put12 B g h n t le v m e in
        let k : ℕ = start12 n in
        let low = p.low ∙ low12-sum n v (table B g c k) (table-lt B g c k m) in
        let high = p.high ∙ high12-sum n v (table B g c (k + 1)) (table-lt B g c (k + 1) m) in
        record {
          mounted = p.stored.mounted;
          here = ground (arith, low, high, table-lt B g c k m);
          elsewhere = λ i ne li.
              rw (entry-12 (table B g c') i t, entry-12 (table B g c) i t)
                (entry12-neighbour n i v (table B g c) (table B g c') ne (table-lt B g c k m)
                  (table-lt B g c (k + 1) m) low high
                  (p.stored.frame (start12 i) (omega (arith, h.room12 t)))
                  (p.stored.frame (start12 i + 1) (omega (arith, h.room12 t))));
          outside = p.stored.outside;
        }

  get_raw-Peeked :
      (n v : ℕ) {c c' : FsCache Dev}
      → n ≤ g.last_cluster
      → IsMounted B g c
      → get_raw B g n c ≡ done v c'
      → (v ≡ entry g (table B g c) n) × IsMounted B g c' × SameView B g c c'
  get_raw-Peeked n v {c} {c'} le m e = elim h.types [
    | inl t ↦
        let (p, x, y) = get12-Peeked B g h n t le m (is12 t) in
        (p ∙ sym (entry-12 (table B g c) n t), x, y)
    | inr (inl t) ↦
        let (p, x, y) = get16-Peeked B g h n t le m (is16 t) in (ground (arith, p), x, y)
    | inr (inr t) ↦
        let (p, x, y) = get32-Peeked B g h n t le m (is32 t) in (ground (arith, p), x, y)
  ]
    where
      is12 : g.fat_type ≡ 12 → get12 B g n c ≡ done v c'
      is12 t = unfold get_raw in ground arith

      is16 : g.fat_type ≡ 16 → get16 B g n c ≡ done v c'
      is16 t = unfold get_raw in ground arith

      is32 : g.fat_type ≡ 32 → get32 B g n c ≡ done v c'
      is32 t = unfold get_raw in ground arith

  -- On a mounted FAT12, FAT16 or FAT32 volume whose table has room for its clusters, `fatGet`
  -- that succeeds was given a cluster of the volume and returns what the entry in the table of
  -- the format says (end of chain for a value past the last cluster), and changes no sector that
  -- a client sees.
  pub fat_get-entry :
      (n : ℕ) {l : Link} {c c' : FsCache Dev}
      → IsMounted B g c
      → fat_get B g n c ≡ done l c'
      → (2 ≤ n)
        × (n ≤ g.last_cluster)
        × (l ≡ link_of g (entry g (table B g c) n))
        × IsMounted B g c'
        × SameView B g c c'
  fat_get-entry n {l} {c} {c'} m e =
      let (lo, hi) = bounds in let (r, x, y) = raw in (lo, hi, r, x, y)
    where
      bounds : (2 ≤ n) × (n ≤ g.last_cluster)
      bounds = unfold fat_get in ground arith

      called : bind (get_raw B g n c) (λ v x. done (link_of g v) x) ≡ done l c'
      called = unfold fat_get in ground arith

      got :
          (v : ℕ) × (c1 : FsCache Dev) × (get_raw B g n c ≡ done v c1)
            × (done (link_of g v) c1 ≡ done l c')
          → (v : ℕ) × (get_raw B g n c ≡ done v c') × (l ≡ link_of g v)
      got (v, c1, p, q) = (
        v,
        subst (λ x. get_raw B g n c ≡ done v x) (done-injective q).1 p,
        sym (done-injective q).0,
      )

      raw : (l ≡ link_of g (entry g (table B g c) n)) × IsMounted B g c' × SameView B g c c'
      raw =
          let (v, p, q) = got (bind-done (get_raw B g n c) (λ v x. done (link_of g v) x) called) in
          let (x, y, z) = get_raw-Peeked n v (bounds.1) m p in (q ∙ ap (link_of g) x, y, z)

  -- On a mounted FAT12, FAT16 or FAT32 volume whose table has room for its clusters, `fatPut`
  -- that succeeds was given a cluster of the volume, whose entry in the table of the format now
  -- holds the value (cut to the width of an entry), while every other entry and every visible
  -- sector outside the first FAT is as before.
  pub fat_put-Entered :
      (n v : ℕ) {c c' : FsCache Dev}
      → IsMounted B g c
      → fat_put B g n v c ≡ done tt c'
      → (2 ≤ n) × (n ≤ g.last_cluster) × Entered n v c c'
  fat_put-Entered n v {c} {c'} m e = (bounds.0, bounds.1, entered)
    where
      bounds : (2 ≤ n) × (n ≤ g.last_cluster)
      bounds = unfold fat_put in ground arith

      called : put_raw B g n v c ≡ done tt c'
      called = unfold fat_put in ground arith

      is12 : g.fat_type ≡ 12 → put12 B g n v c ≡ done tt c'
      is12 t = unfold put_raw in ground (arith, called)

      is16 : g.fat_type ≡ 16 → put16 B g n v c ≡ done tt c'
      is16 t = unfold put_raw in ground (arith, called)

      is32 : g.fat_type ≡ 32 → put32 B g n v c ≡ done tt c'
      is32 t = unfold put_raw in ground (arith, called)

      entered : Entered n v c c'
      entered = elim h.types [
        | inl t ↦ put12-Entered n v bounds.1 m t (is12 t)
        | inr (inl t) ↦ put16-Entered n v bounds.1 m t (is16 t)
        | inr (inr t) ↦ put32-Entered n v bounds.1 m t (is32 t)
      ]
