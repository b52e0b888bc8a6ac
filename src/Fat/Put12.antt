-- ===== src/Fat/Put12.antt =====
-- `fatPut` on FAT12: a read and a write of each of the two bytes that hold the entry and half of
-- a neighbour.
use sd_fat.Base.{
  ℕ, ◌+◌, ◌*◌, ◌/◌, ◌%◌, ◌≤◌, ◌<◌, ◌≡◌, ◌⊎◌, refl, ap, ◌∙◌, arith, done, bind, bind-done,
  done-injective, subst, u8, ◌==◌, if◌then◌else◌,
}
use sd_fat.Base.Bits.{and_low, and_high, or_fields, or_fields_low}
use sd_fat.Endian.{Bytes, poke}
use sd_fat.Endian.Laws.{IsBytes}
use sd_fat.Device.{BlockDevice}
use sd_fat.Cache.{FsCache, for_write}
use sd_fat.Fat.{Geometry, fat_cache_prepare, second_byte, put12, low12, high12, store}
use sd_fat.Fat.Layout.{IsGeometry}
use sd_fat.Fat.Window.{IsMounted, Window, fat_cache_prepare-Window}
use sd_fat.Fat.Stored.{table, Window-table, Stored, store-table, store-Stored, Stored-trans}
use sd_fat.Fat.Fat12.{start12, sector12, offset12, place12, second_byte-Window}

-- One byte of the cached sector replaced.
abbrev set_byte : {D : Type 0} → ℕ → ℕ → FsCache D → FsCache D
set_byte i x c = store (poke c.buffer i x) c

low12-byte : (n v old : ℕ) → u8 (low12 n v old) ≡ low12 n v old
low12-byte n v old = ground arith

high12-byte : (n v old : ℕ) → u8 (high12 n v old) ≡ high12 n v old
high12-byte n v old = ground arith

-- The bytes as arithmetic: the entry's twelve bits, and the nibble of the neighbour.
pub low12-sum :
    (n v old : ℕ)
    → old < 256
    → low12 n v old ≡ (if n % 2 == 0 then v % 256 else old % 16 + 16 * (v % 16))
low12-sum n v old lt =
    ground (arith, and_low 1 n, and_low 4 old, or_fields_low 4 (v % 256) (old % 16))

pub high12-sum :
    (n v old : ℕ)
    → old < 256
    → high12 n v old ≡ (if n % 2 == 0 then old / 16 * 16 + v / 256 % 16 else v / 16 % 256)
high12-sum n v old lt = ground (
  arith,
  and_low 1 n,
  and_high 4 old 15,
  and_low 4 (old / 16),
  or_fields 4 (old / 16) (v / 16 % 256 / 16),
)

module _ (B : BlockDevice) (g : Geometry) (h : IsGeometry g) where
  open B use {Dev}

  -- A byte of the table stored through a window.
  set_byte-Stored :
      (s i k x : ℕ) {c c1 : FsCache Dev}
      → Window B g s for_write c c1
      → s ≡ g.fat_start_sector + k / 512
      → i ≡ k % 512
      → k < 512 * g.sectors_per_fat
      → Stored B g k 1 c (set_byte i x c1) × (table B g (set_byte i x c1) k ≡ u8 x)
  set_byte-Stored s i k x {c} {c1} w es ei lt = (
    store-Stored B g i 1 k b h w (omega arith) bytes (omega arith) rest (omega arith),
    store-table B g i 1 k b h w (omega arith) bytes (omega arith) rest (omega arith) k i
          (omega arith) (omega arith) (omega arith)
        ∙ ground arith,
  )
    where
      b : Bytes
      b = poke c1.buffer i x

      bytes : IsBytes b
      bytes j = ground (arith, w.mounted.coherent.bytes j)

      rest : (j : ℕ) → (j < i) ⊎ (i + 1 ≤ j) → b j ≡ c1.buffer j
      rest j o = ground arith

  module _ (n : ℕ) (t : g.fat_type ≡ 12) (le : n ≤ g.last_cluster) (v : ℕ) where
    -- The two bytes of the entry after `fatPut`, the other bytes, and the other sectors.
    pub record Put12 (c c' : FsCache Dev) : Type 0 where
      pub stored : Stored B g (start12 n) 2 c c'
      pub low : table B g c' (start12 n) ≡ low12 n v (table B g c (start12 n))
      pub high : table B g c' (start12 n + 1) ≡ high12 n v (table B g c (start12 n + 1))

    abbrev first_store : FsCache Dev → FsCache Dev
    first_store x = set_byte (offset12 n) (low12 n v (x.buffer (offset12 n))) x

    abbrev second_store : ℕ → FsCache Dev → FsCache Dev
    second_store j x = set_byte j (high12 n v (x.buffer j)) x

    both :
        {j : ℕ} {c c1 c2 : FsCache Dev}
        → Window B g (sector12 g n) for_write c c1
        → Window B g (g.fat_start_sector + (start12 n + 1) / 512) for_write (first_store c1) c2
          × (j ≡ (start12 n + 1) % 512)
        → Put12 c (second_store j c2)
    both {j} {c} {c1} {c2} w (w2, ej) =
        let k : ℕ = start12 n in
        let place = place12 B g h n t le in
        let x : ℕ = low12 n v (c1.buffer (offset12 n)) in
        let y : ℕ = high12 n v (c2.buffer j) in
        let p =
          set_byte-Stored (sector12 g n) (offset12 n) k x w place.0 place.1
            (omega (arith, place)) in
        let q =
          set_byte-Stored (g.fat_start_sector + (k + 1) / 512) j (k + 1) y w2 refl ej
            (omega (arith, place)) in
        record {
          stored = Stored-trans B g k p.0 q.0;
          low =
              q.0.frame k (omega (arith, place)) (omega arith)
              ∙ p.1
              ∙ low12-byte n v (c1.buffer (offset12 n))
              ∙ ap (low12 n v) (Window-table B g (offset12 n) k w place.0 place.1);
          high =
              q.1
              ∙ high12-byte n v (c2.buffer j)
              ∙ ap (high12 n v) (
                  Window-table B g j (k + 1) w2 refl ej
                  ∙ p.0.frame (k + 1) (omega (arith, place)) (omega arith));
        }

    first :
        {c : FsCache Dev} (c1 : FsCache Dev)
        → Window B g (sector12 g n) for_write c c1
        → IsMounted B g (first_store c1)
    first c1 w =
        let place = place12 B g h n t le in
        (set_byte-Stored (sector12 g n) (offset12 n) (start12 n)
          (low12 n v (c1.buffer (offset12 n))) w place.0 place.1 (omega (arith, place))).0.mounted

    -- `fatPut` changes only these two bytes.
    pub put12-Put12 :
        {c c' : FsCache Dev} → IsMounted B g c → put12 B g n v c ≡ done tt c' → Put12 c c'
    unfolding put12
    put12-Put12 {c} {c'} m e = ended (
        bind-done (fat_cache_prepare B g (sector12 g n) for_write c)
          (λ _ x.
            bind (second_byte B g (sector12 g n) (offset12 n) for_write (first_store x))
              (λ j y. done tt (second_store j y)))
          e)
      where
        finished :
            {c1 : FsCache Dev}
            → Window B g (sector12 g n) for_write c c1
            → (j : ℕ) × (c2 : FsCache Dev) × (second_byte B g
                  (sector12 g n)
                  (offset12 n)
                  for_write
                  (first_store c1)
                ≡ done j c2)
              × (done tt (second_store j c2) ≡ done tt c')
            → Put12 c c'
        finished {c1} w (j, c2, r, z) = subst (Put12 c) (done-injective z).1 (
            both w (
              second_byte-Window B g h (start12 n) (sector12 g n) (offset12 n) for_write
                (first c1 w) w.sector w.marked refl refl (place12 B g h n t le).0
                (place12 B g h n t le).1 (place12 B g h n t le).3 r))

        ended :
            (_ : Unit {0}) × (c1 : FsCache Dev) × (fat_cache_prepare B g (sector12 g n) for_write c
                ≡ done tt c1)
              × (bind
                    (second_byte B g (sector12 g n) (offset12 n) for_write (first_store c1))
                    (λ j y. done tt (second_store j y))
                  ≡ done tt c')
            → Put12 c c'
        ended (_, c1, p, q) =
            finished
              (fat_cache_prepare-Window B g (sector12 g n) for_write c h m (place12 B g h n t le).2
                refl refl p)
              (bind-done (second_byte B g (sector12 g n) (offset12 n) for_write (first_store c1))
                (λ j y. done tt (second_store j y)) q)
