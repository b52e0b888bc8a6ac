-- ===== src/Fat/Wide.antt =====
-- `fatGet` and `fatPut` on FAT32 and FAT16, whose entries never cross a sector.
use sd_fat.Base.{
  ℕ, ◌+◌, ◌-◌, ◌*◌, ◌/◌, ◌^◌, ◌%◌, ◌≤◌, ◌<◌, ◌≡◌, ◌⊎◌, sym, ◌∙◌, arith, done, subst, bit_and, u32,
  ◌>>>◌, ◌<<<◌,
}
use sd_fat.Base.Bits.{and_low}
use sd_fat.Endian.{Bytes, get_le16, get_le32, set_le16, set_le32}
use sd_fat.Endian.Laws.{
  IsBytes, get_le16-sum, get_le32-sum, get_le16-set_le16, get_le32-set_le32, set_le16_frame,
  set_le32_frame, set_le16-IsBytes, set_le32-IsBytes,
}
use sd_fat.Device.{BlockDevice}
use sd_fat.Cache.{FsCache, for_write}
use sd_fat.Fat.{Geometry, get32, get16, put32, put16, store}
use sd_fat.Fat.Layout.{IsGeometry, InFat, entry32, entry16}
use sd_fat.Fat.Window.{IsMounted, SameView, Window}
use sd_fat.Fat.Stored.{table, Window-table, Stored, store-table, store-Stored, peek, poked}

module _ (B : BlockDevice) (g : Geometry) (h : IsGeometry g) where
  open B use {Dev}

  -- A call that returned `v` and changed nothing that a client sees.
  abbrev pub Peeked : ℕ → ℕ → FsCache Dev → FsCache Dev → Type 0
  Peeked v w c c' = (v ≡ w) × IsMounted B g c' × SameView B g c c'

  module _ (n : ℕ) (t : g.fat_type ≡ 32) (le : n ≤ g.last_cluster) where
    abbrev sector32 : ℕ
    sector32 = u32 (g.fat_start_sector + n >>> 7)

    abbrev offset32 : ℕ
    offset32 = bit_and (u32 (n <<< 2)) 511

    place32 :
        (sector32 ≡ g.fat_start_sector + 4 * n / 512) × (offset32 ≡ 4 * n % 512) × InFat g sector32
    place32 = omega (arith, h.sectors, h.room32 t, h.clusters32 t, and_low 9 (u32 (n <<< 2)))

    pub get32-Peeked :
        {v : ℕ} {c c' : FsCache Dev}
        → IsMounted B g c
        → get32 B g n c ≡ done v c'
        → Peeked v (entry32 (table B g c) n) c c'
    unfolding get32
    get32-Peeked {v} {c} {c'} m e =
        let (ev, w) = peek B g sector32 (λ x. get_le32 x.buffer offset32) h m place32.2 e in
        let b : IsBytes c'.buffer = w.mounted.coherent.bytes in
        let i : ℕ = offset32 in
        (
          ev
              ∙ get_le32-sum c'.buffer i (b i) (b (i + 1)) (b (i + 2)) (b (i + 3))
              ∙ rw (
                Window-table B g (i) (4 * n) w (omega (arith, place32)) (omega (arith, place32)),
                Window-table B g (i + 1) (4 * n + 1) w (omega (arith, place32))
                    (omega (arith, place32)),
                Window-table B g (i + 2) (4 * n + 2) w (omega (arith, place32))
                    (omega (arith, place32)),
                Window-table B g (i + 3) (4 * n + 3) w (omega (arith, place32))
                    (omega (arith, place32)),
              ),
          w.mounted,
          w.same,
        )

    stored32 :
        (v : ℕ) {c c1 : FsCache Dev}
        → Window B g sector32 for_write c c1
        → let c2 = store (set_le32 c1.buffer offset32 v) c1 in
          Stored B g (4 * n) 4 c c2 × (entry32 (table B g c2) n ≡ v % 2 ^ 32)
    stored32 v {c} {c1} w = (
      store-Stored B g i 4 (4 * n) b h w place32.2 bytes at frame fit,
      rw
            (
              stored (4 * n) (i) (omega arith) (omega arith) (omega arith),
              stored (4 * n + 1) (i + 1) (omega arith) (omega arith) (omega arith),
              stored (4 * n + 2) (i + 2) (omega arith) (omega arith) (omega arith),
              stored (4 * n + 3) (i + 3) (omega arith) (omega arith) (omega arith),
            )
            (sym (get_le32-sum b i (bytes i) (bytes (i + 1)) (bytes (i + 2)) (bytes (i + 3))))
          ∙ get_le32-set_le32 c1.buffer i v,
    )
      where
        i : ℕ
        i = offset32

        b : Bytes
        b = set_le32 c1.buffer i v

        bytes : IsBytes b
        bytes = set_le32-IsBytes c1.buffer i v w.mounted.coherent.bytes

        at : 4 * n ≡ 512 * (sector32 - g.fat_start_sector) + i
        at = omega (arith, place32)

        fit : i + 4 ≤ 512
        fit = omega (arith, place32)

        frame : (j : ℕ) → (j < i) ⊎ (i + 4 ≤ j) → b j ≡ c1.buffer j
        frame = set_le32_frame c1.buffer i v

        stored :
            (k j : ℕ)
            → 4 * n ≤ k
            → k < 4 * n + 4
            → j + 4 * n ≡ k + i
            → table B g (store b c1) k ≡ b j
        stored = store-table B g i 4 (4 * n) b h w place32.2 bytes at frame fit

    pub put32-Stored :
        (v : ℕ) {c c' : FsCache Dev}
        → IsMounted B g c
        → put32 B g n v c ≡ done tt c'
        → Stored B g (4 * n) 4 c c' × (entry32 (table B g c') n ≡ v % 2 ^ 32)
    unfolding put32
    put32-Stored v {c} m e =
        let (c1, w, ec) = poked B g sector32 (λ b. set_le32 b offset32 v) h m place32.2 e in
        subst (λ x. Stored B g (4 * n) 4 c x × (entry32 (table B g x) n ≡ v % 2 ^ 32)) ec
          (stored32 v w)

  module _ (n : ℕ) (t : g.fat_type ≡ 16) (le : n ≤ g.last_cluster) where
    abbrev sector16 : ℕ
    sector16 = u32 (g.fat_start_sector + (bit_and n 0xFFFF) >>> 8)

    abbrev offset16 : ℕ
    offset16 = bit_and (u32 ((bit_and n 0xFFFF) <<< 1)) 511

    place16 :
        (sector16 ≡ g.fat_start_sector + 2 * n / 512) × (offset16 ≡ 2 * n % 512) × InFat g sector16
    place16 = omega (
      arith,
      h.sectors,
      h.room16 t,
      h.clusters16 t,
      and_low 16 n,
      and_low 9 (u32 ((bit_and n 0xFFFF) <<< 1)),
    )

    pub get16-Peeked :
        {v : ℕ} {c c' : FsCache Dev}
        → IsMounted B g c
        → get16 B g n c ≡ done v c'
        → Peeked v (entry16 (table B g c) n) c c'
    unfolding get16
    get16-Peeked {v} {c} {c'} m e =
        let (ev, w) = peek B g sector16 (λ x. get_le16 x.buffer offset16) h m place16.2 e in
        let b : IsBytes c'.buffer = w.mounted.coherent.bytes in
        let i : ℕ = offset16 in
        (
          ev
              ∙ get_le16-sum c'.buffer i (b i) (b (i + 1))
              ∙ rw (
                Window-table B g (i) (2 * n) w (omega (arith, place16)) (omega (arith, place16)),
                Window-table B g (i + 1) (2 * n + 1) w (omega (arith, place16))
                    (omega (arith, place16)),
              ),
          w.mounted,
          w.same,
        )

    stored16 :
        (v : ℕ) {c c1 : FsCache Dev}
        → Window B g sector16 for_write c c1
        → let c2 = store (set_le16 c1.buffer offset16 v) c1 in
          Stored B g (2 * n) 2 c c2 × (entry16 (table B g c2) n ≡ v % 2 ^ 16)
    stored16 v {c} {c1} w = (
      store-Stored B g i 2 (2 * n) b h w place16.2 bytes at frame fit,
      rw
            (
              stored (2 * n) (i) (omega arith) (omega arith) (omega arith),
              stored (2 * n + 1) (i + 1) (omega arith) (omega arith) (omega arith),
            )
            (sym (get_le16-sum b i (bytes i) (bytes (i + 1))))
          ∙ get_le16-set_le16 c1.buffer i v,
    )
      where
        i : ℕ
        i = offset16

        b : Bytes
        b = set_le16 c1.buffer i v

        bytes : IsBytes b
        bytes = set_le16-IsBytes c1.buffer i v w.mounted.coherent.bytes

        at : 2 * n ≡ 512 * (sector16 - g.fat_start_sector) + i
        at = omega (arith, place16)

        fit : i + 2 ≤ 512
        fit = omega (arith, place16)

        frame : (j : ℕ) → (j < i) ⊎ (i + 2 ≤ j) → b j ≡ c1.buffer j
        frame = set_le16_frame c1.buffer i v

        stored :
            (k j : ℕ)
            → 2 * n ≤ k
            → k < 2 * n + 2
            → j + 2 * n ≡ k + i
            → table B g (store b c1) k ≡ b j
        stored = store-table B g i 2 (2 * n) b h w place16.2 bytes at frame fit

    pub put16-Stored :
        (v : ℕ) {c c' : FsCache Dev}
        → IsMounted B g c
        → put16 B g n v c ≡ done tt c'
        → Stored B g (2 * n) 2 c c' × (entry16 (table B g c') n ≡ v % 2 ^ 16)
    unfolding put16
    put16-Stored v {c} m e =
        let (c1, w, ec) = poked B g sector16 (λ b. set_le16 b offset16 v) h m place16.2 e in
        subst (λ x. Stored B g (2 * n) 2 c x × (entry16 (table B g x) n ≡ v % 2 ^ 16)) ec
          (stored16 v w)
