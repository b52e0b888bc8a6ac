-- ===== src/Endian/Laws.antt =====
-- Round trips of the little-endian fields, and what a write leaves alone.
use sd_fat.Base.{ℕ, ◌+◌, ◌*◌, ◌/◌, ◌%◌, ◌^◌, ◌≤◌, ◌<◌, ◌≡◌, ◌⊎◌, ◌↔◌, arith}
use sd_fat.Base.Bits.{or_fields_low}
use sd_fat.Endian.{Bytes, get_le16, get_le32, get_le64, set_le16, set_le32, set_le64}

abbrev pub IsBytes : Bytes → Type 0
IsBytes b = (i : ℕ) → b i < 256

pub get_le16-sum :
    (src : Bytes) (i : ℕ)
    → src i < 256
    → src (i + 1) < 256
    → get_le16 src i ≡ src i + 256 * src (i + 1)
unfolding get_le16
get_le16-sum src i h k = ground (arith, or_fields_low 8 (src (i + 1)) (src i * 2 ^ 0))

pub get_le32-sum :
    (src : Bytes) (i : ℕ)
    → src i < 256
    → src (i + 1) < 256
    → src (i + 2) < 256
    → src (i + 3) < 256
    → get_le32 src i ≡ src i + 2 ^ 8 * src (i + 1) + 2 ^ 16 * src (i + 2) + 2 ^ 24 * src (i + 3)
unfolding get_le32
get_le32-sum src i h0 h1 h2 h3 = ground (
  arith,
  or_fields_low 8 (src (i + 1)) (src i * 2 ^ 0),
  or_fields_low 16 (src (i + 2)) (src i + 2 ^ 8 * src (i + 1)),
  or_fields_low 24 (src (i + 3)) (src i + 2 ^ 8 * src (i + 1) + 2 ^ 16 * src (i + 2)),
)

-- `getLe16` reads back what `setLe16` stored, cut to 16 bits.
pub get_le16-set_le16 : (dst : Bytes) (i v : ℕ) → get_le16 (set_le16 dst i v) i ≡ v % 2 ^ 16
unfolding set_le16
get_le16-set_le16 dst i v = ground (arith, get_le16-sum (set_le16 dst i v) i)

-- `getLe32` reads back what `setLe32` stored, cut to 32 bits.
pub get_le32-set_le32 : (dst : Bytes) (i v : ℕ) → get_le32 (set_le32 dst i v) i ≡ v % 2 ^ 32
unfolding set_le32
get_le32-set_le32 dst i v = ground (arith, get_le32-sum (set_le32 dst i v) i)

pub set_le16_frame : (dst : Bytes) (i v j : ℕ) → (j < i) ⊎ (i + 2 ≤ j) → set_le16 dst i v j ≡ dst j
unfolding set_le16
set_le16_frame dst i v j h = ground arith

pub set_le32_frame : (dst : Bytes) (i v j : ℕ) → (j < i) ⊎ (i + 4 ≤ j) → set_le32 dst i v j ≡ dst j
unfolding set_le32
set_le32_frame dst i v j h = ground arith

get_le64-sum :
    (src : Bytes) (i : ℕ)
    → src i < 256
    → src (i + 1) < 256
    → src (i + 2) < 256
    → src (i + 3) < 256
    → src (i + 4) < 256
    → src (i + 5) < 256
    → src (i + 7) < 256
    → get_le64 src i
      ≡ src i
        + 2 ^ 8 * src (i + 1)
        + 2 ^ 16 * src (i + 2)
        + 2 ^ 24 * src (i + 3)
        + 2 ^ 32 * src (i + 4)
        + 2 ^ 40 * src (i + 5)
        + 2 ^ 56 * src (i + 7)
unfolding get_le64
get_le64-sum src i h0 h1 h2 h3 h4 h5 h7 =
    let s1 : ℕ = src i + 2 ^ 8 * src (i + 1) in
    let s2 : ℕ = s1 + 2 ^ 16 * src (i + 2) in
    let s3 : ℕ = s2 + 2 ^ 24 * src (i + 3) in
    let s4 : ℕ = s3 + 2 ^ 32 * src (i + 4) in
    let s5 : ℕ = s4 + 2 ^ 40 * src (i + 5) in
    ground (
      arith,
      or_fields_low 8 (src (i + 1)) (src i * 2 ^ 0),
      or_fields_low 16 (src (i + 2)) s1,
      or_fields_low 24 (src (i + 3)) s2,
      or_fields_low 32 (src (i + 4)) s3,
      or_fields_low 40 (src (i + 5)) s4,
      or_fields_low 56 (src (i + 7)) s5,
    )

-- The bytes that `setLe64` stores, all but the seventh.
set_le64_bytes :
    (dst : Bytes) (i v : ℕ)
    → (set_le64 dst i v i ≡ v % 256)
      × (set_le64 dst i v (i + 1) ≡ v / 2 ^ 8 % 256)
      × (set_le64 dst i v (i + 2) ≡ v / 2 ^ 16 % 256)
      × (set_le64 dst i v (i + 3) ≡ v / 2 ^ 24 % 256)
      × (set_le64 dst i v (i + 4) ≡ v / 2 ^ 32 % 256)
      × (set_le64 dst i v (i + 5) ≡ v / 2 ^ 40 % 256)
      × (set_le64 dst i v (i + 7) ≡ v / 2 ^ 56 % 256)
unfolding set_le64
set_le64_bytes dst i v = (
  ground arith,
  ground arith,
  ground arith,
  ground arith,
  ground arith,
  ground arith,
  ground arith,
)

-- Reading back a 64-bit field drops the seventh byte of what was written.
get_le64-set_le64 :
    (dst : Bytes) (i v : ℕ) → get_le64 (set_le64 dst i v) i ≡ v % 2 ^ 48 + v / 2 ^ 56 % 256 * 2 ^ 56
get_le64-set_le64 dst i v = omega (arith, set_le64_bytes dst i v, get_le64-sum (set_le64 dst i v) i)

-- `getLe64` reads back a 64-bit value that `setLe64` stored exactly when bits 48 to 55 of the
-- value are zero.
pub get_le64-set_le64_iff :
    (dst : Bytes) (i v : ℕ)
    → v < 2 ^ 64
    → (get_le64 (set_le64 dst i v) i ≡ v) ↔ (v / 2 ^ 48 % 256 ≡ 0)
get_le64-set_le64_iff dst i v h =
    (λ e. omega (arith, get_le64-set_le64 dst i v), λ e. omega (arith, get_le64-set_le64 dst i v))

pub set_le16-IsBytes : (dst : Bytes) (i v : ℕ) → IsBytes dst → IsBytes (set_le16 dst i v)
unfolding set_le16
set_le16-IsBytes dst i v h j = ground (arith, h j)

pub set_le32-IsBytes : (dst : Bytes) (i v : ℕ) → IsBytes dst → IsBytes (set_le32 dst i v)
unfolding set_le32
set_le32-IsBytes dst i v h j = ground (arith, h j)
