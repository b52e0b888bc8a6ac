-- ===== src/Endian.antt =====
-- src/common/FsStructs.h: little-endian fields of on-disk structures, for processors where
-- USE_SIMPLE_LITTLE_ENDIAN is 0. Memory is a function from addresses to bytes.
pub mod Laws
mod Tests
use sd_fat.Base.{ℕ, ◌+◌, ◌%◌, ◌^◌, bit_or, u8, u16, u32, ◌<<<◌, ◌>>>◌, ◌==◌, if◌then◌else◌}

-- The bytes that a pointer reaches, by their offset.
abbrev pub Bytes : Type 0
Bytes = ℕ → ℕ

-- `dst[i] = v` for a byte v.
abbrev pub poke : Bytes → ℕ → ℕ → Bytes
poke dst i v j = if i == j then u8 v else dst j

unfoldable pub get_le16 : Bytes → ℕ → ℕ
get_le16 src i = u16 (bit_or (src i <<< 0) (src (i + 1) <<< 8))

unfoldable pub get_le32 : Bytes → ℕ → ℕ
get_le32 src i = u32 (
    bit_or (bit_or (bit_or (src i <<< 0) (src (i + 1) <<< 8)) (src (i + 2) <<< 16))
      (src (i + 3) <<< 24))

-- The code has no term for `src[6]`.
unfoldable pub get_le64 : Bytes → ℕ → ℕ
get_le64 src i =
    bit_or
      (bit_or
        (bit_or
          (bit_or (bit_or (bit_or (src i <<< 0) (src (i + 1) <<< 8)) (src (i + 2) <<< 16))
            (src (i + 3) <<< 24))
          (src (i + 4) <<< 32))
        (src (i + 5) <<< 40))
      (src (i + 7) <<< 56)
    % 2 ^ 64

unfoldable pub set_le16 : Bytes → ℕ → ℕ → Bytes
set_le16 dst i src = poke (poke dst i (src >>> 0)) (i + 1) (src >>> 8)

unfoldable pub set_le32 : Bytes → ℕ → ℕ → Bytes
set_le32 dst i src =
    let d = poke dst i (src >>> 0) in
    let d = poke d (i + 1) (src >>> 8) in
    let d = poke d (i + 2) (src >>> 16) in poke d (i + 3) (src >>> 24)

unfoldable pub set_le64 : Bytes → ℕ → ℕ → Bytes
set_le64 dst i src =
    let d = poke dst i (src >>> 0) in
    let d = poke d (i + 1) (src >>> 8) in
    let d = poke d (i + 2) (src >>> 16) in
    let d = poke d (i + 3) (src >>> 24) in
    let d = poke d (i + 4) (src >>> 32) in
    let d = poke d (i + 5) (src >>> 40) in
    let d = poke d (i + 6) (src >>> 48) in poke d (i + 7) (src >>> 56)
