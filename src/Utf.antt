-- ===== src/Utf.antt =====
-- src/common/FsUtf.h and FsUtf.cpp: UTF-8 and UTF-16. The characters from `str` to `end` are the
-- list of their bytes; a pointer that is returned is the list behind it, and nullptr is `none`.
pub mod Laws
mod Tests
use sd_fat.Base.{
  ℕ, zero, suc, ◌+◌, ◌-◌, ◌*◌, ◌/◌, ◌%◌, ◌^◌, bit_and, bit_or, ◌||◌, ◌&&◌, Bool, not, Option, none,
  some, List, [], ◌∷◌, ltb, leb, ◌==◌, if◌then◌else◌, u8, u16, u32, ◌<<<◌, ◌>>>◌,
}
use sd_fat.Base.Lists.{length}

unfoldable pub high_surrogate : ℕ → ℕ
high_surrogate cp = u16 (cp >>> 10 + (0xD800 - 0x10000 / 2 ^ 10))

unfoldable pub low_surrogate : ℕ → ℕ
low_surrogate cp = u16 (bit_and cp 0x3FF + 0xDC00)

abbrev pub is_valid_cp : ℕ → Bool
is_valid_cp cp = leb cp 0x10FFFF && (ltb cp 0xD800 || ltb 0xDFFF cp)

abbrev pub is_surrogate : ℕ → Bool
is_surrogate c = leb 0xD800 c && leb c 0xDFFF

abbrev pub is_high_surrogate : ℕ → Bool
is_high_surrogate c = leb 0xD800 c && leb c 0xDBFF

abbrev pub is_low_surrogate : ℕ → Bool
is_low_surrogate c = leb 0xDC00 c && leb c 0xDFFF

unfoldable pub u16_to_cp : ℕ → ℕ → ℕ
u16_to_cp hs ls = 0x10000 + bit_or (bit_and hs 0x3FF <<< 10) (bit_and ls 0x3FF)

-- The bytes stored, when `n` of them have room.
unfoldable pub cp_to_mb : ℕ → ℕ → Option (List ℕ)
cp_to_mb cp n =
    if ltb cp 0x80
    then (if ltb n 1 then none else some (u8 cp ∷ []))
    else if ltb cp 0x800
    then (if ltb n 2
        then none
        else some (u8 (bit_or (cp >>> 6) 0xC0) ∷ u8 (bit_or (bit_and cp 0x3F) 0x80) ∷ []))
    else if ltb cp 0x10000
    then (if ltb n 3
        then none
        else some (
            u8 (bit_or (cp >>> 12) 0xE0)
            ∷ u8 (bit_or (bit_and (cp >>> 6) 0x3F) 0x80)
            ∷ u8 (bit_or (bit_and cp 0x3F) 0x80)
            ∷ []))
    else if ltb n 4
    then none
    else some (
        u8 (bit_or (cp >>> 18) 0xF0)
        ∷ u8 (bit_or (bit_and (cp >>> 12) 0x3F) 0x80)
        ∷ u8 (bit_or (bit_and (cp >>> 6) 0x3F) 0x80)
        ∷ u8 (bit_or (bit_and cp 0x3F) 0x80)
        ∷ [])

-- The loop of `mbToCp`, for the `n` continuation bytes left. The end of the list is not met,
-- since the length has been tested.
pub continue_cp : ℕ → ℕ → List ℕ → Option (ℕ × List ℕ)
continue_cp zero cp str = some (cp, str)
continue_cp (suc n) cp [] = none
continue_cp (suc n) cp (ch ∷ str) =
    let rest = continue_cp n (bit_or (u32 (cp <<< 6)) (bit_and ch 0x3F)) str in
    if bit_and ch 0xC0 == 0x80 then rest else none

-- The test after the loop.
abbrev pub check_cp : Option (ℕ × List ℕ) → Option (ℕ × List ℕ)
check_cp none = none
check_cp (some (cp, str)) = if ltb cp 0x80 || not (is_valid_cp cp) then none else some (cp, str)

-- The part of `mbToCp` behind the choice of `n`, with `n - 1` bytes to follow.
pub tail_cp : ℕ → ℕ → List ℕ → Option (ℕ × List ℕ)
unfolding continue_cp
tail_cp more cp str = if ltb (length str) more then none else check_cp (continue_cp more cp str)

unfoldable pub mb_to_cp : List ℕ → Option (ℕ × List ℕ)
unfolding tail_cp
mb_to_cp [] = none
mb_to_cp (ch ∷ str) =
    if bit_and ch 0x80 == 0
    then some (ch, str)
    else if bit_and ch 0xE0 == 0xC0
    then tail_cp 1 (bit_and ch 0x1F) str
    else if bit_and ch 0xF0 == 0xE0
    then tail_cp 2 (bit_and ch 0x0F) str
    else if bit_and ch 0xF8 == 0xF0
    then tail_cp 3 (bit_and ch 0x07) str
    else none

-- `hs`, `ls` and the pointer.
abbrev pub split_cp : Option (ℕ × List ℕ) → Option (ℕ × ℕ × List ℕ)
split_cp none = none
split_cp (some (cp, str)) =
    if leb cp 0xFFFF then some (u16 cp, 0, str) else some (high_surrogate cp, low_surrogate cp, str)

unfoldable pub mb_to_u16 : List ℕ → Option (ℕ × ℕ × List ℕ)
mb_to_u16 str = split_cp (mb_to_cp str)
