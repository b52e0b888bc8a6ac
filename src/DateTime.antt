-- ===== src/DateTime.antt =====
-- src/common/FsDateTime.h: the packed date and time fields of a directory entry. A field is a
-- number below 2 ^ 16; `year`, `hour` and the rest are the numbers that the parameter types hold.
pub mod Laws
mod Tests
use sd_fat.Base.{
  ℕ, ◌+◌, ◌*◌, ◌/◌, ◌%◌, ◌^◌, bit_and, bit_or, ◌||◌, ltb, if◌then◌else◌, u8, u16, sub16, ◌<<<◌,
  ◌>>>◌,
}

unfoldable pub fs_date : ℕ → ℕ → ℕ → ℕ
fs_date year month day =
    let y = sub16 year 1980 in
    if ltb 127 y || ltb 12 month || ltb 31 day
    then 0
    else u16 (bit_or (bit_or (y <<< 9) (month <<< 5)) day)

unfoldable pub fs_year : ℕ → ℕ
fs_year date = u16 (1980 + date >>> 9)

unfoldable pub fs_month : ℕ → ℕ
fs_month date = bit_and (date >>> 5) 0xF

unfoldable pub fs_day : ℕ → ℕ
fs_day date = bit_and date 0x1F

unfoldable pub fs_time : ℕ → ℕ → ℕ → ℕ
fs_time hour minute second =
    if ltb 23 hour || ltb 59 minute || ltb 59 second
    then 0
    else u16 (bit_or (bit_or (hour <<< 11) (minute <<< 5)) (second >>> 1))

unfoldable pub fs_hour : ℕ → ℕ
fs_hour time = u8 (time >>> 11)

unfoldable pub fs_minute : ℕ → ℕ
fs_minute time = bit_and (time >>> 5) 0x3F

unfoldable pub fs_second : ℕ → ℕ
fs_second time = u8 (2 * bit_and time 0x1F)
