-- ===== src/DateTime/Laws.antt =====
-- Round trips of the packed fields, and their order.
use sd_fat.Base.{
  ℕ, ◌+◌, ◌-◌, ◌*◌, ◌/◌, ◌%◌, ◌^◌, ◌≤◌, ◌<◌, ◌≡◌, ◌⊎◌, ◌↔◌, arith, ltb, if◌then◌else◌,
}
use sd_fat.Base.Bits.{or_fields, and_low}
use sd_fat.DateTime.{fs_date, fs_year, fs_month, fs_day, fs_time, fs_hour, fs_minute, fs_second}

-- A date that the format can hold; month 0 and day 0 pass the source's tests.
pub record IsDate (y m d : ℕ) : Type 0 where
  pub year_low : 1980 ≤ y
  pub year_high : y ≤ 2107
  pub month : m ≤ 12
  pub day : d ≤ 31

pub record IsTime (h m s : ℕ) : Type 0 where
  pub hour : h ≤ 23
  pub minute : m ≤ 59
  pub second : s ≤ 59

-- The fields side by side.
pub fs_date-sum : (y m d : ℕ) → IsDate y m d → fs_date y m d ≡ (y - 1980) * 2 ^ 9 + m * 2 ^ 5 + d
unfolding fs_date
fs_date-sum y m d h = ground (
  arith,
  h.year_low,
  h.year_high,
  h.month,
  h.day,
  or_fields 9 (y - 1980) (m * 2 ^ 5),
  or_fields 5 ((y - 1980) * 16 + m) d,
)

pub fs_time-sum : (h m s : ℕ) → IsTime h m s → fs_time h m s ≡ h * 2 ^ 11 + m * 2 ^ 5 + s / 2
unfolding fs_time
fs_time-sum h m s k = ground (
  arith,
  k.hour,
  k.minute,
  k.second,
  or_fields 11 h (m * 2 ^ 5),
  or_fields 5 (h * 64 + m) (s / 2),
)

-- A packed date from 1980 to 2107 gives back its year, month and day.
pub fs_date_fields :
    (y m d : ℕ)
    → IsDate y m d
    → (fs_year (fs_date y m d) ≡ y) × (fs_month (fs_date y m d) ≡ m) × (fs_day (fs_date y m d) ≡ d)
unfolding fs_year fs_month fs_day
fs_date_fields y m d h =
    let e = fs_date-sum y m d h in
    (
      omega (arith, e, h.year_low, h.year_high, h.month, h.day),
      omega (arith, e, and_low 4 (fs_date y m d / 2 ^ 5), h.month, h.day),
      omega (arith, e, and_low 5 (fs_date y m d), h.day),
    )

-- A packed time gives back its hour and minute, and its second rounded down to an even one.
pub fs_time_fields :
    (h m s : ℕ)
    → IsTime h m s
    → (fs_hour (fs_time h m s) ≡ h)
      × (fs_minute (fs_time h m s) ≡ m)
      × (fs_second (fs_time h m s) ≡ s - s % 2)
unfolding fs_hour fs_minute fs_second
fs_time_fields h m s k =
    let e = fs_time-sum h m s k in
    (
      omega (arith, e, k.hour, k.minute, k.second),
      omega (arith, e, and_low 6 (fs_time h m s / 2 ^ 5), k.minute, k.second),
      omega (arith, e, and_low 5 (fs_time h m s), k.second),
    )

-- Packing the fields of a 16-bit date gives the date back, or 0 when its month field is above 12.
pub fs_date_repack :
    (date : ℕ)
    → date < 2 ^ 16
    → fs_date (fs_year date) (fs_month date) (fs_day date)
      ≡ (if ltb 12 (fs_month date) then 0 else date)
unfolding fs_date fs_year fs_month fs_day
fs_date_repack date h = ground (
  arith,
  and_low 4 (date / 2 ^ 5),
  and_low 5 date,
  or_fields 9 (date / 2 ^ 9) (date / 2 ^ 5 % 2 ^ 4 * 2 ^ 5),
  or_fields 5 (date / 2 ^ 5) (date % 2 ^ 5),
)

-- The order of the calendar.
abbrev pub IsBefore : ℕ → ℕ → ℕ → ℕ → ℕ → ℕ → Type 0
IsBefore y m d y' m' d' = (y < y') ⊎ ((y ≡ y') × (m < m')) ⊎ ((y ≡ y') × (m ≡ m') × (d < d'))

-- Packed dates from 1980 to 2107 have the order of the calendar.
pub fs_date_order :
    (y m d y' m' d' : ℕ)
    → IsDate y m d
    → IsDate y' m' d'
    → (fs_date y m d < fs_date y' m' d') ↔ IsBefore y m d y' m' d'
fs_date_order y m d y' m' d' h h' = ground (
  arith,
  fs_date-sum y m d h,
  fs_date-sum y' m' d' h',
  h.year_low,
  h'.year_low,
  h.month,
  h.day,
  h'.month,
  h'.day,
)
