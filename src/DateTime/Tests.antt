-- ===== src/DateTime/Tests.antt =====
-- Dates and times, packed and unpacked.
use sd_fat.Base.{◌≡◌, arith}
use sd_fat.DateTime.{fs_date, fs_year, fs_month, fs_day}
use sd_fat.DateTime.Laws.{IsDate, IsTime, fs_date_fields}

leap_day : IsDate 2024 2 29
leap_day = record {
  year_low = omega arith;
  year_high = omega arith;
  month = omega arith;
  day = omega arith;
}

new_year : IsDate 2025 1 1
new_year = record {
  year_low = omega arith;
  year_high = omega arith;
  month = omega arith;
  day = omega arith;
}

evening : IsTime 23 59 59
evening = record { hour = omega arith; minute = omega arith; second = omega arith }

fs_date_fields_example :
    (fs_year (fs_date 2024 2 29) ≡ 2024)
    × (fs_month (fs_date 2024 2 29) ≡ 2)
    × (fs_day (fs_date 2024 2 29) ≡ 29)
fs_date_fields_example = fs_date_fields 2024 2 29 leap_day
