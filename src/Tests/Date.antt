-- ===== src/Tests/Date.antt =====
-- Dates at concrete inputs.
use httpuv.Base.{◌+◌, ◌<◌, ◌^◌, ◌≡◌, refl, ◌+ℤ◌, ◌*ℤ◌, padded, arith, ℤ, pos, sub_ℕ, bytes}
use httpuv.Date.{Tm, name_of, month_name, days_since_1970, http_date_string, parse_http_date_string}
use httpuv.Date.Calendar.{
  day_number, days_since_1970-day_number, is_leap, days_in_month, days_before_month,
  days_before_year,
}
use httpuv.Date.Printed.{IsUtc, parse_http_date_string-http_date_string}

days_since_1970-day_number_example :
    (days_since_1970 (pos 2024) 2 29 ≡ sub_ℕ (day_number 2024 2 29) (day_number 1970 1 1))
    × (day_number 2024 2 29 + 306 < 2 ^ 31)
days_since_1970-day_number_example =
    days_since_1970-day_number 2024 2 29 (omega arith) (omega arith) (omega arith) (omega arith)
      (omega arith) (omega arith)

-- Sun, 06 Nov 1994 08:49:37 GMT.
abbrev pub some_time : ℤ → Tm
some_time _ = record {
  tm_wday = 0;
  tm_mday = 6;
  tm_mon = pos 10;
  tm_year = pos 94;
  tm_hour = 8;
  tm_min = 49;
  tm_sec = 37;
}

pub some_time-IsUtc : IsUtc (pos 784111777) (some_time (pos 784111777))
unfolding day_number is_leap days_in_month days_before_month days_before_year sub_ℕ ◌+ℤ◌ ◌*ℤ◌
some_time-IsUtc = record {
  year = 1994;
  month = 10;
  year_in = (omega arith, omega arith);
  year_is = refl;
  month_in = omega arith;
  month_is = refl;
  week_in = omega arith;
  day_in = (omega arith, omega arith);
  time_in = (omega arith, omega arith, omega arith);
  time_is = refl;
}

parse_http_date_string-http_date_string_example :
    parse_http_date_string (http_date_string some_time (pos 784111777)) ≡ pos 784111777
parse_http_date_string-http_date_string_example =
    parse_http_date_string-http_date_string some_time (pos 784111777) some_time-IsUtc

some_text : http_date_string some_time (pos 784111777) ≡ bytes "Sun, 06 Nov 1994 08:49:37 GMT"
unfolding http_date_string name_of month_name padded ◌+ℤ◌
some_text = refl
