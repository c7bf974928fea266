-- ===== src/Date.antt =====
-- Dates in HTTP: src/timegm.cpp, and `http_date_string` and `parse_http_date_string` with their
-- helpers (src/utils.h, src/utils.cpp). A `struct tm` is a record, an `int` an integer,
-- exact where nothing overflows; a stream is the bytes that are left of it.
pub mod Calendar
pub mod Printed
use httpuv.Base.{
  ℕ, zero, suc, ◌+◌, ◌-◌, ◌*◌, ◌/◌, ◌%◌, Bool, true, false, ◌&&◌, not, List, [], ◌∷◌, ◌++◌, Bytes,
  bytes, bytes_eq, ltb, leb, ◌==◌, if◌then◌else◌, ◌>>=◌, length, get_or, take, drop, Option, none,
  some, ℤ, pos, negsuc, pos_part, neg_part, ◌+ℤ◌, ◌-ℤ◌, ◌*ℤ◌, quot_ℤ, ltb_ℤ, padded,
}

pub record Tm : Type 0 where
  pub tm_wday : ℕ
  pub tm_mday : ℕ
  pub tm_mon : ℤ
  pub tm_year : ℤ
  pub tm_hour : ℕ
  pub tm_min : ℕ
  pub tm_sec : ℕ

-- The months run from 1 to 12. For years from 1 to 5000000 and days to 31, no `int` overflows.
unfoldable pub days_since_1970 : ℤ → ℕ → ℕ → ℤ
days_since_1970 y m d =
    let y = if leb m 2 then y -ℤ pos 1 else y in
    let era = quot_ℤ y 400 in
    let yoe = y -ℤ 400 *ℤ era in
    let doy = pos ((153 * (if ltb 2 m then m - 3 else m + 9) + 2) / 5 + d) -ℤ pos 1 in
    let doe = 365 *ℤ yoe +ℤ quot_ℤ yoe 4 -ℤ quot_ℤ yoe 100 +ℤ doy in
    146097 *ℤ era +ℤ doe -ℤ pos 719468

-- The year and the month, from 0 to 11, after months outside the year are moved into it.
unfoldable pub normalized : ℤ → ℤ → ℤ × ℕ
normalized year month =
    if ltb_ℤ (pos 11) month
    then (year +ℤ quot_ℤ month 12, pos_part month % 12)
    else if ltb_ℤ month (pos 0)
    then (let years_diff = (11 + neg_part month) / 12 in
        (year -ℤ pos years_diff, pos_part (month +ℤ pos (12 * years_diff))))
    else (year, pos_part month)

unfoldable pub timegm2 : Tm → ℤ
timegm2 t =
    let (year, month) = normalized (t.tm_year +ℤ pos 1900) t.tm_mon in
    let days_since_epoch = days_since_1970 year (month + 1) t.tm_mday in
    60 *ℤ (60 *ℤ (24 *ℤ days_since_epoch +ℤ pos t.tm_hour) +ℤ pos t.tm_min) +ℤ pos t.tm_sec

-- The tables of the parser.
abbrev pub days_of_week : List Bytes
days_of_week =
    bytes "Sun"
    ∷ bytes "Mon"
    ∷ bytes "Tue"
    ∷ bytes "Wed"
    ∷ bytes "Thu"
    ∷ bytes "Fri"
    ∷ bytes "Sat"
    ∷ []

abbrev pub months : List Bytes
months =
    bytes "Jan"
    ∷ bytes "Feb"
    ∷ bytes "Mar"
    ∷ bytes "Apr"
    ∷ bytes "May"
    ∷ bytes "Jun"
    ∷ bytes "Jul"
    ∷ bytes "Aug"
    ∷ bytes "Sep"
    ∷ bytes "Oct"
    ∷ bytes "Nov"
    ∷ bytes "Dec"
    ∷ []

-- `digits` digits more behind the number `tmp`: the number, and what is left of the stream.
unfoldable pub read_digits : ℕ → ℕ → Bytes → Option (ℕ × Bytes)
read_digits zero tmp s = some (tmp, s)
read_digits (suc digits) tmp [] = none
read_digits (suc digits) tmp (c ∷ s) =
    if ltb c b'0'
    then none
    else if ltb b'9' c
    then none
    else read_digits digits (tmp * 10 + (c - b'0')) s

unfoldable pub str_read_int : ℕ → Bytes → Option (ℕ × Bytes)
unfolding read_digits
str_read_int zero s = none
str_read_int (suc digits) s = read_digits (suc digits) 0 s

-- `std::find`: the place of a text in a list of texts.
unfoldable pub find_text : Bytes → List Bytes → Option ℕ
find_text s [] = none
find_text s (t ∷ ts) =
    if bytes_eq t s then some 0 else elim (find_text s ts) [ none ↦ none | some i ↦ some (suc i) ]

-- At the end of the stream, which is where it fails, the source reads fewer bytes.
unfoldable pub str_read_lookup : ℕ → List Bytes → Bytes → Option (ℕ × Bytes)
unfolding find_text
str_read_lookup count values s =
    if ltb (length s) count
    then none
    else elim (find_text (take count s) values) [ none ↦ none | some i ↦ some (i, drop count s) ]

-- `get() != c` ends the parse.
unfoldable pub expect : Bytes → Bytes → Option Bytes
expect [] s = some s
expect (c ∷ cs) [] = none
expect (c ∷ cs) (d ∷ s) = if c == d then expect cs s else none

-- The fields of a date and the bytes behind it.
unfoldable pub read_tm : Bytes → Option (Tm × Bytes)
unfolding str_read_int str_read_lookup expect
read_tm s = do
  (wday, s) ← str_read_lookup 3 days_of_week s
  s ← expect (bytes ", ") s
  (mday, s) ← str_read_int 2 s
  s ← expect (bytes " ") s
  (mon, s) ← str_read_lookup 3 months s
  s ← expect (bytes " ") s
  (year, s) ← str_read_int 4 s
  s ← expect (bytes " ") s
  (hour, s) ← str_read_int 2 s
  s ← expect (bytes ":") s
  (min, s) ← str_read_int 2 s
  s ← expect (bytes ":") s
  (sec, s) ← str_read_int 2 s
  s ← expect (bytes " GMT") s
  some (
    record {
      tm_wday = wday;
      tm_mday = mday;
      tm_mon = pos mon;
      tm_year = pos year -ℤ pos 1900;
      tm_hour = hour;
      tm_min = min;
      tm_sec = sec;
    },
    s,
  )

-- 0 for a text that is no date.
unfoldable pub parse_http_date_string : Bytes → ℤ
unfolding read_tm
parse_http_date_string date =
    if not (length date == 29)
    then pos 0
    else elim (read_tm date) [ none ↦ pos 0 | some (t, []) ↦ timegm2 t | some (t, _ ∷ _) ↦ pos 0 ]

-- The names that the two switches give; `none` is the default, on which the result is empty.
unfoldable pub name_of : List Bytes → ℕ → Option Bytes
name_of [] i = none
name_of (t ∷ ts) zero = some t
name_of (t ∷ ts) (suc i) = name_of ts i

-- The cases of the two switches.
abbrev pub day_cases : List Bytes
day_cases =
    bytes "Sun"
    ∷ bytes "Mon"
    ∷ bytes "Tue"
    ∷ bytes "Wed"
    ∷ bytes "Thu"
    ∷ bytes "Fri"
    ∷ bytes "Sat"
    ∷ []

abbrev pub month_cases : List Bytes
month_cases =
    bytes "Jan"
    ∷ bytes "Feb"
    ∷ bytes "Mar"
    ∷ bytes "Apr"
    ∷ bytes "May"
    ∷ bytes "Jun"
    ∷ bytes "Jul"
    ∷ bytes "Aug"
    ∷ bytes "Sep"
    ∷ bytes "Oct"
    ∷ bytes "Nov"
    ∷ bytes "Dec"
    ∷ []

unfoldable pub month_name : ℤ → Option Bytes
unfolding name_of
month_name (pos k) = name_of month_cases k
month_name (negsuc _) = none

-- `%04d`, with the sign of a negative number counted.
unfoldable pub padded_year : ℤ → Bytes
padded_year (pos n) = padded 4 n
padded_year (negsuc n) = b'-' ∷ padded 3 (suc n)

unfoldable pub date_text : Bytes → Bytes → Tm → Bytes
unfolding padded_year
date_text day_name month_name t =
    day_name
    ++ (bytes ", "
        ++ (padded 2 t.tm_mday
            ++ (bytes " "
                ++ (month_name
                    ++ (bytes " "
                        ++ (padded_year (t.tm_year +ℤ pos 1900)
                            ++ (bytes " "
                                ++ (padded 2 t.tm_hour
                                    ++ (bytes ":"
                                        ++ (padded 2 t.tm_min
                                            ++ (bytes ":"
                                                ++ (padded 2 t.tm_sec ++ bytes " GMT"))))))))))))

-- `gmtime` stands for `gmtime_r`. The buffer of 50 bytes holds 49 and the end.
unfoldable pub http_date_string : (ℤ → Tm) → ℤ → Bytes
unfolding date_text
http_date_string gmtime z =
    let t = gmtime z in
    elim (name_of day_cases t.tm_wday) [
      | none ↦ []
      | some day_name ↦ elim (month_name t.tm_mon) [
        | none ↦ []
        | some month ↦ take 49 (date_text day_name month t)
      ]
    ]
