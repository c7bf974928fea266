-- ===== src/Date/Calendar.antt =====
-- `days_since_1970` counts the days of the calendar.
use httpuv.Base.{
  ℕ, zero, suc, ◌+◌, ◌-◌, ◌*◌, ◌/◌, ◌%◌, ◌^◌, ◌≤◌, ◌<◌, ◌≡◌, refl, ap, ◌∙◌, arith, Bool, true,
  false, ltb, leb, ◌==◌, ◌||◌, not, if◌then◌else◌, pos, ◌+ℤ◌, ◌-ℤ◌, ◌*ℤ◌, quot_ℤ, sub_ℕ,
}
use httpuv.Date.{days_since_1970}

-- The leap years of the Gregorian calendar.
unfoldable pub is_leap : ℕ → Bool
is_leap y = if not (y % 4 == 0) then false else if not (y % 100 == 0) then true else y % 400 == 0

-- The months run from 1 to 12.
unfoldable pub days_in_month : ℕ → ℕ → ℕ
unfolding is_leap
days_in_month y m =
    if m == 2
    then (if is_leap y then 29 else 28)
    else if (m == 4) || (m == 6) || (m == 9) || (m == 11)
    then 30
    else 31

-- The days before a month of a year, month by month.
unfoldable pub days_before_month : ℕ → ℕ → ℕ
days_before_month y zero = 0
days_before_month y (suc zero) = 0
days_before_month y (suc (suc m)) = days_before_month y (suc m) + days_in_month y (suc m)

-- The days from the first of January of the year 1 to that of a year, year by year.
unfoldable pub days_before_year : ℕ → ℕ
unfolding is_leap
days_before_year zero = 0
days_before_year (suc zero) = 0
days_before_year (suc (suc y)) = days_before_year (suc y) + (if is_leap (suc y) then 366 else 365)

-- The day's number, the first of January of the year 1 being 0.
unfoldable pub day_number : ℕ → ℕ → ℕ → ℕ
day_number y m d = days_before_year y + days_before_month y m + (d - 1)

-- The same for years that begin in March, from the first of March 0000 on, which is 306 days
-- before the year 1.
march : ℕ → ℕ
march n = n * 365 + n / 4 - n / 100 + n / 400

closed : (y : ℕ) → days_before_year (suc y) ≡ march y
unfolding days_before_year is_leap march
closed zero = refl
closed (suc y) = ground (arith, closed y)

-- The days of such a year before a month.
month_start : ℕ → ℕ
month_start m = (153 * (if ltb 2 m then m - 3 else m + 9) + 2) / 5

march_step : (p : ℕ) → march (suc p) ≡ march p + (if is_leap (suc p) then 366 else 365)
unfolding march is_leap
march_step p = ground arith

-- The days before a month, with the days from March of the year before.
month_sum :
    (y m : ℕ)
    → 1 ≤ m
    → m ≤ 12
    → days_before_month y m + 306
      ≡ month_start m + (if leb m 2 then 0 else if is_leap y then 366 else 365)
unfolding days_before_month days_in_month month_start
month_sum y zero lo hi = absurd (omega arith)
month_sum y (suc zero) lo hi = ground arith
month_sum y (suc (suc zero)) lo hi = ground arith
month_sum y (suc (suc (suc zero))) lo hi = ground arith
month_sum y (suc (suc (suc (suc zero)))) lo hi = ground arith
month_sum y (suc (suc (suc (suc (suc zero))))) lo hi = ground arith
month_sum y (suc (suc (suc (suc (suc (suc zero)))))) lo hi = ground arith
month_sum y (suc (suc (suc (suc (suc (suc (suc zero))))))) lo hi = ground arith
month_sum y (suc (suc (suc (suc (suc (suc (suc (suc zero)))))))) lo hi = ground arith
month_sum y (suc (suc (suc (suc (suc (suc (suc (suc (suc zero))))))))) lo hi = ground arith
month_sum y (suc (suc (suc (suc (suc (suc (suc (suc (suc (suc zero)))))))))) lo hi = ground arith
month_sum y (suc (suc (suc (suc (suc (suc (suc (suc (suc (suc (suc zero))))))))))) lo hi =
    ground arith
month_sum y (suc (suc (suc (suc (suc (suc (suc (suc (suc (suc (suc (suc zero)))))))))))) lo hi =
    ground arith
month_sum y (suc (suc (suc (suc (suc (suc (suc (suc (suc (suc (suc (suc (suc m))))))))))))) lo hi =
    absurd (omega arith)

abbrev year_of : ℕ → ℕ → ℕ
year_of p m = if leb m 2 then p else suc p

by_month :
    (p m : ℕ)
    → 1 ≤ m
    → m ≤ 12
    → days_before_year (suc p) + days_before_month (suc p) m + 306
      ≡ march (year_of p m) + month_start m
by_month p m lo hi = ground (arith, closed p, march_step p, month_sum (suc p) m lo hi)

add_pos : (a b : ℕ) → pos a +ℤ pos b ≡ pos (a + b)
unfolding ◌+ℤ◌
add_pos a b = ground arith

sub_pos : (a b : ℕ) → pos a -ℤ pos b ≡ sub_ℕ a b
unfolding ◌-ℤ◌
sub_pos a b = ground arith

sub_le : (a b : ℕ) → b ≤ a → sub_ℕ a b ≡ pos (a - b)
sub_le a b h = ground arith

mul_pos : (k a : ℕ) → k *ℤ pos a ≡ pos (k * a)
unfolding ◌*ℤ◌
mul_pos k a = ground arith

quot_pos : (a n : ℕ) → 0 < n → quot_ℤ (pos a) n ≡ pos (a / n)
unfolding quot_ℤ
quot_pos a n h = ground arith

-- The year in which the months from March on are counted.
moved : (p m : ℕ) → (if leb m 2 then pos (suc p) -ℤ pos 1 else pos (suc p)) ≡ pos (year_of p m)
unfolding ◌-ℤ◌
moved p m = ground arith

year_of_era : (n : ℕ) → pos n -ℤ 400 *ℤ pos (n / 400) ≡ pos (n % 400)
year_of_era n =
    rw (mul_pos, sub_pos, sub_le n (400 * (n / 400)) (omega arith)) (ap pos (omega arith))

days_of_era :
    (k s : ℕ)
    → 1 ≤ s
    → 365 *ℤ pos k +ℤ quot_ℤ (pos k) 4 -ℤ quot_ℤ (pos k) 100 +ℤ (pos s -ℤ pos 1)
      ≡ pos (365 * k + k / 4 - k / 100 + (s - 1))
days_of_era k s h = rw (
  mul_pos,
  quot_pos k 4 (omega arith),
  quot_pos k 100 (omega arith),
  add_pos,
  sub_pos,
  sub_le (365 * k + k / 4) (k / 100) (omega arith),
  sub_pos s 1,
  sub_le s 1 h,
  add_pos,
)

from_march :
    (n s : ℕ)
    → 1 ≤ s
    → pos (146097 * (n / 400))
        +ℤ pos (365 * (n % 400) + n % 400 / 4 - n % 400 / 100 + (s - 1))
        -ℤ pos 719468
      ≡ sub_ℕ (march n + (s - 1)) 719468
unfolding march
from_march n s h =
    let sum : 146097 * (n / 400) + (365 * (n % 400) + n % 400 / 4 - n % 400 / 100 + (s - 1))
        ≡ n * 365 + n / 4 - n / 100 + n / 400 + (s - 1) =
      omega arith in
    rw (add_pos, sub_pos, sum)

epoch : day_number 1970 1 1 ≡ 719162
unfolding day_number days_before_year days_before_month is_leap
epoch = refl

same_difference : (a b : ℕ) → a ≡ b + 306 → sub_ℕ a 719468 ≡ sub_ℕ b 719162
same_difference a b e = ground (arith, e)

day_number-march :
    (p m d : ℕ)
    → 1 ≤ m
    → m ≤ 12
    → 1 ≤ d
    → march (year_of p m) + (month_start m + d - 1) ≡ day_number (suc p) m d + 306
unfolding day_number
day_number-march p m d lo hi hd = omega (arith, by_month p m lo hi)

calendar_day :
    (y m d : ℕ)
    → 1 ≤ y
    → 1 ≤ m
    → m ≤ 12
    → 1 ≤ d
    → days_since_1970 (pos y) m d ≡ sub_ℕ (day_number y m d) (day_number 1970 1 1)
unfolding days_since_1970 month_start
calendar_day zero m d hy lo hi hd = absurd (omega arith)
calendar_day (suc p) m d hy lo hi hd =
    let n = year_of p m in
    rw
      (
        moved p m,
        quot_pos n 400 (omega arith),
        year_of_era n,
        days_of_era (n % 400) (month_start m + d) (omega arith),
        mul_pos,
        epoch,
      )
      (from_march n (month_start m + d) (omega arith)
        ∙ same_difference _ _ (day_number-march p m d lo hi hd))

month_start_bound : (m : ℕ) → 1 ≤ m → m ≤ 12 → month_start m ≤ 337
unfolding month_start
month_start_bound m lo hi = ground arith

-- `days_since_1970` is the number of the day in the calendar, less that of the first of January
-- 1970, for every year from 1 to 5000000, month from 1 to 12, and day from 1 to 31. There the sum
-- that the code holds before it subtracts 719468, which is 306 more than the number of the day,
-- is below 2^31.
pub days_since_1970-day_number :
    (y m d : ℕ)
    → 1 ≤ y
    → y ≤ 5000000
    → 1 ≤ m
    → m ≤ 12
    → 1 ≤ d
    → d ≤ 31
    → (days_since_1970 (pos y) m d ≡ sub_ℕ (day_number y m d) (day_number 1970 1 1))
      × (day_number y m d + 306 < 2 ^ 31)
unfolding march
days_since_1970-day_number zero m d hy y_in lo hi hd d_in = absurd (omega arith)
days_since_1970-day_number (suc p) m d hy y_in lo hi hd d_in =
    let year_le : year_of p m ≤ suc p = ground arith in
    (
      calendar_day (suc p) m d hy lo hi hd,
      omega (arith, day_number-march p m d lo hi hd, month_start_bound m lo hi, year_le),
    )
