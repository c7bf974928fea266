-- ===== src/Date/Printed.antt =====
-- A date that was printed is parsed back.
use httpuv.Base.{
  ℕ, ◌+◌, ◌/◌, ◌%◌, ◌≤◌, ◌<◌, ◌≡◌, refl, ap, sym, ◌∙◌, arith, Bool, true, false, ◌&&◌, ltb, ◌==◌,
  List, [], ◌∷◌, Bytes, bytes_eq, bytes_eq_iff, Option, none, some, inl, inr, Option-cases, length,
  take, get_or, holds_below, holds_at, padded-two, padded-four, ℤ, pos, ◌+ℤ◌, ◌-ℤ◌, ◌*ℤ◌, sub_ℕ,
  +ℤ_parts, -ℤ_parts, eq_of_parts,
}
use httpuv.Date.{
  Tm, normalized, timegm2, days_of_week, months, read_digits, str_read_int, find_text,
  str_read_lookup, expect, read_tm, parse_http_date_string, name_of, month_name, padded_year,
  date_text, http_date_string,
}
use httpuv.Date.Calendar.{day_number, days_since_1970-day_number}

-- What `gmtime_r` fills in for a time: fields within their ranges, in a year from 1 to 9999, whose
-- day is counted by the calendar from the first of January 1970.
pub record IsUtc (z : ℤ) (t : Tm) : Type 0 where
  pub year : ℕ
  pub month : ℕ
  pub year_in : (1 ≤ year) × (year ≤ 9999)
  pub year_is : t.tm_year +ℤ pos 1900 ≡ pos year
  pub month_in : month < 12
  pub month_is : t.tm_mon ≡ pos month
  pub week_in : t.tm_wday < 7
  pub day_in : (1 ≤ t.tm_mday) × (t.tm_mday ≤ 31)
  pub time_in : (t.tm_hour < 24) × (t.tm_min < 60) × (t.tm_sec ≤ 60)
  pub time_is :
      z
      ≡ 60
          *ℤ (60
                *ℤ (24 *ℤ sub_ℕ (day_number year (month + 1) t.tm_mday) (day_number 1970 1 1)
                    +ℤ pos t.tm_hour)
              +ℤ pos t.tm_min)
        +ℤ pos t.tm_sec

-- Three bytes, found at an index of a list.
record IsName (names : List Bytes) (i : ℕ) (s : Bytes) : Type 0 where
  three : s ≡ get_or s 0 0 ∷ get_or s 1 0 ∷ get_or s 2 0 ∷ []
  found : find_text s names ≡ some i

is_at : Option ℕ → ℕ → Bool
is_at none i = false
is_at (some j) i = j == i

good_name : List Bytes → ℕ → Bool
good_name names i = elim (name_of names i) [
  | none ↦ false
  | some s ↦
      bytes_eq s (get_or s 0 0 ∷ get_or s 1 0 ∷ get_or s 2 0 ∷ []) && is_at (find_text s names) i
]

good_names :
    (holds_below 7 (good_name days_of_week) ≡ true) × (holds_below 12 (good_name months) ≡ true)
unfolding holds_below good_name is_at name_of find_text bytes_eq
good_names = (refl, refl)

is_at_lem : (o : Option ℕ) (i : ℕ) → is_at o i ≡ true → o ≡ some i
unfolding is_at
is_at_lem none i e = ground arith
is_at_lem (some j) i e = ground arith

named-IsName :
    (names : List Bytes) (i : ℕ)
    → good_name names i ≡ true
    → (s : Bytes) × (name_of names i ≡ some s) × IsName names i s
unfolding good_name
named-IsName names i e = elim (Option-cases (name_of names i)) [
  | inl absent ↦ absurd (ground (arith, rw (good_name, absent) at e))
  | inr (s, named) ↦
      let good = rw (good_name, named) at e in
      (
        s,
        named,
        record {
          three =
              (bytes_eq_iff s (get_or s 0 0 ∷ get_or s 1 0 ∷ get_or s 2 0 ∷ [])).0
                (ground (arith, good));
          found = is_at_lem (find_text s names) i (ground (arith, good));
        },
      )
]

lookup_read :
    (names : List Bytes) (i a b c : ℕ) (rest : Bytes)
    → find_text (a ∷ b ∷ c ∷ []) names ≡ some i
    → str_read_lookup 3 names (a ∷ b ∷ c ∷ rest) ≡ some (i, rest)
unfolding str_read_lookup
lookup_read names i a b c rest e =
    let long : ltb (length (a ∷ b ∷ c ∷ rest)) 3 ≡ false = ground arith in
    rw (long, str_read_lookup, e)

two_read :
    (n : ℕ) (rest : Bytes)
    → n < 100
    → str_read_int 2 ((b'0' + n / 10) ∷ (b'0' + n % 10) ∷ rest) ≡ some (n, rest)
unfolding str_read_int read_digits
two_read n rest h = ground arith

four_read :
    (n : ℕ) (rest : Bytes)
    → n < 10000
    → str_read_int 4
        ((b'0' + n / 1000) ∷ (b'0' + n / 100 % 10) ∷ (b'0' + n / 10 % 10) ∷ (b'0' + n % 10) ∷ rest)
      ≡ some (n, rest)
unfolding str_read_int read_digits
four_read n rest h = ground arith

-- The bytes of a date whose names are given by their bytes.
spelled : (a b c p q r d y h mi s : ℕ) → Bytes
spelled a b c p q r d y h mi s =
    a
    ∷ b
    ∷ c
    ∷ b','
    ∷ b' '
    ∷ (b'0' + d / 10)
    ∷ (b'0' + d % 10)
    ∷ b' '
    ∷ p
    ∷ q
    ∷ r
    ∷ b' '
    ∷ (b'0' + y / 1000)
    ∷ (b'0' + y / 100 % 10)
    ∷ (b'0' + y / 10 % 10)
    ∷ (b'0' + y % 10)
    ∷ b' '
    ∷ (b'0' + h / 10)
    ∷ (b'0' + h % 10)
    ∷ b':'
    ∷ (b'0' + mi / 10)
    ∷ (b'0' + mi % 10)
    ∷ b':'
    ∷ (b'0' + s / 10)
    ∷ (b'0' + s % 10)
    ∷ b' '
    ∷ b'G'
    ∷ b'M'
    ∷ b'T'
    ∷ []

module _ (a b c p q r d y h mi s : ℕ) (hd : d < 100) (hy : y < 10000) (hh : h < 100) (hm : mi < 100)
    (hs : s < 100) where
  read_spelled :
      (w k : ℕ)
      → find_text (a ∷ b ∷ c ∷ []) days_of_week ≡ some w
      → find_text (p ∷ q ∷ r ∷ []) months ≡ some k
      → read_tm (spelled a b c p q r d y h mi s)
        ≡ some (
          record {
            tm_wday = w;
            tm_mday = d;
            tm_mon = pos k;
            tm_year = pos y -ℤ pos 1900;
            tm_hour = h;
            tm_min = mi;
            tm_sec = s;
          },
          [],
        )
  unfolding read_tm spelled expect
  read_spelled w k ew ek = rw (
    lookup_read days_of_week w a b c _ ew,
    two_read d _ hd,
    lookup_read months k p q r _ ek,
    four_read y _ hy,
    two_read h _ hh,
    two_read mi _ hm,
    two_read s _ hs,
  )

  date_text-spelled :
      (t : Tm)
      → t.tm_mday ≡ d
      → t.tm_year +ℤ pos 1900 ≡ pos y
      → t.tm_hour ≡ h
      → t.tm_min ≡ mi
      → t.tm_sec ≡ s
      → date_text (a ∷ b ∷ c ∷ []) (p ∷ q ∷ r ∷ []) t ≡ spelled a b c p q r d y h mi s
  unfolding date_text padded_year spelled
  date_text-spelled t ed ey eh em es = rw (
    ed,
    ey,
    eh,
    em,
    es,
    padded-two d hd,
    padded-four y hy,
    padded-two h hh,
    padded-two mi hm,
    padded-two s hs,
  )

  whole : take 49 (spelled a b c p q r d y h mi s) ≡ spelled a b c p q r d y h mi s
  unfolding spelled
  whole = refl

  length-spelled : (length (spelled a b c p q r d y h mi s) == 29) ≡ true
  unfolding spelled
  length-spelled = refl

normalized_in : (y : ℤ) (k : ℕ) → k < 12 → normalized y (pos k) ≡ (y, k)
unfolding normalized
normalized_in y k h = ground arith

there_and_back : (y : ℕ) → pos y -ℤ pos 1900 +ℤ pos 1900 ≡ pos y
there_and_back y =
    eq_of_parts _ _
      (omega (arith, -ℤ_parts (pos y) (pos 1900), +ℤ_parts (pos y -ℤ pos 1900) (pos 1900)))

timegm2-IsUtc :
    (z : ℤ) (t : Tm) (u : IsUtc z t)
    → timegm2 (record {
      tm_wday = t.tm_wday;
      tm_mday = t.tm_mday;
      tm_mon = pos u.month;
      tm_year = pos u.year -ℤ pos 1900;
      tm_hour = t.tm_hour;
      tm_min = t.tm_min;
      tm_sec = t.tm_sec;
    })
      ≡ z
unfolding timegm2
timegm2-IsUtc z t u =
    rw
      (
        there_and_back u.year,
        normalized_in (pos u.year) u.month u.month_in,
        (days_since_1970-day_number u.year (u.month + 1) t.tm_mday u.year_in.0
            (omega (arith, u.year_in)) (omega arith) (omega (arith, u.month_in)) u.day_in.0
            u.day_in.1).0,
      )
      (sym u.time_is)

-- What the parse comes to once the fields are read.
parse_spelled :
    (date : Bytes) (t : Tm)
    → (length date == 29) ≡ true
    → read_tm date ≡ some (t, [])
    → parse_http_date_string date ≡ timegm2 t
unfolding parse_http_date_string
parse_spelled date t e f = rw (e, parse_http_date_string, f)

printed :
    (gmtime : ℤ → Tm) (z : ℤ) (day month : Bytes)
    → name_of days_of_week (gmtime z).tm_wday ≡ some day
    → month_name (gmtime z).tm_mon ≡ some month
    → http_date_string gmtime z ≡ take 49 (date_text day month (gmtime z))
unfolding http_date_string
printed gmtime z day month e f = rw (e, http_date_string, f)

round_trip :
    (gmtime : ℤ → Tm) (z : ℤ) (a b c p q r : ℕ) (u : IsUtc z (gmtime z))
    → name_of days_of_week (gmtime z).tm_wday ≡ some (a ∷ b ∷ c ∷ [])
    → find_text (a ∷ b ∷ c ∷ []) days_of_week ≡ some (gmtime z).tm_wday
    → name_of months u.month ≡ some (p ∷ q ∷ r ∷ [])
    → find_text (p ∷ q ∷ r ∷ []) months ≡ some u.month
    → parse_http_date_string (http_date_string gmtime z) ≡ z
unfolding month_name
round_trip gmtime z a b c p q r u dn df mn mf =
    let t = gmtime z in
    let hd : t.tm_mday < 100 = omega (arith, u.day_in) in
    let hy : u.year < 10000 = omega (arith, u.year_in) in
    let hh : t.tm_hour < 100 = omega (arith, u.time_in) in
    let hm : t.tm_min < 100 = omega (arith, u.time_in) in
    let hs : t.tm_sec < 100 = omega (arith, u.time_in) in
    let read =
      read_spelled a b c p q r t.tm_mday u.year t.tm_hour t.tm_min t.tm_sec hd hy hh hm hs t.tm_wday
        u.month df mf in
    let text =
      date_text-spelled a b c p q r t.tm_mday u.year t.tm_hour t.tm_min t.tm_sec hd hy hh hm hs t
        refl u.year_is refl refl refl in
    let cut = whole a b c p q r t.tm_mday u.year t.tm_hour t.tm_min t.tm_sec hd hy hh hm hs in
    let long =
      length-spelled a b c p q r t.tm_mday u.year t.tm_hour t.tm_min t.tm_sec hd hy hh hm hs in
    ap parse_http_date_string (printed gmtime z _ _ dn (rw u.month_is mn) ∙ ap (take 49) text ∙ cut)
    ∙ (parse_spelled _ _ long read ∙ timegm2-IsUtc z t u)

-- The date that is printed for a time is parsed as that time, where `gmtime` gives for it fields
-- in their ranges, in a year from 1 to 9999, and the day that the calendar counts.
pub parse_http_date_string-http_date_string :
    (gmtime : ℤ → Tm) (z : ℤ)
    → IsUtc z (gmtime z)
    → parse_http_date_string (http_date_string gmtime z) ≡ z
parse_http_date_string-http_date_string gmtime z u =
    let t = gmtime z in
    let (day, dn, di) =
      named-IsName days_of_week t.tm_wday
        (holds_at 7 (good_name days_of_week) t.tm_wday good_names.0 u.week_in) in
    let (month, mn, mi) =
      named-IsName months u.month
        (holds_at 12 (good_name months) u.month good_names.1 u.month_in) in
    round_trip gmtime z (get_or day 0 0) (get_or day 1 0) (get_or day 2 0) (get_or month 0 0)
      (get_or month 1 0) (get_or month 2 0) u (dn ∙ ap some di.three)
      (ap (λ s. find_text s days_of_week) (sym di.three) ∙ di.found) (mn ∙ ap some mi.three)
      (ap (λ s. find_text s months) (sym mi.three) ∙ mi.found)
