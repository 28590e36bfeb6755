-- ===== src/Time.antt =====
-- libs/src/libc/time.c: seconds since 1970 to a calendar date and time, and back.
--
-- `long` and `int` have 32 bits; in `__offtime` the counts stay far within that range, and are
-- integers. `_mktime` computes with unsigned words, whose wrap is written out. The loops of
-- `__offtime` are given fuel, and `none` says that it ran out.
pub mod Calendar
pub mod Years
pub mod Months
pub mod Broken
pub mod Seconds
mod Tests
use cibyl.Base.{
  ℕ, zero, suc, ◌+◌, ◌-◌, ◌*◌, ◌/◌, ◌%◌, ◌^◌, Bool, true, false, not, ◌&&◌, ◌||◌, Option, none,
  some, List, [], ◌∷◌, get_elem?, leb, ◌==◌, if◌then◌else◌, ◌>>=◌,
}
use cibyl.Base.Int.{unsigned, ℤ, pos, negsuc, pos_part, neg_part, ltb_ℤ, ◌+ℤ◌, ◌-ℤ◌, quot_ℤ, rem_ℤ}

-- `struct tm`
pub record Tm : Type 0 where
  pub tm_sec : ℤ
  pub tm_min : ℤ
  pub tm_hour : ℤ
  pub tm_mday : ℤ
  pub tm_mon : ℤ
  pub tm_year : ℤ
  pub tm_wday : ℤ
  pub tm_yday : ℤ
  pub tm_isdst : ℤ

-- Unsigned sums, differences and products.
abbrev pub add_word : ℕ → ℕ → ℕ
add_word a b = (a + b) % 2 ^ 32

abbrev pub sub_word : ℕ → ℕ → ℕ
sub_word a b = (a + (2 ^ 32 - b)) % 2 ^ 32

abbrev pub mul_word : ℕ → ℕ → ℕ
mul_word a b = a * b % 2 ^ 32

-- The number of a day, for a year that begins with March, month 1.
pub day_count : ℕ → ℕ → ℕ → ℕ
day_count year mon day =
    sub_word
      (add_word
        (add_word
          (add_word (add_word (sub_word (year / 4) (year / 100)) (year / 400))
            (mul_word 367 mon / 12))
          day)
        (mul_word year 365))
      719499

-- The test of `_mktime`: the difference, as an int, is 0 or negative.
abbrev pub is_early : ℕ → Bool
is_early mon = (mon == 0) || leb (2 ^ 31) mon

pub mktime : ℕ → ℕ → ℕ → ℕ → ℕ → ℕ → ℕ
unfolding day_count
mktime year mon day hour min sec =
    let m = sub_word mon 2 in
    let days =
      if is_early m
      then day_count (sub_word year 1) (add_word m 12) day
      else day_count year m day in
    add_word (mul_word (add_word (mul_word (add_word (mul_word days 24) hour) 60) min) 60) sec

pub timegm : Tm → ℕ
timegm tm =
    mktime (unsigned (tm.tm_year +ℤ pos 1900)) (unsigned (tm.tm_mon +ℤ pos 1)) (unsigned tm.tm_mday)
      (unsigned tm.tm_hour) (unsigned tm.tm_min) (unsigned tm.tm_sec)

abbrev is_zero : ℤ → Bool
is_zero z = (pos_part z + neg_part z) == 0

abbrev pub secs_per_day : ℕ
secs_per_day = 86400

pub is_leap : ℤ → Bool
is_leap year =
    is_zero (rem_ℤ year 4) && (not (is_zero (rem_ℤ year 100)) || is_zero (rem_ℤ year 400))

abbrev pub year_size : ℤ → ℕ
year_size y = if is_leap y then 366 else 365

abbrev pub mon_yday : Bool → List ℕ
mon_yday false = 0 ∷ 31 ∷ 59 ∷ 90 ∷ 120 ∷ 151 ∷ 181 ∷ 212 ∷ 243 ∷ 273 ∷ 304 ∷ 334 ∷ 365 ∷ []
mon_yday true = 0 ∷ 31 ∷ 60 ∷ 91 ∷ 121 ∷ 152 ∷ 182 ∷ 213 ∷ 244 ∷ 274 ∷ 305 ∷ 335 ∷ 366 ∷ []

-- A Boolean of C as a number.
abbrev one_if : Bool → ℤ
one_if b = if b then pos 1 else pos 0

abbrev pub div_down : ℤ → ℕ → ℤ
div_down a b = quot_ℤ a b -ℤ one_if (ltb_ℤ (rem_ℤ a b) (pos 0))

pub leaps_thru_end_of : ℤ → ℤ
leaps_thru_end_of y = div_down y 4 -ℤ div_down y 100 +ℤ div_down y 400

-- The two loops that bring the seconds into a day.
pub raise_rem : ℕ → ℤ → ℤ → Option (ℤ × ℤ)
raise_rem zero rem days = none
raise_rem (suc fuel) rem days =
    let rest = raise_rem fuel (rem +ℤ pos secs_per_day) (days -ℤ pos 1) in
    if ltb_ℤ rem (pos 0) then rest else some (rem, days)

pub lower_rem : ℕ → ℤ → ℤ → Option (ℤ × ℤ)
lower_rem zero rem days = none
lower_rem (suc fuel) rem days =
    let rest = lower_rem fuel (rem -ℤ pos secs_per_day) (days +ℤ pos 1) in
    if ltb_ℤ rem (pos secs_per_day) then some (rem, days) else rest

abbrev pub rounds : ℤ → ℕ
rounds rem = (pos_part rem + neg_part rem) / secs_per_day + 2

pub normalise : ℤ → ℤ → Option (ℤ × ℤ)
unfolding raise_rem lower_rem
normalise rem days = do
  (rem2, days2) ← raise_rem (rounds rem) rem days
  lower_rem (rounds rem) rem2 days2

-- The corrected year, assuming 365 days per year, and the days that are left then.
pub guess_year : ℤ → ℤ → ℤ
guess_year y days = y +ℤ quot_ℤ days 365 -ℤ one_if (ltb_ℤ (rem_ℤ days 365) (pos 0))

-- 365 * d
abbrev days_of_years : ℤ → ℤ
days_of_years (pos n) = pos (n * 365)
days_of_years (negsuc n) = negsuc (n * 365 + 364)

pub days_between : ℤ → ℤ → ℤ
unfolding leaps_thru_end_of
days_between y yg =
    days_of_years (yg -ℤ y) +ℤ leaps_thru_end_of (yg -ℤ pos 1) -ℤ leaps_thru_end_of (y -ℤ pos 1)

pub year_loop : ℕ → ℤ → ℤ → Option (ℤ × ℤ)
unfolding is_leap guess_year days_between
year_loop zero y days = none
year_loop (suc fuel) y days =
    let yg = guess_year y days in
    let rest = year_loop fuel yg (days -ℤ days_between y yg) in
    if ltb_ℤ days (pos 0) || not (ltb_ℤ days (pos (year_size y))) then rest else some (y, days)

-- `for (y = 11; days < ip[y]; --y)`, and the days that are left; `none` below the table.
pub month_loop : List ℕ → ℕ → ℤ → Option (ℕ × ℤ)
month_loop ip zero days = do
  before ← get_elem? ip 0
  (if ltb_ℤ days (pos before) then none else some (0, days -ℤ pos before))
month_loop ip (suc y) days =
    let rest = month_loop ip y days in
    do
      before ← get_elem? ip (suc y)
      (if ltb_ℤ days (pos before) then rest else some (suc y, days -ℤ pos before))

-- `(4 + days) % 7`, made positive.
pub week_day : ℤ → ℤ
week_day days =
    let wday = rem_ℤ (pos 4 +ℤ days) 7 in if ltb_ℤ wday (pos 0) then wday +ℤ pos 7 else wday

-- The rounds that are enough for the loop over years.
abbrev pub year_rounds : ℕ
year_rounds = 3

pub offtime : ℤ → ℤ → Tm → Option Tm
unfolding normalise year_loop month_loop week_day is_leap
offtime t offset tp = do
  (rem, days) ← normalise (rem_ℤ t secs_per_day +ℤ offset) (quot_ℤ t secs_per_day)
  (y, yday) ← year_loop year_rounds (pos 1970) days
  (mon, mday) ← month_loop (mon_yday (is_leap y)) 11 yday
  some (record {
    tm_sec = rem_ℤ (rem_ℤ rem 3600) 60;
    tm_min = quot_ℤ (rem_ℤ rem 3600) 60;
    tm_hour = quot_ℤ rem 3600;
    tm_mday = mday +ℤ pos 1;
    tm_mon = pos mon;
    tm_year = y -ℤ pos 1900;
    tm_wday = week_day days;
    tm_yday = yday;
    tm_isdst = tp.tm_isdst;
  })

-- A static variable is all zeros.
abbrev pub no_time : Tm
no_time = record {
  tm_sec = pos 0;
  tm_min = pos 0;
  tm_hour = pos 0;
  tm_mday = pos 0;
  tm_mon = pos 0;
  tm_year = pos 0;
  tm_wday = pos 0;
  tm_yday = pos 0;
  tm_isdst = pos 0;
}

pub gmtime : ℤ → Option Tm
unfolding offtime
gmtime t = offtime t (pos 0) no_time

-- `-bias * 60`, for a product that fits in an int.
abbrev offset_of : ℤ → ℤ
offset_of (pos n) = pos 0 -ℤ pos (n * 60)
offset_of (negsuc n) = pos (suc n * 60)

-- The raw offset of the default time zone and whether it uses daylight time come from a Java
-- object.
pub localtime_r : ℤ → ℤ → ℤ → Tm → Option Tm
unfolding offtime
localtime_r bias daylight t result =
    offtime t (offset_of bias) (record result { tm_isdst = daylight })

pub localtime : ℤ → ℤ → ℤ → Option Tm
unfolding localtime_r
localtime bias daylight t = localtime_r bias daylight t no_time
