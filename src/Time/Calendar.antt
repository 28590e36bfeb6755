-- ===== src/Time/Calendar.antt =====
-- What a time of `__offtime` should say, from the lengths of months and years, and the loops that
-- bring the seconds into a day.
use cibyl.Base.{
  ℕ, zero, suc, ◌+◌, ◌-◌, ◌*◌, ◌%◌, ◌≤◌, ◌<◌, ◌≡◌, Bool, not, ◌&&◌, ◌||◌, Option, some, ◌==◌,
  if◌then◌else◌, arith, ◌∙◌,
}
use native.Mathlib.Decide.{dec_lt}
use cibyl.Base.Int.{one_part, ℤ, pos, negsuc, pos_part, neg_part, sub_ℕ, ◌+ℤ◌, ◌-ℤ◌, int_laws}
use cibyl.Time.{Tm, secs_per_day, raise_rem, lower_rem, rounds, normalise}

-- The Gregorian calendar, from a year 0 on.
abbrev pub leap_year : ℕ → Bool
leap_year y = ((y % 4 == 0) && not (y % 100 == 0)) || (y % 400 == 0)

unfoldable pub days_in_month : Bool → ℕ → ℕ
days_in_month leap m =
    if m == 1
    then (if leap then 29 else 28)
    else if (m == 3) || (m == 5) || (m == 8) || (m == 10)
    then 30
    else 31

unfoldable pub days_before_month : Bool → ℕ → ℕ
unfolding days_in_month
days_before_month leap zero = 0
days_before_month leap (suc m) = days_before_month leap m + days_in_month leap m

abbrev pub days_in_year : ℕ → ℕ
days_in_year y = if leap_year y then 366 else 365

unfoldable pub days_before_year : ℕ → ℕ
days_before_year zero = 0
days_before_year (suc y) = days_before_year y + days_in_year y

-- The days before 1970-01-01.
abbrev pub epoch : ℕ
epoch = 719528

-- The day of 1970-01-01 with this number of days after it, in a calendar that counts from year 0.
abbrev pub day_number : ℕ → ℕ → ℕ → ℕ
day_number year mon day = days_before_year year + days_before_month (leap_year year) mon + day

-- `tm` is the time that comes `t` seconds after the start of 1970.
pub record IsBroken (t : ℤ) (tm : Tm) : Type 0 where
  pub year : ℕ
  pub mon : ℕ
  pub day : ℕ
  pub hour : ℕ
  pub min : ℕ
  pub sec : ℕ
  pub year_is : tm.tm_year ≡ sub_ℕ year 1900
  pub mon_is : tm.tm_mon ≡ pos mon
  pub mday_is : tm.tm_mday ≡ pos (day + 1)
  pub hour_is : tm.tm_hour ≡ pos hour
  pub min_is : tm.tm_min ≡ pos min
  pub sec_is : tm.tm_sec ≡ pos sec
  pub yday_is : tm.tm_yday ≡ pos (days_before_month (leap_year year) mon + day)
  pub wday_is : tm.tm_wday ≡ pos ((day_number year mon day + 6) % 7)
  pub mon_fits : mon < 12
  pub day_fits : day < days_in_month (leap_year year) mon
  pub hour_fits : hour < 24
  pub min_fits : min < 60
  pub sec_fits : sec < 60
  pub time_is :
      t +ℤ pos (epoch * 86400)
      ≡ pos (day_number year mon day * 86400 + hour * 3600 + min * 60 + sec)

-- The same number of seconds, with the seconds within a day.
pub record IsNormal (rem days : ℤ) (o : Option (ℤ × ℤ)) : Type 0 where
  pub within : ℕ
  pub whole : ℤ
  pub is : o ≡ some (pos within, whole)
  pub fits : within < secs_per_day
  pub total :
      pos_part rem + secs_per_day * (pos_part days + neg_part whole)
      ≡ within + neg_part rem + secs_per_day * (neg_part days + pos_part whole)

lower_rem-inside :
    (fuel n : ℕ) (days : ℤ)
    → n < secs_per_day
    → lower_rem (suc fuel) (pos n) days ≡ some (pos n, days)
unfolding lower_rem
lower_rem-inside fuel n days h = ground arith

lower_rem-above :
    (fuel n : ℕ) (days : ℤ)
    → secs_per_day ≤ n
    → lower_rem (suc fuel) (pos n) days ≡ lower_rem fuel (pos (n - secs_per_day)) (days +ℤ pos 1)
unfolding lower_rem
lower_rem-above fuel n days h =
    let less : pos n -ℤ pos secs_per_day ≡ pos (n - secs_per_day) = omega int_laws in
    rw less (ground arith)

lower_rem-IsNormal :
    (fuel n : ℕ) (days : ℤ)
    → n < fuel * secs_per_day
    → IsNormal (pos n) days (lower_rem fuel (pos n) days)
lower_rem-IsNormal zero n days h = absurd (omega arith)
lower_rem-IsNormal (suc fuel) n days h = elim (dec_lt n secs_per_day) [
  | yes p ↦ record {
    within = n;
    whole = days;
    is = lower_rem-inside fuel n days p;
    fits = p;
    total = omega arith;
  }
  | no p ↦
      let r = lower_rem-IsNormal fuel (n - secs_per_day) (days +ℤ pos 1) (omega arith) in
      record {
        within = r.within;
        whole = r.whole;
        is = lower_rem-above fuel n days (omega arith) ∙ r.is;
        fits = r.fits;
        total = omega (int_laws, r.total);
      }
]

-- The result of the first loop has seconds that are not negative.
record IsRaised (rem days : ℤ) (o : Option (ℤ × ℤ)) : Type 0 where
  within : ℕ
  whole : ℤ
  is : o ≡ some (pos within, whole)
  fits : within < secs_per_day + pos_part rem
  total :
      pos_part rem + secs_per_day * (pos_part days + neg_part whole)
      ≡ within + neg_part rem + secs_per_day * (neg_part days + pos_part whole)

raise_rem-below :
    (fuel n : ℕ) (days : ℤ)
    → raise_rem (suc fuel) (negsuc n) days
      ≡ raise_rem fuel (negsuc n +ℤ pos secs_per_day) (days -ℤ pos 1)
unfolding raise_rem
raise_rem-below fuel n days = ground arith

raise_rem-IsRaised :
    (fuel : ℕ) (rem days : ℤ)
    → neg_part rem + secs_per_day ≤ fuel * secs_per_day
    → IsRaised rem days (raise_rem fuel rem days)
raise_rem-IsRaised zero rem days h = absurd (omega arith)
raise_rem-IsRaised (suc fuel) (pos n) days h = record {
  within = n;
  whole = days;
  is = unfold raise_rem in ground arith;
  fits = omega arith;
  total = omega arith;
}
raise_rem-IsRaised (suc fuel) (negsuc n) days h =
    let r =
      raise_rem-IsRaised fuel (negsuc n +ℤ pos secs_per_day) (days -ℤ pos 1)
        (omega (int_laws, one_part (negsuc n +ℤ pos secs_per_day))) in
    record {
      within = r.within;
      whole = r.whole;
      is = raise_rem-below fuel n days ∙ r.is;
      fits = omega (int_laws, r.fits, one_part (negsuc n +ℤ pos secs_per_day));
      total = omega (int_laws, r.total);
    }

-- The rounds suffice.
pub normalise-IsNormal : (rem days : ℤ) → IsNormal rem days (normalise rem days)
unfolding normalise
normalise-IsNormal rem days =
    let a = raise_rem-IsRaised (rounds rem) rem days (omega arith) in
    let b = lower_rem-IsNormal (rounds rem) a.within a.whole (omega (arith, a.fits)) in
    record {
      within = b.within;
      whole = b.whole;
      is = rw a.is b.is;
      fits = b.fits;
      total = omega (arith, a.total, b.total);
    }
