-- ===== src/Time/Broken.antt =====
-- The whole of `__offtime`: the time that it fills in is the one that the calendar says.
use cibyl.Base.{ℕ, ◌+◌, ◌-◌, ◌*◌, ◌/◌, ◌%◌, ◌^◌, ◌≤◌, ◌<◌, ◌≡◌, refl, Option, some, arith, sym, ap}
use cibyl.Base.Int.{
  ℤ, pos, negsuc, pos_part, neg_part, sub_ℕ, quot_ℤ, rem_ℤ, ◌+ℤ◌, ◌-ℤ◌, int_laws, one_part,
}
use cibyl.Time.{Tm, secs_per_day, year_loop, mon_yday, month_loop, week_day, offtime, year_rounds}
use cibyl.Time.Calendar.{leap_year, epoch, day_number, IsBroken, normalise-IsNormal}
use cibyl.Time.Years.{IsYear, is_leap-year, year_loop-IsYear}
use cibyl.Time.Months.{IsMonth, month_loop-IsMonth, twelve_months}

-- `offtime` ends, with a time that comes `t` seconds after 1970, and leaves tm_isdst alone.
pub record Breaks (t : ℤ) (tp : Tm) (o : Option Tm) : Type 0 where
  pub tm : Tm
  pub is : o ≡ some tm
  pub broken : IsBroken t tm
  pub isdst_is : tm.tm_isdst ≡ tp.tm_isdst

quot_rem_parts :
    (t : ℤ)
    → pos_part t + secs_per_day * neg_part (quot_ℤ t secs_per_day) + neg_part (rem_ℤ t secs_per_day)
      ≡ neg_part t
        + secs_per_day * pos_part (quot_ℤ t secs_per_day)
        + pos_part (rem_ℤ t secs_per_day)
quot_rem_parts (pos n) = omega arith
quot_rem_parts (negsuc n) = ground arith

week_day_lem :
    (d : ℤ) (k : ℕ) → epoch + pos_part d ≡ k + neg_part d → week_day d ≡ pos ((k + 6) % 7)
unfolding week_day ◌+ℤ◌
week_day_lem (pos n) k h = ground arith
week_day_lem (negsuc n) k h = ground arith

year_field : (y : ℕ) → pos y -ℤ pos 1900 ≡ sub_ℕ y 1900
unfolding ◌-ℤ◌
year_field y = ground arith

-- What is left when the seconds are within a day `d`, the year of that day is known, and its month.
module _ (t d : ℤ) (tp : Tm) (r k : ℕ) (within : r < secs_per_day)
    (time_is : pos_part t + secs_per_day * neg_part d ≡ r + neg_part t + secs_per_day * pos_part d)
    (day_is : epoch + pos_part d ≡ k + neg_part d)
    (y : IsYear k (year_loop year_rounds (pos 1970) d))
    (m : IsMonth
      (leap_year y.year)
      y.yday
      (month_loop (mon_yday (leap_year y.year)) 11 (pos y.yday))) where
  abbrev filled : Tm
  filled = record {
    tm_sec = pos (r % 3600 % 60);
    tm_min = pos (r % 3600 / 60);
    tm_hour = pos (r / 3600);
    tm_mday = pos m.day +ℤ pos 1;
    tm_mon = pos m.mon;
    tm_year = pos y.year -ℤ pos 1900;
    tm_wday = week_day d;
    tm_yday = pos y.yday;
    tm_isdst = tp.tm_isdst;
  }

  is_day : day_number y.year m.mon m.day ≡ k
  is_day = omega (arith, m.same, y.same)

  filled-IsBroken : IsBroken t filled
  filled-IsBroken = record {
    year = y.year;
    mon = m.mon;
    day = m.day;
    hour = r / 3600;
    min = r % 3600 / 60;
    sec = r % 3600 % 60;
    year_is = year_field y.year;
    mon_is = refl;
    mday_is = omega int_laws;
    hour_is = refl;
    min_is = refl;
    sec_is = refl;
    yday_is = ap pos (sym m.same);
    wday_is = rw is_day (week_day_lem d k day_is);
    mon_fits = m.few;
    day_fits = m.fits;
    hour_fits = omega arith;
    min_fits = omega arith;
    sec_fits = omega arith;
    time_is = rw is_day (omega int_laws);
  }

-- Where the sum of the seconds and the offset fits in 32 bits, the loops of `__offtime` end, in the
-- table, and it fills in the date and the time of day of the Gregorian calendar that many seconds
-- after the start of 1970, with the day of the year and of the week, and leaves tm_isdst alone.
pub offtime-Breaks :
    (t offset : ℤ) (tp : Tm)
    → pos_part (t +ℤ offset) < 2 ^ 31
    → neg_part (t +ℤ offset) ≤ 2 ^ 31
    → Breaks (t +ℤ offset) tp (offtime t offset tp)
unfolding offtime
offtime-Breaks t offset tp hi lo =
    let n = normalise-IsNormal (rem_ℤ t secs_per_day +ℤ offset) (quot_ℤ t secs_per_day) in
    let parts = quot_rem_parts t in
    let one = one_part (t +ℤ offset) in
    let one_day = one_part n.whole in
    let all = n.total in
    let fits = n.fits in
    let k = epoch + pos_part n.whole - neg_part n.whole in
    let time_is : pos_part (t +ℤ offset) + secs_per_day * neg_part n.whole
        ≡ n.within + neg_part (t +ℤ offset) + secs_per_day * pos_part n.whole =
      omega (int_laws, all, parts) in
    let far : neg_part n.whole < 24857 = omega (arith, time_is, one, one_day, fits) in
    let near : pos_part n.whole < 24857 = omega (arith, time_is, one, one_day, fits) in
    let day_is : epoch + pos_part n.whole ≡ k + neg_part n.whole = omega arith in
    let y = year_loop-IsYear n.whole (omega arith) (omega arith) k day_is in
    let m =
      month_loop-IsMonth (leap_year y.year) 11 y.yday (omega arith)
        (rw (twelve_months (leap_year y.year)) y.fits) in
    record {
      tm = filled (t +ℤ offset) n.whole tp n.within k fits time_is day_is y m;
      is = rw (n.is, y.is, is_leap-year y.year, m.is) refl;
      broken = filled-IsBroken (t +ℤ offset) n.whole tp n.within k fits time_is day_is y m;
      isdst_is = refl;
    }
