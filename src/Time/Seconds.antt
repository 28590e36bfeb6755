-- ===== src/Time/Seconds.antt =====
-- `_mktime` and `timegm`: the seconds of a broken-down time, and the way there and back.
use cibyl.Base.{
  ℕ, zero, suc, ◌+◌, ◌-◌, ◌*◌, ◌/◌, ◌%◌, ◌^◌, ◌≤◌, ◌<◌, ◌≡◌, refl, Bool, true, false, some, ◌>>=◌,
  if◌then◌else◌, arith, ◌∙◌, ap,
}
use native.Mathlib.Decide.{dec_lt}
use cibyl.Base.Int.{
  ℤ, unsigned, pos, negsuc, pos_part, neg_part, sub_ℕ, ◌+ℤ◌, int_laws, one_part, +ℤ_parts,
}
use cibyl.Time.{Tm, day_count, is_early, mktime, timegm, offtime, sub_word, add_word, mul_word}
use cibyl.Time.Calendar.{
  leap_year, epoch, days_in_month, days_before_month, days_before_year, day_number, IsBroken,
}
use cibyl.Time.Years.{days_before_year-at}
use cibyl.Time.Broken.{offtime-Breaks}

-- The months before the leap day: `367 * mon / 12` counts the days.
early_months : (leap : Bool) (m : ℕ) → m < 2 → 367 * (m + 11) / 12 ≡ days_before_month leap m + 336
unfolding days_before_month days_in_month
early_months leap zero h = refl
early_months leap (suc zero) h = refl
early_months leap (suc (suc m)) h = absurd (omega arith)

-- The months after it.
late_months :
    (leap : Bool) (n : ℕ)
    → n < 10
    → days_before_month leap (2 + n) ≡ 367 * (1 + n) / 12 + (if leap then 30 else 29)
unfolding days_before_month days_in_month
late_months true zero h = refl
late_months false zero h = refl
late_months leap (suc n) h = ground (arith, late_months leap n)

year_of_leaps :
    (y : ℕ)
    → 1 ≤ y
    → (y - 1) / 4 - (y - 1) / 100 + (y - 1) / 400 + (if leap_year y then 1 else 0)
      ≡ y / 4 - y / 100 + y / 400
year_of_leaps y h = ground arith

-- The number of a day, without its wraps.
day_count_plain :
    (y mon day : ℕ)
    → y < 10000
    → mon < 13
    → day < 33
    → day_count y mon day
      ≡ (y / 4 - y / 100 + y / 400 + 367 * mon / 12 + day + y * 365 + (2 ^ 32 - 719499)) % 2 ^ 32
unfolding day_count
day_count_plain y mon day hy hm hd = omega arith

-- The number of days, from 1970 and modulo 2 ^ 32.
early_count :
    (y mon day : ℕ)
    → 1 ≤ y
    → y < 10000
    → mon < 2
    → day < 32
    → day_count (y - 1) (mon + 11) (day + 1) ≡ (day_number y mon day + (2 ^ 32 - epoch)) % 2 ^ 32
early_count y mon day hy1 hy2 hm hd =
    rw (day_count_plain (y - 1) (mon + 11) (day + 1) (omega arith) (omega arith) (omega arith))
      (omega (arith, days_before_year-at y hy1, early_months (leap_year y) mon hm))

late_count :
    (y n day : ℕ)
    → 1 ≤ y
    → y < 10000
    → n < 10
    → day < 32
    → day_count y (1 + n) (day + 1) ≡ (day_number y (2 + n) day + (2 ^ 32 - epoch)) % 2 ^ 32
late_count y n day hy1 hy2 hn hd =
    rw (day_count_plain y (1 + n) (day + 1) hy2 (omega arith) (omega arith)) (
      ground
        (arith, days_before_year-at y hy1, late_months (leap_year y) n hn, year_of_leaps y hy1))

module _ (y mon day hour min sec : ℕ) where
  -- The seconds, from a number of days that is right modulo 2 ^ 32.
  seconds :
      (days k : ℕ)
      → hour < 24
      → min < 60
      → sec < 60
      → days ≡ (k + (2 ^ 32 - epoch)) % 2 ^ 32
      → add_word (mul_word (add_word (mul_word (add_word (mul_word days 24) hour) 60) min) 60) sec
        ≡ (k * 86400 + hour * 3600 + min * 60 + sec + (15 * 2 ^ 32 - epoch * 86400)) % 2 ^ 32
  seconds days k hh hn hs e = omega arith

  mktime_lem :
      1 ≤ y
      → y < 10000
      → mon < 12
      → day < 32
      → hour < 24
      → min < 60
      → sec < 60
      → mktime y (mon + 1) (day + 1) hour min sec
        ≡ (day_number y mon day * 86400
            + hour * 3600
            + min * 60
            + sec
            + (15 * 2 ^ 32 - epoch * 86400))
          % 2 ^ 32
  unfolding mktime
  mktime_lem hy1 hy2 hm hd hh hn hs = elim (dec_lt mon 2) [
    | yes p ↦
        let e : is_early (sub_word (mon + 1) 2) ≡ true = ground arith in
        let last_year : sub_word y 1 ≡ y - 1 = omega arith in
        let moved : add_word (sub_word (mon + 1) 2) 12 ≡ mon + 11 = omega arith in
        rw (e, last_year, moved)
          (seconds _ (day_number y mon day) hh hn hs (early_count y mon day hy1 hy2 p hd))
    | no p ↦
        let e : is_early (sub_word (mon + 1) 2) ≡ false = ground arith in
        let moved : sub_word (mon + 1) 2 ≡ 1 + (mon - 2) = omega arith in
        let back : 2 + (mon - 2) ≡ mon = omega arith in
        rw (e, moved)
          (seconds _ (day_number y mon day) hh hn hs
            (rw back at (late_count y (mon - 2) day hy1 hy2 (omega arith) hd)))
  ]

days_in_month_bound : (leap : Bool) (m : ℕ) → days_in_month leap m ≤ 31
unfolding days_in_month
days_in_month_bound leap m = ground arith

days_before_month_bound : (leap : Bool) (m : ℕ) → days_before_month leap m ≤ 31 * m
unfolding days_before_month
days_before_month_bound leap zero = omega arith
days_before_month_bound leap (suc m) =
    omega (arith, days_in_month_bound leap m, days_before_month_bound leap m)

year_back : (y : ℕ) → sub_ℕ y 1900 +ℤ pos 1900 ≡ pos y
unfolding ◌+ℤ◌
year_back y = ground arith

-- A year that 32 bits of seconds reach.
year_bounds :
    (y n : ℕ)
    → n < 400
    → 694671 ≤ days_before_year y + n
    → days_before_year y + n ≤ 744385
    → (1 ≤ y) × (y < 10000)
year_bounds zero n hn lo hi = absurd (unfold days_before_year in omega arith)
year_bounds (suc y) n hn lo hi = omega (arith, days_before_year-at (suc y) (omega arith))

unsigned_small : (n : ℕ) (z : ℤ) → n < 2 ^ 32 → z ≡ pos n → unsigned z ≡ n
unsigned_small n z h e = rw e (omega arith)

unsigned_lem :
    (t : ℤ) (n : ℕ)
    → pos_part t < 2 ^ 31
    → neg_part t ≤ 2 ^ 31
    → t +ℤ pos (epoch * 86400) ≡ pos n
    → (n + (15 * 2 ^ 32 - epoch * 86400)) % 2 ^ 32 ≡ unsigned t
unsigned_lem (pos m) n hi lo e = omega (int_laws, ap pos_part e, ap neg_part e)
unsigned_lem (negsuc m) n hi lo e = omega (int_laws, ap pos_part e, ap neg_part e)

-- `timegm` gives the seconds of a broken-down time back, as a word.
pub timegm-IsBroken :
    (t : ℤ) (tm : Tm)
    → pos_part t < 2 ^ 31
    → neg_part t ≤ 2 ^ 31
    → IsBroken t tm
    → timegm tm ≡ unsigned t
unfolding timegm
timegm-IsBroken t tm hi lo b =
    let dm = days_in_month_bound (leap_year b.year) b.mon in
    let dbm = days_before_month_bound (leap_year b.year) b.mon in
    let one = one_part t in
    let p = ap pos_part b.time_is in
    let n = ap neg_part b.time_is in
    let parts = +ℤ_parts t (pos (epoch * 86400)) in
    let mf = b.mon_fits in
    let df = b.day_fits in
    let hf = b.hour_fits in
    let nf = b.min_fits in
    let sf = b.sec_fits in
    let k = days_before_month (leap_year b.year) b.mon + b.day in
    let yb : (1 ≤ b.year) × (b.year < 10000) =
      year_bounds b.year k (omega arith) (omega arith) (omega arith) in
    let year_is : unsigned (tm.tm_year +ℤ pos 1900) ≡ b.year =
      unsigned_small b.year _ (omega arith) (rw b.year_is (year_back b.year)) in
    let mon_is : unsigned (tm.tm_mon +ℤ pos 1) ≡ b.mon + 1 =
      unsigned_small (b.mon + 1) _ (omega arith) (rw b.mon_is (omega int_laws)) in
    let mday_is = unsigned_small (b.day + 1) tm.tm_mday (omega arith) b.mday_is in
    let hour_is = unsigned_small b.hour tm.tm_hour (omega arith) b.hour_is in
    let min_is = unsigned_small b.min tm.tm_min (omega arith) b.min_is in
    let sec_is = unsigned_small b.sec tm.tm_sec (omega arith) b.sec_is in
    rw (year_is, mon_is, mday_is, hour_is, min_is, sec_is)
      (mktime_lem b.year b.mon b.day b.hour b.min b.sec yb.0 yb.1 mf (omega arith) hf nf sf
        ∙ unsigned_lem t _ hi lo b.time_is)

-- Where the sum of the seconds and the offset fits in 32 bits, the loops of `__offtime` end, and
-- `timegm` counts from the fields that it fills in the sum again, as a word.
pub timegm-offtime :
    (t offset : ℤ) (tp : Tm)
    → pos_part (t +ℤ offset) < 2 ^ 31
    → neg_part (t +ℤ offset) ≤ 2 ^ 31
    → (offtime t offset tp >>= λ tm. some (timegm tm)) ≡ some (unsigned (t +ℤ offset))
timegm-offtime t offset tp hi lo =
    let b = offtime-Breaks t offset tp hi lo in
    rw b.is (ap some (timegm-IsBroken (t +ℤ offset) b.tm hi lo b.broken))
