-- ===== src/Time/Years.antt =====
-- The loop over years: each round keeps the day, and three rounds are enough for every day
-- that 32 bits of seconds reach.
use cibyl.Base.{ℕ, zero, suc, ◌+◌, ◌-◌, ◌*◌, ◌/◌, ◌≤◌, ◌<◌, ◌≡◌, refl, Option, some, arith}
use native.Mathlib.Decide.{dec_lt}
use cibyl.Base.Int.{ℤ, pos, negsuc, pos_part, neg_part, sub_ℕ, ◌+ℤ◌, ◌-ℤ◌, int_laws}
use cibyl.Time.{
  div_down, days_of_years, is_leap, leaps_thru_end_of, guess_year, days_between, year_loop,
}
use cibyl.Time.Calendar.{leap_year, days_in_year, days_before_year, epoch}

-- The closed form that `__offtime` and `_mktime` rely on.
pub days_before_year-closed :
    (y : ℕ) → days_before_year (suc y) ≡ (suc y) * 365 + y / 4 - y / 100 + y / 400 + 1
unfolding days_before_year
days_before_year-closed zero = refl
days_before_year-closed (suc y) = ground (arith, days_before_year-closed y)

pub is_leap-year : (y : ℕ) → is_leap (pos y) ≡ leap_year y
unfolding is_leap
is_leap-year y = ground arith

div_down_pos : (a b : ℕ) → div_down (pos a) b ≡ pos (a / b)
unfolding ◌-ℤ◌
div_down_pos a b = ground arith

leaps_pos : (y : ℕ) → leaps_thru_end_of (pos y) ≡ pos (y / 4 - y / 100 + y / 400)
unfolding leaps_thru_end_of
leaps_pos y = rw (div_down_pos y 4, div_down_pos y 100, div_down_pos y 400) (omega int_laws)

days_of_years_parts :
    (a : ℤ)
    → (pos_part (days_of_years a) ≡ pos_part a * 365)
      × (neg_part (days_of_years a) ≡ neg_part a * 365)
days_of_years_parts (pos n) = (refl, refl)
days_of_years_parts (negsuc n) = (refl, omega arith)

-- The days between the starts of two years.
days_between_lem :
    (y z : ℕ)
    → pos (days_before_year (suc y)) +ℤ days_between (pos (suc y)) (pos (suc z))
      ≡ pos (days_before_year (suc z))
unfolding days_between
days_between_lem y z =
    let one : (n : ℕ) → pos (suc n) -ℤ pos 1 ≡ pos n = λ (n : ℕ). omega int_laws in
    rw (one y, one z, leaps_pos y, leaps_pos z)
      (omega (
        int_laws,
        days_of_years_parts (pos (suc z) -ℤ pos (suc y)),
        days_before_year-closed y,
        days_before_year-closed z,
      ))

-- The guess, for days after and before the start of the year.
guess_year_pos : (y n : ℕ) → guess_year (pos y) (pos n) ≡ pos (y + n / 365)
unfolding guess_year ◌+ℤ◌ ◌-ℤ◌
guess_year_pos y n = ground arith

guess_year_neg : (y n : ℕ) → suc n ≤ y * 365 → guess_year (pos y) (negsuc n) ≡ pos (y - 1 - n / 365)
unfolding guess_year ◌+ℤ◌ ◌-ℤ◌
guess_year_neg y n h = ground arith

-- The days that are left, counted from the start of another year.
moved :
    (y z : ℕ) (days : ℤ)
    → 1 ≤ y
    → 1 ≤ z
    → days -ℤ days_between (pos y) (pos z)
      ≡ sub_ℕ (days_before_year y + pos_part days) (days_before_year z + neg_part days)
moved zero z days hy hz = absurd (omega arith)
moved (suc y) zero days hy hz = absurd (omega arith)
moved (suc y) (suc z) days hy hz = grind (int_laws, days_between_lem y z)

year_loop-within :
    (fuel y d : ℕ) → d < days_in_year y → year_loop (suc fuel) (pos y) (pos d) ≡ some (pos y, pos d)
unfolding year_loop
year_loop-within fuel y d h = rw (is_leap-year y) (ground arith)

year_loop-after :
    (fuel y d : ℕ)
    → 1 ≤ y
    → days_in_year y ≤ d
    → year_loop (suc fuel) (pos y) (pos d)
      ≡ year_loop fuel
          (pos (y + d / 365))
          (sub_ℕ (days_before_year y + d) (days_before_year (y + d / 365) + 0))
unfolding year_loop
year_loop-after fuel y d hy h =
    rw (is_leap-year y, guess_year_pos y d, moved y (y + d / 365) (pos d) hy (omega arith))
      (ground arith)

year_loop-before :
    (fuel y n : ℕ)
    → 2 + n / 365 ≤ y
    → year_loop (suc fuel) (pos y) (negsuc n)
      ≡ year_loop fuel
          (pos (y - 1 - n / 365))
          (sub_ℕ (days_before_year y + 0) (days_before_year (y - 1 - n / 365) + suc n))
unfolding year_loop
year_loop-before fuel y n hy =
    rw
      (
        guess_year_neg y n (omega arith),
        moved y (y - 1 - n / 365) (negsuc n) (omega arith) (omega arith),
      )
      (ground arith)

days_before_year-suc : (y : ℕ) → days_before_year (suc y) ≡ days_before_year y + days_in_year y
unfolding days_before_year
days_before_year-suc y = refl

pub days_before_year-at :
    (y : ℕ) → 1 ≤ y → days_before_year y ≡ y * 365 + (y - 1) / 4 - (y - 1) / 100 + (y - 1) / 400 + 1
days_before_year-at zero h = absurd (omega arith)
days_before_year-at (suc y) h = omega (arith, days_before_year-closed y)

-- The year of a day, and its place in the year.
pub record IsYear (total : ℕ) (o : Option (ℤ × ℤ)) : Type 0 where
  pub year : ℕ
  pub yday : ℕ
  pub is : o ≡ some (pos year, pos yday)
  pub fits : yday < days_in_year year
  pub same : days_before_year year + yday ≡ total
  pub late : 1 ≤ year

within-IsYear :
    (fuel y d : ℕ)
    → 1 ≤ y
    → d < days_in_year y
    → IsYear (days_before_year y + d) (year_loop (suc fuel) (pos y) (pos d))
within-IsYear fuel y d hy h = record {
  year = y;
  yday = d;
  is = year_loop-within fuel y d h;
  fits = h;
  same = refl;
  late = hy;
}

after_end-IsYear :
    (fuel y d : ℕ)
    → 1 ≤ y
    → d < 730
    → IsYear (days_before_year y + d) (year_loop (suc (suc fuel)) (pos y) (pos d))
after_end-IsYear fuel y d hy h = elim (dec_lt d (days_in_year y)) [
  | yes p ↦ within-IsYear (suc fuel) y d hy p
  | no p ↦
      let one : d / 365 ≡ 1 = ground arith in
      let e : y + d / 365 ≡ suc y = omega (arith, one) in
      let left : sub_ℕ (days_before_year y + d) (days_before_year (suc y) + 0)
          ≡ pos (d - days_in_year y) =
        unfold days_before_year in ground arith in
      let total : days_before_year (suc y) + (d - days_in_year y) ≡ days_before_year y + d =
        unfold days_before_year in ground arith in
      rw (year_loop-after (suc fuel) y d hy (omega arith), e, left, ← total)
        (within-IsYear fuel (suc y) (d - days_in_year y) (omega arith) (ground arith))
]

before_start-IsYear :
    (fuel y n : ℕ)
    → 2 ≤ y
    → n < 365
    → (total : ℕ) → total + suc n ≡ days_before_year y
    → IsYear total (year_loop (suc (suc fuel)) (pos y) (negsuc n))
before_start-IsYear fuel zero n hy h total ht = absurd (omega arith)
before_start-IsYear fuel (suc y) n hy h total ht =
    let e : suc y - 1 - n / 365 ≡ y = omega arith in
    let left : sub_ℕ (days_before_year (suc y) + 0) (days_before_year y + suc n)
        ≡ pos (days_in_year y - suc n) =
      unfold days_before_year in ground arith in
    let same : days_before_year y + (days_in_year y - suc n) ≡ total =
      ground (arith, days_before_year-suc y) in
    rw (year_loop-before (suc fuel) (suc y) n (omega arith), e, left, ← same)
      (within-IsYear fuel y (days_in_year y - suc n) (omega arith) (ground arith))

-- Three rounds are enough from 1970, for 90 years on and 90 years back.
pub year_loop-IsYear :
    (days : ℤ)
    → pos_part days < 32850
    → neg_part days < 32850
    → (total : ℕ) → epoch + pos_part days ≡ total + neg_part days
    → IsYear total (year_loop 3 (pos 1970) days)
year_loop-IsYear (pos d) h1 h2 total ht = elim (dec_lt d 365) [
  | yes p ↦
      let e : days_before_year 1970 + d ≡ total =
        omega (arith, days_before_year-at 1970 (omega arith)) in
      rw (← e) (within-IsYear 2 1970 d (omega arith) (ground arith))
  | no p ↦
      let z = 1970 + d / 365 in
      let a : days_before_year 1970 + d ≡ total =
        omega (arith, days_before_year-at 1970 (omega arith)) in
      rw (year_loop-after 2 1970 d (omega arith) (ground arith))
        (elim (dec_lt (days_before_year 1970 + d) (days_before_year z)) [
          | yes q ↦
              let n = days_before_year z - (days_before_year 1970 + d) - 1 in
              let left : sub_ℕ (days_before_year 1970 + d) (days_before_year z + 0) ≡ negsuc n =
                ground arith in
              rw left (
                before_start-IsYear 0 z n (omega arith)
                  (omega (
                    arith,
                    days_before_year-at 1970 (omega arith),
                    days_before_year-at z (omega arith),
                  ))
                  total (omega arith))
          | no q ↦
              let n = days_before_year 1970 + d - days_before_year z in
              let left : sub_ℕ (days_before_year 1970 + d) (days_before_year z + 0) ≡ pos n =
                ground arith in
              let e : days_before_year z + n ≡ total = omega arith in
              rw (left, ← e)
                (after_end-IsYear 0 z n (omega arith) (
                  omega (
                    arith,
                    days_before_year-at 1970 (omega arith),
                    days_before_year-at z (omega arith),
                  )))
        ])
]
year_loop-IsYear (negsuc n) h1 h2 total ht =
    let z = 1969 - n / 365 in
    let a : total + suc n ≡ days_before_year 1970 =
      omega (arith, days_before_year-at 1970 (omega arith)) in
    let c = days_before_year-at 1970 (omega arith) in
    let b = days_before_year-at z (omega arith) in
    let k = days_before_year 1970 - (days_before_year z + suc n) in
    let left : sub_ℕ (days_before_year 1970 + 0) (days_before_year z + suc n) ≡ pos k =
      ground (arith, b, c) in
    let e : days_before_year z + k ≡ total = omega (arith, b, c) in
    rw (year_loop-before 2 1970 n (omega arith), left, ← e)
      (after_end-IsYear 0 z k (omega arith) (omega (arith, b, c)))
