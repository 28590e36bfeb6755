-- ===== src/Time/Months.antt =====
-- The loop over months of `__offtime`, and its table.
use cibyl.Base.{
  ℕ, zero, suc, ◌+◌, ◌-◌, ◌≤◌, ◌<◌, ◌≡◌, refl, Bool, true, false, Option, some, List, [], ◌∷◌,
  get_elem?, arith, ◌∙◌, ap, if◌then◌else◌,
}
use native.Mathlib.Decide.{dec_lt}
use cibyl.Base.Int.{ℤ, pos, ◌-ℤ◌, int_laws}
use cibyl.Time.{mon_yday, month_loop}
use cibyl.Time.Calendar.{days_in_month, days_before_month}

-- The month of a day of the year, and its place in the month.
pub record IsMonth (leap : Bool) (yday : ℕ) (o : Option (ℕ × ℤ)) : Type 0 where
  pub mon : ℕ
  pub day : ℕ
  pub is : o ≡ some (mon, pos day)
  pub few : mon < 12
  pub fits : day < days_in_month leap mon
  pub same : days_before_month leap mon + day ≡ yday

counted : (ℕ → ℕ) → ℕ → ℕ → List ℕ
counted f start zero = []
counted f start (suc n) = f start ∷ counted f (suc start) n

get_elem?-counted :
    (f : ℕ → ℕ) (start n i : ℕ) → i < n → get_elem? (counted f start n) i ≡ some (f (start + i))
unfolding counted
get_elem?-counted f start zero i h = absurd (omega arith)
get_elem?-counted f start (suc n) zero h = ap (λ (k : ℕ). some (f k)) (omega arith)
get_elem?-counted f start (suc n) (suc i) h =
    get_elem?-counted f (suc start) n i (omega arith) ∙ ap (λ (k : ℕ). some (f k)) (omega arith)

-- The table holds the days before each month.
mon_yday-counted : (leap : Bool) → mon_yday leap ≡ counted (days_before_month leap) 0 13
unfolding counted days_before_month days_in_month
mon_yday-counted true = refl
mon_yday-counted false = refl

mon_yday_lem :
    (leap : Bool) (m : ℕ) → m < 13 → get_elem? (mon_yday leap) m ≡ some (days_before_month leap m)
mon_yday_lem leap m h = rw (mon_yday-counted leap) (
    get_elem?-counted (days_before_month leap) 0 13 m h
    ∙ ap (λ (k : ℕ). some (days_before_month leap k)) (omega arith))

less_days : (a b : ℕ) → b ≤ a → pos a -ℤ pos b ≡ pos (a - b)
less_days a b h = omega int_laws

stop_here :
    (leap : Bool) (m d : ℕ)
    → m < 12
    → days_before_month leap m ≤ d
    → d < days_before_month leap (suc m)
    → month_loop (mon_yday leap) m (pos d) ≡ some (m, pos (d - days_before_month leap m))
unfolding month_loop
stop_here leap zero d hm lo hi =
    rw (mon_yday_lem leap 0 (omega arith), less_days d (days_before_month leap 0) lo) (ground arith)
stop_here leap (suc m) d hm lo hi =
    rw (mon_yday_lem leap (suc m) (omega arith), less_days d (days_before_month leap (suc m)) lo)
      (ground arith)

month_loop-earlier :
    (leap : Bool) (m d : ℕ)
    → m < 11
    → d < days_before_month leap (suc m)
    → month_loop (mon_yday leap) (suc m) (pos d) ≡ month_loop (mon_yday leap) m (pos d)
unfolding month_loop
month_loop-earlier leap m d hm h = rw (mon_yday_lem leap (suc m) (omega arith)) (ground arith)

here :
    (leap : Bool) (m d : ℕ)
    → m < 12
    → days_before_month leap m ≤ d
    → d < days_before_month leap (suc m)
    → IsMonth leap d (month_loop (mon_yday leap) m (pos d))
here leap m d hm lo hi = record {
  mon = m;
  day = d - days_before_month leap m;
  is = stop_here leap m d hm lo hi;
  few = hm;
  fits = unfold days_before_month in omega arith;
  same = omega arith;
}

-- The loop ends at the month of the day, before it leaves the table.
pub month_loop-IsMonth :
    (leap : Bool) (m d : ℕ)
    → m < 12
    → d < days_before_month leap (suc m)
    → IsMonth leap d (month_loop (mon_yday leap) m (pos d))
month_loop-IsMonth leap zero d hm h = here leap 0 d hm (unfold days_before_month in omega arith) h
month_loop-IsMonth leap (suc m) d hm h = elim (dec_lt d (days_before_month leap (suc m))) [
  | yes p ↦
      rw (month_loop-earlier leap m d (omega arith) p) (month_loop-IsMonth leap m d (omega arith) p)
  | no p ↦ here leap (suc m) d hm (omega arith) h
]

-- The months make up the year.
pub twelve_months : (leap : Bool) → days_before_month leap 12 ≡ (if leap then 366 else 365)
unfolding days_before_month days_in_month
twelve_months true = refl
twelve_months false = refl
