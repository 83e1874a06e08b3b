-- ===== src/Market/Calendar.antt =====
-- Dates as proleptic ordinals (`date.toordinal`), and the holiday tables of client/config.py.
use xts_multi_tennant.Prelude.{
  All, Bool, List, [], arith, contains, false, get_elem?, if◌then◌else◌, leb, ltb, none, not, refl,
  some, ℕ, ◌%◌, ◌&&◌, ◌*◌, ◌++◌, ◌+◌, ◌-◌, ◌/◌, ◌<◌, ◌==◌, ◌||◌, ◌∷◌, ◌≡◌, ◌≤◌,
}

is_leap : ℕ → Bool
is_leap y = (y % 4 == 0) && (not (y % 100 == 0) || (y % 400 == 0))

days_before_month : ℕ → ℕ
days_before_month m = elim (get_elem? table m) [ none ↦ 0 | some n ↦ n ]
  where
    table : List ℕ
    table = 0 ∷ 0 ∷ 31 ∷ 59 ∷ 90 ∷ 120 ∷ 151 ∷ 181 ∷ 212 ∷ 243 ∷ 273 ∷ 304 ∷ 334 ∷ []

-- `datetime.date(y, m, d)`, for a valid date.
abbrev pub date : ℕ → ℕ → ℕ → ℕ
unfolding is_leap days_before_month
date y m d =
    let z = y - 1 in
    365 * z
    + z / 4
    - z / 100
    + z / 400
    + days_before_month m
    + (if is_leap y && ltb 2 m then 1 else 0)
    + d

-- `date.weekday()`: 0 is Monday.
abbrev pub weekday : ℕ → ℕ
weekday day = (day + 6) % 7

abbrev pub is_weekend : ℕ → Bool
is_weekend day = leb 5 (weekday day)

unfoldable pub full_day_holidays : List ℕ
unfolding date
full_day_holidays =
    date 2026 1 26
    ∷ date 2026 8 15
    ∷ date 2026 10 2
    ∷ date 2026 12 25
    ∷ date 2027 1 26
    ∷ date 2027 8 15
    ∷ date 2027 10 2
    ∷ date 2027 12 25
    ∷ []

unfoldable pub morning_session_holidays : List ℕ
unfolding date
morning_session_holidays =
    date 2026 2 17
    ∷ date 2026 3 6
    ∷ date 2026 3 20
    ∷ date 2026 4 3
    ∷ date 2026 4 14
    ∷ date 2026 5 1
    ∷ date 2026 5 27
    ∷ date 2026 6 26
    ∷ date 2026 10 20
    ∷ date 2026 11 8
    ∷ date 2026 11 24
    ∷ date 2027 3 22
    ∷ date 2027 3 26
    ∷ date 2027 4 14
    ∷ date 2027 5 1
    ∷ []

-- `MCX_HOLIDAYS`, the union.
unfoldable pub holidays : List ℕ
unfolding full_day_holidays morning_session_holidays
holidays = full_day_holidays ++ morning_session_holidays

unfoldable pub is_full_day_holiday : ℕ → Bool
unfolding full_day_holidays
is_full_day_holiday day = contains day full_day_holidays

unfoldable pub is_morning_session_holiday : ℕ → Bool
unfolding morning_session_holidays
is_morning_session_holiday day = contains day morning_session_holidays

unfoldable pub is_holiday : ℕ → Bool
unfolding holidays
is_holiday day = contains day holidays

-- Outside the years of the tables no day is a holiday.
contains-below : (d m : ℕ) (xs : List ℕ) → All (λ h. m ≤ h) xs → d < m → contains d xs ≡ false
contains-below d m [] a h = refl
contains-below d m (x ∷ xs) a h = ground (arith, contains-below d m xs a.1 h)

contains-above : (d m : ℕ) (xs : List ℕ) → All (λ h. h ≤ m) xs → m < d → contains d xs ≡ false
contains-above d m [] a h = refl
contains-above d m (x ∷ xs) a h = ground (arith, contains-above d m xs a.1 h)

pub is_holiday-early : (d : ℕ) → d < 739642 → is_holiday d ≡ false
unfolding is_holiday
is_holiday-early d h = contains-below d 739642 holidays (omega arith) h

pub is_holiday-late : (d : ℕ) → 740340 < d → is_holiday d ≡ false
unfolding is_holiday
is_holiday-late d h = contains-above d 740340 holidays (omega arith) h

epoch_is_thursday : weekday (date 1970 1 1) ≡ 3
unfolding date
epoch_is_thursday = refl

republic_day : date 2026 1 26 ≡ 739642
unfolding date
republic_day = refl
