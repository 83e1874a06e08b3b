-- ===== src/Market/Rollover.antt =====
-- client/config.py, `get_commodity_rollover_cutoff` and `is_commodity_past_rollover`. An expiry is
-- a date's ordinal, and a moment of Indian time is a day and a second of it.
use xts_multi_tennant.Prelude.{
  Bool, Bool-cases, Option, Option-cases, arith, false, if◌then◌else◌, inl, inr, leb, ltb, ltb→lt,
  none, not, refl, some, subst, suc, true, zero, ℕ, ◌&&◌, ◌+◌, ◌-◌, ◌<◌, ◌==◌, ◌||◌, ◌≡◌, ◌≢◌, ◌≤◌,
}
use xts_multi_tennant.Market.Calendar.{is_weekend, is_holiday, is_holiday-early, is_holiday-late}
use xts_multi_tennant.Market.Hours.{hms}

pub record Moment : Type 0 where
  pub day : ℕ
  pub second : ℕ

-- `a <= b` on moments.
abbrev pub not_after : Moment → Moment → Bool
not_after a b = ltb a.day b.day || ((a.day == b.day) && leb a.second b.second)

-- A day without trading at 14:00.
abbrev pub is_closed : ℕ → Bool
is_closed day = is_weekend day || is_holiday day

-- The `while` loop: back to the last trading day. `none` means that the fuel has run out.
unfoldable pub trading_day_from : ℕ → ℕ → Option ℕ
trading_day_from zero day = none
trading_day_from (suc fuel) day =
    let earlier = trading_day_from fuel (day - 1) in if is_closed day then earlier else some day

-- The longest run of closed days of the tables is three days.
abbrev pub search_fuel : ℕ
search_fuel = 4

-- `none` for a contract without expiry, whose cutoff is the end of time.
unfoldable pub get_commodity_rollover_cutoff : Option ℕ → Option Moment
unfolding trading_day_from
get_commodity_rollover_cutoff none = none
get_commodity_rollover_cutoff (some exp_date) = elim (trading_day_from search_fuel (exp_date - 8)) [
  | none ↦ none
  | some day ↦ some (record { day = day; second = hms 14 0 0 })
]

unfoldable pub is_commodity_past_rollover : Option ℕ → Moment → Bool
is_commodity_past_rollover none now = false
is_commodity_past_rollover (some exp_date) now =
    if leb exp_date (now.day + 7)
    then true
    else elim (get_commodity_rollover_cutoff (some exp_date)) [
      | none ↦ false
      | some cutoff ↦ not_after cutoff now
    ]

-- What the loop finds: the last trading day up to the one it starts at.
pub trading_day_from_lem :
    (fuel day r : ℕ)
    → trading_day_from fuel day ≡ some r
    → (is_closed r ≡ false) × (r ≤ day) × ((d : ℕ) → r < d → d ≤ day → is_closed d ≡ true)
unfolding trading_day_from
trading_day_from_lem zero day r e = cc
trading_day_from_lem (suc fuel) day r e = elim (Bool-cases (is_closed day)) [
  | inl closed ↦
      let e' : trading_day_from fuel (day - 1) ≡ some r = rw closed at e in
      let ih = trading_day_from_lem fuel (day - 1) r e' in
      (
        ih.0,
        omega (arith, ih.1),
        λ d lo hi. elim (Bool-cases (d == day)) [
          | inl last ↦ let l : d ≡ day = ground arith in rw l closed
          | inr before ↦ ih.2 d lo (ground arith)
        ],
      )
  | inr trading ↦
      let e' : some day ≡ some r = rw trading at e in
      let l : day ≡ r = cc in (rw (← l) trading, omega arith, λ d lo hi. absurd (omega arith))
]

-- A test of the days from one on, as many as are counted.
holds_from : ℕ → ℕ → (ℕ → Bool) → Bool
holds_from day zero test = true
holds_from day (suc count) test = if test day then holds_from (suc day) count test else false

holds_from-at :
    (count day n : ℕ) (test : ℕ → Bool)
    → holds_from day count test ≡ true
    → n < count
    → test (day + n) ≡ true
unfolding holds_from
holds_from-at zero day n test all_hold inside = absurd (omega arith)
holds_from-at (suc count) day n test all_hold inside = elim (Bool-cases (test day)) [
  | inr fails ↦ cc (rw fails at all_hold)
  | inl here ↦ elim (Bool-cases (n == 0)) [
    | inl first ↦ let z : day + n ≡ day = ground arith in rw z here
    | inr later ↦
        let shifted : suc day + (n - 1) ≡ day + n = ground arith in
        subst (λ d. test d ≡ true) shifted
          (holds_from-at count (suc day) (n - 1) test (rw here at all_hold) (ground arith))
  ]
]

-- One of any four days in a row is a trading day.
abbrev pub opens_within : ℕ → Bool
opens_within day =
    not (is_closed day && is_closed (day - 1) && is_closed (day - 2) && is_closed (day - 3))

-- The days from the first holiday of the tables to a few days past the last.
abbrev first_day : ℕ
first_day = 739640

opens_within_table : holds_from first_day 720 opens_within ≡ true
unfolding holds_from is_holiday
opens_within_table = refl

opens_within-early : (day : ℕ) → 4 ≤ day → day < 739642 → opens_within day ≡ true
opens_within-early day big h = ground (
  arith,
  is_holiday-early day,
  is_holiday-early (day - 1),
  is_holiday-early (day - 2),
  is_holiday-early (day - 3),
)

opens_within-late : (day : ℕ) → 740343 < day → opens_within day ≡ true
opens_within-late day h = ground (
  arith,
  is_holiday-late day,
  is_holiday-late (day - 1),
  is_holiday-late (day - 2),
  is_holiday-late (day - 3),
)

opens_within-middle : (n : ℕ) → n < 720 → opens_within (first_day + n) ≡ true
opens_within-middle n h = holds_from-at 720 first_day n opens_within opens_within_table h

pub opens_within-day : (day : ℕ) → 4 ≤ day → opens_within day ≡ true
opens_within-day day h = elim (Bool-cases (ltb day 739642)) [
  | inl early ↦ opens_within-early day h (ltb→lt _ _ early)
  | inr from ↦ elim (Bool-cases (ltb 740343 day)) [
    | inl late ↦ opens_within-late day (ltb→lt _ _ late)
    | inr within ↦
        let e : first_day + (day - first_day) ≡ day = ground arith in
        rw e at (opens_within-middle (day - first_day) (ground arith))
  ]
]

found_of_four :
    (a b c d : Bool) (x y z w : ℕ)
    → not (a && b && c && d) ≡ true
    → (if a
        then (if b then (if c then (if d then none else some w) else some z) else some y)
        else some x)
      ≢ none
found_of_four a b c d x y z w h = ground arith

trading_day_from-some :
    (day : ℕ) → opens_within day ≡ true → trading_day_from search_fuel day ≢ none
unfolding trading_day_from
trading_day_from-some day h =
    let back1 : day - 1 - 1 ≡ day - 2 = omega arith in
    let back2 : day - 2 - 1 ≡ day - 3 = omega arith in
    rw (back1, back2)
      (found_of_four (is_closed day) (is_closed (day - 1)) (is_closed (day - 2))
        (is_closed (day - 3)) day (day - 1) (day - 2) (day - 3) h)

-- What a cutoff is: 14:00 of the last trading day that is eight days or more before the expiry.
pub record IsCutoff (exp_date : ℕ) (c : Moment) : Type 0 where
  pub at_two : c.second ≡ hms 14 0 0
  pub trading : is_closed c.day ≡ false
  pub ahead : c.day + 8 ≤ exp_date
  pub last : (d : ℕ) → c.day < d → d + 8 ≤ exp_date → is_closed d ≡ true

-- Every expiry from day 12 on has a cutoff: the search ends within its fuel, at the last trading day that is
-- eight days or more ahead.
pub get_commodity_rollover_cutoff-IsCutoff :
    (exp_date : ℕ)
    → 12 ≤ exp_date
    → (c : Moment) × (get_commodity_rollover_cutoff (some exp_date) ≡ some c) × IsCutoff exp_date c
unfolding get_commodity_rollover_cutoff
get_commodity_rollover_cutoff-IsCutoff exp_date h =
    elim (Option-cases (trading_day_from search_fuel (exp_date - 8))) [
      | inl e ↦
          absurd
            (trading_day_from-some (exp_date - 8) (opens_within-day (exp_date - 8) (omega arith)) e)
      | inr (day, e) ↦
          let found = trading_day_from_lem search_fuel (exp_date - 8) day e in
          (
            record { day = day; second = hms 14 0 0 },
            rw (e, get_commodity_rollover_cutoff),
            record {
              at_two = refl;
              trading = found.0;
              ahead = omega (arith, found.1);
              last = λ d lo hi. found.2 d lo (omega arith);
            },
          )
    ]

-- The fail-safe of seven days is no second rule: a contract with an expiry from day 12 on is past
-- its rollover exactly from the cutoff on.
pub past_rollover-iff_cutoff :
    (exp_date : ℕ) (now : Moment)
    → 12 ≤ exp_date
    → (c : Moment) × (get_commodity_rollover_cutoff (some exp_date) ≡ some c)
      × (is_commodity_past_rollover (some exp_date) now ≡ not_after c now)
unfolding is_commodity_past_rollover
past_rollover-iff_cutoff exp_date now h =
    let (c, e, is) = get_commodity_rollover_cutoff-IsCutoff exp_date h in
    (c, e, rw e (ground (arith, is.ahead)))

-- A contract that is past its rollover stays so.
past_rollover-stays :
    (exp_date : Option ℕ) (now later : Moment)
    → not_after now later ≡ true
    → is_commodity_past_rollover exp_date now ≡ true
    → is_commodity_past_rollover exp_date later ≡ true
unfolding is_commodity_past_rollover
past_rollover-stays none now later h p = p
past_rollover-stays (some exp_date) now later h p = ground arith
