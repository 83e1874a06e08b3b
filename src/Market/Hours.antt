-- ===== src/Market/Hours.antt =====
-- client/config.py, `is_market_open_ist` and `is_market_opening_stabilizing`, and the portal's own
-- copy of the former in portal/scheduler.py. A timestamp is in whole seconds of POSIX time, and a
-- time of day in seconds, so that the comparisons of (hour, minute, second) are those of numbers.
use xts_multi_tennant.Prelude.{
  Bool, Text, arith, codes, false, if◌then◌else◌, is_infix, leb, ltb, not, true, upper, ℕ, ◌%◌,
  ◌&&◌, ◌*◌, ◌+◌, ◌-◌, ◌/◌, ◌||◌, ◌↔◌, ◌≡◌, ◌≤◌,
}
use xts_multi_tennant.Market.Calendar.{
  is_weekend, is_full_day_holiday, is_morning_session_holiday, is_holiday,
}

abbrev pub hms : ℕ → ℕ → ℕ → ℕ
hms h m s = h * 3600 + m * 60 + s

-- `datetime.fromtimestamp(ts, tz=IST_TIMEZONE)`, five and a half hours ahead.
abbrev pub ist_day : ℕ → ℕ
ist_day ts = (ts + 19800) / 86400 + 719163

abbrev pub ist_second : ℕ → ℕ
ist_second ts = (ts + 19800) % 86400

-- `ENFORCE_MARKET_HOURS`, and whether a test run bypasses the hours (PYTEST_CURRENT_TEST set and
-- ENFORCE_MARKET_HOURS_IN_TESTS not).
pub record Settings : Type 0 where
  pub enforce : Bool
  pub test_bypass : Bool

unfoldable pub is_mcx : Text → Bool
unfolding is_infix
is_mcx seg = is_infix (codes "MCX") seg || is_infix (codes "COMMODITY") seg

unfoldable pub is_equity : Text → Bool
unfolding is_infix
is_equity seg =
    is_infix (codes "NSE") seg
    || is_infix (codes "BSE") seg
    || is_infix (codes "CM") seg
    || is_infix (codes "CASH") seg

abbrev pub between : ℕ → ℕ → ℕ → Bool
between lo hi x = leb lo x && leb x hi

-- `is_market_open_ist` past its bypasses, at a date and a time of day.
unfoldable pub session_open : Text → ℕ → ℕ → Bool
session_open exch_seg day second =
    let seg = upper exch_seg in
    if is_weekend day
    then false
    else if is_mcx seg
    then (if is_full_day_holiday day
        then false
        else if is_morning_session_holiday day
        then between (hms 17 0 0) (hms 23 55 0) second
        else between (hms 9 0 0) (hms 23 55 0) second)
    else if is_holiday day
    then false
    else if is_equity seg
    then between (hms 9 15 0) (hms 15 30 0) second
    else between (hms 9 0 0) (hms 23 55 0) second

unfoldable pub is_market_open_ist : Settings → Text → ℕ → Bool → Bool
is_market_open_ist c exch_seg now_ts force_check =
    if not force_check && not c.enforce
    then true
    else if not force_check && c.test_bypass
    then true
    else session_open exch_seg (ist_day now_ts) (ist_second now_ts)

unfoldable pub is_market_opening_stabilizing : Settings → Text → ℕ → Bool
is_market_opening_stabilizing c exch_seg now_ts =
    let day = ist_day now_ts in
    let second = ist_second now_ts in
    if c.test_bypass
    then false
    else if is_mcx (upper exch_seg)
    then (if is_morning_session_holiday day
        then leb (hms 17 0 0) second && ltb second (hms 17 1 0)
        else if not (is_full_day_holiday day)
        then leb (hms 9 0 0) second && ltb second (hms 9 1 0)
        else false)
    else false

-- portal/scheduler.py, `is_market_open_ist`: the same hours with no holidays.
unfoldable pub portal_session_open : Text → ℕ → ℕ → Bool
portal_session_open exch_seg day second =
    let seg = upper exch_seg in
    if is_weekend day
    then false
    else if is_mcx seg
    then between (hms 9 0 0) (hms 23 55 0) second
    else if is_equity seg
    then between (hms 9 15 0) (hms 15 30 0) second
    else between (hms 9 0 0) (hms 23 55 0) second

-- What a holiday closes: a commodity segment all day on a full holiday and until 17:00 on a morning
-- holiday, the others on any holiday.
abbrev pub closed_for_holiday : Text → ℕ → ℕ → Bool
closed_for_holiday exch_seg day second =
    if is_mcx (upper exch_seg)
    then is_full_day_holiday day || (is_morning_session_holiday day && ltb second (hms 17 0 0))
    else is_holiday day

session_lem :
    (exch_seg : Text) (day second : ℕ)
    → session_open exch_seg day second
      ≡ (portal_session_open exch_seg day second && not (closed_for_holiday exch_seg day second))
unfolding session_open portal_session_open
session_lem exch_seg day second = ground arith

-- With its hours enforced and no bypass of a test run, the client's gate is open exactly where the
-- portal's hours are and no holiday closes the segment: all day for a full holiday, until 17:00 for
-- a morning holiday of a commodity segment.
pub is_market_open_ist-portal :
    (c : Settings) (exch_seg : Text) (now_ts : ℕ)
    → c.enforce ≡ true
    → c.test_bypass ≡ false
    → is_market_open_ist c exch_seg now_ts false ≡ (
        portal_session_open exch_seg (ist_day now_ts) (ist_second now_ts)
        && not (closed_for_holiday exch_seg (ist_day now_ts) (ist_second now_ts)))
unfolding is_market_open_ist
is_market_open_ist-portal c exch_seg now_ts e b =
    rw (e, b) (session_lem exch_seg (ist_day now_ts) (ist_second now_ts))

minute_before :
    (ts : ℕ)
    → 60 ≤ ts
    → 60 ≤ ist_second ts
    → (ist_day (ts - 60) ≡ ist_day ts) × (ist_second (ts - 60) ≡ ist_second ts - 60)
minute_before ts h k = (omega arith, omega arith)

session_open-late :
    (exch_seg : Text) (day second : ℕ) → session_open exch_seg day second ≡ true → 60 ≤ second
unfolding session_open
session_open-late exch_seg day second h = ground arith

session_minute :
    (exch_seg : Text) (day second : ℕ)
    → is_mcx (upper exch_seg) ≡ true
    → session_open exch_seg day second ≡ true
    → ((if is_mcx (upper exch_seg)
          then (if is_morning_session_holiday day
              then leb (hms 17 0 0) second && ltb second (hms 17 1 0)
              else if not (is_full_day_holiday day)
              then leb (hms 9 0 0) second && ltb second (hms 9 1 0)
              else false)
          else false)
        ≡ true)
      ↔ (session_open exch_seg day (second - 60) ≡ false)
unfolding session_open
session_minute exch_seg day second mcx h = (λ a. ground arith, λ a. ground arith)

-- Under enforced hours, a commodity market that is open is in its stabilization minute exactly
-- when it was closed a minute ago.
stabilizing_iff :
    (c : Settings) (exch_seg : Text) (now_ts : ℕ)
    → c.enforce ≡ true
    → c.test_bypass ≡ false
    → is_mcx (upper exch_seg) ≡ true
    → 60 ≤ now_ts
    → is_market_open_ist c exch_seg now_ts false ≡ true
    → (is_market_opening_stabilizing c exch_seg now_ts ≡ true)
      ↔ (is_market_open_ist c exch_seg (now_ts - 60) false ≡ false)
unfolding is_market_open_ist is_market_opening_stabilizing
stabilizing_iff c exch_seg now_ts e b mcx late open_now =
    let now_open : session_open exch_seg (ist_day now_ts) (ist_second now_ts) ≡ true =
      rw (e, b) at open_now in
    let before =
      minute_before now_ts late
        (session_open-late exch_seg (ist_day now_ts) (ist_second now_ts) now_open) in
    rw (e, b, before.0, before.1)
      (session_minute exch_seg (ist_day now_ts) (ist_second now_ts) mcx now_open)
