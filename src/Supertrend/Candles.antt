-- ===== src/Supertrend/Candles.antt =====
-- client/supertrend_engine.py: `is_candle_closed`. Times are whole seconds since 1970; of a candle
-- only its two stamps are read.
pub mod Tests
use xts_multi_tennant.Prelude.{
  Bool, Bool-cases, List, Option, [], arith, false, if◌then◌else◌, inl, inr, leb, ltb, none, not,
  some, true, ℕ, ◌%◌, ◌&&◌, ◌+◌, ◌-◌, ◌<◌, ◌==◌, ◌||◌, ◌↔◌, ◌∷◌, ◌≡◌, ◌≤◌, ◌⊎◌,
}

-- A candle with its keys `time` and `timestamp`, where it has them.
pub record Stamped : Type 0 where
  pub time : Option ℕ
  pub timestamp : Option ℕ

-- `c.get("timestamp", 0)`
abbrev timestamp_or_zero : Option ℕ → ℕ
timestamp_or_zero none = 0
timestamp_or_zero (some t) = t

abbrev stamp_or : Option ℕ → Option ℕ → ℕ
stamp_or none other = timestamp_or_zero other
stamp_or (some t) other = if t == 0 then timestamp_or_zero other else t

-- `int(c.get("time") or c.get("timestamp", 0))`
unfoldable pub stamp : Stamped → ℕ
stamp c = stamp_or c.time c.timestamp

-- `candles[-1]`
unfoldable pub latest : List Stamped → Option Stamped
latest [] = none
latest (c ∷ []) = some c
latest (c ∷ d ∷ cs) = latest (d ∷ cs)

-- `candles[-2]`, where there is one.
unfoldable pub before_latest : List Stamped → Option Stamped
before_latest [] = none
before_latest (c ∷ []) = none
before_latest (c ∷ d ∷ []) = some c
before_latest (c ∷ d ∷ e ∷ cs) = before_latest (d ∷ e ∷ cs)

-- The second of the day in India, at UTC+5:30.
abbrev pub ist_second : ℕ → ℕ
ist_second t = (t + 19800) % 86400

-- `(a - b) % m` of Python, which is not negative where b exceeds a.
abbrev floor_mod : ℕ → ℕ → ℕ → ℕ
floor_mod a b m = (a + (m - b % m)) % m

-- `is_valid_ist_boundary`: the bar ends a whole number of bars from 09:00, 09:15 or 17:00.
unfoldable pub is_valid_ist_boundary : ℕ → ℕ → Bool
is_valid_ist_boundary last tf =
    let end = ist_second last + 1 in
    floor_mod end 32400 tf == 0
    || leb 33300 end && floor_mod end 33300 tf == 0
    || leb 61200 end && floor_mod end 61200 tf == 0

-- The suppression of an intra-bar tick, given the stamp of the candle before.
unfoldable pub is_partial : ℕ → ℕ → ℕ → Bool
is_partial prev last tf = ltb 0 prev && ltb last (prev + 86400) && ltb (last + 60) (prev + tf)

-- The fallback for fixtures: the stamps are a bar apart, up to two seconds.
unfoldable pub is_a_bar_after : ℕ → ℕ → ℕ → Bool
is_a_bar_after prev last tf = leb (prev + tf) (last + 2) && leb last (prev + tf + 2)

-- The check of a bar of a minute or more against the exchange's boundaries.
unfoldable pub is_aligned : Option Stamped → ℕ → ℕ → Bool
unfolding stamp is_valid_ist_boundary is_partial is_a_bar_after
is_aligned none last tf = is_valid_ist_boundary last tf
is_aligned (some p) last tf =
    if is_partial (stamp p) last tf
    then false
    else is_valid_ist_boundary last tf || is_a_bar_after (stamp p) last tf

unfoldable pub judge : Option Stamped → ℕ → ℕ → ℕ → Bool
unfolding is_aligned
judge before last tf now =
    if not (last % 60 == 59)
    then false
    else if ltb now last
    then false
    else if leb 60 tf
    then is_aligned before last tf
    else true

unfoldable pub closed_by : Option Stamped → Option Stamped → ℕ → ℕ → Bool
unfolding judge stamp
closed_by none before tf now = false
closed_by (some c) before tf now = if tf == 0 then false else judge before (stamp c) tf now

-- `is_candle_closed`
unfoldable pub is_candle_closed : List Stamped → ℕ → ℕ → Bool
unfolding closed_by latest before_latest
is_candle_closed candles tf now = closed_by (latest candles) (before_latest candles) tf now

-- A timeframe of whole minutes that divides the quarter of an hour.
pub DividesQuarter : ℕ → Type 0
DividesQuarter tf = (tf ≡ 60) ⊎ (tf ≡ 180) ⊎ (tf ≡ 300) ⊎ (tf ≡ 900)

-- The second after the stamp is a whole number of bars from midnight in India.
pub EndsBar : ℕ → ℕ → Type 0
EndsBar last tf = (ist_second last + 1) % tf ≡ 0

aligned_lem :
    (tf : ℕ)
    → DividesQuarter tf
    → (p last : ℕ) → 0 < p
    → p < last
    → last % 60 ≡ 59
    → EndsBar p tf
    → (if is_partial p last tf
        then false
        else is_valid_ist_boundary last tf || is_a_bar_after p last tf)
      ≡ ((ist_second last + 1) % tf == 0)
unfolding DividesQuarter EndsBar is_partial is_a_bar_after is_valid_ist_boundary
aligned_lem tf d p last given after minute ends = ground arith

whole_minute : (tf : ℕ) → DividesQuarter tf → (last : ℕ) → EndsBar last tf → last % 60 ≡ 59
unfolding DividesQuarter EndsBar
whole_minute tf d last ends = ground arith

judge-EndsBar :
    (tf : ℕ)
    → DividesQuarter tf
    → (p : Stamped) (last now : ℕ) → 0 < stamp p
    → stamp p < last
    → EndsBar (stamp p) tf
    → judge (some p) last tf now ≡ ((ist_second last + 1) % tf == 0 && leb last now)
unfolding judge is_aligned DividesQuarter EndsBar
judge-EndsBar tf d p last now given after ends = elim (Bool-cases (last % 60 == 59)) [
  | inr off ↦ ground arith
  | inl minute ↦
      let same = aligned_lem tf d (stamp p) last given after (ground arith) ends in
      ground (arith, same)
]

closed_by-EndsBar :
    (tf : ℕ)
    → DividesQuarter tf
    → (p c : Stamped) (now : ℕ) → 0 < stamp p
    → stamp p < stamp c
    → EndsBar (stamp p) tf
    → closed_by (some c) (some p) tf now ≡ true ↔ (EndsBar (stamp c) tf × stamp c ≤ now)
unfolding closed_by EndsBar DividesQuarter
closed_by-EndsBar tf d p c now given after ends =
    let same = judge-EndsBar tf d p (stamp c) now given after ends in ground (arith, same)

-- For a timeframe of 1, 3, 5 or 15 minutes, whose bar before the latest candle is stamped at the
-- end of a bar and earlier than the latest, the latest candle is taken as closed exactly where its
-- stamp ends a bar of the day in India and the clock has reached it.
pub is_candle_closed-EndsBar :
    (candles : List Stamped) (tf now : ℕ) (p c : Stamped)
    → DividesQuarter tf
    → latest candles ≡ some c
    → before_latest candles ≡ some p
    → 0 < stamp p
    → stamp p < stamp c
    → EndsBar (stamp p) tf
    → is_candle_closed candles tf now ≡ true ↔ (EndsBar (stamp c) tf × stamp c ≤ now)
unfolding is_candle_closed EndsBar
is_candle_closed-EndsBar candles tf now p c d at_end before given after ends =
    rw (at_end, before) (closed_by-EndsBar tf d p c now given after ends)
