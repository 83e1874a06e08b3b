-- ===== src/Supertrend/Indicator.antt =====
-- client/supertrend_engine.py, `calculate_supertrend`. Python's float is not modelled: its operations
-- are a record of functions, `Floats`. A candle's
-- entry is none where its conversion raises, and a missing one is 0.
use xts_multi_tennant.Prelude.{
  Bool, List, Option, [], drop, false, if◌then◌else◌, length, ltb, map, max, none, not, pos_part,
  some, take, true, ℕ, ℤ, ◌&&◌, ◌++◌, ◌+◌, ◌-◌, ◌||◌, ◌∷◌,
}
pub mod Bands
pub mod Totality
pub mod Tests

-- Python's float as the indicator uses it.
pub record Floats : Type 1 where
  pub Float : Type 0
  pub of_nat : ℕ → Float
  pub add : Float → Float → Float
  pub sub : Float → Float → Float
  pub mul : Float → Float → Float
  pub div : Float → Float → Float
  pub absolute : Float → Float
  pub less : Float → Float → Bool
  pub at_least : Float → Float → Bool
  pub tenth : Float
  pub is_nan : Float → Bool
  pub is_inf : Float → Bool
  pub round2 : Float → Float

infixl 5 ◌>>=◌
abbrev ◌>>=◌ {ℓ κ} : {A : Type ℓ} {B : Type κ} → Option A → (A → Option B) → Option B
none >>= f = none
some a >>= f = f a

pub data Trend : Type 0 where
  initializing bullish bearish : Trend

unfoldable pub is_trend : Trend → Trend → Bool
is_trend initializing initializing = true
is_trend bullish bullish = true
is_trend bearish bearish = true
is_trend _ _ = false

module _ (F : Floats) where
  -- An entry of `candles`, where it is a dict.
  pub record Raw : Type 0 where
    pub raw_time : Option ℕ
    pub raw_open : Option F.Float
    pub raw_high : Option F.Float
    pub raw_low : Option F.Float
    pub raw_close : Option F.Float
    pub raw_volume : Option ℕ

  pub record Candle : Type 0 where
    pub time : ℕ
    pub open_price : F.Float
    pub high : F.Float
    pub low : F.Float
    pub close : F.Float
    pub volume : ℕ

  -- A bar with its bands; the bands, the line and the range are 0 before the first.
  pub record Point : Type 0 where
    pub candle : Candle
    pub upper_band : F.Float
    pub lower_band : F.Float
    pub trend : Trend
    pub atr : F.Float

  -- `max(a, b)`
  unfoldable pub larger : F.Float → F.Float → F.Float
  larger a b = if F.less a b then b else a

  -- `sum(xs, acc)`
  unfoldable pub total : F.Float → List F.Float → F.Float
  total acc [] = acc
  total acc (x ∷ xs) = total (F.add acc x) xs

  -- `sum(xs) / float(n)`
  unfoldable pub mean : ℕ → List F.Float → F.Float
  unfolding total
  mean n xs = F.div (total (F.of_nat 0) xs) (F.of_nat n)

  -- A candle without NaN and with a finite close.
  unfoldable pub sanitized : Candle → Option Candle
  sanitized c =
      if F.is_nan c.open_price
        || F.is_nan c.high
        || F.is_nan c.low
        || F.is_nan c.close
        || F.is_inf c.close
      then none
      else some c

  unfoldable pub clean_candle : Raw → Option Candle
  unfolding sanitized
  clean_candle r = do
    o ← r.raw_open
    h ← r.raw_high
    l ← r.raw_low
    c ← r.raw_close
    t ← r.raw_time
    v ← r.raw_volume
    sanitized (record { time = t; open_price = o; high = h; low = l; close = c; volume = v })

  -- `clean_candles`; an entry that is no dict is none.
  unfoldable pub clean_candles : List (Option Raw) → List Candle
  unfolding clean_candle
  clean_candles [] = []
  clean_candles (none ∷ rest) = clean_candles rest
  clean_candles (some r ∷ rest) =
      let others = clean_candles rest in
      elim (clean_candle r) [ none ↦ others | some c ↦ c ∷ others ]

  unfoldable pub true_range : Option F.Float → Candle → F.Float
  unfolding larger
  true_range none c = F.sub c.high c.low
  true_range (some prev_close) c =
      larger (larger (F.sub c.high c.low) (F.absolute (F.sub c.high prev_close)))
        (F.absolute (F.sub c.low prev_close))

  -- `tr_list`
  unfoldable pub true_ranges : Option F.Float → List Candle → List F.Float
  true_ranges prev_close [] = []
  true_ranges prev_close (c ∷ cs) = true_range prev_close c ∷ true_ranges (some c.close) cs

  -- The ATR after each further range, by Wilder's smoothing.
  unfoldable pub smoothed : ℕ → F.Float → List F.Float → List F.Float
  smoothed period prev [] = []
  smoothed period prev (x ∷ trs) =
      let atr = F.div (F.add (F.mul prev (F.of_nat (period - 1))) x) (F.of_nat period) in
      atr ∷ smoothed period atr trs

  -- The mean of each run of `period` ranges.
  unfoldable pub moving : ℕ → List F.Float → List F.Float
  unfolding mean
  moving period [] = []
  moving period (x ∷ trs) =
      let rest = moving period trs in
      if ltb (length (x ∷ trs)) period then [] else mean period (take period (x ∷ trs)) ∷ rest

  -- `atr_list` from index `period - 1` on.
  unfoldable pub atr_list : Bool → ℕ → List F.Float → List F.Float
  unfolding smoothed moving mean
  atr_list true period trs =
      let initial = mean period (take period trs) in
      initial ∷ smoothed period initial (drop period trs)
  atr_list false period trs = moving period trs

  unfoldable pub basic_ub : F.Float → Candle → F.Float → F.Float
  basic_ub multiplier c atr = F.add (F.div (F.add c.high c.low) (F.of_nat 2)) (F.mul multiplier atr)

  unfoldable pub basic_lb : F.Float → Candle → F.Float → F.Float
  basic_lb multiplier c atr = F.sub (F.div (F.add c.high c.low) (F.of_nat 2)) (F.mul multiplier atr)

  -- The upper band follows a lower one, or any once a close is above it.
  unfoldable pub ratchet_ub : F.Float → F.Float → F.Float → F.Float
  ratchet_ub basic prev_ub prev_close =
      if F.less basic prev_ub || F.less prev_ub prev_close then basic else prev_ub

  unfoldable pub ratchet_lb : F.Float → F.Float → F.Float → F.Float
  ratchet_lb basic prev_lb prev_close =
      if F.less prev_lb basic || F.less prev_close prev_lb then basic else prev_lb

  -- `trend[i]`, from the previous trend and bands.
  unfoldable pub turn : Trend → F.Float → F.Float → F.Float → Trend
  unfolding is_trend
  turn prev_trend prev_ub prev_lb close =
      if is_trend prev_trend bearish && F.less prev_ub close
      then bullish
      else if is_trend prev_trend bullish && F.less close prev_lb
      then bearish
      else prev_trend

  -- `supertrend[i]`
  unfoldable pub line : Point → F.Float
  unfolding is_trend
  line p = if is_trend p.trend bullish then p.lower_band else p.upper_band

  unfoldable pub first_point : F.Float → Candle → F.Float → Point
  unfolding basic_ub basic_lb
  first_point multiplier c atr = record {
    candle = c;
    upper_band = basic_ub multiplier c atr;
    lower_band = basic_lb multiplier c atr;
    trend = if F.at_least c.close (basic_lb multiplier c atr) then bullish else bearish;
    atr = atr;
  }

  unfoldable pub next_point : F.Float → Point → Candle → F.Float → Point
  unfolding basic_ub basic_lb ratchet_ub ratchet_lb turn
  next_point multiplier prev c atr = record {
    candle = c;
    upper_band = ratchet_ub (basic_ub multiplier c atr) prev.upper_band prev.candle.close;
    lower_band = ratchet_lb (basic_lb multiplier c atr) prev.lower_band prev.candle.close;
    trend = turn prev.trend prev.upper_band prev.lower_band c.close;
    atr = atr;
  }

  -- The bars after one.
  unfoldable pub points_after : F.Float → Point → List Candle → List F.Float → List Point
  points_after multiplier prev [] atrs = []
  points_after multiplier prev (c ∷ cs) [] = []
  points_after multiplier prev (c ∷ cs) (a ∷ atrs) =
      let p = next_point multiplier prev c a in p ∷ points_after multiplier p cs atrs

  -- The bars from index `period - 1` on.
  unfoldable pub points : F.Float → List Candle → List F.Float → List Point
  points multiplier [] atrs = []
  points multiplier (c ∷ cs) [] = []
  points multiplier (c ∷ cs) (a ∷ atrs) =
      let p = first_point multiplier c a in p ∷ points_after multiplier p cs atrs

  -- What a computed result reports of the last two bars, and the series.
  pub record Report : Type 0 where
    pub last : Point
    pub prev_trend : Trend
    pub is_flip : Bool
    pub flip_direction : Option Trend
    pub bars : List Point

  -- The errors carry the number of clean candles.
  pub data Result : Type 0 where
    no_candles : Result
    insufficient : ℕ → Option Candle → Result
    computed : Report → Result

  unfoldable pub last_of {ℓ} : {A : Type ℓ} → List A → Option A
  last_of [] = none
  last_of (x ∷ []) = some x
  last_of (x ∷ (y ∷ ys)) = last_of (y ∷ ys)

  -- `prev_trend`, `is_flip` and `flip_direction` of the last two bars.
  unfoldable pub report : List Point → Trend → Point → Report
  unfolding is_trend
  report bars prev_trend p =
      let is_flip = not (is_trend p.trend prev_trend) && not (is_trend prev_trend initializing) in
      record {
        last = p;
        prev_trend = prev_trend;
        is_flip = is_flip;
        flip_direction =
            if is_flip && is_trend p.trend bullish && is_trend prev_trend bearish
            then some bullish
            else if is_flip && is_trend p.trend bearish && is_trend prev_trend bullish
            then some bearish
            else none;
        bars = bars;
      }

  -- The report on the bars, of which the first two are given.
  unfoldable pub report_last : List Point → Point → List Point → Option Report
  unfolding report
  report_last bars p [] = none
  report_last bars p (q ∷ []) = some (report bars p.trend q)
  report_last bars p (q ∷ (r ∷ rest)) = report_last bars q (r ∷ rest)

  unfoldable pub report_of : List Point → Option Report
  unfolding report_last
  report_of [] = none
  report_of (p ∷ rest) = report_last (p ∷ rest) p rest

  -- `max(1, int(atr_period))`
  unfoldable pub safe_period : ℤ → ℕ
  safe_period atr_period = max 1 (pos_part atr_period)

  -- `max(0.1, float(multiplier))`
  unfoldable pub safe_mult : F.Float → F.Float
  unfolding larger
  safe_mult multiplier = larger F.tenth multiplier

  -- The bands of clean candles.
  unfoldable pub bars_of : Bool → ℕ → F.Float → List Candle → List Point
  unfolding points atr_list true_ranges
  bars_of change_atr period multiplier cs =
      points multiplier (drop (period - 1) cs) (atr_list change_atr period (true_ranges none cs))

  unfoldable pub conclude : Option Report → Result
  conclude none = no_candles
  conclude (some r) = computed r

  unfoldable pub calculate_supertrend : List (Option Raw) → ℤ → F.Float → Bool → Result
  unfolding clean_candles last_of safe_period safe_mult bars_of report_of conclude
  calculate_supertrend [] atr_period multiplier change_atr = no_candles
  calculate_supertrend (raw ∷ raws) atr_period multiplier change_atr =
      let cs = clean_candles (raw ∷ raws) in
      let period = safe_period atr_period in
      if ltb (length cs) (period + 1)
      then insufficient (length cs) (last_of cs)
      else conclude (report_of (bars_of change_atr period (safe_mult multiplier) cs))

  -- An entry of `candle_series`.
  pub record ChartBar : Type 0 where
    pub time : ℕ
    pub prices : List F.Float
    pub supertrend : F.Float
    pub bands : F.Float × F.Float
    pub trend : Trend
    pub atr : F.Float
    pub volume : ℕ

  -- The rounded prices of a candle: open, high, low and close.
  unfoldable pub prices_of : Candle → List F.Float
  prices_of c = F.round2 c.open_price ∷ F.round2 c.high ∷ F.round2 c.low ∷ F.round2 c.close ∷ []

  unfoldable pub chart_bar : Point → ChartBar
  unfolding prices_of line
  chart_bar p = record {
    time = p.candle.time;
    prices = prices_of p.candle;
    supertrend = F.round2 (line p);
    bands = (F.round2 p.upper_band, F.round2 p.lower_band);
    trend = p.trend;
    atr = F.round2 p.atr;
    volume = p.candle.volume;
  }

  -- A candle before the first band.
  unfoldable pub bare_bar : Candle → ChartBar
  unfolding prices_of
  bare_bar c =
      let zero_float = F.round2 (F.of_nat 0) in
      record {
        time = c.time;
        prices = prices_of c;
        supertrend = zero_float;
        bands = (zero_float, zero_float);
        trend = initializing;
        atr = zero_float;
        volume = c.volume;
      }

  unfoldable pub candle_series : ℕ → List Candle → List Point → List ChartBar
  unfolding bare_bar chart_bar
  candle_series period cs bars = map bare_bar (take (period - 1) cs) ++ map chart_bar bars
