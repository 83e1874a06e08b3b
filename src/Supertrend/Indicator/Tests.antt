-- ===== src/Supertrend/Indicator/Tests.antt =====
-- The indicator over natural numbers in place of floats.
use xts_multi_tennant.Prelude.{
  List, Option, [], arith, false, leb, length, ltb, none, pos, some, true, ℕ, ◌*◌, ◌+◌, ◌-◌, ◌/◌,
  ◌∷◌, ◌≡◌,
}
use xts_multi_tennant.Supertrend.Indicator.{
  Floats, Raw, Report, calculate_supertrend, computed, safe_period, clean_candles,
}
use xts_multi_tennant.Supertrend.Indicator.Bands.{IsTold}
use xts_multi_tennant.Supertrend.Indicator.Totality.{calculate_supertrend-IsTold}

abbrev naturals : Floats
naturals = record {
  Float = ℕ;
  of_nat = λ n. n;
  add = λ a b. a + b;
  sub = λ a b. a - b;
  mul = λ a b. a * b;
  div = λ a b. a / b;
  absolute = λ a. a;
  less = λ a b. ltb a b;
  at_least = λ a b. leb b a;
  tenth = 1;
  is_nan = λ a. false;
  is_inf = λ a. false;
  round2 = λ a. a;
}

less_asym : (a b : ℕ) → ltb a b ≡ true → ltb b a ≡ false
less_asym a b h = ground arith

-- A candle by its time, its low and its high, which is the close too.
abbrev candle : ℕ → ℕ → ℕ → Option (Raw naturals)
candle time low high = some (record {
  raw_time = some time;
  raw_open = some low;
  raw_high = some high;
  raw_low = some low;
  raw_close = some high;
  raw_volume = some 1;
})

abbrev four_candles : List (Option (Raw naturals))
four_candles =
    candle 60 100 110 ∷ candle 120 105 120 ∷ none ∷ candle 180 60 70 ∷ candle 240 200 210 ∷ []

calculate_supertrend-IsTold_example :
    (r : Report naturals) × ((calculate_supertrend naturals four_candles (pos 2) 1 true
        ≡ computed r)
      × (IsTold naturals less_asym r
          × (length r.bars
              ≡ length (clean_candles naturals four_candles) + 1 - safe_period naturals (pos 2))))
unfolding clean_candles safe_period
calculate_supertrend-IsTold_example =
    calculate_supertrend-IsTold naturals less_asym four_candles (pos 2) 1 true (omega arith)
