-- ===== src/Supertrend/Candles/Tests.antt =====
-- The closing of candles and the texts of timeframes at concrete inputs.
use xts_multi_tennant.Prelude.{
  [], arith, codes, drop_space, inr, is_space, lower, none, pos, refl, some, strip, text_eq, true,
  ℕ, ◌*◌, ◌+◌, ◌-◌, ◌↔◌, ◌∷◌, ◌≡◌, ◌≤ℤ◌, ◌≤◌, ◌⊎◌,
}
use xts_multi_tennant.Orders.Ref.{is_digit}
use xts_multi_tennant.Orders.Book.{int_of_digits}
use xts_multi_tennant.Supertrend.Candles.{
  Stamped, stamp, latest, before_latest, is_valid_ist_boundary, is_partial, is_a_bar_after,
  is_aligned, judge, closed_by, is_candle_closed, DividesQuarter, EndsBar, is_candle_closed-EndsBar,
}
use xts_multi_tennant.Supertrend.Timeframe.{
  text, preset, timeframe_seconds_map, parse_parts, split_digits, minutes_or_seconds, match_unit,
  patterns, is_one_of, parse_text, parse_timeframe_seconds, IsTooSmall,
  parse_timeframe_seconds-least,
}

-- A stamp at a second of 19 October 2026 in India.
abbrev at : ℕ → Stamped
at second = record { time = some (20745 * 86400 + second - 19800); timestamp = none }

-- Two bars of 15 minutes, to 09:29:59 and to 09:44:59, eleven seconds after the latter.
is_candle_closed-EndsBar_example :
    is_candle_closed (at 34199 ∷ at 35099 ∷ []) 900 (20745 * 86400 + 35110 - 19800) ≡ true
    ↔ (EndsBar (stamp (at 35099)) 900 × stamp (at 35099) ≤ 20745 * 86400 + 35110 - 19800)
unfolding latest before_latest stamp DividesQuarter EndsBar
is_candle_closed-EndsBar_example =
    is_candle_closed-EndsBar (at 34199 ∷ at 35099 ∷ []) 900 (20745 * 86400 + 35110 - 19800)
      (at 34199) (at 35099) (inr (inr (inr refl))) refl refl (omega arith) (omega arith) refl

-- A bar of 30 minutes that has just begun at 09:00 is taken as closed at 09:14:59, half way, since
-- that is 0 bars from 09:15.
half_hour_half_way :
    is_candle_closed
      (at 34199 ∷ record (at 33299) { time = some (20746 * 86400 + 33299 - 19800) } ∷ [])
      1800
      (20746 * 86400 + 33299 - 19800)
    ≡ true
unfolding is_candle_closed closed_by judge is_aligned is_valid_ist_boundary is_partial
    is_a_bar_after latest before_latest stamp
half_hour_half_way = refl

parse_timeframe_seconds-least_example :
    pos 60 ≤ℤ parse_timeframe_seconds (text (codes "90 min"))
    ⊎ (IsTooSmall (text (codes "90 min"))
        × (parse_timeframe_seconds (text (codes "90 min")) ≤ℤ pos 0))
parse_timeframe_seconds-least_example = parse_timeframe_seconds-least (text (codes "90 min"))

-- `int("90") * 60`, and the text "0", which makes a timeframe of no seconds.
parsed_texts :
    (parse_timeframe_seconds (text (codes " 90 Min")) ≡ pos 5400)
    × (parse_timeframe_seconds (text (codes "0")) ≡ pos 0)
unfolding parse_timeframe_seconds parse_text preset timeframe_seconds_map parse_parts split_digits
    minutes_or_seconds match_unit patterns is_one_of is_digit int_of_digits drop_space is_space
    strip lower text_eq
parsed_texts = (refl, refl)
