-- ===== src/Market/Tests.antt =====
-- The theorems on the market's hours and on rollovers at concrete dates.
use xts_multi_tennant.Prelude.{
  arith, codes, false, not, refl, some, true, ℕ, ◌&&◌, ◌*◌, ◌+◌, ◌-◌, ◌≡◌,
}
use xts_multi_tennant.Market.Hours.{
  Settings, hms, portal_session_open, closed_for_holiday, is_market_open_ist, ist_day, ist_second,
  is_market_open_ist-portal,
}
use xts_multi_tennant.Market.Rollover.{
  Moment, not_after, get_commodity_rollover_cutoff, is_commodity_past_rollover, IsCutoff,
  get_commodity_rollover_cutoff-IsCutoff, past_rollover-iff_cutoff,
}

-- 19 October 2026, a Monday, is day 739908.
abbrev expiry : ℕ
expiry = 739908

abbrev at_eight : Moment
at_eight = record { day = 739901; second = 28800 }

get_commodity_rollover_cutoff-IsCutoff_example :
    (c : Moment) × (get_commodity_rollover_cutoff (some expiry) ≡ some c) × IsCutoff expiry c
get_commodity_rollover_cutoff-IsCutoff_example =
    get_commodity_rollover_cutoff-IsCutoff expiry (omega arith)

past_rollover-iff_cutoff_example :
    (c : Moment) × (get_commodity_rollover_cutoff (some expiry) ≡ some c)
    × (is_commodity_past_rollover (some expiry) at_eight ≡ not_after c at_eight)
past_rollover-iff_cutoff_example = past_rollover-iff_cutoff expiry at_eight (omega arith)

abbrev enforced : Settings
enforced = record { enforce = true; test_bypass = false }

-- Thirty seconds into the session of that day.
abbrev opening : ℕ
opening = (expiry - 719163) * 86400 + hms 9 0 30 - 19800

is_market_open_ist-portal_example : is_market_open_ist enforced (codes "MCXFO") opening false ≡ (
    portal_session_open (codes "MCXFO") (ist_day opening) (ist_second opening)
    && not (closed_for_holiday (codes "MCXFO") (ist_day opening) (ist_second opening)))
is_market_open_ist-portal_example =
    is_market_open_ist-portal enforced (codes "MCXFO") opening refl refl
