-- ===== src/Engine/Tests.antt =====
-- Runs of the engine on small portfolios.
use xts_multi_tennant.Prelude.{
  List, Text, [], codes, false, length, map, max, none, pos, refl, some, sum, text_eq, true, ℤ, ◌*◌,
  ◌+ℤ◌, ◌∷◌, ◌≡◌,
}
use xts_multi_tennant.Engine.Strategy.{
  Config, Strategy, readable, default, live, running, long, is_empty,
}
use xts_multi_tennant.Engine.Registry.{Engine, new_engine, add_or_update_strategy}
use xts_multi_tennant.Engine.Targets.{
  get_portfolio_target_positions, net_target, get_portfolio_target_positions-net,
}
use xts_multi_tennant.Dicts.{lookup}
use xts_multi_tennant.Engine.Reconcile.{
  Instrument, Answer, Broker, World, reconcile_symbol, actual_broker_lots, runners_of, trip, halt,
}
use xts_multi_tennant.Engine.Reconcile.Heals.{net}
use xts_multi_tennant.Engine.Reconcile.Safety.{Capped, reconcile_symbol-Capped}
use xts_multi_tennant.Engine.Reconcile.Breaker.{times, trip-net_target}

abbrev gold_text : Text
gold_text = codes "GOLDM"

-- A configuration of GOLDM on five minutes, two lots long.
abbrev gold : Config
gold = record {
  id = some (codes "g5");
  strategy_id = none;
  symbol = some (codes " goldm ");
  exchange_segment = none;
  timeframe = none;
  quantity = some (readable (pos 2));
  product_type = none;
  atr_period = none;
  multiplier = none;
  execution_mode = none;
  is_enabled = some true;
  lot_size = none;
  virtual_position = some (readable (pos 2));
}

abbrev silver : Config
silver = record gold { id = some (codes "s5"); symbol = some (codes "silver") }

abbrev nothing_stored : Text → ℤ
nothing_stored key = pos 0

-- An engine for one strategy, which has it.
abbrev full_engine : Engine
full_engine = (add_or_update_strategy nothing_stored (codes "x") gold (new_engine 1)).0

-- Two runners of GOLDM and one of SILVER that is off.
abbrev gold_runner : Strategy
gold_runner = record {
  id = codes "g5";
  symbol = gold_text;
  exchange_segment = codes "MCXFO";
  timeframe = codes "5m";
  quantity = 2;
  product_type = codes "NRML";
  atr_period = 10;
  multiplier = 300;
  execution_mode = live;
  is_configured = true;
  is_enabled = true;
  strategy_key = codes "GOLDM_5m";
  lot_size = 1;
  virtual_position = pos 2;
  saved = pos 2;
  status = running;
  current_broker_quantity = pos 0;
  broker_side = long;
  last_error = none;
  cached_candles = [];
  recent_trade_markers = [];
  pending_rollover = false;
  is_locked = false;
}

abbrev three_runners : List (Text × Strategy)
three_runners =
    (codes "g5", gold_runner)
    ∷ (codes "g15", record gold_runner { virtual_position = pos 1 })
    ∷ (codes "s5", record gold_runner { symbol = codes "SILVER"; is_enabled = false })
    ∷ []

get_portfolio_target_positions-net_example :
    default (lookup gold_text (get_portfolio_target_positions three_runners)) (pos 0)
    ≡ net_target gold_text three_runners
unfolding is_empty
get_portfolio_target_positions-net_example =
    get_portfolio_target_positions-net gold_text three_runners refl

abbrev gold_instrument : Instrument
gold_instrument = record { inst_id = 7; desc = codes "GOLDM25OCT"; lot_size = pos 10 }

abbrev taken : Answer
taken = record {
  status = codes "done";
  order_status = [];
  code = [];
  kind = [];
  reject_reason = [];
  description = [];
  error = [];
  printed = [];
}

-- The broker holds 10 units, one lot.
abbrev desk : Broker
desk = record {
  now = 1000;
  all_positions = record { instrument_id = 7; symbol = codes "GOLDM25OCT"; quantity = pos 10 } ∷ [];
  broker_orders = [];
  resolve = λ symbol. some gold_instrument;
  freeze_limit = 10;
  answer = λ n. some taken;
}

abbrev drifted : World
drifted = record {
  engine = record { max_strategies = 6; strategies = three_runners; rejections = [] };
  sent = [];
  drift_count = 0;
  actions = [];
}

reconcile_symbol-Capped_example :
    Capped
      (max (sum (map (λ s. s.quantity) (runners_of gold_text drifted.engine.strategies)) * 2) 10)
      (actual_broker_lots desk gold_instrument)
      (net_target gold_text drifted.engine.strategies)
      (net [])
      (net
        (reconcile_symbol desk gold_text
          (net_target gold_text drifted.engine.strategies)
          drifted).sent)
reconcile_symbol-Capped_example =
    reconcile_symbol-Capped desk gold_text gold_instrument drifted refl

trip-net_target_example :
    net_target gold_text (trip gold_text (pos 1) (codes "RMS : Margin") drifted.engine).strategies
    ≡ times (length (runners_of gold_text three_runners)) (pos 1)
trip-net_target_example = trip-net_target gold_text (codes "RMS : Margin") (pos 1) drifted.engine

-- The target of the two runners is twice the broker's one lot after the breaker has tripped.
two_runners_want_two :
    net_target gold_text (trip gold_text (pos 1) (codes "RMS : Margin") drifted.engine).strategies
    ≡ pos 2
unfolding net_target trip text_eq halt ◌+ℤ◌
two_runners_want_two = refl
