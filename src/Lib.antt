-- ===== src/Lib.antt =====
-- The XTS multi-tenant trading cluster: a bot per client, which turns TradingView webhooks and
-- SuperTrend strategies into orders of the XTS broker, and a portal that manages the bots.
--
-- How the parts interact. client/main.py receives a webhook, checks its secret, its numbers and the
-- duplicate shield, stores a pending signal and queues a task; the task executes the signal through
-- client/xts_api.py, `execute_trade_with_retry` and `place_order`, and stores the outcome. After a
-- restart, signals that were left unfinished are compared with the broker's order book. A runner of
-- client/supertrend_engine.py sends its orders the same way and keeps its own virtual position.
-- The engine of the same file holds the runners, compares what they want together with the broker's
-- positions and orders the difference. A kill switch of client/xts_api.py cancels and closes all.
-- client/config.py holds the exchange's calendar and hours. The portal lets administrators in and
-- pauses a client that has lost its limit.
--
-- Which file models what:
--   Prelude        Boolean tests, lists, integers and Python's strings
--   Dicts          Python's dict, with its Dicts/Laws
--   Orders/        client/xts_api.py
--     Slicing        `slice_quantity_for_freeze`
--     Tick           `apply_tick_size`
--     Limiter        `TokenBucketRateLimiter`
--     Ref            `format_order_ref_chunk`, with Ref/Laws
--     Book           `check_order_status_by_ref`, `verify_order_rms_acceptance`
--     Dispatch       the chunks of `place_order`, with Dispatch/Halting and Dispatch/Summary
--     Place          the gates of `place_order` and paper orders, with Place/Safety
--     Retry          `execute_trade_with_retry`, with Retry/Once
--   Market/        client/config.py
--     Calendar       the holiday tables
--     Hours          `is_market_open_ist`, `is_market_opening_stabilizing`, and the copy of the
--                    former in portal/scheduler.py
--     Rollover       `get_commodity_rollover_cutoff`, `is_commodity_past_rollover`
--   Gateway/       client/main.py
--     Attempts       failed log-ins and the ban
--     Secrets        `_sanitize_dict`
--     Store          the tables `signals` and `strategy_virtual_positions` and their queries
--     Dedup          `is_duplicate_signal`
--     Reference      `generate_order_ref`
--     Webhook        `receive_webhook`, its checks in Webhook/Checks, with Effect
--     Execution      `_dispatch_and_record`
--     Recovery       `process_recovery`, with Recovery/Safety and Recovery/Replay
--   Supertrend/    client/supertrend_engine.py, the orders of a `SingleSuperTrendRunner`
--     Legs           `_execute_delta`, `_execute_exit`, `_execute_entry`, with Balance and Exact
--     Sync           `sync_to_current_trend`, `reset_to_flat` and the orders of a flip in
--                    `evaluate_cycle`, with Sync/Target and Sync/Balanced
--     Indicator      `calculate_supertrend`, with Indicator/Bands and Indicator/Totality
--     Candles        `is_candle_closed`
--     Timeframe      `parse_timeframe_seconds`
--   Engine/        client/supertrend_engine.py, `MultiSuperTrendEngine`
--     Strategy       the configuration of a `SingleSuperTrendRunner`, with Strategy/Consistent
--     Registry       adding, updating, removing and switching of runners, with Registry/Capacity,
--                    Registry/Reachable and Registry/Contract
--     Targets        `get_portfolio_target_positions`
--     Reconcile      `reconcile_portfolio_drift`, with Reconcile/Heals, Reconcile/Safety and
--                    Reconcile/Breaker
--   Contracts/     client/xts_api.py
--     Symbols        `resolve_symbol_smart`, `_apply_aliases`
--     Multiplier     `get_contract_multiplier`
--     Front          `_resolve_front_month`, `_lookup_exact_or_normalized`
--   SquareOff/     client/xts_api.py
--     Cancel         `cancel_order`, `cancel_all_orders` and the sweep of `panic_square_off_all`
--     Panic          `panic_square_off_all`, with Panic/Accounts and Panic/Closing
--     Single         `square_off_single_position`
--   Portal/        portal/
--     Login          main.py, `login_action` with its limit on failures
--     Breaker        scheduler.py, `check_drawdown_circuit_breakers`
--     Alignment      scheduler.py, `run_market_open_fleet_alignment`
--     Sessions       security.py, sessions and recovery codes
--   Each of these has its Tests, where the theorems are applied to concrete inputs.
--
-- State is a record that every operation returns anew; an operation that fails returns an answer
-- or `none`. The broker, the network, the clock, the JSON parser and the digests are arguments: a
-- record of answers, or a function from the number of a dispatch to its answer. Times are whole
-- milliseconds or seconds, prices millionths of a rupee, quantities and lots natural numbers, virtual
-- positions integers; the indicator takes the operations of Python's float as a record, `Floats`.
-- Texts are lists of code points; `upper`, `lower` and `strip` are those of ASCII.
--
-- Fuel. `slice_loop` runs on the remaining quantity, since a chunk is at least 1; `trading_day_from`
-- on 4 days, since no run of closed days in the tables is longer than three; `decimal` on the number
-- and one more; `retry_from` on 2 placements, and Retry/Once shows that more fuel changes nothing. The
-- loops of the rate limiter and of the verification run over the readings of the
-- clock.
--
-- What is not modelled: the log-in at the broker, market data and the download of the contracts, whose
-- answers are arguments; alerts, logs, telemetry and notifications; the rollover in `evaluate_cycle`;
-- `get_dynamic_contract_info` beyond the front month; the endpoints of
-- client/main.py but the webhook; the custom strategies; of the portal the pages, the bulk operations
-- and the containers; backup and deployment. Two requests at once are taken one after the other.
pub mod Prelude
pub mod Dicts
pub mod Orders
pub mod Market
pub mod Gateway
pub mod Supertrend
pub mod Engine
pub mod SquareOff
pub mod Portal
pub mod Contracts
