-- ===== src/Orders/Tests.antt =====
-- The theorems on orders at concrete ones.
use xts_multi_tennant.Prelude.{
  All, Option, [], ap, arith, codes, false, if◌then◌else◌, none, pos, refl, some, strip, sum,
  text_eq, true, ℕ, ◌*◌, ◌+◌, ◌-◌, ◌<◌, ◌==◌, ◌||◌, ◌∷◌, ◌≡◌, ◌≢◌, ◌≤◌,
}
use xts_multi_tennant.Orders.Tick.{buy}
use xts_multi_tennant.Orders.Slicing.{slice_quantity_for_freeze, sum-slice, slice-bounded}
use xts_multi_tennant.Orders.Limiter.{
  TokenBucket, grants, grants-rate, acquire, acquire-ends, token,
}
use xts_multi_tennant.Orders.Ref.Laws.{format_order_ref_chunk-injective}
use xts_multi_tennant.Orders.Book
use xts_multi_tennant.Orders.Book.{Poll, orders, verify_order_rms_acceptance, AnyPoll, is_empty}
use xts_multi_tennant.Orders.Place
use xts_multi_tennant.Orders.Dispatch
use xts_multi_tennant.Orders.Dispatch.{
  Exchange, OrderResult, Post, blank, answered, timed_out, is_success, is_any_of, send_chunks,
  execute_live,
}
use xts_multi_tennant.Orders.Dispatch.Halting.{Halts, taken_count, quantities, send_chunks-Halts}
use xts_multi_tennant.Orders.Place.{
  Limits, World, Contract, Order, Placed, place_order, execution_quantity,
}
use xts_multi_tennant.Orders.Place.Safety.{
  IsGuarded, live_contract, place_order-IsGuarded, place_order-success,
}
use xts_multi_tennant.Orders.Retry
use xts_multi_tennant.Orders.Retry.{retry_from, execute_trade_with_retry}
use xts_multi_tennant.Orders.Retry.Once.{AtMostTwice, execute_trade-twice}

sum-slice_example :
    sum (slice_quantity_for_freeze (pos 5025) (some (pos 1800)) (some (pos 75))) ≡ 5025
sum-slice_example = sum-slice (pos 5025) (some (pos 1800)) (some (pos 75))

slice-bounded_example :
    All
      (λ c. (0 < c) × (c ≤ 1800))
      (slice_quantity_for_freeze (pos 5025) (some (pos 1800)) (some (pos 75)))
slice-bounded_example = slice-bounded 5025 1800 75 (omega arith) (omega arith)

-- Ten requests a second, at most ten at once.
abbrev ten_a_second : TokenBucket
ten_a_second = record { rate = 10; capacity = 10_000; tokens = 10_000; last_update = 0 }

grants-rate_example :
    (token * (grants ten_a_second (0 ∷ 5 ∷ 100 ∷ [])).0 ≤ 10_000 + (100 - 0) * 10)
    × ((grants ten_a_second (0 ∷ 5 ∷ 100 ∷ [])).1.tokens ≤ 10_000)
grants-rate_example =
    grants-rate ten_a_second (0 ∷ 5 ∷ 100 ∷ []) 100 (omega arith)
      (omega arith, (omega arith, (omega arith, omega arith)))

acquire-ends_example :
    (acquire (record ten_a_second { tokens = 0 }) 10 0 ((0, 0) ∷ (10, 10) ∷ [])).0 ≢ none
acquire-ends_example =
    acquire-ends ((0, 0) ∷ (10, 10) ∷ []) (record ten_a_second { tokens = 0 }) 0 10
      (omega arith, (omega arith, tt)) (omega arith)

abbrev second : ℕ
second = 2

format_order_ref_chunk-injective_example : second ≡ second
format_order_ref_chunk-injective_example =
    let later : 1 < second = omega arith in
    format_order_ref_chunk-injective (codes "TVBot_1") second second 50 (λ e. cc e) later later refl

-- The broker has rejected the order.
abbrev rejected_order : Book.Order
rejected_order = record {
  unique_id = codes "A1";
  app_order_id = codes "77";
  status = Book.code 56;
  reason = codes "margin";
}

abbrev rejected_poll : Poll
rejected_poll = record { started = 0; reports = orders (rejected_order ∷ []); checked = 10 }

-- A broker that accepts every chunk but the second.
abbrev pub accepting : OrderResult
accepting = record blank { kind = codes "success"; app_order_id = codes "77" }

abbrev exchange : ℕ → Exchange
exchange n = record {
  acquired = true;
  http_status = codes "200";
  response = if n == 2 then timed_out (codes "read") else answered accepting;
  after_non_json = Book.refused;
  polls = none;
  after_unverified = Book.refused;
}

send_chunks-Halts_example :
    Halts
      (taken_count exchange (codes "A1") 1 (1800 ∷ 1800 ∷ 1425 ∷ []))
      (1800 ∷ 1800 ∷ 1425 ∷ [])
      (send_chunks exchange (codes "A1") 1 (1800 ∷ 1800 ∷ 1425 ∷ []))
send_chunks-Halts_example = send_chunks-Halts exchange (codes "A1") 1 (1800 ∷ 1800 ∷ 1425 ∷ [])

abbrev pub limits : Limits
limits = record {
  paper_mode = false;
  enforce_hours = false;
  hours = record { enforce = false; test_bypass = false };
  default_product = codes "NRML";
  tv_sends_lots = true;
  default_freeze = 100_000;
  max_lots = 100;
  max_units = 100_000;
  slippage = 5000;
  client_id = codes "C1";
}

abbrev pub world : World
world = record {
  has_token = true;
  contract = record {
    instrument_id = 5;
    exch_seg = codes "NSEFO";
    prod_type = codes "MIS";
    tick_size = 50_000;
    lot_size = 75;
    freeze_qty = 1800;
  };
  live_price = pos 101_230_000;
  now = 0;
  now_ms = 0;
  exchanges = exchange;
}

abbrev order_or : Order → Option Order → Order
order_or o none = o
order_or o (some o') = o'

abbrev no_order : Order
no_order = record { side = buy; instrument_id = 0; limit_price = 0; posts = [] }

abbrev placed : Placed
placed = place_order limits world buy (codes "NIFTY") 2 0 (codes "A1") false

place_order-IsGuarded_example :
    (world.has_token ≡ true)
    × ((world.contract.instrument_id == 0) ≡ false)
    × IsGuarded limits world
        (false || limits.paper_mode)
        (live_contract limits world)
        (execution_quantity limits (live_contract limits world) 2)
        (order_or no_order placed.live)
unfolding place_order Place.admit Place.quantity_error is_any_of text_eq Place.with_defaults
    execution_quantity strip
place_order-IsGuarded_example =
    place_order-IsGuarded limits world buy (codes "NIFTY") 2 0 (codes "A1") false
      (order_or no_order placed.live) refl

place_order-success_example :
    (o : Order) × (placed.live ≡ some o)
    × (sum (quantities o.posts) ≡ execution_quantity limits (live_contract limits world) 2)
unfolding place_order Place.admit Place.quantity_error is_any_of text_eq Place.with_defaults
    execution_quantity strip execute_live slice_quantity_for_freeze Dispatch.send_chunk
    Dispatch.settle verify_order_rms_acceptance Book.check_order_status_by_ref
place_order-success_example =
    place_order-success limits world buy (codes "NIFTY") 2 0 (codes "A1") refl refl

execute_trade-twice_example :
    (retry_from
        (λ r. r.message)
        limits
        (λ n. world)
        buy
        (codes "NIFTY")
        2
        0
        (codes "A1")
        false
        5
        0
        1
      ≡ retry_from
          (λ r. r.message)
          limits
          (λ n. world)
          buy
          (codes "NIFTY")
          2
          0
          (codes "A1")
          false
          2
          0
          1)
    × AtMostTwice
        (λ r. r.message)
        placed
        placed
        (retry_from
          (λ r. r.message)
          limits
          (λ n. world)
          buy
          (codes "NIFTY")
          2
          0
          (codes "A1")
          false
          5
          0
          1).1
execute_trade-twice_example =
    execute_trade-twice (λ r. r.message) limits buy (codes "NIFTY") 2 0 (codes "A1") (λ n. world)
      false 3

placed_result : placed.result ≡ accepting
unfolding place_order Place.admit Place.quantity_error is_any_of text_eq Place.with_defaults
    execution_quantity strip execute_live slice_quantity_for_freeze Dispatch.send_chunk
    Dispatch.settle verify_order_rms_acceptance Book.check_order_status_by_ref
placed_result = refl

-- The answer to the order at the first attempt.
pub accepted_answer :
    (execute_trade_with_retry
      (λ r. r.message)
      limits
      world
      world
      buy
      (codes "NIFTY")
      2
      0
      (codes "A1")
      false).0
    ≡ accepting
unfolding execute_trade_with_retry retry_from Retry.follow Retry.verdict Retry.is_failed text_eq
accepted_answer =
    ap
      (λ r.
        (Retry.follow (λ r. r.message) placed
          (retry_from (λ r. r.message) limits (λ n. world) buy (codes "NIFTY") 2 0 (codes "A1")
            false 1 1 2)
          (Retry.verdict (λ r. r.message) true r)).0)
      placed_result
