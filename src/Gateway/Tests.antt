-- ===== src/Gateway/Tests.antt =====
-- The theorems on the gateway at concrete signals.
use xts_multi_tennant.Prelude.{
  List, [], ap, arith, codes, contains, false, if◌then◌else◌, inl, none, pos, refl, some, text_eq,
  true, ℕ, ◌*◌, ◌-◌, ◌<◌, ◌∷◌, ◌≡◌, ◌≤◌,
}
use xts_multi_tennant.Orders.Tick.{buy, finite, unit}
use xts_multi_tennant.Orders.Book
use xts_multi_tennant.Orders.Book.{orders, Reports}
use xts_multi_tennant.Orders.Tests.{limits, world, accepted_answer}
use xts_multi_tennant.Orders.Dispatch.{OrderResult, blank}
use xts_multi_tennant.Orders.Retry.{execute_trade_with_retry}
use xts_multi_tennant.Orders.Retry.Once.{LastPostsAll}
use xts_multi_tennant.Gateway.Attempts.{record_all, is_banned, banned_after_ten}
use xts_multi_tennant.Gateway.Store.{
  Row, Position, Status, db_fetch_unfinished, without, db_get_virtual_position_record,
  db_set_virtual_position, or_else, get-set_virtual_position,
}
use xts_multi_tennant.Gateway.Dedup.{
  is_duplicate_signal, check_all, expire, has_hash, duplicate_suppressed,
}
use xts_multi_tennant.Gateway.Webhook.{
  Config, Gateway, Library, Request, Payload, chunk, number, object, receive_webhook,
}
use xts_multi_tennant.Gateway.Effect.{Effect, receive_webhook-Effect}
use xts_multi_tennant.Gateway.Execution.{
  Audit, returned, dispatch_and_record, conclude, status_of, is_rejected, fetch_unfinished-dispatch,
  done-posted,
}
use xts_multi_tennant.Gateway.Recovery.{process_recovery, decide, requeued}
use xts_multi_tennant.Gateway.Recovery.Safety.{AllUnfinished, recovery-covers}
use xts_multi_tennant.Gateway.Recovery.Replay.{recovery-known}

abbrev config : Config
config = record {
  webhook_secret = codes "s3cret";
  max_body = 65536;
  max_symbol = 50;
  max_tracked = 1000;
  dedup_window = 60_000;
}

-- A buy of two lots at market.
abbrev lib : Library
lib = record {
  loads = λ s. object (record {
    secret = some (codes "s3cret");
    action = some (codes "buy");
    symbol = some (codes "NIFTY");
    price = none;
    quantity = some (number (finite (pos (2 * unit))));
    explicit_id = [];
    bar_time = [];
  });
  signal_digest = λ k. codes "ab";
  ref_digest = λ k. codes "cdef";
}

abbrev request : Request
request = record {
  ip = codes "10.0.0.1";
  events = chunk (codes "{}") ∷ [];
  now = 1_000_000;
  sig_id = 7;
  healthy = true;
}

abbrev gateway : Gateway Audit
gateway = record { paused = false; attempts = []; shield = []; signals = []; background = [] }

receive_webhook-Effect_example : Effect request gateway (receive_webhook lib config request gateway)
receive_webhook-Effect_example = receive_webhook-Effect lib config request gateway

abbrev payload : Payload
payload = record {
  action = buy;
  symbol = codes "NIFTY";
  quantity = 2;
  price = 0;
  order_ref = codes "A1";
}

abbrev pending_signal : Row Payload Audit
pending_signal = record {
  id = 7;
  received_at = 0;
  payload = payload;
  status = Status.processing;
  result = none;
  updated_at = 0;
}

abbrev book : Row Payload Audit → Reports
book row = orders (
    record { unique_id = codes "A1"; app_order_id = codes "77"; status = Book.code 50; reason = [] }
    ∷ [])

recovery-covers_example :
    AllUnfinished
      (λ i.
        contains i
          (process_recovery
            (λ p. none)
            30_000
            5000
            book
            (db_fetch_unfinished (pending_signal ∷ []))
            (pending_signal ∷ [])).1)
      (process_recovery
        (λ p. none)
        30_000
        5000
        book
        (db_fetch_unfinished (pending_signal ∷ []))
        (pending_signal ∷ [])).0
recovery-covers_example = recovery-covers (λ p. none) 30_000 5000 book (pending_signal ∷ [])

recovery-known_example :
    requeued
      (λ p. none)
      30_000
      5000
      book
      pending_signal
      (decide (λ p. none) 30_000 5000 book pending_signal)
    ≡ []
unfolding text_eq
recovery-known_example =
    recovery-known (λ p. none) 30_000 5000 book pending_signal 50 _ refl refl
      (inl (refl, refl, refl))

done-posted_example :
    LastPostsAll
      (λ r. r.message)
      limits
      buy
      (codes "NIFTY")
      2
      0
      (codes "A1")
      world
      world
      (execute_trade_with_retry
        (λ r. r.message)
        limits
        world
        world
        buy
        (codes "NIFTY")
        2
        0
        (codes "A1")
        false).1
unfolding conclude status_of is_rejected text_eq
done-posted_example =
    done-posted (λ r. r.message) limits world world buy (codes "NIFTY") 2 0 (codes "A1") refl
      (ap (λ r. (conclude false (returned r)).0) accepted_answer)

abbrev filled : OrderResult
filled = record blank { kind = codes "success" }

fetch_unfinished-dispatch_example :
    db_fetch_unfinished (dispatch_and_record false 7 (returned filled) 10 20 (pending_signal ∷ []))
    ≡ without 7 (db_fetch_unfinished (pending_signal ∷ []))
fetch_unfinished-dispatch_example =
    fetch_unfinished-dispatch false 7 (returned filled) 10 20 (pending_signal ∷ [])

abbrev position : Position
position = record {
  strategy_key = codes "NIFTY_5m";
  symbol = codes "NIFTY";
  timeframe = codes "5m";
  virtual_position = pos 2;
  updated_at = 5;
  active_contract_id = none;
  active_contract_desc = none;
}

get-set_virtual_position_example :
    db_get_virtual_position_record
      (codes "NIFTY_5m")
      (db_set_virtual_position position (position ∷ []))
    ≡ (let (_, cid, desc) = db_get_virtual_position_record (codes "NIFTY_5m") (position ∷ []) in
        if text_eq position.strategy_key (codes "NIFTY_5m")
        then (pos 2, or_else none cid, or_else none desc)
        else db_get_virtual_position_record (codes "NIFTY_5m") (position ∷ []))
get-set_virtual_position_example =
    get-set_virtual_position (codes "NIFTY_5m") position (position ∷ [])

duplicate_suppressed_example :
    (is_duplicate_signal true 60_000 (codes "ab") 30_000 (
      check_all 60_000
        ((true, codes "cd", 20_000) ∷ [])
        (is_duplicate_signal true 60_000 (codes "ab") 10_000 []).1)).0
    ≡ true
unfolding is_duplicate_signal has_hash expire
duplicate_suppressed_example =
    duplicate_suppressed 60_000 (codes "ab") 10_000 30_000 true true
      ((true, codes "cd", 20_000) ∷ []) [] refl (omega arith, tt) (omega arith)

abbrev ten_times : List ℕ
ten_times = 5 ∷ 5 ∷ 5 ∷ 5 ∷ 5 ∷ 5 ∷ 5 ∷ 5 ∷ 5 ∷ 5 ∷ []

banned_after_ten_example :
    is_banned (codes "10.0.0.1") 20 (record_all 1000 (codes "10.0.0.1") ten_times []) ≡ true
banned_after_ten_example =
    let r : (5 ≤ 20) × (20 - 5 < 900_000) = (omega arith, omega arith) in
    banned_after_ten 1000 (codes "10.0.0.1") 20 ten_times [] (omega arith) (omega arith)
      (r, (r, (r, (r, (r, (r, (r, (r, (r, (r, tt))))))))))
