-- ===== src/Gateway/Execution.antt =====
-- client/main.py, `_dispatch_and_record`: a signal is executed and the outcome stored with it. The
-- audit keeps the answer, whether the trade was on paper, and the reason of a rejection; that
-- notifications and alerts are sent is left out.
use xts_multi_tennant.Prelude.{
  Bool, Bool-cases, List, Text, [], arith, codes, false, if◌then◌else◌, inl, inr, none, refl, some,
  strip, text_eq, true, ℕ, ◌||◌, ◌∙◌, ◌∷◌, ◌≡◌,
}
use xts_multi_tennant.Orders.Dispatch.{OrderResult, is_success, is_rejected_status, or_text}
use xts_multi_tennant.Orders.Tick.{Side}
use xts_multi_tennant.Orders.Place.{Limits, World}
use xts_multi_tennant.Orders.Retry.{execute_trade_with_retry}
use xts_multi_tennant.Orders.Retry.Once.{LastPostsAll, execute_trade-success}
use xts_multi_tennant.Gateway.Store
use xts_multi_tennant.Gateway.Store.{
  Row, Status, is_unfinished, db_update_status, db_fetch_unfinished, without,
  fetch_unfinished-update,
}
use xts_multi_tennant.Gateway.Webhook.{Payload}

-- What the column `result` holds.
pub data Audit : Type 0 where
  audited : OrderResult → Bool → Text → Audit
  uncaught : Text → Audit
  recovery_note : Text → Text → Audit

-- What `execute_trade_with_retry` does: an answer, or an exception.
pub data Execution : Type 0 where
  returned : OrderResult → Execution
  raised : Text → Execution

unfoldable pub is_rejected : OrderResult → Bool
is_rejected r =
    is_rejected_status r
    || text_eq r.order_status (codes "Rejected")
    || text_eq r.code (codes "e-rms-rejected")

unfoldable pub status_of : Bool → OrderResult → Status
status_of is_paper r =
    if is_rejected r
    then Status.failed
    else if is_success r
    then (if is_paper then Status.paper_done else Status.done)
    else if text_eq r.status (codes "partial_failure") || text_eq r.kind (codes "partial_failure")
    then Status.partial_failure
    else Status.failed

-- The status and the audit with which the signal ends; `is_paper` is that of the call or the bot.
unfoldable pub conclude : Bool → Execution → Status × Audit
unfolding status_of
conclude is_paper (raised e) = (Status.failed, uncaught e)
conclude is_paper (returned r) =
    let paper = is_paper || r.is_paper_trade in
    (status_of paper r, audited r paper (strip (or_text r.reject_reason r.description)))

-- `started` is the time of the first update and `ended` that of the second.
unfoldable pub dispatch_and_record :
    Bool → ℕ → Execution → ℕ → ℕ → List (Row Payload Audit) → List (Row Payload Audit)
unfolding conclude
dispatch_and_record is_paper sig_id execution started ended rows =
    let (status, audit) = conclude is_paper execution in
    db_update_status sig_id status (some audit) none ended
      (db_update_status sig_id Status.processing none none started rows)

status_of-final : (is_paper : Bool) (r : OrderResult) → is_unfinished (status_of is_paper r) ≡ false
unfolding status_of is_unfinished
status_of-final is_paper r = ground arith

conclude-final : (is_paper : Bool) (e : Execution) → is_unfinished (conclude is_paper e).0 ≡ false
unfolding conclude is_unfinished
conclude-final is_paper (raised e) = refl
conclude-final is_paper (returned r) = status_of-final (is_paper || r.is_paper_trade) r

without-processing :
    (sig_id now : ℕ) (rows : List (Row Payload Audit))
    → without sig_id
        (db_fetch_unfinished (db_update_status sig_id Status.processing none none now rows))
      ≡ without sig_id (db_fetch_unfinished rows)
unfolding without db_fetch_unfinished db_update_status Store.update_row
without-processing sig_id now [] = refl
without-processing sig_id now (row ∷ rows) = ground (arith, without-processing sig_id now rows)

-- Whatever the execution does, and also when it raises, the signal leaves the queue of unfinished
-- signals, and every other signal of the queue stays in it, unchanged and in order.
pub fetch_unfinished-dispatch :
    (is_paper : Bool) (sig_id : ℕ) (execution : Execution) (started ended : ℕ)
    (rows : List (Row Payload Audit))
    → db_fetch_unfinished (dispatch_and_record is_paper sig_id execution started ended rows)
      ≡ without sig_id (db_fetch_unfinished rows)
unfolding dispatch_and_record
fetch_unfinished-dispatch is_paper sig_id execution started ended rows =
    fetch_unfinished-update sig_id (conclude is_paper execution).0 _ none ended _
      (conclude-final is_paper execution)
    ∙ without-processing sig_id started rows

status_of-success :
    (is_paper : Bool) (r : OrderResult) → status_of is_paper r ≡ Status.done → is_success r ≡ true
unfolding status_of
status_of-success is_paper r h = elim (Bool-cases (is_success r)) [
  | inl yes_ ↦ yes_
  | inr other ↦ elim (Bool-cases (is_rejected r)) [
    | inl rejected ↦ cc (rw rejected at h)
    | inr kept ↦
        elim (Bool-cases (
          text_eq r.status (codes "partial_failure") || text_eq r.kind (codes "partial_failure"))) [
            | inl part ↦ cc (rw (kept, other, part) at h)
            | inr none_of ↦ cc (rw (kept, other, none_of) at h)
          ]
  ]
]

-- A signal of a live bot that ends as `done`: the last placement of its order reached the broker,
-- and exactly the order's quantity was posted by it.
pub done-posted :
    (repr : OrderResult → Text) (c : Limits) (w1 w2 : World) (side : Side) (symbol : Text)
    (quantity tv_price : ℕ) (order_ref : Text)
    → c.paper_mode ≡ false
    → (conclude false (
        returned
          (execute_trade_with_retry repr c w1 w2 side symbol quantity tv_price order_ref
            false).0)).0
      ≡ Status.done
    → LastPostsAll repr c side symbol quantity tv_price order_ref w1 w2
        (execute_trade_with_retry repr c w1 w2 side symbol quantity tv_price order_ref false).1
unfolding conclude
done-posted repr c w1 w2 side symbol quantity tv_price order_ref live h =
    let r =
      (execute_trade_with_retry repr c w1 w2 side symbol quantity tv_price order_ref false).0 in
    execute_trade-success repr c side symbol quantity tv_price order_ref w1 w2 live
      (status_of-success (false || r.is_paper_trade) r h)
