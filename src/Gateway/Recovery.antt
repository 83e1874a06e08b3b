-- ===== src/Gateway/Recovery.antt =====
-- client/main.py, `process_recovery` of `lifespan`: what becomes of the signals that the last run
-- left unfinished. The order book is what `check_order_status_by_ref` reads of it for each signal,
-- `load_error` the error that `json.loads` raises on the stored payload, if any. The signals that are queued for another
-- execution are returned; alerts are left out.
pub mod Safety
pub mod Replay
use xts_multi_tennant.Prelude.{
  Bool, List, Option, Text, [], codes, false, if◌then◌else◌, keep, leb, none, not, some, text_eq,
  true, upper, ℕ, ◌&&◌, ◌++◌, ◌-◌, ◌==◌, ◌||◌, ◌∷◌,
}
use xts_multi_tennant.Orders.Book.{
  Reports, Order, orders, code, RawStatus, check_order_status_by_ref, status_by_ref, status_name,
  status_of_code, lookup, xts_status_code_map, is_empty,
}
use xts_multi_tennant.Orders.Dispatch.{is_any_of}
use xts_multi_tennant.Gateway.Store
use xts_multi_tennant.Gateway.Store.{
  Row, Status, is_unfinished, db_update_status, db_fetch_unfinished, without,
  fetch_unfinished-update,
}
use xts_multi_tennant.Gateway.Webhook.{Payload}
use xts_multi_tennant.Gateway.Execution.{Audit, uncaught, recovery_note}

-- `str(broker_status).upper().replace("_", "").replace(" ", "")`
unfoldable pub normalize : Text → Text
normalize s = keep (λ c. not (c == b'_' || c == b' ')) (upper s)

abbrev pub non_terminal_broker_statuses : List Text
non_terminal_broker_statuses =
    codes "OPEN"
    ∷ codes "NEW"
    ∷ codes "FILLED"
    ∷ codes "PARTIALLYFILLED"
    ∷ codes "PENDING"
    ∷ codes "PENDINGNEW"
    ∷ codes "REPLACED"
    ∷ codes "PENDINGREPLACE"
    ∷ codes "PENDINGCANCEL"
    ∷ codes "SUCCESS"
    ∷ codes "COMPLETE"
    ∷ codes "EXECUTED"
    ∷ []

abbrev pub terminal_failed_statuses : List Text
terminal_failed_statuses =
    codes "REJECTED" ∷ codes "CANCELLED" ∷ codes "CANCELED" ∷ codes "EXPIRED" ∷ []

pub data Decision : Type 0 where
  requeue : Decision
  finish : Status → Option Audit → Decision

-- `status == "processing"`
unfoldable pub is_processing : Status → Bool
is_processing Status.processing = true
is_processing _ = false

-- What the order book's status decides.
unfoldable pub decide_by_status : Bool → Text → Decision
decide_by_status processing broker_status =
    let st_norm = normalize broker_status in
    if is_any_of st_norm non_terminal_broker_statuses
    then finish Status.done (some (recovery_note (codes "recovered_from_broker") broker_status))
    else if is_any_of st_norm terminal_failed_statuses
    then finish Status.failed (some (recovery_note (codes "broker_terminal_state") broker_status))
    else if text_eq broker_status (codes "NETWORK_ERROR")
    then finish Status.failed (some (recovery_note (codes "recovery_network_failure") []))
    else if text_eq broker_status (codes "NOT_FOUND") && processing
    then finish Status.abandoned_manual_review_needed none
    else requeue

module _ (load_error : Payload → Option Text) (stale_window now_time : ℕ)
    (book : Row Payload Audit → Reports) where
  unfoldable pub decide : Row Payload Audit → Decision
  decide row = elim (load_error row.payload) [
    | some e ↦ finish Status.abandoned_error (some (uncaught e))
    | none ↦
        if leb (now_time - row.received_at) stale_window || is_processing row.status
        then decide_by_status (is_processing row.status)
            (check_order_status_by_ref (book row) row.payload.order_ref)
        else finish Status.abandoned_stale none
  ]

  -- One signal, and then the others; the identifiers of the requeued signals are returned.
  unfoldable pub apply_decision :
      Row Payload Audit → Decision → List (Row Payload Audit) → List (Row Payload Audit)
  apply_decision row requeue rows = rows
  apply_decision row (finish status audit) rows =
      db_update_status row.id status audit none now_time rows

  unfoldable pub requeued : Row Payload Audit → Decision → List ℕ
  requeued row requeue = row.id ∷ []
  requeued row (finish status audit) = []

  unfoldable pub process_recovery :
      List (Row Payload Audit) → List (Row Payload Audit) → List (Row Payload Audit) × List ℕ
  process_recovery [] rows = (rows, [])
  process_recovery (row ∷ unfinished) rows =
      let (rows', ids) = process_recovery unfinished (apply_decision row (decide row) rows) in
      (rows', requeued row (decide row) ++ ids)
