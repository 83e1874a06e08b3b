-- ===== src/SquareOff/Cancel.antt =====
-- client/xts_api.py: `cancel_order`, and the cancelling of all open orders, in
-- `panic_square_off_all` and in `cancel_all_orders`. The rate limiter's decisions and the broker's answers are given; a request
-- that raises is caught around the whole sweep.
use xts_multi_tennant.Orders.Ref.{decimal}
use xts_multi_tennant.Prelude.{
  Bool, Bool-cases, List, Option, Text, [], codes, false, if◌then◌else◌, inl, inr, length, none,
  not, refl, some, text_eq, true, ℕ, ◌&&◌, ◌++◌, ◌+◌, ◌==◌, ◌||◌, ◌∷◌, ◌≡◌,
}

-- An entry of the order book with its `OrderStatus` and `AppOrderID`, which is empty where missing.
pub record OpenOrder : Type 0 where
  pub status : Text
  pub app_order_id : Text

-- The answer to the atomic cancel-all.
pub data Answer : Type 0 where
  raised : Answer
  answered : Bool → Answer

-- The n-th question to the limiter, the order book, which is none where its request raises, and
-- whether the n-th deletion raises.
pub record Desk : Type 0 where
  pub acquire : ℕ → Bool
  pub cancel_all : Answer
  pub orders : Option (List OpenOrder)
  pub delete_raises : ℕ → Bool

-- The requests that were sent, the latest first, and the questions to the limiter.
pub record Sweep : Type 0 where
  pub asked : ℕ
  pub deleted : List Text
  pub is_atomic : Bool

-- `st in ("Open", "New", "Pending", "PartiallyFilled", "PendingNew", "Replaced") and app_id`
unfoldable pub is_open : OpenOrder → Bool
is_open o =
    (text_eq o.status (codes "Open")
      || text_eq o.status (codes "New")
      || text_eq o.status (codes "Pending")
      || text_eq o.status (codes "PartiallyFilled")
      || text_eq o.status (codes "PendingNew")
      || text_eq o.status (codes "Replaced"))
    && not (text_eq o.app_order_id [])

-- The sequential fallback: an order for which the limiter gives no token is skipped, a deletion that
-- raises ends the sweep. The Boolean says that nothing has raised.
unfoldable pub cancel_each : Desk → List OpenOrder → Sweep → Sweep × Bool
unfolding is_open
cancel_each d [] s = (s, true)
cancel_each d (o ∷ rest) s =
    let skipped = record s { asked = s.asked + 1 } in
    let sent = record s { asked = s.asked + 1; deleted = o.app_order_id ∷ s.deleted } in
    let after_skip = cancel_each d rest skipped in
    let after_send = cancel_each d rest sent in
    let unasked = cancel_each d rest s in
    if not (is_open o)
    then unasked
    else if not (d.acquire s.asked)
    then after_skip
    else if d.delete_raises (length s.deleted)
    then (sent, false)
    else after_send

unfoldable pub cancel_listed : Desk → Option (List OpenOrder) → Sweep → Sweep × Bool
unfolding cancel_each
cancel_listed d none s = (s, false)
cancel_listed d (some orders) s = cancel_each d orders s

-- The start of a sweep.
unfoldable pub fresh_sweep : Sweep
fresh_sweep = record { asked = 0; deleted = []; is_atomic = false }

-- What `panic_square_off_all` does with the answer to the cancel-all that the limiter let through.
unfoldable pub panic_answered : Desk → Sweep → Answer → Sweep
unfolding cancel_listed
panic_answered d s raised = s
panic_answered d s (answered true) = record s { is_atomic = true }
panic_answered d s (answered false) = (cancel_listed d d.orders s).0

-- The first part of `panic_square_off_all`.
unfoldable pub panic_cancel : Desk → Sweep
unfolding panic_answered cancel_listed fresh_sweep
panic_cancel d =
    let s = record fresh_sweep { asked = 1 } in
    if d.acquire 0 then panic_answered d s d.cancel_all else (cancel_listed d d.orders s).0

-- What `cancel_all_orders` returns: the atomic success, the orders it says it cancelled, the
-- latest first, or an error.
pub data CancelResult : Type 0 where
  paper_mode auth_failed atomic failed : CancelResult
  cancelled : List Text → CancelResult

unfoldable pub listed_result : Sweep × Bool → CancelResult
listed_result (s, true) = cancelled s.deleted
listed_result (s, false) = failed

-- Here a cancel-all that raises falls back as well.
unfoldable pub all_answered : Desk → Sweep → Answer → CancelResult
unfolding cancel_listed listed_result
all_answered d s (answered true) = atomic
all_answered d s _ = listed_result (cancel_listed d d.orders s)

unfoldable pub cancel_all_orders : Bool → Bool → Desk → CancelResult
unfolding all_answered cancel_listed listed_result fresh_sweep
cancel_all_orders is_paper has_token d =
    let s = record fresh_sweep { asked = 1 } in
    if is_paper
    then paper_mode
    else if not has_token
    then auth_failed
    else if d.acquire 0
    then all_answered d s d.cancel_all
    else listed_result (cancel_listed d d.orders s)

-- The answer to a deletion: a request that raises has its text; any other has a code, the `type`
-- of its body where there is one, and the first of its `description` and `message` that is not empty.
pub data Deletion : Type 0 where
  request_raised : Text → Deletion
  replied : ℕ → Option Text → Option Text → Deletion

pub data SingleResult : Type 0 where
  paper_cancelled deleted_order : SingleResult
  refused : Text → SingleResult

-- `res_json.get("type") in ("success", None)`
unfoldable pub is_success_type : Option Text → Bool
is_success_type none = true
is_success_type (some t) = text_eq t (codes "success")

-- The message of a failed deletion.
unfoldable pub failure_message : ℕ → Option Text → Text
unfolding decimal
failure_message code none = codes "HTTP " ++ decimal code
failure_message code (some m) = m

unfoldable pub deletion_result : Deletion → SingleResult
unfolding is_success_type failure_message
deletion_result (request_raised e) = refused e
deletion_result (replied code kind message) =
    if (code == 200 || code == 202) && is_success_type kind
    then deleted_order
    else refused (failure_message code message)

-- `cancel_order` with the limiter's decision and the answer to its deletion. The second component
-- says whether a request is sent.
unfoldable pub cancel_order : Bool → Bool → Bool → Deletion → SingleResult × Bool
unfolding deletion_result
cancel_order is_paper has_token granted d =
    if is_paper
    then (paper_cancelled, false)
    else if not has_token
    then (refused (codes "Auth failed"), false)
    else if not granted
    then (refused (codes "Rate limit exceeded while cancelling order"), false)
    else (deletion_result d, true)

-- The identifiers of the open orders of a book.
unfoldable pub open_ids : List OpenOrder → List Text
unfolding is_open
open_ids [] = []
open_ids (o ∷ rest) = let ids = open_ids rest in if is_open o then o.app_order_id ∷ ids else ids

-- The list with another one, turned, before it.
unfoldable pub onto : List Text → List Text → List Text
onto [] acc = acc
onto (x ∷ xs) acc = onto xs (x ∷ acc)

-- The fallback deletes every open order and no other, one after the other, where the limiter always
-- gives a token and no deletion raises.
cancel_each-all :
    (d : Desk) (orders : List OpenOrder) (s : Sweep)
    → ((n : ℕ) → d.acquire n ≡ true)
    → ((n : ℕ) → d.delete_raises n ≡ false)
    → ((cancel_each d orders s).0.deleted ≡ onto (open_ids orders) s.deleted)
      × ((cancel_each d orders s).1 ≡ true)
unfolding cancel_each open_ids onto
cancel_each-all d [] s a r = (refl, refl)
cancel_each-all d (o ∷ rest) s a r = elim (Bool-cases (is_open o)) [
  | inr closed ↦ rw (cancel_each, open_ids, closed) (cancel_each-all d rest s a r)
  | inl listed ↦
      rw (cancel_each, open_ids, listed, a s.asked, r (length s.deleted))
        (cancel_each-all d rest
          (record s { asked = s.asked + 1; deleted = o.app_order_id ∷ s.deleted }) a r)
]
