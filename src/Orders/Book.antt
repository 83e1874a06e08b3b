-- ===== src/Orders/Book.antt =====
-- client/xts_api.py: the broker's order book as `check_order_status_by_ref` and
-- `verify_order_rms_acceptance` read it. What `GET /orders` answers is an argument, with the time
-- in milliseconds that has gone by; a missing text is the empty one, which is as false in Python.
use xts_multi_tennant.Prelude.{
  Bool, Bool-cases, List, Option, Option-cases, Text, [], all, codes, false, if◌then◌else◌, inl,
  inr, leb, ltb, none, not, some, text_eq, true, upper, ℕ, ◌&&◌, ◌*◌, ◌+◌, ◌-◌, ◌==◌, ◌||◌, ◌∷◌,
  ◌≡◌, ◌⊎◌,
}
use xts_multi_tennant.Orders.Ref.{decimal, is_digit}

-- `OrderStatus`: absent, an integer, or a string.
pub data RawStatus : Type 0 where
  absent : RawStatus
  code : ℕ → RawStatus
  word : Text → RawStatus

pub record Order : Type 0 where
  pub unique_id : Text
  pub app_order_id : Text
  pub status : RawStatus
  pub reason : Text

-- No token, an exception, an answer that is no success, or the orders.
pub data Reports : Type 0 where
  no_token raised refused : Reports
  orders : List Order → Reports

abbrev pub xts_status_code_map : List (ℕ × Text)
xts_status_code_map =
    (48, codes "New")
    ∷ (49, codes "PartiallyFilled")
    ∷ (50, codes "Filled")
    ∷ (52, codes "Cancelled")
    ∷ (53, codes "Replaced")
    ∷ (54, codes "PendingCancel")
    ∷ (56, codes "Rejected")
    ∷ (65, codes "PendingNew")
    ∷ (69, codes "PendingReplace")
    ∷ []

unfoldable pub lookup : ℕ → Text → List (ℕ × Text) → Text
lookup n default [] = default
lookup n default ((m, name) ∷ rest) = if m == n then name else lookup n default rest

-- `XTS_STATUS_CODE_MAP.get(code, default)`
unfoldable pub status_of_code : ℕ → Text → Text
status_of_code n default = lookup n default xts_status_code_map

-- `int(s)` of a string of digits.
unfoldable pub int_of_digits : ℕ → Text → ℕ
int_of_digits acc [] = acc
int_of_digits acc (c ∷ s) = int_of_digits (10 * acc + (c - b'0')) s

abbrev pub is_empty : Text → Bool
is_empty [] = true
is_empty (c ∷ s) = false

-- The name of a status, with `default` where it is absent.
unfoldable pub status_name : Text → RawStatus → Text
status_name default absent = default
status_name default (code n) = status_of_code n (decimal n)
status_name default (word s) =
    if not (is_empty s) && all is_digit s then status_of_code (int_of_digits 0 s) s else s

-- The first order with the reference.
unfoldable pub status_by_ref : Text → List Order → Text
status_by_ref order_ref [] = codes "NOT_FOUND"
status_by_ref order_ref (o ∷ os) =
    if not (is_empty o.unique_id) && text_eq o.unique_id order_ref
    then status_name (codes "UNKNOWN") o.status
    else status_by_ref order_ref os

unfoldable pub check_order_status_by_ref : Reports → Text → Text
check_order_status_by_ref no_token order_ref = codes "NETWORK_ERROR"
check_order_status_by_ref raised order_ref = codes "NETWORK_ERROR"
check_order_status_by_ref refused order_ref = codes "NOT_FOUND"
check_order_status_by_ref (orders os) order_ref = status_by_ref order_ref os

-- One turn of the loop: the time at its test, the answer, and the time at the test for another turn.
pub record Poll : Type 0 where
  pub started : ℕ
  pub reports : Reports
  pub checked : ℕ

-- What `verify_order_rms_acceptance` returns.
pub record Rms : Type 0 where
  pub verified : Bool
  pub status : Text
  pub is_rejected : Bool
  pub reject_reason : Text

abbrev pub unverified : Rms
unverified = record {
  verified = false;
  status = codes "UNKNOWN";
  is_rejected = false;
  reject_reason = [];
}

unfoldable pub matches : Text → Text → Order → Bool
matches order_ref app_order_id o =
    not (is_empty app_order_id) && text_eq app_order_id o.app_order_id
    || not (is_empty order_ref) && text_eq order_ref o.unique_id

unfoldable pub find_order : Text → Text → List Order → Option Order
find_order order_ref app_order_id [] = none
find_order order_ref app_order_id (o ∷ os) =
    if matches order_ref app_order_id o then some o else find_order order_ref app_order_id os

-- `raw_st in (56, 52, "56", "52")`
unfoldable pub is_reject_code : RawStatus → Bool
is_reject_code absent = false
is_reject_code (code n) = n == 56 || n == 52
is_reject_code (word s) = text_eq s (codes "56") || text_eq s (codes "52")

unfoldable pub is_rejected_order : Order → Bool
is_rejected_order o =
    let st = upper (status_name [] o.status) in
    text_eq st (codes "REJECTED") || text_eq st (codes "CANCELLED") || is_reject_code o.status

unfoldable pub is_pending_new : Order → Bool
is_pending_new o =
    let st = upper (status_name [] o.status) in
    text_eq st (codes "PENDINGNEW") || text_eq st (codes "PENDING_NEW")

-- The verdict on a matching order; none asks for another turn.
unfoldable pub judge : ℕ → ℕ → Order → Option Rms
judge timeout checked o =
    if is_pending_new o && ltb (checked + 200) timeout
    then none
    else some (record {
      verified = true;
      status = status_name [] o.status;
      is_rejected = is_rejected_order o;
      reject_reason = o.reason;
    })

unfoldable pub poll_once : Text → Text → ℕ → Poll → Option Rms
poll_once order_ref app_order_id timeout p = elim p.reports [
  | orders os ↦ elim (find_order order_ref app_order_id os) [
    | none ↦ none
    | some o ↦ judge timeout p.checked o
  ]
  | _ ↦ none
]

-- `while time.time() - start_time <= timeout_sec`, over the turns that the clock allows at most.
unfoldable pub verify_loop : Text → Text → ℕ → List Poll → Rms
verify_loop order_ref app_order_id timeout [] = unverified
verify_loop order_ref app_order_id timeout (p ∷ ps) =
    let rest = verify_loop order_ref app_order_id timeout ps in
    if leb p.started timeout
    then elim (poll_once order_ref app_order_id timeout p) [ none ↦ rest | some rms ↦ rms ]
    else unverified

-- With no token nothing is asked: `none`.
unfoldable pub verify_order_rms_acceptance : Text → Text → Option (List Poll) → Rms
verify_order_rms_acceptance order_ref app_order_id none = unverified
verify_order_rms_acceptance order_ref app_order_id (some polls) =
    verify_loop order_ref app_order_id 1500 polls

-- An order with the reference or the identifier that the broker rejected or cancelled.
abbrev pub RejectedIn : Text → Text → List Order → Type 0
RejectedIn order_ref app_order_id [] = ⊥
RejectedIn order_ref app_order_id (o ∷ os) =
    ((matches order_ref app_order_id o ≡ true) × (is_rejected_order o ≡ true))
    ⊎ RejectedIn order_ref app_order_id os

abbrev pub Rejects : Text → Text → Reports → Type 0
Rejects order_ref app_order_id (orders os) = RejectedIn order_ref app_order_id os
Rejects order_ref app_order_id _ = ⊥

abbrev pub AnyPoll : Text → Text → List Poll → Type 0
AnyPoll order_ref app_order_id [] = ⊥
AnyPoll order_ref app_order_id (p ∷ ps) =
    Rejects order_ref app_order_id p.reports ⊎ AnyPoll order_ref app_order_id ps

judge-rejected :
    (timeout checked : ℕ) (o : Order) (rms : Rms)
    → judge timeout checked o ≡ some rms
    → rms.is_rejected ≡ true
    → is_rejected_order o ≡ true
unfolding judge
judge-rejected timeout checked o rms h r =
    elim (Bool-cases (is_pending_new o && ltb (checked + 200) timeout)) [
      | inl again ↦ cc (rw again at h)
      | inr final ↦ cc (rw final at h)
    ]

-- The verdict on what the search found.
found : ℕ → ℕ → Option Order → Option Rms
found timeout checked none = none
found timeout checked (some o) = judge timeout checked o

find_order-rejected :
    (order_ref app_order_id : Text) (timeout checked : ℕ) (os : List Order) (rms : Rms)
    → found timeout checked (find_order order_ref app_order_id os) ≡ some rms
    → rms.is_rejected ≡ true
    → RejectedIn order_ref app_order_id os
unfolding find_order found
find_order-rejected order_ref app_order_id timeout checked [] rms h r = cc
find_order-rejected order_ref app_order_id timeout checked (o ∷ os) rms h r =
    elim (Bool-cases (matches order_ref app_order_id o)) [
      | inl hit ↦ inl (hit, judge-rejected timeout checked o rms (rw hit at h) r)
      | inr miss ↦
          inr (find_order-rejected order_ref app_order_id timeout checked os rms (rw miss at h) r)
    ]

reports-rejected :
    (order_ref app_order_id : Text) (timeout started checked : ℕ) (reports : Reports) (rms : Rms)
    → poll_once order_ref app_order_id timeout
        (record { started = started; reports = reports; checked = checked })
      ≡ some rms
    → rms.is_rejected ≡ true
    → Rejects order_ref app_order_id reports
unfolding poll_once found
reports-rejected order_ref app_order_id timeout started checked no_token rms h r = cc
reports-rejected order_ref app_order_id timeout started checked raised rms h r = cc
reports-rejected order_ref app_order_id timeout started checked refused rms h r = cc
reports-rejected order_ref app_order_id timeout started checked (orders os) rms h r =
    find_order-rejected order_ref app_order_id timeout checked os rms h r

verify_loop-rejected :
    (order_ref app_order_id : Text) (timeout : ℕ) (polls : List Poll)
    → (verify_loop order_ref app_order_id timeout polls).is_rejected ≡ true
    → AnyPoll order_ref app_order_id polls
unfolding verify_loop
verify_loop-rejected order_ref app_order_id timeout [] h = cc
verify_loop-rejected order_ref app_order_id timeout (p ∷ ps) h =
    elim (Bool-cases (leb p.started timeout)) [
      | inr late ↦ cc (rw late at h)
      | inl live ↦ elim (Option-cases (poll_once order_ref app_order_id timeout p)) [
        | inl more ↦
            inr (verify_loop-rejected order_ref app_order_id timeout ps (rw (live, more) at h))
        | inr (rms, e) ↦ inl (
            reports-rejected order_ref app_order_id timeout p.started p.checked p.reports rms e
              (rw (live, e) at h))
      ]
    ]

-- An order is taken for rejected only if some turn saw, in the order book, an order with its
-- reference or its identifier that the broker rejected or cancelled.
verify-rejected :
    (order_ref app_order_id : Text) (polls : List Poll)
    → (verify_order_rms_acceptance order_ref app_order_id (some polls)).is_rejected ≡ true
    → AnyPoll order_ref app_order_id polls
unfolding verify_order_rms_acceptance
verify-rejected order_ref app_order_id polls h =
    verify_loop-rejected order_ref app_order_id 1500 polls h
