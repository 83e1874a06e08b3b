-- ===== src/Orders/Dispatch.antt =====
-- client/xts_api.py, the second half of `place_order`: the chunks of an order go to the broker one
-- after the other. What the network does to each of them is an argument, the `Exchange` of its
-- number. An answer is the fields of its JSON object that the bot reads; a missing text is the empty
-- one. The thread that cleans up partial fills and the refunds, which do nothing, are left out.
pub mod Halting
pub mod Summary
use xts_multi_tennant.Prelude.{
  All, Bool, List, Option, Text, [], all, codes, false, if◌then◌else◌, length, ltb, none, not, some,
  suc, text_eq, true, ℕ, ◌&&◌, ◌++◌, ◌+◌, ◌/◌, ◌==◌, ◌||◌, ◌∷◌,
}
use xts_multi_tennant.Orders.Ref.{decimal, format_order_ref_chunk}
use xts_multi_tennant.Orders.Book
use xts_multi_tennant.Orders.Book.{
  Reports, Poll, Rms, check_order_status_by_ref, verify_order_rms_acceptance,
}

-- `type`, `status` and so on; `order_status` is the top one, `app_order_id`, `executed` and
-- `is_paper_trade` are in `result`, and `dispatched_quantity` in the answer to a partial failure.
pub record OrderResult : Type 0 where
  pub kind : Text
  pub status : Text
  pub code : Text
  pub description : Text
  pub message : Text
  pub reject_reason : Text
  pub error : Text
  pub order_status : Text
  pub app_order_id : Text
  pub executed : ℕ
  pub dispatched_quantity : ℕ
  pub is_paper_trade : Bool

abbrev pub blank : OrderResult
blank = record {
  kind = [];
  status = [];
  code = [];
  description = [];
  message = [];
  reject_reason = [];
  error = [];
  order_status = [];
  app_order_id = [];
  executed = 0;
  dispatched_quantity = 0;
  is_paper_trade = false;
}

-- `{"status": "error", "message": message}`
abbrev pub error_result : Text → OrderResult
error_result message = record blank { status = codes "error"; message = message }

-- What `api_session.post` does; an answer that is JSON but no object raises, and is a
-- `network_error` as well.
pub data Response : Type 0 where
  timed_out : Text → Response
  network_error : Text → Response
  non_json : Response
  answered : OrderResult → Response

-- The outside of one dispatch: whether the rate limiter admits it, the response and its code, the order book
-- after a response that is no JSON, the turns of the verification, and the order book after a
-- verification without a verdict.
pub record Exchange : Type 0 where
  pub acquired : Bool
  pub http_status : Text
  pub response : Response
  pub after_non_json : Reports
  pub polls : Option (List Poll)
  pub after_unverified : Reports

pub data Outcome : Type 0 where
  accepted stopped : OrderResult → Outcome

abbrev pub is_success : OrderResult → Bool
is_success r = text_eq r.kind (codes "success")

abbrev pub is_rejected_status : OrderResult → Bool
is_rejected_status r = text_eq r.status (codes "rejected")

unfoldable pub is_any_of : Text → List Text → Bool
is_any_of s [] = false
is_any_of s (t ∷ ts) = text_eq s t || is_any_of s ts

-- `rms_res`, with the look at the order book where the verification has no verdict.
unfoldable pub rms_of : Exchange → Text → Text → Rms
rms_of env chunk_ref app_order_id =
    let rms = verify_order_rms_acceptance chunk_ref app_order_id env.polls in
    let fallback = check_order_status_by_ref env.after_unverified chunk_ref in
    if not rms.verified && is_any_of fallback (codes "Rejected" ∷ codes "Cancelled" ∷ [])
    then record {
      verified = true;
      status = fallback;
      is_rejected = true;
      reject_reason = codes "Broker RMS Rejection (Status: " ++ fallback ++ codes ")";
    }
    else rms

abbrev pub or_text : Text → Text → Text
or_text [] t = t
or_text (c ∷ s) t = c ∷ s

-- `{"type": "error", "status": "rejected", ...}`
abbrev pub rejected_result : Text → OrderResult
rejected_result reason = record blank {
  kind = codes "error";
  status = codes "rejected";
  code = codes "e-rms-rejected";
  description = reason;
  reject_reason = reason;
  order_status = codes "Rejected";
}

-- The broker's object, whether it came with the response or was made from the order book.
unfoldable pub settle : Exchange → Text → OrderResult → Outcome
unfolding rms_of
settle env chunk_ref answer =
    let rms = rms_of env chunk_ref answer.app_order_id in
    if not (is_success answer)
    then stopped answer
    else if rms.is_rejected
    then stopped (rejected_result (or_text rms.reject_reason (codes "Broker RMS Rejection")))
    else accepted answer

-- `data` after a response that is no JSON; `none` where the order book does not hold the order.
unfoldable pub recovered_answer : Exchange → Text → Option OrderResult
recovered_answer env chunk_ref =
    let fallback = check_order_status_by_ref env.after_non_json chunk_ref in
    if is_any_of fallback
      (codes "Filled" ∷ codes "PartiallyFilled" ∷ codes "New" ∷ codes "Open" ∷ [])
    then some (record blank { kind = codes "success" })
    else none

unfoldable pub respond : Exchange → Text → Response → Outcome
respond env chunk_ref (timed_out e) = stopped (error_result (codes "timeout: " ++ e))
respond env chunk_ref (network_error e) = stopped (error_result e)
respond env chunk_ref (answered answer) = settle env chunk_ref answer
respond env chunk_ref non_json = elim (recovered_answer env chunk_ref) [
  | none ↦
      stopped
        (error_result (codes "Invalid broker response (HTTP " ++ env.http_status ++ codes ")"))
  | some answer ↦ settle env chunk_ref answer
]

-- One dispatch: nothing is posted where the rate limiter does not admit it.
unfoldable pub send_chunk : Exchange → Text → Outcome
unfolding respond
send_chunk env chunk_ref =
    if env.acquired
    then respond env chunk_ref env.response
    else stopped (error_result (codes "Rate limit exceeded"))

-- What is posted: `orderUniqueIdentifier` and `orderQuantity`.
abbrev pub Post : Type 0
Post = Text × ℕ

abbrev pub posts_of : Exchange → Text → ℕ → List Post
posts_of env chunk_ref quantity = if env.acquired then (chunk_ref, quantity) ∷ [] else []

-- `dispatched_results` and `total_dispatched_qty`, with what was posted.
pub record Sent : Type 0 where
  pub results : List OrderResult
  pub total : ℕ
  pub posts : List Post

abbrev pub nothing_sent : Sent
nothing_sent = record { results = []; total = 0; posts = [] }

-- What is added to the later dispatches by the outcome of the one before.
unfoldable pub extend : List Post → ℕ → Outcome → Sent → Sent
extend posted quantity (stopped r) rest = record { results = r ∷ []; total = 0; posts = posted }
extend posted quantity (accepted r) rest = record {
  results = r ∷ rest.results;
  total = quantity + rest.total;
  posts = posted ++ rest.posts;
}

module _ (env : ℕ → Exchange) (order_ref : Text) where
  -- `for idx, chunk_qty in enumerate(chunks, start=1)`, from a number on.
  unfoldable pub send_chunks : ℕ → List ℕ → Sent
  unfolding extend
  send_chunks idx [] = nothing_sent
  send_chunks idx (quantity ∷ chunks) =
      let chunk_ref = format_order_ref_chunk order_ref idx 50 in
      extend (posts_of (env idx) chunk_ref quantity) quantity (send_chunk (env idx) chunk_ref)
        (send_chunks (suc idx) chunks)

-- `data.get("type") == "success" and data.get("status") != "rejected"` of all results.
unfoldable pub all_ok : List OrderResult → ℕ → Bool
all_ok results n =
    all (λ r. is_success r && not (is_rejected_status r)) results && (length results == n)

abbrev pub first_id : List OrderResult → Text
first_id [] = []
first_id (r ∷ rs) = r.app_order_id

-- `next((d for d in dispatched_results if ...), None)`, and the first result or a default.
unfoldable pub failure_of : OrderResult → List OrderResult → OrderResult
failure_of default [] = default
failure_of default (r ∷ rs) = if is_rejected_status r then r else failure_of default rs

abbrev pub first_or : OrderResult → List OrderResult → OrderResult
first_or default [] = default
first_or default (r ∷ rs) = r

unfoldable pub summarize : ℕ → ℕ → Sent → OrderResult
unfolding failure_of all_ok
summarize execution_qty n sent =
    if all_ok sent.results n
    then record blank {
      kind = codes "success";
      code = codes "s-orders-0001";
      description = codes "All " ++ decimal n ++ codes " slices accepted by broker";
      app_order_id = first_id sent.results;
      executed = execution_qty;
    }
    else if ltb 0 sent.total
    then record blank {
      status = codes "partial_failure";
      kind = codes "partial_failure";
      message =
          codes "Partial slices placed: "
          ++ decimal sent.total
          ++ codes "/"
          ++ decimal execution_qty
          ++ codes " units";
      dispatched_quantity = sent.total;
    }
    else failure_of (first_or (error_result (codes "Order slicing dispatch failed")) sent.results)
        sent.results

abbrev pub result_of : Outcome → OrderResult
result_of (accepted r) = r
result_of (stopped r) = r

-- The live part of `place_order`: one chunk, whose answer is passed on, or several.
unfoldable pub execute_live : (ℕ → Exchange) → Text → ℕ → List ℕ → OrderResult × List Post
unfolding summarize
execute_live env order_ref execution_qty (quantity ∷ []) =
    let chunk_ref = format_order_ref_chunk order_ref 1 50 in
    (result_of (send_chunk (env 1) chunk_ref), posts_of (env 1) chunk_ref execution_qty)
execute_live env order_ref execution_qty chunks =
    let sent = send_chunks env order_ref 1 chunks in
    (summarize execution_qty (length chunks) sent, sent.posts)
