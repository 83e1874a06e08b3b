-- ===== src/Orders/Retry.antt =====
-- client/xts_api.py, `execute_trade_with_retry`: an order that fails for its authentication is
-- placed once more. `repr` is Python's `str` of an answer; alerts and logs are left out.
pub mod Once
use xts_multi_tennant.Prelude.{
  Bool, List, Text, [], any, codes, if◌then◌else◌, is_infix, lower, not, suc, text_eq, zero, ℕ,
  ◌&&◌, ◌+◌, ◌==◌, ◌||◌, ◌∷◌,
}
use xts_multi_tennant.Orders.Tick.{Side}
use xts_multi_tennant.Orders.Dispatch.{
  OrderResult, error_result, is_success, is_rejected_status, or_text,
}
use xts_multi_tennant.Orders.Place.{Limits, World, Placed, place_order}

unfoldable pub mentions : Text → List Text → Bool
mentions err_msg words = any (λ word. is_infix word err_msg) words

abbrev pub auth_words : List Text
auth_words = codes "token" ∷ codes "session" ∷ codes "auth" ∷ []

abbrev pub transient_words : List Text
transient_words = codes "connection" ∷ codes "expecting value" ∷ []

abbrev pub timeout_words : List Text
timeout_words =
    codes "timeout"
    ∷ codes "timed out"
    ∷ codes "readtimeout"
    ∷ codes "bad gateway"
    ∷ codes "502"
    ∷ codes "503"
    ∷ codes "504"
    ∷ []

abbrev pub rms_words : List Text
rms_words =
    codes "margin"
    ∷ codes "rms"
    ∷ codes "shortfall"
    ∷ codes "limit exceeds"
    ∷ codes "rejected"
    ∷ codes "insufficient"
    ∷ []

unfoldable pub is_failed : OrderResult → Bool
is_failed r =
    text_eq r.status (codes "error")
    || text_eq r.kind (codes "error")
    || not (is_success r)
    || is_rejected_status r

-- What follows an attempt: an answer, or another attempt with fresh tokens.
pub data Verdict : Type 0 where
  again : Verdict
  answer : OrderResult → Verdict

module _ (repr : OrderResult → Text) where
  unfoldable pub err_msg : OrderResult → Text
  err_msg r = lower (
      or_text r.description
        (or_text r.message (or_text r.reject_reason (or_text r.error (repr r)))))

  unfoldable pub is_rms_reject : OrderResult → Bool
  is_rms_reject r = is_rejected_status r || mentions (err_msg r) rms_words

  unfoldable pub verdict : Bool → OrderResult → Verdict
  verdict first r =
      if not (is_failed r)
      then answer r
      else if is_rms_reject r
      then answer r
      else if mentions (err_msg r) timeout_words && first
      then answer (error_result (codes "Order placed but API timed out. Check terminal manually."))
      else if mentions (err_msg r) transient_words && first
      then answer (error_result (codes "Connection lost post-dispatch. Manual check required."))
      else if mentions (err_msg r) auth_words && first
      then again
      else answer r

  -- The answer and the placements after one, by the verdict on it; `rest` is what the call with
  -- `attempt=2` does.
  unfoldable pub follow : Placed → OrderResult × List Placed → Verdict → OrderResult × List Placed
  follow p rest (answer r) = (r, p ∷ [])
  follow p rest again = (rest.0, p ∷ rest.1)

  -- The function, on fuel: `n` counts the placements before, `worlds n` is the world at the next.
  unfoldable pub retry_from :
      Limits
      → (ℕ → World)
      → Side
      → Text
      → ℕ
      → ℕ
      → Text
      → Bool
      → ℕ
      → ℕ
      → ℕ
      → OrderResult × List Placed
  unfolding follow
  retry_from c worlds side symbol quantity tv_price order_ref is_paper zero n attempt =
      (error_result [], [])
  retry_from c worlds side symbol quantity tv_price order_ref is_paper (suc fuel) n attempt =
      let p = place_order c (worlds n) side symbol quantity tv_price order_ref is_paper in
      let rest =
        retry_from c worlds side symbol quantity tv_price order_ref is_paper fuel (n + 1) 2 in
      follow p rest (verdict (attempt == 1) p.result)

-- `w1` at the first placement, `w2` later.
abbrev pub world_at : World → World → ℕ → World
world_at w1 w2 zero = w1
world_at w1 w2 (suc n) = w2

-- The call with `attempt=1`. The fuel of two placements is enough, as Retry/Once shows.
unfoldable pub execute_trade_with_retry :
    (OrderResult → Text)
    → Limits
    → World
    → World
    → Side
    → Text
    → ℕ
    → ℕ
    → Text
    → Bool
    → OrderResult × List Placed
unfolding retry_from
execute_trade_with_retry repr c w1 w2 side symbol quantity tv_price order_ref is_paper =
    retry_from repr c (world_at w1 w2) side symbol quantity tv_price order_ref is_paper 2 0 1
