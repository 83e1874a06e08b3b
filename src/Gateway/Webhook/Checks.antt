-- ===== src/Gateway/Webhook/Checks.antt =====
-- client/main.py, `receive_webhook`: the request's body, its secret, its action and its numbers.
-- Prices and quantities are in millionths.
use xts_multi_tennant.Prelude.{
  Bool, List, Option, Text, [], abs, all, any, codes, false, if◌then◌else◌, leb, leb_ℤ, length, ltb,
  ltb_ℤ, none, pos, pos_part, some, strip, text_eq, ℕ, ℤ, ◌%◌, ◌&&◌, ◌++◌, ◌+◌, ◌-◌, ◌/◌, ◌==◌,
  ◌||◌, ◌∷◌,
}
use xts_multi_tennant.Orders.Tick.{Amount, finite, Side, buy, sell, unit}

pub record Config : Type 0 where
  pub webhook_secret : Text
  pub max_body : ℕ
  pub max_symbol : ℕ
  pub max_tracked : ℕ
  pub dedup_window : ℕ

-- What `request.stream()` yields before the five seconds are over, or their end.
pub data StreamEvent : Type 0 where
  chunk : Text → StreamEvent
  timeout : StreamEvent

-- `float(x)`, or the error that it raises.
pub data Number : Type 0 where
  malformed : Number
  number : Amount → Number

-- The fields of the JSON object that the handler reads, as texts (`str(...)`); a missing key is
-- `none`. The two last are stripped and empty when no key of theirs is there.
pub record WebhookData : Type 0 where
  pub secret : Option Text
  pub action : Option Text
  pub symbol : Option Text
  pub price : Option Number
  pub quantity : Option Number
  pub explicit_id : Text
  pub bar_time : Text

pub data Parsed : Type 0 where
  invalid_json not_object : Parsed
  object : WebhookData → Parsed

pub record Payload : Type 0 where
  pub action : Side
  pub symbol : Text
  pub quantity : ℕ
  pub price : ℕ
  pub order_ref : Text

pub data Reply : Type 0 where
  trading_paused too_large timed_out bad_json bad_payload rate_limited unauthorized : Reply
  invalid_action symbol_too_long invalid_number fractional bad_quantity negative_price : Reply
  duplicate internal_error : Reply
  queued : ℕ → Reply

pub data Read : Type 0 where
  body : Text → Read
  oversized stalled : Read

unfoldable pub read_body : ℕ → Text → List StreamEvent → Read
read_body max_body acc [] = body acc
read_body max_body acc (timeout ∷ events) = stalled
read_body max_body acc (chunk bytes ∷ events) =
    let acc' = acc ++ bytes in
    let rest = read_body max_body acc' events in
    if ltb max_body (length acc') then oversized else rest

-- `hmac.compare_digest` on texts raises a TypeError outside ASCII: `none`.
unfoldable pub compare_digest : Text → Text → Option Bool
compare_digest a b =
    if all (λ c. ltb c 128) a && all (λ c. ltb c 128) b then some (text_eq a b) else none

abbrev pub or_empty : Option Text → Text
or_empty none = []
or_empty (some s) = s

-- `bool(expected_secret) and hmac.compare_digest(incoming_secret, expected_secret)`
unfoldable pub secret_ok : Config → WebhookData → Option Bool
unfolding compare_digest
secret_ok c d = elim c.webhook_secret [
  | [] ↦ some false
  | x ∷ s ↦ compare_digest (strip (or_empty d.secret)) (x ∷ s)
]

is_one_of : Text → List Text → Bool
is_one_of s words = any (text_eq s) words

unfoldable pub action_of : Text → Option Side
unfolding is_one_of
action_of raw =
    if is_one_of raw (codes "BUY" ∷ codes "LONG" ∷ codes "COVER" ∷ [])
    then some buy
    else if is_one_of raw
        (codes "SELL" ∷ codes "SHORT" ∷ codes "EXIT_LONG" ∷ codes "EXIT_SHORT" ∷ codes "CLOSE" ∷ [])
    then some sell
    else none

abbrev pub or_zero : Option Number → Number
or_zero none = number (finite (pos 0))
or_zero (some n) = n

-- `int(round(q))` where `abs(q - round(q)) <= 1e-6`, else `none`; the sign is kept apart.
unfoldable pub whole : ℕ → Option ℕ
whole q =
    let r = q % unit in
    if leb r 1 then some (q / unit) else if leb (unit - 1) r then some (q / unit + 1) else none

-- The checks of the numbers: the quantity and the price, or the answer that refuses them.
pub data Checked : Type 0 where
  refused : Reply → Checked
  sized : ℕ → ℕ → Checked

unfoldable pub check_sizes : ℤ → ℤ → Checked
unfolding whole
check_sizes price quantity = elim (whole (abs quantity)) [
  | none ↦ refused fractional
  | some q ↦
      if leb_ℤ quantity (pos 0) || (q == 0)
      then refused bad_quantity
      else if ltb_ℤ price (pos 0)
      then refused negative_price
      else sized q (pos_part price)
]

unfoldable pub check_numbers : Number → Number → Checked
check_numbers (number (finite price)) (number (finite quantity)) = check_sizes price quantity
check_numbers _ _ = refused invalid_number
