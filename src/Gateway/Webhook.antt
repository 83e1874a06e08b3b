-- ===== src/Gateway/Webhook.antt =====
-- client/main.py, `receive_webhook`: from the request's chunks to a queued signal. The JSON parser
-- (`json.loads`) and the digests are parameters; an answer stands for its status code and message.
-- Prices and quantities are in millionths, times in milliseconds. One request is one step: what
-- another request does while this one awaits the database is not modelled.
mod Checks
unfoldable pub use Checks.*
use xts_multi_tennant.Prelude.{
  Bool, List, Text, [], false, if◌then◌else◌, length, ltb, none, some, strip, true, upper, ℕ, ◌*◌,
  ◌++◌, ◌∷◌,
}
use xts_multi_tennant.Orders.Tick.{Amount, finite, Side, buy, sell, unit}
use xts_multi_tennant.Gateway.Attempts
use xts_multi_tennant.Gateway.Attempts.{Attempts}
use xts_multi_tennant.Gateway.Store.{Row, db_insert_pending}
use xts_multi_tennant.Gateway.Dedup.{Shield, SignalKey, signal_key, is_duplicate_signal}
use xts_multi_tennant.Gateway.Reference.{RefKey, generate_order_ref}

-- The module's state, with the background tasks in the order in which they were added.
pub record Gateway (R : Type 0) : Type 0 where
  pub paused : Bool
  pub attempts : Attempts
  pub shield : Shield
  pub signals : List (Row Payload R)
  pub background : List (ℕ × Payload)

-- The modules' functions that are not in the repository.
pub record Library : Type 0 where
  pub loads : Text → Parsed
  pub signal_digest : SignalKey → Text
  pub ref_digest : RefKey → Text

-- What a request brings from outside: its address and stream, the clock, the identifier from
-- `uuid4`, and whether the database answers the duplicate check.
pub record Request : Type 0 where
  pub ip : Text
  pub events : List StreamEvent
  pub now : ℕ
  pub sig_id : ℕ
  pub healthy : Bool

module _ {R : Type 0} (lib : Library) (c : Config) (r : Request) where
  -- `_record_failed_attempt(client_ip, now)`
  unfoldable pub failed : Gateway R → Gateway R
  failed g = record g {
    attempts = Attempts.record_failed_attempt c.max_tracked r.ip r.now g.attempts;
  }

  -- `db_insert_pending` and `background_tasks.add_task`; an insertion that raises is a server error.
  unfoldable pub enqueue : Payload → Gateway R → Reply × Gateway R
  enqueue payload g = elim (db_insert_pending r.sig_id payload r.now g.signals) [
    | none ↦ (internal_error, g)
    | some signals ↦ (
      queued r.sig_id,
      record g { signals = signals; background = g.background ++ (r.sig_id, payload) ∷ [] },
    )
  ]

  -- From the duplicate check on.
  unfoldable pub dispatch : WebhookData → Side → Text → ℕ → ℕ → Gateway R → Reply × Gateway R
  dispatch d action symbol quantity price g =
      let key = signal_key action symbol quantity price d.explicit_id in
      let hash = lib.signal_digest key in
      let (dup, shield) = is_duplicate_signal r.healthy c.dedup_window hash r.now g.shield in
      let order_ref =
        generate_order_ref lib.ref_digest action symbol quantity price d.explicit_id d.bar_time
          r.now in
      let payload : Payload = record {
        action = action;
        symbol = symbol;
        quantity = quantity;
        price = price;
        order_ref = order_ref;
      } in
      if dup
      then (duplicate, record g { shield = shield })
      else enqueue payload (record g { shield = shield })

  -- The checks of an authorized request.
  unfoldable pub validated : WebhookData → Gateway R → Reply × Gateway R
  validated d g = elim (action_of (strip (upper (or_empty d.action)))) [
    | none ↦ (invalid_action, g)
    | some action ↦
        let symbol = strip (upper (or_empty d.symbol)) in
        if ltb c.max_symbol (length symbol)
        then (symbol_too_long, g)
        else elim (check_numbers (or_zero d.price) (or_zero d.quantity)) [
          | refused reply ↦ (reply, g)
          | sized quantity price ↦ dispatch d action symbol quantity price g
        ]
  ]

  -- The check of the secret, with the ban of an address that failed too often.
  unfoldable pub authorized : WebhookData → Gateway R → Reply × Gateway R
  unfolding failed
  authorized d g = elim (secret_ok c d) [
    | none ↦ (internal_error, g)
    | some true ↦
        validated d (record g { attempts = Attempts.clear_failed_attempts r.ip g.attempts })
    | some false ↦
        if Attempts.is_banned r.ip r.now g.attempts
        then (rate_limited, g)
        else (unauthorized, failed g)
  ]

  unfoldable pub received : Text → Gateway R → Reply × Gateway R
  received [] g = (bad_payload, g)
  received (b ∷ bytes) g = elim (lib.loads (b ∷ bytes)) [
    | invalid_json ↦ (bad_json, g)
    | not_object ↦ (bad_payload, g)
    | object d ↦ authorized d g
  ]

  unfoldable pub receive_webhook : Gateway R → Reply × Gateway R
  unfolding failed received
  receive_webhook g =
      if g.paused then (trading_paused, g) else elim (read_body c.max_body [] r.events) [
        | body bytes ↦ received bytes g
        | oversized ↦ (too_large, failed g)
        | stalled ↦ (timed_out, failed g)
      ]
