-- ===== src/Gateway/Effect.antt =====
-- client/main.py, `receive_webhook`: what a webhook does to the signals and the background tasks.
use xts_multi_tennant.Gateway.Attempts
use xts_multi_tennant.Gateway.Store
use xts_multi_tennant.Gateway.Store.{Row, db_insert_pending, has_id}
use xts_multi_tennant.Gateway.Dedup.{signal_key, is_duplicate_signal}
use xts_multi_tennant.Orders.Tick.{Side, non_finite, finite}
use xts_multi_tennant.Gateway.Webhook.{
  Config, WebhookData, Payload, Reply, Gateway, Library, Request, Checked, check_numbers,
  check_sizes, refused, sized, enqueue, dispatch, bad_json, bad_payload, trading_paused, too_large,
  timed_out, validated, authorized, received, receive_webhook, failed, secret_ok, or_empty, object,
  body, read_body, Number, malformed, number, Parsed, Read, invalid_json, not_object, oversized,
  stalled, action_of, or_zero,
}
use xts_multi_tennant.Prelude.{
  Bool, Bool-cases, Option-cases, Text, [], arith, false, if◌then◌else◌, inl, inr, length, ltb,
  none, refl, strip, true, upper, ℕ, ℤ, ◌++◌, ◌<◌, ◌∙◌, ◌∷◌, ◌≡◌,
}

-- The pending row of a queued signal.
abbrev pub pending_row : {R : Type 0} → ℕ → Payload → ℕ → Row Payload R
pending_row id payload now = record {
  id = id;
  received_at = now;
  payload = payload;
  status = Store.Status.pending;
  result = none;
  updated_at = now;
}

-- What an answer says about the state: a queued signal adds one pending row and one task of a
-- positive quantity, any other answer leaves rows and tasks alone, and none touches the pause.
abbrev pub Effect : {R : Type 0} → Request → Gateway R → Reply × Gateway R → Type 0
Effect r g (Reply.queued id, g') =
    (id ≡ r.sig_id)
    × ((p : Payload) × (0 < p.quantity)
        × (g'.signals ≡ g.signals ++ pending_row id p r.now ∷ [])
        × (g'.background ≡ g.background ++ (id, p) ∷ []))
    × (g'.paused ≡ g.paused)
Effect r g (_, g') =
    (g'.signals ≡ g.signals) × (g'.background ≡ g.background) × (g'.paused ≡ g.paused)

-- The same for answers that are no `queued`, by cases once and for all.
is_queued : Reply → Bool
is_queued (Reply.queued id) = true
is_queued _ = false

Effect-same :
    {R : Type 0} (r : Request) (g g' : Gateway R) (reply : Reply)
    → is_queued reply ≡ false
    → (g'.signals ≡ g.signals) × (g'.background ≡ g.background) × (g'.paused ≡ g.paused)
    → Effect r g (reply, g')
unfolding is_queued
Effect-same r g g' (Reply.queued id) n h = cc
Effect-same r g g' _ n h = h

-- The base state may be replaced by one with the same rows, tasks and pause.
Effect-base :
    {R : Type 0} (r : Request) (g h : Gateway R) (res : Reply × Gateway R)
    → h.signals ≡ g.signals
    → h.background ≡ g.background
    → h.paused ≡ g.paused
    → Effect r h res
    → Effect r g res
Effect-base r g h (Reply.queued id, g') a b c (e, (p, q, s, t), k) =
    (e, (p, q, rw (← a) s, rw (← b) t), rw (← c) k)
Effect-base r g h (Reply.trading_paused, g') a b c e = (e.0 ∙ a, e.1 ∙ b, e.2 ∙ c)
Effect-base r g h (_, g') a b c e = (e.0 ∙ a, e.1 ∙ b, e.2 ∙ c)

check_sizes-refused :
    (price quantity : ℤ) (reply : Reply)
    → check_sizes price quantity ≡ refused reply
    → is_queued reply ≡ false
unfolding check_sizes is_queued
check_sizes-refused price quantity reply h = ground arith

check_sizes-sized : (price quantity : ℤ) (q p : ℕ) → check_sizes price quantity ≡ sized q p → 0 < q
unfolding check_sizes
check_sizes-sized price quantity q p h = ground arith

check_numbers-refused :
    (price quantity : Number) (reply : Reply)
    → check_numbers price quantity ≡ refused reply
    → is_queued reply ≡ false
unfolding check_numbers is_queued
check_numbers-refused malformed n reply h = ground arith
check_numbers-refused (number non_finite) n reply h = ground arith
check_numbers-refused (number (finite p)) malformed reply h = ground arith
check_numbers-refused (number (finite p)) (number non_finite) reply h = ground arith
check_numbers-refused (number (finite p)) (number (finite q)) reply h =
    check_sizes-refused p q reply h

check_numbers-sized :
    (price quantity : Number) (q p : ℕ) → check_numbers price quantity ≡ sized q p → 0 < q
unfolding check_numbers
check_numbers-sized malformed n q p h = cc
check_numbers-sized (number non_finite) n q p h = cc
check_numbers-sized (number (finite price)) malformed q p h = cc
check_numbers-sized (number (finite price)) (number non_finite) q p h = cc
check_numbers-sized (number (finite price)) (number (finite quantity)) q p h =
    check_sizes-sized price quantity q p h

module _ {R : Type 0} (lib : Library) (c : Config) (r : Request) where
  enqueue-Effect :
      (payload : Payload) (g : Gateway R)
      → 0 < payload.quantity
      → Effect r g (enqueue lib c r payload g)
  unfolding enqueue db_insert_pending
  enqueue-Effect payload g h = elim (Bool-cases (has_id r.sig_id g.signals)) [
    | inl taken ↦ rw (enqueue, db_insert_pending, taken) (refl, refl, refl)
    | inr new ↦ rw (enqueue, db_insert_pending, new) (refl, (payload, h, refl, refl), refl)
  ]

  dispatch-Effect :
      (d : WebhookData) (action : Side) (symbol : Text) (quantity price : ℕ) (g : Gateway R)
      → 0 < quantity
      → Effect r g (dispatch lib c r d action symbol quantity price g)
  unfolding dispatch
  dispatch-Effect d action symbol quantity price g h =
      let hash = lib.signal_digest (signal_key action symbol quantity price d.explicit_id) in
      let res = is_duplicate_signal r.healthy c.dedup_window hash r.now g.shield in
      let g' : Gateway R = record g { shield = res.1 } in
      elim (Bool-cases res.0) [
        | inl dup ↦ rw (dispatch, dup) (refl, refl, refl)
        | inr new ↦ rw (dispatch, new) (Effect-base r g g' _ refl refl refl (enqueue-Effect _ g' h))
      ]

  -- The numbers' checks are split from the rest by their value.
  checked-Effect :
      (d : WebhookData) (action : Side) (symbol : Text) (g : Gateway R) (res : Checked)
      → ((reply : Reply) → res ≡ refused reply → is_queued reply ≡ false)
      → ((q p : ℕ) → res ≡ sized q p → 0 < q)
      → Effect r g (elim res [
        | refused reply ↦ (reply, g)
        | sized quantity price ↦ dispatch lib c r d action symbol quantity price g
      ])
  checked-Effect d action symbol g (refused reply) refuses sizes =
      Effect-same r g g reply (refuses reply refl) (refl, refl, refl)
  checked-Effect d action symbol g (sized q p) refuses sizes =
      dispatch-Effect d action symbol q p g (sizes q p refl)

  validated-Effect : (d : WebhookData) (g : Gateway R) → Effect r g (validated lib c r d g)
  unfolding validated
  validated-Effect d g =
      let symbol = strip (upper (or_empty d.symbol)) in
      elim (Option-cases (action_of (strip (upper (or_empty d.action))))) [
        | inl unknown ↦ rw (validated, unknown) (refl, refl, refl)
        | inr (action, e) ↦ elim (Bool-cases (ltb c.max_symbol (length symbol))) [
          | inl long ↦ rw (validated, e, long) (refl, refl, refl)
          | inr short ↦
              rw (validated, e, short)
                (checked-Effect d action symbol g _
                  (check_numbers-refused (or_zero d.price) (or_zero d.quantity))
                  (check_numbers-sized (or_zero d.price) (or_zero d.quantity)))
        ]
      ]

  authorized-Effect : (d : WebhookData) (g : Gateway R) → Effect r g (authorized lib c r d g)
  unfolding authorized failed
  authorized-Effect d g =
      let g' : Gateway R = record g { attempts = Attempts.clear_failed_attempts r.ip g.attempts } in
      elim (Option-cases (secret_ok c d)) [
        | inl raised ↦ rw (authorized, raised) (refl, refl, refl)
        | inr (true, e) ↦
            rw (authorized, e) (Effect-base r g g' _ refl refl refl (validated-Effect d g'))
        | inr (false, e) ↦ elim (Bool-cases (Attempts.is_banned r.ip r.now g.attempts)) [
          | inl ban ↦ rw (authorized, e, ban) (refl, refl, refl)
          | inr first ↦ rw (authorized, e, first, failed) (refl, refl, refl)
        ]
      ]

  loaded-Effect :
      (p : Parsed) (g : Gateway R)
      → Effect r g (elim p [
        | invalid_json ↦ (bad_json, g)
        | not_object ↦ (bad_payload, g)
        | object d ↦ authorized lib c r d g
      ])
  loaded-Effect invalid_json g = (refl, refl, refl)
  loaded-Effect not_object g = (refl, refl, refl)
  loaded-Effect (object d) g = authorized-Effect d g

  received-Effect : (bytes : Text) (g : Gateway R) → Effect r g (received lib c r bytes g)
  unfolding received
  received-Effect [] g = (refl, refl, refl)
  received-Effect (b ∷ bytes) g = loaded-Effect (lib.loads (b ∷ bytes)) g

  streamed-Effect :
      (s : Read) (g : Gateway R)
      → Effect r g (elim s [
        | body bytes ↦ received lib c r bytes g
        | oversized ↦ (too_large, failed lib c r g)
        | stalled ↦ (timed_out, failed lib c r g)
      ])
  unfolding failed
  streamed-Effect (body bytes) g = received-Effect bytes g
  streamed-Effect oversized g = (refl, refl, refl)
  streamed-Effect stalled g = (refl, refl, refl)

  gated-Effect :
      (b : Bool) (g : Gateway R) (res : Reply × Gateway R)
      → Effect r g res
      → Effect r g (if b then (trading_paused, g) else res)
  gated-Effect true g res h = (refl, refl, refl)
  gated-Effect false g res h = h

  -- Whatever the request holds and whatever the JSON parser and the digests return: when the answer
  -- is `queued`, exactly one pending row with the request's identifier and exactly one background
  -- task were added, with one payload of a positive quantity; with any other answer the rows and
  -- the tasks are as they were. The pause is never changed.
  pub receive_webhook-Effect : (g : Gateway R) → Effect r g (receive_webhook lib c r g)
  unfolding receive_webhook
  receive_webhook-Effect g =
      gated-Effect g.paused g _ (streamed-Effect (read_body c.max_body [] r.events) g)
