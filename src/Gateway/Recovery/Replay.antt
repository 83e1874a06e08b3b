-- ===== src/Gateway/Recovery/Replay.antt =====
-- client/main.py, `process_recovery`: what it does with an order that is at the broker.
use xts_multi_tennant.Prelude.{
  Bool, Bool-cases, List, Option, Option-cases, Text, [], all, ap, arith, codes, contains, false,
  inl, inr, leb, map, not, refl, text_eq, true, upper, ℕ, ◌&&◌, ◌-◌, ◌||◌, ◌∙◌, ◌∷◌, ◌≡◌, ◌⊎◌,
}
use xts_multi_tennant.Orders.Book.{
  Reports, Order, orders, code, check_order_status_by_ref, status_by_ref, status_name,
  status_of_code, lookup, xts_status_code_map, is_empty,
}
use xts_multi_tennant.Orders.Ref.{decimal}
use xts_multi_tennant.Orders.Dispatch.{is_any_of}
use xts_multi_tennant.Gateway.Store.{Row}
use xts_multi_tennant.Gateway.Webhook.{Payload}
use xts_multi_tennant.Gateway.Execution.{Audit}
use xts_multi_tennant.Gateway.Recovery.{
  normalize, non_terminal_broker_statuses, terminal_failed_statuses, Decision, requeue, finish,
  is_processing, decide_by_status, decide, requeued,
}

-- A status that one of the two lists names.
is_listed : Text → Bool
is_listed st =
    is_any_of (normalize st) non_terminal_broker_statuses
    || is_any_of (normalize st) terminal_failed_statuses

-- The broker's code of a status that the bot knows.
abbrev pub is_known_code : ℕ → Bool
is_known_code n = contains n (map (λ e. e.0) xts_status_code_map)

lookup-listed :
    (n : ℕ) (default : Text) (table : List (ℕ × Text))
    → all (λ e. is_listed e.1) table ≡ true
    → contains n (map (λ e. e.0) table) ≡ true
    → is_listed (lookup n default table) ≡ true
unfolding lookup
lookup-listed n default [] h k = cc
lookup-listed n default ((m, name) ∷ table) h k = ground (arith, lookup-listed n default table)

codes-listed : all (λ e. is_listed e.1) xts_status_code_map ≡ true
unfolding is_listed normalize is_any_of text_eq upper
codes-listed = refl

-- The first order with the reference has the code.
abbrev pub AtBroker : Text → ℕ → List Order → Type 0
AtBroker order_ref n [] = ⊥
AtBroker order_ref n (o ∷ os) =
    ((text_eq o.unique_id order_ref ≡ true) × (is_empty o.unique_id ≡ false) × (o.status ≡ code n))
    ⊎ ((text_eq o.unique_id order_ref ≡ false) × AtBroker order_ref n os)

hit_lem :
    (order_ref : Text) (o : Order) (os : List Order)
    → text_eq o.unique_id order_ref ≡ true
    → is_empty o.unique_id ≡ false
    → status_by_ref order_ref (o ∷ os) ≡ status_name (codes "UNKNOWN") o.status
unfolding status_by_ref
hit_lem order_ref o os same set =
    let hit : (not (is_empty o.unique_id) && text_eq o.unique_id order_ref) ≡ true =
      rw (set, same) refl in
    rw hit refl

miss_lem :
    (order_ref : Text) (o : Order) (os : List Order)
    → text_eq o.unique_id order_ref ≡ false
    → status_by_ref order_ref (o ∷ os) ≡ status_by_ref order_ref os
unfolding status_by_ref
miss_lem order_ref o os other = elim (Bool-cases (is_empty o.unique_id)) [
  | inl unset ↦ rw unset refl
  | inr set ↦ rw (set, other) refl
]

known_lem :
    (n : ℕ) → is_known_code n ≡ true → is_listed (status_name (codes "UNKNOWN") (code n)) ≡ true
unfolding status_name status_of_code
known_lem n known = lookup-listed n (decimal n) xts_status_code_map codes-listed known

status_by_ref-listed :
    (order_ref : Text) (n : ℕ) (os : List Order)
    → is_known_code n ≡ true
    → AtBroker order_ref n os
    → is_listed (check_order_status_by_ref (orders os) order_ref) ≡ true
unfolding check_order_status_by_ref
status_by_ref-listed order_ref n [] known at_broker = absurd at_broker
status_by_ref-listed order_ref n (o ∷ os) known (inl (same, set, e)) =
    rw (hit_lem order_ref o os same set)
      (ap (λ st. is_listed (status_name (codes "UNKNOWN") st)) e ∙ known_lem n known)
status_by_ref-listed order_ref n (o ∷ os) known (inr (other, later)) =
    rw (miss_lem order_ref o os other) (status_by_ref-listed order_ref n os known later)

module _ (load_error : Payload → Option Text) (stale_window now_time : ℕ)
    (book : Row Payload Audit → Reports) where
  -- An order whose status is listed is not executed again, whatever else is decided.
  IsSettled : Decision → Type 0
  IsSettled requeue = ⊥
  IsSettled (finish status audit) = Unit

  listed-IsSettled :
      (processing : Bool) (st : Text)
      → is_listed st ≡ true
      → IsSettled (decide_by_status processing st)
  unfolding is_listed decide_by_status IsSettled
  listed-IsSettled processing st h =
      elim (Bool-cases (is_any_of (normalize st) non_terminal_broker_statuses)) [
        | inl live ↦ rw (decide_by_status, live) tt
        | inr no_live ↦
            let over : is_any_of (normalize st) terminal_failed_statuses ≡ true = rw no_live at h in
            rw (decide_by_status, no_live, over) tt
      ]

  decide-IsSettled :
      (row : Row Payload Audit)
      → is_listed (check_order_status_by_ref (book row) row.payload.order_ref) ≡ true
      → IsSettled (decide load_error stale_window now_time book row)
  unfolding decide IsSettled
  decide-IsSettled row listed = elim (Option-cases (load_error row.payload)) [
    | inr (error, raised) ↦ rw (decide, raised) tt
    | inl fine ↦
        elim (Bool-cases
          (leb (now_time - row.received_at) stale_window || is_processing row.status)) [
            | inr old ↦ rw (decide, fine, old) tt
            | inl recent ↦
                rw (decide, fine, recent) (listed-IsSettled (is_processing row.status) _ listed)
          ]
  ]

  requeued-IsSettled :
      (row : Row Payload Audit) (d : Decision)
      → IsSettled d
      → requeued load_error stale_window now_time book row d ≡ []
  unfolding requeued IsSettled
  requeued-IsSettled row requeue h = absurd h
  requeued-IsSettled row (finish status audit) h = refl

  -- A signal whose order is in the broker's order book, with a status code that the bot knows, is
  -- not executed again, whatever the stored status and the age of the signal.
  pub recovery-known :
      (row : Row Payload Audit) (n : ℕ) (os : List Order)
      → book row ≡ orders os
      → is_known_code n ≡ true
      → AtBroker row.payload.order_ref n os
      → requeued load_error stale_window now_time book row
          (decide load_error stale_window now_time book row)
        ≡ []
  recovery-known row n os e known at_broker =
      let listed : is_listed (check_order_status_by_ref (book row) row.payload.order_ref) ≡ true =
        rw e (status_by_ref-listed row.payload.order_ref n os known at_broker) in
      requeued-IsSettled row (decide load_error stale_window now_time book row)
        (decide-IsSettled row listed)
