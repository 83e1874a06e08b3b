-- ===== src/Gateway/Recovery/Safety.antt =====
-- client/main.py, `process_recovery`: what becomes of the unfinished signals.
use xts_multi_tennant.Prelude.{
  All, Bool, Bool-cases, List, Option, Option-cases, Text, [], arith, codes, contains, false, inl,
  inr, leb, map, none, refl, sym, text_eq, true, ℕ, ◌&&◌, ◌++◌, ◌-◌, ◌==◌, ◌||◌, ◌∙◌, ◌∷◌, ◌≡◌,
}
use xts_multi_tennant.Orders.Book.{Reports}
use xts_multi_tennant.Orders.Dispatch.{is_any_of}
use xts_multi_tennant.Gateway.Store.{
  Row, is_unfinished, db_fetch_unfinished, without, fetch_unfinished-update,
}
use xts_multi_tennant.Gateway.Webhook.{Payload}
use xts_multi_tennant.Gateway.Execution.{Audit}
use xts_multi_tennant.Gateway.Recovery.{
  normalize, non_terminal_broker_statuses, terminal_failed_statuses, Decision, requeue, finish,
  is_processing, decide_by_status, decide, apply_decision, requeued, process_recovery,
}

-- A decision that ends a signal gives it a final status.
abbrev IsFinal : Decision → Type 0
IsFinal requeue = Unit
IsFinal (finish status audit) = is_unfinished status ≡ false

decide_by_status-IsFinal :
    (processing : Bool) (broker_status : Text) → IsFinal (decide_by_status processing broker_status)
unfolding is_unfinished decide_by_status
decide_by_status-IsFinal processing broker_status =
    let st = normalize broker_status in
    elim (Bool-cases (is_any_of st non_terminal_broker_statuses)) [
      | inl live ↦ rw (decide_by_status, live) refl
      | inr no_live ↦ elim (Bool-cases (is_any_of st terminal_failed_statuses)) [
        | inl over ↦ rw (decide_by_status, no_live, over) refl
        | inr no_over ↦ elim (Bool-cases (text_eq broker_status (codes "NETWORK_ERROR"))) [
          | inl net ↦ rw (decide_by_status, no_live, no_over, net) refl
          | inr no_net ↦
              elim (Bool-cases (text_eq broker_status (codes "NOT_FOUND") && processing)) [
                | inl lost ↦ rw (decide_by_status, no_live, no_over, no_net, lost) refl
                | inr no_lost ↦ rw (decide_by_status, no_live, no_over, no_net, no_lost) tt
              ]
        ]
      ]
    ]

abbrev ids : List (Row Payload Audit) → List ℕ
ids rows = map (λ row. row.id) rows

-- Every unfinished signal satisfies a test on its identifier.
abbrev pub AllUnfinished : (ℕ → Bool) → List (Row Payload Audit) → Type 0
AllUnfinished p rows = All (λ row. p row.id ≡ true) (db_fetch_unfinished rows)

All-without :
    (p q : ℕ → Bool) (id : ℕ) (rows : List (Row Payload Audit))
    → ((i : ℕ) → p i ≡ true → (i == id) ≡ false → q i ≡ true)
    → All (λ row. p row.id ≡ true) rows
    → All (λ row. q row.id ≡ true) (without id rows)
unfolding without
All-without p q id [] f h = tt
All-without p q id (row ∷ rows) f h = elim (Bool-cases (row.id == id)) [
  | inl same ↦ rw same (All-without p q id rows f h.1)
  | inr other ↦ rw other (f row.id h.0 other, All-without p q id rows f h.1)
]

All-implies :
    (p q : ℕ → Bool) (rows : List (Row Payload Audit))
    → ((i : ℕ) → p i ≡ true → q i ≡ true)
    → All (λ row. p row.id ≡ true) rows
    → All (λ row. q row.id ≡ true) rows
All-implies p q [] f h = tt
All-implies p q (row ∷ rows) f h = (f row.id h.0, All-implies p q rows f h.1)

module _ (load_error : Payload → Option Text) (stale_window now_time : ℕ)
    (book : Row Payload Audit → Reports) where
  decide-IsFinal :
      (row : Row Payload Audit) → IsFinal (decide load_error stale_window now_time book row)
  unfolding decide is_unfinished
  decide-IsFinal row = elim (Option-cases (load_error row.payload)) [
    | inr (e, raised) ↦ rw (decide, raised) refl
    | inl fine ↦
        elim (Bool-cases
          (leb (now_time - row.received_at) stale_window || is_processing row.status)) [
            | inl recent ↦
                rw (decide, fine, recent) (decide_by_status-IsFinal (is_processing row.status) _)
            | inr old ↦ rw (decide, fine, old) refl
          ]
  ]

  -- The identifiers that are still to be looked at, or were queued for another execution.
  pending_lem : (a b c : Bool) → ((a || b) || c) ≡ true → (b || ((a || false) || c)) ≡ true
  pending_lem a b c h = ground arith

  final_lem : (a b c : Bool) → ((a || b) || c) ≡ true → a ≡ false → (b || (false || c)) ≡ true
  final_lem a b c h k = ground arith

  apply-AllUnfinished :
      (base : ℕ → Bool) (rest : List ℕ) (row : Row Payload Audit) (d : Decision)
      (rows : List (Row Payload Audit))
      → IsFinal d
      → AllUnfinished (λ i. contains i (row.id ∷ rest) || base i) rows
      → AllUnfinished
          (λ i.
            contains i rest
            || (contains i (requeued load_error stale_window now_time book row d) || base i))
          (apply_decision load_error stale_window now_time book row d rows)
  unfolding apply_decision requeued
  apply-AllUnfinished base rest row requeue rows final h =
      All-implies _ _ (db_fetch_unfinished rows)
        (λ i k. pending_lem (i == row.id) (contains i rest) (base i) k) h
  apply-AllUnfinished base rest row (finish status audit) rows final h =
      rw (fetch_unfinished-update row.id status audit none now_time rows final) (
        All-without _ _ row.id (db_fetch_unfinished rows)
          (λ i k other. final_lem (i == row.id) (contains i rest) (base i) k other) h)

  contains-append :
      (i : ℕ) (xs ys : List ℕ) → contains i (xs ++ ys) ≡ (contains i xs || contains i ys)
  contains-append i [] ys = refl
  contains-append i (x ∷ xs) ys = ground (arith, contains-append i xs ys)

  or_lem : (a b c : Bool) → (b || (a || c)) ≡ true → ((a || b) || c) ≡ true
  or_lem a b c h = ground arith

  process-AllUnfinished :
      (base : ℕ → Bool) (unfinished rows : List (Row Payload Audit))
      → AllUnfinished (λ i. contains i (ids unfinished) || base i) rows
      → (let res = process_recovery load_error stale_window now_time book unfinished rows in
          AllUnfinished (λ i. contains i res.1 || base i) res.0)
  unfolding process_recovery
  process-AllUnfinished base [] rows h = h
  process-AllUnfinished base (row ∷ unfinished) rows h =
      let d = decide load_error stale_window now_time book row in
      let again = requeued load_error stale_window now_time book row d in
      let rows' = apply_decision load_error stale_window now_time book row d rows in
      let rest = process_recovery load_error stale_window now_time book unfinished rows' in
      All-implies _ _ (db_fetch_unfinished rest.0)
        (λ i k.
          rw (contains-append i again rest.1)
            (or_lem (contains i again) (contains i rest.1) (base i) k))
        (process-AllUnfinished (λ i. contains i again || base i) unfinished rows'
          (apply-AllUnfinished base (ids unfinished) row d rows (decide-IsFinal row) h))

  All-self :
      (p : ℕ → Bool) (rows : List (Row Payload Audit))
      → ((i : ℕ) → contains i (ids rows) ≡ true → p i ≡ true)
      → All (λ row. p row.id ≡ true) rows
  All-self p [] f = tt
  All-self p (row ∷ rows) f = (f row.id (ground arith), All-self p rows (λ i k. f i (ground arith)))

  or_false : (b : Bool) → (b || false) ≡ b
  or_false true = refl
  or_false false = refl

  -- Whatever the order book and the payloads hold: after the recovery of the unfinished signals,
  -- every signal that is still unfinished was queued for another execution.
  pub recovery-covers :
      (rows : List (Row Payload Audit))
      → (let res =
            process_recovery load_error stale_window now_time book
              (db_fetch_unfinished rows)
              rows in
          AllUnfinished (λ i. contains i res.1) res.0)
  recovery-covers rows =
      let res =
        process_recovery load_error stale_window now_time book (db_fetch_unfinished rows) rows in
      All-implies _ _ (db_fetch_unfinished res.0) (λ i k. sym (or_false (contains i res.1)) ∙ k)
        (process-AllUnfinished (λ i. false) (db_fetch_unfinished rows) rows
          (All-self _ (db_fetch_unfinished rows)
            (λ i k. or_false (contains i (ids (db_fetch_unfinished rows))) ∙ k)))
