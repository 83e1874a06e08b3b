-- ===== src/Orders/Retry/Once.antt =====
-- client/xts_api.py, `execute_trade_with_retry`: when an order is placed a second time, and what a
-- success stands for.
use xts_multi_tennant.Prelude.{
  Bool, Bool-cases, List, Text, [], ap, arith, false, if◌then◌else◌, inl, inr, refl, some, suc, sum,
  text_eq, true, ℕ, ◌&&◌, ◌∷◌, ◌≡◌, ◌⊎◌,
}
use xts_multi_tennant.Orders.Tick.{Side}
use xts_multi_tennant.Orders.Dispatch.{OrderResult, is_success, is_rejected_status}
use xts_multi_tennant.Orders.Dispatch.Halting.{quantities}
use xts_multi_tennant.Orders.Place.{Limits, World, Order, Placed, place_order, execution_quantity}
use xts_multi_tennant.Orders.Place.Safety.{place_order-success, live_contract}
use xts_multi_tennant.Orders.Retry.{
  Verdict, again, answer, verdict, follow, retry_from, world_at, execute_trade_with_retry, err_msg,
  is_failed, is_rms_reject, mentions, auth_words, timeout_words, transient_words,
}

-- Why an order is placed again.
abbrev pub IsAuthFailure : (OrderResult → Text) → OrderResult → Type 0
IsAuthFailure repr r =
    (is_failed r ≡ true)
    × (is_rejected_status r ≡ false)
    × (mentions (err_msg repr r) auth_words ≡ true)
    × (mentions (err_msg repr r) timeout_words ≡ false)
    × (mentions (err_msg repr r) transient_words ≡ false)

module _ (repr : OrderResult → Text) where
  -- A verdict asks for another attempt only after an authentication failure, and what it answers
  -- otherwise is the attempt's own result or no success.
  abbrev Justified : Bool → OrderResult → Verdict → Type 0
  Justified first r again = (first ≡ true) × IsAuthFailure repr r
  Justified first r (answer r') = (r' ≡ r) ⊎ (is_success r' ≡ false)

  rms_lem : (r : OrderResult) → is_rms_reject repr r ≡ false → is_rejected_status r ≡ false
  unfolding is_rms_reject
  rms_lem r h = ground arith

  and_true : (a first : Bool) → (a && first) ≡ true → (a ≡ true) × (first ≡ true)
  and_true true true h = (refl, refl)
  and_true true false h = cc
  and_true false first h = cc

  and_lem : (a first : Bool) → (a && first) ≡ false → first ≡ true → a ≡ false
  and_lem a first h k = ground arith

  last_lem :
      (first : Bool) (r : OrderResult)
      → is_failed r ≡ true
      → is_rms_reject repr r ≡ false
      → (mentions (err_msg repr r) timeout_words && first) ≡ false
      → (mentions (err_msg repr r) transient_words && first) ≡ false
      → Justified first r
          (if mentions (err_msg repr r) auth_words && first then again else answer r)
  last_lem first r failed no_rms in_time kept =
      elim (Bool-cases (mentions (err_msg repr r) auth_words && first)) [
        | inr other ↦ rw other (inl refl)
        | inl both ↦
            let (a, f) = and_true (mentions (err_msg repr r) auth_words) first both in
            rw both (
              f,
              (
                failed,
                rms_lem r no_rms,
                a,
                and_lem (mentions (err_msg repr r) timeout_words) first in_time f,
                and_lem (mentions (err_msg repr r) transient_words) first kept f,
              ),
            )
      ]

  verdict-Justified : (first : Bool) (r : OrderResult) → Justified first r (verdict repr first r)
  unfolding verdict text_eq
  verdict-Justified first r = elim (Bool-cases (is_failed r)) [
    | inr fine ↦ rw (verdict, fine) (inl refl)
    | inl failed ↦ elim (Bool-cases (is_rms_reject repr r)) [
      | inl rms ↦ rw (verdict, failed, rms) (inl refl)
      | inr no_rms ↦ elim (Bool-cases (mentions (err_msg repr r) timeout_words && first)) [
        | inl late ↦ rw (verdict, failed, no_rms, late) (inr refl)
        | inr in_time ↦ elim (Bool-cases (mentions (err_msg repr r) transient_words && first)) [
          | inl drop_out ↦ rw (verdict, failed, no_rms, in_time, drop_out) (inr refl)
          | inr kept ↦
              rw (verdict, failed, no_rms, in_time, kept)
                (last_lem first r failed no_rms in_time kept)
        ]
      ]
    ]
  ]

  -- The placements after the first verdict.
  abbrev pub AtMostTwice : Placed → Placed → List Placed → Type 0
  AtMostTwice p1 p2 placements =
      (placements ≡ p1 ∷ []) ⊎ ((placements ≡ p1 ∷ p2 ∷ []) × IsAuthFailure repr p1.result)

  -- A success is the result of the last placement.
  abbrev IsLast : Placed → Placed → OrderResult × List Placed → Type 0
  IsLast p1 p2 res =
      ((res.1 ≡ p1 ∷ []) × (is_success p1.result ≡ true))
      ⊎ ((res.1 ≡ p1 ∷ p2 ∷ []) × (is_success p2.result ≡ true))

  justified_lem :
      (first : Bool) (r r' : OrderResult)
      → Justified first r (answer r')
      → is_success r' ≡ true
      → is_success r ≡ true
  justified_lem first r r' (inl same) s = rw (← same) s
  justified_lem first r r' (inr bad) s = cc

  -- A verdict on a later attempt asks for none, so that what would follow does not matter.
  last-follow :
      (p : Placed) (rest rest' : OrderResult × List Placed) (v : Verdict)
      → Justified false p.result v
      → (follow repr p rest v ≡ follow repr p rest' v) × ((follow repr p rest v).1 ≡ p ∷ [])
  unfolding follow
  last-follow p rest rest' (answer r) j = (refl, refl)
  last-follow p rest rest' again j = absurd (cc j.0)

  follow-twice :
      (p1 p2 : Placed) (rest : OrderResult × List Placed) (v : Verdict)
      → rest.1 ≡ p2 ∷ []
      → Justified true p1.result v
      → AtMostTwice p1 p2 (follow repr p1 rest v).1
  unfolding follow
  follow-twice p1 p2 rest (answer r) e j = inl refl
  follow-twice p1 p2 rest again e j = inr (rw e refl, j.1)

  follow-same :
      (p : Placed) (rest rest' : OrderResult × List Placed) (v : Verdict)
      → rest ≡ rest'
      → follow repr p rest v ≡ follow repr p rest' v
  follow-same p rest rest' v e = ap (λ r. follow repr p r v) e

  last-success :
      (p : Placed) (rest : OrderResult × List Placed) (v : Verdict)
      → Justified false p.result v
      → is_success (follow repr p rest v).0 ≡ true
      → is_success p.result ≡ true
  unfolding follow
  last-success p rest (answer r) j s = justified_lem false p.result r j s
  last-success p rest again j s = absurd (cc j.0)

  follow-IsLast :
      (p1 p2 : Placed) (rest : OrderResult × List Placed) (v : Verdict)
      → rest.1 ≡ p2 ∷ []
      → (is_success rest.0 ≡ true → is_success p2.result ≡ true)
      → Justified true p1.result v
      → is_success (follow repr p1 rest v).0 ≡ true
      → IsLast p1 p2 (follow repr p1 rest v)
  unfolding follow
  follow-IsLast p1 p2 rest (answer r) e f j s = inl (refl, justified_lem true p1.result r j s)
  follow-IsLast p1 p2 rest again e f j s = inr (rw e refl, f s)

  module _ (c : Limits) (side : Side) (symbol : Text) (quantity tv_price : ℕ)
      (order_ref : Text) where
    abbrev placed : World → Bool → Placed
    placed w is_paper = place_order c w side symbol quantity tv_price order_ref is_paper

    -- What the function does on some fuel.
    abbrev run : (ℕ → World) → Bool → ℕ → ℕ → ℕ → OrderResult × List Placed
    run worlds is_paper fuel n attempt =
        retry_from repr c worlds side symbol quantity tv_price order_ref is_paper fuel n attempt

    second_lem :
        (worlds : ℕ → World) (is_paper : Bool) (fuel : ℕ)
        → (run worlds is_paper (suc fuel) 1 2 ≡ run worlds is_paper 1 1 2)
          × ((run worlds is_paper (suc fuel) 1 2).1 ≡ placed (worlds 1) is_paper ∷ [])
    unfolding retry_from
    second_lem worlds is_paper fuel =
        last-follow (placed (worlds 1) is_paper) _ _ _
          (verdict-Justified false (placed (worlds 1) is_paper).result)

    -- However much fuel beyond two placements the function has, and whatever the worlds of the
    -- attempts are, it does the same: the order is placed at most twice, and the second time only if
    -- the first attempt failed, its status is not `rejected`, and its message speaks of a token, a
    -- session or authentication and neither of a timeout nor of a lost connection.
    pub execute_trade-twice :
        (worlds : ℕ → World) (is_paper : Bool) (fuel : ℕ)
        → (retry_from repr c worlds side symbol quantity tv_price order_ref is_paper
              (suc (suc fuel))
              0
              1
            ≡ retry_from repr c worlds side symbol quantity tv_price order_ref is_paper 2 0 1)
          × AtMostTwice
              (placed (worlds 0) is_paper)
              (placed (worlds 1) is_paper)
              (retry_from repr c worlds side symbol quantity tv_price order_ref is_paper
                (suc (suc fuel))
                0
                1).1
    unfolding retry_from
    execute_trade-twice worlds is_paper fuel =
        let p1 = placed (worlds 0) is_paper in
        (
          follow-same p1 _ _ (verdict repr true p1.result) (second_lem worlds is_paper fuel).0,
          follow-twice p1 (placed (worlds 1) is_paper) _ (verdict repr true p1.result)
              (second_lem worlds is_paper fuel).1 (verdict-Justified true p1.result),
        )

    module _ (w1 w2 : World) where
      -- The world of the last placement, which posted exactly the order's quantity.
      abbrev pub PostsAll : World → Placed → Type 0
      PostsAll w p =
          (o : Order) × (p.live ≡ some o)
          × (sum (quantities o.posts) ≡ execution_quantity c (live_contract c w) quantity)

      -- The last of the placements posted exactly the order's quantity.
      abbrev pub LastPostsAll : List Placed → Type 0
      LastPostsAll placements =
          ((placements ≡ placed w1 false ∷ []) × PostsAll w1 (placed w1 false))
          ⊎ ((placements ≡ placed w1 false ∷ placed w2 false ∷ []) × PostsAll w2 (placed w2 false))

      -- A live order (neither it nor the bot is a paper one) whose answer is of type `success`: its
      -- last placement reached the broker, and exactly the order's quantity was posted by it.
      pub execute_trade-success :
          c.paper_mode ≡ false
          → is_success
              (execute_trade_with_retry repr c w1 w2 side symbol quantity tv_price order_ref
                false).0
            ≡ true
          → LastPostsAll
              (execute_trade_with_retry repr c w1 w2 side symbol quantity tv_price order_ref
                false).1
      unfolding execute_trade_with_retry retry_from
      execute_trade-success live s =
          let worlds = world_at w1 w2 in
          elim (follow-IsLast (placed w1 false) (placed w2 false) _ _ (second_lem worlds false 0).1
            (last-success (placed w2 false) _ _ (verdict-Justified false (placed w2 false).result))
            (verdict-Justified true (placed w1 false).result) s) [
              | inl (e, ok) ↦
                  inl (e, place_order-success c w1 side symbol quantity tv_price order_ref live ok)
              | inr (e, ok) ↦
                  inr (e, place_order-success c w2 side symbol quantity tv_price order_ref live ok)
            ]
