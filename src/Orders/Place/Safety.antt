-- ===== src/Orders/Place/Safety.antt =====
-- client/xts_api.py, `place_order`: what holds whenever an order reaches the broker.
use xts_multi_tennant.Prelude.{
  Bool, Bool-cases, List, Option-cases, Text, arith, false, inl, inr, none, not, pos, refl, some,
  strip, sum, text_eq, true, ℕ, ◌%◌, ◌&&◌, ◌/◌, ◌==◌, ◌||◌, ◌≡◌, ◌≤◌, ◌⊎◌,
}
use xts_multi_tennant.Orders.Book.{is_empty}
use xts_multi_tennant.Orders.Tick.{Side}
use xts_multi_tennant.Orders.Slicing.{slice_quantity_for_freeze, sum-slice, slice-positive}
use xts_multi_tennant.Orders.Dispatch.{is_success, execute_live}
use xts_multi_tennant.Orders.Dispatch.Halting.{quantities}
use xts_multi_tennant.Orders.Dispatch.Summary.{execute_live-bounded, execute_live-success}
use xts_multi_tennant.Market.Hours.{is_market_open_ist}
use xts_multi_tennant.Orders.Place.{
  Limits, Contract, World, Order, refuse, with_defaults, execution_quantity, quantity_error,
  is_equity_segment, paper_contract, execute, admit, resolve, place_order,
}

-- The segment is one of equities, the lot is one unit, or it divides the quantity, which has a lot.
abbrev pub InLots : Contract → ℕ → Type 0
InLots k qty =
    (is_equity_segment k.exch_seg ≡ true)
    ⊎ (k.lot_size ≤ 1)
    ⊎ ((qty % k.lot_size ≡ 0) × (k.lot_size ≤ qty))

quantity_error-none :
    (c : Limits) (k : Contract) (qty : ℕ)
    → quantity_error c k qty ≡ none
    → InLots k qty × (qty / k.lot_size ≤ c.max_lots) × (qty ≤ c.max_units)
unfolding quantity_error
quantity_error-none c k qty h = (ground arith, ground arith, ground arith)

module _ (c : Limits) (w : World) where
  -- The chunks that `execute` cuts an order into.
  abbrev chunks_of : Contract → ℕ → List ℕ
  chunks_of k qty =
      slice_quantity_for_freeze (pos qty) (some (pos k.freeze_qty)) (some (pos k.lot_size))

  execute-bounded :
      (paper : Bool) (side : Side) (qty tv_price : ℕ) (order_ref : Text) (k : Contract) (o : Order)
      → (execute c w paper side qty tv_price order_ref k).live ≡ some o
      → (paper ≡ false) × (is_empty (strip c.client_id) ≡ false) × (sum (quantities o.posts) ≤ qty)
  unfolding execute refuse
  execute-bounded paper side qty tv_price order_ref k o h =
      let posts = (execute_live w.exchanges order_ref qty (chunks_of k qty)).1 in
      let bounded =
        execute_live-bounded w.exchanges order_ref qty (chunks_of k qty) (sum-slice _ _ _) in
      elim (Bool-cases paper) [
        | inl sim ↦ elim (Bool-cases (is_empty (strip c.client_id))) [
          | inl anon ↦ cc (rw (sim, anon) at h)
          | inr named ↦ cc (rw (sim, named) at h)
        ]
        | inr live ↦ elim (Bool-cases (is_empty (strip c.client_id))) [
          | inl anon ↦ cc (rw (live, anon) at h)
          | inr named ↦
              let e : posts ≡ o.posts = cc (rw (live, named) at h) in
              (live, named, rw (← e) bounded)
        ]
      ]

  execute-success :
      (side : Side) (qty tv_price : ℕ) (order_ref : Text) (k : Contract)
      → is_success (execute c w false side qty tv_price order_ref k).result ≡ true
      → (o : Order) × ((execute c w false side qty tv_price order_ref k).live ≡ some o)
        × (sum (quantities o.posts) ≡ qty)
  unfolding execute refuse text_eq
  execute-success side qty tv_price order_ref k s =
      let all_sent =
        execute_live-success w.exchanges order_ref qty (chunks_of k qty) (slice-positive _ _ _)
          (sum-slice _ _ _) in
      elim (Bool-cases (is_empty (strip c.client_id))) [
        | inl anon ↦ cc (rw anon at s)
        | inr named ↦ rw named (_, refl, all_sent (rw named at s))
      ]

  -- Past the gate of the market hours.
  abbrev pub in_hours : Contract → Bool
  in_hours k = not c.enforce_hours || is_market_open_ist c.hours k.exch_seg w.now false

  -- What an order that reaches the broker satisfies.
  abbrev pub IsGuarded : Bool → Contract → ℕ → Order → Type 0
  IsGuarded paper k qty o =
      (paper ≡ false)
      × (is_empty (strip c.client_id) ≡ false)
      × (in_hours k ≡ true)
      × InLots k qty
      × (qty / k.lot_size ≤ c.max_lots)
      × (qty ≤ c.max_units)
      × (sum (quantities o.posts) ≤ qty)

  hours_lem :
      (paper enforce open_now : Bool)
      → (not paper && enforce && not open_now) ≡ false
      → paper ≡ false
      → (not enforce || open_now) ≡ true
  hours_lem paper enforce open_now h p = ground arith

  admit-IsGuarded :
      (paper : Bool) (side : Side) (symbol : Text) (quantity tv_price : ℕ) (order_ref : Text)
      (k : Contract) (o : Order)
      → (admit c w paper side symbol quantity tv_price order_ref k).live ≡ some o
      → IsGuarded paper k (execution_quantity c k quantity) o
  unfolding admit refuse
  admit-IsGuarded paper side symbol quantity tv_price order_ref k o h =
      let qty = execution_quantity c k quantity in
      let is_open = is_market_open_ist c.hours k.exch_seg w.now false in
      elim (Bool-cases (not paper && c.enforce_hours && not is_open)) [
        | inl closed ↦ cc (rw closed at h)
        | inr in_time ↦ elim (Option-cases (quantity_error c k qty)) [
          | inr (message, e) ↦ cc (rw (in_time, e) at h)
          | inl fine ↦
              let b =
                execute-bounded paper side qty tv_price order_ref k o (rw (in_time, fine) at h) in
              let l = quantity_error-none c k qty fine in
              (b.0, b.1, hours_lem paper c.enforce_hours is_open in_time b.0, l.0, l.1, l.2, b.2)
        ]
      ]

  admit-success :
      (side : Side) (symbol : Text) (quantity tv_price : ℕ) (order_ref : Text) (k : Contract)
      → is_success (admit c w false side symbol quantity tv_price order_ref k).result ≡ true
      → (o : Order) × ((admit c w false side symbol quantity tv_price order_ref k).live ≡ some o)
        × (sum (quantities o.posts) ≡ execution_quantity c k quantity)
  unfolding admit refuse text_eq
  admit-success side symbol quantity tv_price order_ref k s =
      let qty = execution_quantity c k quantity in
      let is_open = is_market_open_ist c.hours k.exch_seg w.now false in
      elim (Bool-cases (c.enforce_hours && not is_open)) [
        | inl closed ↦ cc (rw closed at s)
        | inr in_time ↦ elim (Option-cases (quantity_error c k qty)) [
          | inr (message, e) ↦ cc (rw (in_time, e) at s)
          | inl fine ↦
              rw (in_time, fine)
                (execute-success side qty tv_price order_ref k (rw (in_time, fine) at s))
        ]
      ]

  -- The contract with which a live order goes out.
  abbrev pub live_contract : Contract
  live_contract = with_defaults c w.contract

  resolve-IsGuarded :
      (paper token unresolved : Bool) (side : Side) (symbol : Text) (quantity tv_price : ℕ)
      (order_ref : Text) (o : Order)
      → (resolve c w paper token unresolved side symbol quantity tv_price order_ref).live ≡ some o
      → (token ≡ true)
        × (unresolved ≡ false)
        × IsGuarded paper live_contract (execution_quantity c live_contract quantity) o
  unfolding resolve refuse
  resolve-IsGuarded true token true side symbol quantity tv_price order_ref o h =
      let k = with_defaults c (paper_contract symbol) in
      absurd (cc (admit-IsGuarded true side symbol quantity tv_price order_ref k o h).0)
  resolve-IsGuarded true token false side symbol quantity tv_price order_ref o h =
      absurd (cc (admit-IsGuarded true side symbol quantity tv_price order_ref live_contract o h).0)
  resolve-IsGuarded false true false side symbol quantity tv_price order_ref o h =
      (refl, refl, admit-IsGuarded false side symbol quantity tv_price order_ref live_contract o h)
  resolve-IsGuarded false true true side symbol quantity tv_price order_ref o h = cc
  resolve-IsGuarded false false unresolved side symbol quantity tv_price order_ref o h = cc

  resolve-success :
      (paper token unresolved : Bool) (side : Side) (symbol : Text) (quantity tv_price : ℕ)
      (order_ref : Text)
      → paper ≡ false
      → is_success
          (resolve c w paper token unresolved side symbol quantity tv_price order_ref).result
        ≡ true
      → (o : Order) × ((resolve c w paper token unresolved side symbol quantity tv_price
            order_ref).live
          ≡ some o)
        × (sum (quantities o.posts) ≡ execution_quantity c live_contract quantity)
  unfolding resolve refuse text_eq
  resolve-success true token unresolved side symbol quantity tv_price order_ref live s = cc
  resolve-success false true false side symbol quantity tv_price order_ref live s =
      admit-success side symbol quantity tv_price order_ref live_contract s
  resolve-success false true true side symbol quantity tv_price order_ref live s = cc
  resolve-success false false unresolved side symbol quantity tv_price order_ref live s = cc

  -- An order reaches the broker only if neither the order nor the bot is a paper one, there is a
  -- token, the contract is resolved, the client's identifier is not blank and the market is open (or
  -- its hours are not enforced); outside the equity segments its quantity is a multiple of the lot
  -- and at least one lot; it is within the caps on lots and on units, and what is posted, in however
  -- many chunks, is no more than that quantity.
  pub place_order-IsGuarded :
      (side : Side) (symbol : Text) (quantity tv_price : ℕ) (order_ref : Text) (is_paper : Bool)
      (o : Order)
      → (place_order c w side symbol quantity tv_price order_ref is_paper).live ≡ some o
      → (w.has_token ≡ true)
        × ((w.contract.instrument_id == 0) ≡ false)
        × IsGuarded
            (is_paper || c.paper_mode)
            live_contract
            (execution_quantity c live_contract quantity)
            o
  unfolding place_order
  place_order-IsGuarded side symbol quantity tv_price order_ref is_paper o h =
      resolve-IsGuarded (is_paper || c.paper_mode) w.has_token (w.contract.instrument_id == 0) side
        symbol quantity tv_price order_ref o h

  -- A live order (neither it nor the bot is a paper one) whose answer is of type `success` was sent
  -- to the broker, and exactly its quantity was posted.
  pub place_order-success :
      (side : Side) (symbol : Text) (quantity tv_price : ℕ) (order_ref : Text)
      → c.paper_mode ≡ false
      → is_success (place_order c w side symbol quantity tv_price order_ref false).result ≡ true
      → (o : Order) × ((place_order c w side symbol quantity tv_price order_ref false).live
          ≡ some o)
        × (sum (quantities o.posts) ≡ execution_quantity c live_contract quantity)
  unfolding place_order
  place_order-success side symbol quantity tv_price order_ref live s =
      resolve-success c.paper_mode w.has_token (w.contract.instrument_id == 0) side symbol quantity
        tv_price order_ref live s
