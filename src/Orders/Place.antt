-- ===== src/Orders/Place.antt =====
-- client/xts_api.py, `place_order`: the gates before the dispatch, paper orders, and the whole. The
-- token, the contract (`get_dynamic_contract_info`) and the live price are arguments. Prices are in
-- micro-rupees, the slippage in millionths with its product rounded down; quantities, lots, ticks
-- and limits are natural numbers, the quantity at least 1 as at both callers: at 0 the source raises
-- an IndexError, which is not modelled, nor is the file of paper trades.
pub mod Safety
use xts_multi_tennant.Prelude.{
  Bool, List, Option, Text, [], any, codes, false, if◌then◌else◌, is_infix, length, ltb, ltb_ℤ, max,
  none, not, pos, pos_part, some, strip, suc, true, upper, zero, ℕ, ℤ, ◌%◌, ◌&&◌, ◌*◌, ◌++◌, ◌+◌,
  ◌-ℤ◌, ◌/◌, ◌==◌, ◌||◌, ◌∷◌,
}
use xts_multi_tennant.Orders.Tick.{Amount, finite, Side, buy, sell, unit, apply_tick_size}
use xts_multi_tennant.Orders.Slicing.{slice_quantity_for_freeze}
use xts_multi_tennant.Orders.Ref.{decimal, format_order_ref_chunk}
use xts_multi_tennant.Orders.Dispatch.{
  Exchange, OrderResult, Post, blank, error_result, execute_live, is_any_of,
}
use xts_multi_tennant.Market.Hours.{Settings, is_market_open_ist}
use xts_multi_tennant.Orders.Book.{is_empty}

pub record Limits : Type 0 where
  pub paper_mode : Bool
  pub enforce_hours : Bool
  pub hours : Settings
  pub default_product : Text
  pub tv_sends_lots : Bool
  pub default_freeze : ℕ
  pub max_lots : ℕ
  pub max_units : ℕ
  pub slippage : ℕ
  pub client_id : Text

-- The first six of `get_dynamic_contract_info`; 0 and the empty text are missing values.
pub record Contract : Type 0 where
  pub instrument_id : ℕ
  pub exch_seg : Text
  pub prod_type : Text
  pub tick_size : ℕ
  pub lot_size : ℕ
  pub freeze_qty : ℕ

-- What the world holds when an order is placed: whether there is a token, the contract of the
-- symbol, the live price (0 where there is none or the token has expired), the time in
-- seconds and in milliseconds, and what happens to each chunk.
pub record World : Type 0 where
  pub has_token : Bool
  pub contract : Contract
  pub live_price : ℤ
  pub now : ℕ
  pub now_ms : ℕ
  pub exchanges : ℕ → Exchange

abbrev pub or_nat : ℕ → ℕ → ℕ
or_nat zero d = d
or_nat (suc n) d = suc n

abbrev pub is_equity_segment : Text → Bool
is_equity_segment seg = is_any_of seg (codes "NSECM" ∷ codes "BSECM" ∷ [])

-- The contract of a paper order whose symbol is not resolved.
unfoldable pub paper_contract : Text → Contract
paper_contract symbol = record {
  instrument_id = 99999;
  exch_seg =
      if is_infix (codes "MCX") symbol
        || any (λ k. is_infix k symbol)
            (codes "CRUDE" ∷ codes "GOLD" ∷ codes "SILVER" ∷ codes "NAT" ∷ [])
      then codes "MCXFO"
      else codes "NSEFO";
  prod_type = codes "NRML";
  tick_size = 50_000;
  lot_size = 1;
  freeze_qty = 100_000;
}

-- `int(lot_size or 1)` and its likes.
unfoldable pub with_defaults : Limits → Contract → Contract
with_defaults c k = record {
  instrument_id = k.instrument_id;
  exch_seg = elim k.exch_seg [ [] ↦ codes "MCXFO" | x ∷ s ↦ x ∷ s ];
  prod_type =
      let product = upper (strip c.default_product) in
      if is_any_of product (codes "NRML" ∷ codes "MIS" ∷ codes "CNC" ∷ [])
      then product
      else k.prod_type;
  tick_size = or_nat k.tick_size 50_000;
  lot_size = or_nat k.lot_size 1;
  freeze_qty = or_nat k.freeze_qty c.default_freeze;
}

unfoldable pub execution_quantity : Limits → Contract → ℕ → ℕ
execution_quantity c k quantity =
    if c.tv_sends_lots && not (is_equity_segment k.exch_seg)
    then quantity * k.lot_size
    else quantity

-- The message of the first check that refuses the quantity.
unfoldable pub quantity_error : Limits → Contract → ℕ → Option Text
quantity_error c k qty =
    let lots = qty / k.lot_size in
    let in_lots = not (is_equity_segment k.exch_seg) && ltb 1 k.lot_size in
    if in_lots && not (qty % k.lot_size == 0)
    then some (
        codes "Quantity ("
        ++ decimal qty
        ++ codes ") must be a multiple of lot size ("
        ++ decimal k.lot_size
        ++ codes ") for "
        ++ k.exch_seg)
    else if in_lots && ltb qty k.lot_size
    then some (
        codes "Quantity ("
        ++ decimal qty
        ++ codes ") cannot be less than lot size ("
        ++ decimal k.lot_size
        ++ codes ") for "
        ++ k.exch_seg)
    else if ltb c.max_lots lots
    then some (
        codes "Order lots ("
        ++ decimal lots
        ++ codes ") exceed safety cap ("
        ++ decimal c.max_lots
        ++ codes ")")
    else if ltb c.max_units qty
    then some (
        codes "Quantity ("
        ++ decimal qty
        ++ codes ") exceeds max safety units ("
        ++ decimal c.max_units
        ++ codes ")")
    else none

-- `base_price`: the live price, the signal's, or one rupee.
unfoldable pub base_price : ℤ → ℕ → ℕ
base_price live_price tv_price =
    if ltb_ℤ (pos 0) live_price then pos_part live_price else or_nat tv_price unit

unfoldable pub raw_limit_price : Side → ℕ → ℕ → ℤ
raw_limit_price buy base buffer = pos (base + buffer)
raw_limit_price sell base buffer = pos base -ℤ pos buffer

-- The limit price, with the slippage towards the market.
unfoldable pub execution_price : Limits → Contract → Side → ℕ → ℕ
execution_price c k side base =
    let buffer = max (base * c.slippage / unit) (k.tick_size * 5) in
    apply_tick_size (finite (raw_limit_price side base buffer)) (finite (pos k.tick_size)) side

-- What is sent to the broker: the side, the instrument, the limit price, and the chunks.
pub record Order : Type 0 where
  pub side : Side
  pub instrument_id : ℕ
  pub limit_price : ℕ
  pub posts : List Post

-- The answer, and the order if the gates let it through.
pub record Placed : Type 0 where
  pub result : OrderResult
  pub live : Option Order

unfoldable pub refuse : Text → Placed
refuse message = record { result = error_result message; live = none }

-- A paper order fills at once.
unfoldable pub paper_result : ℕ → ℕ → ℕ → OrderResult
paper_result now_ms qty n = record blank {
  kind = codes "success";
  code = codes "s-orders-0001";
  description =
      if ltb 1 n
      then codes "Paper order executed successfully in " ++ decimal n ++ codes " slices"
      else codes "Paper order executed successfully";
  app_order_id = codes "PAPER_" ++ decimal now_ms ++ codes "_1";
  executed = qty;
  is_paper_trade = true;
}

module _ (c : Limits) (w : World) where
  -- Past the checks of the quantity.
  unfoldable pub execute : Bool → Side → ℕ → ℕ → Text → Contract → Placed
  execute paper side qty tv_price order_ref k =
      let price = execution_price c k side (base_price w.live_price tv_price) in
      let chunks =
        slice_quantity_for_freeze (pos qty) (some (pos k.freeze_qty)) (some (pos k.lot_size)) in
      let (result, posts) = execute_live w.exchanges order_ref qty chunks in
      if is_empty (strip c.client_id) && not paper
      then refuse (codes "CRITICAL: CLIENT_ID is unconfigured.")
      else if paper
      then record { result = paper_result w.now_ms qty (length chunks); live = none }
      else record {
        result = result;
        live = some (record {
          side = side;
          instrument_id = k.instrument_id;
          limit_price = price;
          posts = posts;
        });
      }

  -- Past the resolution of the contract.
  unfoldable pub admit : Bool → Side → Text → ℕ → ℕ → Text → Contract → Placed
  unfolding execute
  admit paper side symbol quantity tv_price order_ref k =
      let qty = execution_quantity c k quantity in
      if not paper && c.enforce_hours && not (is_market_open_ist c.hours k.exch_seg w.now false)
      then refuse (codes "Market closed for " ++ k.exch_seg)
      else elim (quantity_error c k qty) [
        | some message ↦ refuse message
        | none ↦ execute paper side qty tv_price order_ref k
      ]

  -- The gates of the token and of the contract, by whether the order is a paper one, there is a
  -- token, and the symbol's contract is not resolved.
  unfoldable pub resolve : Bool → Bool → Bool → Side → Text → ℕ → ℕ → Text → Placed
  resolve paper has_token unresolved side symbol quantity tv_price order_ref =
      if not paper && not has_token
      then refuse (codes "Auth failed")
      else if unresolved && not paper
      then refuse (codes "Instrument resolution failed for " ++ symbol)
      else admit paper side symbol quantity tv_price order_ref
          (with_defaults c (if unresolved then paper_contract symbol else w.contract))

  unfoldable pub place_order : Side → Text → ℕ → ℕ → Text → Bool → Placed
  unfolding resolve
  place_order side symbol quantity tv_price order_ref is_paper =
      resolve (is_paper || c.paper_mode) w.has_token (w.contract.instrument_id == 0) side symbol
        quantity tv_price order_ref
