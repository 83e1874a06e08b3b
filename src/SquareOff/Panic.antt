-- ===== src/SquareOff/Panic.antt =====
-- client/xts_api.py, `panic_square_off_all`: every open position is closed by limit orders that are
-- cut at the freeze limit. Prices are whole micro-rupees, 0 for none. The limiter, the broker's
-- answers and the master data are given; segment, product and the texts of failures are left out.
use xts_multi_tennant.Prelude.{
  Bool, List, Option, Text, [], abs, eqb_ℤ, false, if◌then◌else◌, keep, leb, leb_ℤ, length, ltb_ℤ,
  max, none, not, pos, pos_part, some, suc, text_eq, true, zero, ℕ, ℤ, ◌&&◌, ◌*◌, ◌+◌, ◌/◌, ◌==◌,
  ◌||◌, ◌∷◌,
}
use xts_multi_tennant.Orders.Tick.{Side, buy, sell, apply_tick_size, finite}
use xts_multi_tennant.Orders.Place.{raw_limit_price}
use xts_multi_tennant.Orders.Slicing.{slice_quantity_for_freeze}
use xts_multi_tennant.SquareOff.Cancel as Cancel
pub mod Accounts
pub mod Closing

-- An entry of `positionList`. `sold` and `bought` are the prices that are looked through for a short
-- and a long position, in the source's order.
pub record Position : Type 0 where
  pub quantity : ℤ
  pub instrument_id : ℕ
  pub trading_symbol : Text
  pub sold : List ℤ
  pub bought : List ℤ

-- A contract of the master data, with 0 for what is missing.
pub record Contract : Type 0 where
  pub tick_size : ℕ
  pub freeze_qty : ℕ
  pub lot_size : ℕ

-- The answer to an order; `token_error` is an error that speaks of token, session or auth.
pub data Reply : Type 0 where
  success token_error rejected : Reply

-- `positions` is none where the request raises. `fails` says that a look-up for the position raises.
-- `refresh` says whether a new token is had before the n-th order.
pub record Desk : Type 0 where
  pub cancel : Cancel.Desk
  pub positions : Option (List Position)
  pub is_market_open : Bool
  pub fails : Position → Bool
  pub id_of : Text → ℕ
  pub by_id : ℕ → Option Contract
  pub by_symbol : Text → Contract
  pub default_freeze : ℕ
  pub live_price : ℕ → ℤ
  pub candle_close : ℕ → ℤ
  pub acquire : ℕ → Bool
  pub reply : ℕ → Reply
  pub refresh : ℕ → Bool

-- An order that was sent.
pub record Order : Type 0 where
  pub side : Side
  pub instrument_id : ℕ
  pub quantity : ℕ
  pub limit_price : ℕ

-- The questions to the limiter, the orders with the latest first, the quantities of
-- `successful_chunks` and `failed_chunks`, and their totals.
pub record State : Type 0 where
  pub asked : ℕ
  pub sent : List Order
  pub closed : List ℕ
  pub failed : List ℕ
  pub closed_quantity : ℕ
  pub unclosed_quantity : ℕ

-- `re.sub(r'[\s\-]+', '', s)`
unfoldable pub compact : Text → Text
compact s = keep (λ c. not (c == 32 || leb 9 c && leb c 13 || c == b'-')) s

-- `"SELL" if qty > 0 else "BUY"`
unfoldable pub closing_side : ℤ → Side
closing_side q = if ltb_ℤ (pos 0) q then sell else buy

unfoldable pub instrument_of : Desk → Position → ℕ
unfolding compact
instrument_of d p =
    if (p.instrument_id == 0) && not (text_eq p.trading_symbol [])
    then d.id_of (compact p.trading_symbol)
    else p.instrument_id

-- `a or b`
unfoldable pub or_number : ℕ → ℕ → ℕ
or_number zero b = b
or_number (suc a) b = suc a

-- The contract by its identifier, or the symbol's with defaults.
unfoldable pub contract_of : Desk → Position → Option Contract → Contract
unfolding compact or_number
contract_of d p (some k) = k
contract_of d p none =
    let k = d.by_symbol (compact p.trading_symbol) in
    record {
      tick_size = or_number k.tick_size 50_000;
      freeze_qty = or_number k.freeze_qty d.default_freeze;
      lot_size = or_number k.lot_size 1;
    }

-- The first of the prices that is not 0.
unfoldable pub first_price : List ℤ → ℤ
first_price [] = pos 0
first_price (p ∷ ps) = let later = first_price ps in if eqb_ℤ p (pos 0) then later else p

-- A price for the one before, where that is missing.
unfoldable pub or_price : ℤ → ℤ → ℤ
or_price price fallback = if eqb_ℤ price (pos 0) && ltb_ℤ (pos 0) fallback then fallback else price

unfoldable pub traded_price : Side → Position → ℤ
unfolding first_price
traded_price buy p = first_price p.sold
traded_price sell p = first_price p.bought

-- The live price, the last candle's close, or a price of the position.
unfoldable pub price_of : Desk → ℕ → Side → Position → ℤ
unfolding or_price traded_price
price_of d inst side p =
    or_price (or_price (d.live_price inst) (d.candle_close inst)) (traded_price side p)

-- The limit price, a hundredth of the price or ten ticks beyond it.
unfoldable pub limit_price_of : Side → ℕ → ℕ → ℕ
limit_price_of side price tick =
    let buffer = max (price / 100) (tick * 10) in
    apply_tick_size (finite (raw_limit_price side price buffer)) (finite (pos tick)) side

-- Whether the answer to an order, tried once more after a token error, is a success; and the number
-- of orders that were sent for it.
unfoldable pub post : Desk → ℕ → Reply → Bool × ℕ
post d n success = (true, 1)
post d n rejected = (false, 1)
post d n token_error =
    if d.refresh n then (elim (d.reply (n + 1)) [ success ↦ true | _ ↦ false ], 2) else (false, 1)

-- The same order, sent a number of times.
unfoldable pub logged : ℕ → Order → List Order → List Order
logged zero o sent = sent
logged (suc n) o sent = o ∷ logged n o sent

unfoldable pub count_chunk : ℕ → Bool → State → State
count_chunk q true s = record s { closed = q ∷ s.closed; closed_quantity = s.closed_quantity + q }
count_chunk q false s = record s {
  failed = q ∷ s.failed;
  unclosed_quantity = s.unclosed_quantity + q;
}

unfoldable pub settle_chunk : Order → Bool × ℕ → State → State
unfolding count_chunk logged
settle_chunk o (ok, n) s = count_chunk o.quantity ok (record s { sent = logged n o s.sent })

-- One chunk. Without a token of the limiter it is not sent.
unfoldable pub close_chunk : Desk → Order → State → State
unfolding count_chunk settle_chunk post
close_chunk d o s =
    let asked = record s { asked = s.asked + 1 } in
    if d.acquire s.asked
    then settle_chunk o (post d (length s.sent) (d.reply (length s.sent))) asked
    else count_chunk o.quantity false asked

-- `for chunk_idx, chunk_qty in enumerate(chunks, start=1)`
unfoldable pub close_chunks : Desk → Side → ℕ → ℕ → List ℕ → State → State
close_chunks d side inst price [] s = s
close_chunks d side inst price (q ∷ chunks) s = close_chunks d side inst price chunks (
    close_chunk d (record { side = side; instrument_id = inst; quantity = q; limit_price = price })
      s)

-- An open position. Without a price nothing is sent.
unfoldable pub close_position : Desk → Position → State → State
unfolding closing_side instrument_of contract_of price_of limit_price_of count_chunk
close_position d p s =
    let side = closing_side p.quantity in
    let inst = instrument_of d p in
    let k = contract_of d p (d.by_id inst) in
    let price = price_of d inst side p in
    let chunks =
      slice_quantity_for_freeze (pos (abs p.quantity)) (some (pos k.freeze_qty))
        (some (pos k.lot_size)) in
    if leb_ℤ price (pos 0)
    then count_chunk (abs p.quantity) false s
    else close_chunks d side inst (limit_price_of side (pos_part price) k.tick_size) chunks s

-- `for p in positions`. The Boolean says that no look-up has raised.
unfoldable pub close_positions : Desk → List Position → State → State × Bool
unfolding close_position
close_positions d [] s = (s, true)
close_positions d (p ∷ rest) s =
    let skipped = close_positions d rest s in
    let after = close_positions d rest (close_position d p s) in
    if eqb_ℤ p.quantity (pos 0) then skipped else if d.fails p then (s, false) else after

pub data Result : Type 0 where
  paper_mode auth_failed : Result
  suppressed : ℕ → Result
  broken : ℕ → Result
  all_failed partial_failure all_closed : State → Result

-- The number of positions that are not flat.
unfoldable pub open_count : List Position → ℕ
open_count ps = length (keep (λ p. not (eqb_ℤ p.quantity (pos 0))) ps)

-- The status of a finished run, by the lists of failed and of successful chunks.
unfoldable pub verdict : List ℕ → List ℕ → State → Result
verdict [] closed s = all_closed s
verdict (q ∷ qs) [] s = all_failed s
verdict (q ∷ qs) (c ∷ cs) s = partial_failure s

unfoldable pub finish : State × Bool → Result
unfolding verdict
finish (s, false) = broken s.unclosed_quantity
finish (s, true) = verdict s.failed s.closed s

unfoldable pub idle_state : State
idle_state = record {
  asked = 0;
  sent = [];
  closed = [];
  failed = [];
  closed_quantity = 0;
  unclosed_quantity = 0;
}

-- The second part, with the positions.
unfoldable pub square_off : Desk → Option (List Position) → Result
unfolding open_count close_positions finish idle_state
square_off d none = broken 0
square_off d (some ps) =
    if not d.is_market_open
    then suppressed (open_count ps)
    else finish (close_positions d ps idle_state)

-- What is returned, after the sweep of the open orders.
unfoldable pub panic_square_off_all : Bool → Bool → Desk → Cancel.Sweep × Result
unfolding square_off
panic_square_off_all is_paper has_token d =
    if is_paper
    then (Cancel.fresh_sweep, paper_mode)
    else if not has_token
    then (Cancel.fresh_sweep, auth_failed)
    else (Cancel.panic_cancel d.cancel, square_off d d.positions)
