-- ===== src/Engine/Reconcile.antt =====
-- client/supertrend_engine.py, `MultiSuperTrendEngine.reconcile_portfolio_drift`: the targets are
-- compared with the broker's net positions, and the difference is ordered. What the broker reports,
-- the contracts, the time and the answers of the main module are given; both modules are there, no
-- other task runs between the loop's awaits, and alerts, logs and pauses are left out.
use xts_multi_tennant.Prelude.{
  Bool, List, Option, Text, [], abs, all, any, codes, eqb_ℤ, false, if◌then◌else◌, is_infix, keep,
  leb, length, lower, ltb, ltb_ℤ, map, max, min, neg_ℕ, negsuc, none, not, pos, pos_part, some, sum,
  take, text_eq, true, upper, ℕ, ℤ, ◌%◌, ◌&&◌, ◌*◌, ◌++◌, ◌+◌, ◌-ℤ◌, ◌/◌, ◌==◌, ◌^◌, ◌||◌, ◌∷◌,
}
use xts_multi_tennant.Orders.Ref.{decimal}
use xts_multi_tennant.Orders.Tick as Tick
use xts_multi_tennant.Supertrend.Legs.{chunks_of}
use xts_multi_tennant.Engine.Strategy.{
  Mode, live, paper, Status, margin_shortfall_paused, Strategy, default, is_empty, set_side,
  side_of,
}
use xts_multi_tennant.Engine.Registry.{Engine, Rejection, paused, backoff}
use xts_multi_tennant.Dicts.{lookup, assign, erase, each}
use xts_multi_tennant.Engine.Targets.{get_portfolio_target_positions, is_runner_of, net_target}
pub mod Heals
pub mod Safety
pub mod Breaker

-- `resolve_contract`: an identifier of 0 stands for none, the lot size is as the contract has it.
pub record Instrument : Type 0 where
  pub inst_id : ℕ
  pub desc : Text
  pub lot_size : ℤ

-- An entry of `all_positions`, with an identifier of 0 where it has no whole number.
pub record Position : Type 0 where
  pub instrument_id : ℕ
  pub symbol : Text
  pub quantity : ℤ

pub record BrokerOrder : Type 0 where
  pub status : Text
  pub symbol : Text
  pub instrument_id : Text

-- What `_dispatch_and_record` returns, as far as it is read; `printed` is `str(res)`.
pub record Answer : Type 0 where
  pub status : Text
  pub order_status : Text
  pub code : Text
  pub kind : Text
  pub reject_reason : Text
  pub description : Text
  pub error : Text
  pub printed : Text

-- What surrounds a call: the answer to the n-th order is none where nothing comes back.
pub record Broker : Type 0 where
  pub now : ℕ
  pub all_positions : List Position
  pub broker_orders : List BrokerOrder
  pub resolve : Text → Option Instrument
  pub freeze_limit : ℕ
  pub answer : ℕ → Option Answer

-- An order of the watchdog, whether it is a paper order, and whether the watchdog counts it as filled
-- (a partial failure too). The log of orders is not in the source.
pub record Heal : Type 0 where
  pub symbol : Text
  pub action : Tick.Side
  pub quantity : ℕ
  pub is_paper : Bool
  pub filled : Bool

-- An entry of `actions_taken`.
pub data Action : Type 0 where
  safety_cap_exceeded : Text → ℤ → ℕ → Action
  filled rejected : Text → Tick.Side → ℕ → Action

-- The engine, the orders with the latest first, `drift_count` and `actions_taken`, latest first.
pub record World : Type 0 where
  pub engine : Engine
  pub sent : List Heal
  pub drift_count : ℕ
  pub actions : List Action

-- `runners_for_sym`
unfoldable pub runners_of : Text → List (Text × Strategy) → List Strategy
unfolding is_runner_of
runners_of symbol [] = []
runners_of symbol ((k, s) ∷ rest) =
    let others = runners_of symbol rest in if is_runner_of symbol s then s ∷ others else others

unfoldable pub is_paper : Strategy → Bool
is_paper s = elim s.execution_mode [ live ↦ false | paper ↦ true ]

unfoldable pub is_margin_paused : Strategy → Bool
is_margin_paused s = elim s.status [ margin_shortfall_paused ↦ true | _ ↦ false ]

-- The breaker has tripped for the symbol, or the time of the backoff is not over.
unfoldable pub is_held_back : ℕ → Option Rejection → Bool
is_held_back now none = false
is_held_back now (some (paused reason)) = true
is_held_back now (some (backoff count until)) = ltb now until

-- The guards on the runners of a symbol, in which case it is passed over.
unfoldable pub is_suppressed : Broker → Text → Engine → Bool
unfolding runners_of is_paper is_margin_paused is_held_back
is_suppressed b symbol e =
    let runners = runners_of symbol e.strategies in
    all is_paper runners
    || is_held_back b.now (lookup symbol e.rejections)
    || any is_margin_paused runners
    || any (λ s. s.is_locked || s.pending_rollover) runners

unfoldable pub is_alnum : ℕ → Bool
is_alnum c = leb b'A' c && leb c b'Z' || leb b'0' c && leb c b'9'

-- `re.sub(r'[^A-Z0-9]', '', s.upper())`
unfoldable pub core : Text → Text
core s = keep is_alnum (upper s)

unfoldable pub is_open_status : Text → Bool
is_open_status status =
    text_eq status (codes "NEW")
    || text_eq status (codes "OPEN")
    || text_eq status (codes "PENDINGNEW")
    || text_eq status (codes "PENDINGREPLACE")

-- An order at the broker that is for the symbol.
unfoldable pub is_order_of : Text → Instrument → BrokerOrder → Bool
unfolding core is_empty
is_order_of symbol inst o =
    text_eq (decimal inst.inst_id) o.instrument_id
    || not (is_empty (core symbol)) && is_infix (core symbol) (core o.symbol)
    || is_infix symbol (upper o.symbol)

unfoldable pub has_inflight : Broker → Text → Instrument → Bool
unfolding is_order_of is_open_status
has_inflight b symbol inst =
    any (λ o. is_open_status (upper o.status) && is_order_of symbol inst o) b.broker_orders

-- `actual_raw_qty`
unfoldable pub raw_quantity : Instrument → List Position → ℤ
unfolding is_empty
raw_quantity inst [] = pos 0
raw_quantity inst (p ∷ ps) =
    let later = raw_quantity inst ps in
    if not (p.instrument_id == 0) && (p.instrument_id == inst.inst_id)
      || not (is_empty inst.desc) && text_eq (upper inst.desc) (upper p.symbol)
    then p.quantity
    else later

unfoldable pub lot_size_of : Instrument → ℕ
lot_size_of inst = max 1 (pos_part inst.lot_size)

-- A whole number of lots, or the quantity as it is.
unfoldable pub lots_of : ℕ → ℤ → ℤ
lots_of lot (pos n) = if ltb 1 lot && (n % lot == 0) then pos (n / lot) else pos n
lots_of lot (negsuc n) =
    if ltb 1 lot && ((n + 1) % lot == 0) then neg_ℕ ((n + 1) / lot) else negsuc n

unfoldable pub actual_broker_lots : Broker → Instrument → ℤ
unfolding raw_quantity lot_size_of lots_of
actual_broker_lots b inst = lots_of (lot_size_of inst) (raw_quantity inst b.all_positions)

-- A write to the runners of a symbol.
unfoldable pub on_runners : Text → (Strategy → Strategy) → Engine → Engine
unfolding each is_runner_of
on_runners symbol f e = record e {
  strategies = each (λ s. if is_runner_of symbol s then f s else s) e.strategies;
}

-- The broker's position, as the runners show it.
unfoldable pub observe : ℤ → Strategy → Strategy
unfolding side_of
observe actual s = record s { current_broker_quantity = actual; broker_side = side_of actual }

-- `order_ok`
unfoldable pub is_order_ok : Option Answer → Bool
is_order_ok none = false
is_order_ok (some a) =
    not (text_eq a.status (codes "failed") || text_eq a.status (codes "rejected"))
    && not (text_eq a.order_status (codes "Rejected"))
    && not (text_eq a.code (codes "e-rms-rejected"))
    && (text_eq a.status (codes "done")
        || text_eq a.status (codes "paper_done")
        || text_eq a.status (codes "partial_failure")
        || text_eq a.kind (codes "success"))

-- `a or b`
unfoldable pub or_text : Text → Text → Text
or_text [] t = t
or_text (c ∷ s) t = c ∷ s

unfoldable pub fail_desc : Option Answer → Text
unfolding or_text
fail_desc none = codes "None"
fail_desc (some a) = or_text a.reject_reason (or_text a.description (or_text a.error a.printed))

unfoldable pub margin_words : List Text
margin_words =
    codes "margin exceeds"
    ∷ codes "margin shortfall"
    ∷ codes "margin"
    ∷ codes "rms : margin"
    ∷ codes "insufficient margin"
    ∷ []

unfoldable pub is_margin_issue : Text → Bool
unfolding margin_words
is_margin_issue desc = any (λ w. is_infix w (lower desc)) margin_words

-- A runner that the margin breaker stops: its position becomes the broker's.
unfoldable pub halt : ℤ → Text → Strategy → Strategy
unfolding set_side side_of
halt actual desc s = set_side (side_of actual) (record s {
  virtual_position = actual;
  saved = actual;
  status = margin_shortfall_paused;
  last_error = some (codes "RMS Margin Shortfall: " ++ take 120 desc);
})

-- The count of an entry of the history. A paused one has none, and `is_suppressed` has passed it over.
unfoldable pub count_of : Option Rejection → ℕ
count_of none = 0
count_of (some (backoff count until)) = count
count_of (some (paused reason)) = 0

-- `min(60 * (2 ** count), 3600)`
unfoldable pub backoff_seconds : ℕ → ℕ
backoff_seconds count = min (60 * 2 ^ count) 3600

-- The margin breaker.
unfoldable pub trip : Text → ℤ → Text → Engine → Engine
unfolding on_runners
trip symbol actual desc e =
    let e' = on_runners symbol (halt actual desc) e in
    record e' { rejections = assign symbol (paused desc) e'.rejections }

-- Another rejection in a row.
unfoldable pub cool_down : ℕ → Text → Engine → Engine
unfolding backoff_seconds
cool_down now symbol e =
    let count = count_of (lookup symbol e.rejections) + 1 in
    record e {
      rejections = assign symbol (backoff count (now + backoff_seconds count)) e.rejections;
    }

unfoldable pub punish : Broker → Text → ℤ → Text → Engine → Engine
unfolding is_margin_issue
punish b symbol actual desc e =
    if is_margin_issue desc then trip symbol actual desc e else cool_down b.now symbol e

-- The order that goes out, and whether it was taken.
unfoldable pub send : Text → Tick.Side → Bool → ℕ → Bool → World → World
send symbol action is_paper q ok w = record w {
  sent =
      record { symbol = symbol; action = action; quantity = q; is_paper = is_paper; filled = ok }
      ∷ w.sent;
  actions = (if ok then filled symbol action q else rejected symbol action q) ∷ w.actions;
}

-- `for chunk_idx, chunk_qty in enumerate(chunks, start=1)`
unfoldable pub heal_chunks : Broker → Text → ℤ → Tick.Side → Bool → List ℕ → World → World
unfolding send punish
heal_chunks b symbol actual action is_paper [] w = w
heal_chunks b symbol actual action is_paper (q ∷ chunks) w =
    let res = b.answer (length w.sent) in
    elim (is_order_ok res) [
      | true ↦
          heal_chunks b symbol actual action is_paper chunks
            (record (send symbol action is_paper q true w) {
              engine = record w.engine { rejections = erase symbol w.engine.rejections };
            })
      | false ↦ record (send symbol action is_paper q false w) {
        engine = punish b symbol actual (fail_desc res) w.engine;
      }
    ]

-- `"BUY" if adj_delta > 0 else "SELL"`
unfoldable pub heal_side : ℤ → Tick.Side
heal_side delta = if ltb_ℤ (pos 0) delta then Tick.buy else Tick.sell

-- The order of the difference, under the lock.
unfoldable pub heal : Broker → Text → ℕ → ℤ → World → World
unfolding heal_side runners_of is_paper net_target
heal b symbol lot actual w =
    let target = net_target symbol w.engine.strategies in
    let delta = target -ℤ actual in
    if eqb_ℤ actual target
    then w
    else heal_chunks b symbol actual (heal_side delta)
        (any is_paper (runners_of symbol w.engine.strategies))
        (chunks_of b.freeze_limit lot (abs delta)) w

-- `max(total_configured_lots * 2, 10)`
unfoldable pub max_allowed_drift : Text → Engine → ℕ
unfolding runners_of
max_allowed_drift symbol e =
    max (sum (map (λ s. s.quantity) (runners_of symbol e.strategies)) * 2) 10

-- The drift of a symbol, whose broker position is known.
unfoldable pub align : Broker → Text → ℕ → ℤ → ℤ → World → World
unfolding max_allowed_drift heal
align b symbol lot actual target w =
    let cap = max_allowed_drift symbol w.engine in
    let counted = record w { drift_count = w.drift_count + 1 } in
    if eqb_ℤ actual target
    then w
    else if ltb cap (abs (actual -ℤ target))
    then record counted {
      actions = safety_cap_exceeded symbol (actual -ℤ target) cap ∷ counted.actions;
    }
    else heal b symbol lot actual counted

-- A symbol with its contract.
unfoldable pub inspect : Broker → Text → ℤ → Option Instrument → World → World
unfolding has_inflight actual_broker_lots lot_size_of on_runners observe
inspect b symbol target none w = w
inspect b symbol target (some inst) w =
    let actual = actual_broker_lots b inst in
    if (inst.inst_id == 0) || has_inflight b symbol inst
    then w
    else align b symbol (lot_size_of inst) actual target
        (record w { engine = on_runners symbol (observe actual) w.engine })

-- One turn of the loop over the targets.
unfoldable pub reconcile_symbol : Broker → Text → ℤ → World → World
unfolding is_suppressed
reconcile_symbol b symbol target w =
    if is_suppressed b symbol w.engine then w else inspect b symbol target (b.resolve symbol) w

unfoldable pub reconcile_all : Broker → List (Text × ℤ) → World → World
reconcile_all b [] w = w
reconcile_all b ((symbol, target) ∷ rest) w =
    reconcile_all b rest (reconcile_symbol b symbol target w)

-- The call on an open market with live positions.
unfoldable pub reconcile_portfolio_drift : Broker → Engine → World
unfolding reconcile_all get_portfolio_target_positions
reconcile_portfolio_drift b e =
    reconcile_all b (get_portfolio_target_positions e.strategies)
      (record { engine = e; sent = []; drift_count = 0; actions = [] })
