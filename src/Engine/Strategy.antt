-- ===== src/Engine/Strategy.antt =====
-- client/supertrend_engine.py, the configuration of a `SingleSuperTrendRunner`: `__init__`,
-- `update_config` and the setter of `strategy_position`. A configuration's texts and flags have
-- their types, its numbers may be anything; the multiplier is in hundredths, the cached candles and the chart markers are their times. The
-- position that the database has for a key and the fresh identifier of uuid4 are given. The contract
-- that update_config resolves for display and the telemetry are left out.
use xts_multi_tennant.Prelude.{
  Bool, List, Option, Text, [], codes, false, if◌then◌else◌, leb_ℤ, lower, ltb, ltb_ℤ, max, neg_ℕ,
  none, not, option_map, pos, pos_part, some, strip, text_eq, true, upper, ℕ, ℤ, ◌&&◌, ◌++◌, ◌||◌,
  ◌∷◌,
}
pub mod Consistent

pub data Mode : Type 0 where
  live paper : Mode

pub data Status : Type 0 where
  running disabled removed margin_shortfall_paused entry_failed_paused exit_failed_paused : Status

-- `strategy_position` and `broker_side`.
pub data Side : Type 0 where
  long short flat : Side

-- An entry that is to be a number: `None`, one on which `int` or `float` raises, or its value.
pub data Number : Type 0 where
  null unreadable : Number
  readable : ℤ → Number

-- The entries of `config_dict`, none where the key is missing.
pub record Config : Type 0 where
  pub id : Option Text
  pub strategy_id : Option Text
  pub symbol : Option Text
  pub exchange_segment : Option Text
  pub timeframe : Option Text
  pub quantity : Option Number
  pub product_type : Option Text
  pub atr_period : Option Number
  pub multiplier : Option Number
  pub execution_mode : Option Text
  pub is_enabled : Option Bool
  pub lot_size : Option Number
  pub virtual_position : Option Number

-- `saved` is the position that the database has for the key; `is_locked` says that a cycle of the
-- runner holds its lock.
pub record Strategy : Type 0 where
  pub id : Text
  pub symbol : Text
  pub exchange_segment : Text
  pub timeframe : Text
  pub quantity : ℕ
  pub product_type : Text
  pub atr_period : ℕ
  pub multiplier : ℕ
  pub execution_mode : Mode
  pub is_configured : Bool
  pub is_enabled : Bool
  pub strategy_key : Text
  pub lot_size : ℕ
  pub virtual_position : ℤ
  pub saved : ℤ
  pub status : Status
  pub current_broker_quantity : ℤ
  pub broker_side : Side
  pub last_error : Option Text
  pub cached_candles : List ℕ
  pub recent_trade_markers : List ℕ
  pub pending_rollover : Bool
  pub is_locked : Bool

-- `config_dict.get(key, fallback)`
abbrev pub default {ℓ} : {A : Type ℓ} → Option A → A → A
default none a = a
default (some b) a = b

-- The value of an entry that is there and can be read.
unfoldable pub given : Option Number → Option ℤ
given none = none
given (some null) = none
given (some unreadable) = none
given (some (readable z)) = some z

-- Reading the entry, where it is there, raises.
unfoldable pub raises : Option Number → Bool
raises none = false
raises (some null) = true
raises (some unreadable) = true
raises (some (readable z)) = false

abbrev pub is_unreadable : Option Number → Bool
is_unreadable (some unreadable) = true
is_unreadable _ = false

-- `__init__` raises; a position of `None` is looked up like a missing one.
unfoldable pub new_raises : Config → Bool
unfolding raises
new_raises c =
    raises c.quantity
    || raises c.atr_period
    || raises c.multiplier
    || raises c.lot_size
    || is_unreadable c.virtual_position

unfoldable pub is_empty : Text → Bool
is_empty [] = true
is_empty (c ∷ s) = false

-- `f"{self.symbol}_{self.timeframe}"`
unfoldable pub key_of : Text → Text → Text
key_of symbol timeframe = symbol ++ codes "_" ++ timeframe

-- `bool(self.symbol and self.exchange_segment and self.quantity > 0)`
unfoldable pub configured : Text → Text → ℕ → Bool
unfolding is_empty
configured symbol segment quantity =
    not (is_empty symbol) && not (is_empty segment) && ltb 0 quantity

unfoldable pub side_of : ℤ → Side
side_of q = if ltb_ℤ (pos 0) q then long else if ltb_ℤ q (pos 0) then short else flat

-- `strategy_position = ...`
unfoldable pub set_side : Side → Strategy → Strategy
set_side long s = record s {
  virtual_position =
      if leb_ℤ s.virtual_position (pos 0) then pos s.quantity else s.virtual_position;
}
set_side short s = record s {
  virtual_position =
      if leb_ℤ (pos 0) s.virtual_position then neg_ℕ s.quantity else s.virtual_position;
}
set_side flat s = record s { virtual_position = pos 0 }

-- The mode of a text, where it is one.
unfoldable pub mode_of : Text → Option Mode
mode_of t =
    let m = upper (strip t) in
    if text_eq m (codes "LIVE")
    then some live
    else if text_eq m (codes "PAPER")
    then some paper
    else none

unfoldable pub status_of : Bool → Status
status_of enabled = if enabled then running else disabled

-- `symbol.strip().upper()`
unfoldable pub clean : Text → Text
clean t = upper (strip t)

unfoldable pub new_strategy : (Text → ℤ) → Text → Config → Strategy
unfolding clean configured key_of mode_of status_of is_empty given
new_strategy stored fresh_id c =
    let symbol = clean (default c.symbol []) in
    let segment = clean (default c.exchange_segment (codes "MCXFO")) in
    let timeframe = lower (strip (default c.timeframe (codes "5m"))) in
    let quantity = pos_part (default (given c.quantity) (pos 1)) in
    let is_configured = configured symbol segment quantity in
    let is_enabled = default c.is_enabled false && is_configured in
    record {
      id = if is_empty (default c.id []) then fresh_id else default c.id [];
      symbol = symbol;
      exchange_segment = segment;
      timeframe = timeframe;
      quantity = quantity;
      product_type = clean (default c.product_type (codes "NRML"));
      atr_period = max 2 (pos_part (default (given c.atr_period) (pos 10)));
      multiplier = max 10 (pos_part (default (given c.multiplier) (pos 300)));
      execution_mode = default (mode_of (default c.execution_mode (codes "LIVE"))) live;
      is_configured = is_configured;
      is_enabled = is_enabled;
      strategy_key = key_of symbol timeframe;
      lot_size = max 1 (pos_part (default (given c.lot_size) (pos 1)));
      virtual_position = default (given c.virtual_position) (stored (key_of symbol timeframe));
      saved = stored (key_of symbol timeframe);
      status = status_of is_enabled;
      current_broker_quantity = pos 0;
      broker_side = flat;
      last_error = none;
      cached_candles = [];
      recent_trade_markers = [];
      pending_rollover = false;
      is_locked = false;
    }

-- The steps of `update_config`, one for each key.
unfoldable pub with_symbol : Option Text → Strategy → Strategy
unfolding clean is_empty key_of
with_symbol none s = s
with_symbol (some t) s =
    let symbol = clean t in
    if is_empty symbol || text_eq symbol s.symbol then s else record s {
      symbol = symbol;
      strategy_key = key_of symbol s.timeframe;
      cached_candles = [];
      recent_trade_markers = [];
      current_broker_quantity = pos 0;
      broker_side = flat;
    }

unfoldable pub with_timeframe : Option Text → Strategy → Strategy
unfolding is_empty key_of
with_timeframe none s = s
with_timeframe (some t) s =
    let timeframe = lower (strip t) in
    if is_empty timeframe || text_eq timeframe s.timeframe then s else record s {
      timeframe = timeframe;
      strategy_key = key_of s.symbol timeframe;
      cached_candles = [];
      recent_trade_markers = [];
    }

-- The quantity, and the product type after it.
unfoldable pub with_quantity : Config → Strategy → Strategy
unfolding clean given
with_quantity c s = record s {
  quantity = default (option_map (λ q. max 1 (pos_part q)) (given c.quantity)) s.quantity;
  product_type = default (option_map clean c.product_type) s.product_type;
}

unfoldable pub with_atr_period : Config → Strategy → Strategy
unfolding given
with_atr_period c s = record s {
  atr_period = default (option_map (λ n. max 2 (pos_part n)) (given c.atr_period)) s.atr_period;
}

-- The multiplier, and the mode after it.
unfoldable pub with_multiplier : Config → Strategy → Strategy
unfolding mode_of given
with_multiplier c s = record s {
  multiplier = default (option_map (λ m. max 10 (pos_part m)) (given c.multiplier)) s.multiplier;
  execution_mode = default (mode_of (default c.execution_mode [])) s.execution_mode;
}

unfoldable pub with_position : Option ℤ → Strategy → Strategy
unfolding set_side side_of
with_position none s = s
with_position (some q) s = set_side (side_of q) (record s { virtual_position = q })

-- The key and `is_configured`, computed anew.
unfoldable pub rekey : Strategy → Strategy
unfolding key_of configured
rekey s = record s {
  strategy_key = key_of s.symbol s.timeframe;
  is_configured = configured s.symbol s.exchange_segment s.quantity;
}

unfoldable pub with_enabled : Option Bool → Strategy → Strategy
unfolding status_of
with_enabled none s = s
with_enabled (some b) s = record s {
  is_enabled = b && s.is_configured;
  status = status_of (b && s.is_configured);
}

-- What is written before the first number is read.
unfoldable pub with_names : Config → Strategy → Strategy
unfolding with_symbol with_timeframe clean
with_names c s =
    let moved = with_symbol c.symbol (record s { id = default c.id s.id }) in
    with_timeframe c.timeframe (record moved {
      exchange_segment = default (option_map clean c.exchange_segment) moved.exchange_segment;
    })

-- What is written after the last number is read.
unfoldable pub finish_update : Config → Strategy → Strategy
unfolding with_position rekey with_enabled given
finish_update c s = with_enabled c.is_enabled (rekey (with_position (given c.virtual_position) s))

-- The runner and whether the call has raised: an entry that cannot be read ends it, and what was
-- written before stays.
unfoldable pub update_config : Config → Strategy → Strategy × Bool
unfolding with_names with_quantity with_atr_period with_multiplier finish_update raises
update_config c s =
    let named = with_names c s in
    let sized = with_quantity c named in
    let timed = with_atr_period c sized in
    let scaled = with_multiplier c timed in
    if raises c.quantity
    then (named, true)
    else if raises c.atr_period
    then (sized, true)
    else if raises c.multiplier
    then (timed, true)
    else if raises c.virtual_position
    then (scaled, true)
    else (finish_update c scaled, false)
