-- ===== src/Engine/Registry.antt =====
-- client/supertrend_engine.py, `MultiSuperTrendEngine`: the registry of strategies, with
-- `add_or_update_strategy`, `remove_strategy`, `toggle_strategy`, `get_strategy`, `update_config`,
-- `reset_all_virtual_positions`, `primary_runner` and the setters that write to every runner. The
-- dict of strategies is a list in its order. What a call raises is part of its result, since
-- `update_config` keeps what it did before.
use xts_multi_tennant.Prelude.{
  Bool, List, Option, Text, [], any, codes, false, if◌then◌else◌, is_infix, leb, length, lower,
  none, not, option_map, pos, some, strip, text_eq, true, upper, ℕ, ℤ, ◌&&◌, ◌++◌, ◌||◌, ◌∷◌,
}
use xts_multi_tennant.Dicts.{lookup, assign, erase, each, find, keys}
use xts_multi_tennant.Engine.Strategy.{
  Mode, Status, removed, Config, Strategy, default, is_empty, clean, new_strategy, update_config,
  new_raises, status_of,
}
pub mod Capacity
pub mod Reachable
pub mod Contract

-- An entry of `_drift_rejection_history`: the breaker has tripped, or the rejections in a row with
-- the time until which no order goes out.
pub data Rejection : Type 0 where
  paused : Text → Rejection
  backoff : ℕ → ℕ → Rejection

pub record Engine : Type 0 where
  pub max_strategies : ℕ
  pub strategies : List (Text × Strategy)
  pub rejections : List (Text × Rejection)

-- `__init__`
unfoldable pub new_engine : ℕ → Engine
new_engine max_strategies = record {
  max_strategies = max_strategies;
  strategies = [];
  rejections = [];
}

-- The errors of `add_or_update_strategy`, the last raised by the reading of a number.
pub data Error : Type 0 where
  symbol_required capacity_reached invalid_number : Error

-- `str(config_dict.get("id") or config_dict.get("strategy_id") or "").strip()`
unfoldable pub given_id : Config → Text
unfolding is_empty
given_id c =
    let id = default c.id [] in strip (if is_empty id then default c.strategy_id [] else id)

-- The configuration with an identifier, which is made up from the symbol where none is given.
unfoldable pub identify : Config → Text × Config
unfolding given_id is_empty clean
identify c =
    let symbol = clean (default c.symbol []) in
    let made_up = codes "st_" ++ lower symbol ++ codes "_" ++ default c.timeframe (codes "5m") in
    if is_empty (given_id c) then (made_up, record c { id = some made_up }) else (given_id c, c)

-- A runner whose symbol changes loses its candles and markers.
unfoldable pub migrate : Text → Strategy → Strategy
migrate symbol s =
    if text_eq s.symbol symbol
    then s
    else record s { cached_candles = []; recent_trade_markers = [] }

-- A call, and what follows it where it raises nothing.
unfoldable pub and_then :
    Engine × Option Error → (Engine → Engine × Option Error) → Engine × Option Error
and_then (e, none) f = f e
and_then (e, some err) f = (e, some err)

unfoldable pub names : List Config → List Text
unfolding identify
names [] = []
names (c ∷ cs) = (identify c).0 ∷ names cs

-- `existing_id in seen_ids`
unfoldable pub is_seen : List Text → Text → Bool
is_seen seen id = any (λ k. text_eq k id) seen

-- `key` names a runner by its identifiers, its symbol, or its symbol and timeframe.
unfoldable pub is_meant : Text → Text → Strategy → Bool
is_meant key k s =
    text_eq k key
    || text_eq s.id key
    || text_eq s.symbol (upper key)
    || is_infix (lower s.symbol ++ codes "_" ++ s.timeframe) (lower key)

-- The second lookup of `remove_strategy`.
unfoldable pub drop_found : Engine → Option (Text × Strategy) → Engine × Bool
drop_found e none = (e, false)
drop_found e (some (k, s)) = (record e { strategies = erase k e.strategies }, true)

-- The first lookup of `remove_strategy`, by the key of the dict.
unfoldable pub drop_keyed : Text → Engine → Option Strategy → Engine × Bool
unfolding drop_found is_meant
drop_keyed key e (some s) = (record e { strategies = erase key e.strategies }, true)
drop_keyed key e none = drop_found e (find (is_meant key) e.strategies)

unfoldable pub remove_strategy : Text → Engine → Engine × Bool
unfolding drop_keyed
remove_strategy key e = drop_keyed (strip key) e (lookup (strip key) e.strategies)

unfoldable pub remove_unseen : List Text → List Text → Engine → Engine
unfolding is_seen
remove_unseen seen [] e = e
remove_unseen seen (k ∷ ks) e =
    remove_unseen seen ks (if is_seen seen k then e else (remove_strategy k e).0)

-- The first of two finds that finds something.
unfoldable pub or_find {ℓ} : {A : Type ℓ} → Option A → Option A → Option A
or_find (some a) b = some a
or_find none b = b

-- The lookup by symbol and timeframe of `get_strategy`.
unfoldable pub find_timed : Text → Option Text → List (Text × Strategy) → Option (Text × Strategy)
unfolding is_empty
find_timed key none xs = none
find_timed key (some timeframe) xs =
    if is_empty timeframe
    then none
    else find (λ k s. text_eq s.symbol (upper key) && text_eq s.timeframe (lower (strip timeframe)))
        xs

-- `get_strategy`, with the key of the runner it finds.
unfoldable pub get_strategy : Text → Option Text → List (Text × Strategy) → Option (Text × Strategy)
unfolding or_find find_timed
get_strategy key timeframe xs =
    let key = strip key in
    or_find (option_map (λ s. (key, s)) (lookup key xs)) (
      or_find (find (λ k s. text_eq k key || text_eq s.id key) xs)
        (or_find (find_timed key timeframe xs) (find (λ k s. text_eq s.symbol (upper key)) xs)))

-- The runner that `toggle_strategy` found is switched; one that is enabled starts without errors.
unfoldable pub switch : Option Bool → Engine → Option (Text × Strategy) → Engine × Bool
unfolding status_of
switch is_enabled e none = (e, false)
switch is_enabled e (some (k, s)) =
    let b = default is_enabled (not s.is_enabled) in
    let runner = record s {
      is_enabled = b;
      status = status_of b;
      last_error = if b then none else s.last_error;
    } in
    (
      record e {
        strategies = assign k runner e.strategies;
        rejections = if b then erase s.symbol e.rejections else e.rejections;
      },
      true,
    )

unfoldable pub toggle_strategy : Text → Option Bool → Engine → Engine × Bool
unfolding switch
toggle_strategy key is_enabled e = switch is_enabled e (get_strategy key none e.strategies)

-- The first enabled runner, or else the first.
unfoldable pub primary_runner : List (Text × Strategy) → Option (Text × Strategy)
unfolding or_find
primary_runner xs = or_find (find (λ k s. s.is_enabled) xs) (find (λ k s. true) xs)

-- The setter of `quantity`, for a value that is not negative, given the primary runner. The one of
-- `symbol` is left out: nothing in the repository calls it.
unfoldable pub set_quantity_of : ℕ → Engine → Option (Text × Strategy) → Engine
set_quantity_of q e none = e
set_quantity_of q e (some (k, s)) = record e {
  strategies = assign k (record s { quantity = q }) e.strategies;
}

unfoldable pub set_quantity : ℕ → Engine → Engine
unfolding set_quantity_of primary_runner
set_quantity q e = set_quantity_of q e (primary_runner e.strategies)

-- The setters of `is_enabled`, `execution_mode` and `status`.
unfoldable pub set_enabled : Bool → Engine → Engine
unfolding each
set_enabled b e = record e { strategies = each (λ s. record s { is_enabled = b }) e.strategies }

unfoldable pub set_execution_mode : Mode → Engine → Engine
unfolding each
set_execution_mode m e = record e {
  strategies = each (λ s. record s { execution_mode = m }) e.strategies;
}

unfoldable pub set_status : Status → Engine → Engine
unfolding each
set_status st e = record e { strategies = each (λ s. record s { status = st }) e.strategies }

unfoldable pub reset_all_virtual_positions : Engine → Engine
unfolding each
reset_all_virtual_positions e = record e {
  strategies = each (λ s. record s { virtual_position = pos 0; saved = pos 0 }) e.strategies;
}

-- The runner under a key after its `update_config`, which may have raised.
unfoldable pub written : Text → Engine → Strategy × Bool → Engine × Option Error
written k e (s, raised) = (
  record e { strategies = assign k s e.strategies },
  if raised then some invalid_number else none,
)

module _ (stored : Text → ℤ) (fresh_id : Text) where
  -- The registration under an identifier, for the runner that the dict has there.
  unfoldable pub register : Text → Config → Engine → Option Strategy → Engine × Option Error
  unfolding migrate clean written
  register id c e (some s) =
      written id e (update_config c (migrate (clean (default c.symbol [])) s))
  register id c e none =
      if leb e.max_strategies (length e.strategies)
      then (e, some capacity_reached)
      else if new_raises c
      then (e, some invalid_number)
      else (record e { strategies = assign id (new_strategy stored fresh_id c) e.strategies }, none)

  unfoldable pub add_or_update_strategy : Config → Engine → Engine × Option Error
  unfolding identify clean is_empty
  add_or_update_strategy c e =
      let (id, c') = identify c in
      if is_empty (clean (default c.symbol []))
      then (e, some symbol_required)
      else register id c' e (lookup id e.strategies)

  -- The loop of `update_config` over the list of strategies, up to the first error.
  unfoldable pub add_all : List Config → Engine → Engine × Option Error
  unfolding and_then
  add_all [] e = (e, none)
  add_all (c ∷ cs) e = and_then (add_or_update_strategy c e) (λ e'. add_all cs e')

  -- `update_config` with a list of strategies: all are added or updated, then those that the list
  -- does not name are removed. `names` is `seen_ids`.
  unfoldable pub update_strategies : List Config → Engine → Engine × Option Error
  unfolding and_then names
  update_strategies cs e =
      and_then (add_all cs e) (λ e'. (remove_unseen (names cs) (keys e'.strategies) e', none))

  -- With neither an identifier nor a symbol the primary runner is meant, where there is one.
  unfoldable pub update_primary : Config → Engine → Option (Text × Strategy) → Engine × Option Error
  unfolding written
  update_primary c e (some (k, s)) = written k e (update_config c s)
  update_primary c e none = add_or_update_strategy c e

  -- `update_config` with the keys of one strategy.
  unfoldable pub update_one : Config → Engine → Engine × Option Error
  unfolding given_id is_empty clean
  update_one c e =
      if is_empty (given_id c) && is_empty (clean (default c.symbol []))
      then update_primary c e (primary_runner e.strategies)
      else add_or_update_strategy c e
