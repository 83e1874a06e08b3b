-- ===== src/Engine/Registry/Contract.antt =====
-- client/supertrend_engine.py, `MultiSuperTrendEngine.add_or_update_strategy`: what a call leaves
-- behind, whether it raises or not.
use xts_multi_tennant.Prelude.{
  Option, Text, false, length, none, some, text_eq, true, ◌≡◌, ◌≤◌, ◌⊎◌,
}
use xts_multi_tennant.Engine.Strategy.{Strategy, is_empty}
use xts_multi_tennant.Engine.Registry.{
  Engine, Error, symbol_required, capacity_reached, invalid_number,
}
use xts_multi_tennant.Dicts.{lookup}

-- A runner of the symbol is under `id`, and every other entry is as before.
abbrev pub Holds : Text → Text → Engine → Engine → Type 0
Holds id symbol e e' =
    ((s : Strategy) × ((lookup id e'.strategies ≡ some s) × (s.symbol ≡ symbol)))
    × ((key : Text) → text_eq id key ≡ false → lookup key e'.strategies ≡ lookup key e.strategies)

-- The outcomes of a registration under `id` for a symbol.
abbrev pub Outcome : Text → Text → Engine → Engine → Option Error → Type 0
Outcome id symbol e e' none = Holds id symbol e e'
Outcome id symbol e e' (some symbol_required) = (e' ≡ e) × (is_empty symbol ≡ true)
Outcome id symbol e e' (some capacity_reached) =
    (e' ≡ e) × ((lookup id e.strategies ≡ none) × (e.max_strategies ≤ length e.strategies))
Outcome id symbol e e' (some invalid_number) =
    ((e' ≡ e) × (lookup id e.strategies ≡ none)) ⊎ Holds id symbol e e'
