-- ===== src/Engine/Registry/Reachable.antt =====
-- client/supertrend_engine.py, `MultiSuperTrendEngine`: sequences of its calls.
use xts_multi_tennant.Prelude.{Bool, List, Option, Text, arith, ℕ, ℤ, ◌≡◌}
use xts_multi_tennant.Engine.Strategy.{Mode, Status, Config, Strategy}
use xts_multi_tennant.Engine.Registry.{
  Engine, new_engine, identify, add_or_update_strategy, remove_strategy, toggle_strategy,
  set_enabled, set_execution_mode, set_status, reset_all_virtual_positions, update_strategies,
  update_one, set_quantity,
}
use xts_multi_tennant.Engine.Reconcile.{Broker, reconcile_portfolio_drift}

pub identify-symbol : (c : Config) → (identify c).1.symbol ≡ c.symbol
unfolding identify
identify-symbol c = ground arith

-- The engines that a sequence of calls leads to, in whatever order, from one without runners. The
-- engine's setter of the symbol, which nothing in the repository calls, is no such call: it leaves the
-- strategy key as it was. Each call comes with the positions that the database has then and an
-- identifier.
pub data Reachable : Engine → Type 0 where
  starts : (max_strategies : ℕ) → Reachable (new_engine max_strategies)
  adds :
      {e : Engine} (stored : Text → ℤ) (fresh_id : Text) (c : Config)
      → Reachable e
      → Reachable (add_or_update_strategy stored fresh_id c e).0
  updates :
      {e : Engine} (stored : Text → ℤ) (fresh_id : Text) (cs : List Config)
      → Reachable e
      → Reachable (update_strategies stored fresh_id cs e).0
  updates_one :
      {e : Engine} (stored : Text → ℤ) (fresh_id : Text) (c : Config)
      → Reachable e
      → Reachable (update_one stored fresh_id c e).0
  removes : {e : Engine} (key : Text) → Reachable e → Reachable (remove_strategy key e).0
  toggles :
      {e : Engine} (key : Text) (b : Option Bool)
      → Reachable e
      → Reachable (toggle_strategy key b e).0
  sets_quantity : {e : Engine} (q : ℕ) → Reachable e → Reachable (set_quantity q e)
  enables : {e : Engine} (b : Bool) → Reachable e → Reachable (set_enabled b e)
  switches_mode : {e : Engine} (m : Mode) → Reachable e → Reachable (set_execution_mode m e)
  sets_status : {e : Engine} (st : Status) → Reachable e → Reachable (set_status st e)
  reconciles :
      {e : Engine} (b : Broker) → Reachable e → Reachable (reconcile_portfolio_drift b e).engine
  resets : {e : Engine} → Reachable e → Reachable (reset_all_virtual_positions e)
