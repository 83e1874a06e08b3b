-- ===== src/Supertrend/Exact.antt =====
-- client/supertrend_engine.py, `_execute_exit` and `_execute_entry`: what a leg does to the position.
use xts_multi_tennant.Prelude.{Text, true, ℕ, ℤ, ◌≡◌}
use xts_multi_tennant.Orders.Tick.{Side}
use xts_multi_tennant.Supertrend.Legs.{
  Runner, Channel, Holding, shift, exit_side, execute_exit, execute_entry,
}
use xts_multi_tennant.Supertrend.Balance.{
  IsBalanced, Moved, execute_exit-LegLaws, execute_entry-LegLaws,
}

module _ (ch : Channel) (freeze_limit : ℕ) (start : ℤ) (qty : ℕ) (ref_suffix : Text)
    (r : Runner) where
  -- Whatever the dispatches answer, an exit keeps the position equal to what the runner started with
  -- and the counted chunks since, and to the saved one, and moves it by no more than its quantity: up for a
  -- short position and down for a long one.
  execute_exit-IsBalanced :
      (side : Holding)
      → IsBalanced start r
      → IsBalanced start (execute_exit ch freeze_limit side qty ref_suffix r).0
        × Moved
            (exit_side side)
            qty
            r.position
            (execute_exit ch freeze_limit side qty ref_suffix r).0.position
  execute_exit-IsBalanced side h =
      let laws = execute_exit-LegLaws ch freeze_limit side qty ref_suffix r in
      (laws.balance start h, laws.part)

  -- Whatever the dispatches answer, an entry keeps the position equal to what the runner started
  -- with and the counted chunks since, and to the saved one, and moves it by no more than its quantity in
  -- the direction of its action.
  execute_entry-IsBalanced :
      (action : Side)
      → IsBalanced start r
      → IsBalanced start (execute_entry ch freeze_limit action qty ref_suffix r).0
        × Moved action qty r.position
            (execute_entry ch freeze_limit action qty ref_suffix r).0.position
  execute_entry-IsBalanced action h =
      let laws = execute_entry-LegLaws ch freeze_limit action qty ref_suffix r in
      (laws.balance start h, laws.part)

  -- An entry that reports success has moved the position by exactly its quantity.
  pub execute_entry-exact :
      (action : Side)
      → (execute_entry ch freeze_limit action qty ref_suffix r).1 ≡ true
      → (execute_entry ch freeze_limit action qty ref_suffix r).0.position
        ≡ shift action r.position qty
  execute_entry-exact action ok =
      (execute_entry-LegLaws ch freeze_limit action qty ref_suffix r).moves ok
