-- ===== src/Supertrend/Tests.antt =====
-- The theorems on the runners at concrete ones.
use xts_multi_tennant.Prelude.{[], arith, codes, if◌then◌else◌, negsuc, refl, true, ◌+ℤ◌, ◌==◌}
use xts_multi_tennant.Gateway.Store
use xts_multi_tennant.Supertrend.Legs
use xts_multi_tennant.Supertrend.Legs.{
  Runner, Channel, main_module, Holding, long, short, exit_side, execute_exit, execute_entry,
  execute_delta,
}
use xts_multi_tennant.Supertrend.Balance.{IsBalanced, net}
use xts_multi_tennant.Supertrend.Sync.{sync_to, flip_to}
use xts_multi_tennant.Supertrend.Sync.Target.{IsReached, flip_to-reaches}
use xts_multi_tennant.Supertrend.Sync.Balanced.{IsSynced, sync_to-IsSynced}

-- Two lots short, with a broker that fills all orders but the third.
abbrev two_short : Runner
two_short = record {
  quantity = 2;
  lot_size = 1;
  position = negsuc 1;
  saved = negsuc 1;
  status = Legs.Status.running;
  is_enabled = true;
  last_error = [];
  sent = [];
}

abbrev broker : Channel
broker = main_module (λ n. record {
  status = if n == 2 then Store.Status.failed else Store.Status.done;
  fail_desc = codes "margin shortfall";
})

two_short-IsBalanced : IsBalanced (negsuc 1) two_short
unfolding net ◌+ℤ◌
two_short-IsBalanced = (refl, refl)

flip_to-reaches_example : IsReached long 2 (flip_to broker 1 (codes "1700") long two_short)
flip_to-reaches_example =
    flip_to-reaches broker 1 (codes "1700") long 2 two_short refl (omega arith)

sync_to-IsSynced_example :
    IsSynced (negsuc 1) long 2 (sync_to broker 1 (codes "1700") long two_short)
sync_to-IsSynced_example =
    sync_to-IsSynced broker 1 (codes "1700") long (negsuc 1) 2 two_short refl two_short-IsBalanced
