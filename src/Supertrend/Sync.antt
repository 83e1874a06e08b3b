-- ===== src/Supertrend/Sync.antt =====
-- client/supertrend_engine.py, `sync_to_current_trend` and `reset_to_flat` of a runner, and the
-- orders of a confirmed flip in `evaluate_cycle`. The bullish and the bearish half of the source
-- mirror each other: the trend is the holding that it asks for. Alerts, logs and pauses are left
-- out, and so is what precedes the orders: candles, indicator, and the checks of the broker's state.
pub mod Target
pub mod Balanced
use xts_multi_tennant.Prelude.{
  Bool, Text, abs, codes, eqb_ℤ, false, if◌then◌else◌, ltb, ltb_ℤ, neg_part, neg_ℕ, not, pos,
  pos_part, true, ℕ, ℤ, ◌&&◌, ◌++◌, ◌-ℤ◌, ◌-◌,
}
use xts_multi_tennant.Orders.Tick.{Side, buy, sell}
use xts_multi_tennant.Supertrend.Legs
use xts_multi_tennant.Supertrend.Legs.{
  Runner, Channel, Holding, long, short, execute_exit, execute_entry, is_margin,
}

-- The lots held in the direction of a trend, and against it.
abbrev pub toward : Holding → ℤ → ℕ
toward long p = pos_part p
toward short p = neg_part p

abbrev pub against : Holding → ℤ → ℕ
against long p = neg_part p
against short p = pos_part p

abbrev pub opposite : Holding → Holding
opposite long = short
opposite short = long

abbrev pub entry_side : Holding → Side
entry_side long = buy
entry_side short = sell

-- `self.quantity` or `-self.quantity`
abbrev pub target : Holding → ℕ → ℤ
target long q = pos q
target short q = neg_ℕ q

-- `self.virtual_position = p` and `_save_virtual_position`
unfoldable pub set_position : ℤ → Runner → Runner
set_position p r = record r { position = p; saved = p }

unfoldable pub pause_status : Text → Legs.Status
pause_status e =
    if is_margin e then Legs.Status.margin_shortfall_paused else Legs.Status.entry_failed_paused

-- What is left of an entry: `self.quantity - self.virtual_position` where that is positive, and with
-- `abs(self.virtual_position)` in the bearish half.
abbrev pub retry_quantity : Holding → ℕ → ℤ → ℕ
retry_quantity long q p = pos_part (pos q -ℤ p)
retry_quantity short q p = q - abs p

pub data Synced : Type 0 where
  already_synced success error : Synced

module _ (ch : Channel) (freeze_limit : ℕ) (candle_ts : Text) (t : Holding) where
  -- After the entry, whose failure disables the strategy unless it was a top-up.
  unfoldable pub sync_entered : Bool → Runner × Bool → Runner × Synced
  sync_entered top_up (r, true) = (set_position (target t r.quantity) r, success)
  sync_entered top_up (r, false) = (
    record r {
      status = pause_status r.last_error;
      is_enabled = if top_up then r.is_enabled else false;
    },
    error,
  )

  unfoldable pub sync_enter : Bool → ℕ → Runner → Runner × Synced
  sync_enter top_up qty r =
      sync_entered top_up
        (execute_entry ch freeze_limit (entry_side t) qty (codes "SYNC_ENTRY_" ++ candle_ts) r)

  unfoldable pub sync_exited : Runner × Bool → Runner × Synced
  sync_exited (r, false) = (r, error)
  sync_exited (r, true) = sync_enter false r.quantity (set_position (pos 0) r)

  -- From the comparison of the position with the target on.
  unfoldable pub sync_to : Runner → Runner × Synced
  sync_to r =
      let reversal = sync_exited (
        execute_exit ch freeze_limit (opposite t) (abs r.position) (codes "SYNC_EXIT_" ++ candle_ts)
          r) in
      let top_up = sync_enter true (r.quantity - toward t r.position) r in
      let enter = sync_enter false r.quantity r in
      if eqb_ℤ r.position (target t r.quantity)
      then (r, already_synced)
      else if ltb 0 (against t r.position)
      then reversal
      else if ltb 0 (toward t r.position)
      then (if ltb (toward t r.position) r.quantity then top_up else (r, already_synced))
      else enter

  -- The orders of a flip: each leg is tried once more with what is left of it.
  unfoldable pub flip_entered : Runner × Bool → Runner
  flip_entered (r, true) = r
  flip_entered (r, false) = record r { status = pause_status r.last_error; is_enabled = false }

  unfoldable pub flip_entry_retry : Runner × Bool → Runner
  flip_entry_retry (r, true) = flip_entered (r, true)
  flip_entry_retry (r, false) =
      let left = retry_quantity t r.quantity r.position in
      let ref_suffix = codes "FLIP_ENTRY_" ++ candle_ts ++ codes "_RETRY" in
      let res = execute_entry ch freeze_limit (entry_side t) left ref_suffix r in
      if ltb 0 left then flip_entered res else flip_entered (r, true)

  unfoldable pub flip_enter : Runner → Runner
  flip_enter r =
      let qty = r.quantity - toward t r.position in
      let ref_suffix = codes "FLIP_ENTRY_" ++ candle_ts in
      let res = execute_entry ch freeze_limit (entry_side t) qty ref_suffix r in
      if ltb 0 qty then flip_entry_retry res else r

  unfoldable pub flip_exited : Runner × Bool → Runner
  flip_exited (r, true) = flip_enter r
  flip_exited (r, false) = record r { status = Legs.Status.exit_failed_paused; is_enabled = false }

  unfoldable pub flip_exit_retry : Runner × Bool → Runner
  flip_exit_retry (r, true) = flip_exited (r, true)
  flip_exit_retry (r, false) =
      let ref_suffix = codes "FLIP_EXIT_" ++ candle_ts ++ codes "_RETRY" in
      let res = execute_exit ch freeze_limit (opposite t) (abs r.position) ref_suffix r in
      if ltb 0 (abs r.position) then flip_exited res else flip_exited (r, true)

  unfoldable pub flip_to : Runner → Runner
  flip_to r =
      let ref_suffix = codes "FLIP_EXIT_" ++ candle_ts in
      let res = execute_exit ch freeze_limit (opposite t) (abs r.position) ref_suffix r in
      let entered = flip_enter r in
      if ltb 0 (against t r.position) then flip_exit_retry res else entered

-- `reset_to_flat`, where `square_off` is set for the broker's position to be closed; whether the exit
-- goes through is not asked. The symbol that is traded is left out.
unfoldable pub reset_to_flat : Channel → ℕ → Bool → Text → Runner → Runner
reset_to_flat ch freeze_limit square_off ts_now r =
    let side = if ltb_ℤ (pos 0) r.position then long else short in
    let exit =
      execute_exit ch freeze_limit side (abs r.position) (codes "RESET_FLAT_" ++ ts_now) r in
    if square_off && not (eqb_ℤ r.position (pos 0))
    then set_position (pos 0) exit.0
    else set_position (pos 0) r
