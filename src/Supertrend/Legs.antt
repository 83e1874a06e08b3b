-- ===== src/Supertrend/Legs.antt =====
-- client/supertrend_engine.py, `_execute_delta`, `_execute_exit` and `_execute_entry` of a runner:
-- a leg is cut into chunks, which are dispatched one after the other, and the virtual position moves
-- with every chunk that counts as filled. Positions are in lots, signed. The log of dispatches is
-- not in the source; telemetry, chart markers and the pauses between chunks are left out, and the
-- main module is always given.
use xts_multi_tennant.Prelude.{
  Bool, List, Option, Text, [], abs, any, codes, false, if◌then◌else◌, is_infix, length, lower, ltb,
  ltb_ℤ, max, none, not, pos, some, take, true, upper, ℕ, ℤ, ◌*◌, ◌++◌, ◌+ℤ◌, ◌-ℤ◌, ◌/◌, ◌==◌, ◌||◌,
  ◌∷◌,
}
use xts_multi_tennant.Orders.Tick.{Side, buy, sell}
use xts_multi_tennant.Orders.Slicing.{slice_quantity_for_freeze}
use xts_multi_tennant.Gateway.Store

-- The runner's `status`, as far as these functions write it.
pub data Status : Type 0 where
  running disabled margin_shortfall_paused entry_failed_paused exit_failed_paused : Status

pub data Leg : Type 0 where
  exit_leg entry_leg delta_leg : Leg

-- A dispatched chunk, and whether it was counted as filled.
pub record Fill : Type 0 where
  pub leg : Leg
  pub side : Side
  pub quantity : ℕ
  pub filled : Bool

-- `position` is `_virtual_position`, `saved` the one in the database, `sent` the log with the latest
-- dispatch first.
pub record Runner : Type 0 where
  pub quantity : ℕ
  pub lot_size : ℕ
  pub position : ℤ
  pub saved : ℤ
  pub status : Status
  pub is_enabled : Bool
  pub last_error : Text
  pub sent : List Fill

-- What `_dispatch_and_record` returns: the status, and the text of the failure.
pub record Answer : Type 0 where
  pub status : Store.Status
  pub fail_desc : Text

-- Chunks go to a callback that returns nothing, or to the main module, whose answer to the n-th
-- dispatch of the runner is given.
pub data Channel : Type 0 where
  dispatch_fn : Channel
  main_module : (ℕ → Answer) → Channel

-- `valid_statuses`
unfoldable pub is_valid : Bool → Store.Status → Bool
is_valid is_rollover Store.Status.done = true
is_valid is_rollover Store.Status.paper_done = true
is_valid is_rollover Store.Status.partial_failure = not is_rollover
is_valid is_rollover _ = false

-- One dispatch: none, or the text of its failure.
unfoldable pub dispatch_chunk : Channel → Bool → ℕ → Option Text
dispatch_chunk dispatch_fn is_rollover n = none
dispatch_chunk (main_module answer) is_rollover n =
    if is_valid is_rollover (answer n).status then none else some (answer n).fail_desc

unfoldable pub shift : Side → ℤ → ℕ → ℤ
shift buy p n = p +ℤ pos n
shift sell p n = p -ℤ pos n

-- The chunk is filled: `self.virtual_position += chunk_delta`, which is saved.
unfoldable pub advance : Leg → Side → ℕ → Runner → Runner
advance leg side q r = record r {
  position = shift side r.position q;
  saved = shift side r.position q;
  sent = record { leg = leg; side = side; quantity = q; filled = true } ∷ r.sent;
}

-- The chunk is dispatched and fails.
unfoldable pub reject : Leg → Side → ℕ → Runner → Runner
reject leg side q r = record r {
  sent = record { leg = leg; side = side; quantity = q; filled = false } ∷ r.sent;
}

-- `for chunk_idx, chunk_qty in enumerate(chunks, start=1)`, up to the first failure.
unfoldable pub run_chunks : Channel → Bool → Leg → Side → List ℕ → Runner → Runner × Option Text
run_chunks ch is_rollover leg side [] r = (r, none)
run_chunks ch is_rollover leg side (q ∷ chunks) r =
    elim (dispatch_chunk ch is_rollover (length r.sent)) [
      | none ↦ run_chunks ch is_rollover leg side chunks (advance leg side q r)
      | some e ↦ (reject leg side q r, some e)
    ]

-- `chunks`, with `freeze_lots` from the exchange's limit in units.
unfoldable pub chunks_of : ℕ → ℕ → ℕ → List ℕ
chunks_of freeze_limit lot_size qty =
    let freeze_lots =
      if ltb 0 freeze_limit then max 1 (freeze_limit / max 1 lot_size) else 100_000 in
    slice_quantity_for_freeze (pos qty) (some (pos freeze_lots)) (some (pos 1))

-- `qty > max_allowed_lots or qty <= 0`
unfoldable pub is_disallowed : Runner → ℕ → Bool
is_disallowed r qty = ltb (max (r.quantity * 5) 50) qty || (qty == 0)

-- `"ROLL_" in str(ref_suffix).upper()`
unfoldable pub is_rollover : Text → Bool
is_rollover ref_suffix = is_infix (codes "ROLL_") (upper ref_suffix)

pub data Holding : Type 0 where
  long short : Holding

-- `"BUY" if side.upper() == "SHORT" else "SELL"`
unfoldable pub exit_side : Holding → Side
exit_side short = buy
exit_side long = sell

unfoldable pub after_exit : Runner × Option Text → Runner × Bool
after_exit (r, none) = (r, true)
after_exit (r, some e) = (record r { last_error = codes "Exit Rejected: " ++ take 120 e }, false)

unfoldable pub execute_exit : Channel → ℕ → Holding → ℕ → Text → Runner → Runner × Bool
execute_exit ch freeze_limit side qty ref_suffix r =
    let chunks = chunks_of freeze_limit r.lot_size qty in
    let leg = run_chunks ch (is_rollover ref_suffix) exit_leg (exit_side side) chunks r in
    if is_disallowed r qty then (r, false) else after_exit leg

-- `any(kw in error.lower() for kw in ("margin", "shortfall", "rms"))`
unfoldable pub is_margin : Text → Bool
is_margin e =
    any (λ kw. is_infix kw (lower e)) (codes "margin" ∷ codes "shortfall" ∷ codes "rms" ∷ [])

unfoldable pub after_entry : Runner × Option Text → Runner × Bool
after_entry (r, none) = (r, true)
after_entry (r, some e) = (
  record r {
    last_error = codes "Entry Rejected: " ++ take 120 e;
    status = if is_margin e then margin_shortfall_paused else r.status;
  },
  false,
)

unfoldable pub execute_entry : Channel → ℕ → Side → ℕ → Text → Runner → Runner × Bool
execute_entry ch freeze_limit action qty ref_suffix r =
    let chunks = chunks_of freeze_limit r.lot_size qty in
    let leg = run_chunks ch (is_rollover ref_suffix) entry_leg action chunks r in
    if is_disallowed r qty then (r, false) else after_entry leg

-- `_execute_delta`, whose chunks count as filled also after a partial failure.
unfoldable pub execute_delta : Channel → ℕ → ℤ → Runner → Runner
execute_delta ch freeze_limit delta r =
    let action = if ltb_ℤ (pos 0) delta then buy else sell in
    let leg =
      run_chunks ch false delta_leg action (chunks_of freeze_limit r.lot_size (abs delta)) r in
    if is_disallowed r (abs delta) then r else leg.0
