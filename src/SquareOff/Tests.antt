-- ===== src/SquareOff/Tests.antt =====
-- Runs of the kill switch on two positions.
use xts_multi_tennant.Prelude.{
  All, Bool, List, [], codes, false, if◌then◌else◌, is_infix, negsuc, none, pos, refl, some, strip,
  text_eq, true, upper, ℕ, ◌==◌, ◌∷◌, ◌≡◌, ◌≢◌, ◌≤◌,
}
use xts_multi_tennant.Orders.Slicing.{slice_quantity_for_freeze, slice_loop}
use xts_multi_tennant.SquareOff.Cancel as Cancel
use xts_multi_tennant.SquareOff.Panic as Panic
use xts_multi_tennant.SquareOff.Panic.Accounts as Accounts
use xts_multi_tennant.SquareOff.Panic.Closing.{
  Closes, sent_quantity, sent_quantity-close_positions, close_positions-Closes,
}
use xts_multi_tennant.SquareOff.Single as Single
use xts_multi_tennant.SquareOff.Panic.Accounts.{square_off-Told}

-- An open order and one that is filled.
abbrev book : List Cancel.OpenOrder
book =
    record { status = codes "Open"; app_order_id = codes "17" }
    ∷ record { status = codes "Filled"; app_order_id = codes "18" }
    ∷ []

abbrev sweep_desk : Cancel.Desk
sweep_desk = record {
  acquire = λ n. true;
  cancel_all = Cancel.raised;
  orders = some book;
  delete_raises = λ n. false;
}

-- A cancel-all that raises leaves the open order alone in the kill switch.
nothing_deleted : (Cancel.panic_cancel sweep_desk).deleted ≡ []
unfolding Cancel.panic_cancel Cancel.panic_answered Cancel.fresh_sweep
nothing_deleted = refl

-- Five units long at a price of 100 rupees.
abbrev long_position : Panic.Position
long_position = record {
  quantity = pos 5;
  instrument_id = 7;
  trading_symbol = codes "GOLDM25OCT";
  sold = [];
  bought = pos 100_000_000 ∷ [];
}

abbrev short_position : Panic.Position
short_position = record long_position { quantity = negsuc 2; instrument_id = 8 }

-- Chunks of two units, every third order of which is rejected.
abbrev desk : Panic.Desk
desk = record {
  cancel = sweep_desk;
  positions = some (long_position ∷ short_position ∷ []);
  is_market_open = true;
  fails = λ p. false;
  id_of = λ s. 0;
  by_id = λ n. some (record { tick_size = 50_000; freeze_qty = 2; lot_size = 1 });
  by_symbol = λ s. record { tick_size = 0; freeze_qty = 0; lot_size = 0 };
  default_freeze = 100_000;
  live_price = λ n. pos 0;
  candle_close = λ n. if n == 8 then pos 90_000_000 else pos 0;
  acquire = λ n. true;
  reply = λ n. if n == 2 then Panic.rejected else Panic.success;
  refresh = λ n. true;
}

abbrev both : List Panic.Position
both = long_position ∷ short_position ∷ []

square_off-Told_example : Accounts.Told both (Panic.square_off desk (some both))
square_off-Told_example = square_off-Told desk both

close_positions-Closes_example :
    All (Closes desk both) (Panic.close_positions desk both Panic.idle_state).0.sent
close_positions-Closes_example = close_positions-Closes desk both

either_reply : (b : Bool) → (if b then Panic.rejected else Panic.success) ≢ Panic.token_error
either_reply true e = absurd (cc e)
either_reply false e = absurd (cc e)

no_token_error : (n : ℕ) → desk.reply n ≢ Panic.token_error
no_token_error n = either_reply (n == 2)

sent_quantity-close_positions_example :
    sent_quantity (Panic.close_positions desk both Panic.idle_state).0 ≤ Accounts.open_quantity both
sent_quantity-close_positions_example = sent_quantity-close_positions desk both no_token_error

-- Two units of the position, which is found by its symbol.
abbrev request : Single.Request
request = record { symbol = codes "goldm25oct"; instrument_id = 0; quantity = pos 2; side = none }

-- A position without a symbol matches every symbol that is asked for.
blank_symbol_matches : Single.is_match request (record long_position { trading_symbol = [] }) ≡ true
unfolding Single.is_match Single.clean_symbol text_eq upper strip is_infix
blank_symbol_matches = refl

-- The run above closes seven of the eight units.
abbrev closed_seven : Panic.Result → ℕ × ℕ
closed_seven (Panic.partial_failure s) = (s.closed_quantity, s.unclosed_quantity)
closed_seven _ = (0, 0)

seven_of_eight : closed_seven (Panic.square_off desk (some both)) ≡ (7, 1)
unfolding Panic.square_off Panic.close_chunks slice_quantity_for_freeze slice_loop Panic.close_chunk
seven_of_eight = refl
