-- ===== src/SquareOff/Single.antt =====
-- client/xts_api.py, `square_off_single_position`: one open position is closed, in the quantity and
-- with the side that are asked for, if any. The desk and the counting are those of the kill switch;
-- an order is not tried again here, and a look-up does not raise.
use xts_multi_tennant.Prelude.{
  Bool, List, Option, Text, [], abs, arith, eqb_ℤ, false, if◌then◌else◌, is_infix, leb_ℤ, length,
  ltb_ℤ, none, not, pos, pos_part, refl, some, strip, sum, text_eq, true, upper, ℕ, ℤ, ◌&&◌, ◌+◌,
  ◌==◌, ◌||◌, ◌∷◌, ◌≡◌,
}
use xts_multi_tennant.Orders.Tick.{Side}
use xts_multi_tennant.Orders.Slicing.{slice_quantity_for_freeze, sum-slice}
use xts_multi_tennant.SquareOff.Panic.{
  Position, Desk, Reply, success, Order, State, compact, closing_side, contract_of, price_of,
  limit_price_of, count_chunk, settle_chunk, idle_state,
}
use xts_multi_tennant.SquareOff.Panic.Accounts.{
  Accounts, recount, same_totals, count_chunk-Accounts, settle_chunk-Accounts, either-Accounts,
}

-- The arguments; an instrument of 0, an empty symbol and a quantity that is not positive count as
-- missing.
pub record Request : Type 0 where
  pub symbol : Text
  pub instrument_id : ℕ
  pub quantity : ℤ
  pub side : Option Side

-- `target_sym_clean` and `p_sym_clean`
unfoldable pub clean_symbol : Text → Text
unfolding compact
clean_symbol s = upper (compact s)

-- The symbol of a position is asked for, or one of the two is a part of the other.
unfoldable pub is_same_symbol : Text → Text → Bool
is_same_symbol target s =
    not (text_eq target []) && (text_eq s target || is_infix target s || is_infix s target)

unfoldable pub is_match : Request → Position → Bool
unfolding clean_symbol is_same_symbol
is_match r p =
    not (r.instrument_id == 0) && (p.instrument_id == r.instrument_id)
    || is_same_symbol (clean_symbol r.symbol) (clean_symbol (strip p.trading_symbol))

-- `matched_pos`
unfoldable pub matched_pos : Request → List Position → Option Position
unfolding is_match
matched_pos r [] = none
matched_pos r (p ∷ ps) =
    let later = matched_pos r ps in
    if not (eqb_ℤ p.quantity (pos 0)) && is_match r p then some p else later

unfoldable pub side_of : Request → Position → Side
unfolding closing_side
side_of r p = elim r.side [ none ↦ closing_side p.quantity | some side ↦ side ]

-- `abs(quantity) if (quantity is not None and quantity > 0) else abs(qty_in_pos)`
unfoldable pub square_quantity : Request → Position → ℕ
square_quantity r p = if ltb_ℤ (pos 0) r.quantity then pos_part r.quantity else abs p.quantity

unfoldable pub is_success : Reply → Bool
is_success success = true
is_success _ = false

unfoldable pub send_chunk : Desk → Order → State → State
unfolding count_chunk settle_chunk is_success
send_chunk d o s =
    let asked : State = record s { asked = s.asked + 1 } in
    if d.acquire s.asked
    then settle_chunk o (is_success (d.reply (length s.sent)), 1) asked
    else count_chunk o.quantity false asked

unfoldable pub send_chunks : Desk → Side → ℕ → ℕ → List ℕ → State → State
send_chunks d side inst price [] s = s
send_chunks d side inst price (q ∷ chunks) s = send_chunks d side inst price chunks (
    send_chunk d (record { side = side; instrument_id = inst; quantity = q; limit_price = price })
      s)

pub data Result : Type 0 where
  paper_mode auth_failed no_positions not_found no_price : Result
  failed partial_success squared_off : State → Result

-- The status, by the lists of failed and of successful chunks.
unfoldable pub verdict : List ℕ → List ℕ → State → Result
verdict [] closed s = squared_off s
verdict (q ∷ qs) [] s = failed s
verdict (q ∷ qs) (c ∷ cs) s = partial_success s

unfoldable pub conclude : State → Result
unfolding verdict
conclude s = verdict s.failed s.closed s

unfoldable pub square_off_position : Desk → Request → Option Position → Result
unfolding side_of square_quantity price_of limit_price_of contract_of send_chunks conclude
    idle_state
square_off_position d r none = not_found
square_off_position d r (some p) =
    let side = side_of r p in
    let k = contract_of d p (d.by_id p.instrument_id) in
    let price = price_of d p.instrument_id side p in
    let chunks =
      slice_quantity_for_freeze (pos (square_quantity r p)) (some (pos k.freeze_qty))
        (some (pos k.lot_size)) in
    if leb_ℤ price (pos 0)
    then no_price
    else conclude (
        send_chunks d side p.instrument_id (limit_price_of side (pos_part price) k.tick_size) chunks
          idle_state)

unfoldable pub among : Desk → Request → Option (List Position) → Result
unfolding square_off_position matched_pos
among d r none = no_positions
among d r (some ps) = square_off_position d r (matched_pos r ps)

unfoldable pub square_off_single_position : Bool → Bool → Desk → Request → Result
unfolding among
square_off_single_position is_paper has_token d r =
    if is_paper then paper_mode else if not has_token then auth_failed else among d r d.positions

send_chunk-Accounts :
    (n : ℕ) (d : Desk) (o : Order) (s : State)
    → Accounts n s
    → Accounts (n + o.quantity) (send_chunk d o s)
unfolding send_chunk
send_chunk-Accounts n d o s h =
    let asked = same_totals s (s.asked + 1) s.sent h in
    either-Accounts (n + o.quantity) (d.acquire s.asked) _ _
      (settle_chunk-Accounts n o (is_success (d.reply (length s.sent)), 1)
        (record s { asked = s.asked + 1 }) asked)
      (count_chunk-Accounts n o.quantity false (record s { asked = s.asked + 1 }) asked)

send_chunks-Accounts :
    (n : ℕ) (d : Desk) (side : Side) (inst price : ℕ) (chunks : List ℕ) (s : State)
    → Accounts n s
    → Accounts (n + sum chunks) (send_chunks d side inst price chunks s)
unfolding send_chunks
send_chunks-Accounts n d side inst price [] s h = recount s (omega arith) h
send_chunks-Accounts n d side inst price (q ∷ chunks) s h =
    let o : Order = record {
      side = side;
      instrument_id = inst;
      quantity = q;
      limit_price = price;
    } in
    recount (send_chunks d side inst price chunks (send_chunk d o s)) (omega arith) (
      send_chunks-Accounts (n + q) d side inst price chunks (send_chunk d o s)
        (send_chunk-Accounts n d o s h))

-- What a result says of the quantity that was to be closed, of a position that was found.
abbrev pub Told : Request → Option Position → Result → Type 0
Told r o (squared_off s) =
    (p : Position) × ((o ≡ some p)
      × ((s.closed_quantity ≡ square_quantity r p) × (s.unclosed_quantity ≡ 0)))
Told r o (failed s) =
    (p : Position) × ((o ≡ some p)
      × ((s.closed_quantity ≡ 0) × (s.unclosed_quantity ≡ square_quantity r p)))
Told r o (partial_success s) =
    (p : Position) × ((o ≡ some p)
      × (s.closed_quantity + s.unclosed_quantity ≡ square_quantity r p))
Told r o not_found = o ≡ none
Told r o no_price = (p : Position) × (o ≡ some p)
Told r o _ = ⊥

verdict-Told :
    (r : Request) (p : Position) (failed closed : List ℕ) (s : State)
    → s.closed_quantity ≡ sum closed
    → s.unclosed_quantity ≡ sum failed
    → Accounts (square_quantity r p) s
    → Told r (some p) (verdict failed closed s)
unfolding verdict
verdict-Told r p [] closed s c f h = (p, (refl, (omega (arith, f, h.whole), f)))
verdict-Told r p (q ∷ qs) [] s c f h = (p, (refl, (c, omega (arith, c, h.whole))))
verdict-Told r p (q ∷ qs) (k ∷ ks) s c f h = (p, (refl, h.whole))

either-Told :
    (r : Request) (o : Option Position) (b : Bool) (x y : Result)
    → Told r o x
    → Told r o y
    → Told r o (if b then x else y)
either-Told r o true x y h k = h
either-Told r o false x y h k = k

-- Whatever the broker answers, a result accounts for the quantity that was asked for, or the
-- position's where none was: after a success all of it is closed, after a failure none, and after a
-- partial success the closed and the unclosed part make it up.
square_off_position-Told :
    (d : Desk) (r : Request) (o : Option Position) → Told r o (square_off_position d r o)
unfolding square_off_position conclude idle_state
square_off_position-Told d r none = refl
square_off_position-Told d r (some p) =
    let side = side_of r p in
    let k = contract_of d p (d.by_id p.instrument_id) in
    let price = price_of d p.instrument_id side p in
    let limit_price = limit_price_of side (pos_part price) k.tick_size in
    let chunks =
      slice_quantity_for_freeze (pos (square_quantity r p)) (some (pos k.freeze_qty))
        (some (pos k.lot_size)) in
    let s : State = send_chunks d side p.instrument_id limit_price chunks idle_state in
    let total =
      sum-slice (pos (square_quantity r p)) (some (pos k.freeze_qty)) (some (pos k.lot_size)) in
    let h : Accounts (square_quantity r p) s = recount s (omega (arith, total)) (
      send_chunks-Accounts 0 d side p.instrument_id limit_price chunks idle_state
        (record { closed_total = refl; failed_total = refl; whole = refl })) in
    either-Told r (some p) (leb_ℤ price (pos 0)) _ _ (p, refl)
      (verdict-Told r p s.failed s.closed s h.closed_total h.failed_total h)
