-- ===== src/SquareOff/Panic/Accounts.antt =====
-- client/xts_api.py, `panic_square_off_all`: the quantities that it reports.
use xts_multi_tennant.Prelude.{
  Bool, Bool-cases, List, [], abs, arith, eqb_ℤ, false, if◌then◌else◌, inl, inr, leb_ℤ, not, pos,
  pos_part, refl, some, subst, sum, true, ℕ, ℤ, ◌+◌, ◌∙◌, ◌∷◌, ◌≡◌,
}
use xts_multi_tennant.Orders.Tick.{Side}
use xts_multi_tennant.Orders.Slicing.{slice_quantity_for_freeze, sum-slice}
use xts_multi_tennant.SquareOff.Panic.{
  Position, Desk, Order, State, Result, closing_side, instrument_of, contract_of, price_of,
  limit_price_of, logged, count_chunk, settle_chunk, close_chunk, close_chunks, close_position,
  close_positions, verdict, finish, idle_state, square_off, open_count, suppressed, broken,
  paper_mode, auth_failed, all_failed, partial_failure, all_closed,
}

-- The quantity that is open.
unfoldable pub open_quantity : List Position → ℕ
open_quantity [] = 0
open_quantity (p ∷ ps) = abs p.quantity + open_quantity ps

-- The totals are those of the lists, and account for a quantity.
pub record Accounts (n : ℕ) (s : State) : Type 0 where
  pub closed_total : s.closed_quantity ≡ sum s.closed
  pub failed_total : s.unclosed_quantity ≡ sum s.failed
  pub whole : s.closed_quantity + s.unclosed_quantity ≡ n

pub count_chunk-Accounts :
    (n q : ℕ) (ok : Bool) (s : State) → Accounts n s → Accounts (n + q) (count_chunk q ok s)
unfolding count_chunk
count_chunk-Accounts n q true s h = record {
  closed_total = omega (arith, h.closed_total);
  failed_total = h.failed_total;
  whole = omega (arith, h.whole);
}
count_chunk-Accounts n q false s h = record {
  closed_total = h.closed_total;
  failed_total = omega (arith, h.failed_total);
  whole = omega (arith, h.whole);
}

-- What does not touch the totals.
pub same_totals :
    {n : ℕ} (s : State) (asked : ℕ) (sent : List Order)
    → Accounts n s
    → Accounts n (record s { asked = asked; sent = sent })
same_totals s asked sent h = record {
  closed_total = h.closed_total;
  failed_total = h.failed_total;
  whole = h.whole;
}

pub settle_chunk-Accounts :
    (n : ℕ) (o : Order) (res : Bool × ℕ) (s : State)
    → Accounts n s
    → Accounts (n + o.quantity) (settle_chunk o res s)
unfolding settle_chunk
settle_chunk-Accounts n o (ok, k) s h =
    count_chunk-Accounts n o.quantity ok _ (same_totals s s.asked (logged k o s.sent) h)

pub recount : {n m : ℕ} (s : State) → n ≡ m → Accounts n s → Accounts m s
recount s e h = record {
  closed_total = h.closed_total;
  failed_total = h.failed_total;
  whole = h.whole ∙ e;
}

pub either-Accounts :
    (n : ℕ) (b : Bool) (s t : State) → Accounts n s → Accounts n t → Accounts n (if b then s else t)
either-Accounts n true s t h k = h
either-Accounts n false s t h k = k

close_chunk-Accounts :
    (n : ℕ) (d : Desk) (o : Order) (s : State)
    → Accounts n s
    → Accounts (n + o.quantity) (close_chunk d o s)
unfolding close_chunk
close_chunk-Accounts n d o s h =
    let asked = same_totals s (s.asked + 1) s.sent h in
    either-Accounts (n + o.quantity) (d.acquire s.asked) _ _
      (settle_chunk-Accounts n o _ (record s { asked = s.asked + 1 }) asked)
      (count_chunk-Accounts n o.quantity false (record s { asked = s.asked + 1 }) asked)

close_chunks-Accounts :
    (n : ℕ) (d : Desk) (side : Side) (inst price : ℕ) (chunks : List ℕ) (s : State)
    → Accounts n s
    → Accounts (n + sum chunks) (close_chunks d side inst price chunks s)
unfolding close_chunks
close_chunks-Accounts n d side inst price [] s h = recount s (omega arith) h
close_chunks-Accounts n d side inst price (q ∷ chunks) s h =
    let o : Order = record {
      side = side;
      instrument_id = inst;
      quantity = q;
      limit_price = price;
    } in
    recount (close_chunks d side inst price chunks (close_chunk d o s)) (omega arith) (
      close_chunks-Accounts (n + q) d side inst price chunks (close_chunk d o s)
        (close_chunk-Accounts n d o s h))

close_position-Accounts :
    (n : ℕ) (d : Desk) (p : Position) (s : State)
    → Accounts n s
    → Accounts (n + abs p.quantity) (close_position d p s)
unfolding close_position
close_position-Accounts n d p s h =
    let side = closing_side p.quantity in
    let inst = instrument_of d p in
    let k = contract_of d p (d.by_id inst) in
    let price = price_of d inst side p in
    let limit_price = limit_price_of side (pos_part price) k.tick_size in
    let chunks =
      slice_quantity_for_freeze (pos (abs p.quantity)) (some (pos k.freeze_qty))
        (some (pos k.lot_size)) in
    either-Accounts (n + abs p.quantity) (leb_ℤ price (pos 0)) _ _
      (count_chunk-Accounts n (abs p.quantity) false s h)
      (subst (λ m. Accounts (n + m) (close_chunks d side inst limit_price chunks s))
        (sum-slice (pos (abs p.quantity)) (some (pos k.freeze_qty)) (some (pos k.lot_size)))
        (close_chunks-Accounts n d side inst limit_price chunks s h))

flat_lem : (q : ℤ) → eqb_ℤ q (pos 0) ≡ true → abs q ≡ 0
flat_lem q h = ground arith

close_positions-Accounts :
    (n : ℕ) (d : Desk) (ps : List Position) (s : State)
    → Accounts n s
    → (close_positions d ps s).1 ≡ true
    → Accounts (n + open_quantity ps) (close_positions d ps s).0
unfolding close_positions open_quantity
close_positions-Accounts n d [] s h e = recount s (omega arith) h
close_positions-Accounts n d (p ∷ ps) s h e = elim (Bool-cases (eqb_ℤ p.quantity (pos 0))) [
  | inl flat ↦
      rw (close_positions, flat)
        (recount (close_positions d ps s).0 (omega (arith, flat_lem p.quantity flat))
          (close_positions-Accounts n d ps s h (rw (close_positions, flat) at e)))
  | inr held ↦ elim (Bool-cases (d.fails p)) [
    | inl broke ↦ absurd (cc (rw (close_positions, held, broke) at e))
    | inr fine ↦
        rw (close_positions, held, fine)
          (recount (close_positions d ps (close_position d p s)).0 (omega arith) (
            close_positions-Accounts (n + abs p.quantity) d ps (close_position d p s)
              (close_position-Accounts n d p s h) (rw (close_positions, held, fine) at e)))
  ]
]

-- What a result says of the positions.
abbrev pub Told : List Position → Result → Type 0
Told ps (all_closed s) = (s.closed_quantity ≡ open_quantity ps) × (s.unclosed_quantity ≡ 0)
Told ps (all_failed s) = (s.closed_quantity ≡ 0) × (s.unclosed_quantity ≡ open_quantity ps)
Told ps (partial_failure s) =
    (s.closed_quantity + s.unclosed_quantity ≡ open_quantity ps)
    × ((s.closed_quantity ≡ sum s.closed) × (s.unclosed_quantity ≡ sum s.failed))
Told ps (suppressed n) = n ≡ open_count ps
Told ps (broken n) = Unit
Told ps paper_mode = ⊥
Told ps auth_failed = ⊥

verdict-Told :
    (ps : List Position) (failed closed : List ℕ) (s : State)
    → s.closed_quantity ≡ sum closed
    → s.unclosed_quantity ≡ sum failed
    → Accounts (open_quantity ps) s
    → Told ps (verdict failed closed s)
unfolding verdict
verdict-Told ps [] closed s c f h = (omega (arith, f, h.whole), f)
verdict-Told ps (q ∷ qs) [] s c f h = (c, omega (arith, c, h.whole))
verdict-Told ps (q ∷ qs) (k ∷ ks) s c f h = (h.whole, (h.closed_total, h.failed_total))

finish-Told :
    (ps : List Position) (res : State × Bool)
    → (res.1 ≡ true → Accounts (open_quantity ps) res.0)
    → Told ps (finish res)
unfolding finish
finish-Told ps (s, false) h = tt
finish-Told ps (s, true) h =
    let k = h refl in verdict-Told ps s.failed s.closed s k.closed_total k.failed_total k

either-Told :
    (ps : List Position) (b : Bool) (r r' : Result)
    → Told ps r
    → Told ps r'
    → Told ps (if b then r else r')
either-Told ps true r r' h k = h
either-Told ps false r r' h k = k

-- Whatever the broker answers, a result over given positions accounts for them, unless a look-up
-- that raises has broken the run off, of which nothing is said: after a success the
-- whole open quantity is closed and none is left, after a complete failure none is closed, after a
-- partial one the closed and the unclosed quantity are those of the chunks and make up the whole, and
-- a closed market reports the number of open positions.
pub square_off-Told : (d : Desk) (ps : List Position) → Told ps (square_off d (some ps))
unfolding square_off idle_state
square_off-Told d ps = either-Told ps (not d.is_market_open) _ _ refl (
    finish-Told ps (close_positions d ps idle_state) (λ e.
      recount (close_positions d ps idle_state).0 (omega arith) (
        close_positions-Accounts 0 d ps idle_state
          (record { closed_total = refl; failed_total = refl; whole = refl }) e)))
