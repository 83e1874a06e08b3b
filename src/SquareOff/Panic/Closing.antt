-- ===== src/SquareOff/Panic/Closing.antt =====
-- client/xts_api.py, `panic_square_off_all`: the orders that it sends.
use xts_multi_tennant.Prelude.{
  All, Bool, Bool-cases, List, [], abs, arith, eqb_ℤ, false, if◌then◌else◌, inl, inr, leb_ℤ, length,
  map, negsuc, pos, pos_part, refl, some, suc, sum, true, zero, ℕ, ℤ, ◌+◌, ◌∷◌, ◌≡◌, ◌≢◌, ◌≤◌, ◌⊎◌,
}
use xts_multi_tennant.Orders.Tick.{Side, buy, sell}
use xts_multi_tennant.Orders.Slicing.{slice_quantity_for_freeze, sum-slice}
use xts_multi_tennant.SquareOff.Panic.Accounts.{open_quantity}
use xts_multi_tennant.SquareOff.Panic.{
  Reply, success, token_error, rejected, Position, Desk, Order, State, closing_side, instrument_of,
  contract_of, price_of, limit_price_of, post, logged, count_chunk, settle_chunk, close_chunk,
  close_chunks, close_position, close_positions, idle_state,
}

-- The side is against the quantity: a positive one is sold, a negative one bought.
abbrev pub Against : ℤ → Side → Type 0
Against (pos zero) side = ⊥
Against (pos (suc n)) side = side ≡ sell
Against (negsuc n) side = side ≡ buy

closing_side-Against : (q : ℤ) → eqb_ℤ q (pos 0) ≡ false → Against q (closing_side q)
unfolding closing_side
closing_side-Against (pos zero) h = absurd (cc h)
closing_side-Against (pos (suc n)) h = ground arith
closing_side-Against (negsuc n) h = ground arith

-- The order is for the position: against it, in its instrument, and for no more than it holds.
abbrev pub Reduces : Desk → Position → Order → Type 0
Reduces d p o =
    Against p.quantity o.side
    × ((o.instrument_id ≡ instrument_of d p) × (o.quantity ≤ abs p.quantity))

-- The order is for one of the open positions.
abbrev pub Closes : Desk → List Position → Order → Type 0
Closes d [] o = ⊥
Closes d (p ∷ ps) o = Reduces d p o ⊎ Closes d ps o

module _ (P : Order → Type 0) where
  logged-All : (n : ℕ) (o : Order) (sent : List Order) → P o → All P sent → All P (logged n o sent)
  unfolding logged
  logged-All zero o sent p h = h
  logged-All (suc n) o sent p h = (p, logged-All n o sent p h)

  count_chunk-sent :
      (q : ℕ) (ok : Bool) (s : State) → All P s.sent → All P (count_chunk q ok s).sent
  unfolding count_chunk
  count_chunk-sent q true s h = h
  count_chunk-sent q false s h = h

  settle_chunk-sent :
      (o : Order) (res : Bool × ℕ) (s : State)
      → P o
      → All P s.sent
      → All P (settle_chunk o res s).sent
  unfolding settle_chunk
  settle_chunk-sent o (ok, n) s p h =
      count_chunk-sent o.quantity ok (record s { sent = logged n o s.sent })
        (logged-All n o s.sent p h)

  either-sent :
      (b : Bool) (s t : State) → All P s.sent → All P t.sent → All P (if b then s else t).sent
  either-sent true s t h k = h
  either-sent false s t h k = k

  close_chunk-sent :
      (d : Desk) (o : Order) (s : State) → P o → All P s.sent → All P (close_chunk d o s).sent
  unfolding close_chunk
  close_chunk-sent d o s p h =
      let asked : State = record s { asked = s.asked + 1 } in
      either-sent (d.acquire s.asked)
        (settle_chunk o (post d (length s.sent) (d.reply (length s.sent))) asked)
        (count_chunk o.quantity false asked)
        (settle_chunk-sent o (post d (length s.sent) (d.reply (length s.sent))) asked p h)
        (count_chunk-sent o.quantity false asked h)

  close_chunks-sent :
      (d : Desk) (side : Side) (inst price : ℕ) (chunks : List ℕ) (s : State)
      → ((q : ℕ)
          → q ≤ sum chunks
          → P (record { side = side; instrument_id = inst; quantity = q; limit_price = price }))
      → All P s.sent
      → All P (close_chunks d side inst price chunks s).sent
  unfolding close_chunks
  close_chunks-sent d side inst price [] s p h = h
  close_chunks-sent d side inst price (q ∷ chunks) s p h =
      let o : Order = record {
        side = side;
        instrument_id = inst;
        quantity = q;
        limit_price = price;
      } in
      close_chunks-sent d side inst price chunks (close_chunk d o s)
        (λ k le. p k (omega (arith, le))) (close_chunk-sent d o s (p q (omega arith)) h)

  close_position-sent :
      (d : Desk) (p : Position) (s : State)
      → eqb_ℤ p.quantity (pos 0) ≡ false
      → ((o : Order) → Reduces d p o → P o)
      → All P s.sent
      → All P (close_position d p s).sent
  unfolding close_position
  close_position-sent d p s held f h =
      let side = closing_side p.quantity in
      let inst = instrument_of d p in
      let k = contract_of d p (d.by_id inst) in
      let price = price_of d inst side p in
      let limit_price = limit_price_of side (pos_part price) k.tick_size in
      let chunks =
        slice_quantity_for_freeze (pos (abs p.quantity)) (some (pos k.freeze_qty))
          (some (pos k.lot_size)) in
      let total =
        sum-slice (pos (abs p.quantity)) (some (pos k.freeze_qty)) (some (pos k.lot_size)) in
      either-sent (leb_ℤ price (pos 0)) (count_chunk (abs p.quantity) false s)
        (close_chunks d side inst limit_price chunks s)
        (count_chunk-sent (abs p.quantity) false s h)
        (close_chunks-sent d side inst limit_price chunks s
          (λ q le. f _ (closing_side-Against p.quantity held, (refl, omega (arith, le, total)))) h)

  close_positions-sent :
      (d : Desk) (ps : List Position) (s : State)
      → ((o : Order) → Closes d ps o → P o)
      → All P s.sent
      → All P (close_positions d ps s).0.sent
  unfolding close_positions
  close_positions-sent d [] s f h = h
  close_positions-sent d (p ∷ ps) s f h = elim (Bool-cases (eqb_ℤ p.quantity (pos 0))) [
    | inl flat ↦ rw (close_positions, flat) (close_positions-sent d ps s (λ o c. f o (inr c)) h)
    | inr held ↦ elim (Bool-cases (d.fails p)) [
      | inl broke ↦ rw (close_positions, held, broke) h
      | inr fine ↦
          rw (close_positions, held, fine)
            (close_positions-sent d ps (close_position d p s) (λ o c. f o (inr c))
              (close_position-sent d p s held (λ o r. f o (inl r)) h))
    ]
  ]

-- The quantity of all orders that were sent.
unfoldable pub sent_quantity : State → ℕ
sent_quantity s = sum (map (λ o. o.quantity) s.sent)

-- No answer is a token error, after which an order is sent again.
abbrev pub TokensHold : Desk → Type 0
TokensHold d = (n : ℕ) → d.reply n ≢ token_error

count_chunk-quantity :
    (q : ℕ) (ok : Bool) (s : State) → sent_quantity (count_chunk q ok s) ≡ sent_quantity s
unfolding count_chunk sent_quantity
count_chunk-quantity q true s = refl
count_chunk-quantity q false s = refl

settle_chunk-quantity :
    (d : Desk) (n : ℕ) (r : Reply) (o : Order) (s : State)
    → r ≢ token_error
    → sent_quantity (settle_chunk o (post d n r) s) ≡ o.quantity + sent_quantity s
unfolding settle_chunk post logged sent_quantity
settle_chunk-quantity d n success o s h =
    count_chunk-quantity o.quantity true (record s { sent = o ∷ s.sent })
settle_chunk-quantity d n rejected o s h =
    count_chunk-quantity o.quantity false (record s { sent = o ∷ s.sent })
settle_chunk-quantity d n token_error o s h = absurd (h refl)

-- Either of two states has sent no more than a quantity.
either-quantity :
    (n : ℕ) (b : Bool) (s t : State)
    → sent_quantity s ≤ n
    → sent_quantity t ≤ n
    → sent_quantity (if b then s else t) ≤ n
either-quantity n true s t h k = h
either-quantity n false s t h k = k

either_pair :
    (n : ℕ) (b : Bool) (x y : State × Bool)
    → sent_quantity x.0 ≤ n
    → sent_quantity y.0 ≤ n
    → sent_quantity (if b then x else y).0 ≤ n
either_pair n true x y h k = h
either_pair n false x y h k = k

asked-quantity : (s : State) → sent_quantity (record s { asked = s.asked + 1 }) ≡ sent_quantity s
unfolding sent_quantity
asked-quantity s = refl

module _ (d : Desk) (h : TokensHold d) where
  close_chunk-quantity :
      (o : Order) (s : State) → sent_quantity (close_chunk d o s) ≤ o.quantity + sent_quantity s
  unfolding close_chunk
  close_chunk-quantity o s =
      let asked : State = record s { asked = s.asked + 1 } in
      let n = length s.sent in
      either-quantity (o.quantity + sent_quantity s) (d.acquire s.asked)
        (settle_chunk o (post d n (d.reply n)) asked) (count_chunk o.quantity false asked)
        (omega (arith, settle_chunk-quantity d n (d.reply n) o asked (h n), asked-quantity s))
        (omega (arith, count_chunk-quantity o.quantity false asked, asked-quantity s))

  close_chunks-quantity :
      (side : Side) (inst price : ℕ) (chunks : List ℕ) (s : State)
      → sent_quantity (close_chunks d side inst price chunks s) ≤ sum chunks + sent_quantity s
  unfolding close_chunks
  close_chunks-quantity side inst price [] s = omega arith
  close_chunks-quantity side inst price (q ∷ chunks) s =
      let o : Order = record {
        side = side;
        instrument_id = inst;
        quantity = q;
        limit_price = price;
      } in
      omega (
        arith,
        close_chunks-quantity side inst price chunks (close_chunk d o s),
        close_chunk-quantity o s,
      )

  close_position-quantity :
      (p : Position) (s : State)
      → sent_quantity (close_position d p s) ≤ abs p.quantity + sent_quantity s
  unfolding close_position
  close_position-quantity p s =
      let side = closing_side p.quantity in
      let inst = instrument_of d p in
      let k = contract_of d p (d.by_id inst) in
      let price = price_of d inst side p in
      let limit_price = limit_price_of side (pos_part price) k.tick_size in
      let chunks =
        slice_quantity_for_freeze (pos (abs p.quantity)) (some (pos k.freeze_qty))
          (some (pos k.lot_size)) in
      let total =
        sum-slice (pos (abs p.quantity)) (some (pos k.freeze_qty)) (some (pos k.lot_size)) in
      either-quantity (abs p.quantity + sent_quantity s) (leb_ℤ price (pos 0))
        (count_chunk (abs p.quantity) false s) (close_chunks d side inst limit_price chunks s)
        (omega (arith, count_chunk-quantity (abs p.quantity) false s))
        (omega (arith, close_chunks-quantity side inst limit_price chunks s, total))

  close_positions-quantity :
      (ps : List Position) (s : State)
      → sent_quantity (close_positions d ps s).0 ≤ open_quantity ps + sent_quantity s
  unfolding close_positions open_quantity
  close_positions-quantity [] s = omega arith
  close_positions-quantity (p ∷ ps) s =
      let n = abs p.quantity + open_quantity ps + sent_quantity s in
      either_pair n (eqb_ℤ p.quantity (pos 0)) (close_positions d ps s) _
        (omega (arith, close_positions-quantity ps s))
        (either_pair n (d.fails p) (s, false) (close_positions d ps (close_position d p s))
          (omega arith)
          (omega (
            arith,
            close_positions-quantity ps (close_position d p s),
            close_position-quantity p s,
          )))

-- Whatever the broker answers, each order of the kill switch, those sent again included, is against
-- an open position of the list (a long one is sold, a short one bought), in that position's
-- instrument, and for at most the quantity it holds.
pub close_positions-Closes :
    (d : Desk) (ps : List Position) → All (Closes d ps) (close_positions d ps idle_state).0.sent
unfolding idle_state
close_positions-Closes d ps = close_positions-sent (Closes d ps) d ps idle_state (λ o c. c) tt

-- If no answer is a token error, after which an order is sent again, all orders of the kill switch
-- together are for at most the open quantity.
pub sent_quantity-close_positions :
    (d : Desk) (ps : List Position)
    → TokensHold d
    → sent_quantity (close_positions d ps idle_state).0 ≤ open_quantity ps
unfolding idle_state sent_quantity
sent_quantity-close_positions d ps h = omega (arith, close_positions-quantity d h ps idle_state)
