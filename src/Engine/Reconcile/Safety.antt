-- ===== src/Engine/Reconcile/Safety.antt =====
-- client/supertrend_engine.py, `reconcile_portfolio_drift`: one symbol from the guards to the orders.
use xts_multi_tennant.Prelude.{
  Bool, List, Text, [], abs, ap, arith, eqb_ℤ, false, if◌then◌else◌, int_laws, ltb, map, max, neg_ℕ,
  negsuc, pos, refl, some, subst, suc, sum, sym, true, zero, ℕ, ℤ, ◌*◌, ◌+ℤ◌, ◌+◌, ◌-ℤ◌, ◌==◌, ◌||◌,
  ◌∙◌, ◌∷◌, ◌≡◌, ◌≤◌,
}
use xts_multi_tennant.Supertrend.Legs.{shift}
use xts_multi_tennant.Supertrend.Balance.{shift_zero}
use xts_multi_tennant.Engine.Strategy.{Strategy}
use xts_multi_tennant.Engine.Registry.{Engine}
use xts_multi_tennant.Dicts.{each}
use xts_multi_tennant.Engine.Targets.{is_runner_of, net_target}
use xts_multi_tennant.Engine.Reconcile.{
  Instrument, Broker, World, runners_of, heal_side, heal, max_allowed_drift, align, inspect,
  observe, on_runners, actual_broker_lots, has_inflight, lot_size_of, is_suppressed,
  reconcile_symbol,
}
use xts_multi_tennant.Engine.Reconcile.Heals.{net, Closing, gated, heal-Closing}

-- So many lots in the direction of a difference: bought where it is positive, sold where negative.
abbrev pub toward : ℤ → ℕ → ℤ
toward (pos d) n = pos n
toward (negsuc d) n = neg_ℕ n

-- At most the missing lots and at most `cap` lots are bought, if the target is above what is held,
-- or sold, if it is below.
abbrev pub Capped : ℕ → ℤ → ℤ → ℤ → ℤ → Type 0
Capped cap actual target p p' =
    (n : ℕ) × ((n ≤ abs (target -ℤ actual)) × ((n ≤ cap) × (p' ≡ p +ℤ toward (target -ℤ actual) n)))

toward_lem :
    (delta p : ℤ) (n : ℕ) → n ≤ abs delta → shift (heal_side delta) p n ≡ p +ℤ toward delta n
unfolding shift heal_side
toward_lem (pos zero) p n h = grind int_laws
toward_lem (pos (suc d)) p n h = grind int_laws
toward_lem (negsuc d) p n h = grind int_laws

idle : (cap : ℕ) (actual target p : ℤ) → Capped cap actual target p p
idle cap actual target p = (
  0,
  (
    omega arith,
    (
      omega arith,
      sym (shift_zero (heal_side (target -ℤ actual)) p)
          ∙ toward_lem (target -ℤ actual) p 0 (omega arith),
    ),
  ),
)

within_lem :
    (cap : ℕ) (actual target : ℤ)
    → ltb cap (abs (actual -ℤ target)) ≡ false
    → abs (target -ℤ actual) ≤ cap
within_lem cap actual target h = grind int_laws

capped_lem :
    (cap : ℕ) (actual target p p' : ℤ)
    → abs (target -ℤ actual) ≤ cap
    → Closing actual target p p'
    → Capped cap actual target p p'
capped_lem cap actual target p p' le (n, less, e) =
    (n, (less, (omega (arith, less, le), e ∙ toward_lem (target -ℤ actual) p n less)))

-- What a runner is to its symbol: whether it counts, its position and its quantity.
part : Text → Strategy → Bool × (ℤ × ℕ)
part symbol s = (is_runner_of symbol s, (s.virtual_position, s.quantity))

chosen-part :
    (b : Bool) (symbol : Text) (s t : Strategy)
    → part symbol t ≡ part symbol s
    → part symbol (if b then t else s) ≡ part symbol s
chosen-part true symbol s t h = h
chosen-part false symbol s t h = refl

-- A write that keeps every runner's part keeps the target and the cap.
each-net_target :
    (symbol : Text) (f : Strategy → Strategy) (xs : List (Text × Strategy))
    → ((s : Strategy) → part symbol (f s) ≡ part symbol s)
    → net_target symbol (each f xs) ≡ net_target symbol xs
unfolding net_target each part
each-net_target symbol f [] h = refl
each-net_target symbol f ((k, s) ∷ rest) h =
    ap
      (λ d.
        if d.0 then d.1.0 +ℤ net_target symbol (each f rest) else net_target symbol (each f rest))
      (h s)
    ∙ ap (λ q. if is_runner_of symbol s then s.virtual_position +ℤ q else q)
        (each-net_target symbol f rest h)

lots_of_runners : Text → List (Text × Strategy) → ℕ
lots_of_runners symbol xs = sum (map (λ s. s.quantity) (runners_of symbol xs))

lots_step :
    (b : Bool) (s : Strategy) (rest : List Strategy)
    → sum (map (λ r. r.quantity) (if b then s ∷ rest else rest)) ≡ (
        if b
        then s.quantity + sum (map (λ r. r.quantity) rest)
        else sum (map (λ r. r.quantity) rest))
lots_step true s rest = refl
lots_step false s rest = refl

each-lots :
    (symbol : Text) (f : Strategy → Strategy) (xs : List (Text × Strategy))
    → ((s : Strategy) → part symbol (f s) ≡ part symbol s)
    → lots_of_runners symbol (each f xs) ≡ lots_of_runners symbol xs
unfolding lots_of_runners runners_of each part
each-lots symbol f [] h = refl
each-lots symbol f ((k, s) ∷ rest) h =
    lots_step (is_runner_of symbol (f s)) (f s) (runners_of symbol (each f rest))
    ∙ (ap
          (λ d.
            if d.0
            then d.1.1 + lots_of_runners symbol (each f rest)
            else lots_of_runners symbol (each f rest))
          (h s)
        ∙ (ap (λ q. if is_runner_of symbol s then s.quantity + q else q) (each-lots symbol f rest h)
            ∙ sym (lots_step (is_runner_of symbol s) s (runners_of symbol rest))))

observe-part :
    (symbol : Text) (actual : ℤ) (s : Strategy)
    → part symbol (if is_runner_of symbol s then observe actual s else s) ≡ part symbol s
unfolding part observe is_runner_of
observe-part symbol actual s = chosen-part (is_runner_of symbol s) symbol s _ refl

observed-target :
    (symbol : Text) (actual : ℤ) (e : Engine)
    → net_target symbol (on_runners symbol (observe actual) e).strategies
      ≡ net_target symbol e.strategies
unfolding on_runners
observed-target symbol actual e = each-net_target symbol _ e.strategies (observe-part symbol actual)

observed-cap :
    (symbol : Text) (actual : ℤ) (e : Engine)
    → max_allowed_drift symbol (on_runners symbol (observe actual) e) ≡ max_allowed_drift symbol e
unfolding on_runners max_allowed_drift lots_of_runners
observed-cap symbol actual e =
    ap (λ n. max (n * 2) 10) (each-lots symbol _ e.strategies (observe-part symbol actual))

module _ (b : Broker) (symbol : Text) where
  align-Capped :
      (lot : ℕ) (actual target : ℤ) (w : World)
      → target ≡ net_target symbol w.engine.strategies
      → Capped
          (max_allowed_drift symbol w.engine)
          actual
          target
          (net w.sent)
          (net (align b symbol lot actual target w).sent)
  unfolding align
  align-Capped lot actual target w same =
      let cap = max_allowed_drift symbol w.engine in
      let P = λ (w' : World). Capped cap actual target (net w.sent) (net w'.sent) in
      gated P (eqb_ℤ actual target) w _ (λ level. idle cap actual target (net w.sent))
        (λ drift.
          gated P (ltb cap (abs (actual -ℤ target))) _ _
            (λ over. idle cap actual target (net w.sent))
            (λ within.
              capped_lem cap actual target (net w.sent) _ (within_lem cap actual target within) (
                subst
                  (λ t. Closing actual t (net w.sent) (
                    net
                      (heal b symbol lot actual
                        (record w { drift_count = w.drift_count + 1 })).sent))
                  (sym same)
                  (heal-Closing b symbol lot actual
                    (record w { drift_count = w.drift_count + 1 })))))

  -- Whatever the orders are answered, the orders of a reconciliation of a symbol with its contract
  -- that are taken, paper ones included and each with its whole quantity, are for at most the lots
  -- that the broker's position lacks from the target of its runners, they buy where the target is
  -- above the position and sell where it is below, and they are for no more than twice the lots of
  -- the runners, or 10 where that is more.
  pub reconcile_symbol-Capped :
      (inst : Instrument) (w : World)
      → b.resolve symbol ≡ some inst
      → Capped
          (max (sum (map (λ s. s.quantity) (runners_of symbol w.engine.strategies)) * 2) 10)
          (actual_broker_lots b inst)
          (net_target symbol w.engine.strategies)
          (net w.sent)
          (net (reconcile_symbol b symbol (net_target symbol w.engine.strategies) w).sent)
  unfolding reconcile_symbol inspect max_allowed_drift
  reconcile_symbol-Capped inst w found =
      let target = net_target symbol w.engine.strategies in
      let cap = max_allowed_drift symbol w.engine in
      let actual = actual_broker_lots b inst in
      let w' = record w { engine = on_runners symbol (observe actual) w.engine } in
      let P = λ (v : World). Capped cap actual target (net w.sent) (net v.sent) in
      gated P (is_suppressed b symbol w.engine) w _ (λ quiet. idle cap actual target (net w.sent))
        (λ awake.
          subst (λ o. P (inspect b symbol target o w)) (sym found)
            (gated P ((inst.inst_id == 0) || has_inflight b symbol inst) w _
              (λ busy. idle cap actual target (net w.sent))
              (λ free.
                subst
                  (λ c.
                    Capped c actual target (net w.sent)
                      (net (align b symbol (lot_size_of inst) actual target w').sent))
                  (observed-cap symbol actual w.engine)
                  (align-Capped (lot_size_of inst) actual target w'
                    (sym (observed-target symbol actual w.engine))))))
