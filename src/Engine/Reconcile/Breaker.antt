-- ===== src/Engine/Reconcile/Breaker.antt =====
-- client/supertrend_engine.py, `reconcile_portfolio_drift`: the margin breaker, the backoff, and what
-- a reconciliation keeps of the engine.
use xts_multi_tennant.Prelude.{
  Bool, Bool-cases, List, Option, Text, [], abs, all, any, ap, arith, eqb_ℤ, false, if◌then◌else◌,
  inl, inr, length, ltb, negsuc, none, pos, refl, some, suc, true, zero, ℕ, ℤ, ◌+ℤ◌, ◌+◌, ◌-ℤ◌,
  ◌||◌, ◌∙◌, ◌∷◌, ◌≡◌,
}
use xts_multi_tennant.Orders.Tick as Tick
use xts_multi_tennant.Supertrend.Legs.{chunks_of}
use xts_multi_tennant.Engine.Strategy.{Strategy, Side, long, short, flat, side_of, set_side}
use xts_multi_tennant.Engine.Strategy.Consistent.{IsConsistent}
use xts_multi_tennant.Engine.Registry.{Engine, paused}
use xts_multi_tennant.Dicts.{lookup, each}
use xts_multi_tennant.Dicts.Laws.{lookup-assign}
use xts_multi_tennant.Engine.Registry.Capacity.{
  IsRegistered, each-IsRegistered, either-IsRegistered,
}
use xts_multi_tennant.Engine.Targets.{is_runner_of, net_target, get_portfolio_target_positions}
use xts_multi_tennant.Engine.Reconcile.{
  Instrument, Broker, World, runners_of, is_paper, is_held_back, is_suppressed, is_order_ok,
  is_margin_issue, halt, trip, cool_down, punish, send, heal_chunks, heal_side, heal,
  max_allowed_drift, align, inspect, observe, on_runners, actual_broker_lots, reconcile_symbol,
  reconcile_all, reconcile_portfolio_drift,
}

or_true : (a b c : Bool) → b ≡ true → (a || b || c) ≡ true
or_true true b c h = refl
or_true false true c h = refl
or_true false false c h = absurd (cc h)

-- After a rejection for want of margin, no reconciliation of the symbol does anything, whatever the
-- broker reports, the target and the time, until the breaker's entry is removed.
trip-latches :
    (b : Broker) (symbol desc : Text) (actual target : ℤ) (w : World)
    → reconcile_symbol b symbol target (record w { engine = trip symbol actual desc w.engine })
      ≡ record w { engine = trip symbol actual desc w.engine }
unfolding reconcile_symbol is_suppressed trip is_held_back
trip-latches b symbol desc actual target w =
    let e = trip symbol actual desc w.engine in
    let found =
      lookup-assign symbol (paused desc)
        (on_runners symbol (halt actual desc) w.engine).rejections in
    rw
      (or_true (all is_paper (runners_of symbol e.strategies))
        (is_held_back b.now (lookup symbol e.rejections)) _ (ap (is_held_back b.now) found))
      refl

halt-position : (q : ℤ) (desc : Text) (s : Strategy) → (halt q desc s).virtual_position ≡ q
unfolding halt set_side side_of
halt-position (pos zero) desc s = refl
halt-position (pos (suc n)) desc s = ground arith
halt-position (negsuc n) desc s = ground arith

set_side-symbol :
    (symbol : Text) (side : Side) (s : Strategy)
    → is_runner_of symbol (set_side side s) ≡ is_runner_of symbol s
unfolding set_side is_runner_of
set_side-symbol symbol long s = refl
set_side-symbol symbol short s = refl
set_side-symbol symbol flat s = refl

halt-symbol :
    (symbol : Text) (q : ℤ) (desc : Text) (s : Strategy)
    → is_runner_of symbol (halt q desc s) ≡ is_runner_of symbol s
unfolding halt is_runner_of
halt-symbol symbol q desc s = set_side-symbol symbol (side_of q) _

-- n times an integer.
unfoldable pub times : ℕ → ℤ → ℤ
times zero q = pos 0
times (suc n) q = q +ℤ times n q

halted_entry :
    (b : Bool) (symbol : Text) (q : ℤ) (desc : Text) (s : Strategy) (others : ℤ)
    → is_runner_of symbol s ≡ b
    → (if is_runner_of symbol (if b then halt q desc s else s)
        then (if b then halt q desc s else s).virtual_position +ℤ others
        else others)
      ≡ (if b then q +ℤ others else others)
halted_entry true symbol q desc s others h =
    rw (halt-symbol symbol q desc s ∙ h) (ap (λ p. p +ℤ others) (halt-position q desc s))
halted_entry false symbol q desc s others h = rw h refl

times_step :
    (b : Bool) (s : Strategy) (rest : List Strategy) (q : ℤ)
    → (if b then q +ℤ times (length rest) q else times (length rest) q)
      ≡ times (length (if b then s ∷ rest else rest)) q
unfolding times
times_step true s rest q = refl
times_step false s rest q = refl

halted-net_target :
    (symbol : Text) (q : ℤ) (desc : Text) (xs : List (Text × Strategy))
    → net_target symbol (each (λ s. if is_runner_of symbol s then halt q desc s else s) xs)
      ≡ times (length (runners_of symbol xs)) q
unfolding net_target each runners_of times
halted-net_target symbol q desc [] = refl
halted-net_target symbol q desc ((k, s) ∷ rest) =
    halted_entry (is_runner_of symbol s) symbol q desc s _ refl
    ∙ (ap (λ o. if is_runner_of symbol s then q +ℤ o else o) (halted-net_target symbol q desc rest)
        ∙ times_step (is_runner_of symbol s) s (runners_of symbol rest) q)

-- The margin breaker sets every runner of the symbol to the broker's position, so that together they
-- want it as many times as there are enabled runners of the symbol.
pub trip-net_target :
    (symbol desc : Text) (actual : ℤ) (e : Engine)
    → net_target symbol (trip symbol actual desc e).strategies
      ≡ times (length (runners_of symbol e.strategies)) actual
unfolding trip on_runners
trip-net_target symbol desc actual e = halted-net_target symbol actual desc e.strategies

chosen-IsConsistent :
    (b : Bool) (s t : Strategy)
    → IsConsistent s
    → IsConsistent t
    → IsConsistent (if b then t else s)
chosen-IsConsistent true s t h k = k
chosen-IsConsistent false s t h k = h

on_runners-IsRegistered :
    (symbol : Text) (f : Strategy → Strategy) (e : Engine)
    → ((s : Strategy) → IsConsistent s → IsConsistent (f s))
    → IsRegistered e
    → IsRegistered (on_runners symbol f e)
unfolding on_runners
on_runners-IsRegistered symbol f e c h =
    each-IsRegistered _ e (λ s k. chosen-IsConsistent (is_runner_of symbol s) s (f s) k (c s k)) h

set_side-IsConsistent :
    (side : Side) (s : Strategy) → IsConsistent s → IsConsistent (set_side side s)
unfolding set_side
set_side-IsConsistent long s h = h
set_side-IsConsistent short s h = h
set_side-IsConsistent flat s h = h

trip-IsRegistered :
    (symbol desc : Text) (actual : ℤ) (e : Engine)
    → IsRegistered e
    → IsRegistered (trip symbol actual desc e)
unfolding trip halt
trip-IsRegistered symbol desc actual e h =
    on_runners-IsRegistered symbol (halt actual desc) e
      (λ s c. set_side-IsConsistent (side_of actual) _ c) h

punish-IsRegistered :
    (b : Broker) (symbol desc : Text) (actual : ℤ) (e : Engine)
    → IsRegistered e
    → IsRegistered (punish b symbol actual desc e)
unfolding punish cool_down
punish-IsRegistered b symbol desc actual e h =
    either-IsRegistered (is_margin_issue desc) _ _ (trip-IsRegistered symbol desc actual e h) h

-- The engine is still registered.
record IsKept (w : World) : Type 0 where
  pub registered : IsRegistered w.engine

either-IsKept : (b : Bool) (w w' : World) → IsKept w → IsKept w' → IsKept (if b then w else w')
either-IsKept true w w' h k = h
either-IsKept false w w' h k = k

heal_chunks-IsKept :
    (b : Broker) (symbol : Text) (actual : ℤ) (action : Tick.Side) (p : Bool) (chunks : List ℕ)
    (w : World)
    → IsKept w
    → IsKept (heal_chunks b symbol actual action p chunks w)
unfolding heal_chunks send
heal_chunks-IsKept b symbol actual action p [] w h = h
heal_chunks-IsKept b symbol actual action p (q ∷ chunks) w h =
    elim (Bool-cases (is_order_ok (b.answer (length w.sent)))) [
      | inl ok ↦
          rw (heal_chunks, ok)
            (heal_chunks-IsKept b symbol actual action p chunks _
              (record { registered = h.registered }))
      | inr failed ↦
          rw (heal_chunks, failed)
            (record { registered = punish-IsRegistered b symbol _ actual w.engine h.registered })
    ]

heal-IsKept :
    (b : Broker) (symbol : Text) (lot : ℕ) (actual : ℤ) (w : World)
    → IsKept w
    → IsKept (heal b symbol lot actual w)
unfolding heal
heal-IsKept b symbol lot actual w h =
    let delta = net_target symbol w.engine.strategies -ℤ actual in
    either-IsKept (eqb_ℤ actual (net_target symbol w.engine.strategies)) w _ (h) (
      heal_chunks-IsKept b symbol actual (heal_side delta)
        (any is_paper (runners_of symbol w.engine.strategies))
        (chunks_of b.freeze_limit lot (abs delta)) w h)

align-IsKept :
    (b : Broker) (symbol : Text) (lot : ℕ) (actual target : ℤ) (w : World)
    → IsKept w
    → IsKept (align b symbol lot actual target w)
unfolding align
align-IsKept b symbol lot actual target w h =
    let counted = record w { drift_count = w.drift_count + 1 } in
    either-IsKept (eqb_ℤ actual target) w _ h (
      either-IsKept (ltb (max_allowed_drift symbol w.engine) (abs (actual -ℤ target))) _ _
        (record { registered = h.registered })
        (heal-IsKept b symbol lot actual counted (record { registered = h.registered })))

inspect-IsKept :
    (b : Broker) (symbol : Text) (target : ℤ) (o : Option Instrument) (w : World)
    → IsKept w
    → IsKept (inspect b symbol target o w)
unfolding inspect observe
inspect-IsKept b symbol target none w h = h
inspect-IsKept b symbol target (some inst) w h = either-IsKept _ w _ (h) (
    align-IsKept b symbol _ _ target _ (record {
      registered =
          on_runners-IsRegistered symbol (observe (actual_broker_lots b inst)) w.engine (λ s c. c)
            h.registered;
    }))

reconcile_all-IsKept :
    (b : Broker) (targets : List (Text × ℤ)) (w : World)
    → IsKept w
    → IsKept (reconcile_all b targets w)
unfolding reconcile_all reconcile_symbol
reconcile_all-IsKept b [] w h = h
reconcile_all-IsKept b ((symbol, target) ∷ rest) w h = reconcile_all-IsKept b rest _ (
    either-IsKept (is_suppressed b symbol w.engine) w _ (h)
      (inspect-IsKept b symbol target (b.resolve symbol) w h))

pub reconcile_portfolio_drift-IsRegistered :
    (b : Broker) (e : Engine) → IsRegistered e → IsRegistered (reconcile_portfolio_drift b e).engine
unfolding reconcile_portfolio_drift
reconcile_portfolio_drift-IsRegistered b e h =
    (reconcile_all-IsKept b (get_portfolio_target_positions e.strategies)
      (record { engine = e; sent = []; drift_count = 0; actions = [] })
      (record { registered = h })).registered
