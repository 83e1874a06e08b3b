-- ===== src/Engine/Strategy/Consistent.antt =====
-- client/supertrend_engine.py: the derived fields and the lower bounds of a runner's configuration.
use xts_multi_tennant.Prelude.{
  Bool, Option, Text, [], arith, false, if◌then◌else◌, lower, max, none, option_map, pos_part, refl,
  some, strip, text_eq, true, ℕ, ℤ, ◌||◌, ◌≡◌, ◌≤◌,
}
use xts_multi_tennant.Engine.Strategy.{
  Config, Strategy, Side, long, short, flat, default, is_empty, key_of, clean, new_strategy,
  with_symbol, with_timeframe, with_position, set_side, side_of, rekey, with_enabled, given, raises,
  with_names, with_quantity, with_atr_period, with_multiplier, finish_update, update_config,
}

-- What the keys of a configuration leave in place.
abbrev pub IsSound : Strategy → Type 0
IsSound s =
    (is_empty s.symbol ≡ false) × ((2 ≤ s.atr_period) × ((10 ≤ s.multiplier) × (1 ≤ s.lot_size)))

-- The runner's position is stored under the key of its symbol and timeframe.
abbrev pub IsConsistent : Strategy → Type 0
IsConsistent s = IsSound s × (s.strategy_key ≡ key_of s.symbol s.timeframe)

pub new_strategy-IsConsistent :
    (stored : Text → ℤ) (fresh_id : Text) (c : Config)
    → is_empty (clean (default c.symbol [])) ≡ false
    → IsConsistent (new_strategy stored fresh_id c)
unfolding new_strategy
new_strategy-IsConsistent stored fresh_id c h =
    ((h, (omega arith, (omega arith, omega arith))), refl)

-- A choice between two runners that share a property.
pub gated {ℓ} :
    (P : Strategy → Type ℓ) (b : Bool) (s t : Strategy)
    → (b ≡ true → P s)
    → (b ≡ false → P t)
    → P (if b then s else t)
gated P true s t h k = h refl
gated P false s t h k = k refl

or_false : (a b : Bool) → (a || b) ≡ false → a ≡ false
or_false false b h = refl
or_false true b h = h

with_symbol-IsConsistent :
    (t : Option Text) (s : Strategy) → IsConsistent s → IsConsistent (with_symbol t s)
unfolding with_symbol
with_symbol-IsConsistent none s h = h
with_symbol-IsConsistent (some t) s h =
    gated IsConsistent (is_empty (clean t) || text_eq (clean t) s.symbol) s _ (λ same. h)
      (λ other. ((or_false (is_empty (clean t)) _ other, h.0.1), refl))

with_timeframe-IsConsistent :
    (t : Option Text) (s : Strategy) → IsConsistent s → IsConsistent (with_timeframe t s)
unfolding with_timeframe
with_timeframe-IsConsistent none s h = h
with_timeframe-IsConsistent (some t) s h =
    gated IsConsistent (is_empty (lower (strip t)) || text_eq (lower (strip t)) s.timeframe) s _
      (λ same. h) (λ other. (h.0, refl))

at_least :
    (low : ℕ) (q : Option ℤ) (n : ℕ)
    → low ≤ n
    → low ≤ default (option_map (λ a. max low (pos_part a)) q) n
at_least low none n h = h
at_least low (some a) n h = omega arith

with_names-IsConsistent :
    (c : Config) (s : Strategy) → IsConsistent s → IsConsistent (with_names c s)
unfolding with_names
with_names-IsConsistent c s h =
    with_timeframe-IsConsistent c.timeframe _
      (with_symbol-IsConsistent c.symbol (record s { id = default c.id s.id }) h)

with_atr_period-IsConsistent :
    (c : Config) (s : Strategy) → IsConsistent s → IsConsistent (with_atr_period c s)
unfolding with_atr_period
with_atr_period-IsConsistent c s h =
    ((h.0.0, (at_least 2 (given c.atr_period) s.atr_period h.0.1.0, h.0.1.1)), h.1)

with_multiplier-IsConsistent :
    (c : Config) (s : Strategy) → IsConsistent s → IsConsistent (with_multiplier c s)
unfolding with_multiplier
with_multiplier-IsConsistent c s h =
    ((h.0.0, (h.0.1.0, (at_least 10 (given c.multiplier) s.multiplier h.0.1.1.0, h.0.1.1.1))), h.1)

set_side-IsSound : (side : Side) (s : Strategy) → IsSound s → IsSound (set_side side s)
unfolding set_side
set_side-IsSound long s h = h
set_side-IsSound short s h = h
set_side-IsSound flat s h = h

with_position-IsSound : (q : Option ℤ) (s : Strategy) → IsSound s → IsSound (with_position q s)
unfolding with_position
with_position-IsSound none s h = h
with_position-IsSound (some q) s h = set_side-IsSound (side_of q) _ h

with_enabled-IsConsistent :
    (b : Option Bool) (s : Strategy) → IsConsistent s → IsConsistent (with_enabled b s)
unfolding with_enabled
with_enabled-IsConsistent none s h = h
with_enabled-IsConsistent (some b) s h = h

finish_update-IsConsistent :
    (c : Config) (s : Strategy) → IsConsistent s → IsConsistent (finish_update c s)
unfolding finish_update rekey
finish_update-IsConsistent c s h =
    with_enabled-IsConsistent c.is_enabled _
      (with_position-IsSound (given c.virtual_position) s h.0, refl)

-- A choice between two results of an update.
pub either_result :
    (P : Strategy → Type 0) (b : Bool) (x y : Strategy × Bool)
    → P x.0
    → P y.0
    → P (if b then x else y).0
either_result P true x y h k = h
either_result P false x y h k = k

-- An update keeps a runner consistent, also one that raises.
pub update_config-IsConsistent :
    (c : Config) (s : Strategy) → IsConsistent s → IsConsistent (update_config c s).0
unfolding update_config with_quantity
update_config-IsConsistent c s h =
    let named = with_names c s in
    let sized = with_quantity c named in
    let timed = with_atr_period c sized in
    let scaled = with_multiplier c timed in
    let first = with_names-IsConsistent c s h in
    let second = with_atr_period-IsConsistent c sized first in
    let third = with_multiplier-IsConsistent c timed second in
    either_result IsConsistent (raises c.quantity) (named, true) _ first
      (either_result IsConsistent (raises c.atr_period) (sized, true) _ first
        (either_result IsConsistent (raises c.multiplier) (timed, true) _ second
          (either_result IsConsistent (raises c.virtual_position) (scaled, true)
            (finish_update c scaled, false) third (finish_update-IsConsistent c scaled third))))
