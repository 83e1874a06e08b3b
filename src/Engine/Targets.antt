-- ===== src/Engine/Targets.antt =====
-- client/supertrend_engine.py, `MultiSuperTrendEngine.get_portfolio_target_positions`: the lots that
-- the enabled runners of each symbol want together.
use xts_multi_tennant.Prelude.{
  Bool, Bool-cases, List, Text, [], ap, false, if◌then◌else◌, inl, inr, int_laws, not, pos, refl,
  subst, sym, text_eq, text_eq→≡, true, ℤ, ◌&&◌, ◌+ℤ◌, ◌∙◌, ◌∷◌, ◌≡◌,
}
use xts_multi_tennant.Engine.Strategy.{Strategy, is_empty, default}
use xts_multi_tennant.Dicts.{lookup, assign}
use xts_multi_tennant.Dicts.Laws.{lookup-assign, lookup-assign-other}

-- One runner in the loop: `targets.get(runner.symbol, 0) + runner.virtual_position`.
unfoldable pub add_target : List (Text × ℤ) → Strategy → List (Text × ℤ)
unfolding is_empty
add_target targets s =
    if s.is_enabled && not (is_empty s.symbol)
    then assign s.symbol (default (lookup s.symbol targets) (pos 0) +ℤ s.virtual_position) targets
    else targets

unfoldable pub targets_from : List (Text × ℤ) → List (Text × Strategy) → List (Text × ℤ)
targets_from targets [] = targets
targets_from targets ((k, s) ∷ rest) = targets_from (add_target targets s) rest

unfoldable pub get_portfolio_target_positions : List (Text × Strategy) → List (Text × ℤ)
unfolding targets_from
get_portfolio_target_positions xs = targets_from [] xs

-- `r.is_enabled and r.symbol == target_sym`
unfoldable pub is_runner_of : Text → Strategy → Bool
is_runner_of symbol s = s.is_enabled && text_eq s.symbol symbol

-- `sum(r.virtual_position for r in runners_for_sym)`
unfoldable pub net_target : Text → List (Text × Strategy) → ℤ
unfolding is_runner_of
net_target symbol [] = pos 0
net_target symbol ((k, s) ∷ rest) =
    let others = net_target symbol rest in
    if is_runner_of symbol s then s.virtual_position +ℤ others else others

target_of : Text → List (Text × ℤ) → ℤ
target_of symbol targets = default (lookup symbol targets) (pos 0)

-- What one runner adds to the target of a symbol.
share : Text → Strategy → ℤ
share symbol s = if is_runner_of symbol s then s.virtual_position else pos 0

by_clause : (b : Bool) (p q : ℤ) → (if b then p +ℤ q else q) ≡ (if b then p else pos 0) +ℤ q
by_clause true p q = refl
by_clause false p q = grind int_laws

by_share :
    (symbol : Text) (s : Strategy) (q : ℤ)
    → (if is_runner_of symbol s then s.virtual_position +ℤ q else q) ≡ share symbol s +ℤ q
unfolding share
by_share symbol s q = by_clause (is_runner_of symbol s) s.virtual_position q

zero_lem : (p : ℤ) → p ≡ p +ℤ pos 0
zero_lem p = grind int_laws

-- The entry of a symbol after the entry of a symbol has grown.
grown_lem :
    (b : Bool) (key symbol : Text) (q : ℤ) (targets : List (Text × ℤ))
    → is_empty symbol ≡ false
    → target_of symbol (
        if b && not (is_empty key)
        then assign key (target_of key targets +ℤ q) targets
        else targets)
      ≡ target_of symbol targets +ℤ (if b && text_eq key symbol then q else pos 0)
unfolding target_of
grown_lem false key symbol q targets h = zero_lem _
grown_lem true key symbol q targets h = elim (Bool-cases (text_eq key symbol)) [
  | inl same ↦
      let e = text_eq→≡ key symbol same in
      rw (same, ap is_empty e ∙ h)
        (subst
          (λ k.
            default (lookup symbol (assign k (default (lookup k targets) (pos 0) +ℤ q) targets))
              (pos 0)
            ≡ default (lookup symbol targets) (pos 0) +ℤ q)
          (sym e) (ap (λ o. default o (pos 0)) (lookup-assign symbol _ targets)))
  | inr other ↦ rw other (elim (Bool-cases (is_empty key)) [
    | inl blank ↦ rw blank (zero_lem _)
    | inr named ↦
        rw named (
          ap (λ o. default o (pos 0)) (lookup-assign-other key symbol _ targets other) ∙ zero_lem _)
  ])
]

add_target-share :
    (symbol : Text) (targets : List (Text × ℤ)) (s : Strategy)
    → is_empty symbol ≡ false
    → target_of symbol (add_target targets s) ≡ target_of symbol targets +ℤ share symbol s
unfolding add_target target_of share is_runner_of
add_target-share symbol targets s h =
    grown_lem s.is_enabled s.symbol symbol s.virtual_position targets h

move_lem : (a b c : ℤ) → (a +ℤ b) +ℤ c ≡ a +ℤ (b +ℤ c)
move_lem a b c = grind int_laws

targets_from-net :
    (symbol : Text) (targets : List (Text × ℤ)) (xs : List (Text × Strategy))
    → is_empty symbol ≡ false
    → target_of symbol (targets_from targets xs) ≡ target_of symbol targets +ℤ net_target symbol xs
unfolding targets_from net_target
targets_from-net symbol targets [] h = zero_lem _
targets_from-net symbol targets ((k, s) ∷ rest) h =
    targets_from-net symbol (add_target targets s) rest h
    ∙ (ap (λ t. t +ℤ net_target symbol rest) (add_target-share symbol targets s h)
        ∙ (move_lem _ _ _
            ∙ ap (λ q. target_of symbol targets +ℤ q)
                (sym (by_share symbol s (net_target symbol rest)))))

zero_add : (p : ℤ) → pos 0 +ℤ p ≡ p
zero_add p = grind int_laws

-- For every symbol, the engine's target is the sum of the positions of the enabled runners that
-- trade it, and 0 where there is none.
pub get_portfolio_target_positions-net :
    (symbol : Text) (xs : List (Text × Strategy))
    → is_empty symbol ≡ false
    → default (lookup symbol (get_portfolio_target_positions xs)) (pos 0) ≡ net_target symbol xs
unfolding get_portfolio_target_positions target_of lookup
get_portfolio_target_positions-net symbol xs h = targets_from-net symbol [] xs h ∙ zero_add _
