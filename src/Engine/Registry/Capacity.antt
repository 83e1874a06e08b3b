-- ===== src/Engine/Registry/Capacity.antt =====
-- client/supertrend_engine.py, `MultiSuperTrendEngine`: the engines that its calls reach, and what
-- they keep.
use xts_multi_tennant.Prelude.{
  Bool, Bool-cases, List, Option, Option-cases, Text, arith, false, if◌then◌else◌, inl, inr, length,
  none, option_map, some, strip, subst, sym, text_eq, true, ◌≡◌, ◌≤◌,
}
use xts_multi_tennant.Engine.Strategy.{Strategy, is_empty}
use xts_multi_tennant.Engine.Strategy.Consistent.{IsConsistent}
use xts_multi_tennant.Engine.Registry.{
  Engine, migrate, or_find, find_timed, get_strategy, primary_runner,
}
use xts_multi_tennant.Dicts.{lookup, assign, erase, each, find}
use xts_multi_tennant.Dicts.Laws.{
  Distinct, Every, assign-Distinct, assign-Every, length-assign-old, lookup-Every, find-Every,
  find-lookup, erase-Distinct, erase-Every, length-erase, each-Distinct, each-Every, length-each,
}

-- At most `max_strategies` runners, each under a key of its own and consistent.
abbrev pub IsRegistered : Engine → Type 0
IsRegistered e =
    (length e.strategies ≤ e.max_strategies)
    × (Distinct e.strategies × Every IsConsistent e.strategies)

-- A found runner is consistent, and its key is taken.
abbrev pub Found : List (Text × Strategy) → Option (Text × Strategy) → Type 0
Found xs none = Unit
Found xs (some (k, s)) = IsConsistent s × ((b : Strategy) × (lookup k xs ≡ some b))

or_find-Found :
    (xs : List (Text × Strategy)) (a b : Option (Text × Strategy))
    → Found xs a
    → Found xs b
    → Found xs (or_find a b)
unfolding or_find
or_find-Found xs none b h k = k
or_find-Found xs (some a) b h k = h

pub find-Found :
    (test : Text → Strategy → Bool) (xs : List (Text × Strategy))
    → Every IsConsistent xs
    → Found xs (find test xs)
find-Found test xs e = elim (Option-cases (find test xs)) [
  | inl miss ↦ subst (Found xs) (sym miss) tt
  | inr ((k, s), hit) ↦
      subst (Found xs) (sym hit)
        (find-Every IsConsistent test k s xs hit e, find-lookup test k s xs hit)
]

lookup-Found :
    (key : Text) (xs : List (Text × Strategy))
    → Every IsConsistent xs
    → Found xs (option_map (λ s. (key, s)) (lookup key xs))
lookup-Found key xs e = elim (Option-cases (lookup key xs)) [
  | inl miss ↦ subst (λ o. Found xs (option_map (λ s. (key, s)) o)) (sym miss) tt
  | inr (s, hit) ↦
      subst (λ o. Found xs (option_map (λ s. (key, s)) o)) (sym hit)
        (lookup-Every IsConsistent key s xs hit e, (s, hit))
]

find_timed-Found :
    (key : Text) (timeframe : Option Text) (xs : List (Text × Strategy))
    → Every IsConsistent xs
    → Found xs (find_timed key timeframe xs)
unfolding find_timed
find_timed-Found key none xs e = tt
find_timed-Found key (some t) xs e = elim (Bool-cases (is_empty t)) [
  | inl blank ↦ rw (find_timed, blank) tt
  | inr named ↦ rw (find_timed, named) (find-Found _ xs e)
]

pub get_strategy-Found :
    (key : Text) (timeframe : Option Text) (xs : List (Text × Strategy))
    → Every IsConsistent xs
    → Found xs (get_strategy key timeframe xs)
unfolding get_strategy
get_strategy-Found key timeframe xs e = or_find-Found xs _ _ (lookup-Found (strip key) xs e) (
    or_find-Found xs _ _ (find-Found _ xs e)
      (or_find-Found xs _ _ (find_timed-Found (strip key) timeframe xs e) (find-Found _ xs e)))

pub primary_runner-Found :
    (xs : List (Text × Strategy)) → Every IsConsistent xs → Found xs (primary_runner xs)
unfolding primary_runner
primary_runner-Found xs e = or_find-Found xs _ _ (find-Found _ xs e) (find-Found _ xs e)

-- A write to a key that is taken.
pub rewrite-IsRegistered :
    (k : Text) (s b : Strategy) (e : Engine)
    → IsRegistered e
    → lookup k e.strategies ≡ some b
    → IsConsistent s
    → IsRegistered (record e { strategies = assign k s e.strategies })
rewrite-IsRegistered k s b e h l c = (
  subst (λ n. n ≤ e.max_strategies) (sym (length-assign-old k s b e.strategies l)) h.0,
  (assign-Distinct k s e.strategies h.1.0, assign-Every IsConsistent k s e.strategies c h.1.1),
)

-- A write to every runner that keeps it consistent.
pub each-IsRegistered :
    (f : Strategy → Strategy) (e : Engine)
    → ((s : Strategy) → IsConsistent s → IsConsistent (f s))
    → IsRegistered e
    → IsRegistered (record e { strategies = each f e.strategies })
each-IsRegistered f e c h = (
  subst (λ n. n ≤ e.max_strategies) (sym (length-each f e.strategies)) h.0,
  (each-Distinct f e.strategies h.1.0, each-Every IsConsistent f e.strategies c h.1.1),
)

pub erase-IsRegistered :
    (k : Text) (e : Engine)
    → IsRegistered e
    → IsRegistered (record e { strategies = erase k e.strategies })
erase-IsRegistered k e h = (
  omega (arith, length-erase k e.strategies, h.0),
  (erase-Distinct k e.strategies h.1.0, erase-Every IsConsistent k e.strategies h.1.1),
)

pub migrate-IsConsistent :
    (symbol : Text) (s : Strategy) → IsConsistent s → IsConsistent (migrate symbol s)
unfolding migrate
migrate-IsConsistent symbol s h = elim (Bool-cases (text_eq s.symbol symbol)) [
  | inl same ↦ rw (migrate, same) h
  | inr other ↦ rw (migrate, other) h
]

pub either-IsRegistered :
    (b : Bool) (e e' : Engine)
    → IsRegistered e
    → IsRegistered e'
    → IsRegistered (if b then e else e')
either-IsRegistered true e e' h k = h
either-IsRegistered false e e' h k = k
