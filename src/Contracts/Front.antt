-- ===== src/Contracts/Front.antt =====
-- client/xts_api.py, `_resolve_front_month`: the contract that a symbol stands for today. An expiry is
-- a date's ordinal, none for `NO_EXPIRY`. The master data are given; logs are left out.
use xts_multi_tennant.Prelude.{
  All, Bool, Bool-cases, List, Option, Text, [], arith, codes, if◌then◌else◌, inl, inr, keep,
  length, ltb, none, not, refl, some, some_inj, subst, suc, text_eq, true, zero, ℕ, ◌+◌, ◌-◌, ◌||◌,
  ◌∷◌, ◌≡◌, ◌≤◌,
}
use xts_multi_tennant.Dicts.{lookup}
use xts_multi_tennant.Market.Rollover.{Moment, is_commodity_past_rollover}
use xts_multi_tennant.Contracts.Symbols.{alphanum_only}

-- A tuple of the master cache.
pub record Contract : Type 0 where
  pub expiry : Option ℕ
  pub exch_id : ℕ
  pub exch_seg : Text
  pub desc : Text
  pub tick_size : ℕ
  pub lot_size : ℕ
  pub freeze_qty : ℕ

-- A cache with the names under their normalized form.
pub record Cache : Type 0 where
  pub contracts : List (Text × List Contract)
  pub norm_map : List (Text × Text)

-- `name in cache and cache[name]`
unfoldable pub contracts_of : Cache → Text → List Contract
unfolding lookup
contracts_of cache name = elim (lookup name cache.contracts) [ none ↦ [] | some cs ↦ cs ]

-- The contracts of a name that the normalized names may lead to.
unfoldable pub contracts_at : Cache → Option Text → List Contract
unfolding contracts_of
contracts_at cache none = []
contracts_at cache (some matched) = contracts_of cache matched

-- The contracts of the name that `_lookup_exact_or_normalized` finds; [] where it finds none.
unfoldable pub lookup_exact_or_normalized : Text → Cache → List Contract
unfolding contracts_of contracts_at lookup alphanum_only
lookup_exact_or_normalized name cache = elim (contracts_of cache name) [
  | [] ↦ contracts_at cache (lookup (alphanum_only name) cache.norm_map)
  | c ∷ cs ↦ c ∷ cs
]

unfoldable pub is_commodity_segment : Text → Bool
is_commodity_segment seg = text_eq seg (codes "MCXFO") || text_eq seg (codes "NCDEX")

-- A contract that may be traded; `min_days` is MIN_DAYS_BEFORE_EXPIRY_DERIVATIVES.
unfoldable pub is_tradable : ℕ → Moment → Contract → Bool
unfolding is_commodity_segment
is_tradable min_days now c = elim c.expiry [
  | none ↦ true
  | some exp_date ↦
      if is_commodity_segment c.exch_seg
      then not (is_commodity_past_rollover (some exp_date) now)
      else ltb (now.day + min_days) exp_date
]

-- `candidates[min(max(0, depth - 1), len(candidates) - 1)]`
unfoldable pub nth_or_last : ℕ → List Contract → Option Contract
nth_or_last n [] = none
nth_or_last n (c ∷ []) = some c
nth_or_last zero (c ∷ (d ∷ rest)) = some c
nth_or_last (suc n) (c ∷ (d ∷ rest)) = nth_or_last n (d ∷ rest)

-- `valid_contracts if valid_contracts else available_contracts`
unfoldable pub or_all : List Contract → List Contract → List Contract
or_all [] available = available
or_all (c ∷ cs) available = c ∷ cs

unfoldable pub front_of : ℕ → Moment → ℕ → List Contract → Option Contract
unfolding or_all nth_or_last
front_of min_days now depth available =
    nth_or_last (depth - 1) (or_all (keep (is_tradable min_days now) available) available)

-- The search through the caches, the first match in which decides.
unfoldable pub search_queues : ℕ → Moment → ℕ → Text → List Cache → Option Contract
unfolding lookup_exact_or_normalized front_of
search_queues min_days now depth name [] = none
search_queues min_days now depth name (cache ∷ rest) =
    let later = search_queues min_days now depth name rest in
    elim (lookup_exact_or_normalized name cache) [
      | [] ↦ later
      | c ∷ cs ↦ front_of min_days now depth (c ∷ cs)
    ]

-- Futures are looked for first where a future is meant.
unfoldable pub resolve_front_month : ℕ → Moment → Cache → Cache → Text → Bool → ℕ → Option Contract
unfolding search_queues
resolve_front_month min_days now futures cash name is_future_intent depth =
    search_queues min_days now depth name
      (if is_future_intent then futures ∷ cash ∷ [] else cash ∷ futures ∷ [])

unfoldable pub product_type : Contract → Text
product_type c =
    if text_eq c.exch_seg (codes "NSECM") || text_eq c.exch_seg (codes "BSECM")
    then codes "MIS"
    else codes "NRML"

keep-All : (p : Contract → Bool) (cs : List Contract) → All (λ c. p c ≡ true) (keep p cs)
keep-All p [] = tt
keep-All p (c ∷ cs) = elim (Bool-cases (p c)) [
  | inl passes ↦ rw passes (passes, keep-All p cs)
  | inr fails ↦ rw fails (keep-All p cs)
]

nth_or_last-All :
    (P : Contract → Type 0) (n : ℕ) (cs : List Contract) (c : Contract)
    → All P cs
    → nth_or_last n cs ≡ some c
    → P c
unfolding nth_or_last
nth_or_last-All P n [] c a e = absurd (cc e)
nth_or_last-All P n (d ∷ []) c a e = subst P (some_inj.0 e) a.0
nth_or_last-All P zero (d ∷ (d' ∷ rest)) c a e = subst P (some_inj.0 e) a.0
nth_or_last-All P (suc n) (d ∷ (d' ∷ rest)) c a e = nth_or_last-All P n (d' ∷ rest) c a.1 e

nth_or_last-some :
    (n : ℕ) (c : Contract) (cs : List Contract) → (d : Contract) × (nth_or_last n (c ∷ cs) ≡ some d)
unfolding nth_or_last
nth_or_last-some n c [] = (c, refl)
nth_or_last-some zero c (d ∷ rest) = (c, refl)
nth_or_last-some (suc n) c (d ∷ rest) = nth_or_last-some n d rest

kept_front :
    (P : Contract → Type 0) (n : ℕ) (kept available : List Contract)
    → All P kept
    → 1 ≤ length kept
    → (c : Contract) × ((nth_or_last n (or_all kept available) ≡ some c) × P c)
unfolding or_all
kept_front P n [] available a h = absurd (omega (arith, h))
kept_front P n (k ∷ ks) available a h =
    let (c, e) = nth_or_last-some n k ks in (c, (e, nth_or_last-All P n (k ∷ ks) c a e))

-- Where a contract of the list may be traded, one that may be traded is chosen, whatever the depth:
-- without an expiry, before its rollover for a commodity, or far enough from its expiry.
front_of-is_tradable :
    (min_days : ℕ) (now : Moment) (depth : ℕ) (available : List Contract)
    → 1 ≤ length (keep (is_tradable min_days now) available)
    → (c : Contract) × ((front_of min_days now depth available ≡ some c)
        × (is_tradable min_days now c ≡ true))
unfolding front_of
front_of-is_tradable min_days now depth available h =
    kept_front (λ c. is_tradable min_days now c ≡ true) (depth - 1)
      (keep (is_tradable min_days now) available) available
      (keep-All (is_tradable min_days now) available) h
