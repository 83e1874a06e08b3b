-- ===== src/Portal/Alignment.antt =====
-- portal/scheduler.py: `run_market_open_fleet_alignment`. The telemetry of the clients and their
-- answers are given, positions are whole numbers of lots, and the texts of errors are left out.
use xts_multi_tennant.Prelude.{
  Bool, List, Option, Text, [], abs, all, codes, eqb_ℤ, false, if◌then◌else◌, length, map, none,
  not, pos, some, sum, text_eq, true, ℕ, ℤ, ◌&&◌, ◌+◌, ◌-ℤ◌, ◌==◌, ◌||◌, ◌∷◌, ◌≡◌,
}

-- A number in a client's telemetry: `s.get(key, 0)` is 0 where the key is missing, and `None` where
-- it holds no number.
pub data Field : Type 0 where
  missing null : Field
  number : ℤ → Field

-- A strategy in a client's telemetry. The portal's own telemetry has no `current_broker_quantity`.
pub record Strategy : Type 0 where
  pub id : Text
  pub quantity : ℤ
  pub current_trend : Text
  pub virtual_position : Field
  pub current_broker_quantity : Field

-- The answer under one address: one that is no dict, has another code than 200 or raises is
-- unusable; any other holds a status.
pub data Reply : Type 0 where
  unusable : Reply
  answered : Text → Reply

-- A client's telemetry, which is none where it or the look-up of its port raises, and the answers to a strategy's requests
-- under each address.
pub record Fleet : Type 0 where
  pub telemetry : Text → Option (List Strategy)
  pub replies : Text → Text → List Reply

-- The client, and the strategy where the failure is one of a strategy.
pub record Failure : Type 0 where
  pub tenant_id : Text
  pub strategy_id : Option Text

-- The two counters and the failures, the latest first, with the strategies to which a request went.
pub record Alignment : Type 0 where
  pub synced : ℕ
  pub already_aligned : ℕ
  pub failures : List Failure
  pub requested : List Strategy

-- `target_pos`
unfoldable pub target_pos : Strategy → ℤ
target_pos s =
    if text_eq s.current_trend (codes "BEARISH")
    then pos 0 -ℤ s.quantity
    else if text_eq s.current_trend (codes "BULLISH")
    then s.quantity
    else pos 0

-- `field == target`
unfoldable pub is_number : Field → ℤ → Bool
is_number missing z = eqb_ℤ (pos 0) z
is_number null z = false
is_number (number n) z = eqb_ℤ n z

-- The warning that precedes a request formats the virtual position as a number, and raises on `None`.
unfoldable pub is_null : Field → Bool
is_null missing = false
is_null null = true
is_null (number n) = false

-- `is_aligned`
unfoldable pub is_aligned : Strategy → Bool
unfolding target_pos is_number
is_aligned s =
    is_number s.virtual_position (target_pos s)
    && is_number s.current_broker_quantity (target_pos s)

-- `synced_ok` after the addresses: the first answer that is usable decides.
unfoldable pub synced_ok : List Reply → Bool
synced_ok [] = false
synced_ok (unusable ∷ rest) = synced_ok rest
synced_ok (answered status ∷ rest) =
    text_eq status (codes "SUCCESS") || text_eq status (codes "ALREADY_SYNCED")

-- One strategy of a client.
unfoldable pub align_strategy : Fleet → Text → Strategy → Alignment → Alignment
unfolding is_aligned synced_ok
align_strategy f t_id s a =
    if is_aligned s
    then record a { already_aligned = a.already_aligned + 1 }
    else if synced_ok (f.replies t_id s.id)
    then record a { synced = a.synced + 1; requested = s ∷ a.requested }
    else record a {
      failures = record { tenant_id = t_id; strategy_id = some s.id } ∷ a.failures;
      requested = s ∷ a.requested;
    }

-- `failures.append({"tenant_id": t_id, "error": str(e)})`
unfoldable pub fail_tenant : Text → Alignment → Alignment
fail_tenant t_id a = record a {
  failures = record { tenant_id = t_id; strategy_id = none } ∷ a.failures;
}

-- `for s in strategies`: one that raises ends the client.
unfoldable pub align_strategies : Fleet → Text → List Strategy → Alignment → Alignment
unfolding align_strategy fail_tenant is_null
align_strategies f t_id [] a = a
align_strategies f t_id (s ∷ rest) a =
    let after = align_strategies f t_id rest (align_strategy f t_id s a) in
    if is_null s.virtual_position then fail_tenant t_id a else after

-- One client: a telemetry that raises is a failure of the client.
unfoldable pub align_tenant : Text → Option (List Strategy) → Fleet → Alignment → Alignment
unfolding align_strategies fail_tenant
align_tenant t_id none f a = fail_tenant t_id a
align_tenant t_id (some strategies) f a = align_strategies f t_id strategies a

unfoldable pub align_tenants : Fleet → List Text → Alignment → Alignment
unfolding align_tenant
align_tenants f [] a = a
align_tenants f (t_id ∷ rest) a = align_tenants f rest (align_tenant t_id (f.telemetry t_id) f a)

-- `run_market_open_fleet_alignment` with the identifiers of the active clients.
unfoldable pub run_market_open_fleet_alignment : Fleet → List Text → Alignment
unfolding align_tenants
run_market_open_fleet_alignment f active =
    align_tenants f active
      (record { synced = 0; already_aligned = 0; failures = []; requested = [] })

-- The number that a field is read as, where it holds one.
abbrev pub value : Field → ℤ
value missing = pos 0
value null = pos 0
value (number n) = n

-- By how many lots the two positions miss the quantity in the direction of the trend.
abbrev pub drift : ℤ → ℤ → ℤ → ℕ
drift target v b = abs (v -ℤ target) + abs (b -ℤ target)

-- Both positions are numbers and miss nothing.
pub on_target : Strategy → Bool
on_target s =
    not (is_null s.virtual_position || is_null s.current_broker_quantity)
    && drift (target_pos s) (value s.virtual_position) (value s.current_broker_quantity) == 0

-- The strategies of a client that are gone through, to the one that raises, which counts as well.
pub seen_count : List Strategy → ℕ
seen_count [] = 0
seen_count (s ∷ rest) =
    let later = seen_count rest in if is_null s.virtual_position then 1 else 1 + later

-- Those of them that are on their target.
pub on_target_count : List Strategy → ℕ
on_target_count [] = 0
on_target_count (s ∷ rest) =
    let later = on_target_count rest in
    if is_null s.virtual_position then 0 else (if on_target s then 1 else 0) + later

-- Both for a client, whose telemetry may raise: that is one failure.
pub seen_of : Option (List Strategy) → ℕ
seen_of none = 1
seen_of (some strategies) = seen_count strategies

pub on_target_of : Option (List Strategy) → ℕ
on_target_of none = 0
on_target_of (some strategies) = on_target_count strategies

-- From one state of the report to a later one: so many entries are made, so many of them for
-- strategies on their target, and the new requests are for strategies that are off it.
pub record Grows (seen aligned : ℕ) (a a' : Alignment) : Type 0 where
  pub entries :
      a'.synced + a'.already_aligned + length a'.failures
      ≡ a.synced + a.already_aligned + length a.failures + seen
  pub settled : a'.already_aligned ≡ a.already_aligned + aligned
  pub off_target :
      all (λ s. not (on_target s)) a.requested ≡ true
      → all (λ s. not (on_target s)) a'.requested ≡ true

-- The report on some clients.
abbrev pub IsReport : Fleet → List Text → Alignment → Type 0
IsReport f active a =
    (a.synced + a.already_aligned + length a.failures
      ≡ sum (map (λ t. seen_of (f.telemetry t)) active))
    × ((a.already_aligned ≡ sum (map (λ t. on_target_of (f.telemetry t)) active))
        × (all (λ s. not (on_target s)) a.requested ≡ true))
