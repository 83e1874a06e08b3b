-- ===== src/Orders/Limiter.antt =====
-- client/xts_api.py, `TokenBucketRateLimiter`: the pace of the requests that change orders.
-- Time is in milliseconds and a token is 1000 parts, so that the refill of `rate` tokens a second
-- is exact. The clock is the list of its readings; it is assumed not to run backwards.
use native.Mathlib.Nat.{mul-le-mul, le_refl}
use xts_multi_tennant.Prelude.{
  Bool, Bool-cases, List, Option, [], ap, arith, false, if◌then◌else◌, inl, inr, leb, length, ltb,
  min, none, some, suc, true, ℕ, ◌*◌, ◌+◌, ◌-◌, ◌<◌, ◌∷◌, ◌≡◌, ◌≢◌, ◌≤◌,
}

-- One token, in parts.
abbrev pub token : ℕ
token = 1000

pub record TokenBucket : Type 0 where
  pub rate : ℕ
  pub capacity : ℕ
  pub tokens : ℕ
  pub last_update : ℕ

-- `__init__`
pub new_bucket : ℕ → ℕ → ℕ → TokenBucket
new_bucket rate capacity now = record {
  rate = rate;
  capacity = capacity * token;
  tokens = capacity * token;
  last_update = now;
}

-- The critical section of `acquire` at the reading `now`: refill, then take a token if there is one.
unfoldable pub attempt : TokenBucket → ℕ → Bool × TokenBucket
attempt b now =
    let tokens = min b.capacity (b.tokens + (now - b.last_update) * b.rate) in
    if leb token tokens
    then (true, record b { tokens = tokens - token; last_update = now })
    else (false, record b { tokens = tokens; last_update = now })

-- `(time.time() - start) + required_wait > timeout`, multiplied by the rate.
unfoldable pub gives_up : TokenBucket → ℕ → ℕ → ℕ → Bool
gives_up b start timeout now = ltb (timeout * b.rate) ((now - start) * b.rate + (token - b.tokens))

-- The loop of `acquire`. Each round reads the clock in the critical section and again for the time
-- out; `none` stands for a caller that still waits when the readings end.
unfoldable pub acquire_loop : TokenBucket → ℕ → ℕ → List (ℕ × ℕ) → Option Bool × TokenBucket
acquire_loop b start timeout [] = (none, b)
acquire_loop b start timeout ((now, later) ∷ readings) =
    let (granted, b') = attempt b now in
    let rest = acquire_loop b' start timeout readings in
    if granted
    then (some true, b')
    else if gives_up b' start timeout later
    then (some false, b')
    else rest

-- `acquire`, its `start_time` first.
unfoldable pub acquire : TokenBucket → ℕ → ℕ → List (ℕ × ℕ) → Option Bool × TokenBucket
unfolding acquire_loop attempt gives_up
acquire b timeout start readings = acquire_loop b start timeout readings

-- All callers' critical sections, in the order in which they got the lock: how many were granted.
unfoldable pub grants : TokenBucket → List ℕ → ℕ × TokenBucket
grants b [] = (0, b)
grants b (now ∷ nows) =
    let (granted, b') = attempt b now in
    let (n, b'') = grants b' nows in (if granted then n + 1 else n, b'')

-- The readings do not run backwards, and end by `stop`.
abbrev pub Ascending : ℕ → List ℕ → ℕ → Type 0
Ascending start [] stop = start ≤ stop
Ascending start (now ∷ nows) stop = (start ≤ now) × Ascending now nows stop

attempt-budget :
    (b : TokenBucket) (now : ℕ)
    → b.last_update ≤ now
    → let (granted, b') = attempt b now in
      (b'.rate ≡ b.rate)
      × (b'.capacity ≡ b.capacity)
      × (b'.last_update ≡ now)
      × ((if granted then token else 0) + b'.tokens ≤ b.tokens + (now - b.last_update) * b.rate)
      × (b'.tokens ≤ b.capacity)
unfolding attempt
attempt-budget b now h = ground arith

Ascending-le : (start stop : ℕ) (nows : List ℕ) → Ascending start nows stop → start ≤ stop
Ascending-le start stop [] h = h
Ascending-le start stop (now ∷ nows) h = omega (arith, Ascending-le now stop nows h.1, h.0)

span : (a b c r : ℕ) → a ≤ b → b ≤ c → (b - a) * r + (c - b) * r ≡ (c - a) * r
span a b c r h k =
    let e : (b - a) + (c - b) ≡ c - a = omega arith in omega (arith, ap (λ (t : ℕ). t * r) e)

-- Whatever the callers do, the granted requests are paid for by the tokens at the start and by the
-- refill of the time that has passed.
pub grants-budget :
    (b : TokenBucket) (nows : List ℕ) (stop : ℕ)
    → Ascending b.last_update nows stop
    → token * (grants b nows).0 + (grants b nows).1.tokens
      ≤ b.tokens + (stop - b.last_update) * b.rate
unfolding grants
grants-budget b [] stop h = grind arith
grants-budget b (now ∷ nows) stop (h, hs) =
    let one = attempt-budget b now h in
    let later : Ascending (attempt b now).1.last_update nows stop = rw (one.2) hs in
    ground (
      arith,
      one,
      grants-budget (attempt b now).1 nows stop later,
      span b.last_update now stop b.rate h (Ascending-le now stop nows hs),
    )

-- The bucket never holds more than its capacity.
grants-capacity :
    (b : TokenBucket) (nows : List ℕ)
    → b.tokens ≤ b.capacity
    → (grants b nows).1.tokens ≤ b.capacity
unfolding grants attempt
grants-capacity b [] h = h
grants-capacity b (now ∷ nows) h = ground (arith, grants-capacity (attempt b now).1 nows)

-- In any stretch of time, from any bucket within its capacity, no more requests are granted than
-- the capacity and the rate allow, and the bucket is left within its capacity.
pub grants-rate :
    (b : TokenBucket) (nows : List ℕ) (stop : ℕ)
    → b.tokens ≤ b.capacity
    → Ascending b.last_update nows stop
    → (token * (grants b nows).0 ≤ b.capacity + (stop - b.last_update) * b.rate)
      × ((grants b nows).1.tokens ≤ b.capacity)
grants-rate b nows stop h asc =
    (omega (arith, grants-budget b nows stop asc), grants-capacity b nows h)

-- The readings of a caller's rounds from the `k`-th on: a round sleeps for 10 ms at least.
abbrev pub Advances : ℕ → ℕ → List (ℕ × ℕ) → Type 0
Advances start k [] = Unit
Advances start k ((now, later) ∷ readings) =
    (start + 10 * k ≤ later) × Advances start (suc k) readings

round-ends :
    (b : TokenBucket) (now start timeout later : ℕ)
    → start + timeout ≤ later
    → (attempt b now).0 ≡ false
    → gives_up (attempt b now).1 start timeout later ≡ true
unfolding attempt gives_up
round-ends b now start timeout later h refused =
    let passed : timeout ≤ later - start = omega arith in
    ground (arith, mul-le-mul passed (le_refl b.rate))

acquire_loop-ends :
    (readings : List (ℕ × ℕ)) (b : TokenBucket) (start timeout k : ℕ)
    → Advances start k readings
    → timeout + 10 ≤ 10 * (k + length readings)
    → 0 < length readings
    → (acquire_loop b start timeout readings).0 ≢ none
unfolding acquire_loop
acquire_loop-ends [] b start timeout k adv long some_reading = absurd (omega arith)
acquire_loop-ends ((now, later) ∷ []) b start timeout k adv long some_reading =
    elim (Bool-cases (attempt b now).0) [
      | inl granted ↦ rw granted (λ e. cc)
      | inr refused ↦
          rw (refused, round-ends b now start timeout later (omega arith) refused) (λ e. cc)
    ]
acquire_loop-ends ((now, later) ∷ x ∷ readings) b start timeout k adv long some_reading =
    elim (Bool-cases (attempt b now).0) [
      | inl granted ↦ rw granted (λ e. cc)
      | inr refused ↦
          rw refused (elim (Bool-cases (gives_up (attempt b now).1 start timeout later)) [
            | inl done ↦ rw done (λ e. cc)
            | inr more ↦ rw more (
                acquire_loop-ends (x ∷ readings) (attempt b now).1 start timeout (suc k) adv.1
                  (omega arith) (omega arith))
          ])
    ]

-- A caller whose rounds advance by the 10 ms of their sleep has its answer, granted or refused,
-- within `timeout / 10 + 1` rounds.
pub acquire-ends :
    (readings : List (ℕ × ℕ)) (b : TokenBucket) (start timeout : ℕ)
    → Advances start 0 readings
    → timeout + 10 ≤ 10 * length readings
    → (acquire b timeout start readings).0 ≢ none
unfolding acquire
acquire-ends readings b start timeout adv long =
    acquire_loop-ends readings b start timeout 0 adv (omega arith) (omega arith)
