-- ===== src/Gateway/Dedup.antt =====
-- client/main.py, `is_duplicate_signal`. A signal's md5 digest is a text that the caller gives. Times are in milliseconds.
use xts_multi_tennant.Prelude.{
  All, Bool, Bool-cases, List, Text, [], arith, false, if◌then◌else◌, inl, inr, keep, ltb, not,
  refl, text_eq, text_eq_refl, true, ℕ, ◌++◌, ◌+◌, ◌<◌, ◌||◌, ◌∷◌, ◌≡◌, ◌≤◌, ◌⊎◌,
}
use xts_multi_tennant.Orders.Tick.{Side}

-- What the digest of the shield is taken of.
pub data SignalKey : Type 0 where
  by_id : Text → SignalKey
  by_fields : Side → Text → ℕ → ℕ → SignalKey

-- `data.get("order_id") or data.get("alert_id") or data.get("order_ref") or ""` is `explicit_id`.
pub signal_key : Side → Text → ℕ → ℕ → Text → SignalKey
signal_key action symbol quantity price [] = by_fields action symbol quantity price
signal_key action symbol quantity price (c ∷ id) = by_id (c ∷ id)

-- The table `signal_dedup`: a hash and its time.
abbrev pub Shield : Type 0
Shield = List (Text × ℕ)

-- `DELETE FROM signal_dedup WHERE timestamp < now - window`
unfoldable pub expire : ℕ → ℕ → Shield → Shield
expire now window = keep (λ entry. not (ltb (entry.1 + window) now))

unfoldable pub has_hash : Text → Shield → Bool
has_hash hash [] = false
has_hash hash ((h, t) ∷ rest) = text_eq h hash || has_hash hash rest

-- The transaction: a hash that is there raises an IntegrityError, and the deletion is not
-- committed. A query that fails otherwise (`healthy` is false) counts as a duplicate.
unfoldable pub is_duplicate_signal : Bool → ℕ → Text → ℕ → Shield → Bool × Shield
unfolding expire has_hash
is_duplicate_signal healthy window hash now shield =
    let live = expire now window shield in
    if not healthy
    then (true, shield)
    else if has_hash hash live
    then (true, shield)
    else (false, live ++ (hash, now) ∷ [])

-- Later calls, each with its state of the database, its hash and its time.
pub check_all : ℕ → List (Bool × Text × ℕ) → Shield → Shield
check_all window [] shield = shield
check_all window ((healthy, hash, now) ∷ calls) shield =
    check_all window calls (is_duplicate_signal healthy window hash now shield).1

-- The hash is held from a time on.
abbrev Holds : Text → ℕ → Shield → Type 0
Holds hash since [] = ⊥
Holds hash since ((h, t) ∷ rest) = ((text_eq h hash ≡ true) × (since ≤ t)) ⊎ Holds hash since rest

Holds-append-right :
    (hash : Text) (since : ℕ) (s : Shield) → Holds hash since (s ++ (hash, since) ∷ [])
Holds-append-right hash since [] = inl (text_eq_refl hash, omega arith)
Holds-append-right hash since ((h, t) ∷ rest) = inr (Holds-append-right hash since rest)

Holds-append-left :
    (hash : Text) (since : ℕ) (s t : Shield) → Holds hash since s → Holds hash since (s ++ t)
Holds-append-left hash since [] t h = absurd h
Holds-append-left hash since ((k, u) ∷ rest) t (inl here) = inl here
Holds-append-left hash since ((k, u) ∷ rest) t (inr later) =
    inr (Holds-append-left hash since rest t later)

Holds-expire :
    (hash : Text) (since now window : ℕ) (s : Shield)
    → now ≤ since + window
    → Holds hash since s
    → Holds hash since (expire now window s)
unfolding expire
Holds-expire hash since now window [] h k = absurd k
Holds-expire hash since now window ((g, t) ∷ rest) h (inl here) =
    let stays : ltb (t + window) now ≡ false = ground arith in rw stays (inl here)
Holds-expire hash since now window ((g, t) ∷ rest) h (inr later) =
    elim (Bool-cases (ltb (t + window) now)) [
      | inl gone ↦ rw gone (Holds-expire hash since now window rest h later)
      | inr stays ↦ rw stays (inr (Holds-expire hash since now window rest h later))
    ]

has_hash-Holds :
    (hash : Text) (since : ℕ) (s : Shield) → Holds hash since s → has_hash hash s ≡ true
unfolding has_hash
has_hash-Holds hash since [] h = absurd h
has_hash-Holds hash since ((g, t) ∷ rest) (inl here) = rw here.0
has_hash-Holds hash since ((g, t) ∷ rest) (inr later) =
    ground (arith, has_hash-Holds hash since rest later)

-- No call is later than `stop`.
abbrev pub By : ℕ → List (Bool × Text × ℕ) → Type 0
By stop calls = All (λ c. c.2 ≤ stop) calls

Holds-step :
    (window : ℕ) (healthy : Bool) (other hash : Text) (now since : ℕ) (s : Shield)
    → now ≤ since + window
    → Holds hash since s
    → Holds hash since (is_duplicate_signal healthy window other now s).1
unfolding is_duplicate_signal
Holds-step window healthy other hash now since s h k =
    let live = Holds-expire hash since now window s h k in
    elim (Bool-cases healthy) [
      | inr sick ↦ rw sick k
      | inl well ↦ rw well (elim (Bool-cases (has_hash other (expire now window s))) [
        | inl dup ↦ rw dup k
        | inr new ↦
            rw new (Holds-append-left hash since (expire now window s) ((other, now) ∷ []) live)
      ])
    ]

Holds-check_all :
    (window : ℕ) (calls : List (Bool × Text × ℕ)) (hash : Text) (since stop : ℕ) (s : Shield)
    → stop ≤ since + window
    → By stop calls
    → Holds hash since s
    → Holds hash since (check_all window calls s)
unfolding check_all
Holds-check_all window [] hash since stop s h by k = k
Holds-check_all window ((healthy, other, now) ∷ calls) hash since stop s h by k =
    Holds-check_all window calls hash since stop (is_duplicate_signal healthy window other now s).1
      h by.1 (Holds-step window healthy other hash now since s (omega (arith, by.0)) k)

Holds-passed :
    (window : ℕ) (healthy : Bool) (hash : Text) (now : ℕ) (s : Shield)
    → (is_duplicate_signal healthy window hash now s).0 ≡ false
    → Holds hash now (is_duplicate_signal healthy window hash now s).1
unfolding is_duplicate_signal
Holds-passed window healthy hash now s passed = elim (Bool-cases healthy) [
  | inr sick ↦ cc passed
  | inl well ↦ elim (Bool-cases (has_hash hash (expire now window s))) [
    | inl dup ↦ cc (rw (well, dup) at passed)
    | inr new ↦ rw (well, new) (Holds-append-right hash now (expire now window s))
  ]
]

Holds-duplicate :
    (window : ℕ) (healthy : Bool) (hash : Text) (since now : ℕ) (s : Shield)
    → now ≤ since + window
    → Holds hash since s
    → (is_duplicate_signal healthy window hash now s).0 ≡ true
unfolding is_duplicate_signal
Holds-duplicate window healthy hash since now s h k = ground (
  arith,
  has_hash-Holds hash since (expire now window s) (Holds-expire hash since now window s h k),
)

-- Once a signal has passed the shield, no signal with the same hash passes within the window,
-- whatever other signals come in between.
pub duplicate_suppressed :
    (window : ℕ) (hash : Text) (first stop : ℕ) (h1 h2 : Bool) (calls : List (Bool × Text × ℕ))
    (shield : Shield)
    → (is_duplicate_signal h1 window hash first shield).0 ≡ false
    → By stop calls
    → stop ≤ first + window
    → (is_duplicate_signal h2 window hash stop
        (check_all window calls (is_duplicate_signal h1 window hash first shield).1)).0
      ≡ true
duplicate_suppressed window hash first stop h1 h2 calls shield passed by h =
    Holds-duplicate window h2 hash first stop _ h (
      Holds-check_all window calls hash first stop _ h by
        (Holds-passed window h1 hash first shield passed))

has_hash-expired :
    (window : ℕ) (hash : Text) (now : ℕ) (s : Shield)
    → All (λ e. (text_eq e.0 hash ≡ false) ⊎ (e.1 + window < now)) s
    → has_hash hash (expire now window s) ≡ false
unfolding has_hash expire
has_hash-expired window hash now [] h = refl
has_hash-expired window hash now ((g, t) ∷ rest) h =
    ground (arith, h.0, has_hash-expired window hash now rest h.1)

-- A signal passes when the database answers and every entry with its hash is older than the
-- window.
fresh_signal_passes :
    (window : ℕ) (hash : Text) (now : ℕ) (shield : Shield)
    → All (λ e. (text_eq e.0 hash ≡ false) ⊎ (e.1 + window < now)) shield
    → (is_duplicate_signal true window hash now shield).0 ≡ false
unfolding is_duplicate_signal
fresh_signal_passes window hash now shield h = rw (has_hash-expired window hash now shield h)
