-- ===== src/Gateway/Attempts.antt =====
-- client/main.py: the failed log-ins of each address (`FAILED_ATTEMPTS`, an OrderedDict), with
-- `_record_failed_attempt`, `_clear_failed_attempts` and the ban of `receive_webhook`. Times are in
-- milliseconds, an address is a text.
use xts_multi_tennant.Prelude.{
  All, Bool, Bool-cases, List, Text, [], arith, drop, false, if◌then◌else◌, inl, inr, keep, leb,
  length, length-append, length-drop, ltb, suc, text_eq, text_eq_refl, true, zero, ℕ, ◌++◌, ◌+◌,
  ◌-◌, ◌<◌, ◌∷◌, ◌≡◌, ◌≤◌,
}

abbrev pub window : ℕ
window = 900_000

-- The addresses in order, the least recently written first.
abbrev pub Attempts : Type 0
Attempts = List (Text × List ℕ)

-- `[ts for ts in attempts if now - ts < 900]`
unfoldable pub fresh : ℕ → List ℕ → List ℕ
fresh now = keep (λ ts. ltb (now - ts) window)

-- `attempts.get(ip, [])`
unfoldable pub attempts_of : Text → Attempts → List ℕ
attempts_of ip [] = []
attempts_of ip ((other, ts) ∷ rest) = if text_eq other ip then ts else attempts_of ip rest

-- `attempts.pop(ip, None)`
unfoldable pub clear_failed_attempts : Text → Attempts → Attempts
clear_failed_attempts ip [] = []
clear_failed_attempts ip ((other, ts) ∷ rest) =
    let others = clear_failed_attempts ip rest in
    if text_eq other ip then others else (other, ts) ∷ others

-- `while len(FAILED_ATTEMPTS) > MAX_TRACKED_IPS: popitem(last=False)`
unfoldable pub evict : ℕ → Attempts → Attempts
evict max_tracked entries = drop (length entries - max_tracked) entries

unfoldable pub record_failed_attempt : ℕ → Text → ℕ → Attempts → Attempts
unfolding evict
record_failed_attempt max_tracked ip now entries =
    evict max_tracked (
      clear_failed_attempts ip entries ++ (ip, fresh now (attempts_of ip entries) ++ now ∷ []) ∷ [])

-- Ten failures in the last quarter of an hour.
unfoldable pub is_banned : Text → ℕ → Attempts → Bool
unfolding fresh
is_banned ip now entries = leb 10 (length (fresh now (attempts_of ip entries)))

-- However many addresses fail, no more than the limit are tracked.
length-record_failed_attempt :
    (max_tracked : ℕ) (ip : Text) (now : ℕ) (entries : Attempts)
    → length (record_failed_attempt max_tracked ip now entries) ≤ max_tracked
unfolding record_failed_attempt
length-record_failed_attempt max_tracked ip now entries =
    let all_entries =
      clear_failed_attempts ip entries
      ++ (ip, fresh now (attempts_of ip entries) ++ now ∷ []) ∷ [] in
    omega (arith, length-drop (length all_entries - max_tracked) all_entries)

-- The address has no entry.
abbrev Lacks : Text → Attempts → Type 0
Lacks ip entries = All (λ e. text_eq e.0 ip ≡ false) entries

clear-Lacks : (ip : Text) (entries : Attempts) → Lacks ip (clear_failed_attempts ip entries)
unfolding clear_failed_attempts
clear-Lacks ip [] = tt
clear-Lacks ip ((other, ts) ∷ rest) = elim (Bool-cases (text_eq other ip)) [
  | inl e ↦ rw e (clear-Lacks ip rest)
  | inr e ↦ rw e (e, clear-Lacks ip rest)
]

attempts_of-drop :
    (n : ℕ) (ip : Text) (ts : List ℕ) (entries : Attempts)
    → n ≤ length entries
    → Lacks ip entries
    → attempts_of ip (drop n (entries ++ (ip, ts) ∷ [])) ≡ ts
unfolding attempts_of
attempts_of-drop zero ip ts [] h e = rw text_eq_refl
attempts_of-drop (suc n) ip ts [] h e = absurd (omega arith)
attempts_of-drop zero ip ts ((other, us) ∷ rest) h e =
    rw e.0 (attempts_of-drop zero ip ts rest (omega arith) e.1)
attempts_of-drop (suc n) ip ts ((other, us) ∷ rest) h e =
    attempts_of-drop n ip ts rest (omega arith) e.1

-- A failure adds its time to the address's recent ones, whichever entries are evicted.
pub attempts_of-record :
    (max_tracked : ℕ) (ip : Text) (now : ℕ) (entries : Attempts)
    → 0 < max_tracked
    → attempts_of ip (record_failed_attempt max_tracked ip now entries)
      ≡ fresh now (attempts_of ip entries) ++ now ∷ []
unfolding record_failed_attempt
attempts_of-record max_tracked ip now entries h =
    let ts = fresh now (attempts_of ip entries) ++ now ∷ [] in
    let others = clear_failed_attempts ip entries in
    attempts_of-drop (length (others ++ (ip, ts) ∷ []) - max_tracked) ip ts others
      (omega (arith, length-append {0} others ((ip, ts) ∷ []))) (clear-Lacks ip entries)

-- Repeated failures of one address, at the times of the list.
pub record_all : ℕ → Text → List ℕ → Attempts → Attempts
record_all max_tracked ip [] entries = entries
record_all max_tracked ip (now ∷ nows) entries =
    record_all max_tracked ip nows (record_failed_attempt max_tracked ip now entries)

fresh-record :
    (stop now : ℕ) (ts : List ℕ)
    → now ≤ stop
    → stop - now < window
    → length (fresh stop (fresh now ts ++ now ∷ [])) ≡ suc (length (fresh stop ts))
unfolding fresh
fresh-record stop now [] h w = ground arith
fresh-record stop now (t ∷ ts) h w = ground (arith, fresh-record stop now ts h w)

abbrev pub Recent : ℕ → List ℕ → Type 0
Recent stop nows = All (λ t. (t ≤ stop) × (stop - t < window)) nows

record_all-count :
    (max_tracked : ℕ) (ip : Text) (stop : ℕ) (nows : List ℕ) (entries : Attempts)
    → 0 < max_tracked
    → Recent stop nows
    → length (fresh stop (attempts_of ip (record_all max_tracked ip nows entries)))
      ≡ length (fresh stop (attempts_of ip entries)) + length nows
unfolding record_all
record_all-count max_tracked ip stop [] entries m r = omega arith
record_all-count max_tracked ip stop (now ∷ nows) entries m r =
    let next = record_failed_attempt max_tracked ip now entries in
    let e : length (fresh stop (attempts_of ip next))
        ≡ suc (length (fresh stop (attempts_of ip entries))) =
      rw attempts_of-record (fresh-record stop now (attempts_of ip entries) r.0.0 r.0.1) in
    omega (arith, record_all-count max_tracked ip stop nows next m r.1, e)

-- Where any address is tracked, one with ten failures or more in a row, with no failure of another
-- address and no success of its own between them, none of them later than a time and all within the
-- quarter of an hour before it, is banned at that time.
pub banned_after_ten :
    (max_tracked : ℕ) (ip : Text) (stop : ℕ) (nows : List ℕ) (entries : Attempts)
    → 0 < max_tracked
    → 10 ≤ length nows
    → Recent stop nows
    → is_banned ip stop (record_all max_tracked ip nows entries) ≡ true
unfolding is_banned
banned_after_ten max_tracked ip stop nows entries m ten r =
    ground (arith, record_all-count max_tracked ip stop nows entries m r)
