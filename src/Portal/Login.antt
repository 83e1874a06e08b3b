-- ===== src/Portal/Login.antt =====
-- portal/main.py: the log-in of administrators with its limit on failures of an address
-- (`LOGIN_ATTEMPTS`). Times are in milliseconds. Whether the password fits is given; sessions,
-- cookies, pages and the audit are left out.
use xts_multi_tennant.Prelude.{
  All, Bool, Bool-cases, List, Option, Text, [], ap, arith, false, if◌then◌else◌, inl, inr, keep,
  leb, length, length-append, ltb, max, none, refl, some, subst, sym, true, ℕ, ◌++◌, ◌+◌, ◌-◌, ◌/◌,
  ◌<◌, ◌∙◌, ◌∷◌, ◌≡◌, ◌≤◌,
}
use xts_multi_tennant.Dicts.{lookup, assign, erase}
use xts_multi_tennant.Dicts.Laws.{lookup-assign}

abbrev pub max_login_attempts : ℕ
max_login_attempts = 5

abbrev pub lockout_window : ℕ
lockout_window = 900_000

abbrev pub LoginAttempts : Type 0
LoginAttempts = List (Text × List ℕ)

-- `LOGIN_ATTEMPTS.get(ip, [])`
unfoldable pub attempts_of : Text → LoginAttempts → List ℕ
attempts_of ip s = elim (lookup ip s) [ none ↦ [] | some ts ↦ ts ]

-- `[t for t in attempts if now - t < LOCKOUT_WINDOW_SECONDS]`
unfoldable pub recent : ℕ → List ℕ → List ℕ
recent now ts = keep (λ t. ltb (now - t) lockout_window) ts

-- The seconds that are left, where the attempts are too many.
unfoldable pub lockout : ℕ → List ℕ → Option ℕ
lockout now [] = none
lockout now (oldest ∷ ts) =
    if leb max_login_attempts (length (oldest ∷ ts))
    then some (max 1 ((lockout_window - (now - oldest)) / 1000))
    else none

unfoldable pub check_login_rate_limit : Text → ℕ → LoginAttempts → Option ℕ × LoginAttempts
unfolding recent attempts_of lockout
check_login_rate_limit ip now s =
    let attempts = recent now (attempts_of ip s) in (lockout now attempts, assign ip attempts s)

unfoldable pub record_failed_login : Text → ℕ → LoginAttempts → LoginAttempts
unfolding recent attempts_of
record_failed_login ip now s = assign ip (recent now (attempts_of ip s) ++ now ∷ []) s

unfoldable pub clear_failed_logins : Text → LoginAttempts → LoginAttempts
clear_failed_logins ip s = erase ip s

-- The page that a log-in leads to; a refusal has the attempts that remain, a lock-out the minutes.
pub data Page : Type 0 where
  locked_out : ℕ → Page
  refused : ℕ → Page
  dashboard : Page

-- A log-in that is not locked out.
unfoldable pub verify : Text → ℕ → Bool → LoginAttempts → Page × LoginAttempts
unfolding record_failed_login clear_failed_logins attempts_of
verify ip now true s = (dashboard, clear_failed_logins ip s)
verify ip now false s =
    let s' = record_failed_login ip now s in
    (refused (max_login_attempts - length (attempts_of ip s')), s')

unfoldable pub guarded : Text → ℕ → Bool → Option ℕ × LoginAttempts → Page × LoginAttempts
unfolding verify
guarded ip now is_valid (some seconds, s) = (locked_out (max 1 ((seconds + 59) / 60)), s)
guarded ip now is_valid (none, s) = verify ip now is_valid s

unfoldable pub login_action : Text → ℕ → Bool → LoginAttempts → Page × LoginAttempts
unfolding guarded check_login_rate_limit
login_action ip now is_valid s = guarded ip now is_valid (check_login_rate_limit ip now s)

unfoldable pub is_refused : Page → Bool
is_refused (refused n) = true
is_refused _ = false

-- How many of an address's wrong passwords, at given times, are looked at.
unfoldable pub guesses : Text → List ℕ → LoginAttempts → ℕ
unfolding login_action is_refused
guesses ip [] s = 0
guesses ip (now ∷ times) s =
    let (page, s') = login_action ip now false s in
    let rest = guesses ip times s' in if is_refused page then 1 + rest else rest

-- A time within the window from a start on.
abbrev pub InWindow : ℕ → ℕ → Type 0
InWindow start t = (start ≤ t) × (t < start + lockout_window)

recent-All :
    (start now : ℕ) (ts : List ℕ)
    → InWindow start now
    → All (InWindow start) ts
    → recent now ts ≡ ts
unfolding recent
recent-All start now [] h a = refl
recent-All start now (t ∷ ts) h a =
    let e : ltb (now - t) lockout_window ≡ true = ground (arith, h.0, h.1, a.0.0) in
    rw e (ap (λ r. t ∷ r) (recent-All start now ts h a.1))

append-InWindow :
    (start now : ℕ) (ts : List ℕ)
    → InWindow start now
    → All (InWindow start) ts
    → All (InWindow start) (ts ++ now ∷ [])
append-InWindow start now [] h a = (h, tt)
append-InWindow start now (t ∷ ts) h a = (a.0, append-InWindow start now ts h a.1)

attempts_of-assign :
    (ip : Text) (ts : List ℕ) (s : LoginAttempts) → attempts_of ip (assign ip ts s) ≡ ts
unfolding attempts_of
attempts_of-assign ip ts s =
    ap (λ o. elim o as (λ _. List ℕ) [ none ↦ [] | some us ↦ us ]) (lookup-assign ip ts s)

lockout-none : (now : ℕ) (ts : List ℕ) → lockout now ts ≡ none → length ts < max_login_attempts
unfolding lockout
lockout-none now [] h = omega arith
lockout-none now (t ∷ ts) h = elim (Bool-cases (leb max_login_attempts (length (t ∷ ts)))) [
  | inl full ↦ absurd (cc (rw (lockout, full) at h))
  | inr free ↦ ground (arith, free)
]

-- The bound, for the attempts that are stored.
abbrev IsBounded : Text → List ℕ → LoginAttempts → Type 0
IsBounded ip times s = guesses ip times s ≤ max_login_attempts - length (attempts_of ip s)

guess_step :
    (ip : Text) (now start : ℕ) (times : List ℕ) (s : LoginAttempts) (o : Option ℕ)
    → ((s' : LoginAttempts) → All (InWindow start) (attempts_of ip s') → IsBounded ip times s')
    → InWindow start now
    → All (InWindow start) (attempts_of ip s)
    → (o ≡ none → length (attempts_of ip s) < max_login_attempts)
    → (if is_refused (guarded ip now false (o, s)).0
        then 1 + guesses ip times (guarded ip now false (o, s)).1
        else guesses ip times (guarded ip now false (o, s)).1)
      ≤ max_login_attempts - length (attempts_of ip s)
unfolding guarded verify is_refused record_failed_login
guess_step ip now start times s (some n) rest h a free = rest s a
guess_step ip now start times s none rest h a free =
    let ts = recent now (attempts_of ip s) ++ now ∷ [] in
    let same = recent-All start now (attempts_of ip s) h a in
    let new = attempts_of-assign ip ts s ∙ ap (λ r. r ++ now ∷ []) same in
    let bound =
      rest (assign ip ts s) (
        subst (All (InWindow start)) (sym new)
          (append-InWindow start now (attempts_of ip s) h a)) in
    omega (arith, bound, ap length new, length-append (attempts_of ip s) (now ∷ []), free refl)

guesses_lem :
    (ip : Text) (start : ℕ) (times : List ℕ) (s : LoginAttempts)
    → All (InWindow start) times
    → All (InWindow start) (attempts_of ip s)
    → IsBounded ip times s
unfolding guesses login_action check_login_rate_limit
guesses_lem ip start [] s h a = omega arith
guesses_lem ip start (now ∷ times) s h a =
    let ts = recent now (attempts_of ip s) in
    let s' = assign ip ts s in
    let new = attempts_of-assign ip ts s ∙ recent-All start now (attempts_of ip s) h.0 a in
    let step =
      guess_step ip now start times s' (lockout now ts)
        (λ s'' a''. guesses_lem ip start times s'' h.1 a'') h.0
        (subst (All (InWindow start)) (sym new) a)
        (λ e.
          subst (λ us. length us < max_login_attempts) (sym (attempts_of-assign ip ts s))
            (lockout-none now ts e)) in
    omega (arith, step, ap length new)

-- Of an address without earlier attempts that sends wrong passwords and nothing else, at most five are
-- looked at, however many come, while the time is within a window of a quarter of an hour. A right
-- password between them would clear the count.
pub guesses-bounded :
    (ip : Text) (start : ℕ) (times : List ℕ) (s : LoginAttempts)
    → All (InWindow start) times
    → lookup ip s ≡ none
    → guesses ip times s ≤ max_login_attempts
unfolding attempts_of
guesses-bounded ip start times s h e =
    let none_yet = ap (λ o. elim o as (λ _. List ℕ) [ none ↦ [] | some us ↦ us ]) e in
    let bound = guesses_lem ip start times s h (subst (All (InWindow start)) (sym none_yet) tt) in
    omega (arith, bound)
