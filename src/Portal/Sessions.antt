-- ===== src/Portal/Sessions.antt =====
-- portal/security.py: the sessions of administrators and their one-time recovery codes. SHA-256 is a
-- function that is given; that it tells two texts apart is a hypothesis. Times are in seconds, and
-- random tokens are given.
use xts_multi_tennant.Prelude.{
  Bool, Bool-cases, List, Option, Text, [], ap, arith, false, if◌then◌else◌, inl, inr, keep, ltb,
  map, none, not, refl, some, sym, text_eq, text_eq_refl, text_eq→≡, true, upper, ℕ, ◌+◌, ◌-◌, ◌==◌,
  ◌||◌, ◌∙◌, ◌∷◌, ◌≡◌,
}

-- A row of `admin_sessions`.
pub record Session : Type 0 where
  pub token_hash : Text
  pub user_id : Text
  pub expires_at : ℕ

-- A row of `admin_users`; `recovery_codes` is none where nothing is stored.
pub record User : Type 0 where
  pub id : Text
  pub recovery_codes : Option (List Text)

-- `code.replace("-", "").upper()`
unfoldable pub cleaned : Text → Text
cleaned code = upper (keep (λ c. not (c == b'-')) code)

-- `code_hash in stored_hashes`
unfoldable pub is_stored : Text → List Text → Bool
is_stored h [] = false
is_stored h (k ∷ ks) = text_eq k h || is_stored h ks

-- `stored_hashes.remove(code_hash)`
unfoldable pub remove_first : Text → List Text → List Text
remove_first h [] = []
remove_first h (k ∷ ks) = let rest = remove_first h ks in if text_eq k h then ks else k ∷ rest

unfoldable pub find_user : Text → List User → Option User
find_user id [] = none
find_user id (u ∷ us) = let later = find_user id us in if text_eq u.id id then some u else later

-- `UPDATE admin_users SET recovery_codes_hash_json=? WHERE id=?`
unfoldable pub store_codes : Text → List Text → List User → List User
store_codes id ks [] = []
store_codes id ks (u ∷ us) =
    (if text_eq u.id id then record u { recovery_codes = some ks } else u) ∷ store_codes id ks us

-- The codes of the row that was found.
unfoldable pub codes_of : Option User → List Text
codes_of none = []
codes_of (some u) = elim u.recovery_codes [ none ↦ [] | some ks ↦ ks ]

module _ (sha256 : Text → Text) where
  unfoldable pub hash_recovery_codes : List Text → List Text
  unfolding cleaned
  hash_recovery_codes codes_list = map (λ c. sha256 (cleaned c)) codes_list

  unfoldable pub verify_and_consume_recovery_code : Text → Text → List User → List User × Bool
  unfolding cleaned codes_of find_user is_stored remove_first store_codes
  verify_and_consume_recovery_code user_id code users =
      let h = sha256 (cleaned code) in
      let stored = codes_of (find_user user_id users) in
      if is_stored h stored
      then (store_codes user_id (remove_first h stored) users, true)
      else (users, false)

  -- `create_session`, with the token that was drawn.
  unfoldable pub create_session : Text → Text → ℕ → ℕ → List Session → List Session
  create_session token user_id now lifetime sessions =
      record { token_hash = sha256 token; user_id = user_id; expires_at = now + lifetime }
      ∷ sessions

  unfoldable pub find_session : Text → List Session → Option Session
  find_session h [] = none
  find_session h (s ∷ rest) =
      let later = find_session h rest in if text_eq s.token_hash h then some s else later

  -- `DELETE FROM admin_sessions WHERE token_hash=?`
  unfoldable pub delete_session : Text → List Session → List Session
  delete_session h sessions = keep (λ s. not (text_eq s.token_hash h)) sessions

  unfoldable pub judge : ℕ → Text → List Session → Option Session → Option Text × List Session
  unfolding delete_session
  judge now h sessions none = (none, sessions)
  judge now h sessions (some s) =
      if ltb s.expires_at now then (none, delete_session h sessions) else (some s.user_id, sessions)

  -- The user of a session. The join with `admin_users` finds the user, whose row is never deleted.
  unfoldable pub validate_session : Text → ℕ → List Session → Option Text × List Session
  unfolding find_session judge
  validate_session token now sessions =
      if text_eq token []
      then (none, sessions)
      else judge now (sha256 token) sessions (find_session (sha256 token) sessions)

  unfoldable pub destroy_session : Text → List Session → List Session
  unfolding delete_session
  destroy_session token sessions =
      if text_eq token [] then sessions else delete_session (sha256 token) sessions

-- How often a hash is stored.
unfoldable pub count : Text → List Text → ℕ
count h [] = 0
count h (k ∷ ks) = if text_eq k h then 1 + count h ks else count h ks

is_stored-count : (h : Text) (ks : List Text) → count h ks ≡ 0 → is_stored h ks ≡ false
unfolding is_stored count
is_stored-count h [] e = refl
is_stored-count h (k ∷ ks) e = elim (Bool-cases (text_eq k h)) [
  | inl same ↦ absurd (omega (arith, rw (count, same) at e))
  | inr other ↦ rw (is_stored, other) (is_stored-count h ks (rw (count, other) at e))
]

count-is_stored : (h : Text) (ks : List Text) → count h ks ≡ 1 → is_stored h ks ≡ true
unfolding is_stored count
count-is_stored h [] e = absurd (omega (arith, e))
count-is_stored h (k ∷ ks) e = elim (Bool-cases (text_eq k h)) [
  | inl same ↦ rw (is_stored, same) refl
  | inr other ↦ rw (is_stored, other) (count-is_stored h ks (rw (count, other) at e))
]

remove_first-count : (h : Text) (ks : List Text) → count h (remove_first h ks) ≡ count h ks - 1
unfolding remove_first count
remove_first-count h [] = omega arith
remove_first-count h (k ∷ ks) = elim (Bool-cases (text_eq k h)) [
  | inl same ↦ rw (remove_first, count, same) (omega arith)
  | inr other ↦ rw (remove_first, other) (rw (count, other) (remove_first-count h ks))
]

codes_of-store :
    (id : Text) (ks : List Text) (users : List User) (u : User)
    → find_user id users ≡ some u
    → codes_of (find_user id (store_codes id ks users)) ≡ ks
unfolding find_user store_codes codes_of
codes_of-store id ks [] u e = absurd (cc e)
codes_of-store id ks (v ∷ vs) u e = elim (Bool-cases (text_eq v.id id)) [
  | inl same ↦ rw (store_codes, same) (rw (find_user, same) refl)
  | inr other ↦
      rw (store_codes, other)
        (rw (find_user, other) (codes_of-store id ks vs u (rw (find_user, other) at e)))
]

-- A stored code is accepted and, where it is stored once, is then used up: the same code is refused
-- the next time.
pub verify_and_consume_recovery_code-once :
    (sha256 : Text → Text) (user_id code : Text) (users : List User) (u : User)
    → find_user user_id users ≡ some u
    → count (sha256 (cleaned code)) (codes_of (some u)) ≡ 1
    → let first = verify_and_consume_recovery_code sha256 user_id code users in
      (first.1 ≡ true) × ((verify_and_consume_recovery_code sha256 user_id code first.0).1 ≡ false)
unfolding verify_and_consume_recovery_code
verify_and_consume_recovery_code-once sha256 user_id code users u found once =
    let h = sha256 (cleaned code) in
    let ks = codes_of (find_user user_id users) in
    let same = ap codes_of found in
    let c = ap (count h) same ∙ once in
    let hit = count-is_stored h ks c in
    let gone =
      ap (is_stored h) (codes_of-store user_id (remove_first h ks) users u found)
      ∙ is_stored-count h (remove_first h ks) (omega (arith, remove_first-count h ks, c)) in
    (rw hit refl, rw hit (rw gone refl))

-- The user of a row, at a time.
user_at : ℕ → Option Session → Option Text
user_at now none = none
user_at now (some s) = if ltb s.expires_at now then none else some s.user_id

judge-user :
    (sha256 : Text → Text) (now : ℕ) (h : Text) (sessions : List Session) (o : Option Session)
    → (judge sha256 now h sessions o).0 ≡ user_at now o
unfolding judge user_at
judge-user sha256 now h sessions none = refl
judge-user sha256 now h sessions (some s) = elim (Bool-cases (ltb s.expires_at now)) [
  | inl over ↦ rw (judge, over) refl
  | inr live ↦ rw (judge, live) refl
]

validate_session-user :
    (sha256 : Text → Text) (token : Text) (now : ℕ) (sessions : List Session)
    → (validate_session sha256 token now sessions).0 ≡ (
        if text_eq token []
        then none
        else user_at now (find_session sha256 (sha256 token) sessions))
unfolding validate_session
validate_session-user sha256 token now sessions = elim (Bool-cases (text_eq token [])) [
  | inl blank ↦ rw (validate_session, blank) refl
  | inr given ↦ rw (validate_session, given) (judge-user sha256 now (sha256 token) sessions _)
]

either_found :
    (b : Bool) (x : Option Session) {y z : Option Session}
    → y ≡ z
    → (if b then x else y) ≡ (if b then x else z)
either_found true x h = refl
either_found false x h = h

-- A row that a deletion keeps is found as before.
find-delete :
    (sha256 : Text → Text) (h k : Text) (sessions : List Session)
    → text_eq h k ≡ false
    → find_session sha256 k (delete_session sha256 h sessions) ≡ find_session sha256 k sessions
unfolding find_session delete_session
find-delete sha256 h k [] apart = refl
find-delete sha256 h k (s ∷ rest) apart = elim (Bool-cases (text_eq s.token_hash h)) [
  | inl gone ↦
      let e = ap (λ t. text_eq t k) (text_eq→≡ s.token_hash h gone) ∙ apart in
      rw (delete_session, gone) (rw (find_session, e) (find-delete sha256 h k rest apart))
  | inr kept ↦
      rw (delete_session, kept)
        (either_found (text_eq s.token_hash k) (some s) (find-delete sha256 h k rest apart))
]

find-deleted :
    (sha256 : Text → Text) (h : Text) (sessions : List Session)
    → find_session sha256 h (delete_session sha256 h sessions) ≡ none
unfolding find_session delete_session
find-deleted sha256 h [] = refl
find-deleted sha256 h (s ∷ rest) = elim (Bool-cases (text_eq s.token_hash h)) [
  | inl gone ↦ rw (delete_session, gone) (find-deleted sha256 h rest)
  | inr kept ↦ rw (delete_session, kept) (rw (find_session, kept) (find-deleted sha256 h rest))
]

-- After a log-out no later request with the token has a user, and every token whose hash is another
-- has the user that it had, where the hash of the token is not that of another.
destroy_session-ends :
    (sha256 : Text → Text) (token other : Text) (now : ℕ) (sessions : List Session)
    → text_eq token [] ≡ false
    → text_eq (sha256 token) (sha256 other) ≡ false
    → ((validate_session sha256 token now (destroy_session sha256 token sessions)).0 ≡ none)
      × ((validate_session sha256 other now (destroy_session sha256 token sessions)).0
          ≡ (validate_session sha256 other now sessions).0)
unfolding destroy_session user_at
destroy_session-ends sha256 token other now sessions given apart =
    let h = sha256 token in
    let kept = delete_session sha256 h sessions in
    (
      rw (destroy_session, given)
          (validate_session-user sha256 token now kept
            ∙ (ap (λ b. if b then none else user_at now (find_session sha256 h kept)) given
                ∙ ap (user_at now) (find-deleted sha256 h sessions))),
      rw (destroy_session, given)
          (validate_session-user sha256 other now kept
            ∙ (ap (λ o. if text_eq other [] then none else user_at now o)
                  (find-delete sha256 h (sha256 other) sessions apart)
                ∙ sym (validate_session-user sha256 other now sessions))),
    )

-- A session has its user up to the end of its lifetime and none after.
create_session-lives :
    (sha256 : Text → Text) (token user_id : Text) (now lifetime later : ℕ) (sessions : List Session)
    → text_eq token [] ≡ false
    → (validate_session sha256 token later
        (create_session sha256 token user_id now lifetime sessions)).0
      ≡ (if ltb (now + lifetime) later then none else some user_id)
unfolding create_session find_session user_at
create_session-lives sha256 token user_id now lifetime later sessions given =
    validate_session-user sha256 token later
      (create_session sha256 token user_id now lifetime sessions)
    ∙ rw (given, text_eq_refl (sha256 token)) refl
