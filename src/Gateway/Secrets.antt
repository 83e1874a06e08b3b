-- ===== src/Gateway/Secrets.antt =====
-- client/main.py, `_sanitize_dict`: what is masked of a payload before it is stored. Keys are texts, and a
-- number is its literal.
use xts_multi_tennant.Prelude.{
  Bool, List, Text, [], any, codes, false, if◌then◌else◌, inl, inr, lower, refl, text_eq, true, ◌∷◌,
  ◌≡◌, ◌⊎◌,
}
pub mod Tests

mutual
  pub data Json : Type 0 where
    null : Json
    bool : Bool → Json
    number : Text → Json
    text : Text → Json
    array : Items → Json
    object : Members → Json

  pub data Items : Type 0 where
    end : Items
    item : Json → Items → Items

  pub data Members : Type 0 where
    nil : Members
    member : Text → Json → Members → Members

unfoldable pub sensitive_keys : List Text
sensitive_keys =
    codes "secret"
    ∷ codes "api_key"
    ∷ codes "api_secret"
    ∷ codes "password"
    ∷ codes "token"
    ∷ codes "totp_secret"
    ∷ codes "webhook_secret"
    ∷ []

-- `str(k).lower() in sensitive_keys`
unfoldable pub is_sensitive : Text → Bool
unfolding sensitive_keys
is_sensitive key = any (λ k. text_eq k (lower key)) sensitive_keys

unfoldable mutual
  unfolding is_sensitive

  -- A value under a key that is not sensitive: a dict is sanitized, anything else is kept.
  pub sanitize_value : Json → Json
  sanitize_value null = null
  sanitize_value (bool b) = bool b
  sanitize_value (number n) = number n
  sanitize_value (text t) = text t
  sanitize_value (array xs) = array xs
  sanitize_value (object ms) = object (sanitize_dict ms)

  pub sanitize_dict : Members → Members
  sanitize_dict nil = nil
  sanitize_dict (member key v rest) =
      member key (if is_sensitive key then text (codes "***MASKED***") else sanitize_value v)
        (sanitize_dict rest)

-- The names whose values are secrets, in any case of their letters.
pub IsSecretName : Text → Type 0
IsSecretName key =
    (lower key ≡ codes "secret")
    ⊎ (lower key ≡ codes "api_key")
    ⊎ (lower key ≡ codes "api_secret")
    ⊎ (lower key ≡ codes "password")
    ⊎ (lower key ≡ codes "token")
    ⊎ (lower key ≡ codes "totp_secret")
    ⊎ (lower key ≡ codes "webhook_secret")

is_sensitive-IsSecretName : (key : Text) → IsSecretName key → is_sensitive key ≡ true
unfolding is_sensitive IsSecretName text_eq
is_sensitive-IsSecretName key (inl e) = rw e refl
is_sensitive-IsSecretName key (inr (inl e)) = rw e refl
is_sensitive-IsSecretName key (inr (inr (inl e))) = rw e refl
is_sensitive-IsSecretName key (inr (inr (inr (inl e)))) = rw e refl
is_sensitive-IsSecretName key (inr (inr (inr (inr (inl e))))) = rw e refl
is_sensitive-IsSecretName key (inr (inr (inr (inr (inr (inl e)))))) = rw e refl
is_sensitive-IsSecretName key (inr (inr (inr (inr (inr (inr e)))))) = rw e refl

-- Every secret name that is reached through dicts alone holds the mask.
mutual
  pub IsMasked : Json → Type 0
  IsMasked null = Unit
  IsMasked (bool b) = Unit
  IsMasked (number n) = Unit
  IsMasked (text t) = Unit
  IsMasked (array xs) = Unit
  IsMasked (object ms) = AreMasked ms

  pub AreMasked : Members → Type 0
  AreMasked nil = Unit
  AreMasked (member key v rest) =
      ((IsSecretName key → v ≡ text (codes "***MASKED***")) × IsMasked v) × AreMasked rest

entry_lem :
    (S : Type 0) (b : Bool) (v : Json)
    → (S → b ≡ true)
    → IsMasked v
    → (S → (if b then text (codes "***MASKED***") else v) ≡ text (codes "***MASKED***"))
      × IsMasked (if b then text (codes "***MASKED***") else v)
unfolding IsMasked
entry_lem S true v s h = (λ e. refl, tt)
entry_lem S false v s h = (λ e. absurd (cc (s e)), h)

mutual
  unfolding sanitize_value sanitize_dict IsMasked AreMasked

  sanitize_value-IsMasked : (v : Json) → IsMasked (sanitize_value v)
  sanitize_value-IsMasked null = tt
  sanitize_value-IsMasked (bool b) = tt
  sanitize_value-IsMasked (number n) = tt
  sanitize_value-IsMasked (text t) = tt
  sanitize_value-IsMasked (array xs) = tt
  sanitize_value-IsMasked (object ms) = sanitize-AreMasked ms

  sanitize-AreMasked : (ms : Members) → AreMasked (sanitize_dict ms)
  sanitize-AreMasked nil = tt
  sanitize-AreMasked (member key v rest) = (
    entry_lem (IsSecretName key) (is_sensitive key) (sanitize_value v)
        (is_sensitive-IsSecretName key) (sanitize_value-IsMasked v),
    sanitize-AreMasked rest,
  )

-- In a sanitized dict every value under one of the seven secret names, in any case of the letters
-- and at any depth that dicts alone lead to, is the mask.
pub sanitize_dict-AreMasked : (ms : Members) → AreMasked (sanitize_dict ms)
sanitize_dict-AreMasked ms = sanitize-AreMasked ms
