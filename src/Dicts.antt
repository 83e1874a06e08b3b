-- ===== src/Dicts.antt =====
-- Python's dict as a list of its entries, in their order.
use xts_multi_tennant.Prelude.{
  Bool, List, Option, Text, [], if◌then◌else◌, none, some, text_eq, ◌∷◌,
}
pub mod Laws

-- `d.get(key)`
unfoldable pub lookup {ℓ} : {A : Type ℓ} → Text → List (Text × A) → Option A
lookup key [] = none
lookup key ((k, a) ∷ rest) = if text_eq k key then some a else lookup key rest

-- `d[key] = a`
unfoldable pub assign {ℓ} : {A : Type ℓ} → Text → A → List (Text × A) → List (Text × A)
assign key a [] = (key, a) ∷ []
assign key a ((k, b) ∷ rest) =
    let others = assign key a rest in if text_eq k key then (k, a) ∷ rest else (k, b) ∷ others

-- `d.pop(key, None)`
unfoldable pub erase {ℓ} : {A : Type ℓ} → Text → List (Text × A) → List (Text × A)
erase key [] = []
erase key ((k, a) ∷ rest) =
    let others = erase key rest in if text_eq k key then rest else (k, a) ∷ others

-- A function on every value.
unfoldable pub each {ℓ} : {A : Type ℓ} → (A → A) → List (Text × A) → List (Text × A)
each f [] = []
each f ((k, a) ∷ rest) = (k, f a) ∷ each f rest

-- The first entry that passes a test, with its key.
unfoldable pub find {ℓ} : {A : Type ℓ} → (Text → A → Bool) → List (Text × A) → Option (Text × A)
find test [] = none
find test ((k, a) ∷ rest) = let later = find test rest in if test k a then some (k, a) else later

unfoldable pub keys {ℓ} : {A : Type ℓ} → List (Text × A) → List Text
keys [] = []
keys ((k, a) ∷ rest) = k ∷ keys rest
