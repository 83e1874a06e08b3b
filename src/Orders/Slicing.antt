-- ===== src/Orders/Slicing.antt =====
-- client/xts_api.py, `slice_quantity_for_freeze`: an order's quantity is cut into chunks that the
-- exchange's freeze limit admits. Python's `int`s are ℤ; a missing argument is `none`.
use native.Mathlib.Nat.{mul-sub, mod-eq-sub-div-mul}
use xts_multi_tennant.Prelude.{
  All, Bool-cases, List, Option, [], arith, if◌then◌else◌, inl, inr, leb, leb_ℤ, length, max, min,
  none, pos, pos_part, refl, some, suc, sum, zero, ℕ, ℤ, ◌*◌, ◌+◌, ◌-◌, ◌/◌, ◌<◌, ◌==◌, ◌||◌, ◌∷◌,
  ◌≡◌, ◌≤◌,
}

-- `x or default` for an optional integer: 0 counts as missing.
abbrev pub or_default : Option ℤ → ℤ → ℤ
or_default none d = d
or_default (some (pos zero)) d = d
or_default (some x) d = x

-- `while rem > 0`; the fuel is the remaining quantity, since a chunk is at least 1.
unfoldable pub slice_loop : ℕ → ℕ → ℕ → List ℕ
slice_loop zero rem size = []
slice_loop (suc fuel) rem size =
    let rest = slice_loop fuel (rem - min rem size) size in
    if rem == 0 then [] else min rem size ∷ rest

abbrev pub safe_lot : Option ℤ → ℕ
safe_lot lot_size = max 1 (pos_part (or_default lot_size (pos 1)))

abbrev pub effective_freeze : ℕ → ℕ → ℕ
effective_freeze lot freeze = max lot (freeze / lot * lot)

unfoldable pub slice_quantity_for_freeze : ℤ → Option ℤ → Option ℤ → List ℕ
slice_quantity_for_freeze quantity freeze_limit lot_size =
    let freeze = or_default freeze_limit (pos 0) in
    let q = pos_part quantity in
    if leb_ℤ quantity (pos 0)
    then []
    else if leb_ℤ freeze (pos 0) || leb_ℤ quantity freeze
    then q ∷ []
    else slice_loop q q (effective_freeze (safe_lot lot_size) (pos_part freeze))

-- With enough fuel the chunks add up to the quantity.
sum-slice_loop : (fuel rem size : ℕ) → rem ≤ fuel → 0 < size → sum (slice_loop fuel rem size) ≡ rem
unfolding slice_loop
sum-slice_loop zero rem size h s = omega arith
sum-slice_loop (suc fuel) rem size h s =
    ground (arith, sum-slice_loop fuel (rem - min rem size) size)

slice_loop-bounded :
    (fuel rem size : ℕ) → 0 < size → All (λ c. (0 < c) × (c ≤ size)) (slice_loop fuel rem size)
unfolding slice_loop
slice_loop-bounded zero rem size s = tt
slice_loop-bounded (suc fuel) rem size s = elim (Bool-cases (rem == 0)) [
  | inl e ↦ rw e tt
  | inr e ↦ rw e ((ground arith, omega arith), slice_loop-bounded fuel (rem - min rem size) size s)
]

-- Whatever the limits, the chunks add up to the quantity, or to 0 when it is not positive.
pub sum-slice :
    (quantity : ℤ) (freeze_limit lot_size : Option ℤ)
    → sum (slice_quantity_for_freeze quantity freeze_limit lot_size) ≡ pos_part quantity
unfolding slice_quantity_for_freeze
sum-slice quantity freeze_limit lot_size = ground (
  arith,
  sum-slice_loop (pos_part quantity) (pos_part quantity)
      (effective_freeze (safe_lot lot_size) (pos_part (or_default freeze_limit (pos 0)))),
)

slice_loop-positive : (fuel rem size : ℕ) → 0 < size → All (λ c. 0 < c) (slice_loop fuel rem size)
unfolding slice_loop
slice_loop-positive zero rem size s = tt
slice_loop-positive (suc fuel) rem size s = elim (Bool-cases (rem == 0)) [
  | inl e ↦ rw e tt
  | inr e ↦ rw e (ground arith, slice_loop-positive fuel (rem - min rem size) size s)
]

-- Whatever the limits, no chunk is empty.
pub slice-positive :
    (quantity : ℤ) (freeze_limit lot_size : Option ℤ)
    → All (λ c. 0 < c) (slice_quantity_for_freeze quantity freeze_limit lot_size)
unfolding slice_quantity_for_freeze
slice-positive quantity freeze_limit lot_size =
    let freeze = or_default freeze_limit (pos 0) in
    let size = effective_freeze (safe_lot lot_size) (pos_part freeze) in
    elim (Bool-cases (leb_ℤ quantity (pos 0))) [
      | inl e ↦ rw e tt
      | inr e ↦ rw e (elim (Bool-cases (leb_ℤ freeze (pos 0) || leb_ℤ quantity freeze)) [
        | inl small ↦ rw small (ground arith, tt)
        | inr large ↦
            rw large
              (slice_loop-positive (pos_part quantity) (pos_part quantity) size (omega arith))
      ])
    ]

slice_loop-zero : (fuel size : ℕ) → slice_loop fuel 0 size ≡ []
unfolding slice_loop
slice_loop-zero zero size = refl
slice_loop-zero (suc fuel) size = refl

-- The chunks are at most the size, and one chunk fewer would not do.
slice_loop-count :
    (fuel rem size : ℕ)
    → rem ≤ fuel
    → 0 < size
    → size * length (slice_loop fuel rem size) < rem + size
unfolding slice_loop
slice_loop-count zero rem size h s = omega arith
slice_loop-count (suc fuel) rem size h s = elim (Bool-cases (rem == 0)) [
  | inl e ↦ rw e (omega arith)
  | inr e ↦ rw e (elim (Bool-cases (leb rem size)) [
    | inl le ↦
        let z : rem - min rem size ≡ 0 = ground arith in rw z (rw slice_loop-zero (ground arith))
    | inr gt ↦ ground (arith, slice_loop-count fuel (rem - min rem size) size)
  ])
]

pub effective_freeze-le :
    (lot freeze : ℕ) → 0 < lot → lot ≤ freeze → effective_freeze lot freeze ≤ freeze
effective_freeze-le lot freeze p h = grind (arith, mod-eq-sub-div-mul freeze lot)

abbrev pub IsMultiple : ℕ → ℕ → Type 0
IsMultiple lot c = (k : ℕ) × (c ≡ lot * k)

slice_loop-aligned :
    (fuel rem size lot : ℕ)
    → IsMultiple lot rem
    → IsMultiple lot size
    → All (IsMultiple lot) (slice_loop fuel rem size)
unfolding slice_loop
slice_loop-aligned zero rem size lot r s = tt
slice_loop-aligned (suc fuel) rem size lot (i, er) (j, es) = elim (Bool-cases (rem == 0)) [
  | inl e ↦ rw e tt
  | inr e ↦ rw e (
    elim (Bool-cases (leb rem size)) [ inl le ↦ (i, ground arith) | inr gt ↦ (j, ground arith) ],
    slice_loop-aligned fuel (rem - min rem size) size lot
        (elim (Bool-cases (leb rem size)) [
          | inl le ↦ (0, ground arith)
          | inr gt ↦ (i - j, rw (mul-sub lot i j) (ground arith))
        ])
        (j, es),
  )
]

All-mono : (P Q : ℕ → Type 0) (xs : List ℕ) → ((c : ℕ) → P c → Q c) → All P xs → All Q xs
All-mono P Q [] f h = tt
All-mono P Q (x ∷ xs) f h = (f x h.0, All-mono P Q xs f h.1)

-- The guards at natural arguments and a positive limit.
slice_lem :
    (q freeze lot : ℕ)
    → 0 < freeze
    → slice_quantity_for_freeze (pos q) (some (pos freeze)) (some (pos lot)) ≡ (
        if q == 0
        then []
        else if leb q freeze
        then q ∷ []
        else slice_loop q q (effective_freeze (max 1 lot) freeze))
unfolding slice_quantity_for_freeze
slice_lem q zero lot p = absurd (omega arith)
slice_lem q (suc f) zero p = ground arith
slice_lem q (suc f) (suc l) p = ground arith

module _ (q freeze lot : ℕ) (limited : 0 < freeze) (fits : lot ≤ freeze) where
  abbrev size : ℕ
  size = effective_freeze (max 1 lot) freeze

  size-le-freeze : size ≤ freeze
  size-le-freeze = effective_freeze-le (max 1 lot) freeze (omega arith) (omega arith)

  -- Under a positive freeze limit of at least one lot, every chunk is positive and within the
  -- limit.
  pub slice-bounded :
      All
        (λ c. (0 < c) × (c ≤ freeze))
        (slice_quantity_for_freeze (pos q) (some (pos freeze)) (some (pos lot)))
  slice-bounded = rw (slice_lem q freeze lot limited) (elim (Bool-cases (q == 0)) [
    | inl e ↦ rw e tt
    | inr e ↦ rw e (elim (Bool-cases (leb q freeze)) [
      | inl le ↦ rw le ((ground arith, ground arith), tt)
      | inr gt ↦ rw gt (
          All-mono (λ c. (0 < c) × (c ≤ size)) (λ c. (0 < c) × (c ≤ freeze)) (slice_loop q q size)
            (λ c h. (h.0, omega (arith, size-le-freeze)))
            (slice_loop-bounded q q size (omega arith)))
    ])
  ])

  -- Under a positive freeze limit of at least one lot, a quantity of whole positive lots is cut into
  -- chunks of whole lots.
  slice-aligned :
      0 < lot
      → IsMultiple lot q
      → All
          (IsMultiple lot)
          (slice_quantity_for_freeze (pos q) (some (pos freeze)) (some (pos lot)))
  slice-aligned p m = rw (slice_lem q freeze lot limited) (elim (Bool-cases (q == 0)) [
    | inl e ↦ rw e tt
    | inr e ↦ rw e (elim (Bool-cases (leb q freeze)) [
      | inl le ↦ rw le (m, tt)
      | inr gt ↦ rw gt (slice_loop-aligned q q size lot m (size-IsMultiple p))
    ])
  ])
    where
      size-IsMultiple : 0 < lot → IsMultiple lot (effective_freeze (max 1 lot) freeze)
      size-IsMultiple p =
          let e : max 1 lot ≡ lot = omega arith in
          rw e (elim (Bool-cases (leb lot (freeze / lot * lot))) [
            | inl le ↦ (freeze / lot, ground arith)
            | inr gt ↦ (1, ground arith)
          ])

  -- No fewer chunks of the effective size would do.
  pub slice-count :
      size * length (slice_quantity_for_freeze (pos q) (some (pos freeze)) (some (pos lot)))
      < q + size
  slice-count = rw (slice_lem q freeze lot limited) (elim (Bool-cases (q == 0)) [
    | inl e ↦ rw e (omega arith)
    | inr e ↦ rw e (elim (Bool-cases (leb q freeze)) [
      | inl le ↦ rw le (ground arith)
      | inr gt ↦ rw gt (slice_loop-count q q size (omega arith) (omega arith))
    ])
  ])
