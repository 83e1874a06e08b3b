-- ===== src/Orders/Tick.antt =====
-- client/xts_api.py, `apply_tick_size`: a limit price is moved to the exchange's price grid.
-- Prices are whole micro-rupees, the six decimals to which the source rounds; the division of the
-- source's decimals is taken to be exact. An amount that is no finite number is `non_finite`.
use xts_multi_tennant.Prelude.{
  Bool-cases, arith, false, if◌then◌else◌, inl, inr, leb, ltb, max, pos, suc, zero, ℕ, ℤ, ◌%◌, ◌&&◌,
  ◌*◌, ◌+◌, ◌-◌, ◌/◌, ◌<◌, ◌==◌, ◌||◌, ◌≡◌, ◌≤◌, ◌⊎◌,
}
use native.Mathlib.Nat.{mod-eq-sub-div-mul}
use xts_multi_tennant.Orders.Slicing.{IsMultiple}

-- One rupee.
abbrev pub unit : ℕ
unit = 1_000_000

pub data Amount : Type 0 where
  non_finite : Amount
  finite : ℤ → Amount

-- The action of an order.
pub data Side : Type 0 where
  buy sell : Side

-- A tick that is not a positive number becomes 0.05.
pub tick_or_default : Amount → ℕ
tick_or_default (finite (pos (suc t))) = suc t
tick_or_default _ = 50_000

-- `Decimal.quantize(Decimal('1'))`: to whole rupees, a half to the even one.
pub quantize_unit : ℕ → ℕ
quantize_unit v =
    let k = v / unit in
    let r = 2 * (v % unit) in
    if ltb r unit || (r == unit && (k % 2 == 0)) then k * unit else (k + 1) * unit

pub ticks : ℕ → ℕ → Side → ℕ
ticks p t buy = max 1 ((p + t - 1) / t)
ticks p t sell = max 1 (p / t)

pub on_grid : ℕ → ℕ → Side → ℕ
unfolding ticks quantize_unit
on_grid p t side =
    let valid_price = ticks p t side * t in
    if leb unit t then quantize_unit valid_price else valid_price

pub apply_tick_size : Amount → Amount → Side → ℕ
unfolding on_grid tick_or_default
apply_tick_size (finite (pos (suc p))) tick side = on_grid (suc p) (tick_or_default tick) side
apply_tick_size _ tick side = 0

-- A grid that the final rounding to whole rupees respects: ticks below a rupee, or whole rupees.
abbrev pub IsRegular : ℕ → Type 0
IsRegular t = (t < unit) ⊎ IsMultiple unit t

quantize_unit-IsMultiple : (k : ℕ) → quantize_unit (unit * k) ≡ unit * k
unfolding quantize_unit
quantize_unit-IsMultiple k =
    let e : unit * k / unit ≡ k = omega arith in
    let z : unit * k % unit ≡ 0 = omega arith in rw (e, z) (omega arith)

on_grid_lem : (p t : ℕ) (side : Side) → IsRegular t → on_grid p t side ≡ ticks p t side * t
unfolding on_grid
on_grid_lem p t side (inl small) = let e : leb unit t ≡ false = ground arith in rw e
on_grid_lem p t side (inr (k, whole)) = elim (Bool-cases (leb unit t)) [
  | inl e ↦
      let m : ticks p t side * t ≡ unit * (k * ticks p t side) = rw whole (omega arith) in
      rw (e, m) (quantize_unit-IsMultiple (k * ticks p t side))
  | inr e ↦ rw e
]

apply_tick_size_lem :
    (p t : ℕ) (side : Side)
    → 0 < p
    → 0 < t
    → IsRegular t
    → apply_tick_size (finite (pos p)) (finite (pos t)) side ≡ ticks p t side * t
unfolding apply_tick_size
apply_tick_size_lem zero t side hp ht reg = absurd (omega arith)
apply_tick_size_lem (suc p) zero side hp ht reg = absurd (omega arith)
apply_tick_size_lem (suc p) (suc t) side hp ht reg = on_grid_lem (suc p) (suc t) side reg

ticks-pos : (p t : ℕ) (side : Side) → 0 < ticks p t side
unfolding ticks
ticks-pos p t buy = omega arith
ticks-pos p t sell = omega arith

-- A limit price is a positive number of ticks, for a positive price and a positive tick that is
-- below a rupee or of whole rupees.
tick-multiple :
    (p t : ℕ) (side : Side)
    → 0 < p
    → 0 < t
    → IsRegular t
    → (n : ℕ) × (0 < n) × (apply_tick_size (finite (pos p)) (finite (pos t)) side ≡ n * t)
tick-multiple p t side hp ht reg =
    (ticks p t side, ticks-pos p t side, apply_tick_size_lem p t side hp ht reg)

-- For a positive price and a positive tick that is below a rupee or of whole rupees, a buy limit is
-- at the asked price or less than one tick above it.
tick-buy :
    (p t : ℕ)
    → 0 < p
    → 0 < t
    → IsRegular t
    → let r = apply_tick_size (finite (pos p)) (finite (pos t)) buy in (p ≤ r) × (r < p + t)
unfolding ticks
tick-buy p t hp ht reg = rw (apply_tick_size_lem p t buy hp ht reg) (
  grind (arith, mod-eq-sub-div-mul (p + t - 1) t),
  grind (arith, mod-eq-sub-div-mul (p + t - 1) t),
)

sell-above : (p t : ℕ) → 0 < t → p < ticks p t sell * t + t
unfolding ticks
sell-above p t ht = grind (arith, mod-eq-sub-div-mul p t)

sell-within :
    (p t : ℕ)
    → 0 < p
    → 0 < t
    → ((p < t) × (ticks p t sell * t ≡ t)) ⊎ ((t ≤ p) × (ticks p t sell * t ≤ p))
unfolding ticks
sell-within p t hp ht = elim (Bool-cases (ltb p t)) [
  | inl below ↦
      let z : p / t ≡ 0 = grind (arith, mod-eq-sub-div-mul p t) in
      inl (ground arith, rw z (omega arith))
  | inr above ↦
      let ge : t ≤ p = ground arith in
      let some_tick : 0 < p / t = grind (arith, mod-eq-sub-div-mul p t) in
      let m : max 1 (p / t) ≡ p / t = omega (arith, some_tick) in
      inr (ge, rw m (omega (arith, mod-eq-sub-div-mul p t)))
]

-- For a positive price and a positive tick that is below a rupee or of whole rupees, a sell limit is
-- at the asked price or less than one tick below it, or one tick where the asked price is less than
-- that.
tick-sell :
    (p t : ℕ)
    → 0 < p
    → 0 < t
    → IsRegular t
    → let r = apply_tick_size (finite (pos p)) (finite (pos t)) sell in
      (p < r + t) × (((p < t) × (r ≡ t)) ⊎ ((t ≤ p) × (r ≤ p)))
tick-sell p t hp ht reg =
    rw (apply_tick_size_lem p t sell hp ht reg) (sell-above p t ht, sell-within p t hp ht)
