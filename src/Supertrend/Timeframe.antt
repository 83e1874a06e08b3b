-- ===== src/Supertrend/Timeframe.antt =====
-- client/supertrend_engine.py: `parse_timeframe_seconds`. Texts are those of ASCII; an
-- infinite float or no number, on which `int` raises, is left out.
use xts_multi_tennant.Prelude.{
  Bool, Bool-cases, List, Option, Text, [], all, arith, codes, drop_space, eqb_ℤ, false,
  if◌then◌else◌, inl, inr, is_space, leb_ℤ, lower, ltb, ltb_ℤ, negsuc, none, pos, refl, some, strip,
  suc, text_eq, true, zero, ℕ, ℤ, ◌*◌, ◌+◌, ◌<◌, ◌||◌, ◌∷◌, ◌≡◌, ◌≤ℤ◌, ◌≤◌, ◌⊎◌,
}
use xts_multi_tennant.Orders.Ref.{is_digit}
use xts_multi_tennant.Orders.Book.{int_of_digits}

-- The values that a request may hold as its timeframe. A float that is whole is an integer here, and
-- any other is a fraction, given by `int` of it, which cuts towards 0.
pub data Value : Type 0 where
  absent : Value
  integer : ℤ → Value
  fraction : ℤ → Value
  text : Text → Value

-- `TIMEFRAME_SECONDS_MAP`
unfoldable pub timeframe_seconds_map : List (Text × ℕ)
timeframe_seconds_map =
    (codes "1m", 60)
    ∷ (codes "3m", 180)
    ∷ (codes "5m", 300)
    ∷ (codes "15m", 900)
    ∷ (codes "20m", 1200)
    ∷ (codes "25m", 1500)
    ∷ (codes "30m", 1800)
    ∷ (codes "45m", 2700)
    ∷ (codes "1h", 3600)
    ∷ (codes "2h", 7200)
    ∷ (codes "4h", 14400)
    ∷ (codes "1d", 86400)
    ∷ []

-- The seconds under a name, where the table has it.
unfoldable pub preset : Text → List (Text × ℕ) → Option ℕ
preset s [] = none
preset s ((name, seconds) ∷ rest) = if text_eq name s then some seconds else preset s rest

-- The digits at the head of a text, and what follows them.
unfoldable pub split_digits : Text → Text × Text
unfolding is_digit
split_digits [] = ([], [])
split_digits (c ∷ s) =
    let rest = split_digits s in if is_digit c then (c ∷ rest.0, rest.1) else ([], c ∷ s)

-- The spellings of a unit, and its seconds, in the order of the patterns.
pub record Pattern : Type 0 where
  pub spellings : List Text
  pub seconds : ℕ

unfoldable pub patterns : List Pattern
patterns =
    record {
      spellings = codes "h" ∷ codes "hour" ∷ codes "hours" ∷ codes "hr" ∷ [];
      seconds = 3600;
    }
    ∷ record {
      spellings = codes "m" ∷ codes "min" ∷ codes "minute" ∷ codes "minutes" ∷ [];
      seconds = 60;
    }
    ∷ record {
      spellings = codes "s" ∷ codes "sec" ∷ codes "second" ∷ codes "seconds" ∷ [];
      seconds = 1;
    }
    ∷ record { spellings = codes "d" ∷ codes "day" ∷ codes "days" ∷ []; seconds = 86400 }
    ∷ []

abbrev or_default : ℕ → Option ℕ → ℕ
or_default d none = d
or_default d (some n) = n

-- `max(m, n)`
abbrev at_least : ℕ → ℕ → ℕ
at_least m n = if ltb n m then m else n

unfoldable pub is_one_of : Text → List Text → Bool
is_one_of s [] = false
is_one_of s (t ∷ ts) = text_eq s t || is_one_of s ts

-- `re.match(r'^(\d+)\s*…$', s)`: the first pattern with the unit, and at least a minute.
unfoldable pub match_unit : ℕ → Text → List Pattern → Option ℕ
unfolding is_one_of
match_unit n unit [] = none
match_unit n unit (p ∷ ps) =
    if is_one_of unit p.spellings then some (at_least 60 (n * p.seconds)) else match_unit n unit ps

-- `val * 60 if val < 1000 else val`
unfoldable pub minutes_or_seconds : ℕ → ℕ
minutes_or_seconds val = if ltb val 1000 then val * 60 else val

-- A text that is no preset, split into its digits and the rest.
unfoldable pub parse_parts : Text → Text → ℕ
unfolding match_unit patterns minutes_or_seconds drop_space is_space int_of_digits
parse_parts [] unit = 300
parse_parts (d ∷ ds) [] = minutes_or_seconds (int_of_digits 0 (d ∷ ds))
parse_parts (d ∷ ds) (c ∷ unit) =
    or_default 300 (match_unit (int_of_digits 0 (d ∷ ds)) (drop_space (c ∷ unit)) patterns)

unfoldable pub parse_text : Text → ℕ
parse_text s =
    let parts = split_digits s in
    or_default (parse_parts parts.0 parts.1) (preset s timeframe_seconds_map)

-- The same on an integer; `-(n + 1) * 60` is `-(n * 60 + 60)`.
unfoldable pub whole_minutes : ℤ → ℤ
unfolding minutes_or_seconds
whole_minutes (pos n) = pos (minutes_or_seconds n)
whole_minutes (negsuc n) = negsuc (n * 60 + 59)

-- `parse_timeframe_seconds`
unfoldable pub parse_timeframe_seconds : Value → ℤ
unfolding whole_minutes
parse_timeframe_seconds absent = pos 300
parse_timeframe_seconds (integer z) = if eqb_ℤ z (pos 0) then pos 300 else whole_minutes z
parse_timeframe_seconds (fraction z) = whole_minutes z
parse_timeframe_seconds (text []) = pos 300
parse_timeframe_seconds (text (c ∷ s)) = pos (parse_text (lower (strip (c ∷ s))))

match_unit-least :
    (n : ℕ) (unit : Text) (ps : List Pattern) → 60 ≤ or_default 300 (match_unit n unit ps)
unfolding match_unit
match_unit-least n unit [] = omega arith
match_unit-least n unit (p ∷ ps) = ground (arith, match_unit-least n unit ps)

preset-least :
    (s : Text) (d : ℕ)
    → 60 ≤ or_default d (preset s timeframe_seconds_map) ⊎ (preset s timeframe_seconds_map ≡ none)
unfolding preset timeframe_seconds_map
preset-least s d = ground arith

minutes_lem : (n : ℕ) → 0 < n → 60 ≤ minutes_or_seconds n
unfolding minutes_or_seconds
minutes_lem n h = ground arith

-- The text is a number, once stripped and in lower case.
pub IsNumeral : Text → Type 0
IsNumeral s = all is_digit (lower (strip s)) ≡ true

split_digits-all : (s : Text) → (split_digits s).1 ≡ [] → all is_digit s ≡ true
unfolding split_digits
split_digits-all [] h = refl
split_digits-all (c ∷ s) h = let rest = split_digits-all s in ground (arith, rest)

parse_parts-least :
    (digits unit : Text)
    → 60 ≤ parse_parts digits unit ⊎ ((unit ≡ []) × (parse_parts digits unit ≡ 0))
unfolding parse_parts minutes_or_seconds
parse_parts-least [] unit = inl (omega arith)
parse_parts-least (d ∷ ds) [] = ground arith
parse_parts-least (d ∷ ds) (c ∷ unit) =
    inl (match_unit-least (int_of_digits 0 (d ∷ ds)) (drop_space (c ∷ unit)) patterns)

parse_text-least : (s : Text) → 60 ≤ parse_text s ⊎ ((all is_digit s ≡ true) × (parse_text s ≡ 0))
unfolding parse_text
parse_text-least s =
    let parts = split_digits s in
    elim (preset-least s (parse_parts parts.0 parts.1)) [
      | inl least ↦ inl least
      | inr new ↦ rw new (elim (parse_parts-least parts.0 parts.1) [
        | inl least ↦ inl least
        | inr zero_found ↦ inr (split_digits-all s zero_found.0, zero_found.1)
      ])
    ]

-- The values that are too small: a negative integer, a fraction below 1, and a text that is a number.
pub IsTooSmall : Value → Type 0
IsTooSmall absent = ⊥
IsTooSmall (integer z) = ltb_ℤ z (pos 0) ≡ true
IsTooSmall (fraction z) = leb_ℤ z (pos 0) ≡ true
IsTooSmall (text s) = IsNumeral s

integer_lem :
    (z : ℤ)
    → eqb_ℤ z (pos 0) ≡ false
    → pos 60 ≤ℤ whole_minutes z ⊎ ((ltb_ℤ z (pos 0) ≡ true) × (whole_minutes z ≤ℤ pos 0))
unfolding whole_minutes minutes_or_seconds
integer_lem (pos n) h = inl (ground arith)
integer_lem (negsuc n) h = inr (ground arith, ground arith)

fraction_lem :
    (z : ℤ) → pos 60 ≤ℤ whole_minutes z ⊎ ((leb_ℤ z (pos 0) ≡ true) × (whole_minutes z ≤ℤ pos 0))
unfolding whole_minutes minutes_or_seconds
fraction_lem (pos zero) = inr (ground arith, ground arith)
fraction_lem (pos (suc n)) = inl (ground arith)
fraction_lem (negsuc n) = inr (ground arith, ground arith)

-- A timeframe has at least 60 seconds; or it has none or fewer, and is a negative integer, a float
-- whose whole part is 0 or below, or a text that is a number.
pub parse_timeframe_seconds-least :
    (v : Value)
    → pos 60 ≤ℤ parse_timeframe_seconds v ⊎ (IsTooSmall v × (parse_timeframe_seconds v ≤ℤ pos 0))
unfolding parse_timeframe_seconds IsTooSmall IsNumeral
parse_timeframe_seconds-least absent = inl (omega arith)
parse_timeframe_seconds-least (integer z) = elim (Bool-cases (eqb_ℤ z (pos 0))) [
  | inl none_given ↦ rw none_given (inl (omega arith))
  | inr given ↦ rw given (integer_lem z given)
]
parse_timeframe_seconds-least (fraction z) = fraction_lem z
parse_timeframe_seconds-least (text []) = inl (omega arith)
parse_timeframe_seconds-least (text (c ∷ s)) = elim (parse_text-least (lower (strip (c ∷ s)))) [
  | inl least ↦ inl (omega (arith, least))
  | inr zero_found ↦ inr (zero_found.0, omega (arith, zero_found.1))
]
