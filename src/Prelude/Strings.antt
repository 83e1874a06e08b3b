-- ===== src/Prelude/Strings.antt =====
-- Python's `str` as the list of its code points.
use Prim.Native.Nat.{ℕ, ◌+◌, ◌-◌}
use Prim.Native.Char.{code}
use Prim.Native.String.{String}
use mathlib.Core.Bool.{Bool, true, false, ◌&&◌, ◌||◌}
use mathlib.Core.List.{List, [], ◌∷◌, map, reverse}
use mathlib.Core.Path.{◌≡◌, refl}
use native.Mathlib.Omega.{arith}
use xts_multi_tennant.Prelude.Tests.{leb, ◌==◌, if◌then◌else◌}

abbrev pub Text : Type 0
Text = List ℕ

abbrev pub codes : String → Text
codes String.[] = []
codes (String.◌∷◌ c s) = code c ∷ codes s

-- `s == t`
unfoldable pub text_eq : Text → Text → Bool
text_eq [] [] = true
text_eq [] (d ∷ t) = false
text_eq (c ∷ s) [] = false
text_eq (c ∷ s) (d ∷ t) = c == d && text_eq s t

-- `s.startswith(p)`
unfoldable pub starts_with : Text → Text → Bool
starts_with s [] = true
starts_with [] (p ∷ ps) = false
starts_with (c ∷ s) (p ∷ ps) = c == p && starts_with s ps

-- `p in s`
unfoldable pub is_infix : Text → Text → Bool
unfolding starts_with
is_infix p [] = starts_with [] p
is_infix p (c ∷ s) = starts_with (c ∷ s) p || is_infix p s

upper_code : ℕ → ℕ
upper_code c = if leb b'a' c && leb c b'z' then c - 32 else c

-- `s.upper()`, on ASCII.
unfoldable pub upper : Text → Text
unfolding upper_code
upper s = map upper_code s

lower_code : ℕ → ℕ
lower_code c = if leb b'A' c && leb c b'Z' then c + 32 else c

-- `s.lower()`, on ASCII.
unfoldable pub lower : Text → Text
unfolding lower_code
lower s = map lower_code s

unfoldable pub is_space : ℕ → Bool
is_space c = c == 32 || leb 9 c && leb c 13 || leb 28 c && leb c 31

unfoldable pub drop_space : Text → Text
drop_space [] = []
drop_space (c ∷ s) = if is_space c then drop_space s else c ∷ s

-- `s.strip()`, on ASCII.
unfoldable pub strip : Text → Text
unfolding drop_space is_space
strip s = reverse (drop_space (reverse (drop_space s)))

pub text_eq_refl : (s : Text) → text_eq s s ≡ true
unfolding text_eq
text_eq_refl [] = refl
text_eq_refl (c ∷ s) = ground (arith, text_eq_refl s)

pub text_eq→≡ : (s t : Text) → text_eq s t ≡ true → s ≡ t
unfolding text_eq
text_eq→≡ [] [] h = refl
text_eq→≡ [] (d ∷ t) h = cc
text_eq→≡ (c ∷ s) [] h = cc
text_eq→≡ (c ∷ s) (d ∷ t) h = ground (arith, text_eq→≡ s t)
