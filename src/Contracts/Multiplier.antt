-- ===== src/Contracts/Multiplier.antt =====
-- client/xts_api.py, `get_contract_multiplier`. The multipliers are whole, and the table of roots is
-- the source's.
use xts_multi_tennant.Prelude.{
  All, Bool, Bool-cases, List, Option, Option-cases, Text, [], any, arith, codes, false,
  if◌then◌else◌, inl, inr, is_infix, length, ltb, ltb-false→le, ltb→lt, none, not, refl, some,
  some_inj, starts_with, subst, sym, text_eq, true, upper, ℕ, ◌&&◌, ◌||◌, ◌∙◌, ◌∷◌, ◌≡◌, ◌≤◌, ◌⊎◌,
}
use xts_multi_tennant.Contracts.Symbols.{resolve_symbol_smart, alphanum_only}

abbrev pub Roots : Type 0
Roots = List (Text × ℕ)

unfoldable pub commodity_multipliers : Roots
commodity_multipliers =
    (codes "CRUDEOIL", 100)
    ∷ (codes "CRUDEOILM", 10)
    ∷ (codes "NATURALGAS", 1250)
    ∷ (codes "NATURALGASM", 250)
    ∷ (codes "GOLD", 100)
    ∷ (codes "GOLDM", 10)
    ∷ (codes "GOLDPETAL", 1)
    ∷ (codes "SILVER", 30)
    ∷ (codes "SILVERM", 5)
    ∷ (codes "SILVERMIC", 1)
    ∷ (codes "COPPER", 2500)
    ∷ (codes "ZINC", 5000)
    ∷ (codes "ZINCMINI", 1000)
    ∷ (codes "LEAD", 5000)
    ∷ (codes "LEADMINI", 1000)
    ∷ (codes "ALUMINI", 1000)
    ∷ (codes "ALUMINIUM", 5000)
    ∷ (codes "COTTON", 25)
    ∷ (codes "MCXBULLDEX", 50)
    ∷ []

-- A root among roots that are sorted by length, the longest first.
unfoldable pub insert : Text × ℕ → Roots → Roots
insert r [] = r ∷ []
insert r (s ∷ rest) =
    let later = insert r rest in if ltb (length r.0) (length s.0) then s ∷ later else r ∷ s ∷ rest

-- `sorted(COMMODITY_MULTIPLIERS.keys(), key=len, reverse=True)`
unfoldable pub by_length : Roots → Roots
unfolding insert
by_length [] = []
by_length (r ∷ rest) = insert r (by_length rest)

-- The first root that passes a test.
unfoldable pub find_root : (Text → Bool) → Roots → Option (Text × ℕ)
find_root test [] = none
find_root test (r ∷ rest) = let later = find_root test rest in if test r.0 then some r else later

-- The root by its prefix, or else by its place anywhere.
unfoldable pub root_of : Text → Roots → Option (Text × ℕ)
unfolding find_root
root_of norm roots = elim (find_root (λ r. starts_with norm r) roots) [
  | some r ↦ some r
  | none ↦ find_root (λ r. is_infix r norm) roots
]

unfoldable pub multiplier_of : Option (Text × ℕ) → ℕ
multiplier_of none = 1
multiplier_of (some r) = r.1

-- `norm`
abbrev pub norm_of : List (List (Text × Text)) → Text → Text
norm_of tables symbol = alphanum_only (upper (resolve_symbol_smart tables symbol))

unfoldable pub get_contract_multiplier : List (List (Text × Text)) → Text → Text → ℕ
unfolding root_of by_length multiplier_of
get_contract_multiplier tables symbol exch_seg =
    let norm = norm_of tables symbol in
    if not (text_eq exch_seg [])
      && not (text_eq exch_seg (codes "MCXFO") || text_eq exch_seg (codes "NCDEX"))
    then 1
    else multiplier_of (root_of norm (by_length commodity_multipliers))

-- No root of a list is longer than a number.
abbrev Below : ℕ → Roots → Type 0
Below n rs = All (λ r. length r.0 ≤ n) rs

abbrev IsSorted : Roots → Type 0
IsSorted [] = Unit
IsSorted (r ∷ rest) = Below (length r.0) rest × IsSorted rest

more-Below : (n m : ℕ) (rs : Roots) → n ≤ m → Below n rs → Below m rs
more-Below n m [] h b = tt
more-Below n m (r ∷ rs) h b = (omega (arith, h, b.0), more-Below n m rs h b.1)

insert-Below :
    (n : ℕ) (r : Text × ℕ) (rs : Roots) → length r.0 ≤ n → Below n rs → Below n (insert r rs)
unfolding insert
insert-Below n r [] h b = (h, tt)
insert-Below n r (s ∷ rest) h b = elim (Bool-cases (ltb (length r.0) (length s.0))) [
  | inl shorter ↦ rw (insert, shorter) (b.0, insert-Below n r rest h b.1)
  | inr longer ↦ rw (insert, longer) (h, b)
]

insert-IsSorted : (r : Text × ℕ) (rs : Roots) → IsSorted rs → IsSorted (insert r rs)
unfolding insert
insert-IsSorted r [] h = (tt, tt)
insert-IsSorted r (s ∷ rest) h = elim (Bool-cases (ltb (length r.0) (length s.0))) [
  | inl shorter ↦
      let le : length r.0 ≤ length s.0 = omega (arith, ltb→lt (length r.0) (length s.0) shorter) in
      rw (insert, shorter) (insert-Below (length s.0) r rest le h.0, insert-IsSorted r rest h.1)
  | inr longer ↦
      let le = ltb-false→le (length r.0) (length s.0) longer in
      rw (insert, longer) ((le, more-Below (length s.0) (length r.0) rest le h.0), h)
]

by_length-IsSorted : (rs : Roots) → IsSorted (by_length rs)
unfolding by_length
by_length-IsSorted [] = tt
by_length-IsSorted (r ∷ rest) = insert-IsSorted r (by_length rest) (by_length-IsSorted rest)

-- What holds of a sorted list holds of the list.
insert-All :
    (P : Text × ℕ → Type 0) (r : Text × ℕ) (rs : Roots) → All P (insert r rs) → P r × All P rs
unfolding insert
insert-All P r [] h = h
insert-All P r (s ∷ rest) h = elim (Bool-cases (ltb (length r.0) (length s.0))) [
  | inl shorter ↦
      let k = rw (insert, shorter) at h in let (p, q) = insert-All P r rest k.1 in (p, (k.0, q))
  | inr longer ↦ rw (insert, longer) at h
]

by_length-All : (P : Text × ℕ → Type 0) (rs : Roots) → All P (by_length rs) → All P rs
unfolding by_length
by_length-All P [] h = tt
by_length-All P (r ∷ rest) h =
    let (p, q) = insert-All P r (by_length rest) h in (p, by_length-All P rest q)

-- No root that passes the test is longer than the one that is found.
abbrev pub Longest : (Text → Bool) → Text × ℕ → Roots → Type 0
Longest test found rs = All (λ r. test r.0 ≡ true → length r.0 ≤ length found.0) rs

Below-Longest :
    (test : Text → Bool) (found : Text × ℕ) (rs : Roots)
    → Below (length found.0) rs
    → Longest test found rs
Below-Longest test found [] b = tt
Below-Longest test found (r ∷ rs) b = (λ passes. b.0, Below-Longest test found rs b.1)

find_root-Longest :
    (test : Text → Bool) (found : Text × ℕ) (rs : Roots)
    → IsSorted rs
    → find_root test rs ≡ some found
    → (test found.0 ≡ true) × Longest test found rs
unfolding find_root
find_root-Longest test found [] s e = absurd (cc e)
find_root-Longest test found (r ∷ rest) s e = elim (Bool-cases (test r.0)) [
  | inl hit ↦
      let same = some_inj.0 (rw (find_root, hit) at e) in
      subst (λ f. (test f.0 ≡ true) × Longest test f (r ∷ rest)) same
        (hit, (λ passes. omega arith, Below-Longest test r rest s.0))
  | inr miss ↦
      let (passes, longest) = find_root-Longest test found rest s.1 (rw (find_root, miss) at e) in
      (passes, (λ hit. absurd (cc (sym hit ∙ miss)), longest))
]

find_root-by_length :
    (norm : Text) (found : Text × ℕ) (rs : Roots)
    → find_root (λ r. starts_with norm r) (by_length rs) ≡ some found
    → (starts_with norm found.0 ≡ true) × Longest (λ r. starts_with norm r) found rs
find_root-by_length norm found rs e =
    let (hit, longest) =
      find_root-Longest (λ r. starts_with norm r) found (by_length rs) (by_length-IsSorted rs) e in
    (hit, by_length-All (λ r. starts_with norm r.0 ≡ true → length r.0 ≤ length found.0) rs longest)

-- The row is in the table.
abbrev pub IsIn : Text × ℕ → Roots → Type 0
IsIn found [] = ⊥
IsIn found (r ∷ rest) = (found ≡ r) ⊎ IsIn found rest

insert-IsIn : (x r : Text × ℕ) (rs : Roots) → IsIn x (insert r rs) → (x ≡ r) ⊎ IsIn x rs
unfolding insert
insert-IsIn x r [] h = h
insert-IsIn x r (s ∷ rest) h = elim (Bool-cases (ltb (length r.0) (length s.0))) [
  | inr longer ↦ rw (insert, longer) at h
  | inl shorter ↦ elim (rw (insert, shorter) at h) [
    | inl first ↦ inr (inl first)
    | inr later ↦ elim (insert-IsIn x r rest later) [
      | inl same ↦ inl same
      | inr among ↦ inr (inr among)
    ]
  ]
]

by_length-IsIn : (x : Text × ℕ) (rs : Roots) → IsIn x (by_length rs) → IsIn x rs
unfolding by_length
by_length-IsIn x [] h = h
by_length-IsIn x (r ∷ rest) h = elim (insert-IsIn x r (by_length rest) h) [
  | inl same ↦ inl same
  | inr later ↦ inr (by_length-IsIn x rest later)
]

find_root-IsIn :
    (test : Text → Bool) (found : Text × ℕ) (rs : Roots)
    → find_root test rs ≡ some found
    → IsIn found rs
unfolding find_root
find_root-IsIn test found [] e = absurd (cc e)
find_root-IsIn test found (r ∷ rest) e = elim (Bool-cases (test r.0)) [
  | inl hit ↦ inl (sym (some_inj.0 (rw (find_root, hit) at e)))
  | inr miss ↦ inr (find_root-IsIn test found rest (rw (find_root, miss) at e))
]

-- Where nothing is found, no root passes the test.
find_root-none :
    (test : Text → Bool) (rs : Roots) → find_root test rs ≡ none → All (λ r. test r.0 ≡ false) rs
unfolding find_root
find_root-none test [] e = tt
find_root-none test (r ∷ rest) e = elim (Bool-cases (test r.0)) [
  | inl hit ↦ absurd (cc (rw (find_root, hit) at e))
  | inr miss ↦ (miss, find_root-none test rest (rw (find_root, miss) at e))
]

any-false :
    (test : Text → Bool) (rs : Roots)
    → All (λ r. test r.0 ≡ false) rs
    → any (λ r. test r.0) rs ≡ false
any-false test [] h = refl
any-false test (r ∷ rest) h = rw h.0 (any-false test rest h.1)

-- The exchange's segment has multipliers, or is not given.
abbrev pub HasMultipliers : Text → Type 0
HasMultipliers seg = (seg ≡ []) ⊎ (seg ≡ codes "MCXFO") ⊎ (seg ≡ codes "NCDEX")

segment_lem :
    (seg : Text)
    → HasMultipliers seg
    → (not (text_eq seg []) && not (text_eq seg (codes "MCXFO") || text_eq seg (codes "NCDEX")))
      ≡ false
unfolding text_eq
segment_lem seg (inl e) = rw e refl
segment_lem seg (inr (inl e)) = rw e refl
segment_lem seg (inr (inr e)) = rw e refl

root_of-prefix :
    (norm : Text) (found : Text × ℕ) (rs : Roots)
    → find_root (λ r. starts_with norm r) rs ≡ some found
    → root_of norm rs ≡ some found
unfolding root_of
root_of-prefix norm found rs e = rw (root_of, e) refl

-- In a segment with multipliers, or without a segment, a symbol whose name begins with a root of the
-- table has the multiplier of the longest root of the table that its name begins with.
pub get_contract_multiplier-Longest :
    (tables : List (List (Text × Text))) (symbol exch_seg : Text)
    → HasMultipliers exch_seg
    → any (λ r. starts_with (norm_of tables symbol) r.0) commodity_multipliers ≡ true
    → (found : Text × ℕ) × ((get_contract_multiplier tables symbol exch_seg ≡ found.1)
        × (IsIn found commodity_multipliers
            × ((starts_with (norm_of tables symbol) found.0 ≡ true)
                × Longest
                    (λ r. starts_with (norm_of tables symbol) r)
                    found
                    commodity_multipliers)))
unfolding get_contract_multiplier multiplier_of
get_contract_multiplier-Longest tables symbol exch_seg seg begins =
    let norm = norm_of tables symbol in
    let test = λ (r : Text). starts_with norm r in
    elim (Option-cases (find_root test (by_length commodity_multipliers))) [
      | inl gone ↦
          let none_begins = any-false test commodity_multipliers (
            by_length-All (λ r. test r.0 ≡ false) commodity_multipliers
              (find_root-none test (by_length commodity_multipliers) gone)) in
          absurd (cc (sym begins ∙ none_begins))
      | inr (found, e) ↦
          let chosen = root_of-prefix norm found (by_length commodity_multipliers) e in
          (
            found,
            (
              rw (segment_lem exch_seg seg, chosen) refl,
              (
                by_length-IsIn found commodity_multipliers
                    (find_root-IsIn test found (by_length commodity_multipliers) e),
                find_root-by_length norm found commodity_multipliers e,
              ),
            ),
          )
    ]
