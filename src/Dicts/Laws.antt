-- ===== src/Dicts/Laws.antt =====
-- Dicts as lists: keys, lengths and entries after a write, a removal or an update of all.
use xts_multi_tennant.Prelude.{
  Bool, Bool-cases, List, Text, [], ap, arith, false, if◌then◌else◌, inl, inr, length, none, refl,
  some, some_inj, subst, suc, sym, text_eq, text_eq_refl, text_eq→≡, true, ◌∙◌, ◌∷◌, ◌≡◌, ◌≤◌,
}
use xts_multi_tennant.Dicts.{lookup, assign, erase, each, find}

pub text_eq_sym : (s t : Text) → text_eq s t ≡ text_eq t s
unfolding text_eq
text_eq_sym [] [] = refl
text_eq_sym [] (d ∷ t) = refl
text_eq_sym (c ∷ s) [] = refl
text_eq_sym (c ∷ s) (d ∷ t) = ground (arith, text_eq_sym s t)

differ : {s t : Text} → s ≡ t → text_eq s t ≡ false → ⊥
differ {s} e h = absurd (cc (sym (text_eq_refl s) ∙ ap (text_eq s) e ∙ h))

either_entry {ℓ} :
    {A : Type ℓ} (b : Bool) (x : A) {y z : A} → y ≡ z → (if b then x else y) ≡ (if b then x else z)
either_entry true x h = refl
either_entry false x h = h

module _ {ℓ} {A : Type ℓ} where
  -- The key is not in the dict.
  abbrev pub Lacks : Text → List (Text × A) → Type 0
  Lacks key [] = Unit
  Lacks key ((k, a) ∷ rest) = (text_eq k key ≡ false) × Lacks key rest

  -- No key is there twice.
  abbrev pub Distinct : List (Text × A) → Type 0
  Distinct [] = Unit
  Distinct ((k, a) ∷ rest) = Lacks k rest × Distinct rest

  -- Every value has a property.
  abbrev pub Every {κ} : (A → Type κ) → List (Text × A) → Type κ
  Every P [] = Unit
  Every P ((k, a) ∷ rest) = P a × Every P rest

  assign-Lacks :
      (key k : Text) (a : A) (xs : List (Text × A))
      → text_eq k key ≡ false
      → Lacks key xs
      → Lacks key (assign k a xs)
  unfolding assign
  assign-Lacks key k a [] h l = (h, tt)
  assign-Lacks key k a ((j, b) ∷ rest) h l = elim (Bool-cases (text_eq j k)) [
    | inl same ↦ rw (assign, same) l
    | inr other ↦ rw (assign, other) (l.0, assign-Lacks key k a rest h l.1)
  ]

  pub assign-Distinct :
      (key : Text) (a : A) (xs : List (Text × A)) → Distinct xs → Distinct (assign key a xs)
  unfolding assign
  assign-Distinct key a [] d = (tt, tt)
  assign-Distinct key a ((k, b) ∷ rest) d = elim (Bool-cases (text_eq k key)) [
    | inl same ↦ rw (assign, same) d
    | inr other ↦
        rw (assign, other)
          (
            assign-Lacks k key a rest (text_eq_sym key k ∙ other) d.0,
            assign-Distinct key a rest d.1,
          )
  ]

  pub assign-Every {κ} :
      (P : A → Type κ) (key : Text) (a : A) (xs : List (Text × A))
      → P a
      → Every P xs
      → Every P (assign key a xs)
  unfolding assign
  assign-Every P key a [] p e = (p, tt)
  assign-Every P key a ((k, b) ∷ rest) p e = elim (Bool-cases (text_eq k key)) [
    | inl same ↦ rw (assign, same) (p, e.1)
    | inr other ↦ rw (assign, other) (e.0, assign-Every P key a rest p e.1)
  ]

  pub length-assign-new :
      (key : Text) (a : A) (xs : List (Text × A))
      → lookup key xs ≡ none
      → length (assign key a xs) ≡ suc (length xs)
  unfolding assign lookup
  length-assign-new key a [] h = refl
  length-assign-new key a ((k, b) ∷ rest) h = elim (Bool-cases (text_eq k key)) [
    | inl same ↦ absurd (cc (rw (lookup, same) at h))
    | inr other ↦
        rw (assign, other) (ap suc (length-assign-new key a rest (rw (lookup, other) at h)))
  ]

  pub length-assign-old :
      (key : Text) (a b : A) (xs : List (Text × A))
      → lookup key xs ≡ some b
      → length (assign key a xs) ≡ length xs
  unfolding assign lookup
  length-assign-old key a b [] h = absurd (cc h)
  length-assign-old key a b ((k, c) ∷ rest) h = elim (Bool-cases (text_eq k key)) [
    | inl same ↦ rw (assign, same) refl
    | inr other ↦
        rw (assign, other) (ap suc (length-assign-old key a b rest (rw (lookup, other) at h)))
  ]

  pub lookup-Every {κ} :
      (P : A → Type κ) (key : Text) (a : A) (xs : List (Text × A))
      → lookup key xs ≡ some a
      → Every P xs
      → P a
  unfolding lookup
  lookup-Every P key a [] h e = absurd (cc h)
  lookup-Every P key a ((k, b) ∷ rest) h e = elim (Bool-cases (text_eq k key)) [
    | inl same ↦ subst P (some_inj.0 (rw (lookup, same) at h)) e.0
    | inr other ↦ lookup-Every P key a rest (rw (lookup, other) at h) e.1
  ]

  -- A value that was found is one of the dict, under its key.
  pub find-Every {κ} :
      (P : A → Type κ) (test : Text → A → Bool) (k : Text) (a : A) (xs : List (Text × A))
      → find test xs ≡ some (k, a)
      → Every P xs
      → P a
  unfolding find
  find-Every P test k a [] h e = absurd (cc h)
  find-Every P test k a ((j, b) ∷ rest) h e = elim (Bool-cases (test j b)) [
    | inl hit ↦ subst P (ap (λ entry. entry.1) (some_inj.0 (rw (find, hit) at h))) e.0
    | inr miss ↦ find-Every P test k a rest (rw (find, miss) at h) e.1
  ]

  pub lookup-assign :
      (key : Text) (a : A) (xs : List (Text × A)) → lookup key (assign key a xs) ≡ some a
  unfolding assign lookup
  lookup-assign key a [] = rw (lookup, text_eq_refl key) refl
  lookup-assign key a ((k, b) ∷ rest) = elim (Bool-cases (text_eq k key)) [
    | inl same ↦ rw (assign, same) (rw (lookup, same) refl)
    | inr other ↦ rw (assign, other) (rw (lookup, other) (lookup-assign key a rest))
  ]

  pub lookup-assign-other :
      (key other_key : Text) (a : A) (xs : List (Text × A))
      → text_eq key other_key ≡ false
      → lookup other_key (assign key a xs) ≡ lookup other_key xs
  unfolding assign lookup
  lookup-assign-other key other_key a [] h = rw (lookup, h) refl
  lookup-assign-other key other_key a ((k, b) ∷ rest) h = elim (Bool-cases (text_eq k key)) [
    | inl same ↦
        let e = text_eq→≡ k key same in
        rw (assign, same) (rw (lookup, ap (λ t. text_eq t other_key) e ∙ h) refl)
    | inr other ↦
        rw (assign, other)
          (either_entry (text_eq k other_key) (some b) (lookup-assign-other key other_key a rest h))
  ]

  pub find-lookup :
      (test : Text → A → Bool) (k : Text) (a : A) (xs : List (Text × A))
      → find test xs ≡ some (k, a)
      → (b : A) × (lookup k xs ≡ some b)
  unfolding find lookup
  find-lookup test k a [] h = absurd (cc h)
  find-lookup test k a ((j, b) ∷ rest) h = elim (Bool-cases (text_eq j k)) [
    | inl same ↦ (b, rw (lookup, same) refl)
    | inr other ↦ elim (Bool-cases (test j b)) [
      | inl hit ↦ absurd (differ (ap (λ e. e.0) (some_inj.0 (rw (find, hit) at h))) other)
      | inr miss ↦
          let (c, l) = find-lookup test k a rest (rw (find, miss) at h) in (c, rw (lookup, other) l)
    ]
  ]

  erase-Lacks : (key k : Text) (xs : List (Text × A)) → Lacks key xs → Lacks key (erase k xs)
  unfolding erase
  erase-Lacks key k [] l = tt
  erase-Lacks key k ((j, b) ∷ rest) l = elim (Bool-cases (text_eq j k)) [
    | inl same ↦ rw (erase, same) l.1
    | inr other ↦ rw (erase, other) (l.0, erase-Lacks key k rest l.1)
  ]

  pub erase-Distinct : (k : Text) (xs : List (Text × A)) → Distinct xs → Distinct (erase k xs)
  unfolding erase
  erase-Distinct k [] d = tt
  erase-Distinct k ((j, b) ∷ rest) d = elim (Bool-cases (text_eq j k)) [
    | inl same ↦ rw (erase, same) d.1
    | inr other ↦ rw (erase, other) (erase-Lacks j k rest d.0, erase-Distinct k rest d.1)
  ]

  pub erase-Every {κ} :
      (P : A → Type κ) (k : Text) (xs : List (Text × A)) → Every P xs → Every P (erase k xs)
  unfolding erase
  erase-Every P k [] e = tt
  erase-Every P k ((j, b) ∷ rest) e = elim (Bool-cases (text_eq j k)) [
    | inl same ↦ rw (erase, same) e.1
    | inr other ↦ rw (erase, other) (e.0, erase-Every P k rest e.1)
  ]

  pub length-erase : (k : Text) (xs : List (Text × A)) → length (erase k xs) ≤ length xs
  unfolding erase
  length-erase k [] = omega arith
  length-erase k ((j, b) ∷ rest) = ground (arith, length-erase k rest)

  each-Lacks :
      (f : A → A) (key : Text) (xs : List (Text × A)) → Lacks key xs → Lacks key (each f xs)
  unfolding each
  each-Lacks f key [] l = tt
  each-Lacks f key ((k, a) ∷ rest) l = (l.0, each-Lacks f key rest l.1)

  pub each-Distinct : (f : A → A) (xs : List (Text × A)) → Distinct xs → Distinct (each f xs)
  unfolding each
  each-Distinct f [] d = tt
  each-Distinct f ((k, a) ∷ rest) d = (each-Lacks f k rest d.0, each-Distinct f rest d.1)

  pub each-Every {κ} :
      (P : A → Type κ) (f : A → A) (xs : List (Text × A))
      → ((a : A) → P a → P (f a))
      → Every P xs
      → Every P (each f xs)
  unfolding each
  each-Every P f [] h e = tt
  each-Every P f ((k, a) ∷ rest) h e = (h a e.0, each-Every P f rest h e.1)

  pub length-each : (f : A → A) (xs : List (Text × A)) → length (each f xs) ≡ length xs
  unfolding each
  length-each f [] = refl
  length-each f ((k, a) ∷ rest) = ap suc (length-each f rest)
