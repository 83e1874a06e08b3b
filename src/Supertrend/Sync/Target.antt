-- ===== src/Supertrend/Sync/Target.antt =====
-- client/supertrend_engine.py: where synchronizing and flipping leave a runner's position.
use xts_multi_tennant.Prelude.{
  Bool, Text, abs, ap, arith, codes, false, if◌then◌else◌, inl, inr, ltb, negsuc, pos, refl, subst,
  sym, true, ℕ, ℤ, ◌++◌, ◌+ℤ◌, ◌-ℤ◌, ◌-◌, ◌∙◌, ◌≡◌, ◌≤◌, ◌⊎◌,
}
use xts_multi_tennant.Supertrend.Legs.{
  Runner, Channel, Holding, long, short, shift, exit_side, execute_exit, execute_entry,
}
use xts_multi_tennant.Supertrend.Balance.{execute_exit-LegLaws, execute_entry-LegLaws}
use xts_multi_tennant.Supertrend.Sync.{
  toward, against, opposite, entry_side, target, retry_quantity, flip_entered, flip_entry_retry,
  flip_enter, flip_exited, flip_exit_retry, flip_to,
}

pub exit_lem :
    (t : Holding) (p : ℤ)
    → (ltb 0 (against t p)) ≡ true
    → shift (exit_side (opposite t)) p (abs p) ≡ pos 0
unfolding shift exit_side ◌+ℤ◌ ◌-ℤ◌
exit_lem long (pos n) h = cc
exit_lem long (negsuc n) h = ground arith
exit_lem short (pos n) h = ground arith
exit_lem short (negsuc n) h = cc

-- An entry of what a position lacks in the direction of the trend, with nothing held against it.
pub entry_lem :
    (t : Holding) (p : ℤ) (q : ℕ)
    → against t p ≡ 0
    → toward t p ≤ q
    → shift (entry_side t) p (q - toward t p) ≡ target t q
unfolding shift ◌+ℤ◌ ◌-ℤ◌
entry_lem long (pos n) q h k = ground arith
entry_lem long (negsuc n) q h k = absurd (omega (arith, h))
entry_lem short (pos n) q h k = ground arith
entry_lem short (negsuc n) q h k = ground arith

retry_lem : (t : Holding) (p : ℤ) (q : ℕ) → against t p ≡ 0 → retry_quantity t q p ≡ q - toward t p
unfolding ◌-ℤ◌
retry_lem long (pos n) q h = ground arith
retry_lem long (negsuc n) q h = absurd (omega (arith, h))
retry_lem short (pos n) q h = ground arith
retry_lem short (negsuc n) q h = ground arith

-- The position holds nothing against the trend and at most the quantity in its direction.
abbrev pub IsNear : Holding → ℕ → ℤ → Type 0
IsNear t q p = (against t p ≡ 0) × (toward t p ≤ q)

partial_exit :
    (t : Holding) (p : ℤ) (n : ℕ)
    → ltb 0 (against t p) ≡ true
    → n ≤ abs p
    → toward t (shift (exit_side (opposite t)) p n) ≡ 0
unfolding shift exit_side ◌+ℤ◌ ◌-ℤ◌
partial_exit long (pos m) n h k = cc
partial_exit long (negsuc m) n h k = ground arith
partial_exit short (pos m) n h k = ground arith
partial_exit short (negsuc m) n h k = cc

partial_entry :
    (t : Holding) (p : ℤ) (q n : ℕ)
    → IsNear t q p
    → n ≤ q - toward t p
    → IsNear t q (shift (entry_side t) p n)
unfolding shift ◌+ℤ◌ ◌-ℤ◌
partial_entry long (pos m) q n h k = ground arith
partial_entry long (negsuc m) q n h k = absurd (omega (arith, h.0))
partial_entry short (pos m) q n h k = ground arith
partial_entry short (negsuc m) q n h k = ground arith

nothing_left :
    (t : Holding) (p : ℤ) (q n : ℕ)
    → IsNear t q p
    → n ≡ q - toward t p
    → ltb 0 n ≡ false
    → p ≡ target t q
nothing_left long (pos m) q n near e full = ground arith
nothing_left long (negsuc m) q n near e full = absurd (omega (arith, near.0))
nothing_left short (pos m) q n near e full = ground arith
nothing_left short (negsuc m) q n near e full = ground arith

pub by_test :
    (P : Runner → Type 0) (b : Bool) (r r' : Runner)
    → (b ≡ true → P r)
    → (b ≡ false → P r')
    → P (if b then r else r')
by_test P true r r' h k = h refl
by_test P false r r' h k = k refl

-- The strategy is paused, or its position is the target.
abbrev pub IsReached : Holding → ℕ → Runner → Type 0
IsReached t q r = (r.is_enabled ≡ false) ⊎ (r.position ≡ target t q)

abbrev IsReady : Holding → ℕ → Runner → Type 0
IsReady t q r = (r.quantity ≡ q) × IsNear t q r.position

module _ (ch : Channel) (freeze_limit : ℕ) (candle_ts : Text) (t : Holding) (q : ℕ) where
  flip_entered-IsReached :
      (res : Runner × Bool)
      → (res.1 ≡ true → res.0.position ≡ target t q)
      → IsReached t q (flip_entered ch freeze_limit candle_ts t res)
  unfolding flip_entered
  flip_entered-IsReached (r, true) h = inr (h refl)
  flip_entered-IsReached (r, false) h = inl refl

  -- An entry of what is missing.
  entered_lem :
      (r : Runner) (qty : ℕ) (ref_suffix : Text)
      → IsReady t q r
      → qty ≡ q - toward t r.position
      → (execute_entry ch freeze_limit (entry_side t) qty ref_suffix r).1 ≡ true
      → (execute_entry ch freeze_limit (entry_side t) qty ref_suffix r).0.position ≡ target t q
  entered_lem r qty ref_suffix (same, near) e ok =
      (execute_entry-LegLaws ch freeze_limit (entry_side t) qty ref_suffix r).moves ok
      ∙ ap (λ n. shift (entry_side t) r.position n) e
      ∙ entry_lem t r.position q near.0 near.1

  full_lem : (p : ℤ) (n : ℕ) → IsNear t q p → n ≡ q - toward t p → ltb 0 n ≡ false → p ≡ target t q
  full_lem p n near e full = nothing_left t p q n near e full

  flip_entry_retry-IsReached :
      (res : Runner × Bool)
      → IsReady t q res.0
      → (res.1 ≡ true → res.0.position ≡ target t q)
      → IsReached t q (flip_entry_retry ch freeze_limit candle_ts t res)
  unfolding flip_entry_retry flip_entered
  flip_entry_retry-IsReached (r, true) ready h = inr (h refl)
  flip_entry_retry-IsReached (r, false) ready h =
      let left = retry_quantity t r.quantity r.position in
      let e : left ≡ q - toward t r.position =
        ap (λ n. retry_quantity t n r.position) ready.0 ∙ retry_lem t r.position q ready.1.0 in
      by_test (IsReached t q) (ltb 0 left) _ _
        (λ some_left. flip_entered-IsReached _ (entered_lem r left _ ready e))
        (λ none_left.
          flip_entered-IsReached (r, true) (λ ok. full_lem r.position left ready.1 e none_left))

  flip_enter-IsReached :
      (r : Runner) → IsReady t q r → IsReached t q (flip_enter ch freeze_limit candle_ts t r)
  unfolding flip_enter
  flip_enter-IsReached r ready =
      let qty = r.quantity - toward t r.position in
      let e : qty ≡ q - toward t r.position = ap (λ n. n - toward t r.position) ready.0 in
      let ref_suffix = codes "FLIP_ENTRY_" ++ candle_ts in
      let laws = execute_entry-LegLaws ch freeze_limit (entry_side t) qty ref_suffix r in
      let (n, le, is) = laws.part in
      by_test (IsReached t q) (ltb 0 qty) _ _
        (λ some_left.
          flip_entry_retry-IsReached _
            (
              laws.same_quantity ∙ ready.0,
              subst (IsNear t q) (sym is)
                  (partial_entry t r.position q n ready.1 (subst (λ m. n ≤ m) e le)),
            )
            (entered_lem r qty ref_suffix ready e))
        (λ none_left. inr (full_lem r.position qty ready.1 e none_left))

  flip_exited-IsReached :
      (res : Runner × Bool)
      → (res.1 ≡ true → IsReady t q res.0)
      → IsReached t q (flip_exited ch freeze_limit candle_ts t res)
  unfolding flip_exited
  flip_exited-IsReached (r, true) h = flip_enter-IsReached r (h refl)
  flip_exited-IsReached (r, false) h = inl refl

  -- With nothing held, the whole quantity is missing.
  flat_lem : (p : ℤ) → p ≡ pos 0 → IsNear t q p
  flat_lem p e = subst (IsNear t q) (sym e) (zero_near t)
    where
      zero_near : (t : Holding) → IsNear t q (pos 0)
      zero_near long = (refl, omega arith)
      zero_near short = (refl, omega arith)

  exited_lem :
      (r : Runner) (ref_suffix : Text)
      → r.quantity ≡ q
      → ltb 0 (against t r.position) ≡ true
      → (execute_exit ch freeze_limit (opposite t) (abs r.position) ref_suffix r).1 ≡ true
      → IsReady t q (execute_exit ch freeze_limit (opposite t) (abs r.position) ref_suffix r).0
  exited_lem r ref_suffix same held ok =
      let laws = execute_exit-LegLaws ch freeze_limit (opposite t) (abs r.position) ref_suffix r in
      (laws.same_quantity ∙ same, flat_lem _ (laws.moves ok ∙ exit_lem t r.position held))

  against_lem :
      (t : Holding) (p : ℤ) → toward t p ≡ 0 → ltb 0 (abs p) ≡ true → ltb 0 (against t p) ≡ true
  against_lem long (pos n) h k = ground arith
  against_lem long (negsuc n) h k = ground arith
  against_lem short (pos n) h k = ground arith
  against_lem short (negsuc n) h k = absurd (omega (arith, h))

  abs_lem : (p : ℤ) → ltb 0 (abs p) ≡ false → p ≡ pos 0
  abs_lem (pos n) h = ground arith
  abs_lem (negsuc n) h = ground arith

  flip_exit_retry-IsReached :
      (res : Runner × Bool)
      → res.0.quantity ≡ q
      → toward t res.0.position ≡ 0
      → (res.1 ≡ true → IsReady t q res.0)
      → IsReached t q (flip_exit_retry ch freeze_limit candle_ts t res)
  unfolding flip_exit_retry flip_exited
  flip_exit_retry-IsReached (r, true) same side h = flip_enter-IsReached r (h refl)
  flip_exit_retry-IsReached (r, false) same side h =
      by_test (IsReached t q) (ltb 0 (abs r.position)) _ _
        (λ held. flip_exited-IsReached _ (exited_lem r _ same (against_lem t r.position side held)))
        (λ flat. flip_enter-IsReached r (same, flat_lem r.position (abs_lem r.position flat)))

  -- After the orders of a flip of a runner that holds no more than its quantity in the direction of
  -- the new trend, the strategy is disabled or its position is exactly the target, its quantity in
  -- that direction, whatever the dispatches answer and whichever legs are tried again.
  pub flip_to-reaches :
      (r : Runner)
      → r.quantity ≡ q
      → toward t r.position ≤ q
      → IsReached t q (flip_to ch freeze_limit candle_ts t r)
  unfolding flip_to
  flip_to-reaches r same fits =
      let laws =
        execute_exit-LegLaws ch freeze_limit (opposite t) (abs r.position)
          (codes "FLIP_EXIT_" ++ candle_ts) r in
      let (n, le, is) = laws.part in
      by_test (IsReached t q) (ltb 0 (against t r.position)) _ _
        (λ held.
          flip_exit_retry-IsReached _ (laws.same_quantity ∙ same)
            (ap (λ p. toward t p) is ∙ partial_exit t r.position n held le)
            (exited_lem r _ same held))
        (λ free. flip_enter-IsReached r (same, (ground arith, fits)))
