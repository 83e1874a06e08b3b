-- ===== src/Supertrend/Sync/Balanced.antt =====
-- client/supertrend_engine.py, `sync_to_current_trend`: the position that is written and the one that
-- the counted chunks make up.
use xts_multi_tennant.Prelude.{
  Bool, Text, abs, ap, arith, codes, eqb_ℤ, false, if◌then◌else◌, ltb, negsuc, pos, refl, sym, true,
  ℕ, ℤ, ◌++◌, ◌+ℤ◌, ◌-ℤ◌, ◌-◌, ◌∙◌, ◌≡◌,
}
use xts_multi_tennant.Supertrend.Legs.{Runner, Channel, Holding, long, short, shift}
use xts_multi_tennant.Supertrend.Balance.{IsBalanced, execute_exit-LegLaws, execute_entry-LegLaws}
use xts_multi_tennant.Supertrend.Sync.{
  toward, against, opposite, entry_side, target, set_position, Synced, success, sync_entered,
  sync_enter, sync_exited, sync_to,
}
use xts_multi_tennant.Supertrend.Sync.Target.{exit_lem, entry_lem}

-- The position is set to what it is.
set_position-IsBalanced :
    (start p : ℤ) (r : Runner)
    → IsBalanced start r
    → r.position ≡ p
    → IsBalanced start (set_position p r)
unfolding set_position
set_position-IsBalanced start p r h e = (sym e ∙ h.0, refl)

-- The position is balanced, and a success has reached the target.
abbrev pub IsSynced : ℤ → Holding → ℕ → Runner × Synced → Type 0
IsSynced start t q (r, success) = IsBalanced start r × (r.position ≡ target t q)
IsSynced start t q (r, _) = IsBalanced start r

from_flat_lem : (t : Holding) (q : ℕ) → shift (entry_side t) (pos 0) q ≡ target t q
unfolding shift ◌+ℤ◌ ◌-ℤ◌
from_flat_lem long q = ground arith
from_flat_lem short q = ground arith

flat : (t : Holding) (p : ℤ) → ltb 0 (against t p) ≡ false → ltb 0 (toward t p) ≡ false → p ≡ pos 0
flat long (pos n) h k = ground arith
flat long (negsuc n) h k = ground arith
flat short (pos n) h k = ground arith
flat short (negsuc n) h k = ground arith

module _ (ch : Channel) (freeze_limit : ℕ) (candle_ts : Text) (t : Holding) (start : ℤ)
    (q : ℕ) where
  sync_entered-IsSynced :
      (top_up : Bool) (res : Runner × Bool)
      → IsBalanced start res.0
      → res.0.quantity ≡ q
      → (res.1 ≡ true → res.0.position ≡ target t q)
      → IsSynced start t q (sync_entered ch freeze_limit candle_ts t top_up res)
  unfolding sync_entered set_position
  sync_entered-IsSynced top_up (r, true) b same h =
      let e : r.position ≡ target t r.quantity = h refl ∙ ap (λ n. target t n) (sym same) in
      (set_position-IsBalanced start (target t r.quantity) r b e, ap (λ n. target t n) same)
  sync_entered-IsSynced top_up (r, false) b same h = b

  sync_enter-IsSynced :
      (top_up : Bool) (qty : ℕ) (r : Runner)
      → IsBalanced start r
      → r.quantity ≡ q
      → shift (entry_side t) r.position qty ≡ target t q
      → IsSynced start t q (sync_enter ch freeze_limit candle_ts t top_up qty r)
  unfolding sync_enter
  sync_enter-IsSynced top_up qty r b same e =
      let laws =
        execute_entry-LegLaws ch freeze_limit (entry_side t) qty (codes "SYNC_ENTRY_" ++ candle_ts)
          r in
      sync_entered-IsSynced top_up _ (laws.balance start b) (laws.same_quantity ∙ same)
        (λ ok. laws.moves ok ∙ e)

  from_flat : shift (entry_side t) (pos 0) q ≡ target t q
  from_flat = from_flat_lem t q

  sync_exited-IsSynced :
      (res : Runner × Bool)
      → IsBalanced start res.0
      → res.0.quantity ≡ q
      → (res.1 ≡ true → res.0.position ≡ pos 0)
      → IsSynced start t q (sync_exited ch freeze_limit candle_ts t res)
  unfolding sync_exited set_position
  sync_exited-IsSynced (r, false) b same h = b
  sync_exited-IsSynced (r, true) b same h =
      sync_enter-IsSynced false r.quantity (set_position (pos 0) r)
        (set_position-IsBalanced start (pos 0) r b (h refl)) same
        (ap (λ n. shift (entry_side t) (pos 0) n) same ∙ from_flat)

  flat_lem : (p : ℤ) → ltb 0 (against t p) ≡ false → ltb 0 (toward t p) ≡ false → p ≡ pos 0
  flat_lem p h k = flat t p h k

  by_test :
      (b : Bool) (x y : Runner × Synced)
      → (b ≡ true → IsSynced start t q x)
      → (b ≡ false → IsSynced start t q y)
      → IsSynced start t q (if b then x else y)
  by_test true x y h k = h refl
  by_test false x y h k = k refl

  -- Whatever the dispatches answer, what synchronizing writes over the position agrees with the
  -- chunks that it has counted as filled: the position stays what the runner started with and those
  -- chunks, each with its whole quantity even where its answer is a partial failure, and it is saved.
  -- When it reports a success, the position is exactly the target, the runner's quantity in the
  -- direction of the trend.
  pub sync_to-IsSynced :
      (r : Runner)
      → r.quantity ≡ q
      → IsBalanced start r
      → IsSynced start t q (sync_to ch freeze_limit candle_ts t r)
  unfolding sync_to
  sync_to-IsSynced r same b =
      let laws =
        execute_exit-LegLaws ch freeze_limit (opposite t) (abs r.position)
          (codes "SYNC_EXIT_" ++ candle_ts) r in
      by_test (eqb_ℤ r.position (target t r.quantity)) _ _ (λ there. b)
        (λ elsewhere.
          by_test (ltb 0 (against t r.position)) _ _
            (λ held.
              sync_exited-IsSynced _ (laws.balance start b) (laws.same_quantity ∙ same)
                (λ ok. laws.moves ok ∙ exit_lem t r.position held))
            (λ free.
              by_test (ltb 0 (toward t r.position)) _ _
                (λ some_held.
                  by_test (ltb (toward t r.position) r.quantity) _ _
                    (λ less. sync_enter-IsSynced true (r.quantity - toward t r.position) r b same (
                      entry_lem t r.position r.quantity (ground arith) (ground arith)
                      ∙ ap (λ n. target t n) same))
                    (λ enough. b))
                (λ nothing. sync_enter-IsSynced false r.quantity r b same (
                  ap (λ p. shift (entry_side t) p r.quantity) (flat_lem r.position free nothing)
                  ∙ ap (λ n. shift (entry_side t) (pos 0) n) same
                  ∙ from_flat))))
