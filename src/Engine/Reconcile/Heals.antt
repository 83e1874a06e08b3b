-- ===== src/Engine/Reconcile/Heals.antt =====
-- client/supertrend_engine.py, `reconcile_portfolio_drift`: the orders that it sends, against the
-- drift they are to close.
use xts_multi_tennant.Prelude.{
  Bool, Bool-cases, List, Text, [], abs, any, arith, eqb_ℤ, false, if◌then◌else◌, inl, inr, length,
  pos, refl, subst, sum, sym, true, ℕ, ℤ, ◌+◌, ◌-ℤ◌, ◌∙◌, ◌∷◌, ◌≡◌,
}
use xts_multi_tennant.Orders.Tick as Tick
use xts_multi_tennant.Supertrend.Legs.{shift, chunks_of}
use xts_multi_tennant.Supertrend.Balance.{Moved, shift_zero, shift-shift, sum-chunks_of}
use xts_multi_tennant.Dicts.{erase}
use xts_multi_tennant.Engine.Targets.{net_target}
use xts_multi_tennant.Engine.Reconcile.{
  Broker, Heal, World, runners_of, is_paper, is_order_ok, send, heal_chunks, heal_side, heal,
}

-- The lots for which the taken orders of a log are, those bought less those sold. Paper orders count,
-- and an order that is only partly filled counts in full.
unfoldable pub net : List Heal → ℤ
net [] = pos 0
net (h ∷ hs) = if h.filled then shift h.action (net hs) h.quantity else net hs

-- The chunks of an order move the position by some of their sum.
heal_chunks-Moved :
    (b : Broker) (symbol : Text) (actual : ℤ) (action : Tick.Side) (p : Bool) (chunks : List ℕ)
    (w : World)
    → Moved action
        (sum chunks)
        (net w.sent)
        (net (heal_chunks b symbol actual action p chunks w).sent)
unfolding heal_chunks send net
heal_chunks-Moved b symbol actual action p [] w =
    (0, omega arith, sym (shift_zero action (net w.sent)))
heal_chunks-Moved b symbol actual action p (q ∷ chunks) w =
    elim (Bool-cases (is_order_ok (b.answer (length w.sent)))) [
      | inl ok ↦
          let w' = record (send symbol action p q true w) {
            engine = record w.engine { rejections = erase symbol w.engine.rejections };
          } in
          let (n, le, e) = heal_chunks-Moved b symbol actual action p chunks w' in
          rw (heal_chunks, ok) (q + n, omega (arith, le), e ∙ shift-shift action (net w.sent) q n)
      | inr failed ↦ rw (heal_chunks, failed) (0, omega arith, sym (shift_zero action (net w.sent)))
    ]

-- The log after a reconciliation, against the drift before: some of the missing lots and no more
-- were ordered and taken, in the direction that closes the drift.
abbrev pub Closing : ℤ → ℤ → ℤ → ℤ → Type 0
Closing actual target p p' = Moved (heal_side (target -ℤ actual)) (abs (target -ℤ actual)) p p'

stays : (actual target p : ℤ) → Closing actual target p p
stays actual target p = (0, omega arith, sym (shift_zero _ p))

pub gated :
    (P : World → Type 0) (b : Bool) (w w' : World)
    → (b ≡ true → P w)
    → (b ≡ false → P w')
    → P (if b then w else w')
gated P true w w' h k = h refl
gated P false w w' h k = k refl

pub heal-Closing :
    (b : Broker) (symbol : Text) (lot : ℕ) (actual : ℤ) (w : World)
    → Closing actual
        (net_target symbol w.engine.strategies)
        (net w.sent)
        (net (heal b symbol lot actual w).sent)
unfolding heal
heal-Closing b symbol lot actual w =
    let target = net_target symbol w.engine.strategies in
    let qty = abs (target -ℤ actual) in
    gated (λ w'. Closing actual target (net w.sent) (net w'.sent)) (eqb_ℤ actual target) w _
      (λ same. stays actual target (net w.sent))
      (λ drift.
        subst
          (λ n. Moved (heal_side (target -ℤ actual)) n (net w.sent) (
            net
              (heal_chunks b symbol actual (heal_side (target -ℤ actual))
                (any is_paper (runners_of symbol w.engine.strategies))
                (chunks_of b.freeze_limit lot qty) w).sent))
          (sum-chunks_of b.freeze_limit lot qty)
          (heal_chunks-Moved b symbol actual (heal_side (target -ℤ actual)) _
            (chunks_of b.freeze_limit lot qty) w))
