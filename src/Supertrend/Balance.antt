-- ===== src/Supertrend/Balance.antt =====
-- client/supertrend_engine.py: the virtual position of a runner and the chunks it has dispatched.
use xts_multi_tennant.Prelude.{
  Bool, List, Option, Option-cases, Text, [], abs, ap, arith, false, if◌then◌else◌, inl, inr,
  int_laws, length, none, pos, refl, some, subst, sum, sym, true, ℕ, ℤ, ◌+ℤ◌, ◌+◌, ◌∙◌, ◌∷◌, ◌≡◌,
  ◌≤◌,
}
use xts_multi_tennant.Orders.Tick.{Side, buy, sell}
use xts_multi_tennant.Orders.Slicing.{sum-slice}
use xts_multi_tennant.Supertrend.Legs.{
  Leg, Fill, Runner, Channel, dispatch_chunk, shift, advance, reject, run_chunks, chunks_of,
  is_disallowed, is_rollover, Holding, exit_side, after_exit, execute_exit, after_entry,
  execute_entry, execute_delta, exit_leg, entry_leg, delta_leg,
}

-- The lots bought by the chunks of a log that are counted as filled, less those sold. A chunk that
-- ends as a partial failure is counted in full, as the runner does.
unfoldable pub net : List Fill → ℤ
net [] = pos 0
net (f ∷ fills) = if f.filled then shift f.side (net fills) f.quantity else net fills

-- The runner's position is what it started with and the counted chunks since, and is saved.
abbrev pub IsBalanced : ℤ → Runner → Type 0
IsBalanced start r = (r.position ≡ start +ℤ net r.sent) × (r.saved ≡ r.position)

shift_add : (side : Side) (a b : ℤ) (q : ℕ) → shift side (a +ℤ b) q ≡ a +ℤ shift side b q
unfolding shift
shift_add buy a b q = grind int_laws
shift_add sell a b q = grind int_laws

advance-IsBalanced :
    (start : ℤ) (leg : Leg) (side : Side) (q : ℕ) (r : Runner)
    → IsBalanced start r
    → IsBalanced start (advance leg side q r)
unfolding advance net
advance-IsBalanced start leg side q r h =
    (ap (λ p. shift side p q) h.0 ∙ shift_add side start (net r.sent) q, refl)

run_chunks-IsBalanced :
    (start : ℤ) (ch : Channel) (roll : Bool) (leg : Leg) (side : Side) (chunks : List ℕ)
    (r : Runner)
    → IsBalanced start r
    → IsBalanced start (run_chunks ch roll leg side chunks r).0
unfolding run_chunks reject net
run_chunks-IsBalanced start ch roll leg side [] r h = h
run_chunks-IsBalanced start ch roll leg side (q ∷ chunks) r h =
    elim (Option-cases (dispatch_chunk ch roll (length r.sent))) [
      | inl ok ↦
          rw (run_chunks, ok)
            (run_chunks-IsBalanced start ch roll leg side chunks (advance leg side q r)
              (advance-IsBalanced start leg side q r h))
      | inr (e, failed) ↦ rw (run_chunks, failed) h
    ]

pub shift_zero : (side : Side) (p : ℤ) → shift side p 0 ≡ p
unfolding shift
shift_zero buy p = grind int_laws
shift_zero sell p = grind int_laws

pub shift-shift :
    (side : Side) (p : ℤ) (a b : ℕ) → shift side (shift side p a) b ≡ shift side p (a + b)
unfolding shift
shift-shift buy p a b = grind int_laws
shift-shift sell p a b = grind int_laws

-- A leg that went through has moved the position by all of its chunks.
run_chunks-exact :
    (ch : Channel) (roll : Bool) (leg : Leg) (side : Side) (chunks : List ℕ) (r : Runner)
    → (run_chunks ch roll leg side chunks r).1 ≡ none
    → (run_chunks ch roll leg side chunks r).0.position ≡ shift side r.position (sum chunks)
unfolding run_chunks advance
run_chunks-exact ch roll leg side [] r h = sym (shift_zero side r.position)
run_chunks-exact ch roll leg side (q ∷ chunks) r h =
    elim (Option-cases (dispatch_chunk ch roll (length r.sent))) [
      | inl ok ↦
          rw (run_chunks, ok)
            (run_chunks-exact ch roll leg side chunks (advance leg side q r)
                (rw (run_chunks, ok) at h)
              ∙ shift-shift side r.position q (sum chunks))
      | inr (e, failed) ↦ cc (rw (run_chunks, failed) at h)
    ]

-- A leg moves the position by some of its chunks.
abbrev pub Moved : Side → ℕ → ℤ → ℤ → Type 0
Moved side qty p p' = (n : ℕ) × (n ≤ qty) × (p' ≡ shift side p n)

run_chunks-Moved :
    (ch : Channel) (roll : Bool) (leg : Leg) (side : Side) (chunks : List ℕ) (r : Runner)
    → Moved side (sum chunks) r.position (run_chunks ch roll leg side chunks r).0.position
unfolding run_chunks advance reject
run_chunks-Moved ch roll leg side [] r = (0, omega arith, sym (shift_zero side r.position))
run_chunks-Moved ch roll leg side (q ∷ chunks) r =
    elim (Option-cases (dispatch_chunk ch roll (length r.sent))) [
      | inl ok ↦
          let (n, le, e) = run_chunks-Moved ch roll leg side chunks (advance leg side q r) in
          rw (run_chunks, ok) (q + n, omega (arith, le), e ∙ shift-shift side r.position q n)
      | inr (e, failed) ↦ rw (run_chunks, failed) (0, omega arith, sym (shift_zero side r.position))
    ]

run_chunks-quantity :
    (ch : Channel) (roll : Bool) (leg : Leg) (side : Side) (chunks : List ℕ) (r : Runner)
    → (run_chunks ch roll leg side chunks r).0.quantity ≡ r.quantity
unfolding run_chunks advance reject
run_chunks-quantity ch roll leg side [] r = refl
run_chunks-quantity ch roll leg side (q ∷ chunks) r =
    elim (Option-cases (dispatch_chunk ch roll (length r.sent))) [
      | inl ok ↦
          rw (run_chunks, ok) (run_chunks-quantity ch roll leg side chunks (advance leg side q r))
      | inr (e, failed) ↦ rw (run_chunks, failed) refl
    ]

pub sum-chunks_of :
    (freeze_limit lot_size qty : ℕ) → sum (chunks_of freeze_limit lot_size qty) ≡ qty
unfolding chunks_of
sum-chunks_of freeze_limit lot_size qty = sum-slice (pos qty) _ _

-- What a leg of a runner does, whether it goes through or not.
pub record LegLaws (side : Side) (qty : ℕ) (r : Runner) (res : Runner × Bool) : Type 0 where
  pub balance : (start : ℤ) → IsBalanced start r → IsBalanced start res.0
  pub same_quantity : res.0.quantity ≡ r.quantity
  pub part : Moved side qty r.position res.0.position
  pub moves : res.1 ≡ true → res.0.position ≡ shift side r.position qty

after_exit-LegLaws :
    (side : Side) (qty : ℕ) (r : Runner) (res : Runner × Option Text)
    → ((start : ℤ) → IsBalanced start r → IsBalanced start res.0)
    → res.0.quantity ≡ r.quantity
    → Moved side qty r.position res.0.position
    → (res.1 ≡ none → res.0.position ≡ shift side r.position qty)
    → LegLaws side qty r (after_exit res)
unfolding after_exit
after_exit-LegLaws side qty r (r', none) b q p m = record {
  balance = b;
  same_quantity = q;
  part = p;
  moves = λ ok. m refl;
}
after_exit-LegLaws side qty r (r', some e) b q p m = record {
  balance = b;
  same_quantity = q;
  part = p;
  moves = λ ok. absurd (cc ok);
}

after_entry-LegLaws :
    (side : Side) (qty : ℕ) (r : Runner) (res : Runner × Option Text)
    → ((start : ℤ) → IsBalanced start r → IsBalanced start res.0)
    → res.0.quantity ≡ r.quantity
    → Moved side qty r.position res.0.position
    → (res.1 ≡ none → res.0.position ≡ shift side r.position qty)
    → LegLaws side qty r (after_entry res)
unfolding after_entry
after_entry-LegLaws side qty r (r', none) b q p m = record {
  balance = b;
  same_quantity = q;
  part = p;
  moves = λ ok. m refl;
}
after_entry-LegLaws side qty r (r', some e) b q p m = record {
  balance = b;
  same_quantity = q;
  part = p;
  moves = λ ok. absurd (cc ok);
}

gated-LegLaws :
    (b : Bool) (side : Side) (qty : ℕ) (r : Runner) (res : Runner × Bool)
    → LegLaws side qty r res
    → LegLaws side qty r (if b then (r, false) else res)
gated-LegLaws true side qty r res h = record {
  balance = λ start k. k;
  same_quantity = refl;
  part = (0, omega arith, sym (shift_zero side r.position));
  moves = λ ok. absurd (cc ok);
}
gated-LegLaws false side qty r res h = h

module _ (ch : Channel) (freeze_limit : ℕ) where
  part_lem :
      (roll : Bool) (leg : Leg) (side : Side) (qty : ℕ) (r : Runner)
      → Moved side qty r.position
          (run_chunks ch roll leg side (chunks_of freeze_limit r.lot_size qty) r).0.position
  part_lem roll leg side qty r =
      subst
        (λ n.
          Moved side n r.position
            (run_chunks ch roll leg side (chunks_of freeze_limit r.lot_size qty) r).0.position)
        (sum-chunks_of freeze_limit r.lot_size qty)
        (run_chunks-Moved ch roll leg side (chunks_of freeze_limit r.lot_size qty) r)

  moves_lem :
      (roll : Bool) (leg : Leg) (side : Side) (qty : ℕ) (r : Runner)
      → (run_chunks ch roll leg side (chunks_of freeze_limit r.lot_size qty) r).1 ≡ none
      → (run_chunks ch roll leg side (chunks_of freeze_limit r.lot_size qty) r).0.position
        ≡ shift side r.position qty
  moves_lem roll leg side qty r ok =
      run_chunks-exact ch roll leg side (chunks_of freeze_limit r.lot_size qty) r ok
      ∙ ap (λ n. shift side r.position n) (sum-chunks_of freeze_limit r.lot_size qty)

  pub execute_exit-LegLaws :
      (side : Holding) (qty : ℕ) (ref_suffix : Text) (r : Runner)
      → LegLaws (exit_side side) qty r (execute_exit ch freeze_limit side qty ref_suffix r)
  unfolding execute_exit
  execute_exit-LegLaws side qty ref_suffix r =
      let chunks = chunks_of freeze_limit r.lot_size qty in
      let roll = is_rollover ref_suffix in
      gated-LegLaws (is_disallowed r qty) (exit_side side) qty r _ (
        after_exit-LegLaws (exit_side side) qty r _
          (λ start h. run_chunks-IsBalanced start ch roll exit_leg (exit_side side) chunks r h)
          (run_chunks-quantity ch roll exit_leg (exit_side side) chunks r)
          (part_lem roll exit_leg (exit_side side) qty r)
          (moves_lem roll exit_leg (exit_side side) qty r))

  pub execute_entry-LegLaws :
      (action : Side) (qty : ℕ) (ref_suffix : Text) (r : Runner)
      → LegLaws action qty r (execute_entry ch freeze_limit action qty ref_suffix r)
  unfolding execute_entry
  execute_entry-LegLaws action qty ref_suffix r =
      let chunks = chunks_of freeze_limit r.lot_size qty in
      let roll = is_rollover ref_suffix in
      gated-LegLaws (is_disallowed r qty) action qty r _ (
        after_entry-LegLaws action qty r _
          (λ start h. run_chunks-IsBalanced start ch roll entry_leg action chunks r h)
          (run_chunks-quantity ch roll entry_leg action chunks r)
          (part_lem roll entry_leg action qty r) (moves_lem roll entry_leg action qty r))

  gated_lem :
      (b : Bool) (start : ℤ) (r r' : Runner)
      → IsBalanced start r
      → IsBalanced start r'
      → IsBalanced start (if b then r else r')
  gated_lem true start r r' h k = h
  gated_lem false start r r' h k = k

  -- Whatever the dispatches of a delta order answer, the position stays the initial one and the
  -- counted chunks, and is saved.
  execute_delta-IsBalanced :
      (start delta : ℤ) (r : Runner)
      → IsBalanced start r
      → IsBalanced start (execute_delta ch freeze_limit delta r)
  unfolding execute_delta
  execute_delta-IsBalanced start delta r h = gated_lem (is_disallowed r (abs delta)) start r _ h (
      run_chunks-IsBalanced start ch false delta_leg _
        (chunks_of freeze_limit r.lot_size (abs delta)) r h)
