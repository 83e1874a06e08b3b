-- ===== src/Portal/Breaker.antt =====
-- portal/scheduler.py, `check_drawdown_circuit_breakers`: a client whose loss reaches its limit is
-- squared off and paused. Amounts are whole paise. The database's rows, the telemetry's net MTM and
-- the kill switch's answer are given; the credentials that go with the kill switch and the reload of
-- the ingress are left out.
use xts_multi_tennant.Prelude.{
  All, Bool, Bool-cases, List, Text, [], abs, ap, eqb_ℤ, false, if◌then◌else◌, inl, inr, int_laws,
  leb_ℤ, ltb_ℤ, neg_ℕ, negsuc, not, pos, refl, subst, suc, sym, text_eq, text_eq_refl, text_eq→≡,
  true, zero, ℤ, ◌&&◌, ◌||◌, ◌↔◌, ◌∙◌, ◌∷◌, ◌≡◌, ◌≤ℤ◌,
}

pub data Status : Type 0 where
  active paused : Status

pub record Tenant : Type 0 where
  pub id : Text
  pub status : Status

-- `limit_of` is `max_daily_loss_inr`, 0 where there is no row or no value.
pub record Desk : Type 0 where
  pub is_market_open : Bool
  pub limit_of : Text → ℤ
  pub net_mtm : Text → ℤ
  pub panic : Text → Bool

-- An audit record, with the kill switch's answer.
pub record Audit : Type 0 where
  pub target_tenant_id : Text
  pub net_mtm : ℤ
  pub max_daily_loss : ℤ
  pub panic_result : Bool

-- The table of tenants, and the audit records with the latest first.
pub record Portal : Type 0 where
  pub tenants : List Tenant
  pub audits : List Audit

-- `float(r_lim.get("max_daily_loss_inr") or 50000.0)`
unfoldable pub max_loss : Desk → Text → ℤ
max_loss d id = if eqb_ℤ (d.limit_of id) (pos 0) then pos 5_000_000 else d.limit_of id

-- `net_mtm <= -abs(max_loss) and max_loss > 0`
unfoldable pub is_breached : Desk → Text → Bool
unfolding max_loss
is_breached d id =
    leb_ℤ (d.net_mtm id) (neg_ℕ (abs (max_loss d id))) && ltb_ℤ (pos 0) (max_loss d id)

unfoldable pub is_active : Status → Bool
is_active active = true
is_active paused = false

-- `SELECT id, name FROM tenants WHERE status='ACTIVE'`
unfoldable pub active_ids : List Tenant → List Text
unfolding is_active
active_ids [] = []
active_ids (t ∷ ts) = let ids = active_ids ts in if is_active t.status then t.id ∷ ids else ids

-- `UPDATE tenants SET status='PAUSED' WHERE id=?`
unfoldable pub pause : Text → List Tenant → List Tenant
pause id [] = []
pause id (t ∷ ts) = (if text_eq t.id id then record t { status = paused } else t) ∷ pause id ts

unfoldable pub trip : Desk → Text → Portal → Portal
unfolding pause max_loss
trip d id s = record s {
  tenants = pause id s.tenants;
  audits =
      record {
        target_tenant_id = id;
        net_mtm = d.net_mtm id;
        max_daily_loss = max_loss d id;
        panic_result = d.panic id;
      }
      ∷ s.audits;
}

-- `for t in active_tenants`
unfoldable pub check_each : Desk → List Text → Portal → Portal
unfolding trip is_breached
check_each d [] s = s
check_each d (id ∷ ids) s = check_each d ids (if is_breached d id then trip d id s else s)

unfoldable pub check_drawdown_circuit_breakers : Bool → Desk → Portal → Portal
unfolding check_each active_ids
check_drawdown_circuit_breakers enforce_market_hours d s =
    if enforce_market_hours && not d.is_market_open
    then s
    else check_each d (active_ids s.tenants) s

-- The client is one of those.
unfoldable pub is_one_of : Text → List Text → Bool
is_one_of id [] = false
is_one_of id (other ∷ ids) = text_eq id other || is_one_of id ids

-- The table after the clients of a list that are over their limit are paused.
unfoldable pub paused_where : (Text → Bool) → List Tenant → List Tenant
paused_where over [] = []
paused_where over (t ∷ ts) =
    (if over t.id then record t { status = paused } else t) ∷ paused_where over ts

-- The client is among the checked ones and over its limit.
unfoldable pub is_over : Desk → List Text → Text → Bool
unfolding is_one_of
is_over d ids id = is_one_of id ids && is_breached d id

pause_row : Bool → Tenant → Tenant
pause_row b t = if b then record t { status = paused } else t

pause_row-twice : (a b : Bool) (t : Tenant) → pause_row a (pause_row b t) ≡ pause_row (b || a) t
unfolding pause_row
pause_row-twice true true t = refl
pause_row-twice true false t = refl
pause_row-twice false true t = refl
pause_row-twice false false t = refl

pause_row-id : (b : Bool) (t : Tenant) → (pause_row b t).id ≡ t.id
unfolding pause_row
pause_row-id true t = refl
pause_row-id false t = refl

and_false : (b : Bool) → (b && false) ≡ false
and_false true = refl
and_false false = refl

or_true : (a b : Bool) → b ≡ true → (a || b) ≡ true
or_true true b h = refl
or_true false b h = h

within_lem : (a b : Bool) → a ≡ true → (a && b) ≡ false → b ≡ false
within_lem true b h k = k
within_lem false b h k = absurd (cc h)

-- A row with the checked client, in the table of those that are still to be checked.
join_over :
    (d : Desk) (id other : Text) (ids : List Text)
    → is_breached d id ≡ true
    → (text_eq other id || is_over d ids other) ≡ is_over d (id ∷ ids) other
unfolding is_over is_one_of
join_over d id other ids h = elim (Bool-cases (text_eq other id)) [
  | inl same ↦ rw same (sym (ap (is_breached d) (text_eq→≡ other id same) ∙ h))
  | inr differs ↦ rw differs refl
]

skip_over :
    (d : Desk) (id other : Text) (ids : List Text)
    → is_breached d id ≡ false
    → is_over d ids other ≡ is_over d (id ∷ ids) other
unfolding is_over is_one_of
skip_over d id other ids h = elim (Bool-cases (text_eq other id)) [
  | inl same ↦
      let e = ap (is_breached d) (text_eq→≡ other id same) ∙ h in
      rw (same, e) (and_false (is_one_of other ids))
  | inr differs ↦ rw differs refl
]

paused_where-pause :
    (d : Desk) (id : Text) (ids : List Text) (ts : List Tenant)
    → is_breached d id ≡ true
    → paused_where (is_over d ids) (pause id ts) ≡ paused_where (is_over d (id ∷ ids)) ts
unfolding paused_where pause pause_row
paused_where-pause d id ids [] h = refl
paused_where-pause d id ids (t ∷ ts) h =
    let row : pause_row (is_over d ids (pause_row (text_eq t.id id) t).id)
          (pause_row (text_eq t.id id) t)
        ≡ pause_row (is_over d (id ∷ ids) t.id) t =
      ap (λ x. pause_row (is_over d ids x) (pause_row (text_eq t.id id) t))
        (pause_row-id (text_eq t.id id) t)
      ∙ (pause_row-twice (is_over d ids t.id) (text_eq t.id id) t
          ∙ ap (λ b. pause_row b t) (join_over d id t.id ids h)) in
    ap (λ r. r ∷ paused_where (is_over d ids) (pause id ts)) row
    ∙ ap (λ rest. pause_row (is_over d (id ∷ ids) t.id) t ∷ rest) (paused_where-pause d id ids ts h)

paused_where-skip :
    (d : Desk) (id : Text) (ids : List Text) (ts : List Tenant)
    → is_breached d id ≡ false
    → paused_where (is_over d ids) ts ≡ paused_where (is_over d (id ∷ ids)) ts
unfolding paused_where pause_row
paused_where-skip d id ids [] h = refl
paused_where-skip d id ids (t ∷ ts) h =
    ap (λ b. pause_row b t ∷ paused_where (is_over d ids) ts) (skip_over d id t.id ids h)
    ∙ ap (λ rest. pause_row (is_over d (id ∷ ids) t.id) t ∷ rest) (paused_where-skip d id ids ts h)

paused_where-none : (d : Desk) (ts : List Tenant) → ts ≡ paused_where (is_over d []) ts
unfolding paused_where is_over is_one_of
paused_where-none d [] = refl
paused_where-none d (t ∷ ts) = ap (λ rest. t ∷ rest) (paused_where-none d ts)

check_each-paused :
    (d : Desk) (ids : List Text) (s : Portal)
    → (check_each d ids s).tenants ≡ paused_where (is_over d ids) s.tenants
unfolding check_each trip
check_each-paused d [] s = paused_where-none d s.tenants
check_each-paused d (id ∷ ids) s = elim (Bool-cases (is_breached d id)) [
  | inl over ↦
      rw (check_each, over)
        (check_each-paused d ids (trip d id s) ∙ paused_where-pause d id ids s.tenants over)
  | inr within ↦
      rw (check_each, within)
        (check_each-paused d ids s ∙ paused_where-skip d id ids s.tenants within)
]

-- The loss has reached the limit: one that is not set is 50,000 rupees, a negative one is none.
pub HasLost : ℤ → ℤ → Type 0
HasLost net (pos zero) = net ≤ℤ negsuc 4_999_999
HasLost net (pos (suc n)) = net ≤ℤ negsuc n
HasLost net (negsuc n) = ⊥

lost_lem :
    (net limit : ℤ)
    → (leb_ℤ net (neg_ℕ (abs (if eqb_ℤ limit (pos 0) then pos 5_000_000 else limit)))
          && ltb_ℤ (pos 0) (if eqb_ℤ limit (pos 0) then pos 5_000_000 else limit))
        ≡ true
      ↔ HasLost net limit
unfolding HasLost
lost_lem net (pos zero) = grind int_laws
lost_lem net (pos (suc n)) = grind int_laws
lost_lem net (negsuc n) = grind int_laws

is_breached-HasLost :
    (d : Desk) (id : Text) → is_breached d id ≡ true ↔ HasLost (d.net_mtm id) (d.limit_of id)
unfolding is_breached max_loss HasLost
is_breached-HasLost d id = lost_lem (d.net_mtm id) (d.limit_of id)

-- With the market open or its hours not enforced, the check pauses exactly the clients that are
-- active and over their limit, whatever the kill switch answers; a client is over it where the net
-- MTM is at or below the negated limit, which is 50,000 rupees where none is set, and never where the
-- limit is negative.
pub check_drawdown_circuit_breakers-paused :
    (enforce : Bool) (d : Desk) (s : Portal)
    → (enforce && not d.is_market_open) ≡ false
    → (check_drawdown_circuit_breakers enforce d s).tenants
        ≡ paused_where (λ id. is_one_of id (active_ids s.tenants) && is_breached d id) s.tenants
      × ((id : Text) → is_breached d id ≡ true ↔ HasLost (d.net_mtm id) (d.limit_of id))
unfolding check_drawdown_circuit_breakers is_over
check_drawdown_circuit_breakers-paused enforce d s h =
    (rw h (check_each-paused d (active_ids s.tenants) s), is_breached-HasLost d)

-- No client of a list is over its limit.
NoneOver : Desk → List Text → Type 0
NoneOver d ids = All (λ id. is_breached d id ≡ false) ids

check_each-quiet :
    (d : Desk) (ids : List Text) (s : Portal) → NoneOver d ids → check_each d ids s ≡ s
unfolding check_each NoneOver
check_each-quiet d [] s h = refl
check_each-quiet d (id ∷ ids) s h = rw (check_each, h.0) (check_each-quiet d ids s h.1)

-- The active rows of a table are in a list.
Covers : List Text → List Tenant → Type 0
Covers ids ts = All (λ t. is_active t.status ≡ true → is_one_of t.id ids ≡ true) ts

row-NoneOver :
    (d : Desk) (ids rest : List Text) (b : Bool) (t : Tenant)
    → is_over d ids t.id ≡ b
    → (is_active t.status ≡ true → is_one_of t.id ids ≡ true)
    → NoneOver d rest
    → NoneOver d (if is_active (pause_row b t).status then (pause_row b t).id ∷ rest else rest)
unfolding NoneOver pause_row is_active is_over
row-NoneOver d ids rest true t e c h = h
row-NoneOver d ids rest false t e c h = elim (Bool-cases (is_active t.status)) [
  | inr off ↦ rw off h
  | inl on ↦ rw on (within_lem (is_one_of t.id ids) (is_breached d t.id) (c on) e, h)
]

active-NoneOver :
    (d : Desk) (ids : List Text) (ts : List Tenant)
    → Covers ids ts
    → NoneOver d (active_ids (paused_where (is_over d ids) ts))
unfolding Covers active_ids paused_where pause_row NoneOver
active-NoneOver d ids [] c = tt
active-NoneOver d ids (t ∷ ts) c =
    row-NoneOver d ids (active_ids (paused_where (is_over d ids) ts)) (is_over d ids t.id) t refl
      c.0 (active-NoneOver d ids ts c.1)

more-Covers :
    (id : Text) (ids : List Text) (ts : List Tenant) → Covers ids ts → Covers (id ∷ ids) ts
unfolding Covers is_one_of
more-Covers id ids [] c = tt
more-Covers id ids (t ∷ ts) c =
    (λ on. or_true (text_eq t.id id) (is_one_of t.id ids) (c.0 on), more-Covers id ids ts c.1)

row-Covers :
    (b : Bool) (t : Tenant) (ids : List Text) (ts : List Tenant)
    → is_active t.status ≡ b
    → Covers ids ts
    → Covers (if b then t.id ∷ ids else ids) (t ∷ ts)
unfolding Covers is_one_of
row-Covers true t ids ts e c = (λ on. rw (text_eq_refl t.id) refl, more-Covers t.id ids ts c)
row-Covers false t ids ts e c = (λ on. absurd (cc (sym e ∙ on)), c)

own-Covers : (ts : List Tenant) → Covers (active_ids ts) ts
unfolding active_ids Covers
own-Covers [] = tt
own-Covers (t ∷ ts) = row-Covers (is_active t.status) t (active_ids ts) ts refl (own-Covers ts)

-- A client that was paused for its loss is not squared off again: right after a check, with the
-- market open or its hours not enforced, another check with the same figures changes nothing.
check_drawdown_circuit_breakers-quiet :
    (enforce : Bool) (d : Desk) (s : Portal)
    → (enforce && not d.is_market_open) ≡ false
    → check_drawdown_circuit_breakers enforce d (check_drawdown_circuit_breakers enforce d s)
      ≡ check_drawdown_circuit_breakers enforce d s
unfolding check_drawdown_circuit_breakers
check_drawdown_circuit_breakers-quiet enforce d s h =
    let ids = active_ids s.tenants in
    let s' = check_each d ids s in
    rw h (
      check_each-quiet d (active_ids s'.tenants) s' (
        subst (λ ts. NoneOver d (active_ids ts)) (sym (check_each-paused d ids s))
          (active-NoneOver d ids s.tenants (own-Covers s.tenants))))
