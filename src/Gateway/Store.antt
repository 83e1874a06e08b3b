-- ===== src/Gateway/Store.antt =====
-- client/main.py: the tables of signals.db and their queries. A row is a record, a table the list
-- of its rows. Identifiers (uuid4) are numbers, times milliseconds; a query that raises is `none`.
-- What a payload and a result hold is left to the caller: `P` and `R`; the masking of secrets in
-- them, and the pruning of the shield's table in `db_prune_old`, are left out.
use xts_multi_tennant.Prelude.{
  Bool, Bool-cases, List, Option, Text, [], arith, false, if◌then◌else◌, inl, inr, keep, ltb, map,
  none, not, pos, refl, some, text_eq, text_eq→≡, true, ℕ, ℤ, ◌&&◌, ◌++◌, ◌+◌, ◌==◌, ◌||◌, ◌∷◌, ◌≡◌,
}

pub data Status : Type 0 where
  pending processing done paper_done partial_failure failed : Status
  abandoned_stale abandoned_error abandoned_manual_review_needed : Status

-- `status IN ('pending','processing')`
unfoldable pub is_unfinished : Status → Bool
is_unfinished Status.pending = true
is_unfinished Status.processing = true
is_unfinished _ = false

pub record Row (P R : Type 0) : Type 0 where
  pub id : ℕ
  pub received_at : ℕ
  pub payload : P
  pub status : Status
  pub result : Option R
  pub updated_at : ℕ

-- A row of `strategy_virtual_positions`.
pub record Position : Type 0 where
  pub strategy_key : Text
  pub symbol : Text
  pub timeframe : Text
  pub virtual_position : ℤ
  pub updated_at : ℕ
  pub active_contract_id : Option Text
  pub active_contract_desc : Option Text

abbrev pub or_else {ℓ} : {A : Type ℓ} → Option A → Option A → Option A
or_else none d = d
or_else (some a) d = some a

module _ {P R : Type 0} where
  unfoldable pub has_id : ℕ → List (Row P R) → Bool
  has_id id [] = false
  has_id id (row ∷ rows) = (row.id == id) || has_id id rows

  -- `db_insert_pending`: the primary key refuses an identifier that is there.
  unfoldable pub db_insert_pending : ℕ → P → ℕ → List (Row P R) → Option (List (Row P R))
  unfolding has_id
  db_insert_pending sig_id payload now rows =
      if has_id sig_id rows
      then none
      else some (
          rows
          ++ record {
            id = sig_id;
            received_at = now;
            payload = payload;
            status = Status.pending;
            result = none;
            updated_at = now;
          }
            ∷ [])

  -- `db_update_status`: the result is overwritten also when none is given, the payload is not.
  unfoldable pub update_row : ℕ → Status → Option R → Option P → ℕ → Row P R → Row P R
  update_row sig_id status result payload now row =
      if row.id == sig_id
      then record row {
        status = status;
        result = result;
        payload = elim payload [ none ↦ row.payload | some p ↦ p ];
        updated_at = now;
      }
      else row

  unfoldable pub db_update_status :
      ℕ → Status → Option R → Option P → ℕ → List (Row P R) → List (Row P R)
  db_update_status sig_id status result payload now rows =
      map (update_row sig_id status result payload now) rows

  unfoldable pub db_fetch_unfinished : List (Row P R) → List (Row P R)
  db_fetch_unfinished rows = keep (λ row. is_unfinished row.status) rows

  -- The rows that `db_prune_old` deletes; its `cutoff` is a difference that may be negative.
  unfoldable pub is_prunable : ℕ → ℕ → Row P R → Bool
  is_prunable now max_age row = ltb (row.updated_at + max_age) now && not (is_unfinished row.status)

  unfoldable pub db_prune_old : ℕ → ℕ → List (Row P R) → List (Row P R)
  unfolding is_prunable
  db_prune_old now max_age rows = keep (λ row. not (is_prunable now max_age row)) rows

  -- Pruning never loses a signal that recovery would look at.
  fetch_unfinished-prune :
      (now max_age : ℕ) (rows : List (Row P R))
      → db_fetch_unfinished (db_prune_old now max_age rows) ≡ db_fetch_unfinished rows
  unfolding db_fetch_unfinished db_prune_old
  fetch_unfinished-prune now max_age [] = refl
  fetch_unfinished-prune now max_age (row ∷ rows) =
      ground (arith, fetch_unfinished-prune now max_age rows)

  -- The unfinished signals but one.
  unfoldable pub without : ℕ → List (Row P R) → List (Row P R)
  without sig_id rows = keep (λ row. not (row.id == sig_id)) rows

  -- A signal that is set to a final status leaves the queue, and no other signal does.
  pub fetch_unfinished-update :
      (sig_id : ℕ) (status : Status) (result : Option R) (payload : Option P) (now : ℕ)
      (rows : List (Row P R))
      → is_unfinished status ≡ false
      → db_fetch_unfinished (db_update_status sig_id status result payload now rows)
        ≡ without sig_id (db_fetch_unfinished rows)
  unfolding db_fetch_unfinished db_update_status update_row without
  fetch_unfinished-update sig_id status result payload now [] h = refl
  fetch_unfinished-update sig_id status result payload now (row ∷ rows) h =
      ground (arith, fetch_unfinished-update sig_id status result payload now rows h)

-- `db_get_virtual_position_record`: FLAT with no contract where there is no row.
unfoldable pub db_get_virtual_position_record : Text → List Position → ℤ × Option Text × Option Text
db_get_virtual_position_record key [] = (pos 0, none, none)
db_get_virtual_position_record key (p ∷ ps) =
    if text_eq p.strategy_key key
    then (p.virtual_position, p.active_contract_id, p.active_contract_desc)
    else db_get_virtual_position_record key ps

-- `db_get_virtual_position`
unfoldable pub db_get_virtual_position : Text → List Position → ℤ
unfolding db_get_virtual_position_record
db_get_virtual_position key ps = (db_get_virtual_position_record key ps).0

-- `db_set_virtual_position`: the upsert, which keeps a contract that is not given.
unfoldable pub db_set_virtual_position : Position → List Position → List Position
db_set_virtual_position new [] = new ∷ []
db_set_virtual_position new (p ∷ ps) =
    if text_eq p.strategy_key new.strategy_key
    then record p {
      virtual_position = new.virtual_position;
      updated_at = new.updated_at;
      active_contract_id = or_else new.active_contract_id p.active_contract_id;
      active_contract_desc = or_else new.active_contract_desc p.active_contract_desc;
    }
      ∷ ps
    else p ∷ db_set_virtual_position new ps

-- A read after a write: the written key has the new position, and the new contract or the old one
-- where none was given; every other key reads as before.
pub get-set_virtual_position :
    (key : Text) (new : Position) (ps : List Position)
    → db_get_virtual_position_record key (db_set_virtual_position new ps) ≡ (
        let (_, cid, desc) = db_get_virtual_position_record key ps in
        if text_eq new.strategy_key key
        then (
          new.virtual_position,
          or_else new.active_contract_id cid,
          or_else new.active_contract_desc desc,
        )
        else db_get_virtual_position_record key ps)
unfolding db_get_virtual_position_record db_set_virtual_position
get-set_virtual_position key new [] = ground arith
get-set_virtual_position key new (p ∷ ps) =
    elim (Bool-cases (text_eq p.strategy_key new.strategy_key)) [
      | inl same ↦
          let e = text_eq→≡ p.strategy_key new.strategy_key same in
          rw (same, e)
            (elim (Bool-cases (text_eq new.strategy_key key)) [
              | inl hit ↦ rw hit
              | inr miss ↦ rw miss
            ])
      | inr other ↦ rw other (elim (Bool-cases (text_eq p.strategy_key key)) [
        | inl hit ↦
            let k = text_eq→≡ p.strategy_key key hit in
            let miss : text_eq new.strategy_key key ≡ false =
              elim (Bool-cases (text_eq new.strategy_key key)) [
                | inl both ↦ absurd (cc (text_eq→≡ new.strategy_key key both))
                | inr miss ↦ miss
              ] in
            rw (hit, miss)
        | inr miss ↦ rw miss (get-set_virtual_position key new ps)
      ])
    ]
