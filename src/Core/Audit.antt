-- ===== src/Core/Audit.antt =====
-- app/core/audit.py: the listeners that write the audit trail. What `session.info` holds is the
-- record `Session`; a listener's target is given by its entity type, its id and its audited fields.
pub mod Replay
pub mod Rows
pub mod Recorded
use cron_qms.Prelude.{
  ℕ, String, Bool, true, false, Option, none, some, List, [], ◌∷◌, ◌++◌, if◌then◌else◌,
}
use cron_qms.Core.Values.{Value, null, stringify, value_eqb}
use cron_qms.Models.History.{HistoryRow}

pub record Session : Type 0 where
  pub actor_id : Option ℕ
  pub reason : Option String

-- `set_audit_actor` on a new session, which has no reason
unfoldable pub set_audit_actor : Option ℕ → Session
set_audit_actor actor = record { actor_id = actor; reason = none }

unfoldable pub set_audit_reason : Session → Option String → Session
set_audit_reason s reason = record s { reason = reason }

-- The row that a target is audited by: its entity type and its id.
pub record Target : Type 0 where
  pub entity : String
  pub id : ℕ

abbrev pub Fields : Type 0
Fields = List (String × Value)

-- `_write`
unfoldable pub write : Session → ℕ → Target → String → Value → Value → HistoryRow
unfolding stringify
write s now t field old new = record {
  entity_type = t.entity;
  entity_id = t.id;
  field = field;
  old_value = stringify old;
  new_value = stringify new;
  reason = s.reason;
  actor_id = s.actor_id;
  created_at = now;
}

abbrev is_null : Value → Bool
is_null null = true
is_null _ = false

-- `_after_insert`
unfoldable pub after_insert : Session → ℕ → Target → Fields → List HistoryRow
unfolding write
after_insert s now t [] = []
after_insert s now t ((field, value) ∷ fields) =
    let rest = after_insert s now t fields in
    if is_null value then rest else write s now t field null value ∷ rest

-- `_after_update`, over the audited fields before and after the flush
unfoldable pub after_update : Session → ℕ → Target → Fields → Fields → List HistoryRow
unfolding write value_eqb
after_update s now t ((field, old) ∷ olds) ((_, new) ∷ news) =
    let rest = after_update s now t olds news in
    if value_eqb old new then rest else write s now t field old new ∷ rest
after_update s now t _ _ = []

-- `_after_delete`
unfoldable pub after_delete : Session → ℕ → Target → List HistoryRow
unfolding write
after_delete s now t = write s now t "__deleted__" null null ∷ []
