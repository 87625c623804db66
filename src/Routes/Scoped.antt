-- ===== src/Routes/Scoped.antt =====
-- Tables of rows that belong to an organization and are audited. The routes of events, CAPAs and
-- documents read and write their tables in the same way; each table is an instance of the interface
-- `Scoped`, and what follows from the shared code alone is proved once, in the modules below.
pub mod Writes
pub mod Trail
pub mod Removals
pub mod Ends
use cron_qms.Prelude.{
  ℕ, Bool, true, false, ◌&&◌, Option, some, List, [], ◌∷◌, ◌++◌, ◌≡◌, ◌==◌, filter, first,
  overwrite, Result, ok, Error, raise_if, or_raise, ◌>>=◌, ◌>>◌, not,
}
use cron_qms.Models.History.{HistoryRow}
use cron_qms.Core.Audit.{Session, Target, after_insert, after_update, after_delete}
use cron_qms.Core.Audit.Recorded.{Audited}
use cron_qms.Db.{Db, Env, session_of}
use cron_qms.Routes.Access.{in_org}

-- A table of the database: its rows, a write of the rows together with the audit trail, and the
-- columns `organization_id` and `is_active`.
pub record Scoped (A : Type 0) : Type 0 where
  pub audited : Audited A
  pub organization : A → ℕ
  pub active : A → Bool
  pub rows : Db → List A
  pub put : Db → List A → List HistoryRow → Db
  pub rows-put : (db : Db) (xs : List A) (h : List HistoryRow) → rows (put db xs h) ≡ xs
  pub history-put : (db : Db) (xs : List A) (h : List HistoryRow) → (put db xs h).history ≡ h

module _ {A : Type 0} (t : Scoped A) where
  abbrev pub key : A → ℕ
  key = t.audited.id

  abbrev pub target : A → Target
  target a = record { entity = t.audited.entity; id = t.audited.id a }

  -- `.filter(Row.id == id, Row.is_active.is_(True))`
  abbrev pub is_row : ℕ → A → Bool
  is_row id a = key a == id && t.active a

  -- `.first()`, and the test of the organization: both failures are the same 404.
  unfoldable pub get_in_org : Error → Env → Db → ℕ → Result A
  get_in_org missing env db id = do
    row ← or_raise (first (is_row id) (t.rows db)) missing
    raise_if (not (in_org (t.organization row) env)) missing
    ok row

  -- `db.add(row); db.commit()` of a loaded row, with the audit rows of the flush
  unfoldable pub save : Env → Session → Db → A → A → Db
  save env s db old new = t.put db (overwrite (is_row (key old)) new (t.rows db)) (
      db.history
      ++ after_update s env.now (target old) (t.audited.fields old) (t.audited.fields new))

  -- `db.add(row); db.commit()` of a new row
  unfoldable pub insert : Env → Session → Db → A → Db
  insert env s db new =
      t.put db (t.rows db ++ new ∷ [])
        (db.history ++ after_insert s env.now (target new) (t.audited.fields new))

  -- `db.delete(row); db.commit()` of a loaded row, with the tombstone of the flush
  unfoldable pub remove : Env → Session → Db → A → Db
  remove env s db old =
      t.put db (filter (λ a. not (key a == key old)) (t.rows db))
        (db.history ++ after_delete s env.now (target old))
