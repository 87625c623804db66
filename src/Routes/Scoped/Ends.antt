-- ===== src/Routes/Scoped/Ends.antt =====
-- The ends of the handlers: the effect of the write that a handler ends with, a predicate of the
-- rows of its table, and the trail of the other tables.
use mathlib.Core.List.{append-nil}
use cron_qms.Prelude.{
  ℕ, str_eq, ◌≡◌, sym, ap, subst, ◌∙◌, Bool, false, not, some, [], ◌∷◌, ◌++◌, ◌==◌, All, All-map,
  All-filter, All-append, overwrite-All, ok-injective, filter, Result, ok, ok-pair,
}
use cron_qms.Core.Audit.Replay.{Shows}
use cron_qms.Core.Audit.Rows.{Shows-entity}
use cron_qms.Core.Audit.Recorded.{DistinctIds, IsRecorded, filter-DistinctIds}
use cron_qms.Db.{Db, Env, session_of}
use cron_qms.Routes.Scoped.{Scoped, key, target, is_row, save, insert, remove}
use cron_qms.Routes.Scoped.Writes.{
  IsFound, SameOwner, inserted, saved, rows-save, rows-insert, session_of-actor,
}
use cron_qms.Routes.Scoped.Trail.{IsAudited}
use cron_qms.Routes.Scoped.Removals.{
  removed-isolated, IsFrom, IsCallers, Appends, Effect, wrote, IsScoped, rows-remove,
}

module _ {A : Type 0} (t : Scoped A) (env : Env) (db db' : Db) where
  -- A delete from a table that is not audited.
  pub unaudited-IsScoped :
      (id : ℕ) (a : A)
      → IsAudited t db
      → IsFound t env db id a
      → t.rows db' ≡ filter (λ x. not (key t x == key t a)) (t.rows db)
      → db'.history ≡ db.history
      → IsScoped t env db db'
  unaudited-IsScoped id a audited is_found rows_are same =
      let m = t.audited in
      let stays : A → Bool = λ x. not (key t x == key t a) in
      record {
        isolated = removed-isolated t env db db' id a audited.keys is_found rows_are;
        audited = record {
          recorded =
              subst (λ h. IsRecorded m h (t.rows db')) (sym same)
                (subst (IsRecorded m db.history) (sym rows_are) (
                  All-filter (λ x. Shows (target t x) db.history (m.fields x)) stays (t.rows db)
                    audited.recorded));
          keys =
              subst (DistinctIds m) (sym rows_are)
                (filter-DistinctIds m stays (t.rows db) audited.keys);
        };
        trail = ([], same ∙ sym (append-nil db.history), tt);
      }

module _ {A : Type 0} (t : Scoped A) (env : Env) (db : Db) {db' : Db} {a' : A} where
  -- The end of a handler that saves the row that it found.
  pub saves_row :
      {fresh : Type 0} (id : ℕ) (a a2 : A)
      → IsFound t env db id a
      → SameOwner t a a2
      → ◌≡◌ {A = Result (Db × A)} (ok (save t env (session_of env) db a a2, a2)) (ok (db', a'))
      → Effect t fresh env db db'
  saves_row id a a2 is_found same h =
      let s = session_of env in
      wrote a2
        (saved id s a is_found (session_of-actor env) same
          (sym (ok-pair (save t env s db a a2) db' a2 a' h).0))
        tt

  -- The end of a handler that inserts a row.
  pub inserts_row :
      {fresh : Type 0} (a2 : A)
      → fresh
      → env.user.organization_id ≡ some (t.organization a2)
      → key t a2 ≡ env.new_id
      → ◌≡◌ {A = Result (Db × A)} (ok (insert t env (session_of env) db a2, a2)) (ok (db', a'))
      → Effect t fresh env db db'
  inserts_row a2 is_fresh own is_new h =
      wrote a2
        (inserted own is_new (sym (ok-pair (insert t env (session_of env) db a2) db' a2 a' h).0))
        is_fresh

-- A predicate of the rows of a table, at the end of a handler.
module _ {A : Type 0} (t : Scoped A) (env : Env) (db : Db) {db' : Db} (P : A → Type 0)
    (all : All P (t.rows db)) where
  pub saves_row-All :
      (a a2 : A) {a' : A}
      → P a2
      → ◌≡◌ {A = Result (Db × A)} (ok (save t env (session_of env) db a a2, a2)) (ok (db', a'))
      → All P (t.rows db')
  saves_row-All a a2 {a'} holds h =
      let s = session_of env in
      subst (All P)
        (sym (rows-save t env db db a2 s a)
          ∙ ap t.rows (ok-pair (save t env s db a a2) db' a2 a' h).0)
        (overwrite-All P (is_row t (key t a)) a2 (t.rows db) holds all)

  pub inserts_row-All :
      (a2 : A) {a' : A}
      → P a2
      → ◌≡◌ {A = Result (Db × A)} (ok (insert t env (session_of env) db a2, a2)) (ok (db', a'))
      → All P (t.rows db')
  inserts_row-All a2 {a'} holds h =
      let s = session_of env in
      subst (All P)
        (sym (rows-insert t env db db a2 s)
          ∙ ap t.rows (ok-pair (insert t env s db a2) db' a2 a' h).0)
        (All-append P (t.rows db) (a2 ∷ []) all (holds, tt))

  pub removes_row-All :
      (a : A)
      → ◌≡◌ {A = Result Db} (ok (remove t env (session_of env) db a)) (ok db')
      → All P (t.rows db')
  removes_row-All a h =
      subst (All P) (sym (rows-remove t env db db a) ∙ ap t.rows (ok-injective h))
        (All-filter P (λ x. not (key t x == key t a)) (t.rows db) all)

module _ {A B : Type 0} (t : Scoped A) (u : Scoped B) (env : Env) (db db' : Db) where
  -- The trail of another table stays complete.
  pub IsScoped-elsewhere :
      str_eq t.audited.entity u.audited.entity ≡ false
      → u.rows db' ≡ u.rows db
      → IsAudited u db
      → IsScoped t env db db'
      → IsAudited u db'
  IsScoped-elsewhere apart same audited scoped =
      let m = u.audited in
      let (rows, history_is, from) = scoped.trail in
      let others =
        All-map (IsFrom t.audited.entity env) (λ r. str_eq r.entity_type m.entity ≡ false) rows
          (λ r by. ap (λ e. str_eq e m.entity) by.about ∙ apart) from in
      record {
        recorded =
            subst (λ h. IsRecorded m h (u.rows db')) (sym history_is)
              (subst (IsRecorded m (db.history ++ rows)) (sym same) (
                All-map (λ b. Shows (target u b) db.history (m.fields b))
                  (λ b. Shows (target u b) (db.history ++ rows) (m.fields b)) (u.rows db)
                  (λ b shows. Shows-entity (target u b) db.history rows (m.fields b) others shows)
                  audited.recorded));
        keys = subst (DistinctIds m) (sym same) audited.keys;
      }

pub IsScoped-Appends :
    {A : Type 0} (t : Scoped A) (env : Env) (db db' : Db)
    → IsScoped t env db db'
    → Appends env db db'
IsScoped-Appends t env db db' scoped =
    let (rows, is, from) = scoped.trail in
    record {
      rows = rows;
      appended = is;
      callers =
          All-map (IsFrom t.audited.entity env) (IsCallers env) rows
            (λ r by. record { actor = by.actor; time = by.time }) from;
    }
