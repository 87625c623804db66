-- ===== src/Routes/Scoped/Trail.antt =====
-- The audit trail of a table: what app/core/audit.py writes when the shared code of the routes
-- commits.
use cron_qms.Prelude.{
  ℕ, ◌≡◌, sym, ap, subst, ◌∙◌, false, some, List, [], ◌∷◌, ◌++◌, All, All-map, ◌==◌, overwrite,
}
use cron_qms.Models.History.{HistoryRow}
use cron_qms.Core.Audit.{Session, Fields, after_insert, after_update}
use cron_qms.Core.Audit.Replay.{Shows, nulls}
use cron_qms.Core.Audit.Rows.{IsStamped, after_insert-IsStamped, after_update-IsStamped}
use cron_qms.Core.Audit.Recorded.{
  DistinctIds, IsRecorded, update-IsRecorded, insert-IsRecorded, overwrite-DistinctIds,
  append-DistinctIds,
}
use cron_qms.Db.{Db, Env, session_of}
use cron_qms.Routes.Scoped.{Scoped, key, target, is_row, save, insert}
use cron_qms.Routes.Scoped.Writes.{
  Write, IsFound, SameOwner, inserted, saved, session_of-actor, rows-insert, rows-save,
}

-- The trail shows every row of the table as it is, and the keys are distinct.
pub record IsAudited {A : Type 0} (t : Scoped A) (db : Db) : Type 0 where
  pub recorded : IsRecorded t.audited db.history (t.rows db)
  pub keys : DistinctIds t.audited (t.rows db)

module _ {A : Type 0} (t : Scoped A) where
  -- A row of the trail names the caller, the row that it is about, and the time of the request.
  pub record IsBy (env : Env) (a : A) (r : HistoryRow) : Type 0 where
    pub actor : r.actor_id ≡ some env.user.id
    pub entity : r.entity_type ≡ t.audited.entity
    pub of_row : r.entity_id ≡ key t a
    pub time : r.created_at ≡ env.now

  -- The database gives a new row a key that no row has, and of which the trail says nothing.
  pub record IsNewKey (env : Env) (db : Db) : Type 0 where
    pub unused : All (λ a. (env.new_id == key t a) ≡ false) (t.rows db)
    pub silent :
        (fields : Fields)
        → Shows (record { entity = t.audited.entity; id = env.new_id }) db.history (nulls fields)

module _ {A : Type 0} (t : Scoped A) (env : Env) (db db' : Db) (a' : A) where
  history-insert :
      (s : Session)
      → (insert t env s db a').history
        ≡ db.history ++ after_insert s env.now (target t a') (t.audited.fields a')
  unfolding insert
  history-insert s = t.history-put db _ _

  history-save :
      (s : Session) (a : A)
      → (save t env s db a a').history
        ≡ db.history
          ++ after_update s env.now (target t a) (t.audited.fields a) (t.audited.fields a')
  unfolding save
  history-save s a = t.history-put db _ _

  -- A write only appends to the trail, and every row that it appends names its caller.
  pub Write-appends :
      Write t env db db' a'
      → (rows : List HistoryRow) × (db'.history ≡ db.history ++ rows) × All (IsBy t env a') rows
  Write-appends (inserted own is_new writes) =
      let u = target t a' in
      let fields = t.audited.fields a' in
      let rows = after_insert (session_of env) env.now u fields in
      (
        rows,
        ap (λ (d : Db). d.history) writes ∙ history-insert (session_of env),
        All-map (IsStamped (session_of env) env.now u) (IsBy t env a') rows
            (λ r by. record {
              actor = by.actor_is ∙ session_of-actor env;
              entity = by.entity_is;
              of_row = by.id_is;
              time = by.time_is;
            })
            (after_insert-IsStamped (session_of env) env.now u fields),
      )
  Write-appends (saved id s a is_found actor same writes) =
      let u = target t a in
      let rows = after_update s env.now u (t.audited.fields a) (t.audited.fields a') in
      (
        rows,
        ap (λ (d : Db). d.history) writes ∙ history-save s a,
        All-map (IsStamped s env.now u) (IsBy t env a') rows
            (λ r by. record {
              actor = by.actor_is ∙ actor;
              entity = by.entity_is;
              of_row = by.id_is ∙ sym same.same_key;
              time = by.time_is;
            })
            (after_update-IsStamped s env.now u (t.audited.fields a) (t.audited.fields a')),
      )

  pub saved-IsAudited :
      (s : Session) (id : ℕ) (a : A)
      → IsFound t env db id a
      → SameOwner t a a'
      → IsAudited t db
      → db' ≡ save t env s db a a'
      → IsAudited t db'
  saved-IsAudited s id a is_found same audited writes =
      let m = t.audited in
      let test = is_row t (key t a) in
      subst (IsAudited t) (sym writes) (record {
        recorded = subst (IsRecorded m _) (sym (rows-save t env db db' a' s a)) (
            subst (λ h. IsRecorded m h (overwrite test a' (t.rows db))) (sym (history-save s a))
              (update-IsRecorded m s env.now test a' a db.history (t.rows db) is_found.found
                same.same_key audited.keys audited.recorded));
        keys = subst (DistinctIds m) (sym (rows-save t env db db' a' s a)) (
            overwrite-DistinctIds m test a' a (t.rows db) is_found.found same.same_key
              audited.keys);
      })

  -- What must hold of a write that inserts.
  abbrev pub NewFor : Type 0 → Write t env db db' a' → Type 0
  NewFor fresh (inserted own is_new writes) = fresh
  NewFor fresh (saved id s a is_found actor same writes) = Unit

  -- A write keeps the trail complete.
  pub Write-IsAudited : IsNewKey t env db → IsAudited t db → Write t env db db' a' → IsAudited t db'
  Write-IsAudited new_key audited (inserted own is_new writes) =
      let m = t.audited in
      let unused =
        subst (λ k. All (λ x. (k == key t x) ≡ false) (t.rows db)) (sym is_new) new_key.unused in
      let silent =
        subst (λ k. Shows (record { entity = m.entity; id = k }) db.history (nulls (m.fields a')))
          (sym is_new) (new_key.silent (m.fields a')) in
      let s = session_of env in
      subst (IsAudited t) (sym writes) (record {
        recorded = subst (IsRecorded m _) (sym (rows-insert t env db db' a' s)) (
            subst (λ h. IsRecorded m h (t.rows db ++ a' ∷ [])) (sym (history-insert s))
              (insert-IsRecorded m s env.now a' db.history (t.rows db) unused silent
                audited.recorded));
        keys =
            subst (DistinctIds m) (sym (rows-insert t env db db' a' s))
              (append-DistinctIds m a' (t.rows db) unused audited.keys);
      })
  Write-IsAudited new_key audited (saved id s a is_found actor same writes) =
      saved-IsAudited s id a is_found same audited writes

  -- Only an insert needs a new key.
  pub NewFor-IsAudited :
      {fresh : Type 0} (w : Write t env db db' a')
      → (fresh → IsNewKey t env db)
      → NewFor fresh w
      → IsAudited t db
      → IsAudited t db'
  NewFor-IsAudited (inserted own is_new writes) new_key fresh audited =
      Write-IsAudited (new_key fresh) audited (inserted own is_new writes)
  NewFor-IsAudited (saved id s a is_found actor same writes) new_key fresh audited =
      saved-IsAudited s id a is_found same audited writes
