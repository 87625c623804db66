-- ===== src/Routes/Scoped/Removals.antt =====
-- What a request does to a table, hard deletes included, and what follows for the organization and
-- for the audit trail.
use cron_qms.Prelude.{
  ℕ, String, ◌≡◌, sym, ap, subst, ◌∙◌, inl, inr, Bool, Bool-cases, true, false, not, some, List, [],
  ◌∷◌, ◌++◌, ◌==◌, arith, All, All-map, filter, filter-drop, first, first-All,
}
use cron_qms.Models.History.{HistoryRow}
use cron_qms.Core.Audit.{after_delete}
use cron_qms.Core.Audit.Rows.{IsStamped, after_delete-IsStamped}
use cron_qms.Core.Audit.Recorded.{DistinctIds, IsRecorded, remove-IsRecorded, filter-DistinctIds}
use cron_qms.Db.{Db, Env, session_of}
use cron_qms.Routes.Access.{in_org}
use cron_qms.Routes.Scoped.{Scoped, key, target, is_row, save, insert, remove}
use cron_qms.Routes.Scoped.Writes.{
  Write, IsFound, inserted, saved, foreign, Write-isolated, session_of-actor,
}
use cron_qms.Routes.Scoped.Trail.{
  IsBy, IsNewKey, IsAudited, NewFor, NewFor-IsAudited, Write-appends,
}

-- A row of the trail names the caller, the entity type and the time of the request.
pub record IsFrom (entity : String) (env : Env) (r : HistoryRow) : Type 0 where
  pub actor : r.actor_id ≡ some env.user.id
  pub about : r.entity_type ≡ entity
  pub time : r.created_at ≡ env.now

-- A request only appends to the trail, and what it appends names its caller and its time.
pub record IsCallers (env : Env) (r : HistoryRow) : Type 0 where
  pub actor : r.actor_id ≡ some env.user.id
  pub time : r.created_at ≡ env.now

pub record Appends (env : Env) (db db' : Db) : Type 0 where
  pub rows : List HistoryRow
  pub appended : db'.history ≡ db.history ++ rows
  pub callers : All (IsCallers env) rows

module _ {A : Type 0} (t : Scoped A) where
  -- What a request does to the table; an insert is one where `fresh` holds of the new key.
  pub data Effect (fresh : Type 0) (env : Env) (db db' : Db) : Type 0 where
    wrote :
        (a' : A) (w : Write t env db db' a')
        → NewFor t env db db' a' fresh w
        → Effect fresh env db db'
    removed :
        (id : ℕ) (a : A)
        → IsFound t env db id a
        → db' ≡ remove t env (session_of env) db a
        → Effect fresh env db db'

  -- The rows of other organizations stay, the trail stays complete, and the rows that it gains
  -- are the caller's.
  pub record IsScoped (env : Env) (db db' : Db) : Type 0 where
    pub isolated : foreign t env (t.rows db') ≡ foreign t env (t.rows db)
    pub audited : IsAudited t db'
    pub trail :
        (rows : List HistoryRow) × (db'.history ≡ db.history ++ rows)
        × All (IsFrom t.audited.entity env) rows

  -- A property of the only row of a key.
  pub keyed_rows :
      (P : A → Type 0) (old : A) (xs : List A)
      → DistinctIds t.audited xs
      → first (is_row t (key t old)) xs ≡ some old
      → P old
      → All (λ x. (key t x == key t old) ≡ true → P x) xs
  keyed_rows P old [] ids found holds = tt
  keyed_rows P old (y ∷ ys) ids found holds = elim (Bool-cases (is_row t (key t old) y)) [
    | inl e ↦
        let y_is_old : y ≡ old = ground arith in
        let apart = subst (λ z. All (λ w. (key t z == key t w) ≡ false) ys) y_is_old ids.0 in
        (
          λ same. subst P (sym y_is_old) holds,
          All-map (λ w. (key t old == key t w) ≡ false) (λ w. (key t w == key t old) ≡ true → P w)
              ys (λ w differ same. absurd_keys w differ same) apart,
        )
    | inr e ↦
        let later : first (is_row t (key t old)) ys ≡ some old = ground arith in
        let apart =
          first-All (λ w. (key t y == key t w) ≡ false) (is_row t (key t old)) ys ids.0 later in
        (λ same. absurd_keys y (ground arith) same, keyed_rows P old ys ids.1 later holds)
  ]
    where
      absurd_keys : (w : A) → (key t old == key t w) ≡ false → (key t w == key t old) ≡ true → P w
      absurd_keys w differ same = ground arith

module _ {A : Type 0} (t : Scoped A) (env : Env) (db db' : Db) where
  pub removed-isolated :
      (id : ℕ) (a : A)
      → DistinctIds t.audited (t.rows db)
      → IsFound t env db id a
      → t.rows db' ≡ filter (λ x. not (key t x == key t a)) (t.rows db)
      → foreign t env (t.rows db') ≡ foreign t env (t.rows db)
  removed-isolated id a ids is_found rows_are =
      let mine : not (in_org (t.organization a) env) ≡ false = rw is_found.mine in
      ap (foreign t env) rows_are
      ∙ filter-drop (λ x. not (in_org (t.organization x) env)) (λ x. not (key t x == key t a))
          (t.rows db)
          (All-map (λ x. (key t x == key t a) ≡ true → not (in_org (t.organization x) env) ≡ false)
            (λ x. not (key t x == key t a) ≡ false → not (in_org (t.organization x) env) ≡ false)
            (t.rows db) (λ x f gone. f (ground arith))
            (keyed_rows t (λ x. not (in_org (t.organization x) env) ≡ false) a (t.rows db) ids
              is_found.found mine))

  pub rows-remove :
      (a : A)
      → t.rows (remove t env (session_of env) db a)
        ≡ filter (λ x. not (key t x == key t a)) (t.rows db)
  unfolding remove
  rows-remove a = t.rows-put db _ _

  removed-IsScoped :
      (id : ℕ) (a : A)
      → IsAudited t db
      → IsFound t env db id a
      → db' ≡ remove t env (session_of env) db a
      → IsScoped t env db db'
  unfolding remove
  removed-IsScoped id a audited is_found is_removed =
      let m = t.audited in
      let s = session_of env in
      let stays : A → Bool = λ x. not (key t x == key t a) in
      let rows = after_delete s env.now (target t a) in
      let rows_are : t.rows db' ≡ filter stays (t.rows db) =
        ap t.rows is_removed ∙ t.rows-put db _ _ in
      let history_is : db'.history ≡ db.history ++ rows =
        ap (λ (d : Db). d.history) is_removed ∙ t.history-put db _ _ in
      record {
        isolated = removed-isolated id a audited.keys is_found rows_are;
        audited = record {
          recorded =
              subst (λ h. IsRecorded m h (t.rows db')) (sym history_is)
                (subst (IsRecorded m (db.history ++ rows)) (sym rows_are)
                  (remove-IsRecorded m s env.now a db.history (t.rows db) audited.recorded));
          keys =
              subst (DistinctIds m) (sym rows_are)
                (filter-DistinctIds m stays (t.rows db) audited.keys);
        };
        trail = (
          rows,
          history_is,
          All-map (IsStamped s env.now (target t a)) (IsFrom t.audited.entity env) rows
              (λ r by. record {
                actor = by.actor_is ∙ session_of-actor env;
                about = by.entity_is;
                time = by.time_is;
              })
              (after_delete-IsStamped s env.now (target t a)),
        );
      }

  -- Whatever a request does to a table of which the trail was complete stays in its scope.
  pub Effect-IsScoped :
      {fresh : Type 0}
      → (fresh → IsNewKey t env db)
      → IsAudited t db
      → Effect t fresh env db db'
      → IsScoped t env db db'
  Effect-IsScoped new_key audited (wrote a' writes fresh) = record {
    isolated = Write-isolated t env db db' a' writes;
    audited = NewFor-IsAudited t env db db' a' writes new_key fresh audited;
    trail =
        let (rows, history_is, by) = Write-appends t env db db' a' writes in
        (
          rows,
          history_is,
          All-map (IsBy t env a') (IsFrom t.audited.entity env) rows
              (λ r b. record { actor = b.actor; about = b.entity; time = b.time }) by,
        );
  }
  Effect-IsScoped new_key audited (removed id a is_found is_removed) =
      removed-IsScoped id a audited is_found is_removed

  -- What the table's writes leave alone.
  pub Effect-others {ℓ} :
      {fresh : Type 0} {X : Type ℓ} (column : Db → X)
      → ((d : Db) (xs : List A) (h : List HistoryRow) → column (t.put d xs h) ≡ column d)
      → Effect t fresh env db db'
      → column db' ≡ column db
  unfolding save insert remove
  Effect-others column apart (wrote a' (inserted own is_new writes) f) =
      ap column writes ∙ apart db _ _
  Effect-others column apart (wrote a' (saved id s a is_found actor same writes) f) =
      ap column writes ∙ apart db _ _
  Effect-others column apart (removed id a is_found is_removed) =
      ap column is_removed ∙ apart db _ _
