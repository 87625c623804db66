-- ===== src/Routes/Scoped/Writes.antt =====
-- What a request writes to a table: one new row of the caller's organization, or one that it found
-- there.
use mathlib.Core.List.{append-nil}
use cron_qms.Prelude.{
  ℕ, ◌≡◌, refl, sym, ap, subst, ◌∙◌, true, false, not, some, List, [], ◌∷◌, ◌++◌, arith, Result,
  Error, ok, first, first-holds, overwrite, overwrite-All, All, All-append, filter, filter-append,
  filter-overwrite, ok-pair,
}
use cron_qms.Core.Audit.{Session}
use cron_qms.Db.{Db, Env, session_of}
use cron_qms.Routes.Access.{in_org}
use cron_qms.Routes.Scoped.{Scoped, key, is_row, get_in_org, save, insert}

pub session_of-actor : (env : Env) → (session_of env).actor_id ≡ some env.user.id
unfolding session_of
session_of-actor env = refl

module _ {A : Type 0} (t : Scoped A) where
  -- The row of the caller's organization that the query finds.
  pub record IsFound (env : Env) (db : Db) (id : ℕ) (a : A) : Type 0 where
    pub asked : key t a ≡ id
    pub found : first (is_row t (key t a)) (t.rows db) ≡ some a
    pub mine : in_org (t.organization a) env ≡ true

  -- The key and the organization of a row never change.
  pub record SameOwner (a a' : A) : Type 0 where
    pub same_key : key t a' ≡ key t a
    pub same_org : t.organization a' ≡ t.organization a

  pub data Write (env : Env) (db db' : Db) (a' : A) : Type 0 where
    inserted :
        env.user.organization_id ≡ some (t.organization a')
        → key t a' ≡ env.new_id
        → db' ≡ insert t env (session_of env) db a'
        → Write env db db' a'
    saved :
        (id : ℕ) (s : Session) (a : A)
        → IsFound env db id a
        → s.actor_id ≡ some env.user.id
        → SameOwner a a'
        → db' ≡ save t env s db a a'
        → Write env db db' a'

module _ {A : Type 0} (t : Scoped A) (missing : Error) (env : Env) (db : Db) (id : ℕ) {a : A} where
  get_in_org-first :
      get_in_org t missing env db id ≡ ok a
      → (first (is_row t id) (t.rows db) ≡ some a) × (in_org (t.organization a) env ≡ true)
  unfolding get_in_org
  get_in_org-first h = ground arith

  pub get_in_org-IsFound : get_in_org t missing env db id ≡ ok a → IsFound t env db id a
  get_in_org-IsFound h =
      let (is_first, mine) = get_in_org-first h in
      let is_id = first-holds (is_row t id) (t.rows db) is_first in
      let asked : key t a ≡ id = ground arith in
      record {
        asked = asked;
        found = subst (λ k. first (is_row t k) (t.rows db) ≡ some a) (sym asked) is_first;
        mine = mine;
      }

module _ {A : Type 0} (t : Scoped A) (env : Env) (db : Db) {db' : Db} {a' : A} where
  -- The end of a handler that saves the row that it found.
  pub saved_by :
      (missing : Error) (id : ℕ) (s : Session) (a a2 : A)
      → get_in_org t missing env db id ≡ ok a
      → s.actor_id ≡ some env.user.id
      → SameOwner t a a2
      → ◌≡◌ {A = Result (Db × A)} (ok (save t env s db a a2, a2)) (ok (db', a'))
      → Write t env db db' a'
  saved_by missing id s a a2 found actor same h =
      let (writes, is) = ok-pair (save t env s db a a2) db' a2 a' h in
      saved id s a (get_in_org-IsFound t missing env db id found) actor
        (subst (λ x. SameOwner t a x) is same) (sym writes ∙ ap (save t env s db a) is)

  -- The end of a handler that inserts a row.
  pub inserted_by :
      (a2 : A)
      → env.user.organization_id ≡ some (t.organization a2)
      → key t a2 ≡ env.new_id
      → ◌≡◌ {A = Result (Db × A)} (ok (insert t env (session_of env) db a2, a2)) (ok (db', a'))
      → Write t env db db' a'
  inserted_by a2 own is_new h =
      let (writes, is) = ok-pair (insert t env (session_of env) db a2) db' a2 a' h in
      inserted (own ∙ ap (λ x. some (t.organization x)) is) (ap (key t) (sym is) ∙ is_new)
        (sym writes ∙ ap (insert t env (session_of env) db) is)

-- The rows that do not belong to the caller's organization.
abbrev pub foreign : {A : Type 0} → Scoped A → Env → List A → List A
foreign t env xs = filter (λ a. not (in_org (t.organization a) env)) xs

in_own_org : (env : Env) {o : ℕ} → env.user.organization_id ≡ some o → in_org o env ≡ true
in_own_org env h = ground arith

module _ {A : Type 0} (t : Scoped A) (env : Env) (db db' : Db) (a' : A) where
  pub rows-insert : (s : Session) → t.rows (insert t env s db a') ≡ t.rows db ++ a' ∷ []
  unfolding insert
  rows-insert s = t.rows-put db _ _

  pub rows-save :
      (s : Session) (a : A)
      → t.rows (save t env s db a a') ≡ overwrite (is_row t (key t a)) a' (t.rows db)
  unfolding save
  rows-save s a = t.rows-put db _ _

  -- The rows of other organizations stay as they are.
  pub Write-isolated :
      Write t env db db' a' → foreign t env (t.rows db') ≡ foreign t env (t.rows db)
  Write-isolated (inserted own is_new writes) =
      let mine = in_own_org env own in
      ap (λ d. foreign t env (t.rows d)) writes
      ∙ ap (foreign t env) (rows-insert (session_of env))
      ∙ (rw (filter-append (λ a. not (in_org (t.organization a) env)) (t.rows db) (a' ∷ []), mine)
          (append-nil _))
  Write-isolated (saved id s a is_found actor same writes) =
      let foreign_old : not (in_org (t.organization a) env) ≡ false = rw is_found.mine in
      let foreign_new : not (in_org (t.organization a') env) ≡ false =
        rw same.same_org foreign_old in
      ap (λ d. foreign t env (t.rows d)) writes
      ∙ ap (foreign t env) (rows-save s a)
      ∙ filter-overwrite (λ x. not (in_org (t.organization x) env)) (is_row t (key t a)) a'
          (t.rows db) is_found.found foreign_old foreign_new

  -- A predicate of rows holds of the whole table after a write if it holds of the written row.
  pub Write-All :
      (P : A → Type 0) → All P (t.rows db) → P a' → Write t env db db' a' → All P (t.rows db')
  Write-All P all holds (inserted own is_new writes) =
      subst (λ d. All P (t.rows d)) (sym writes)
        (subst (All P) (sym (rows-insert (session_of env)))
          (All-append P (t.rows db) (a' ∷ []) all (holds, tt)))
  Write-All P all holds (saved id s a is_found actor same writes) =
      subst (λ d. All P (t.rows d)) (sym writes)
        (subst (All P) (sym (rows-save s a))
          (overwrite-All P (is_row t (key t a)) a' (t.rows db) holds all))
