-- ===== src/Routes/Nested/Writes.antt =====
-- What the requests for the child rows of a loaded row do to the table of the children.
use cron_qms.Prelude.{
  first-holds, ◌&&◌, arith, ℕ, ◌≡◌, sym, ap, subst, ◌∙◌, true, not, some, List, ◌==◌, All-filter,
  first, first-All, Error, Result, ok, ok-pair, ok-injective,
}
use cron_qms.Db.{Db, Env, session_of}
use cron_qms.Routes.Access.{in_org-some}
use cron_qms.Routes.Scoped.{Scoped, key, is_row, save, insert, remove}
use cron_qms.Routes.Scoped.Writes.{
  Write, inserted, saved, IsFound, SameOwner, Write-All, session_of-actor,
}
use cron_qms.Routes.Scoped.Trail.{IsAudited}
use cron_qms.Routes.Scoped.Removals.{Effect, wrote, removed, rows-remove}
use cron_qms.Routes.Nested.{get_child}
use cron_qms.Routes.Nested.Found.{child-IsFound}
use cron_qms.Routes.Nested.Owned.{OwnedBy, Owned, Owned-at, OwnedBy-copy, OwnedBy-same}

module _ {P C : Type 0} (t : Scoped P) (u : Scoped C) (parent : C → ℕ)
    (always : (c : C) → u.active c ≡ true) (env : Env) (db : Db) (id : ℕ) {p : P}
    (parent_found : IsFound t env db id p) where
  abbrev pub IsOwned : C → Type 0
  IsOwned = OwnedBy t parent u.organization (t.rows db)

  abbrev pub AreOwnedIn : List C → Type 0
  AreOwnedIn = Owned t parent u.organization (t.rows db)

  abbrev pub AreOwned : Type 0
  AreOwned = AreOwnedIn (u.rows db)

  written-AreOwned :
      {db' : Db} (c : C) → IsOwned c → AreOwned → Write u env db db' c → AreOwnedIn (u.rows db')
  written-AreOwned {db'} c c_owned owned w = Write-All u env db db' c IsOwned owned c_owned w

  -- The end of a handler that inserts a child of the row that it found.
  pub child_inserted :
      {fresh : Type 0} (c : C) {db' : Db} {c' : C}
      → fresh
      → IsAudited t db
      → AreOwned
      → parent c ≡ key t p
      → u.organization c ≡ t.organization p
      → key u c ≡ env.new_id
      → ◌≡◌ {A = Result (Db × C)} (ok (insert u env (session_of env) db c, c)) (ok (db', c'))
      → Effect u fresh env db db' × AreOwnedIn (u.rows db')
  child_inserted c {db'} {c'} is_fresh audited owned of_parent of_org is_new h =
      let own = in_org-some env parent_found.mine ∙ ap some (sym of_org) in
      let c_owned =
        OwnedBy-copy t parent u.organization (t.rows db) p c audited.keys parent_found.found
          of_parent of_org in
      let writes = sym (ok-pair (insert u env (session_of env) db c) db' c c' h).0 in
      (
        wrote c (inserted own is_new writes) is_fresh,
        written-AreOwned c c_owned owned (inserted own is_new writes),
      )

  module _ (missing : Error) (child_id : ℕ) {c : C} (audited : IsAudited u db) (owned : AreOwned)
      (found : get_child (key u) parent missing (u.rows db) (key t p) child_id ≡ ok c) where
    pub child_of : IsFound u env db child_id c
    child_of =
        child-IsFound u parent always missing env db (key t p) child_id (t.organization p)
          audited.keys
          (Owned-at t parent u.organization (is_row t (key t p)) (t.rows db) (u.rows db)
            parent_found.found owned)
          parent_found.mine found

    pub child_org : u.organization c ≡ t.organization p
    unfolding get_child
    child_org =
        let test = λ (x : C). key u x == child_id && parent x == key t p in
        let is_first : first test (u.rows db) ≡ some c = ground arith in
        let holds = first-holds test (u.rows db) is_first in
        first-All (λ x. (parent x == key t p) ≡ true → u.organization x ≡ t.organization p) test
          (u.rows db)
          (Owned-at t parent u.organization (is_row t (key t p)) (t.rows db) (u.rows db)
            parent_found.found owned)
          is_first (ground arith)

    -- The end of a handler that saves a child that it found.
    pub child_saved :
        {fresh : Type 0} (c2 : C) {db' : Db} {c' : C}
        → SameOwner u c c2
        → parent c2 ≡ parent c
        → ◌≡◌ {A = Result (Db × C)} (ok (save u env (session_of env) db c c2, c2)) (ok (db', c'))
        → Effect u fresh env db db' × AreOwnedIn (u.rows db')
    child_saved c2 {db'} {c'} same same_parent h =
        let c_owned = first-All IsOwned (is_row u (key u c)) (u.rows db) owned child_of.found in
        let c2_owned =
          OwnedBy-same t parent u.organization (t.rows db) c c2 same_parent same.same_org c_owned in
        let s = session_of env in
        let writes = sym (ok-pair (save u env s db c c2) db' c2 c' h).0 in
        (
          wrote c2 (saved child_id s c child_of (session_of-actor env) same writes) tt,
          written-AreOwned c2 c2_owned owned
              (saved child_id s c child_of (session_of-actor env) same writes),
        )

    -- The end of a handler that deletes a child that it found.
    pub child_removed :
        {fresh : Type 0} {db' : Db}
        → ◌≡◌ {A = Result Db} (ok (remove u env (session_of env) db c)) (ok db')
        → Effect u fresh env db db' × AreOwnedIn (u.rows db')
    child_removed {fresh} {db'} h =
        let is_removed = sym (ok-injective h) in
        (
          removed child_id c child_of is_removed,
          subst AreOwnedIn (sym (ap u.rows is_removed ∙ rows-remove u env db db' c))
              (All-filter IsOwned (λ x. not (key u x == key u c)) (u.rows db) owned),
        )
