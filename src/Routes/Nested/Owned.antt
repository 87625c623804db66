-- ===== src/Routes/Nested/Owned.antt =====
-- Child rows belong to the organization of their parent.
use cron_qms.Prelude.{
  ℕ, ◌≡◌, sym, ap, subst, ◌∙◌, Bool, true, false, not, some, List, [], ◌∷◌, ◌==◌, arith, All,
  All-map, All-filter, first, first-All,
}
use cron_qms.Core.Audit.Recorded.{DistinctIds}
use cron_qms.Db.{Db, Env}
use cron_qms.Routes.Scoped.{Scoped, key, is_row}
use cron_qms.Routes.Scoped.Writes.{Write, SameOwner, inserted, saved, Write-All}
use cron_qms.Routes.Scoped.Removals.{Effect, wrote, removed, keyed_rows, rows-remove}

module _ {P C : Type 0} (t : Scoped P) (parent organization : C → ℕ) where
  -- A child is of the organization of every row that has its parent's key.
  abbrev pub OwnedBy : List P → C → Type 0
  OwnedBy ps c = All (λ p. (key t p == parent c) ≡ true → organization c ≡ t.organization p) ps

  abbrev pub Owned : List P → List C → Type 0
  Owned ps cs = All (OwnedBy ps) cs

  pub Owned-at :
      (test : P → Bool) (ps : List P) (cs : List C) {p : P}
      → first test ps ≡ some p
      → Owned ps cs
      → All (λ c. (parent c == key t p) ≡ true → organization c ≡ t.organization p) cs
  Owned-at test ps cs {p} found owned =
      All-map (OwnedBy ps) (λ c. (parent c == key t p) ≡ true → organization c ≡ t.organization p)
        cs
        (λ c all is.
          first-All (λ q. (key t q == parent c) ≡ true → organization c ≡ t.organization q) test ps
            all found (ground arith))
        owned

  -- A child that copies its parent.
  pub OwnedBy-copy :
      (ps : List P) (p : P) (c : C)
      → DistinctIds t.audited ps
      → first (is_row t (key t p)) ps ≡ some p
      → parent c ≡ key t p
      → organization c ≡ t.organization p
      → OwnedBy ps c
  OwnedBy-copy ps p c ids found of_parent of_org =
      subst (λ k. All (λ q. (key t q == k) ≡ true → organization c ≡ t.organization q) ps)
        (sym of_parent)
        (keyed_rows t (λ q. organization c ≡ t.organization q) p ps ids found of_org)

  pub OwnedBy-same :
      (ps : List P) (c c' : C)
      → parent c' ≡ parent c
      → organization c' ≡ organization c
      → OwnedBy ps c
      → OwnedBy ps c'
  OwnedBy-same ps c c' same_parent same_org all =
      All-map (λ p. (key t p == parent c) ≡ true → organization c ≡ t.organization p)
        (λ p. (key t p == parent c') ≡ true → organization c' ≡ t.organization p) ps
        (λ p f is. same_org ∙ f (ap (λ k. key t p == k) (sym same_parent) ∙ is)) all

  inserted-OwnedBy :
      (env : Env) (a' : P) (c : C)
      → key t a' ≡ env.new_id
      → (env.new_id == parent c) ≡ false
      → (key t a' == parent c) ≡ true
      → organization c ≡ t.organization a'
  inserted-OwnedBy env a' c is_new differs is = ground arith

  saved-OwnedBy :
      (db : Db) (a a' : P) (c : C)
      → first (is_row t (key t a)) (t.rows db) ≡ some a
      → SameOwner t a a'
      → OwnedBy (t.rows db) c
      → (key t a' == parent c) ≡ true
      → organization c ≡ t.organization a'
  saved-OwnedBy db a a' c found same all is =
      let of_a =
        first-All (λ p. (key t p == parent c) ≡ true → organization c ≡ t.organization p)
          (is_row t (key t a)) (t.rows db) all found in
      of_a (ap (λ k. k == parent c) (sym same.same_key) ∙ is) ∙ sym same.same_org

  module _ (env : Env) (db db' : Db) where
    -- A write that is right for every child.
    Owned-overwrite :
        (a' : P) (cs : List C)
        → All (λ c. (key t a' == parent c) ≡ true → organization c ≡ t.organization a') cs
        → Owned (t.rows db) cs
        → Write t env db db' a'
        → Owned (t.rows db') cs
    Owned-overwrite a' [] right owned writes = tt
    Owned-overwrite a' (c ∷ cs) right owned writes = (
      Write-All t env db db' a'
          (λ p. (key t p == parent c) ≡ true → organization c ≡ t.organization p) owned.0 right.0
          writes,
      Owned-overwrite a' cs right.1 owned.1 writes,
    )

    -- A new parent has a key that no child names; a saved one keeps its key and organization.
    pub Owned-parents :
        {fresh : Type 0} (cs : List C)
        → (fresh → All (λ c. (env.new_id == parent c) ≡ false) cs)
        → Owned (t.rows db) cs
        → Effect t fresh env db db'
        → Owned (t.rows db') cs
    Owned-parents cs unnamed owned (wrote a' (inserted own is_new writes) fresh) =
        Owned-overwrite a' cs
          (All-map (λ c. (env.new_id == parent c) ≡ false)
            (λ c. (key t a' == parent c) ≡ true → organization c ≡ t.organization a') cs
            (λ c. inserted-OwnedBy env a' c is_new) (unnamed fresh))
          owned (inserted own is_new writes)
    Owned-parents cs unnamed owned (wrote a' (saved id s a is_found actor same writes) fresh) =
        Owned-overwrite a' cs
          (All-map (OwnedBy (t.rows db))
            (λ c. (key t a' == parent c) ≡ true → organization c ≡ t.organization a') cs
            (λ c. saved-OwnedBy db a a' c is_found.found same) owned)
          owned (saved id s a is_found actor same writes)
    Owned-parents cs unnamed owned (removed id a is_found is_removed) =
        All-map (OwnedBy (t.rows db)) (OwnedBy (t.rows db')) cs
          (λ c all.
            subst (All (λ p. (key t p == parent c) ≡ true → organization c ≡ t.organization p))
              (sym (ap t.rows is_removed ∙ rows-remove t env db db' a))
              (All-filter (λ p. (key t p == parent c) ≡ true → organization c ≡ t.organization p)
                (λ x. not (key t x == key t a)) (t.rows db) all))
          owned
