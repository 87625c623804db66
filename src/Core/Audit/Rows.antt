-- ===== src/Core/Audit/Rows.antt =====
-- What the listeners stamp on the rows that they write.
use cron_qms.Prelude.{
  ℕ, String, ◌≡◌, refl, Bool, false, ◌&&◌, List, [], ◌∷◌, ◌++◌, ◌==◌, str_eq, arith, All, All-map,
  All-unless, Option, none, ◌∙◌,
}
use cron_qms.Core.Values.{Value, null, stringify, value_eqb}
use cron_qms.Models.History.{HistoryRow}
use cron_qms.Core.Audit.{
  Session, Target, Fields, write, is_null, after_insert, after_update, after_delete,
}
use cron_qms.Core.Audit.Replay.{Shows, is_about, replay, replay-append}

-- A row is about its target, and names the actor, the reason and the time of its request.
pub record IsStamped (s : Session) (now : ℕ) (t : Target) (r : HistoryRow) : Type 0 where
  pub entity_is : r.entity_type ≡ t.entity
  pub id_is : r.entity_id ≡ t.id
  pub actor_is : r.actor_id ≡ s.actor_id
  pub reason_is : r.reason ≡ s.reason
  pub time_is : r.created_at ≡ now

module _ (s : Session) (now : ℕ) (t : Target) where
  write-IsStamped :
      (field : String) (old new : Value) → IsStamped s now t (write s now t field old new)
  unfolding write
  write-IsStamped field old new = record {
    entity_is = refl;
    id_is = refl;
    actor_is = refl;
    reason_is = refl;
    time_is = refl;
  }

  pub after_insert-IsStamped :
      (fields : Fields) → All (IsStamped s now t) (after_insert s now t fields)
  unfolding after_insert
  after_insert-IsStamped [] = tt
  after_insert-IsStamped ((field, value) ∷ fields) =
      All-unless (IsStamped s now t) (is_null value) (write s now t field null value)
        (after_insert s now t fields) (write-IsStamped field null value)
        (after_insert-IsStamped fields)

  pub after_update-IsStamped :
      (olds news : Fields) → All (IsStamped s now t) (after_update s now t olds news)
  unfolding after_update
  after_update-IsStamped [] news = tt
  after_update-IsStamped (f ∷ olds) [] = tt
  after_update-IsStamped ((field, old) ∷ olds) ((g, new) ∷ news) =
      All-unless (IsStamped s now t) (value_eqb old new) (write s now t field old new)
        (after_update s now t olds news) (write-IsStamped field old new)
        (after_update-IsStamped olds news)

  pub after_delete-IsStamped : All (IsStamped s now t) (after_delete s now t)
  unfolding after_delete
  after_delete-IsStamped = (write-IsStamped "__deleted__" null null, tt)

-- Two targets that are told apart by a test.
abbrev pub same_target : Target → Target → Bool
same_target t u = str_eq t.entity u.entity && (t.id == u.id)

-- Rows about another target do not change what the trail shows.
pub replay_other :
    (s : Session) (now : ℕ) (t u : Target) (name : String) (rows : List HistoryRow)
    (v : Option String)
    → same_target t u ≡ false
    → All (IsStamped s now t) rows
    → replay u name v rows ≡ v
unfolding replay
replay_other s now t u name [] v apart stamped = refl
replay_other s now t u name (r ∷ rows) v apart stamped =
    let not_about : is_about u name r ≡ false =
      simp (stamped.0.entity_is, stamped.0.id_is) (ground arith) in
    rw not_about (replay_other s now t u name rows v apart stamped.1)

pub Shows-other :
    (s : Session) (now : ℕ) (t u : Target) (h rows : List HistoryRow) (fields : Fields)
    → same_target t u ≡ false
    → All (IsStamped s now t) rows
    → Shows u h fields
    → Shows u (h ++ rows) fields
Shows-other s now t u h rows [] apart stamped shows = tt
Shows-other s now t u h rows (f ∷ fields) apart stamped shows = (
  replay-append u f.0 none h rows ∙ replay_other s now t u f.0 rows _ apart stamped ∙ shows.0,
  Shows-other s now t u h rows fields apart stamped shows.1,
)

-- Rows about other entities do not change what the trail shows of an entity.
pub replay_entity :
    (u : Target) (name : String) (rows : List HistoryRow) (v : Option String)
    → All (λ r. str_eq r.entity_type u.entity ≡ false) rows
    → replay u name v rows ≡ v
unfolding replay
replay_entity u name [] v apart = refl
replay_entity u name (r ∷ rows) v apart = rw (apart.0) (replay_entity u name rows v apart.1)

pub Shows-entity :
    (u : Target) (h rows : List HistoryRow) (fields : Fields)
    → All (λ r. str_eq r.entity_type u.entity ≡ false) rows
    → Shows u h fields
    → Shows u (h ++ rows) fields
Shows-entity u h rows fields apart shows =
    All-map (λ f. replay u f.0 none h ≡ stringify f.1)
      (λ f. replay u f.0 none (h ++ rows) ≡ stringify f.1) fields
      (λ f is.
        replay-append u f.0 none h rows ∙ replay_entity u f.0 rows (replay u f.0 none h) apart ∙ is)
      shows
