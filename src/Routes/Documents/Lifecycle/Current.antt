-- ===== src/Routes/Documents/Lifecycle/Current.antt =====
-- `current_version` and `status` of app/models/document.py after an approval.
use cron_qms.Prelude.{
  ℕ, ◌≡◌, refl, true, false, ◌&&◌, some, List, first-map, first-written, map, arith, count, first,
  first-holds, ok, ok-injective, >>=-eq-ok, subst, sym, ◌∙◌, count-map-le, only-count,
}
use cron_qms.Models.Document.{
  DocumentVersion, effective, is_effective, current_version, document_status,
}
use cron_qms.Db.{Env}
use cron_qms.Services.DocumentWorkflow
use cron_qms.Services.DocumentWorkflow.{superseded, submit_for_review, sign_off_review}
use cron_qms.Services.DocumentWorkflow.Rules.{approve_iff}
use cron_qms.Routes.Documents.Versions.{with_version}
use cron_qms.Routes.Documents.Lifecycle.{
  Controlled, approve, is_version, find, perform, in_effect, IsControlled,
}
use cron_qms.Routes.Documents.Lifecycle.Writes.{find-first}

module _ (s : Controlled) (h : IsControlled s) (v v' : DocumentVersion) where
  none_in_effect :
      first (is_version v.id) s.versions ≡ some v
      → is_effective v.status ≡ false
      → count in_effect (map (superseded v.id) s.versions) ≡ 0
  unfolding superseded
  none_in_effect is_first waiting = omega (
    arith,
    count-map-le in_effect (λ w. is_version v.id w && in_effect w) (superseded v.id) s.versions
        (λ w e. ground arith),
    only-count in_effect (is_version v.id) s.versions (h.unique v.id) is_first waiting,
  )

  written_is_current :
      first (is_version v.id) s.versions ≡ some v
      → is_effective v.status ≡ false
      → v'.id ≡ v.id
      → in_effect v' ≡ true
      → current_version (with_version v' (map (superseded v.id) s.versions)) ≡ some v'
  unfolding superseded current_version
  written_is_current is_first waiting same now_effective =
      first-written in_effect (is_version v'.id) v' (map (superseded v.id) s.versions)
        (none_in_effect is_first waiting)
        (subst
          (λ k. first (is_version k) (map (superseded v.id) s.versions) ≡ some (superseded v.id v))
          (sym same)
          (first-map (is_version v.id) (superseded v.id) s.versions (λ w. ground arith) is_first))
        now_effective

status-current_version :
    (versions : List DocumentVersion) {v : DocumentVersion}
    → current_version versions ≡ some v
    → document_status versions ≡ v.status
unfolding document_status
status-current_version versions {v} h = rw (h, document_status) refl

-- An approval of a controlled document makes the approved version its current one, whatever
-- version was current before; it names the approver and takes effect on the day of the approval,
-- and the status of the document is then Effective.
pub approve-current_version :
    (s : Controlled) (env : Env) (id : ℕ) {s' : Controlled}
    → IsControlled s
    → perform s (approve env id) ≡ ok s'
    → (v : DocumentVersion) × (current_version s'.versions ≡ some v)
      × (v.id ≡ id)
      × (v.approved_by ≡ some env.user.id)
      × (v.effective_date ≡ some env.today)
      × (document_status s'.versions ≡ effective)
unfolding perform find document_status
approve-current_version s env id {s'} h p =
    let (v, found, p1) = >>=-eq-ok (find s id) _ p in
    let ((d', rows, v'), done, p2) =
      >>=-eq-ok (DocumentWorkflow.approve s.document s.versions v env.user env.today env.now) _
        p1 in
    let (was, author, reviewer, _, marked, is) =
      (approve_iff v s.document s.versions env.user env.today env.now d' rows v').0 done in
    let is_first : first (is_version id) s.versions ≡ some v = ground arith in
    let is_id = first-holds (is_version id) s.versions is_first in
    let current : current_version s'.versions ≡ some v' =
      subst (λ (x : Controlled). current_version x.versions ≡ some v') (ok-injective p2)
        (subst (λ x. current_version (with_version v' x) ≡ some v') (sym marked)
          (written_is_current s h v v' (find-first s id found) (ground arith) (ground arith)
            (ground arith))) in
    (
      v',
      current,
      ground arith,
      ground arith,
      ground arith,
      status-current_version s'.versions current ∙ (ground arith),
    )
