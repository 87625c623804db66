-- ===== src/Routes/Alerts/Slots.antt =====
-- The two picture slots of an alert.
use cron_qms.Prelude.{
  ℕ, ◌≡◌, refl, ap, subst, Bool, true, false, not, ◌&&◌, ◌||◌, Option, none, some, List, [], ◌∷◌,
  ◌==◌, arith, All, All-map, All-append, All-filter, overwrite-All, first, first-none, first-All,
  Result, ok, ok-injective, >>=-eq-ok, raise_if, http, ltb,
}
use cron_qms.Models.Alert.{AlertImage}
use cron_qms.Core.Permissions.{alert_create}
use cron_qms.Db.{Db, Env}
use cron_qms.Routes.Access.{require}
use cron_qms.Routes.Documents.Versions.{UploadFile}
use cron_qms.Routes.Nested.Slots.{
  DistinctSlots, free-DistinctSlots, filter-DistinctSlots, overwrite-DistinctSlots,
}
use cron_qms.Routes.Alerts.{alert_or_404}
use cron_qms.Routes.Alerts.Images.{is_slot, new_image, upsert, upload_image, deleted, delete_image}

abbrev is_position : ℕ → Bool
is_position p = (p == 1) || (p == 2)

-- An alert has at most one image in each slot, and every image stands in slot 1 or 2.
pub record HasSlots (images : List AlertImage) : Type 0 where
  pub distinct : DistinctSlots (λ (i : AlertImage). i.alert_id) (λ i. i.position) images
  pub positions : All (λ (i : AlertImage). is_position i.position ≡ true) images

upsert-HasSlots :
    (env : Env) (alert_id position : ℕ) (file : UploadFile) (rows : List AlertImage)
    (existing : Option AlertImage)
    → first (is_slot alert_id position) rows ≡ existing
    → is_position position ≡ true
    → HasSlots rows
    → HasSlots (upsert env alert_id position file rows existing)
unfolding new_image
upsert-HasSlots env alert_id position file rows none found is_pos slots = record {
  distinct =
      free-DistinctSlots (λ (i : AlertImage). i.alert_id) (λ i. i.position)
        (new_image env alert_id position file) rows
        (All-map (λ y. is_slot alert_id position y ≡ false)
          (λ (y : AlertImage). (y.alert_id == alert_id && y.position == position) ≡ false) rows
          (λ y h. h) (first-none (is_slot alert_id position) rows found))
        slots.distinct;
  positions =
      All-append (λ (i : AlertImage). is_position i.position ≡ true) rows
        (new_image env alert_id position file ∷ []) slots.positions (is_pos, tt);
}
upsert-HasSlots env alert_id position file rows (some existing) found is_pos slots = record {
  distinct =
      overwrite-DistinctSlots (λ (i : AlertImage). i.alert_id) (λ i. i.position)
        (is_slot alert_id position) _ existing rows found refl refl slots.distinct;
  positions =
      overwrite-All (λ (i : AlertImage). is_position i.position ≡ true) (is_slot alert_id position)
        _ rows
        (first-All (λ (i : AlertImage). is_position i.position ≡ true) (is_slot alert_id position)
          rows slots.positions found)
        slots.positions;
}

deleted-HasSlots :
    (db : Db) (image : Option AlertImage) → HasSlots db.images → HasSlots (deleted db image).images
deleted-HasSlots db none slots = slots
deleted-HasSlots db (some image) slots = record {
  distinct =
      filter-DistinctSlots (λ (i : AlertImage). i.alert_id) (λ i. i.position)
        (λ i. not (i.id == image.id)) db.images slots.distinct;
  positions =
      All-filter (λ (i : AlertImage). is_position i.position ≡ true) (λ i. not (i.id == image.id))
        db.images slots.positions;
}

-- The requests that write images
pub data Request : Type 0 where
  upload : ℕ → ℕ → UploadFile → Request
  drop : ℕ → ℕ → Request

unfoldable pub handle : Env → ℕ → Db → Request → Result Db
unfolding upload_image delete_image
handle env max db (upload alert_id position file) = upload_image env max db alert_id position file
handle env max db (drop alert_id image_id) = delete_image env db alert_id image_id

-- Every request for the images of alerts that succeeds keeps at most one image in each slot of each
-- alert, and every image in slot 1 or 2.
pub handle-HasSlots :
    (env : Env) (max : ℕ) (db : Db) (r : Request) {db' : Db}
    → HasSlots db.images
    → handle env max db r ≡ ok db'
    → HasSlots db'.images
unfolding handle upload_image delete_image
handle-HasSlots env max db (upload alert_id position file) {db'} slots h =
    let (_, _, h1) = >>=-eq-ok (require alert_create env db) _ h in
    let (a, _, h2) = >>=-eq-ok (alert_or_404 env db alert_id) _ h1 in
    let (_, in_slot, h3) =
      >>=-eq-ok (raise_if (not (is_position position)) (http 303 "Invalid image slot")) _ h2 in
    let (_, _, h4) = >>=-eq-ok (raise_if (file.size == 0) (http 303 "Empty file")) _ h3 in
    let (_, _, h5) =
      >>=-eq-ok (raise_if (ltb max file.size) (http 303 "File exceeds maximum allowed size")) _
        h4 in
    let is_pos : is_position position ≡ true = ground arith in
    subst HasSlots (ap (λ (d : Db). d.images) (ok-injective h5)) (
      upsert-HasSlots env a.id position file db.images (first (is_slot a.id position) db.images)
        refl is_pos slots)
handle-HasSlots env max db (drop alert_id image_id) {db'} slots h =
    let (_, _, h1) = >>=-eq-ok (require alert_create env db) _ h in
    let (a, _, h2) = >>=-eq-ok (alert_or_404 env db alert_id) _ h1 in
    subst HasSlots (ap (λ (d : Db). d.images) (ok-injective h2))
      (deleted-HasSlots db (first (λ i. i.id == image_id && i.alert_id == a.id) db.images) slots)
