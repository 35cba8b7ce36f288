-- ===== src/Policy/Events.antt =====
-- What the controller tells of its calls: the events of Update and Delete.
use provider_minio.Base.GoMap.{GoMap, has_key}
use provider_minio.Runtime.{errorf, Event, deleting, ok, err, World}
use provider_minio.Base.{String, ◌≡◌, false, ◌∷◌, arith}
use provider_minio.Apis.Policy.{Policy}
use provider_minio.Client.Admin.{Admin}
use provider_minio.Client.Iam.{Iam}
use provider_minio.Policy.Update.{update}
use provider_minio.Policy.Delete.{delete}
use provider_minio.Policy.Observe.{set_condition}

abbrev pub deleted_event : Event
deleted_event = record { reason = "Deleted"; message = "Policy successfully deleted" }

abbrev pub updated_event : Event
updated_event = record { reason = "Updated"; message = "Policy successfully updated" }

module _ {S : Type 0} (admin : Admin S) where
  -- Delete makes one call, and returns its result; the event that tells of a successful deletion is
  -- emitted also where that call fails.
  pub delete_announces :
      (w : World S Policy)
      → let (r, w') = delete admin w in
        let (removed, s) = admin.remove_canned_policy w.outside w.resource.meta.name in
        (r ≡ removed)
        × (w'.outside ≡ s)
        × (w'.events ≡ deleted_event ∷ w.events)
        × (w'.resource ≡ set_condition deleting w.resource)
  unfolding delete
  delete_announces w = ground arith

module _ {S P : Type 0} (admin : Admin S) (iam : Iam P) where
  -- Update fails and changes nothing on a policy that MinIO does not list.
  pub update_missing :
      (w : World S Policy) (policies : GoMap String)
      → admin.list_canned_policies w.outside ≡ ok policies
      → has_key w.resource.meta.name policies ≡ false
      → update admin iam w ≡ (err (errorf "policy does not exist"), w)
  unfolding update
  update_missing w policies l h = ground arith
