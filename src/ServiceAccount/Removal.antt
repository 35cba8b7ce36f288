-- ===== src/ServiceAccount/Removal.antt =====
-- When Delete removes the account.
use provider_minio.Runtime.{is_ok, Error, Event, ok, err, World}
use provider_minio.Base.{if◌then◌else◌, is_empty, ◌≡◌, false, ◌∷◌, arith}
use provider_minio.Apis.ServiceAccount.{ServiceAccount}
use provider_minio.Client.Admin.{Admin, InfoServiceAccountResp}
use provider_minio.ServiceAccount.Identity.{get_external_name}
use provider_minio.ServiceAccount.Delete.{delete}

abbrev pub deleted_event : Event
deleted_event = record { reason = "Deleted"; message = "Service Account successfully deleted" }

module _ {S : Type 0} (admin : Admin S) where
  -- Where the account of the external name is found, Delete makes the call that removes it and
  -- returns its result; an event tells of the deletion exactly where that call succeeds.
  pub account_delete_found :
      (w : World S ServiceAccount) {info : InfoServiceAccountResp}
      → let key = get_external_name w.resource.meta in
        is_empty key ≡ false
        → admin.info_service_account w.outside key ≡ ok info
        → let (r, w') = delete admin w in
          let (removed, s) = admin.delete_service_account w.outside key in
          (r ≡ removed)
          × (w'.outside ≡ s)
          × (w'.events ≡ (if is_ok removed then deleted_event ∷ w.events else w.events))
  unfolding delete
  account_delete_found w named found = ground arith

  -- Where the look-up of the account fails, for whatever reason, Delete succeeds, reports the
  -- deletion and calls nothing: an account behind a passing error of the network stays in MinIO.
  pub account_delete-lookup_failed :
      (w : World S ServiceAccount) {e : Error}
      → admin.info_service_account w.outside (get_external_name w.resource.meta) ≡ err e
      → delete admin w ≡ (ok tt, record w { events = deleted_event ∷ w.events })
  unfolding delete
  account_delete-lookup_failed w f = ground arith
