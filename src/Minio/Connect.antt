-- ===== src/Minio/Connect.antt =====
-- What the `Connect` methods of the five connectors share: the use of the provider configuration is
-- tracked, the type is asserted, and the configuration is read.
use provider_minio.Runtime.{
  Error, Result, panic, M, fail, ◌>>=◌, ◌>>◌, query, call, get, ManagedSpec,
}
use provider_minio.Base.{none, some}
use provider_minio.Apis.ProviderConfig.{ProviderConfig}
use provider_minio.Apis.Managed.{Managed, Kind}
use provider_minio.Client.Kube.{Kube}

module _ {S : Type 0} (kube : Kube S) where
  -- `getProviderConfig`: without a reference a nil pointer is read.
  unfoldable pub get_provider_config : ManagedSpec → S → Result ProviderConfig
  get_provider_config spec s = elim spec.provider_config_reference [
    | none ↦ panic
    | some name ↦ kube.get_provider_config s name
  ]

  -- The first part of `Connect`.
  unfoldable pub open_config :
      {R : Type 0} → Kind R → Error → (R → ManagedSpec) → M S Managed ProviderConfig
  unfolding get_provider_config
  open_config kind e spec_of = do
    mg ← get
    call (λ s. kube.track s mg)
    elim (kind.cast mg) [ none ↦ fail e | some r ↦ query (get_provider_config (spec_of r)) ]
