-- ===== src/Cmd/Scheme.antt =====
-- apis/init.go and the functions addKnownTypes of apis/minio/v1beta1 and apis/provider/v1.
use provider_minio.Base.{[], ◌∷◌}
use provider_minio.Runtime.{M, ok}
use provider_minio.Apis.Register.{
  group, version, known_types, provider_group, provider_version, provider_known_types,
}
use provider_minio.Client.Host.{Host}
use provider_minio.Setup.Controllers.{each}

module _ {S R : Type 0} (host : Host S) where
  unfoldable pub add_minio_types : M S R (Unit {0})
  add_minio_types w =
      (ok tt, record w { outside = host.add_known_types w.outside group version known_types })

  unfoldable pub add_provider_types : M S R (Unit {0})
  add_provider_types w = (
    ok tt,
    record w {
      outside = host.add_known_types w.outside provider_group provider_version provider_known_types;
    },
  )

  -- `AddToScheme`
  unfoldable pub add_to_scheme : M S R (Unit {0})
  unfolding each add_minio_types add_provider_types
  add_to_scheme = each (add_minio_types ∷ add_provider_types ∷ [])
