-- ===== src/Apis/Conditions.antt =====
-- apis/minio/v1beta1/minio_types.go. The time of the transition is left out.
use provider_minio.Runtime.{Condition, not_ready}

unfoldable pub updating : Condition
updating = not_ready "Updating" "The service is being updated"

unfoldable pub disabled : Condition
disabled = not_ready "Disabled" "The service is disabled"
