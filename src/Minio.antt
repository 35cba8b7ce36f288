-- ===== src/Minio.antt =====
-- operator/minioutil: from a provider configuration to a MinIO client, and the part that the five
-- connectors share.
pub mod Tls
pub mod Endpoints
pub mod Connect
pub mod MutualTls
