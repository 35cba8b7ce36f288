-- ===== src/Legacy.antt =====
-- internal/clients and internal/controller/user: an older client factory and an older controller of
-- users, which the command does not wire in.
pub mod Config
pub mod Consolidated
pub mod User
pub mod Match
pub mod Setup
