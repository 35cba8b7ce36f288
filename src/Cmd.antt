-- ===== src/Cmd.antt =====
-- cmd/provider/main.go: what `main` does up to the start of the manager, with the types that it registers
-- (apis/init.go) and the roles that the provider gives itself.
pub mod Rbac
pub mod Ensured
pub mod Scheme
pub mod Main
pub mod Started
