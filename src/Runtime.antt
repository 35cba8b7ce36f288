-- ===== src/Runtime.antt =====
-- What the controllers share of their runtime: errors, events and conditions, the objects' common
-- fields, and the monad in which every handler runs. The types of the Kubernetes and Crossplane
-- libraries are cut down to the fields that the program reads or writes.
mod Values
mod Exec
mod Meta
pub mod Try
unfoldable pub use Values.*
pub use Exec.*
unfoldable pub use Meta.*
