-- ===== src/Model.antt =====
-- Tagging the spend of a model (internal/model/costtag.go). The control plane is given; the clients of
-- the service and the mock are not modelled.
pub mod Names
pub mod Resolver
pub mod Billed
pub mod Resolved
