-- ===== src/Controller.antt =====
-- internal/controller/microservice_controller.go: the reconciler of microservices.
pub mod Objects
pub mod Changes
pub mod Status
pub mod Reconcile
pub mod Events
