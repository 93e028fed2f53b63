-- ===== src/Selection.antt =====
-- The resources that a user chooses for an application: `selectedRuntimeSpec` and `selectedRouteSpec` of
-- internal/httpapi/server.go, and `runtimeSpecForUpdate` of internal/httpapi/app_lifecycle.go.
pub mod Steps
pub mod Update
pub mod Contract
pub mod Routes
mod Tests
