-- ===== src/VersionSpecs.antt =====
-- internal/httpapi/product_spec.go: the route, the health checks and the update policy of a product
-- version.
pub mod Fields
pub mod Listeners
pub mod Normalize
pub mod Probe
pub mod Whole
mod Tests
