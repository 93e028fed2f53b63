-- ===== src/Products.antt =====
-- Products and the access to apps: internal/httpapi/version_lifecycle.go and app_access_policy.go.
pub mod Versions
pub mod Access
mod Tests
