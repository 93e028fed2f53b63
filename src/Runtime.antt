-- ===== src/Runtime.antt =====
-- internal/runtime/spec.go: the specification of a container, its checks and the names of its
-- resources.
pub mod Float
pub mod Value
pub mod Result
pub mod Patterns
pub mod Resources
pub mod Secrets
pub mod Dependencies
pub mod Settings
pub mod Volumes
pub mod Validate
pub mod Fresh
pub mod Names
mod Tests
