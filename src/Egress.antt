-- ===== src/Egress.antt =====
-- apps/egress-proxy/main.go: the proxy through which containers reach the internet.
pub mod Address
pub mod Proxy
mod Tests
