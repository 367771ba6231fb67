-- ===== src/UserMapping.antt =====
-- From the claims of an identity provider to scopes (src/auth/user-mapping/).
pub mod Service
pub mod Sorted
pub mod Chosen
pub mod Stale
