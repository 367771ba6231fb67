-- ===== src/Tokens.antt =====
-- Access tokens (src/auth/): what a token is and which parameters are accepted, the store with its
-- cache, and the operations of the service, which wait for the store.
pub mod Validation
pub mod Store
pub mod Service
pub mod Rules
pub mod Formats
pub mod Marked
pub mod Guarded
pub mod Revoked
pub mod Finds
pub mod Finish
pub mod Sequential
pub mod Races
pub mod Issued
pub mod Queries
pub mod Listed
