-- ===== src/Auth.antt =====
-- packages/auth: the stores in memory, and the composite client policy of the authorization
-- server.
pub mod Credentials
pub mod Denylist
pub mod Codes
pub mod Pending
pub mod Clients
pub mod Composite
mod Tests
pub mod AuthCredential
