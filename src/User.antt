-- ===== src/User.antt =====
-- packages/user: the rows of users and their store, the service over it, the federated identities
-- in memory, and the masks of contact data.
pub mod Types
pub mod Patch
pub mod Store
pub mod Service
pub mod Federated
pub mod Masking
pub mod Totp
