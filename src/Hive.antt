-- ===== src/Hive.antt =====
-- The signed records of a hive: memberships, revocations, endpoint records and contacts.
pub mod Ids
pub mod Membership
pub mod Revocation
pub mod Record
pub mod Wire
pub mod Authorized
pub mod Merge
pub mod Contact
pub mod Reachability
pub mod Tests
