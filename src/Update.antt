-- ===== src/Update.antt =====
-- crates/supgang/src/update: the parts of updating that decide on state without files.
pub mod Delivery
