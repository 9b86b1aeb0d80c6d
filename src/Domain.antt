-- ===== src/Domain.antt =====
-- crates/domain: permission resolution, validation and pairing codes, as pure functions.
pub mod Discord
