-- ===== src/Api.antt =====
-- rust/src/api.rs, in parts: the specs that the crate ships and their comparison, and the checks on
-- node prefixes. The verification entry points of the same file are in Membership.antt.
pub mod Specs
pub mod Prefix
