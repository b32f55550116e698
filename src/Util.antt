-- ===== src/Util.antt =====
-- libtetrisutil: core/src/libtetrisutil/name.c, the rule for player names.
pub mod Name
pub mod Fold
pub mod Tests
