-- ===== src/Support.antt =====
-- internal/support: how a flag's text is taken apart (support.go), and the names of flags (names.go).
pub mod Unquote
pub mod Fields
pub mod Maps
pub mod Regions
pub mod Names
