-- ===== src/Util.antt =====
-- src/util: hexadecimal text, query strings, JSON output.
pub mod DebugLog
pub mod Hex
pub mod QueryString
pub mod JsonBuilder
