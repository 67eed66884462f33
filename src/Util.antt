-- ===== src/Util.antt =====
-- The library's std::to_string of an unsigned number, and base64Encode, trimmed, hasSuffix,
-- readWholeFile and writeFileAtomically (daemon/src/util.cpp).
pub mod Decimal
pub mod Base64
pub mod Text
pub mod Files
