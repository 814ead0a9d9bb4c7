-- ===== src/Utils.antt =====
-- src/utils: the functions on strings.
pub mod UrlEncode
pub mod StringBuffer
