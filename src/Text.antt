-- ===== src/Text.antt =====
-- What the source uses of Go's `strings`, `unicode/utf8`, `path` and `fmt` packages, on texts that
-- are valid UTF-8 (what Go's JSON decoder and string literals give).
pub mod Trim
pub mod Cut
pub mod Numbered
pub mod Split
