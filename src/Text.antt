-- ===== src/Text.antt =====
-- What the program uses of Go's `strings`, `unicode` and `unicode/utf8` packages, over byte strings.
mod Utf8
pub mod Strings
pub mod HostPort
pub use Utf8.{CaseTable}
unfoldable pub use Utf8.{
  to_lower_rune, is_space_rune, decode_rune, runes_skip, runes, encode_rune, encode,
}
unfoldable pub use Strings.{
  to_lower, trim_space, is_blank, has_prefix, index, contains, contains_byte, lt_bytes,
}
