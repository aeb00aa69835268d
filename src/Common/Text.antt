-- ===== src/Common/Text.antt =====
-- Texts as lists of code points, the decimal print of numbers, and longest fronts.
mod Defs
mod Decimal
mod Span
mod Strings
mod Order
unfoldable pub use Defs.{
  Text, codes, is_digit, format_uint, format_int, take_while, drop_while, digits_onto,
}
pub use Decimal.*
pub use Span.*
unfoldable pub use Strings.{
  split, parts, cut_prefix, is_some, has_suffix, trim_left, keep_right, trim_right, trim,
  has_prefix, contains, cut_at, cons_front, join_texts, same_text, less_text,
}
pub use Order.*
