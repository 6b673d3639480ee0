-- ===== src/Strconv.antt =====
-- What the proxy uses of Go's `strconv`: FormatInt, FormatUint and ParseInt in base 10 and 64 bits.
-- A parse error is `none`.
mod Defs
mod Laws
pub use Laws.*
pub use Defs.{is_digit, signed}
unfoldable pub use Defs.{fold_digits, digits, format_uint, format_int, parse_magnitude, parse_int}
