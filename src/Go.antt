-- ===== src/Go.antt =====
-- What the services take from Go and its libraries, so far as the program can see it: errors,
-- times, float64 arithmetic, JSON values and HTTP messages. The children hold them.
mod Errors
mod Platforms
mod Jsons
mod Strconv
pub mod Digests
pub mod Texts
pub mod Jwts
pub mod Decimals
mod Http
pub mod Sample
pub use Errors.{Error, message, no_rows, null_scan, foreign_key, mismatch, driver}
pub use Errors.{Result, ok, err, ◌>>=◌, >>=-ok, Time, zero_time, is_zero}
pub use Platforms.*
pub use Jsons.{Json, null, bool, int, float, str, time, arr, obj, Items, nil, cons}
pub use Jsons.{Fields, end, field}
unfoldable pub use Jsons.{get, as_int64, as_float, as_string, as_time, fields_of}
pub use Http.{
  Request, Response, Handler, status_of, decode_body, header_of, mux-found, method_cases,
  AnsweredBy, mux-AnsweredBy, AnsweredBy-reply,
}
unfoldable pub use Strconv.{parse_int, digits_of, format_nat}
unfoldable pub use Http.{write_json, write_error, method, mux}
