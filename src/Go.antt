-- ===== src/Go.antt =====
-- What the program uses of Go's standard library.
pub mod Strings
pub mod Net
pub mod Strconv
pub mod Format
pub mod Bytes
pub mod Regexp
pub mod Sample
