-- ===== src/Go.antt =====
-- What the program uses of Go's standard library.
pub mod Strings
pub mod BigInt
pub mod Time
pub mod Maps
pub mod Hex
pub mod Base64
pub mod Strconv
