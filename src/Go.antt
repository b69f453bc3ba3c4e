-- ===== src/Go.antt =====
-- The parts of Go's standard library that the program computes with.
pub mod Strings
pub mod Strconv
pub mod Netip
pub mod Regexp
pub mod Net
pub mod Sort
