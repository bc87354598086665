-- ===== src/Golang.antt =====
-- What the program takes from Go's standard library.
pub mod Binary
pub mod BigInt
pub mod ByteSlice
pub mod Decimal
pub mod Int64
pub mod Netip
pub mod Text
