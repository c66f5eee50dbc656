-- ===== src/GoLib.antt =====
-- What the program uses of Go's standard library: lexical paths, file modes, decimal numbers.
pub mod Path
pub mod FileMode
pub mod Decimal
pub mod Strings
