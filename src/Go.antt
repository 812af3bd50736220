-- ===== src/Go.antt =====
-- What the program uses of Go's standard library: strings and bytes, strconv, float64.
pub mod Strings
pub mod Spaces
pub mod Strconv
pub mod Float
pub mod Paths
pub mod Files
