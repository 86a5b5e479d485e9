-- ===== src/Go.antt =====
-- What the program uses of Go's standard library: strings and unicode, encoding/json on values,
-- and path/filepath's `Match`.
pub mod Strings
pub mod Json
pub mod RawMap
pub mod Struct
pub mod Glob
pub mod Format
