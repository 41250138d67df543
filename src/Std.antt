-- ===== src/Std.antt =====
-- What the program uses of Rust's standard library: maps, the clock, integers and text.
pub mod Map
pub mod Clock
pub mod Int
pub mod Net
pub mod Text
pub mod Unicode
