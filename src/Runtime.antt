-- ===== src/Runtime.antt =====
-- The runtime library that the generated code calls (src/StdLib/CStdLib.c).
pub mod State
pub mod Ints
pub mod Data
pub mod Frames
pub mod Closures
pub mod Objects
pub mod Exceptions
pub mod Sample
mod Tests
