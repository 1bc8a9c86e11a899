-- ===== src/CodeGen.antt =====
-- The code generator for one basic block (src/GenBlock.cpp): what each instruction emits, and the
-- LLVM blocks of a `GenBlock`. LLVM itself is not modelled: emitted code is data.
pub mod Emit
pub mod Straight
pub mod Block
pub mod Run
pub mod Function
pub mod Handled
pub mod Families
pub mod Sealed
pub mod Calls
pub mod Terminators
mod Tests
