-- ===== src/ModuleCreator.antt =====
-- `GenModuleCreator` (src/GenModuleCreator.cpp): a program's instructions are cut into functions,
-- dead instructions of the main function are dropped, and each function becomes a graph of blocks.
mod Order
mod Tests
pub mod Dead
pub mod Functions
pub mod Blocks
pub mod Generate
