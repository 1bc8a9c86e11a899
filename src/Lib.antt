-- ===== src/Lib.antt =====
-- A model of CamllVM, a just-in-time compiler from the bytecode of OCaml's ZINC machine to LLVM.
--
-- The program reads the code section of a bytecode file into instructions, marks where functions
-- and basic blocks begin, cuts the instructions into functions and blocks, and emits LLVM code for
-- each block. The emitted code mostly calls a runtime written in C, which works on the
-- accumulator, the environment, the stack and the extra arguments of the ZINC machine.
--
-- Files and the code that they are about:
--   Opcode, Instruction      include/Instructions.hpp: the opcodes with their arities, ZInstruction
--                            and its tests (isJumpInst is is_jump_inst, and so on).
--   Endian                   include/EndianUtils.hpp.
--   Reader                   src/Instructions.cpp, readInstructions.
--   Annotate                 src/Instructions.cpp, annotateNodes.
--   ModuleCreator            src/GenModuleCreator.cpp: Dead is removeDeadInstructions, Functions is
--                            initFunction and the loop of generate, Blocks is generateFunction,
--                            setNext and removeUnusedBlocks, and Generate is generate.
--   CodeGen                  src/GenBlock.cpp: Emit has the emitted code as data, Straight the
--                            instructions that emit calls alone, Block the others, CodeGen,
--                            genTermInst and addBlock. Function is src/GenFunction.cpp, CodeGen
--                            and generateRestartFunction, and getPtrToFunc. Run has what emitted
--                            code does on the machine of Runtime, Run/Spec the integer ZINC
--                            machine, which it is to behave like, Run/Graph that machine on
--                            the blocks of a function, and Run/Program on those of a module.
--   Context                  src/Context.cpp, init from readInstructions on, generateMod and
--                            compile, and src/main.cpp.
--   Runtime                  src/StdLib/CStdLib.c: State is the machine, Ints the integers, Data
--                            stack, blocks and fields, Frames calls, returns, traps and primitives,
--                            Closures closures and partial application, Objects the method tables,
--                            Exceptions the contexts of handlers.
--   Base                     shared helpers: tests, lists over native numbers, words, bits.
-- The children of a file named for a component hold its proofs; the files called Tests, but for
-- Base/Tests, hold runs at concrete inputs.
--
-- Representation. A 64-bit word and an int32_t are their bit patterns, with the wrap-around
-- written out. A machine is a record passed from state to state; its stack and its heap are
-- functions from addresses to words. A fault of the program (an access out of range, a null
-- pointer, an exception of the C++ library, exit) is `none`.
--
-- Parameters. `Ocaml` has what the headers and the runtime of OCaml give: the macros on values
-- and headers, allocation, the growth of the stack, doubles, bytes and the primitives. `IsStandard`
-- states the documented layout of values, `IsAllocator` that a new block is in range and does
-- not touch the machine but for its heap. Runtime/Sample has a concrete instance of both.
--
-- Fuel. read_loop has one unit for each word of the code section and one for the end: each
-- round reads a word. split_functions takes an instruction off its queue in each round. The search
-- of getDynMet halves its interval, and has one unit for each field. removeUnusedBlocks takes a
-- block off the map in each round that calls for another one. compile has one unit for each
-- function of the module and one more; each call of CodeGen starts a function. In
-- Run, a bound counts the blocks that are entered, and the search of getDynMet has one of its
-- own, which any number may be.
--
-- Not modelled: the parsing of the command line, the opening of bytecode files and the start of
-- the OCaml runtime, LLVM and its passes, the tracing functions of the runtime, printing. The
-- integer ZINC machine of Run has the instructions on constants, integers and the stack, the
-- branches and RETURN: it leaves out the environment, blocks and fields, globals, closures, GRAB
-- and applications, traps and exceptions, objects, primitives and SWITCH, and stops at them.
pub mod Annotate
pub mod Base
pub mod CodeGen
pub mod Context
pub mod Endian
pub mod Instruction
pub mod ModuleCreator
pub mod Opcode
pub mod Reader
pub mod Runtime
