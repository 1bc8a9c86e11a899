-- ===== src/Reader/Tests.antt =====
-- The theorems on `readInstructions` (src/Instructions.cpp) at a small code section.
use camll_vm.Base.{ℕ, refl, length, All, true, false, Option, none, some, List, [], ◌∷◌, arith}
use camll_vm.Endian.{to_big_endian}
use camll_vm.Opcode.{arity, all_op_codes}
use camll_vm.Instruction.{ZInstruction, code_offset_args}
use camll_vm.Reader.{
  next_word, read_args, read_offsets, read_one, read_loop, idx_at, adjust_arg, adjust_inst, adjust,
  start, read_instructions,
}
use camll_vm.Reader.Numbering.{IsNumbered, read_instructions-IsNumbered}
use camll_vm.Reader.Resolved.{IsResolved}
use camll_vm.Reader.Bounds.{read_instructions-IsResolved}
use camll_vm.Reader.Fuel.{Ends, read_loop-Ends}

-- `ACC0; BRANCH` to the next instruction; `STOP`.
abbrev section : List ℕ
section = 0 ∷ 84 ∷ 1 ∷ 143 ∷ []

abbrev or_empty : Option (List ZInstruction) → List ZInstruction
or_empty none = []
or_empty (some insts) = insts

abbrev read : List ZInstruction
read = or_empty (read_instructions false section 16)

read_instructions-IsNumbered_example : IsNumbered 0 read
unfolding read_instructions read_loop read_one next_word read_args read_offsets adjust adjust_inst
    adjust_arg idx_at arity all_op_codes code_offset_args to_big_endian
read_instructions-IsNumbered_example = read_instructions-IsNumbered false section 16 read refl

read_loop-Ends_example : Ends true 4 (start section) (read_loop true 5 4 (start section))
read_loop-Ends_example = read_loop-Ends true 5 4 (start section) (omega arith)

-- The branch leads to the instruction 2.
read_instructions-IsResolved_example : All (IsResolved (length read)) read
unfolding read_instructions read_loop read_one next_word read_args read_offsets adjust adjust_inst
    adjust_arg idx_at arity all_op_codes code_offset_args to_big_endian
read_instructions-IsResolved_example = read_instructions-IsResolved false section 16 read refl
