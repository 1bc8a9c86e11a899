-- ===== src/CodeGen/Function/Tests.antt =====
-- The theorems on src/GenFunction.cpp at a small program.
use camll_vm.Base.{◌≡◌, ℕ, zero, suc, refl, Option, none, some, List, [], ◌∷◌, All}
use camll_vm.Opcode.{Opcode}
use camll_vm.Instruction.{ZInstruction, InstrAnnotation, is_jump_op, is_return_op}
use camll_vm.ModuleCreator.Blocks.{Graph}
use camll_vm.ModuleCreator.Dead.{
  remove_dead_instructions, remove_dead_from, next_smallest, next_max,
}
use camll_vm.ModuleCreator.Functions.{
  split_functions, init_function, take_function, next_max_inst_idx, function_arity,
}
use camll_vm.ModuleCreator.Blocks.{
  generate_function, link_blocks, enter_block, fall_through, add_edges, set_next, set_all_next,
  block_keys, insert_key, remove_unused_blocks, remove_blocks, drop_edges, to_remove, orphans,
  remove_all,
}
use camll_vm.ModuleCreator.Generate.{Module, generate, end_index, pick, generate_functions}
use camll_vm.Instruction.{get_dest_idx, code_offset_args}
use camll_vm.CodeGen.Function.Program.{IsSealedProgram, compile-IsSealedProgram}
use camll_vm.CodeGen.Straight.{
  gen_const, gen_acc, gen_arith, gen_data, closure_code, gen_call, gen_straight_at, gen_straight,
}
use camll_vm.CodeGen.Block.{
  add_block, gen_pushtrap, gen_return, gen_control, inst_code, gen_code, code_gen, gen_term_inst,
}
use camll_vm.CodeGen.Function.{
  all_fns, fns_of, Progress, get_ptrs_to, gen_block, gen_insts, gen_code_for_inst, gen_blocks,
  gen_function, gen_by_id, compile, add_prologues,
}
use camll_vm.CodeGen.Function.Fuel.{nested, compile-nested}
use camll_vm.CodeGen.Function.Closed.{IsGenerated, RefersTo, compile-IsGenerated}

abbrev plain : Opcode → List ℕ → ZInstruction
plain op args = record {
  op_num = op;
  args = args;
  idx = 0;
  orig_idx = 0;
  closure_rec_fns = [];
  switch_entries = [];
  annotation = InstrAnnotation.nothing;
}

-- `PUSHTRAP 4; CLOSURE 0 20; POPTRAP` and, from 4 on, `STOP`.
abbrev main_insts : ℕ → List ZInstruction
main_insts zero =
    plain Opcode.pushtrap (4 ∷ [])
    ∷ plain Opcode.closure (0 ∷ 20 ∷ [])
    ∷ plain Opcode.poptrap []
    ∷ []
main_insts (suc k) = plain Opcode.stop [] ∷ []

abbrev main_next : ℕ → List ℕ
main_next zero = 4 ∷ []
main_next (suc k) = []

abbrev main : Graph
main = record {
  keys = 0 ∷ 4 ∷ [];
  prev = λ k. [];
  next = main_next;
  br_block = λ k. none;
  no_br_block = λ k. none;
  insts = main_insts;
}

-- `ACC0; RETURN 1`.
abbrev callee : Graph
callee = record {
  keys = 20 ∷ [];
  prev = λ k. [];
  next = λ k. [];
  br_block = λ k. none;
  no_br_block = λ k. none;
  insts = λ k. plain Opcode.acc0 [] ∷ plain Opcode.return (1 ∷ []) ∷ [];
}

abbrev program : List (ℕ × Graph)
program = (20, callee) ∷ []

abbrev start : Progress
start = record { started = []; compiled = [] }

abbrev or_start : Option Progress → Progress
or_start none = start
or_start (some p) = p

-- A call below the others would start the function 1000.
abbrev starts_more : ℕ → Progress → Option Progress
starts_more f p = some (record p { started = 1000 ∷ p.started })

compile-nested_example :
    gen_function (nested program starts_more 2) 0 main (record { started = []; compiled = [] })
    ≡ compile program main
compile-nested_example = compile-nested program main starts_more

compile-IsGenerated_example :
    RefersTo main (or_start (compile program main)) (0 ∷ 4 ∷ [])
    × All (IsGenerated program (or_start (compile program main))) (20 ∷ [])
unfolding compile gen_function gen_by_id gen_blocks get_ptrs_to gen_block gen_insts
    gen_code_for_inst all_fns fns_of code_gen gen_code inst_code gen_straight gen_straight_at
    gen_const gen_acc gen_arith gen_data closure_code gen_call gen_control gen_pushtrap gen_return
    add_block gen_term_inst is_jump_op is_return_op
compile-IsGenerated_example =
    compile-IsGenerated program main (or_start (compile program main)) refl

abbrev placed : ℕ → InstrAnnotation → Opcode → List ℕ → ZInstruction
placed i a op args = record (plain op args) { idx = i; annotation = a }

-- `CLOSURE 0 2; STOP`, and from 2 on a function, `ACC0; RETURN 1`.
abbrev small_program : List ZInstruction
small_program =
    placed 0 InstrAnnotation.nothing Opcode.closure (0 ∷ 2 ∷ [])
    ∷ placed 1 InstrAnnotation.nothing Opcode.stop []
    ∷ placed 2 InstrAnnotation.function_start Opcode.acc0 []
    ∷ placed 3 InstrAnnotation.nothing Opcode.return (1 ∷ [])
    ∷ []

abbrev or_module : Option Module → Module
or_module none = record { functions = []; main = main }
or_module (some m) = m

abbrev small_module : Module
small_module = or_module (generate 0 0 small_program)

compile-IsSealedProgram_example :
    IsSealedProgram (or_start (compile small_module.functions small_module.main))
unfolding generate end_index pick split_functions init_function take_function next_max_inst_idx
    function_arity generate_functions generate_function link_blocks enter_block fall_through
    add_edges set_next set_all_next block_keys insert_key remove_unused_blocks remove_blocks
    drop_edges to_remove orphans remove_all remove_dead_instructions remove_dead_from next_smallest
    next_max get_dest_idx code_offset_args compile gen_function gen_by_id gen_blocks get_ptrs_to
    gen_block gen_insts gen_code_for_inst all_fns fns_of code_gen gen_code inst_code gen_straight
    gen_straight_at gen_const gen_acc gen_arith gen_data closure_code gen_call gen_control
    gen_return add_block gen_term_inst is_jump_op is_return_op add_prologues
compile-IsSealedProgram_example =
    compile-IsSealedProgram 0 0 small_program small_module
      (or_start (compile small_module.functions small_module.main)) refl
      (
        record {
          front = placed 0 InstrAnnotation.block_start Opcode.closure (0 ∷ 2 ∷ []) ∷ [];
          last = placed 1 InstrAnnotation.nothing Opcode.stop [];
          insts_lem = refl;
          inner_lem = (refl, tt);
          forward_lem = (λ h. cc, (λ h. cc, tt));
        },
        tt,
      )
      (
        (
          record {
            front = placed 2 InstrAnnotation.block_start Opcode.acc0 [] ∷ [];
            last = placed 3 InstrAnnotation.nothing Opcode.return (1 ∷ []);
            insts_lem = refl;
            inner_lem = (refl, tt);
            forward_lem = (λ h. cc, (λ h. cc, tt));
          },
          tt,
        ),
        tt,
      )
      refl
