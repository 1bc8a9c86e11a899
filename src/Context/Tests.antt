-- ===== src/Context/Tests.antt =====
-- The erasing of a range of src/Context.cpp at concrete vectors.
use camll_vm.Base.{
  ℕ, ◌+◌, ◌-◌, ◌≤◌, ◌≡◌, refl, Bool, true, false, Option, none, some, List, [], ◌∷◌, get_elem?, ltb,
  if◌then◌else◌,
}
use camll_vm.Opcode.{Opcode}
use camll_vm.Instruction.{ZInstruction, InstrAnnotation}
use camll_vm.Context.{position, erase, erase_range, Options, Reached, init, run_steps, run_main}
use camll_vm.Opcode.{arity, all_op_codes}
use camll_vm.Endian.{to_big_endian}
use camll_vm.Instruction.{get_dest_idx, code_offset_args, is_jump_op, is_return_op}
use camll_vm.Reader.{
  next_word, read_args, read_offsets, read_one, read_loop, idx_at, adjust_arg, adjust_inst, adjust,
  read_instructions,
}
use camll_vm.Annotate.{annotate_nodes, annotate_from, annotate_one, mark, mark_all}
use camll_vm.ModuleCreator.Dead.{
  remove_dead_instructions, remove_dead_from, next_smallest, next_max,
}
use camll_vm.ModuleCreator.Functions.{
  split_functions, init_function, take_function, next_max_inst_idx, function_arity,
}
use camll_vm.ModuleCreator.Blocks.{
  generate_function, link_blocks, enter_block, fall_through, add_edges, set_next, set_all_next,
  block_keys, insert_key, remove_unused_blocks, remove_blocks, drop_edges, to_remove, orphans,
  remove_all,
}
use camll_vm.ModuleCreator.Generate.{generate, end_index, pick, generate_functions}
use camll_vm.CodeGen.Straight.{
  gen_const, gen_acc, gen_arith, gen_data, closure_code, gen_call, gen_straight_at, gen_straight,
}
use camll_vm.CodeGen.Block.{
  add_block, gen_return, gen_control, inst_code, gen_code, code_gen, gen_term_inst,
}
use camll_vm.CodeGen.Function.{
  all_fns, fns_of, get_ptrs_to, gen_block, gen_insts, gen_code_for_inst, gen_blocks, gen_function,
  gen_by_id, compile, add_prologues,
}
use camll_vm.Context.Erase.{Bounds, erase_range-keeps}

abbrev pushing : ℕ → ZInstruction
pushing i = record {
  op_num = Opcode.push;
  args = [];
  idx = i;
  orig_idx = i;
  closure_rec_fns = [];
  switch_entries = [];
  annotation = InstrAnnotation.nothing;
}

abbrev three : List ZInstruction
three = pushing 0 ∷ pushing 1 ∷ pushing 2 ∷ []

erase_range-keeps_example :
    (b : ℕ) × (e : ℕ) × Bounds 3 1 b
    × Bounds 3 2 e
    × (b ≤ e)
    × (e ≤ 3)
    × (get_elem? (pushing 0 ∷ pushing 2 ∷ []) 1
        ≡ get_elem? three (if ltb 1 b then 1 else 1 - b + e))
unfolding erase_range position erase
erase_range-keeps_example = erase_range-keeps 1 2 1 three (pushing 0 ∷ pushing 2 ∷ []) refl refl

-- A range from 0 on is counted from the end: `0,2` is a fault.
from_zero : erase_range 0 2 three ≡ none
unfolding erase_range position erase
from_zero = refl

abbrev no_file : Options
no_file = record {
  well_formed = true;
  help = false;
  show_unimplemented = false;
  has_file = false;
  erased = some (0, 0);
  from = 0;
  step = 4;
}

without_file : run_main false [] 0 no_file ≡ some (Reached.exits 1)
unfolding run_main
without_file = refl

-- Three instructions: `ACC0; PUSH; STOP`.
abbrev to_code : Options
to_code = record {
  well_formed = true;
  help = false;
  show_unimplemented = false;
  has_file = true;
  erased = some (0, 0);
  from = 0;
  step = 4;
}

abbrev has_code : Option Reached → Bool
has_code (some (Reached.has_code p)) = true
has_code r = false

abbrev code_section : List ℕ
code_section = 0 ∷ 9 ∷ 143 ∷ []

gets_to_code : has_code (run_main false code_section 12 to_code) ≡ true
unfolding run_main run_steps init erase_range erase position read_instructions read_loop read_one
    next_word read_args read_offsets adjust adjust_inst adjust_arg idx_at arity all_op_codes
    to_big_endian annotate_nodes annotate_from annotate_one mark mark_all generate end_index pick
    generate_functions split_functions init_function take_function next_max_inst_idx function_arity
    generate_function link_blocks enter_block fall_through add_edges set_next set_all_next
    block_keys insert_key remove_unused_blocks remove_blocks drop_edges to_remove orphans remove_all
    remove_dead_instructions remove_dead_from next_smallest next_max get_dest_idx code_offset_args
    compile gen_by_id gen_function gen_blocks get_ptrs_to gen_block gen_insts gen_code_for_inst
    all_fns fns_of code_gen gen_code inst_code gen_straight gen_straight_at gen_const gen_acc
    gen_arith gen_data closure_code gen_call gen_control gen_return add_block gen_term_inst
    is_jump_op is_return_op add_prologues
gets_to_code = refl
