-- ===== src/CodeGen/Run/Tests.antt =====
-- The theorems on generated code and the integer ZINC machine at a small block.
use camll_vm.Base.{
  ◌==◌, Option, ℕ, ◌^◌, ◌-◌, ◌≡◌, refl, Bool, true, false, some, none, List, [], ◌∷◌, ◌++◌, arith,
  if◌then◌else◌,
}
use camll_vm.Opcode.{Opcode}
use camll_vm.Instruction.{ZInstruction, InstrAnnotation, is_jump_op, is_return_op}
use camll_vm.Runtime.State.{Machine, tagged}
use camll_vm.Runtime.Sample.{sample, sample-IsStandard, at_rest}
use camll_vm.CodeGen.Emit.{Code, label}
use camll_vm.CodeGen.Block.{
  new_block, emit, gen_code, add_block, gen_cond_br, gen_return, gen_control, inst_code, code_gen,
  gen_term_inst, latest_label,
}
use camll_vm.CodeGen.Run.{Process, Exit, run_calls, run_block}
use camll_vm.CodeGen.Run.Spec.{Value, Zinc, zinc_base, zinc_step, zinc_run, jumps}
use camll_vm.CodeGen.Run.Steps.{Represents}
use camll_vm.CodeGen.Run.Simulation.{zinc_run-simulated}
use camll_vm.CodeGen.Straight.{
  gen_const, gen_acc, gen_arith, gen_data, closure_code, gen_call, gen_straight_at, gen_straight,
}
use camll_vm.ModuleCreator.Blocks.{Graph}
use camll_vm.Runtime.Frames.{handle_return}
use camll_vm.CodeGen.Function.{
  all_fns, fns_of, Progress, get_ptrs_to, gen_block, gen_insts, gen_code_for_inst, gen_blocks,
  gen_function, add_prologues, compiled_of,
}
use camll_vm.CodeGen.Run.Graph.{
  goes_ahead, zinc_end, zinc_block, zinc_graph, run_function, taken_up,
}
use mathlib.Core.List.{Memᴰ}
use camll_vm.CodeGen.Run.Program.{compile-simulated}
use camll_vm.Instruction.{get_dest_idx, code_offset_args}
use camll_vm.ModuleCreator.Dead.{
  remove_dead_instructions, remove_dead_from, next_smallest, next_max,
}
use camll_vm.ModuleCreator.Functions.{
  split_functions, init_function, take_function, next_max_inst_idx, function_arity,
}
use camll_vm.ModuleCreator.Blocks.{
  new_graph, generate_function, link_blocks, enter_block, fall_through, add_edges, set_next,
  set_all_next, block_keys, insert_key, remove_unused_blocks, remove_blocks, drop_edges, to_remove,
  orphans, remove_all,
}
use camll_vm.ModuleCreator.Generate.{Module, generate, end_index, pick, generate_functions}
use camll_vm.CodeGen.Function.{Compiled, find_graph, compile, gen_by_id, new_store}
use camll_vm.CodeGen.Run.Branches.{branching_block-simulated}

abbrev plain : Opcode → List ℕ → ZInstruction
plain op args = record {
  op_num = op;
  args = args;
  idx = 0;
  orig_idx = 0;
  closure_rec_fns = [];
  switch_entries = [];
  annotation = InstrAnnotation.nothing;
}

abbrev any_block : ℕ → Bool
any_block i = true

abbrev first_block : ℕ → ℕ
first_block i = 0

-- Nothing is entered in the runs below.
abbrev idle : Process
idle = record { function_at = λ i. 0; restart_at = 0; enter = λ f m. none }

-- The accumulator holds 5, the stack 7.
abbrev before : Machine
before = at_rest (tagged 5) 992 0 0 (λ a. tagged 7) (λ a. 0)

abbrev zinc_before : Zinc
zinc_before = record { accu = Value.int 5; stack = Value.int 7 ∷ [] }

before-Represents : Represents before 1000 zinc_before before
before-Represents = record {
  accu_lem = (omega arith, refl);
  stack_lem = ((omega arith, refl), tt);
  base_lem = refl;
  above_lem = λ a le. refl;
  rest_lem = refl;
}

-- `PUSHACC1; SUBINT`.
abbrev subtraction : List ZInstruction
subtraction = plain Opcode.pushacc1 [] ∷ plain Opcode.subint [] ∷ []

abbrev zinc_after : Zinc
zinc_after = record { accu = Value.int 2; stack = Value.int 7 ∷ [] }

zinc_run-simulated_example :
    (code : List Code) × (gen_code any_block first_block subtraction (new_block 3 none none)
      ≡ some (emit code (new_block 3 none none)))
    × (m' : Machine) × (run_calls sample 0 idle code 0 before ≡ some (0, m'))
    × Represents before 1000 zinc_after m'
unfolding zinc_run zinc_step zinc_base
zinc_run-simulated_example =
    zinc_run-simulated sample sample-IsStandard 0 idle before 1000 10 (omega arith) (omega arith)
      any_block first_block subtraction zinc_before zinc_after before (new_block 3 none none)
      before-Represents refl

-- `BLTINT 4` after the subtraction: 4 is not below 2.
branching_block-simulated_example :
    (code : List Code) × (gen_code any_block first_block
        (subtraction ++ plain Opcode.bltint (4 ∷ []) ∷ [])
        (new_block 3 (some 8) (some 5))
      ≡ some (record (new_block 3 (some 8) (some 5)) { current = code }))
    × (m' : Machine) × (run_block sample 0 idle code 0 before
        ≡ some (Exit.goes_to (label (if false then 8 else 5) 0) 0 m'))
    × Represents before 1000 zinc_after m'
unfolding zinc_run zinc_step zinc_base jumps
branching_block-simulated_example =
    branching_block-simulated sample sample-IsStandard 0 idle any_block first_block 8 5 before 1000
      10 (omega arith) (omega arith) subtraction (plain Opcode.bltint (4 ∷ [])) 3 zinc_before
      zinc_after before false before-Represents refl refl

abbrev placed : ℕ → InstrAnnotation → Opcode → List ℕ → ZInstruction
placed i a op args = record {
  op_num = op;
  args = args;
  idx = i;
  orig_idx = i;
  closure_rec_fns = [];
  switch_entries = [];
  annotation = a;
}

-- `CLOSURE 0 2; STOP`, and a function that counts its argument down: `ACC0; BRANCHIFNOT 8`, from 4 on
-- `ACC0; OFFSETINT -1; ASSIGN 0; BRANCH 2`, and from 8 on `CONSTINT 9; RETURN 1`.
abbrev program : List ZInstruction
program =
    placed 0 InstrAnnotation.nothing Opcode.closure (0 ∷ 2 ∷ [])
    ∷ placed 1 InstrAnnotation.nothing Opcode.stop []
    ∷ placed 2 InstrAnnotation.function_start Opcode.acc0 []
    ∷ placed 3 InstrAnnotation.nothing Opcode.branchifnot (8 ∷ [])
    ∷ placed 4 InstrAnnotation.block_start Opcode.acc0 []
    ∷ placed 5 InstrAnnotation.nothing Opcode.offsetint ((2 ^ 32 - 1) ∷ [])
    ∷ placed 6 InstrAnnotation.nothing Opcode.assign (0 ∷ [])
    ∷ placed 7 InstrAnnotation.nothing Opcode.branch (2 ∷ [])
    ∷ placed 8 InstrAnnotation.block_start Opcode.constint (9 ∷ [])
    ∷ placed 9 InstrAnnotation.nothing Opcode.return (1 ∷ [])
    ∷ []

abbrev no_graph : Graph
no_graph = new_graph []

abbrev or_module : Option Module → Module
or_module none = record { functions = []; main = no_graph }
or_module (some m) = m

abbrev counting : Module
counting = or_module (generate 0 0 program)

abbrev or_graph : Option Graph → Graph
or_graph none = no_graph
or_graph (some g) = g

abbrev countdown : Graph
countdown = or_graph (find_graph 2 counting.functions)

abbrev or_nothing : Option Progress → Progress
or_nothing none = record { started = []; compiled = [] }
or_nothing (some q) = q

abbrev generated : Progress
generated = or_nothing (compile counting.functions counting.main)

-- The main function is the last one to be finished.
abbrev second_or_none : List Compiled → Compiled
second_or_none (c ∷ d ∷ cs) = d
second_or_none cs = compiled_of 0 no_graph (new_store no_graph)

abbrev countdown_code : Compiled
countdown_code = second_or_none generated.compiled

-- The argument is 2.
abbrev called : Machine
called = at_rest (tagged 5) 992 0 0 (λ a. tagged 2) (λ a. 0)

abbrev zinc_called : Zinc
zinc_called = record { accu = Value.int 5; stack = Value.int 2 ∷ [] }

abbrev zinc_returned : Zinc
zinc_returned = record { accu = Value.int 9; stack = Value.int 0 ∷ [] }

called-Represents : Represents called 1000 zinc_called called
called-Represents = record {
  accu_lem = (omega arith, refl);
  stack_lem = ((omega arith, refl), tt);
  base_lem = refl;
  above_lem = λ a le. refl;
  rest_lem = refl;
}

compile-simulated_example :
    (m' : Machine) × Represents called 1000 zinc_returned m'
    × (run_function sample 0 idle 7 countdown_code (label 2 0) 0 called
        ≡ taken_up sample 0 idle (handle_return sample 1 m'))
unfolding generate end_index pick generate_functions split_functions init_function take_function
    next_max_inst_idx function_arity generate_function link_blocks enter_block fall_through
    add_edges set_next set_all_next block_keys insert_key remove_unused_blocks remove_blocks
    drop_edges to_remove orphans remove_all remove_dead_instructions remove_dead_from next_smallest
    next_max get_dest_idx code_offset_args compile gen_by_id gen_function gen_blocks get_ptrs_to
    gen_block gen_insts gen_code_for_inst all_fns fns_of code_gen gen_code inst_code gen_straight
    gen_straight_at gen_const gen_acc gen_arith gen_data closure_code gen_call gen_control
    gen_cond_br gen_return latest_label add_block gen_term_inst is_jump_op is_return_op
    add_prologues zinc_graph zinc_block zinc_end zinc_step zinc_base jumps
compile-simulated_example =
    compile-simulated sample sample-IsStandard 0 idle called 1000 10 (omega arith) (omega arith) 0 0
      program counting generated countdown_code countdown refl refl (Memᴰ.tail (Memᴰ.head refl))
      refl refl ((refl, (refl, tt)), ((refl, (refl, (refl, (refl, tt)))), ((refl, (refl, tt)), tt)))
      (refl, (refl, (refl, tt))) 6 2 1 zinc_called zinc_returned called called-Represents refl

-- The block 5 ends with a conditional branch back to the block 3, which ends with a `RETURN`.
abbrev branching_back : Graph
branching_back = record {
  keys = 3 ∷ 5 ∷ 7 ∷ [];
  prev = λ k. [];
  next = λ k. if k == 5 then 3 ∷ 7 ∷ [] else [];
  br_block = λ k. if k == 5 then some 3 else none;
  no_br_block = λ k. if k == 5 then some 7 else none;
  insts = λ k.
      if k == 5 then plain Opcode.branchif (3 ∷ []) ∷ [] else plain Opcode.return (1 ∷ []) ∷ [];
}

conditional_back : goes_ahead branching_back 5 ≡ true
unfolding is_jump_op
conditional_back = refl
