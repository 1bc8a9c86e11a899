-- ===== src/ModuleCreator/Tests.antt =====
-- The theorems on src/GenModuleCreator.cpp at a small program.
use mathlib.Core.List.{Memᴰ}
use camll_vm.Base.{
  ℕ, suc, none, Option, ◌==◌, if◌then◌else◌, ◌≤◌, ◌≡◌, refl, some, List, [], ◌∷◌, ◌++◌, length,
  arith,
}
use camll_vm.Opcode.{Opcode}
use camll_vm.Instruction.{
  ZInstruction, InstrAnnotation, get_dest_idx, code_offset_args, is_jump_op, is_return_op,
}
use camll_vm.ModuleCreator.Dead.{
  remove_dead_from, next_max, next_smallest, remove_dead_instructions,
}
use camll_vm.ModuleCreator.Dead.Targets.{
  HasPositiveTargets, remove_dead-keeps_forward_target, remove_dead-drops_body,
}
use camll_vm.ModuleCreator.Functions.Splits.{
  IsPlaced, split_functions-IsPlaced, Ends, split_functions-Ends,
}
use camll_vm.ModuleCreator.Functions.{
  Split, split_functions, Fn, next_max_inst_idx, take_function, function_arity, init_function,
}
use camll_vm.ModuleCreator.Blocks.{
  Graph, block_keys, insert_key, set_next, set_all_next, fall_through, enter_block, add_edges,
  link_blocks, remove_all, drop_edges, remove_blocks, orphans, to_remove, remove_unused_blocks,
  new_graph, generate_function,
}
use camll_vm.ModuleCreator.Blocks.Unused.{HasNoOrphans, remove_unused_blocks-HasNoOrphans}
use camll_vm.ModuleCreator.Blocks.Reachable.{Reaches}
use camll_vm.ModuleCreator.Blocks.Links.{as_function, generate_function-keeps_reachable}
use camll_vm.ModuleCreator.Functions.Cuts.{
  IsFunctionCut, init_function-IsFunctionCut, init_function_returns,
}

abbrev at : ℕ → Opcode → List ℕ → ZInstruction
at i op args = record {
  op_num = op;
  args = args;
  idx = i;
  orig_idx = i;
  closure_rec_fns = [];
  switch_entries = [];
  annotation = InstrAnnotation.nothing;
}

-- A jump over one instruction, then a test with a target further on.
abbrev skip : ZInstruction
skip = at 0 Opcode.branch (2 ∷ [])

abbrev test_ : ZInstruction
test_ = at 2 Opcode.branchif (4 ∷ [])

abbrev last_ : ZInstruction
last_ = at 4 Opcode.return (1 ∷ [])

abbrev program : List ZInstruction
program = skip ∷ at 1 Opcode.acc0 [] ∷ test_ ∷ at 3 Opcode.acc1 [] ∷ last_ ∷ []

program-HasPositiveTargets : HasPositiveTargets program
unfolding is_jump_op get_dest_idx code_offset_args
program-HasPositiveTargets =
    (λ h. omega arith, (λ h. cc, (λ h. omega arith, (λ h. cc, (λ h. cc, tt)))))

test-kept : Memᴰ test_ (remove_dead_instructions program)
unfolding remove_dead_instructions remove_dead_from next_max next_smallest is_jump_op get_dest_idx
    code_offset_args
test-kept = Memᴰ.tail (Memᴰ.head refl)

remove_dead-keeps_forward_target_example : Memᴰ last_ (remove_dead_instructions program)
unfolding is_jump_op get_dest_idx code_offset_args
remove_dead-keeps_forward_target_example =
    remove_dead-keeps_forward_target program test_ last_
      (omega arith, (omega arith, (omega arith, (omega arith, (omega arith, tt)))))
      program-HasPositiveTargets refl refl (omega arith)
      (Memᴰ.tail (Memᴰ.tail (Memᴰ.tail (Memᴰ.tail (Memᴰ.head refl))))) test-kept

-- A loop whose test stands at its end: `ACC0; BRANCH test; body; test: BRANCHIF body`.
abbrev before_loop : List ZInstruction
before_loop = at 0 Opcode.acc0 [] ∷ []

abbrev to_test : ZInstruction
to_test = at 1 Opcode.branch (4 ∷ [])

abbrev loop_body : List ZInstruction
loop_body = at 2 Opcode.acc0 [] ∷ at 3 Opcode.acc1 [] ∷ []

abbrev loop_end : List ZInstruction
loop_end = at 4 Opcode.branchif (2 ∷ []) ∷ at 5 Opcode.stop [] ∷ []

remove_dead-drops_body_example :
    remove_dead_instructions (before_loop ++ (to_test ∷ (loop_body ++ loop_end)))
    ≡ before_loop ++ (to_test ∷ remove_dead_from (get_dest_idx to_test) 0 loop_end)
unfolding get_dest_idx code_offset_args is_jump_op
remove_dead-drops_body_example =
    remove_dead-drops_body before_loop to_test loop_body loop_end ((refl, refl, refl), tt) refl
      (omega arith, (omega arith, tt))

-- A function with a test, a return and a second return that the test goes to.
abbrev body_ : List ZInstruction
body_ = at 5 Opcode.branchif (7 ∷ []) ∷ at 6 Opcode.return (1 ∷ []) ∷ []

abbrev ending : ZInstruction
ending = at 7 Opcode.return (1 ∷ [])

abbrev after : List ZInstruction
after = at 8 Opcode.stop [] ∷ []

abbrev cut_fn : Fn
cut_fn = record { id = 5; arity = 1; insts = body_ ++ ending ∷ [] }

init_function-IsFunctionCut_example :
    IsFunctionCut 0 (body_ ++ ending ∷ after) (cut_fn.insts, after)
unfolding init_function take_function next_max_inst_idx function_arity is_jump_op is_return_op
    get_dest_idx code_offset_args
init_function-IsFunctionCut_example =
    init_function-IsFunctionCut (body_ ++ ending ∷ after) cut_fn after refl

init_function_returns_example :
    (f : Fn) × (rest' : List ZInstruction) × (init_function (body_ ++ ending ∷ after)
      ≡ some (f, rest'))
    × (length f.insts ≤ suc (length body_))
unfolding is_jump_op is_return_op get_dest_idx code_offset_args
init_function_returns_example = init_function_returns body_ ending after refl (
  ((λ h. omega arith, λ l p q. cc), λ p. cc),
  (((λ h. cc, λ l p q. cc), λ p. cc), (((λ h. cc, λ l p q. cc), λ p. cc), tt)),
)

-- A function of three blocks, of which the middle one follows a test and the last one is its
-- target.
abbrev with_mark : ZInstruction → ZInstruction
with_mark i = record i { annotation = InstrAnnotation.block_start }

abbrev test_first : ZInstruction
test_first = at 5 Opcode.branchif (7 ∷ [])

abbrev two_ends : List ZInstruction
two_ends = with_mark (at 6 Opcode.return (1 ∷ [])) ∷ with_mark (at 7 Opcode.return (1 ∷ [])) ∷ []

abbrev or_new : Option Graph → Graph
or_new none = new_graph []
or_new (some g) = g

abbrev linked : Graph
linked = or_new (
    link_blocks none (as_function test_first two_ends)
      (new_graph (as_function test_first two_ends)))

generate_function-keeps_reachable_example :
    (h : Graph) × (generate_function (test_first ∷ two_ends) ≡ some h)
    × HasNoOrphans 5 h
    × ((k : ℕ) → Reaches linked.next 5 k → Memᴰ k h.keys)
unfolding link_blocks enter_block fall_through add_edges set_next set_all_next block_keys insert_key
    is_jump_op is_return_op get_dest_idx code_offset_args
generate_function-keeps_reachable_example =
    generate_function-keeps_reachable test_first two_ends linked (omega arith, (omega arith, tt))
      refl

-- A graph in which the block 2 leads to the block 3 and nothing leads to either.
abbrev loose : Graph
loose = record {
  keys = 0 ∷ 1 ∷ 2 ∷ 3 ∷ [];
  prev = λ n. if n == 1 then 0 ∷ [] else if n == 3 then 2 ∷ [] else [];
  next = λ n. if n == 0 then 1 ∷ [] else if n == 2 then 3 ∷ [] else [];
  br_block = λ i. none;
  no_br_block = λ i. none;
  insts = λ i. [];
}

zero_apart : ¬ Memᴰ {A = ℕ} 0 (1 ∷ 2 ∷ 3 ∷ [])
zero_apart (Memᴰ.head e) = absurd (omega arith)
zero_apart (Memᴰ.tail (Memᴰ.head e)) = absurd (omega arith)
zero_apart (Memᴰ.tail (Memᴰ.tail (Memᴰ.head e))) = absurd (omega arith)
zero_apart (Memᴰ.tail (Memᴰ.tail (Memᴰ.tail m))) = elim m [ ]

remove_unused_blocks-HasNoOrphans_example :
    (h : Graph) × (remove_unused_blocks 5 loose ≡ some h) × HasNoOrphans 0 h
remove_unused_blocks-HasNoOrphans_example =
    remove_unused_blocks-HasNoOrphans 5 loose 0 (1 ∷ 2 ∷ 3 ∷ []) refl zero_apart (omega arith)

-- Two rounds take both blocks off the map.
loose_keys : (or_new (remove_unused_blocks 5 loose)).keys ≡ 0 ∷ 1 ∷ []
unfolding remove_unused_blocks remove_blocks drop_edges to_remove orphans remove_all
loose_keys = refl

-- An instruction of the main block and a function behind it.
abbrev main_and_function : List ZInstruction
main_and_function =
    at 0 Opcode.acc0 []
    ∷ record (at 5 Opcode.branchif (7 ∷ [])) { annotation = InstrAnnotation.function_start }
    ∷ at 6 Opcode.return (1 ∷ [])
    ∷ ending
    ∷ []

abbrev or_no_split : Option Split → Split
or_no_split none = record { functions = []; main = [] }
or_no_split (some s) = s

abbrev two_parts : Split
two_parts = or_no_split (split_functions 4 main_and_function)

split_functions-IsPlaced_example : IsPlaced ending two_parts
unfolding split_functions init_function take_function next_max_inst_idx function_arity is_jump_op
    is_return_op get_dest_idx code_offset_args
split_functions-IsPlaced_example =
    split_functions-IsPlaced 4 main_and_function two_parts ending refl
      (Memᴰ.tail (Memᴰ.tail (Memᴰ.tail (Memᴰ.head refl)))) refl

split_functions-Ends_example : Ends main_and_function (split_functions 4 main_and_function)
split_functions-Ends_example = split_functions-Ends 4 main_and_function (omega arith)
