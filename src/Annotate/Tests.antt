-- ===== src/Annotate/Tests.antt =====
-- The theorem on `annotateNodes` (src/Instructions.cpp) at a jump.
use mathlib.Core.List.{Memᴰ}
use camll_vm.Base.{ℕ, refl, Option, none, some, List, [], ◌∷◌}
use camll_vm.Opcode.{Opcode}
use camll_vm.Instruction.{ZInstruction, InstrAnnotation, is_jump_op, get_dest_idx, code_offset_args}
use camll_vm.Annotate.{mark, annotate_one, annotate_from, annotate_nodes}
use camll_vm.Annotate.Marks.{IsMarkedAt}
use camll_vm.Annotate.Targets.{RefersTo, by_jump, annotate_nodes-IsMarkedAt}

abbrev numbered : ℕ → Opcode → List ℕ → ZInstruction
numbered i op args = record {
  op_num = op;
  args = args;
  idx = i;
  orig_idx = i;
  closure_rec_fns = [];
  switch_entries = [];
  annotation = InstrAnnotation.nothing;
}

abbrev jump : ZInstruction
jump = numbered 0 Opcode.branchif (2 ∷ [])

abbrev three : List ZInstruction
three = jump ∷ numbered 1 Opcode.acc0 [] ∷ numbered 2 Opcode.stop [] ∷ []

abbrev or_nothing : Option (List ZInstruction) → List ZInstruction
or_nothing none = []
or_nothing (some insts) = insts

abbrev annotated : List ZInstruction
annotated = or_nothing (annotate_nodes three)

refers-jump : RefersTo jump 2
unfolding is_jump_op get_dest_idx code_offset_args
refers-jump = by_jump refl

annotate_nodes-IsMarkedAt_example : IsMarkedAt 2 annotated
unfolding annotate_nodes annotate_from annotate_one mark is_jump_op get_dest_idx code_offset_args
annotate_nodes-IsMarkedAt_example =
    annotate_nodes-IsMarkedAt three annotated jump 2 refl (Memᴰ.head refl) refers-jump
