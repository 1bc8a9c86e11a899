-- ===== src/Annotate.antt =====
-- `annotateNodes` (src/Instructions.cpp): functions and basic blocks are marked at their first
-- instruction. A write through an index past the vector is a fault.
pub mod Marks
pub mod Targets
mod Tests
use camll_vm.Base.{
  ℕ, zero, suc, ◌+◌, Bool, Option, none, some, List, [], ◌∷◌, get_elem?, set, if◌then◌else◌, ◌>>=◌,
}
use camll_vm.Instruction.{
  ZInstruction, InstrAnnotation, function_start, block_start, arg, rounds, get_dest_idx, is_closure,
  is_closure_rec, is_switch, is_push_trap, is_jump_inst,
}

-- `Instructions[i]->Annotation = a`.
unfoldable pub mark : InstrAnnotation → ℕ → List ZInstruction → Option (List ZInstruction)
mark a i insts = do inst ← get_elem? insts i; some (set insts i (record inst { annotation = a }))

unfoldable pub mark_all : InstrAnnotation → List ℕ → List ZInstruction → Option (List ZInstruction)
mark_all a [] insts = some insts
mark_all a (i ∷ is) insts = mark a i insts >>= mark_all a is

-- The first `n` elements of an array.
unfoldable pub first : ℕ → List ℕ → Option (List ℕ)
first zero xs = some []
first (suc n) [] = none
first (suc n) (x ∷ xs) = do rest ← first n xs; some (x ∷ rest)

abbrev pub when :
    Bool
    → (List ZInstruction → Option (List ZInstruction))
    → List ZInstruction
    → Option (List ZInstruction)
when b f insts = if b then f insts else some insts

-- The body of the loop, for the instruction `inst`.
unfoldable pub annotate_one : ZInstruction → List ZInstruction → Option (List ZInstruction)
annotate_one inst insts = do
  s₁ ← when (is_closure inst) (mark function_start (get_dest_idx inst)) insts
  s₂ ←
      when (is_closure_rec inst)
        (λ s.
          first (rounds (arg inst 0)) inst.closure_rec_fns >>= λ fns. mark_all function_start fns s)
        s₁
  s₃ ← when (is_switch inst) (mark_all block_start inst.switch_entries) s₂
  s₄ ← when (is_push_trap inst) (mark block_start (get_dest_idx inst)) s₃
  when (is_jump_inst inst)
      (λ s. mark block_start (get_dest_idx inst) s >>= mark block_start (inst.idx + 1)) s₄

-- The loop changes annotations alone, so it may read the instructions as they were.
unfoldable pub annotate_from : List ZInstruction → List ZInstruction → Option (List ZInstruction)
annotate_from [] insts = some insts
annotate_from (inst ∷ rest) insts = annotate_one inst insts >>= annotate_from rest

unfoldable pub annotate_nodes : List ZInstruction → Option (List ZInstruction)
annotate_nodes insts = annotate_from insts insts
