-- ===== src/ModuleCreator/Dead.antt =====
-- `removeDeadInstructions` (src/GenModuleCreator.cpp). The local variables are arguments; indices
-- are compared as `int32_t`, below 2 ^ 31.
pub mod Targets
use camll_vm.Base.{
  ℕ, ◌≤◌, ◌<◌, Bool, true, false, ◌&&◌, ◌||◌, List, [], ◌∷◌, ltb, leb, ◌==◌, if◌then◌else◌,
}
use camll_vm.Instruction.{
  ZInstruction, arg, get_dest_idx, is_cond_jump, is_push_trap, is_uncond_jump,
}

-- The test of the first `if`: the instruction stays.
abbrev pub stays : ℕ → ℕ → ℕ → Bool
stays max_branch smallest i = leb max_branch i || (leb smallest i && ltb 0 smallest)

-- `SmallestCondBranch` after an instruction that stays.
unfoldable pub next_smallest : ℕ → ZInstruction → ℕ
next_smallest smallest inst =
    if (is_cond_jump inst || is_push_trap inst)
      && (ltb (get_dest_idx inst) smallest || smallest == 0)
    then get_dest_idx inst
    else smallest

-- `MaxBranch` after an instruction that stays.
unfoldable pub next_max : ℕ → ZInstruction → ℕ
next_max max_branch inst = if is_uncond_jump inst then arg inst 0 else max_branch

unfoldable pub remove_dead_from : ℕ → ℕ → List ZInstruction → List ZInstruction
remove_dead_from max_branch smallest [] = []
remove_dead_from max_branch smallest (inst ∷ rest) =
    let kept =
      inst ∷ remove_dead_from (next_max max_branch inst) (next_smallest smallest inst) rest in
    let dropped = remove_dead_from max_branch smallest rest in
    if stays max_branch smallest inst.idx then kept else dropped

unfoldable pub remove_dead_instructions : List ZInstruction → List ZInstruction
remove_dead_instructions insts = remove_dead_from 0 0 insts
