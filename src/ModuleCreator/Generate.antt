-- ===== src/ModuleCreator/Generate.antt =====
-- `generate` (src/GenModuleCreator.cpp): the functions of a module, and its main function.
pub mod Sorted
use camll_vm.Base.{
  ℕ, zero, suc, ◌+◌, ◌-◌, ◌^◌, Option, none, some, List, [], ◌∷◌, length, get_elem?, ltb, ◌==◌,
  if◌then◌else◌, ◌>>=◌,
}
use camll_vm.Instruction.{ZInstruction}
use camll_vm.ModuleCreator.Dead.{remove_dead_instructions}
use camll_vm.ModuleCreator.Functions.{Fn, split_functions}
use camll_vm.ModuleCreator.Blocks.{Graph, generate_function, remove_unused_blocks}

-- `Functions` and `MainFunction` of a `GenModule`.
pub record Module : Type 0 where
  pub functions : List (ℕ × Graph)
  pub main : Graph

-- The index behind `LastInst`, an `int32_t`: 0 stands for the end, and a negative number counts from
-- the end.
unfoldable pub end_index : ℕ → ℕ → ℕ
end_index size last =
    if last == 0 then size else if ltb last (2 ^ 31) then last + 1 else size + last + 1 - 2 ^ 32

-- `n` instructions from number `i` on, by `at`.
unfoldable pub pick : ℕ → ℕ → List ZInstruction → Option (List ZInstruction)
pick zero i insts = some []
pick (suc n) i insts = do inst ← get_elem? insts i; rest ← pick n (i + 1) insts; some (inst ∷ rest)

-- The functions that have been cut off, each with its blocks.
unfoldable pub generate_functions : List Fn → Option (List (ℕ × Graph))
generate_functions [] = some []
generate_functions (f ∷ fs) = do
  g ← generate_function f.insts
  rest ← generate_functions fs
  some ((f.id, g) ∷ rest)

-- `first` is `FirstInst`, which is not negative.
unfoldable pub generate : ℕ → ℕ → List ZInstruction → Option Module
generate first last insts = do
  queue ← pick (end_index (length insts) last - first) first insts
  s ← split_functions (length queue) queue
  fns ← generate_functions s.functions
  g ← generate_function (remove_dead_instructions s.main)
  main ← remove_unused_blocks (suc (length g.keys)) g
  some (record { functions = fns; main = main })
