-- ===== src/CodeGen/Function/Program.antt =====
-- The whole code generator: `generate` (src/GenModuleCreator.cpp) and then `GenFunction::CodeGen`
-- (src/GenFunction.cpp) from the main function on, as in `Context` (src/Context.cpp).
use camll_vm.Base.{
  ℕ, ◌+◌, ◌≡◌, subst, Option, some, List, [], ◌∷◌, length, All, Ascends, ◌==◌, Bool-cases, inl, inr,
  some_inj,
}
use camll_vm.Instruction.{ZInstruction}
use camll_vm.ModuleCreator.Blocks.{Graph}
use camll_vm.ModuleCreator.Generate.{Module, generate}
use camll_vm.ModuleCreator.Generate.Sorted.{generate-Ascends}
use camll_vm.CodeGen.Sealed.{IsClosed}
use camll_vm.CodeGen.Function.{Compiled, Progress, find_graph, gen_by_id, compile, new_store}
use camll_vm.CodeGen.Function.Each.{Grants, compile-AllCompiled}
use camll_vm.CodeGen.Function.Sealed.{IsFit, gen_blocks_lem, new_store-IsReady}

-- Every LLVM block of the function ends with its only terminator.
abbrev pub IsSealedFunction : Compiled → Type 0
IsSealedFunction c = All (λ (k : ℕ). IsClosed (c.blocks k)) c.keys

abbrev pub IsSealedProgram : Progress → Type 0
IsSealedProgram p = All IsSealedFunction p.compiled

-- The blocks of a function are fit to be generated.
abbrev pub IsFitFunction : Graph → Type 0
IsFitFunction g = All (IsFit g) g.keys

abbrev IsReadyFunction : Graph → Type 0
IsReadyFunction g = Ascends g.keys × IsFitFunction g

pub find_graph-All :
    (P : Graph → Type 0) (id : ℕ) (fns : List (ℕ × Graph)) (g : Graph)
    → All (λ (f : ℕ × Graph). P f.1) fns
    → find_graph id fns ≡ some g
    → P g
find_graph-All P id [] g a h = absurd (cc)
find_graph-All P id ((i, f) ∷ fns) g a h = elim (Bool-cases (id == i)) [
  | inl t ↦ subst P (some_inj (rw t at h)) a.0
  | inr n ↦ find_graph-All P id fns g a.1 (rw n at h)
]

-- When `generate` makes a module of a range of instructions, and `CodeGen` returns for its main function,
-- every LLVM block of every function that has been generated ends with a terminator and has no other,
-- provided that in the blocks of the module only the last instruction may be a jump, a return or a switch,
-- and no handler comes before the block that sets it up.
pub compile-IsSealedProgram :
    (first last : ℕ) (insts : List ZInstruction) (m : Module) (p : Progress)
    → generate first last insts ≡ some m
    → IsFitFunction m.main
    → All (λ (f : ℕ × Graph). IsFitFunction f.1) m.functions
    → compile m.functions m.main ≡ some p
    → IsSealedProgram p
compile-IsSealedProgram first last insts m p h main_fit fit c =
    let sorted = generate-Ascends first last insts m h in
    compile-AllCompiled IsSealedFunction m.functions m.main p
      (λ n f g found.
        let (asc, fit_lem) =
          find_graph-All IsReadyFunction f m.functions g (both m.functions sorted.1 fit) found in
        sealed (gen_by_id m.functions n) f g asc fit_lem)
      (sealed (gen_by_id m.functions (length m.functions + 1)) 0 m.main sorted.0 main_fit) c
  where
    sealed :
        (a : ℕ → Progress → Option Progress) (id : ℕ) (g : Graph)
        → Ascends g.keys
        → IsFitFunction g
        → Grants IsSealedFunction a id g
    sealed a id g asc fit_lem q r made =
        (gen_blocks_lem a id g g.keys (new_store g) q r asc fit_lem (new_store-IsReady a g g.keys)
          made).0

    both :
        (fns : List (ℕ × Graph))
        → All (λ (f : ℕ × Graph). Ascends f.1.keys) fns
        → All (λ (f : ℕ × Graph). IsFitFunction f.1) fns
        → All (λ (f : ℕ × Graph). IsReadyFunction f.1) fns
    both [] a b = tt
    both (f ∷ fns) a b = ((a.0, b.0), both fns a.1 b.1)
