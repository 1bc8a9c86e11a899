-- ===== src/CodeGen/Run/Program.antt =====
-- A program that `generate` (src/GenModuleCreator.cpp) has cut into functions and `GenFunction::CodeGen`
-- (src/GenFunction.cpp) has generated, run on the machine of src/StdLib/CStdLib.c, function by
-- function, against the integer ZINC machine.
use mathlib.Core.List.{Memᴰ}
use camll_vm.Base.{
  Ascends, ℕ, suc, ◌*◌, ◌≤◌, ◌<◌, ◌≡◌, refl, sym, ap, ◌∙◌, subst, true, false, inl, inr, ◌⊎◌,
  Option, some, List, [], ◌∷◌, word_mod, some_inj, All,
}
use camll_vm.Instruction.{ZInstruction, sign_extend}
use camll_vm.ModuleCreator.Blocks.{Graph}
use camll_vm.ModuleCreator.Generate.{Module, generate}
use camll_vm.ModuleCreator.Generate.Sorted.{generate-Ascends}
use camll_vm.Runtime.State.{Machine, Ocaml, IsStandard}
use camll_vm.Runtime.Frames.{handle_return}
use camll_vm.CodeGen.Emit.{label}
use camll_vm.CodeGen.Function.{
  Store, Compiled, Progress, find_graph, gen_blocks, gen_function, gen_by_id, compile, new_store,
  compiled_of, finish, is_main,
}
use camll_vm.CodeGen.Function.Each.{Grants, compile-AllCompiled}
use camll_vm.CodeGen.Function.Program.{find_graph-All}
use camll_vm.CodeGen.Run.{Process}
use camll_vm.CodeGen.Run.Spec.{Zinc}
use camll_vm.CodeGen.Run.Steps.{Represents}
use camll_vm.CodeGen.Run.Graph.{zinc_graph, run_function, taken_up, goes_ahead}
use camll_vm.CodeGen.Run.Made.{HasNoTrap}
use camll_vm.CodeGen.Run.Whole.{gen_function-simulated}

-- The function comes from the graph `g`.
record ComesFrom (c : Compiled) (g : Graph) : Type 0 where
  other : ℕ → Progress → Option Progress
  first : Progress
  made : Store × Progress
  made_lem : gen_blocks other c.id g g.keys (new_store g) first ≡ some made
  code_lem : compiled_of c.id g made.0 ≡ c

-- The function is the main one or comes from a graph of the module.
abbrev HasGraph : List (ℕ × Graph) → Compiled → Type 0
HasGraph fns c =
    (is_main c.id ≡ true) ⊎ ((g : Graph) × (find_graph c.id fns ≡ some g) × ComesFrom c g)

find_graph-Grants :
    (fns : List (ℕ × Graph)) (a : ℕ → Progress → Option Progress) (id : ℕ) (g : Graph)
    → find_graph id fns ≡ some g
    → Grants (HasGraph fns) a id g
find_graph-Grants fns a id g found q r made =
    inr (g, found, record { other = a; first = q; made = r; made_lem = made; code_lem = refl })

compile-HasGraph :
    (fns : List (ℕ × Graph)) (main : Graph) (p : Progress)
    → compile fns main ≡ some p
    → All (HasGraph fns) p.compiled
compile-HasGraph fns main p h =
    compile-AllCompiled (HasGraph fns) fns main p
      (λ n f g found. find_graph-Grants fns (gen_by_id fns n) f g found) (λ q r made. inl refl) h

All-Memᴰ : (P : Compiled → Type 0) (cs : List Compiled) (c : Compiled) → All P cs → Memᴰ c cs → P c
All-Memᴰ P [] c a m = elim m [ ]
All-Memᴰ P (d ∷ cs) c a (Memᴰ.head e) = subst P (sym e) a.0
All-Memᴰ P (d ∷ cs) c a (Memᴰ.tail m) = All-Memᴰ P cs c a.1 m

-- Where OCaml's macros are as `IsStandard` says: let generate make a module of a range of
-- instructions, and let CodeGen return for its main function. Take a function of the generated
-- code, other than the main one, whose graph of blocks in the module sets no traps, and in which
-- only conditional branches go to an earlier block that ends with a RETURN. The integer ZINC
-- machine has the instructions on constants, integers and the stack, and between blocks the
-- branches and RETURN; any other instruction stops it. Whenever it gets from a block of the graph
-- to a RETURN, through at most n blocks, the code of the function, run from the first LLVM block
-- of that block on a machine that stands for the integer ZINC machine's state, in an address space
-- with room for its stack, comes to handleReturn with a machine that stands for its final state:
-- the run, through at most n + 1 LLVM blocks, is what handleReturn gives on that machine, with the
-- caller's code entered if there is any.
pub compile-simulated :
    (ml : Ocaml) (std : IsStandard ml) (fuel : ℕ) (p : Process) (r : Machine) (base cap : ℕ)
    → base < word_mod
    → 8 * cap ≤ base
    → (first last : ℕ) (insts : List ZInstruction) (mod_ : Module) (done : Progress) (c : Compiled)
      (g : Graph)
    → generate first last insts ≡ some mod_
    → compile mod_.functions mod_.main ≡ some done
    → Memᴰ c done.compiled
    → is_main c.id ≡ false
    → find_graph c.id mod_.functions ≡ some g
    → All (HasNoTrap g) g.keys
    → All (λ (k : ℕ). goes_ahead g k ≡ true) g.keys
    → (n k a : ℕ) (z z' : Zinc) (m : Machine) → Represents r base z m
    → zinc_graph cap g n k z ≡ some (a, z')
    → (m' : Machine) × Represents r base z' m'
      × (run_function ml fuel p (suc n) c (label k 0) 0 m
          ≡ taken_up ml fuel p (handle_return ml (sign_extend a) m'))
unfolding gen_function
compile-simulated ml std fuel p r base cap high room first last insts mod_ done c g h made mem other
      found free ahead_lem n k a z z' m rep ran =
    elim (All-Memᴰ (HasGraph mod_.functions) done.compiled c
      (compile-HasGraph mod_.functions mod_.main done made) mem) [
        | inl main ↦ absurd (cc)
        | inr (g', found', o) ↦
            let same : g' ≡ g = some_inj (sym found' ∙ found) in at (subst (ComesFrom c) same o)
      ]
  where
    asc : Ascends g.keys
    asc =
        find_graph-All (λ (x : Graph). Ascends x.keys) c.id mod_.functions g
          (generate-Ascends first last insts mod_ h).1 found

    at :
        ComesFrom c g
        → (m' : Machine) × Represents r base z' m'
          × (run_function ml fuel p (suc n) c (label k 0) 0 m
              ≡ taken_up ml fuel p (handle_return ml (sign_extend a) m'))
    at o =
        let gen : gen_function o.other c.id g o.first ≡ some (finish c.id g o.made.0 o.made.1) =
          rw (gen_function, o.made_lem) refl in
        let (s, q, ends, m', rep', runs) =
          gen_function-simulated ml std fuel p r base cap high room o.other c.id g o.first
            (finish c.id g o.made.0 o.made.1) other asc free ahead_lem gen n k a z z' m rep ran in
        let code : c ≡ compiled_of c.id g s =
          sym o.code_lem ∙ ap (λ (x : Progress). head_or c x.compiled) ends in
        (
          m',
          rep',
          subst
              (λ (x : Compiled).
                run_function ml fuel p (suc n) x (label k 0) 0 m
                ≡ taken_up ml fuel p (handle_return ml (sign_extend a) m'))
              (sym code) runs,
        )
      where
        head_or : Compiled → List Compiled → Compiled
        head_or d [] = d
        head_or d (x ∷ xs) = x
