-- ===== src/CodeGen/Function.antt =====
-- `GenFunction::CodeGen` and `generateRestartFunction` (src/GenFunction.cpp), and `getPtrToFunc`
-- (src/GenBlock.cpp), through which a function generates those that it makes closures of.
pub mod Closed
pub mod Fuel
pub mod Threads
pub mod Traps
pub mod Sealed
pub mod Each
pub mod Program
mod Tests
use camll_vm.Base.{
  ℕ, zero, suc, ◌+◌, ◌-◌, Bool, true, false, ◌&&◌, ◌||◌, not, Option, none, some, List, [], ◌∷◌,
  ◌++◌, length, get_elem?, ◌==◌, if◌then◌else◌, ◌>>=◌,
}
use camll_vm.Opcode.{Opcode}
use camll_vm.Instruction.{ZInstruction, arg, rounds, get_or_zero}
use camll_vm.ModuleCreator.Blocks.{Graph, at_key, has_key, is_empty}
use camll_vm.CodeGen.Emit.{Callee, Label, label, Code, call0}
use camll_vm.CodeGen.Block.{Emitter, emit, new_block, prologue, inst_code, gen_term_inst}

-- The functions whose address an instruction takes, `getPtrToFunc`, in order.
unfoldable pub nested_fns : ℕ → ℕ → List ℕ → List ℕ
nested_fns zero i fns = []
nested_fns (suc n) i fns = get_or_zero fns i ∷ nested_fns n (i + 1) fns

unfoldable pub fns_of : ZInstruction → Opcode → List ℕ
fns_of inst Opcode.closurerec =
    get_or_zero inst.closure_rec_fns 0 ∷ nested_fns (rounds (arg inst 0) - 1) 1 inst.closure_rec_fns
fns_of inst Opcode.closure = arg inst 1 ∷ []
fns_of inst _ = []

unfoldable pub all_fns : List ZInstruction → List ℕ
all_fns [] = []
all_fns (inst ∷ rest) = fns_of inst inst.op_num ++ all_fns rest

-- The blocks of a function, by their identifiers.
abbrev pub Store : Type 0
Store = ℕ → Emitter

abbrev pub new_store : Graph → Store
new_store g i = new_block i (g.br_block i) (g.no_br_block i)

-- The prologues of the traps that a block has set up.
unfoldable pub add_prologues : List ℕ → Store → Store
add_prologues [] s = s
add_prologues (t ∷ ts) s = add_prologues ts (at_key s t (emit prologue (s t)))

abbrev pub put_block : Emitter → Store → Store
put_block e s = add_prologues e.trap_blocks (at_key s e.id e)

abbrev pub front_of : List ℕ → Option ℕ
front_of [] = none
front_of (x ∷ xs) = some x

-- `LlvmBlock` is the last of the `LlvmBlocks` of block `i`.
abbrev pub last_block : Store → ℕ → ℕ
last_block s i = length (s i).closed

abbrev pub has_block_of : Graph → ℕ → Bool
has_block_of g i = has_key i g.keys

-- `MAIN_FUNCTION_ID`.
abbrev pub is_main : ℕ → Bool
is_main id = id == 0

-- A function that has been generated. The code of its blocks, the first of them where it is entered,
-- and that of its restart function, which the main function does not have.
pub record Compiled : Type 0 where
  pub id : ℕ
  pub keys : List ℕ
  pub blocks : Store
  pub restart_code : Option (List Code)

-- `generateRestartFunction`.
unfoldable pub generate_restart_function : ℕ → List Code
generate_restart_function id = call0 Callee.restart ++ Code.tail_call id ∷ Code.ret_void ∷ []

-- `LlvmFunc` is set for the functions that are `started`.
pub record Progress : Type 0 where
  pub started : List ℕ
  pub compiled : List Compiled

abbrev pub find_graph : ℕ → List (ℕ × Graph) → Option Graph
find_graph id [] = none
find_graph id ((i, g) ∷ rest) = if id == i then some g else find_graph id rest

-- The function with the blocks of `s` is generated.
abbrev pub compiled_of : ℕ → Graph → Store → Compiled
compiled_of id g s = record {
  id = id;
  keys = g.keys;
  blocks = s;
  restart_code = if is_main id then none else some (generate_restart_function id);
}

abbrev pub finish : ℕ → Graph → Store → Progress → Progress
finish id g s p = record p { compiled = compiled_of id g s ∷ p.compiled }

-- `generate` stands for `CodeGen` of another function.
module _ (generate : ℕ → Progress → Option Progress) where
  -- `getPtrToFunc`: a function is generated when it is met first.
  unfoldable pub get_ptrs_to : List ℕ → Progress → Option Progress
  get_ptrs_to [] p = some p
  get_ptrs_to (f ∷ fs) p =
      if has_key f p.started then get_ptrs_to fs p else (generate f p >>= get_ptrs_to fs)

  -- `GenCodeForInst`: `getPtrToFunc` for each function whose address the instruction takes, which may
  -- generate the function, and the code. What is generated for another function touches no block of
  -- this one, so that the pointers may be taken before the calls that they are arguments of.
  unfoldable pub gen_code_for_inst :
      (ℕ → Bool) → (ℕ → ℕ) → ZInstruction → Emitter → Progress → Option (Emitter × Progress)
  unfolding get_ptrs_to
  gen_code_for_inst has_block latest inst e p = do
    p' ← get_ptrs_to (fns_of inst inst.op_num) p
    e' ← inst_code has_block latest inst e
    some (e', p')

  unfoldable pub gen_insts :
      (ℕ → Bool) → (ℕ → ℕ) → List ZInstruction → Emitter → Progress → Option (Emitter × Progress)
  unfolding gen_code_for_inst
  gen_insts has_block latest [] e p = some (e, p)
  gen_insts has_block latest (inst ∷ rest) e p = do
    (e', p') ← gen_code_for_inst has_block latest inst e p
    gen_insts has_block latest rest e' p'

  -- `CodeGen` and `genTermInst` of a block of the function `id`.
  unfoldable pub gen_block : ℕ → Graph → ℕ → Store → Progress → Option (Emitter × Progress)
  unfolding gen_insts
  gen_block id g k s p = do
    let starts = is_main id && is_empty (g.prev k)
    let first = if starts then emit (call0 Callee.init) (s k) else s k
    (e, p') ← gen_insts (has_block_of g) (last_block s) (g.insts k) first p
    e' ← gen_term_inst (has_block_of g) (last_block s) (g.insts k) (front_of (g.next k)) e
    some (e', p')

  -- The loop over the blocks.
  unfoldable pub gen_blocks : ℕ → Graph → List ℕ → Store → Progress → Option (Store × Progress)
  unfolding gen_block
  gen_blocks id g [] s p = some (s, p)
  gen_blocks id g (k ∷ ks) s p = do
    (e, p') ← gen_block id g k s p
    gen_blocks id g ks (put_block e s) p'

  -- `GenFunction::CodeGen` once `LlvmFunc` is set.
  unfoldable pub gen_function : ℕ → Graph → Progress → Option Progress
  gen_function id g p = do (s, p') ← gen_blocks id g g.keys (new_store g) p; some (finish id g s p')

-- `CodeGen` of a function of the module, on fuel; one that the module lacks is a null pointer.
unfoldable pub gen_by_id : List (ℕ × Graph) → ℕ → ℕ → Progress → Option Progress
unfolding gen_function
gen_by_id fns zero id p = none
gen_by_id fns (suc fuel) id p =
    let generate = gen_by_id fns fuel in
    find_graph id fns >>= λ g. gen_function generate id g (record p { started = id ∷ p.started })

-- `MainFunction->CodeGen()` in `Context::compile` (src/Context.cpp). The main function is not among
-- those of the module.
unfoldable pub compile : List (ℕ × Graph) → Graph → Option Progress
unfolding gen_function gen_by_id
compile fns main =
    gen_function (gen_by_id fns (length fns + 1)) 0 main (record { started = []; compiled = [] })
