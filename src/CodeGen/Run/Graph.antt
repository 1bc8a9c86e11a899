-- ===== src/CodeGen/Run/Graph.antt =====
-- The integer ZINC machine on the blocks of a function, and the run of a function that
-- `GenFunction::CodeGen` (src/GenFunction.cpp) has generated.
use camll_vm.Base.{
  ℕ, zero, suc, Bool, true, false, ◌||◌, not, Option, none, some, List, [], ◌∷◌, ◌++◌, get_elem?,
  ltb, ◌==◌, if◌then◌else◌, ◌>>=◌,
}
use camll_vm.Opcode.{Opcode}
use camll_vm.Instruction.{ZInstruction, arg, is_branch_op, is_jump_op}
use camll_vm.ModuleCreator.Blocks.{Graph, has_key}
use camll_vm.Runtime.State.{Machine, Ocaml}
use camll_vm.CodeGen.Emit.{Label, label, Code}
use camll_vm.CodeGen.Block.{last_inst}
use camll_vm.CodeGen.Function.{Compiled, front_of}
use camll_vm.CodeGen.Run.{Process, Exit, run_block}
use camll_vm.CodeGen.Run.Spec.{Zinc, jumps, zinc_step}

-- A block goes to another, or leaves the function with a `RETURN` and its argument.
pub data Outcome : Type 0 where
  goes_to leaves : ℕ → Zinc → Outcome

abbrev pub branch_to : Graph → ℕ → Bool → Zinc → Option Outcome
branch_to g k taken z = do
  b ← g.br_block k
  n ← g.no_br_block k
  some (Outcome.goes_to (if taken then b else n) z)

abbrev pub goes_on : Graph → ℕ → Zinc → Option Outcome
goes_on g k z = do n ← front_of (g.next k); some (Outcome.goes_to n z)

module _ (cap : ℕ) (g : Graph) (k : ℕ) where
  abbrev pub zinc_other : ZInstruction → Option Bool → Zinc → Option Outcome
  zinc_other inst (some taken) z = branch_to g k taken z
  zinc_other inst none z = zinc_step cap inst z >>= goes_on g k

  -- The last instruction of the block `k`.
  unfoldable pub zinc_end : ZInstruction → Opcode → Zinc → Option Outcome
  zinc_end inst Opcode.return z = some (Outcome.leaves (arg inst 0) z)
  zinc_end inst Opcode.branch z = do b ← g.br_block k; some (Outcome.goes_to b z)
  zinc_end inst op z = zinc_other inst (jumps op (arg inst 0) z.accu) z

  unfoldable pub zinc_block : List ZInstruction → Zinc → Option Outcome
  unfolding zinc_end
  zinc_block [] z = none
  zinc_block (inst ∷ []) z = zinc_end inst inst.op_num z
  zinc_block (inst ∷ y ∷ rest) z = zinc_step cap inst z >>= zinc_block (y ∷ rest)

-- From the block `k` to a `RETURN`, in at most `n` blocks: the argument of the `RETURN`, and the state.
unfoldable pub zinc_graph : ℕ → Graph → ℕ → ℕ → Zinc → Option (ℕ × Zinc)
unfolding zinc_block
zinc_graph cap g zero k z = none
zinc_graph cap g (suc n) k z =
    let o = if has_key k g.keys then zinc_block cap g k (g.insts k) z else none in
    o >>= λ x. elim x [
      | Outcome.goes_to j z' ↦ zinc_graph cap g n j z'
      | Outcome.leaves a z' ↦ some (a, z')
    ]

-- The LLVM block with a label.
abbrev pub code_at : Compiled → Label → Option (List Code)
code_at c (label k i) =
    if has_key k c.keys
    then get_elem? ((c.blocks k).closed ++ (c.blocks k).current ∷ []) i
    else none

module _ (ml : Ocaml) (fuel : ℕ) (p : Process) where
  abbrev pub follow : (Label → ℕ → Machine → Option Exit) → Exit → Option Exit
  follow f (Exit.goes_to l last m) = f l last m
  follow f (Exit.returns m) = some (Exit.returns m)
  follow f (Exit.throws t) = some (Exit.throws t)

  -- A function from a label to its return or an exception, through at most `n` LLVM blocks, `last` being the
  -- result of the last call.
  unfoldable pub run_function : ℕ → Compiled → Label → ℕ → Machine → Option Exit
  unfolding run_block
  run_function zero c l last m = none
  run_function (suc n) c l last m =
      let goes_on = run_function n c in
      code_at c l >>= λ code. run_block ml fuel p code last m >>= follow goes_on

  -- After `handleReturn`: the caller's code is entered, if there is any.
  abbrev pub taken_up : ℕ × Machine → Option Exit
  taken_up r =
      if r.0 == 0
      then some (Exit.returns r.1)
      else (p.enter r.0 r.1 >>= λ m'. some (Exit.returns m'))

abbrev pub is_plain_return : Opcode → Bool
is_plain_return Opcode.return = true
is_plain_return _ = false

abbrev pub returns_op : Option ZInstruction → Bool
returns_op none = false
returns_op (some inst) = is_plain_return inst.op_num

-- Where a block goes without a condition; one that ends with a conditional branch goes nowhere so.
abbrev pub plain_next : Graph → ℕ → Option ZInstruction → Option ℕ
plain_next g k none = none
plain_next g k (some inst) =
    if is_branch_op inst.op_num
    then g.br_block k
    else if is_jump_op inst.op_num
    then none
    else front_of (g.next k)

abbrev pub ahead : Graph → ℕ → Option ℕ → Bool
ahead g k none = true
ahead g k (some j) = not (returns_op (last_inst (g.insts j))) || ltb k j

-- The block `k` goes to no earlier block that ends with a `RETURN`, but by a conditional branch.
abbrev pub goes_ahead : Graph → ℕ → Bool
goes_ahead g k = ahead g k (plain_next g k (last_inst (g.insts k)))
