-- ===== src/ModuleCreator/Functions.antt =====
-- `initFunction` and the cutting loop of `generate` (src/GenModuleCreator.cpp). `at(0)` on an
-- empty queue throws, which is `none`.
pub mod Cuts
pub mod Splits
use camll_vm.Base.{
  ℕ, zero, suc, ◌+◌, max, Bool, true, false, ◌&&◌, ◌||◌, Option, none, some, List, [], ◌∷◌, ◌++◌,
  length, leb, if◌then◌else◌, ◌>>=◌,
}
use camll_vm.Instruction.{
  ZInstruction, InstrAnnotation, nothing, function_start, block_start, arg, get_dest_idx,
  is_jump_inst, is_push_trap, is_switch, is_return, is_grab_op, is_restart_op,
}

-- `SwitchEntries.back()`; that of an empty vector is a fault.
unfoldable pub back : List ℕ → Option ℕ
back [] = none
back (x ∷ []) = some x
back (x ∷ y ∷ ys) = back (y ∷ ys)

-- `MaxInstIdx` after an instruction.
unfoldable pub next_max_inst_idx : ℕ → ZInstruction → Option ℕ
next_max_inst_idx m inst =
    let m' = if is_jump_inst inst || is_push_trap inst then max m (get_dest_idx inst) else m in
    if is_switch inst then (back inst.switch_entries >>= λ last. some (max m' last)) else some m'

-- A queue is cut into the instructions of a function and what is left.
abbrev pub Cut : Type 0
Cut = List ZInstruction × List ZInstruction

-- The `while (true)` of `initFunction`.
unfoldable pub take_function : ℕ → List ZInstruction → Option Cut
take_function m [] = none
take_function m (inst ∷ rest) = do
  m' ← next_max_inst_idx m inst
  let more = take_function m' rest
  if is_return inst && leb m' inst.idx
      then some (inst ∷ [], rest)
      else (more >>= λ c. some (inst ∷ c.0, c.1))

-- A function with its identifier and its arity.
pub record Fn : Type 0 where
  pub id : ℕ
  pub arity : ℕ
  pub insts : List ZInstruction

unfoldable pub function_arity : ZInstruction → ℕ
function_arity inst = if is_grab_op inst.op_num then arg inst 0 + 1 else 1

unfoldable pub init_function : List ZInstruction → Option (Fn × List ZInstruction)
init_function [] = none
init_function (inst ∷ rest) = do
  c ← take_function 0 (inst ∷ rest)
  some (record { id = inst.idx; arity = function_arity inst; insts = c.0 }, c.1)

abbrev pub starts_function : InstrAnnotation → Bool
starts_function function_start = true
starts_function _ = false

-- What the cutting loop yields: the functions in order, and the main block's instructions.
pub record Split : Type 0 where
  pub functions : List Fn
  pub main : List ZInstruction

abbrev pub add_main : ZInstruction → Split → Split
add_main inst s = if is_restart_op inst.op_num then s else record s { main = inst ∷ s.main }

-- `while (QInstructions.size())`, on fuel: each round takes an instruction off the queue.
unfoldable pub split_functions : ℕ → List ZInstruction → Option Split
split_functions fuel [] = some (record { functions = []; main = [] })
split_functions zero (inst ∷ rest) = none
split_functions (suc fuel) (inst ∷ rest) = elim (starts_function inst.annotation) [
  | true ↦ (do
    (f, rest') ← init_function (inst ∷ rest)
    s ← split_functions fuel rest'
    some (record s { functions = f ∷ s.functions }))
  | false ↦ (do s ← split_functions fuel rest; some (add_main inst s))
]
