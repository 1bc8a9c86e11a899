-- ===== src/Instruction.antt =====
-- `ZInstruction` and its tests (include/Instructions.hpp). An `int32_t` is its bit pattern.
use camll_vm.Base.{
  ℕ, zero, suc, ◌-◌, ◌+◌, ◌^◌, Bool, true, false, ◌&&◌, not, Option, none, some, List, [], ◌∷◌, ltb,
  if◌then◌else◌,
}
use camll_vm.Opcode.{Opcode}

pub data InstrAnnotation : Type 0 where
  nothing function_start block_start : InstrAnnotation

-- `args` is the array of four, `closure_rec_fns` that of 32.
pub record ZInstruction : Type 0 where
  pub op_num : Opcode
  pub args : List ℕ
  pub idx : ℕ
  pub orig_idx : ℕ
  pub closure_rec_fns : List ℕ
  pub switch_entries : List ℕ
  pub annotation : InstrAnnotation

abbrev pub get_or_zero : List ℕ → ℕ → ℕ
get_or_zero [] i = 0
get_or_zero (x ∷ xs) zero = x
get_or_zero (x ∷ xs) (suc i) = get_or_zero xs i

-- `Args[i]`.
abbrev pub arg : ZInstruction → ℕ → ℕ
arg inst i = get_or_zero inst.args i

-- The number of rounds of `for (int j = 0; j < n; j++)`, for the pattern of an `int32_t`.
abbrev pub rounds : ℕ → ℕ
rounds n = if ltb n (2 ^ 31) then n else 0

-- The 64-bit pattern of an `int32_t`: the conversion of an argument to `uint64_t`.
abbrev pub sign_extend : ℕ → ℕ
sign_extend n = if ltb n (2 ^ 31) then n else n + (2 ^ 64 - 2 ^ 32)

-- `CodeOffsetArgs`: which argument of an opcode is a code offset.
unfoldable pub code_offset_args : Opcode → Option ℕ
code_offset_args Opcode.push_retaddr = some 0
code_offset_args Opcode.closure = some 1
code_offset_args Opcode.branch = some 0
code_offset_args Opcode.branchif = some 0
code_offset_args Opcode.branchifnot = some 0
code_offset_args Opcode.pushtrap = some 0
code_offset_args Opcode.beq = some 1
code_offset_args Opcode.bneq = some 1
code_offset_args Opcode.bltint = some 1
code_offset_args Opcode.bleint = some 1
code_offset_args Opcode.bgtint = some 1
code_offset_args Opcode.bgeint = some 1
code_offset_args Opcode.bultint = some 1
code_offset_args Opcode.bugeint = some 1
code_offset_args _ = none

unfoldable pub is_jump_op : Opcode → Bool
is_jump_op Opcode.branch = true
is_jump_op Opcode.branchif = true
is_jump_op Opcode.branchifnot = true
is_jump_op Opcode.beq = true
is_jump_op Opcode.bneq = true
is_jump_op Opcode.bltint = true
is_jump_op Opcode.bleint = true
is_jump_op Opcode.bgtint = true
is_jump_op Opcode.bgeint = true
is_jump_op Opcode.bultint = true
is_jump_op Opcode.bugeint = true
is_jump_op _ = false

unfoldable pub is_return_op : Opcode → Bool
is_return_op Opcode.raise = true
is_return_op Opcode.appterm = true
is_return_op Opcode.appterm1 = true
is_return_op Opcode.appterm2 = true
is_return_op Opcode.appterm3 = true
is_return_op Opcode.stop = true
is_return_op Opcode.return = true
is_return_op _ = false

abbrev pub is_branch_op : Opcode → Bool
is_branch_op Opcode.branch = true
is_branch_op _ = false

abbrev pub is_closure_op : Opcode → Bool
is_closure_op Opcode.closure = true
is_closure_op _ = false

abbrev pub is_closurerec_op : Opcode → Bool
is_closurerec_op Opcode.closurerec = true
is_closurerec_op _ = false

abbrev pub is_switch_op : Opcode → Bool
is_switch_op Opcode.switch = true
is_switch_op _ = false

abbrev pub is_pushtrap_op : Opcode → Bool
is_pushtrap_op Opcode.pushtrap = true
is_pushtrap_op _ = false

abbrev pub is_grab_op : Opcode → Bool
is_grab_op Opcode.grab = true
is_grab_op _ = false

abbrev pub is_restart_op : Opcode → Bool
is_restart_op Opcode.restart = true
is_restart_op _ = false

abbrev pub is_jump_inst : ZInstruction → Bool
is_jump_inst inst = is_jump_op inst.op_num

abbrev pub is_uncond_jump : ZInstruction → Bool
is_uncond_jump inst = is_branch_op inst.op_num

abbrev pub is_cond_jump : ZInstruction → Bool
is_cond_jump inst = is_jump_inst inst && not (is_uncond_jump inst)

abbrev pub is_closure : ZInstruction → Bool
is_closure inst = is_closure_op inst.op_num

abbrev pub is_closure_rec : ZInstruction → Bool
is_closure_rec inst = is_closurerec_op inst.op_num

abbrev pub is_switch : ZInstruction → Bool
is_switch inst = is_switch_op inst.op_num

abbrev pub is_push_trap : ZInstruction → Bool
is_push_trap inst = is_pushtrap_op inst.op_num

abbrev pub is_return : ZInstruction → Bool
is_return inst = is_return_op inst.op_num

-- `CodeOffsetArgs[OpNum]`, which is 0 for an opcode that the map lacks.
abbrev pub offset_arg_or_zero : Option ℕ → ℕ
offset_arg_or_zero none = 0
offset_arg_or_zero (some j) = j

unfoldable pub get_dest_idx : ZInstruction → ℕ
get_dest_idx inst = arg inst (offset_arg_or_zero (code_offset_args inst.op_num))
