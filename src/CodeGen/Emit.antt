-- ===== src/CodeGen/Emit.antt =====
-- The code that `GenBlock` emits (src/GenBlock.cpp), as data: calls of the runtime's functions by
-- name, and the terminators of LLVM.
use camll_vm.Base.{ℕ, ◌+◌, ◌*◌, Bool, true, false, List, [], ◌∷◌, word}
use camll_vm.Instruction.{sign_extend}

-- The functions of the runtime that generated code calls.
pub data Callee : Type 0 where
  const_int pop push push_ret_addr acc env_acc add_int neg_int sub_int mul_int div_int : Callee
  mod_int offset_int and_int or_int xor_int lsl_int lsr_int asr_int bool_not is_int : Callee
  offset_ref ge_int lt_int le_int ult_int uge_int gt_int cmp_neq cmp_eq assign : Callee
  get_global set_global get_atom make_block1 make_block2 make_block3 make_block : Callee
  make_float_block set_field get_field store_double_field get_double_field : Callee
  vect_length get_vect_item set_vect_item get_string_char set_string_char : Callee
  closure_rec set_closure_rec_nested_clos closure offset_closure check_grab : Callee
  create_restart_closure subtract_extra_args get_method get_pub_met get_dyn_met : Callee
  c_call1 c_call2 c_call3 c_call4 c_call5 c_calln apply1 apply2 apply3 apply : Callee
  appterm1 appterm2 appterm3 appterm handle_return throw_exception init : Callee
  get_new_buffer push_trap pop_trap get_exception_value remove_exception_context : Callee
  get_switch_offset restart : Callee

-- A constant, the value of the accumulator, the function with an identifier, the restart function.
pub data Operand : Type 0 where
  const function : ℕ → Operand
  accu restart_function : Operand

-- The LLVM block number `k` of the `GenBlock` with an identifier.
pub data Label : Type 0 where
  label : ℕ → ℕ → Label

pub data Comparison : Type 0 where
  eq ne slt sle sgt sge ult uge : Comparison

-- The condition of a branch: the lowest bit of the last result, the last result not null, or a
-- comparison with the accumulator.
pub data Test : Type 0 where
  low_bit not_null : Test
  compares : Comparison → Operand → Operand → Test

-- `invoke` calls the function that the last call gave; `tail_invoke` is marked as a tail call, and
-- so is `tail_call`, of the function with an identifier.
pub data Code : Type 0 where
  call : Callee → List Operand → Code
  set_jmp invoke tail_invoke ret_void : Code
  tail_call : ℕ → Code
  br : Label → Code
  cond_br : Test → Label → Label → Code
  switch_on : Label → List Label → Code

abbrev pub is_terminator : Code → Bool
is_terminator ret_void = true
is_terminator (br l) = true
is_terminator (cond_br t l k) = true
is_terminator (switch_on l ls) = true
is_terminator _ = false

-- `ConstInt(n)` for an `int32_t`.
abbrev pub const_int32 : ℕ → Operand
const_int32 n = Operand.const (sign_extend n)

-- `ConstInt(Val_int(n))` for an `int32_t`.
abbrev pub const_val : ℕ → Operand
const_val n = Operand.const (word (2 * sign_extend n + 1))

abbrev pub call0 : Callee → List Code
call0 f = Code.call f [] ∷ []

abbrev pub call1 : Callee → Operand → List Code
call1 f a = Code.call f (a ∷ []) ∷ []

abbrev pub call2 : Callee → Operand → Operand → List Code
call2 f a b = Code.call f (a ∷ b ∷ []) ∷ []

abbrev pub call3 : Callee → Operand → Operand → Operand → List Code
call3 f a b c = Code.call f (a ∷ b ∷ c ∷ []) ∷ []
