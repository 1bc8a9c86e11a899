-- ===== src/CodeGen/Run.antt =====
-- Generated code, run on the machine: a name of the runtime's module (`GenModule::getFunction`,
-- src/GenModule.cpp) stands for the function of src/StdLib/CStdLib.c, and the instructions of LLVM
-- for what LLVM documents.
pub mod Spec
pub mod Steps
pub mod Binary
pub mod Plain
pub mod Simulation
pub mod Branches
pub mod Graph
pub mod Ends
pub mod Block
pub mod Made
pub mod Trips
pub mod Whole
pub mod Program
mod Tests
use camll_vm.Base.{
  ℕ, zero, suc, ◌%◌, Bool, not, Option, none, some, List, [], ◌∷◌, map, get_elem?, ◌==◌,
  if◌then◌else◌, ltb, leb, signed_lt, signed_le, ◌>>=◌,
}
use camll_vm.Runtime.Data
use camll_vm.Runtime.Closures
use camll_vm.Runtime.Frames
use camll_vm.Runtime.Objects
use camll_vm.Runtime.Exceptions.{get_new_buffer, remove_exception_context, Thrown, throw_exception}
use camll_vm.Runtime.State.{Machine, Ocaml}
use camll_vm.Runtime.Ints.{
  of_bool, add_int, neg_int, sub_int, and_int, or_int, xor_int, offset_int, mul_int, div_int,
  mod_int, lsl_int, lsr_int, asr_int, is_int, bool_not, cmp_eq, cmp_neq, lt_int, le_int, gt_int,
  ge_int, ult_int, uge_int,
}
use camll_vm.CodeGen.Emit.{Callee, Operand, Label, Comparison, Test, Code}

module _ (ml : Ocaml) (fuel : ℕ) where
  -- The result of a function without one is 0. A call with a wrong number of arguments, which LLVM
  -- refuses, is a fault. `fuel` is for the search of a method.
  unfoldable pub call_runtime : Callee → List ℕ → Machine → Option (ℕ × Machine)
  call_runtime Callee.init [] m = some (0, Data.init m)
  call_runtime Callee.const_int (a ∷ []) m = some (0, Data.const_int a m)
  call_runtime Callee.push [] m = some (0, Data.push m)
  call_runtime Callee.pop (a ∷ []) m = some (0, Data.pop a m)
  call_runtime Callee.acc (a ∷ []) m = some (0, Data.acc a m)
  call_runtime Callee.env_acc (a ∷ []) m = some (0, Data.env_acc ml a m)
  call_runtime Callee.assign (a ∷ []) m = some (0, Data.assign ml a m)
  call_runtime Callee.add_int [] m = some (0, add_int m)
  call_runtime Callee.neg_int [] m = some (0, neg_int m)
  call_runtime Callee.sub_int [] m = some (0, sub_int m)
  call_runtime Callee.and_int [] m = some (0, and_int m)
  call_runtime Callee.or_int [] m = some (0, or_int m)
  call_runtime Callee.xor_int [] m = some (0, xor_int m)
  call_runtime Callee.offset_int (a ∷ []) m = some (0, offset_int a m)
  call_runtime Callee.mul_int [] m = some (0, mul_int ml m)
  call_runtime Callee.div_int [] m = (div_int ml m >>= λ m'. some (0, m'))
  call_runtime Callee.mod_int [] m = (mod_int ml m >>= λ m'. some (0, m'))
  call_runtime Callee.lsl_int [] m = (lsl_int ml m >>= λ m'. some (0, m'))
  call_runtime Callee.lsr_int [] m = (lsr_int ml m >>= λ m'. some (0, m'))
  call_runtime Callee.asr_int [] m = (asr_int ml m >>= λ m'. some (0, m'))
  call_runtime Callee.is_int [] m = some (0, is_int ml m)
  call_runtime Callee.bool_not [] m = some (0, bool_not ml m)
  call_runtime Callee.cmp_eq [] m = some (0, cmp_eq ml m)
  call_runtime Callee.cmp_neq [] m = some (0, cmp_neq ml m)
  call_runtime Callee.lt_int [] m = some (0, lt_int ml m)
  call_runtime Callee.le_int [] m = some (0, le_int ml m)
  call_runtime Callee.gt_int [] m = some (0, gt_int ml m)
  call_runtime Callee.ge_int [] m = some (0, ge_int ml m)
  call_runtime Callee.ult_int [] m = some (0, ult_int ml m)
  call_runtime Callee.uge_int [] m = some (0, uge_int ml m)
  call_runtime Callee.get_field (a ∷ []) m = some (0, Data.get_field ml a m)
  call_runtime Callee.set_field (a ∷ []) m = some (0, Data.set_field ml a m)
  call_runtime Callee.get_atom (a ∷ []) m = some (0, Data.get_atom ml a m)
  call_runtime Callee.make_block1 (a ∷ []) m = some (0, Data.make_block1 ml a m)
  call_runtime Callee.make_block2 (a ∷ []) m = some (0, Data.make_block2 ml a m)
  call_runtime Callee.make_block3 (a ∷ []) m = some (0, Data.make_block3 ml a m)
  call_runtime Callee.make_block (a ∷ b ∷ []) m = some (0, Data.make_block ml a b m)
  call_runtime Callee.make_float_block (a ∷ []) m = some (0, Data.make_float_block ml a m)
  call_runtime Callee.store_double_field (a ∷ []) m = some (0, Data.store_double_field ml a m)
  call_runtime Callee.get_double_field (a ∷ []) m = some (0, Data.get_double_field ml a m)
  call_runtime Callee.get_global (a ∷ []) m = some (0, Data.get_global ml a m)
  call_runtime Callee.set_global (a ∷ []) m = some (0, Data.set_global ml a m)
  call_runtime Callee.vect_length [] m = some (0, Data.vect_length ml m)
  call_runtime Callee.get_vect_item [] m = some (0, Data.get_vect_item ml m)
  call_runtime Callee.set_vect_item [] m = some (0, Data.set_vect_item ml m)
  call_runtime Callee.get_string_char [] m = some (0, Data.get_string_char ml m)
  call_runtime Callee.set_string_char [] m = some (0, Data.set_string_char ml m)
  call_runtime Callee.offset_ref (a ∷ []) m = some (0, Data.offset_ref ml a m)
  call_runtime Callee.get_switch_offset (a ∷ b ∷ []) m = some (Data.get_switch_offset ml a b m, m)
  call_runtime Callee.closure_rec (a ∷ b ∷ c ∷ []) m = some (0, Closures.closure_rec ml a b c m)
  call_runtime Callee.set_closure_rec_nested_clos (a ∷ b ∷ []) m =
      some (0, Closures.set_closure_rec_nested_clos ml a b m)
  call_runtime Callee.closure (a ∷ b ∷ []) m = some (0, Closures.closure ml a b m)
  call_runtime Callee.offset_closure (a ∷ []) m = some (0, Closures.offset_closure ml a m)
  call_runtime Callee.create_restart_closure (a ∷ []) m =
      some (0, Closures.create_restart_closure ml a m)
  call_runtime Callee.check_grab (a ∷ []) m = some (of_bool (Frames.check_grab a m), m)
  call_runtime Callee.restart [] m = some (0, Closures.restart ml m)
  call_runtime Callee.subtract_extra_args (a ∷ []) m = some (0, Frames.subtract_extra_args a m)
  call_runtime Callee.get_method [] m = some (0, Objects.get_method ml m)
  call_runtime Callee.get_pub_met (a ∷ []) m =
      (Objects.get_pub_met ml fuel a m >>= λ m'. some (0, m'))
  call_runtime Callee.get_dyn_met [] m = (Objects.get_dyn_met ml fuel m >>= λ m'. some (0, m'))
  call_runtime Callee.c_call1 (a ∷ []) m = some (0, Frames.c_call1 ml a m)
  call_runtime Callee.c_call2 (a ∷ []) m = some (0, Frames.c_call2 ml a m)
  call_runtime Callee.c_call3 (a ∷ []) m = some (0, Frames.c_call3 ml a m)
  call_runtime Callee.c_call4 (a ∷ []) m = some (0, Frames.c_call4 ml a m)
  call_runtime Callee.c_call5 (a ∷ []) m = some (0, Frames.c_call5 ml a m)
  call_runtime Callee.c_calln (a ∷ b ∷ []) m = some (0, Frames.c_calln ml a b m)
  call_runtime Callee.apply (a ∷ []) m = some (Frames.apply ml a m)
  call_runtime Callee.apply1 [] m = some (Frames.apply1 ml m)
  call_runtime Callee.apply2 [] m = some (Frames.apply2 ml m)
  call_runtime Callee.apply3 [] m = some (Frames.apply3 ml m)
  call_runtime Callee.appterm (a ∷ b ∷ []) m = some (Frames.appterm ml a b m)
  call_runtime Callee.appterm1 (a ∷ []) m = some (Frames.appterm1 ml a m)
  call_runtime Callee.appterm2 (a ∷ []) m = some (Frames.appterm2 ml a m)
  call_runtime Callee.appterm3 (a ∷ []) m = some (Frames.appterm3 ml a m)
  call_runtime Callee.handle_return (a ∷ []) m = some (Frames.handle_return ml a m)
  call_runtime Callee.push_ret_addr [] m = some (0, Frames.push_ret_addr ml m)
  call_runtime Callee.push_trap [] m = some (0, Frames.push_trap ml m)
  call_runtime Callee.pop_trap [] m = some (0, Frames.pop_trap ml m)
  call_runtime Callee.get_exception_value [] m = some (0, Frames.get_exception_value ml m)
  call_runtime Callee.get_new_buffer [] m = (get_new_buffer m >>= λ m'. some (0, m'))
  call_runtime Callee.remove_exception_context [] m =
      (remove_exception_context m >>= λ m'. some (0, m'))
  call_runtime _ args m = none

-- How a run of a block ends. A block that is gone to can use the result of the last call before.
pub data Exit : Type 0 where
  returns : Machine → Exit
  goes_to : Label → ℕ → Machine → Exit
  throws : Thrown → Exit

unfoldable pub compare_words : Comparison → ℕ → ℕ → Bool
compare_words Comparison.eq a b = a == b
compare_words Comparison.ne a b = not (a == b)
compare_words Comparison.slt a b = signed_lt a b
compare_words Comparison.sle a b = signed_le a b
compare_words Comparison.sgt a b = signed_lt b a
compare_words Comparison.sge a b = signed_le b a
compare_words Comparison.ult a b = ltb a b
compare_words Comparison.uge a b = leb b a

-- Where functions and the restart function stand, and what a compiled function does until it
-- returns.
pub record Process : Type 0 where
  pub function_at : ℕ → ℕ
  pub restart_at : ℕ
  pub enter : ℕ → Machine → Option Machine

module _ (ml : Ocaml) (fuel : ℕ) (p : Process) where
  abbrev pub operand : Machine → Operand → ℕ
  operand m (Operand.const n) = n
  operand m (Operand.function i) = p.function_at i
  operand m Operand.accu = m.accu
  operand m Operand.restart_function = p.restart_at

  abbrev pub holds : Test → ℕ → Machine → Bool
  holds Test.low_bit last m = last % 2 == 1
  holds Test.not_null last m = not (last == 0)
  holds (Test.compares c a b) last m = compare_words c (operand m a) (operand m b)

  abbrev pub operands : Machine → List Operand → List ℕ
  operands m [] = []
  operands m (o ∷ os) = operand m o ∷ operands m os

  -- Calls alone, `last` being the result of the last one.
  unfoldable pub run_calls : List Code → ℕ → Machine → Option (ℕ × Machine)
  unfolding call_runtime
  run_calls [] last m = some (last, m)
  run_calls (Code.call f args ∷ rest) last m =
      call_runtime ml fuel f (operands m args) m >>= λ r. run_calls rest r.0 r.1
  run_calls (Code.invoke ∷ rest) last m = p.enter last m >>= λ m'. run_calls rest 0 m'
  run_calls (c ∷ rest) last m = none

  -- `throwException` does not return.
  abbrev thrown : Callee → List ℕ → Machine → Option Thrown
  thrown Callee.throw_exception (v ∷ []) m = some (throw_exception v m)
  thrown f args m = none

  abbrev case_of : Label → List Label → ℕ → Label
  case_of default [] n = default
  case_of default (l ∷ ls) zero = l
  case_of default (l ∷ ls) (suc n) = case_of default ls n

  -- A block from its beginning to its terminator. `sigsetjmp` returns 0 when it is called.
  unfoldable pub run_block : List Code → ℕ → Machine → Option Exit
  unfolding call_runtime compare_words
  run_block [] last m = none
  run_block (Code.call f args ∷ rest) last m =
      let more = call_runtime ml fuel f (operands m args) m >>= λ r. run_block rest r.0 r.1 in
      elim (thrown f (operands m args) m) [ some t ↦ some (Exit.throws t) | none ↦ more ]
  run_block (Code.set_jmp ∷ rest) last m = run_block rest 0 m
  run_block (Code.invoke ∷ rest) last m = p.enter last m >>= λ m'. run_block rest 0 m'
  run_block (Code.tail_invoke ∷ rest) last m = p.enter last m >>= λ m'. run_block rest 0 m'
  run_block (Code.tail_call f ∷ rest) last m =
      p.enter (p.function_at f) m >>= λ m'. run_block rest 0 m'
  run_block (Code.ret_void ∷ rest) last m = some (Exit.returns m)
  run_block (Code.br l ∷ rest) last m = some (Exit.goes_to l last m)
  run_block (Code.cond_br t l k ∷ rest) last m =
      some (Exit.goes_to (if holds t last m then l else k) last m)
  run_block (Code.switch_on d ls ∷ rest) last m = some (Exit.goes_to (case_of d ls last) last m)
