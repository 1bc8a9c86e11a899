-- ===== src/CodeGen/Calls.antt =====
-- The instructions that emit calls alone (src/GenBlock.cpp) emit no terminator.
use camll_vm.Base.{ℕ, zero, suc, ◌+◌, ◌-◌, ◌≡◌, refl, Bool, true, not, Option, none, some, List}
use camll_vm.Opcode.{Opcode}
use camll_vm.Instruction.{ZInstruction, arg, rounds, is_jump_op, is_return_op}
use camll_vm.CodeGen.Emit.{Code}
use camll_vm.CodeGen.Straight.{
  gen_const, gen_acc, gen_arith, gen_data, gen_nested, closure_code, gen_call, or_else,
  gen_straight_at,
}
use camll_vm.CodeGen.Sealed.{runs_on, ends_block}

abbrev pub calls_only : Option (List Code) → Bool
calls_only none = true
calls_only (some code) = runs_on code

const_lem : (inst : ZInstruction) (op : Opcode) → calls_only (gen_const inst op) ≡ true
unfolding gen_const
const_lem inst Opcode.const0 = refl
const_lem inst _ = refl

acc_lem : (inst : ZInstruction) (op : Opcode) → calls_only (gen_acc inst op) ≡ true
unfolding gen_acc
acc_lem inst Opcode.acc0 = refl
acc_lem inst _ = refl

arith_lem : (inst : ZInstruction) (op : Opcode) → calls_only (gen_arith inst op) ≡ true
unfolding gen_arith
arith_lem inst Opcode.addint = refl
arith_lem inst _ = refl

data_lem : (inst : ZInstruction) (op : Opcode) → calls_only (gen_data inst op) ≡ true
unfolding gen_data
data_lem inst Opcode.assign = refl
data_lem inst _ = refl

nested_lem : (n i : ℕ) (fns : List ℕ) → runs_on (gen_nested n i fns) ≡ true
unfolding gen_nested
nested_lem zero i fns = refl
nested_lem (suc n) i fns = nested_lem n (i + 1) fns

closure_lem : (inst : ZInstruction) (op : Opcode) → calls_only (closure_code inst op) ≡ true
unfolding closure_code
closure_lem inst Opcode.closurerec = nested_lem (rounds (arg inst 0) - 1) 1 inst.closure_rec_fns
closure_lem inst _ = refl

call_lem : (inst : ZInstruction) (op : Opcode) → calls_only (gen_call inst op) ≡ true
unfolding gen_call
call_lem inst Opcode.apply = refl
call_lem inst _ = refl

or_else_lem :
    (o p : Option (List Code))
    → calls_only o ≡ true
    → calls_only p ≡ true
    → calls_only (or_else o p) ≡ true
or_else_lem none p h g = g
or_else_lem (some c) p h g = h

pub straight_lem : (inst : ZInstruction) (op : Opcode) → calls_only (gen_straight_at inst op) ≡ true
unfolding gen_straight_at
straight_lem inst op = or_else_lem (gen_const inst op) _ (const_lem inst op) (
    or_else_lem (gen_acc inst op) _ (acc_lem inst op) (
      or_else_lem (gen_arith inst op) _ (arith_lem inst op) (
        or_else_lem (gen_data inst op) _ (data_lem inst op)
          (or_else_lem (closure_code inst op) _ (closure_lem inst op) (call_lem inst op)))))

-- An instruction that only emits calls does not end a block.
abbrev pub ends_nothing : Option (List Code) → Opcode → Bool
ends_nothing none op = true
ends_nothing (some c) op = not (ends_block op)

pub ends_nothing_lem :
    (inst : ZInstruction) (op : Opcode) → ends_nothing (gen_straight_at inst op) op ≡ true
unfolding gen_straight_at gen_const gen_acc gen_arith gen_data closure_code gen_call is_jump_op
    is_return_op
ends_nothing_lem inst Opcode.acc0 = refl
ends_nothing_lem inst _ = refl
