-- ===== src/CodeGen/Tests.antt =====
-- The theorems on src/GenBlock.cpp at small blocks.
use camll_vm.Base.{ℕ, ◌≡◌, refl, Bool, true, false, Option, none, some, List, [], ◌∷◌, ◌++◌}
use camll_vm.Opcode.{Opcode}
use camll_vm.Instruction.{ZInstruction, InstrAnnotation, is_jump_op, is_return_op}
use camll_vm.CodeGen.Emit.{Code}
use camll_vm.CodeGen.Straight.{
  push, gen_const, gen_acc, gen_arith, gen_data, closure_code, gen_call, gen_straight_at,
  gen_straight,
}
use camll_vm.CodeGen.Block.{
  new_block, Emitter, add_block, gen_grab, gen_return, gen_control, inst_code, gen_code, code_gen,
  gen_term_inst,
}
use camll_vm.CodeGen.Sealed.{IsClosed}
use camll_vm.CodeGen.Terminators.{code_gen-IsClosed}
use camll_vm.CodeGen.Families.{gen_straight-general_form, gen_straight-pushed_form}
use camll_vm.CodeGen.Handled.{gen_code_for_inst_returns}
use camll_vm.CodeGen.Function.{Progress, fns_of, get_ptrs_to, gen_code_for_inst}

abbrev plain : Opcode → List ℕ → ZInstruction
plain op args = record {
  op_num = op;
  args = args;
  idx = 0;
  orig_idx = 0;
  closure_rec_fns = [];
  switch_entries = [];
  annotation = InstrAnnotation.nothing;
}

abbrev any_block : ℕ → Bool
any_block i = true

abbrev first_block : ℕ → ℕ
first_block i = 0

-- `GRAB 1; ACC0; RETURN 2`.
abbrev inner : List ZInstruction
inner = plain Opcode.grab (1 ∷ []) ∷ plain Opcode.acc0 [] ∷ []

abbrev return_ : ZInstruction
return_ = plain Opcode.return (2 ∷ [])

abbrev emitted : Option Emitter
emitted = code_gen any_block first_block false (inner ++ return_ ∷ []) (new_block 3 none none)

abbrev or_new : Option Emitter → Emitter
or_new none = new_block 3 none none
or_new (some e) = e

code_gen-IsClosed_example : IsClosed (or_new emitted)
unfolding code_gen gen_code inst_code gen_straight gen_straight_at gen_const gen_acc gen_arith
    gen_data closure_code gen_call gen_control gen_grab gen_return add_block gen_term_inst
    is_jump_op is_return_op
code_gen-IsClosed_example =
    code_gen-IsClosed any_block first_block false inner return_ 3 none none none (or_new emitted)
      (or_new emitted) (refl, (refl, tt)) refl refl

-- The function 7 has been started.
abbrev with_seven : Progress
with_seven = record { started = 7 ∷ []; compiled = [] }

abbrev no_other : ℕ → Progress → Option Progress
no_other f p = none

gen_code_for_inst_returns_example :
    (e' : Emitter) × (gen_code_for_inst no_other any_block first_block
        (plain Opcode.closure (0 ∷ 7 ∷ []))
        (new_block 3 none none)
        with_seven
      ≡ some (e', with_seven))
unfolding get_ptrs_to fns_of is_jump_op
gen_code_for_inst_returns_example =
    gen_code_for_inst_returns no_other any_block first_block (plain Opcode.closure (0 ∷ 7 ∷ []))
      (new_block 3 none none) with_seven with_seven refl
      (record { jump = λ h. cc; goes_on = λ h g. cc; handler = λ h. cc; entries = λ h. cc }) refl

gen_straight-general_form_example :
    gen_straight (plain Opcode.pushacc3 []) ≡ gen_straight (plain Opcode.pushacc (3 ∷ []))
gen_straight-general_form_example =
    gen_straight-general_form (plain Opcode.pushacc3 []) Opcode.pushacc 3 refl

gen_straight-pushed_form_example :
    (code : List Code) × (gen_straight (plain Opcode.getglobalfield (6 ∷ 2 ∷ [])) ≡ some code)
    × (gen_straight (plain Opcode.pushgetglobalfield (6 ∷ 2 ∷ [])) ≡ some (push ++ code))
gen_straight-pushed_form_example =
    gen_straight-pushed_form (plain Opcode.pushgetglobalfield (6 ∷ 2 ∷ [])) Opcode.getglobalfield
      refl
