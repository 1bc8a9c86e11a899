-- ===== src/CodeGen/Families.antt =====
-- The opcodes that stand for others with an argument of their own, or with a push in front
-- (src/GenBlock.cpp).
use camll_vm.Base.{ℕ, ◌^◌, ◌-◌, ◌≡◌, refl, Option, none, some, List, [], ◌∷◌, ◌++◌}
use camll_vm.Opcode.{Opcode}
use camll_vm.Instruction.{ZInstruction}
use camll_vm.CodeGen.Emit.{Code}
use camll_vm.CodeGen.Straight.{
  push, gen_const, gen_acc, gen_arith, gen_data, closure_code, gen_call, gen_straight_at,
  gen_straight,
}

-- The opcodes with an argument of their own, as the general one with that argument.
abbrev pub general_form : Opcode → Option (Opcode × ℕ)
general_form Opcode.const0 = some (Opcode.constint, 0)
general_form Opcode.const1 = some (Opcode.constint, 1)
general_form Opcode.const2 = some (Opcode.constint, 2)
general_form Opcode.const3 = some (Opcode.constint, 3)
general_form Opcode.pushconst0 = some (Opcode.pushconstint, 0)
general_form Opcode.pushconst1 = some (Opcode.pushconstint, 1)
general_form Opcode.pushconst2 = some (Opcode.pushconstint, 2)
general_form Opcode.pushconst3 = some (Opcode.pushconstint, 3)
general_form Opcode.acc0 = some (Opcode.acc, 0)
general_form Opcode.acc1 = some (Opcode.acc, 1)
general_form Opcode.acc2 = some (Opcode.acc, 2)
general_form Opcode.acc3 = some (Opcode.acc, 3)
general_form Opcode.acc4 = some (Opcode.acc, 4)
general_form Opcode.acc5 = some (Opcode.acc, 5)
general_form Opcode.acc6 = some (Opcode.acc, 6)
general_form Opcode.acc7 = some (Opcode.acc, 7)
general_form Opcode.pushacc0 = some (Opcode.pushacc, 0)
general_form Opcode.pushacc1 = some (Opcode.pushacc, 1)
general_form Opcode.pushacc2 = some (Opcode.pushacc, 2)
general_form Opcode.pushacc3 = some (Opcode.pushacc, 3)
general_form Opcode.pushacc4 = some (Opcode.pushacc, 4)
general_form Opcode.pushacc5 = some (Opcode.pushacc, 5)
general_form Opcode.pushacc6 = some (Opcode.pushacc, 6)
general_form Opcode.pushacc7 = some (Opcode.pushacc, 7)
general_form Opcode.envacc1 = some (Opcode.envacc, 1)
general_form Opcode.envacc2 = some (Opcode.envacc, 2)
general_form Opcode.envacc3 = some (Opcode.envacc, 3)
general_form Opcode.envacc4 = some (Opcode.envacc, 4)
general_form Opcode.pushenvacc1 = some (Opcode.pushenvacc, 1)
general_form Opcode.pushenvacc2 = some (Opcode.pushenvacc, 2)
general_form Opcode.pushenvacc3 = some (Opcode.pushenvacc, 3)
general_form Opcode.pushenvacc4 = some (Opcode.pushenvacc, 4)
general_form Opcode.atom0 = some (Opcode.atom, 0)
general_form Opcode.pushatom0 = some (Opcode.pushatom, 0)
general_form Opcode.getfield0 = some (Opcode.getfield, 0)
general_form Opcode.getfield1 = some (Opcode.getfield, 1)
general_form Opcode.getfield2 = some (Opcode.getfield, 2)
general_form Opcode.getfield3 = some (Opcode.getfield, 3)
general_form Opcode.setfield0 = some (Opcode.setfield, 0)
general_form Opcode.setfield1 = some (Opcode.setfield, 1)
general_form Opcode.setfield2 = some (Opcode.setfield, 2)
general_form Opcode.setfield3 = some (Opcode.setfield, 3)
general_form Opcode.offsetclosure0 = some (Opcode.offsetclosure, 0)
general_form Opcode.offsetclosure2 = some (Opcode.offsetclosure, 2)
general_form Opcode.pushoffsetclosure0 = some (Opcode.pushoffsetclosure, 0)
general_form Opcode.pushoffsetclosure2 = some (Opcode.pushoffsetclosure, 2)
general_form Opcode.offsetclosurem2 = some (Opcode.offsetclosure, 2 ^ 32 - 2)
general_form Opcode.pushoffsetclosurem2 = some (Opcode.pushoffsetclosure, 2 ^ 32 - 2)
general_form _ = none

-- The opcodes that push the accumulator first, with what is left to do.
abbrev pub pushed_form : Opcode → Option Opcode
pushed_form Opcode.pushconst0 = some Opcode.const0
pushed_form Opcode.pushconst1 = some Opcode.const1
pushed_form Opcode.pushconst2 = some Opcode.const2
pushed_form Opcode.pushconst3 = some Opcode.const3
pushed_form Opcode.pushconstint = some Opcode.constint
pushed_form Opcode.pushacc0 = some Opcode.acc0
pushed_form Opcode.pushacc1 = some Opcode.acc1
pushed_form Opcode.pushacc2 = some Opcode.acc2
pushed_form Opcode.pushacc3 = some Opcode.acc3
pushed_form Opcode.pushacc4 = some Opcode.acc4
pushed_form Opcode.pushacc5 = some Opcode.acc5
pushed_form Opcode.pushacc6 = some Opcode.acc6
pushed_form Opcode.pushacc7 = some Opcode.acc7
pushed_form Opcode.pushacc = some Opcode.acc
pushed_form Opcode.pushenvacc1 = some Opcode.envacc1
pushed_form Opcode.pushenvacc2 = some Opcode.envacc2
pushed_form Opcode.pushenvacc3 = some Opcode.envacc3
pushed_form Opcode.pushenvacc4 = some Opcode.envacc4
pushed_form Opcode.pushenvacc = some Opcode.envacc
pushed_form Opcode.pushgetglobal = some Opcode.getglobal
pushed_form Opcode.pushgetglobalfield = some Opcode.getglobalfield
pushed_form Opcode.pushatom0 = some Opcode.atom0
pushed_form Opcode.pushatom = some Opcode.atom
pushed_form Opcode.pushoffsetclosure = some Opcode.offsetclosure
pushed_form Opcode.pushoffsetclosurem2 = some Opcode.offsetclosurem2
pushed_form Opcode.pushoffsetclosure0 = some Opcode.offsetclosure0
pushed_form Opcode.pushoffsetclosure2 = some Opcode.offsetclosure2
pushed_form _ = none

abbrev SameCode : Option (List Code) → Option (Opcode × ℕ) → ZInstruction → Type 0
SameCode r none inst = Unit {0}
SameCode r (some (op, n)) inst = r ≡ gen_straight_at (record inst { args = n ∷ [] }) op

general_lem :
    (inst : ZInstruction) (op : Opcode) → SameCode (gen_straight_at inst op) (general_form op) inst
unfolding gen_straight_at gen_const gen_acc gen_arith gen_data closure_code gen_call
general_lem inst Opcode.const0 = refl
general_lem inst Opcode.const1 = refl
general_lem inst Opcode.const2 = refl
general_lem inst Opcode.const3 = refl
general_lem inst Opcode.pushconst0 = refl
general_lem inst Opcode.pushconst1 = refl
general_lem inst Opcode.pushconst2 = refl
general_lem inst Opcode.pushconst3 = refl
general_lem inst Opcode.acc0 = refl
general_lem inst Opcode.acc1 = refl
general_lem inst Opcode.acc2 = refl
general_lem inst Opcode.acc3 = refl
general_lem inst Opcode.acc4 = refl
general_lem inst Opcode.acc5 = refl
general_lem inst Opcode.acc6 = refl
general_lem inst Opcode.acc7 = refl
general_lem inst Opcode.pushacc0 = refl
general_lem inst Opcode.pushacc1 = refl
general_lem inst Opcode.pushacc2 = refl
general_lem inst Opcode.pushacc3 = refl
general_lem inst Opcode.pushacc4 = refl
general_lem inst Opcode.pushacc5 = refl
general_lem inst Opcode.pushacc6 = refl
general_lem inst Opcode.pushacc7 = refl
general_lem inst Opcode.envacc1 = refl
general_lem inst Opcode.envacc2 = refl
general_lem inst Opcode.envacc3 = refl
general_lem inst Opcode.envacc4 = refl
general_lem inst Opcode.pushenvacc1 = refl
general_lem inst Opcode.pushenvacc2 = refl
general_lem inst Opcode.pushenvacc3 = refl
general_lem inst Opcode.pushenvacc4 = refl
general_lem inst Opcode.atom0 = refl
general_lem inst Opcode.pushatom0 = refl
general_lem inst Opcode.getfield0 = refl
general_lem inst Opcode.getfield1 = refl
general_lem inst Opcode.getfield2 = refl
general_lem inst Opcode.getfield3 = refl
general_lem inst Opcode.setfield0 = refl
general_lem inst Opcode.setfield1 = refl
general_lem inst Opcode.setfield2 = refl
general_lem inst Opcode.setfield3 = refl
general_lem inst Opcode.offsetclosure0 = refl
general_lem inst Opcode.offsetclosure2 = refl
general_lem inst Opcode.pushoffsetclosure0 = refl
general_lem inst Opcode.pushoffsetclosure2 = refl
general_lem inst Opcode.offsetclosurem2 = refl
general_lem inst Opcode.pushoffsetclosurem2 = refl
general_lem inst _ = tt

-- The code of an opcode with an argument of its own is that of the general opcode with that
-- argument.
pub gen_straight-general_form :
    (inst : ZInstruction) (op : Opcode) (n : ℕ)
    → general_form inst.op_num ≡ some (op, n)
    → gen_straight inst ≡ gen_straight (record inst { op_num = op; args = n ∷ [] })
unfolding gen_straight
gen_straight-general_form inst op n h = rw h at (general_lem inst inst.op_num)

abbrev PushesFirst : Option (List Code) → Option Opcode → ZInstruction → Type 0
PushesFirst r none inst = Unit {0}
PushesFirst r (some op) inst =
    (code : List Code) × (gen_straight_at inst op ≡ some code) × (r ≡ some (push ++ code))

pushed_lem :
    (inst : ZInstruction) (op : Opcode)
    → PushesFirst (gen_straight_at inst op) (pushed_form op) inst
unfolding gen_straight_at gen_const gen_acc gen_arith gen_data closure_code gen_call
pushed_lem inst Opcode.pushconst0 = (_, refl, refl)
pushed_lem inst Opcode.pushconst1 = (_, refl, refl)
pushed_lem inst Opcode.pushconst2 = (_, refl, refl)
pushed_lem inst Opcode.pushconst3 = (_, refl, refl)
pushed_lem inst Opcode.pushconstint = (_, refl, refl)
pushed_lem inst Opcode.pushacc0 = (_, refl, refl)
pushed_lem inst Opcode.pushacc1 = (_, refl, refl)
pushed_lem inst Opcode.pushacc2 = (_, refl, refl)
pushed_lem inst Opcode.pushacc3 = (_, refl, refl)
pushed_lem inst Opcode.pushacc4 = (_, refl, refl)
pushed_lem inst Opcode.pushacc5 = (_, refl, refl)
pushed_lem inst Opcode.pushacc6 = (_, refl, refl)
pushed_lem inst Opcode.pushacc7 = (_, refl, refl)
pushed_lem inst Opcode.pushacc = (_, refl, refl)
pushed_lem inst Opcode.pushenvacc1 = (_, refl, refl)
pushed_lem inst Opcode.pushenvacc2 = (_, refl, refl)
pushed_lem inst Opcode.pushenvacc3 = (_, refl, refl)
pushed_lem inst Opcode.pushenvacc4 = (_, refl, refl)
pushed_lem inst Opcode.pushenvacc = (_, refl, refl)
pushed_lem inst Opcode.pushgetglobal = (_, refl, refl)
pushed_lem inst Opcode.pushgetglobalfield = (_, refl, refl)
pushed_lem inst Opcode.pushatom0 = (_, refl, refl)
pushed_lem inst Opcode.pushatom = (_, refl, refl)
pushed_lem inst Opcode.pushoffsetclosure = (_, refl, refl)
pushed_lem inst Opcode.pushoffsetclosurem2 = (_, refl, refl)
pushed_lem inst Opcode.pushoffsetclosure0 = (_, refl, refl)
pushed_lem inst Opcode.pushoffsetclosure2 = (_, refl, refl)
pushed_lem inst _ = tt

-- The code of an opcode that pushes the accumulator first is a push and the code of the opcode
-- that it abbreviates.
pub gen_straight-pushed_form :
    (inst : ZInstruction) (op : Opcode)
    → pushed_form inst.op_num ≡ some op
    → (code : List Code) × (gen_straight (record inst { op_num = op }) ≡ some code)
      × (gen_straight inst ≡ some (push ++ code))
unfolding gen_straight
gen_straight-pushed_form inst op h = rw h at (pushed_lem inst inst.op_num)
