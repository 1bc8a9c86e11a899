-- ===== src/CodeGen/Straight.antt =====
-- The instructions that emit calls alone (`GenCodeForInst`, src/GenBlock.cpp), section by section.
use camll_vm.Base.{ℕ, zero, suc, ◌+◌, ◌-◌, ◌*◌, ◌^◌, Option, none, some, List, [], ◌∷◌, ◌++◌}
use camll_vm.Endian.{u32}
use camll_vm.Opcode.{Opcode}
use camll_vm.Instruction.{ZInstruction, arg, rounds, get_or_zero}
use camll_vm.CodeGen.Emit.{
  Callee, Operand, Code, const_int32, const_val, call0, call1, call2, call3,
}

-- `push()`.
abbrev pub push : List Code
push = call0 Callee.push

-- Constants and the stack. The opcode is that of the instruction.
unfoldable pub gen_const : ZInstruction → Opcode → Option (List Code)
gen_const inst Opcode.const0 = some (call1 Callee.const_int (const_val 0))
gen_const inst Opcode.const1 = some (call1 Callee.const_int (const_val 1))
gen_const inst Opcode.const2 = some (call1 Callee.const_int (const_val 2))
gen_const inst Opcode.const3 = some (call1 Callee.const_int (const_val 3))
gen_const inst Opcode.constint = some (call1 Callee.const_int (const_val (arg inst 0)))
gen_const inst Opcode.pushconst0 = some (push ++ call1 Callee.const_int (const_val 0))
gen_const inst Opcode.pushconst1 = some (push ++ call1 Callee.const_int (const_val 1))
gen_const inst Opcode.pushconst2 = some (push ++ call1 Callee.const_int (const_val 2))
gen_const inst Opcode.pushconst3 = some (push ++ call1 Callee.const_int (const_val 3))
gen_const inst Opcode.pushconstint = some (push ++ call1 Callee.const_int (const_val (arg inst 0)))
gen_const inst Opcode.pop = some (call1 Callee.pop (const_int32 (arg inst 0)))
gen_const inst Opcode.push = some (push)
gen_const inst Opcode.push_retaddr = some (call0 Callee.push_ret_addr)
gen_const inst _ = none

-- Accesses to the stack and to the environment.
unfoldable pub gen_acc : ZInstruction → Opcode → Option (List Code)
gen_acc inst Opcode.acc0 = some (call1 Callee.acc (Operand.const 0))
gen_acc inst Opcode.acc1 = some (call1 Callee.acc (Operand.const 1))
gen_acc inst Opcode.acc2 = some (call1 Callee.acc (Operand.const 2))
gen_acc inst Opcode.acc3 = some (call1 Callee.acc (Operand.const 3))
gen_acc inst Opcode.acc4 = some (call1 Callee.acc (Operand.const 4))
gen_acc inst Opcode.acc5 = some (call1 Callee.acc (Operand.const 5))
gen_acc inst Opcode.acc6 = some (call1 Callee.acc (Operand.const 6))
gen_acc inst Opcode.acc7 = some (call1 Callee.acc (Operand.const 7))
gen_acc inst Opcode.acc = some (call1 Callee.acc (const_int32 (arg inst 0)))
gen_acc inst Opcode.pushacc0 = some (push ++ call1 Callee.acc (Operand.const 0))
gen_acc inst Opcode.pushacc1 = some (push ++ call1 Callee.acc (Operand.const 1))
gen_acc inst Opcode.pushacc2 = some (push ++ call1 Callee.acc (Operand.const 2))
gen_acc inst Opcode.pushacc3 = some (push ++ call1 Callee.acc (Operand.const 3))
gen_acc inst Opcode.pushacc4 = some (push ++ call1 Callee.acc (Operand.const 4))
gen_acc inst Opcode.pushacc5 = some (push ++ call1 Callee.acc (Operand.const 5))
gen_acc inst Opcode.pushacc6 = some (push ++ call1 Callee.acc (Operand.const 6))
gen_acc inst Opcode.pushacc7 = some (push ++ call1 Callee.acc (Operand.const 7))
gen_acc inst Opcode.pushacc = some (push ++ call1 Callee.acc (const_int32 (arg inst 0)))
gen_acc inst Opcode.envacc1 = some (call1 Callee.env_acc (Operand.const 1))
gen_acc inst Opcode.envacc2 = some (call1 Callee.env_acc (Operand.const 2))
gen_acc inst Opcode.envacc3 = some (call1 Callee.env_acc (Operand.const 3))
gen_acc inst Opcode.envacc4 = some (call1 Callee.env_acc (Operand.const 4))
gen_acc inst Opcode.envacc = some (call1 Callee.env_acc (const_int32 (arg inst 0)))
gen_acc inst Opcode.pushenvacc1 = some (push ++ call1 Callee.env_acc (Operand.const 1))
gen_acc inst Opcode.pushenvacc2 = some (push ++ call1 Callee.env_acc (Operand.const 2))
gen_acc inst Opcode.pushenvacc3 = some (push ++ call1 Callee.env_acc (Operand.const 3))
gen_acc inst Opcode.pushenvacc4 = some (push ++ call1 Callee.env_acc (Operand.const 4))
gen_acc inst Opcode.pushenvacc = some (push ++ call1 Callee.env_acc (const_int32 (arg inst 0)))
gen_acc inst _ = none

-- Arithmetic and comparisons.
unfoldable pub gen_arith : ZInstruction → Opcode → Option (List Code)
gen_arith inst Opcode.addint = some (call0 Callee.add_int)
gen_arith inst Opcode.negint = some (call0 Callee.neg_int)
gen_arith inst Opcode.subint = some (call0 Callee.sub_int)
gen_arith inst Opcode.mulint = some (call0 Callee.mul_int)
gen_arith inst Opcode.divint = some (call0 Callee.div_int)
gen_arith inst Opcode.modint = some (call0 Callee.mod_int)
gen_arith inst Opcode.offsetint =
    some (call1 Callee.offset_int (const_int32 (u32 (2 * arg inst 0))))
gen_arith inst Opcode.andint = some (call0 Callee.and_int)
gen_arith inst Opcode.orint = some (call0 Callee.or_int)
gen_arith inst Opcode.xorint = some (call0 Callee.xor_int)
gen_arith inst Opcode.lslint = some (call0 Callee.lsl_int)
gen_arith inst Opcode.lsrint = some (call0 Callee.lsr_int)
gen_arith inst Opcode.asrint = some (call0 Callee.asr_int)
gen_arith inst Opcode.boolnot = some (call0 Callee.bool_not)
gen_arith inst Opcode.isint = some (call0 Callee.is_int)
gen_arith inst Opcode.offsetref = some (call1 Callee.offset_ref (const_int32 (arg inst 0)))
gen_arith inst Opcode.geint = some (call0 Callee.ge_int)
gen_arith inst Opcode.ltint = some (call0 Callee.lt_int)
gen_arith inst Opcode.leint = some (call0 Callee.le_int)
gen_arith inst Opcode.ultint = some (call0 Callee.ult_int)
gen_arith inst Opcode.ugeint = some (call0 Callee.uge_int)
gen_arith inst Opcode.gtint = some (call0 Callee.gt_int)
gen_arith inst Opcode.neq = some (call0 Callee.cmp_neq)
gen_arith inst Opcode.eq = some (call0 Callee.cmp_eq)
gen_arith inst _ = none

-- Globals, atoms, blocks, fields, vectors and strings.
unfoldable pub gen_data : ZInstruction → Opcode → Option (List Code)
gen_data inst Opcode.assign = some (call1 Callee.assign (const_int32 (arg inst 0)))
gen_data inst Opcode.pushgetglobal =
    some (push ++ call1 Callee.get_global (const_int32 (arg inst 0)))
gen_data inst Opcode.getglobal = some (call1 Callee.get_global (const_int32 (arg inst 0)))
gen_data inst Opcode.setglobal = some (call1 Callee.set_global (const_int32 (arg inst 0)))
gen_data inst Opcode.pushgetglobalfield = some (
    push
    ++ call1 Callee.get_global (const_int32 (arg inst 0))
    ++ call1 Callee.get_field (const_int32 (arg inst 1)))
gen_data inst Opcode.getglobalfield = some (
    call1 Callee.get_global (const_int32 (arg inst 0))
    ++ call1 Callee.get_field (const_int32 (arg inst 1)))
gen_data inst Opcode.pushatom0 = some (push ++ call1 Callee.get_atom (Operand.const 0))
gen_data inst Opcode.atom0 = some (call1 Callee.get_atom (Operand.const 0))
gen_data inst Opcode.pushatom = some (push ++ call1 Callee.get_atom (const_int32 (arg inst 0)))
gen_data inst Opcode.atom = some (call1 Callee.get_atom (const_int32 (arg inst 0)))
gen_data inst Opcode.makeblock1 = some (call1 Callee.make_block1 (const_int32 (arg inst 0)))
gen_data inst Opcode.makeblock2 = some (call1 Callee.make_block2 (const_int32 (arg inst 0)))
gen_data inst Opcode.makeblock3 = some (call1 Callee.make_block3 (const_int32 (arg inst 0)))
gen_data inst Opcode.makeblock =
    some (call2 Callee.make_block (const_int32 (arg inst 1)) (const_int32 (arg inst 0)))
gen_data inst Opcode.makefloatblock =
    some (call1 Callee.make_float_block (const_int32 (arg inst 0)))
gen_data inst Opcode.setfield0 = some (call1 Callee.set_field (Operand.const 0))
gen_data inst Opcode.setfield1 = some (call1 Callee.set_field (Operand.const 1))
gen_data inst Opcode.setfield2 = some (call1 Callee.set_field (Operand.const 2))
gen_data inst Opcode.setfield3 = some (call1 Callee.set_field (Operand.const 3))
gen_data inst Opcode.setfield = some (call1 Callee.set_field (const_int32 (arg inst 0)))
gen_data inst Opcode.setfloatfield =
    some (call1 Callee.store_double_field (const_int32 (arg inst 0)))
gen_data inst Opcode.getfield0 = some (call1 Callee.get_field (Operand.const 0))
gen_data inst Opcode.getfield1 = some (call1 Callee.get_field (Operand.const 1))
gen_data inst Opcode.getfield2 = some (call1 Callee.get_field (Operand.const 2))
gen_data inst Opcode.getfield3 = some (call1 Callee.get_field (Operand.const 3))
gen_data inst Opcode.getfield = some (call1 Callee.get_field (const_int32 (arg inst 0)))
gen_data inst Opcode.getfloatfield = some (call1 Callee.get_double_field (const_int32 (arg inst 0)))
gen_data inst Opcode.vectlength = some (call0 Callee.vect_length)
gen_data inst Opcode.getvectitem = some (call0 Callee.get_vect_item)
gen_data inst Opcode.setvectitem = some (call0 Callee.set_vect_item)
gen_data inst Opcode.getstringchar = some (call0 Callee.get_string_char)
gen_data inst Opcode.setstringchar = some (call0 Callee.set_string_char)
gen_data inst _ = none

-- The loop over the nested closures, with `n` rounds left.
unfoldable pub gen_nested : ℕ → ℕ → List ℕ → List Code
gen_nested zero i fns = []
gen_nested (suc n) i fns =
    call2 Callee.set_closure_rec_nested_clos (Operand.const i)
      (Operand.function (get_or_zero fns i))
    ++ gen_nested n (i + 1) fns

-- Closures, with the pointers to functions at hand: what `getPtrToFunc` does to get them, and where it fails,
-- is `get_ptrs_to`, which `gen_code_for_inst` goes through first.
unfoldable pub closure_code : ZInstruction → Opcode → Option (List Code)
closure_code inst Opcode.closurerec = some (
    call3 Callee.closure_rec (const_int32 (arg inst 0)) (const_int32 (arg inst 1))
      (Operand.function (get_or_zero inst.closure_rec_fns 0))
    ++ gen_nested (rounds (arg inst 0) - 1) 1 inst.closure_rec_fns)
closure_code inst Opcode.closure =
    some (call2 Callee.closure (const_int32 (arg inst 0)) (Operand.function (arg inst 1)))
closure_code inst Opcode.pushoffsetclosure =
    some (push ++ call1 Callee.offset_closure (const_int32 (arg inst 0)))
closure_code inst Opcode.offsetclosure =
    some (call1 Callee.offset_closure (const_int32 (arg inst 0)))
closure_code inst Opcode.pushoffsetclosurem2 =
    some (push ++ call1 Callee.offset_closure (Operand.const (2 ^ 64 - 2)))
closure_code inst Opcode.offsetclosurem2 =
    some (call1 Callee.offset_closure (Operand.const (2 ^ 64 - 2)))
closure_code inst Opcode.pushoffsetclosure0 =
    some (push ++ call1 Callee.offset_closure (Operand.const 0))
closure_code inst Opcode.offsetclosure0 = some (call1 Callee.offset_closure (Operand.const 0))
closure_code inst Opcode.pushoffsetclosure2 =
    some (push ++ call1 Callee.offset_closure (Operand.const 2))
closure_code inst Opcode.offsetclosure2 = some (call1 Callee.offset_closure (Operand.const 2))
closure_code inst _ = none

-- Methods, primitives, applications, `POPTRAP` and `CHECK_SIGNALS`.
unfoldable pub gen_call : ZInstruction → Opcode → Option (List Code)
gen_call inst Opcode.getmethod = some (call0 Callee.get_method)
gen_call inst Opcode.getpubmet = some (call1 Callee.get_pub_met (const_int32 (arg inst 0)))
gen_call inst Opcode.getdynmet = some (call0 Callee.get_dyn_met)
gen_call inst Opcode.c_call1 = some (call1 Callee.c_call1 (const_int32 (arg inst 0)))
gen_call inst Opcode.c_call2 = some (call1 Callee.c_call2 (const_int32 (arg inst 0)))
gen_call inst Opcode.c_call3 = some (call1 Callee.c_call3 (const_int32 (arg inst 0)))
gen_call inst Opcode.c_call4 = some (call1 Callee.c_call4 (const_int32 (arg inst 0)))
gen_call inst Opcode.c_call5 = some (call1 Callee.c_call5 (const_int32 (arg inst 0)))
gen_call inst Opcode.c_calln =
    some (call2 Callee.c_calln (const_int32 (arg inst 0)) (const_int32 (arg inst 1)))
gen_call inst Opcode.apply1 = some (call0 Callee.apply1 ++ Code.invoke ∷ [])
gen_call inst Opcode.apply2 = some (call0 Callee.apply2 ++ Code.invoke ∷ [])
gen_call inst Opcode.apply3 = some (call0 Callee.apply3 ++ Code.invoke ∷ [])
gen_call inst Opcode.apply =
    some (call1 Callee.apply (const_int32 (arg inst 0)) ++ Code.invoke ∷ [])
gen_call inst Opcode.poptrap = some (call0 Callee.remove_exception_context ++ call0 Callee.pop_trap)
gen_call inst Opcode.check_signals = some ([])
gen_call inst _ = none

abbrev pub or_else : Option (List Code) → Option (List Code) → Option (List Code)
or_else none o = o
or_else (some c) o = some c

unfoldable pub gen_straight_at : ZInstruction → Opcode → Option (List Code)
unfolding gen_const gen_acc gen_arith gen_data closure_code gen_call
gen_straight_at inst op = or_else (gen_const inst op) (
    or_else (gen_acc inst op) (
      or_else (gen_arith inst op)
        (or_else (gen_data inst op) (or_else (closure_code inst op) (gen_call inst op)))))

-- The calls of an instruction that emits no terminator and opens no block.
unfoldable pub gen_straight : ZInstruction → Option (List Code)
unfolding gen_straight_at
gen_straight inst = gen_straight_at inst inst.op_num
