-- ===== src/Opcode.antt =====
-- The opcodes of the ZINC machine with their arities (include/Instructions.hpp).
use camll_vm.Base.{ℕ, List, [], ◌∷◌}

-- The enumerators of `OpCodes`, in the order of `OPCODE_NODE_LIST`, which numbers them.
pub data Opcode : Type 0 where
  acc0 acc1 acc2 acc3 acc4 acc5 acc6 acc7 acc push pushacc0 pushacc1 pushacc2 : Opcode
  pushacc3 pushacc4 pushacc5 pushacc6 pushacc7 pushacc pop assign envacc1 envacc2 : Opcode
  envacc3 envacc4 envacc pushenvacc1 pushenvacc2 pushenvacc3 pushenvacc4 : Opcode
  pushenvacc push_retaddr apply apply1 apply2 apply3 appterm appterm1 appterm2 : Opcode
  appterm3 return restart grab closure closurerec offsetclosurem2 offsetclosure0 : Opcode
  offsetclosure2 offsetclosure pushoffsetclosurem2 pushoffsetclosure0 : Opcode
  pushoffsetclosure2 pushoffsetclosure getglobal pushgetglobal getglobalfield : Opcode
  pushgetglobalfield setglobal atom0 atom pushatom0 pushatom makeblock makeblock1 : Opcode
  makeblock2 makeblock3 makefloatblock getfield0 getfield1 getfield2 getfield3 : Opcode
  getfield getfloatfield setfield0 setfield1 setfield2 setfield3 setfield : Opcode
  setfloatfield vectlength getvectitem setvectitem getstringchar setstringchar : Opcode
  branch branchif branchifnot switch boolnot pushtrap poptrap raise check_signals : Opcode
  c_call1 c_call2 c_call3 c_call4 c_call5 c_calln const0 const1 const2 const3 : Opcode
  constint pushconst0 pushconst1 pushconst2 pushconst3 pushconstint negint addint : Opcode
  subint mulint divint modint andint orint xorint lslint lsrint asrint eq neq : Opcode
  ltint leint gtint geint offsetint offsetref isint getmethod beq bneq bltint : Opcode
  bleint bgtint bgeint ultint ugeint bultint bugeint getpubmet getdynmet stop : Opcode
  event break : Opcode

-- The arity column of `AllOpCodes`.
unfoldable pub arity : Opcode → ℕ
arity acc = 1
arity pushacc = 1
arity pop = 1
arity assign = 1
arity envacc = 1
arity pushenvacc = 1
arity push_retaddr = 1
arity apply = 1
arity appterm = 2
arity appterm1 = 1
arity appterm2 = 1
arity appterm3 = 1
arity return = 1
arity grab = 1
arity closure = 2
arity closurerec = 2
arity offsetclosure = 1
arity pushoffsetclosure = 1
arity getglobal = 1
arity pushgetglobal = 1
arity getglobalfield = 2
arity pushgetglobalfield = 2
arity setglobal = 1
arity atom = 1
arity pushatom = 1
arity makeblock = 2
arity makeblock1 = 1
arity makeblock2 = 1
arity makeblock3 = 1
arity makefloatblock = 1
arity getfield = 1
arity getfloatfield = 1
arity setfield = 1
arity setfloatfield = 1
arity branch = 1
arity branchif = 1
arity branchifnot = 1
arity switch = 1
arity pushtrap = 1
arity c_call1 = 1
arity c_call2 = 1
arity c_call3 = 1
arity c_call4 = 1
arity c_call5 = 1
arity c_calln = 2
arity constint = 1
arity pushconstint = 1
arity offsetint = 1
arity offsetref = 1
arity beq = 2
arity bneq = 2
arity bltint = 2
arity bleint = 2
arity bgtint = 2
arity bgeint = 2
arity bultint = 2
arity bugeint = 2
arity getpubmet = 2
arity _ = 0

-- `AllOpCodes`, which `OpNum` indexes.
unfoldable pub all_op_codes : List Opcode
all_op_codes =
    acc0 ∷ acc1 ∷ acc2 ∷ acc3 ∷ acc4 ∷ acc5 ∷ acc6 ∷ acc7 ∷ acc ∷ push ∷ pushacc0 ∷ pushacc1
    ∷ pushacc2 ∷ pushacc3 ∷ pushacc4 ∷ pushacc5 ∷ pushacc6 ∷ pushacc7 ∷ pushacc ∷ pop ∷ assign
    ∷ envacc1 ∷ envacc2 ∷ envacc3 ∷ envacc4 ∷ envacc ∷ pushenvacc1 ∷ pushenvacc2 ∷ pushenvacc3
    ∷ pushenvacc4 ∷ pushenvacc ∷ push_retaddr ∷ apply ∷ apply1 ∷ apply2 ∷ apply3 ∷ appterm
    ∷ appterm1 ∷ appterm2 ∷ appterm3 ∷ return ∷ restart ∷ grab ∷ closure ∷ closurerec
    ∷ offsetclosurem2 ∷ offsetclosure0 ∷ offsetclosure2 ∷ offsetclosure ∷ pushoffsetclosurem2
    ∷ pushoffsetclosure0 ∷ pushoffsetclosure2 ∷ pushoffsetclosure ∷ getglobal ∷ pushgetglobal
    ∷ getglobalfield ∷ pushgetglobalfield ∷ setglobal ∷ atom0 ∷ atom ∷ pushatom0 ∷ pushatom
    ∷ makeblock ∷ makeblock1 ∷ makeblock2 ∷ makeblock3 ∷ makefloatblock ∷ getfield0 ∷ getfield1
    ∷ getfield2 ∷ getfield3 ∷ getfield ∷ getfloatfield ∷ setfield0 ∷ setfield1 ∷ setfield2
    ∷ setfield3 ∷ setfield ∷ setfloatfield ∷ vectlength ∷ getvectitem ∷ setvectitem ∷ getstringchar
    ∷ setstringchar ∷ branch ∷ branchif ∷ branchifnot ∷ switch ∷ boolnot ∷ pushtrap ∷ poptrap
    ∷ raise ∷ check_signals ∷ c_call1 ∷ c_call2 ∷ c_call3 ∷ c_call4 ∷ c_call5 ∷ c_calln ∷ const0
    ∷ const1 ∷ const2 ∷ const3 ∷ constint ∷ pushconst0 ∷ pushconst1 ∷ pushconst2 ∷ pushconst3
    ∷ pushconstint ∷ negint ∷ addint ∷ subint ∷ mulint ∷ divint ∷ modint ∷ andint ∷ orint ∷ xorint
    ∷ lslint ∷ lsrint ∷ asrint ∷ eq ∷ neq ∷ ltint ∷ leint ∷ gtint ∷ geint ∷ offsetint ∷ offsetref
    ∷ isint ∷ getmethod ∷ beq ∷ bneq ∷ bltint ∷ bleint ∷ bgtint ∷ bgeint ∷ ultint ∷ ugeint ∷ bultint
    ∷ bugeint ∷ getpubmet ∷ getdynmet ∷ stop ∷ event ∷ break ∷ []
