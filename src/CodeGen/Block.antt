-- ===== src/CodeGen/Block.antt =====
-- `GenBlock::CodeGen`, `genTermInst`, `addBlock` and the instructions of `GenCodeForInst` that end
-- a block or open one (src/GenBlock.cpp). A null pointer is a fault.
use camll_vm.Base.{
  ℕ, ◌+◌, Bool, ◌||◌, Option, none, some, List, [], ◌∷◌, ◌++◌, length, ◌==◌, if◌then◌else◌, ◌>>=◌,
}
use camll_vm.Opcode.{Opcode}
use camll_vm.Instruction.{ZInstruction, arg, is_jump_inst, is_return, is_switch}
use camll_vm.CodeGen.Emit.{
  Callee, Operand, Label, label, Comparison, Test, Code, const_int32, const_val, call0, call1,
  call2,
}
use camll_vm.CodeGen.Straight.{gen_straight}

-- `LlvmBlocks` without the last, the code of the last (`LlvmBlock`), `BrBlock` and `NoBrBlock`,
-- and the handlers' blocks that received the prologue of a trap, the latest first.
pub record Emitter : Type 0 where
  pub id : ℕ
  pub closed : List (List Code)
  pub current : List Code
  pub br_block : Option ℕ
  pub no_br_block : Option ℕ
  pub trap_blocks : List ℕ

abbrev pub emit : List Code → Emitter → Emitter
emit code e = record e { current = e.current ++ code }

-- `addBlock` and `SetInsertPoint` on the new block.
unfoldable pub add_block : Emitter → Emitter
add_block e = record e { closed = e.closed ++ e.current ∷ []; current = [] }

-- The label of the block that `addBlock` makes next.
abbrev pub next_label : Emitter → ℕ → Label
next_label e n = label e.id (length e.closed + n)

-- `Instructions.back()`.
abbrev pub last_inst : List ZInstruction → Option ZInstruction
last_inst [] = none
last_inst (x ∷ []) = some x
last_inst (x ∷ y ∷ ys) = last_inst (y ∷ ys)

-- The constructor.
abbrev pub new_block : ℕ → Option ℕ → Option ℕ → Emitter
new_block id b n = record {
  id = id;
  closed = [];
  current = [];
  br_block = b;
  no_br_block = n;
  trap_blocks = [];
}

-- What `PUSHTRAP` emits into the last LLVM block of the handler.
abbrev pub prologue : List Code
prologue = call0 Callee.get_exception_value ++ call0 Callee.remove_exception_context

-- The handler `t` may be the block itself.
abbrev pub to_handler : ℕ → Emitter → Emitter
to_handler t e = if t == e.id then emit prologue e else record e { trap_blocks = t ∷ e.trap_blocks }

-- `has_block i` says whether `Function->Blocks` holds a block `i`; `latest i` is the number of the
-- last of its `LlvmBlocks`.
module _ (has_block : ℕ → Bool) (latest : ℕ → ℕ) where
  abbrev found : ℕ → Option ℕ
  found i = if has_block i then some i else none

  -- `Blocks[i]->LlvmBlock`.
  unfoldable pub latest_label : Emitter → ℕ → Label
  latest_label e i = label i (if i == e.id then length e.closed else latest i)

  -- `Blocks[i]->LlvmBlocks.front()`.
  abbrev pub entry_label : ℕ → Label
  entry_label i = label i 0

  -- `CreateCondBr(test, BrBlock->LlvmBlocks.front(), NoBrBlock->LlvmBlocks.front())`.
  unfoldable pub gen_cond_br : Test → Emitter → Option Emitter
  gen_cond_br test e = do
    b ← e.br_block
    n ← e.no_br_block
    some (emit (Code.cond_br test (entry_label b) (entry_label n) ∷ []) e)

  unfoldable pub gen_pushtrap : ZInstruction → Emitter → Option Emitter
  unfolding add_block
  gen_pushtrap inst e = do
    t ← found (arg inst 0)
    let e₁ = emit (call0 Callee.get_new_buffer ++ Code.set_jmp ∷ []) e
    let e₂ = emit (Code.cond_br Test.low_bit (entry_label t) (next_label e 1) ∷ []) e₁
    some (emit (call0 Callee.push_trap) (to_handler t (add_block e₂)))

  unfoldable pub gen_grab : ZInstruction → Emitter → Emitter
  unfolding add_block
  gen_grab inst e =
      let test = call1 Callee.check_grab (const_int32 (arg inst 0)) in
      let e₁ = emit (test ++ Code.cond_br Test.low_bit (next_label e 2) (next_label e 1) ∷ []) e in
      let partial =
        call1 Callee.create_restart_closure Operand.restart_function ++ Code.ret_void ∷ [] in
      let e₂ = emit partial (add_block e₁) in
      emit (call1 Callee.subtract_extra_args (const_int32 (arg inst 0))) (add_block e₂)

  unfoldable pub gen_return : ZInstruction → Emitter → Emitter
  unfolding add_block
  gen_return inst e =
      let test = call1 Callee.handle_return (const_int32 (arg inst 0)) in
      let e₁ = emit (test ++ Code.cond_br Test.not_null (next_label e 1) (next_label e 2) ∷ []) e in
      let e₂ = emit (Code.tail_invoke ∷ Code.ret_void ∷ []) (add_block e₁) in
      emit (Code.ret_void ∷ []) (add_block e₂)

  abbrev pub found_all : List ℕ → Option (List ℕ)
  found_all [] = some []
  found_all (i ∷ is) = do j ← found i; js ← found_all is; some (j ∷ js)

  abbrev pub labels : Emitter → List ℕ → List Label
  labels e [] = []
  labels e (i ∷ is) = latest_label e i ∷ labels e is

  -- The `switch` on the entries; the default is the first.
  unfoldable pub switch_to : ZInstruction → Emitter → List ℕ → Option Emitter
  unfolding latest_label
  switch_to inst e [] = none
  switch_to inst e (default ∷ rest) =
      let test = call2 Callee.get_switch_offset (const_int32 (arg inst 0)) Operand.accu in
      let e₁ = record e { no_br_block = some default } in
      let jump = Code.switch_on (latest_label e₁ default) (labels e₁ (default ∷ rest)) ∷ [] in
      some (emit (test ++ jump) e₁)

  unfoldable pub gen_switch : ZInstruction → Emitter → Option Emitter
  unfolding switch_to
  gen_switch inst e = found_all inst.switch_entries >>= switch_to inst e

  abbrev tail_call : List Code → Emitter → Option Emitter
  tail_call code e = some (emit (code ++ Code.tail_invoke ∷ Code.ret_void ∷ []) e)

  abbrev compare_br : Comparison → ZInstruction → Emitter → Option Emitter
  unfolding gen_cond_br
  compare_br c inst e = gen_cond_br (Test.compares c (const_val (arg inst 0)) Operand.accu) e

  -- The instructions that emit a terminator or open a block.
  unfoldable pub gen_control : ZInstruction → Opcode → Emitter → Option Emitter
  unfolding gen_cond_br gen_pushtrap gen_grab gen_return gen_switch latest_label compare_br
  gen_control inst Opcode.pushtrap e = gen_pushtrap inst e
  gen_control inst Opcode.raise e =
      some (emit (call1 Callee.throw_exception Operand.accu ++ Code.ret_void ∷ []) e)
  gen_control inst Opcode.grab e = some (gen_grab inst e)
  gen_control inst Opcode.appterm1 e =
      tail_call (call1 Callee.appterm1 (const_int32 (arg inst 0))) e
  gen_control inst Opcode.appterm2 e =
      tail_call (call1 Callee.appterm2 (const_int32 (arg inst 0))) e
  gen_control inst Opcode.appterm3 e =
      tail_call (call1 Callee.appterm3 (const_int32 (arg inst 0))) e
  gen_control inst Opcode.appterm e =
      tail_call (call2 Callee.appterm (const_int32 (arg inst 0)) (const_int32 (arg inst 1))) e
  gen_control inst Opcode.stop e = some (emit (Code.ret_void ∷ []) e)
  gen_control inst Opcode.return e = some (gen_return inst e)
  gen_control inst Opcode.branch e = do
    b ← e.br_block
    some (emit (Code.br (latest_label e b) ∷ []) e)
  gen_control inst Opcode.branchif e =
      gen_cond_br (Test.compares Comparison.ne Operand.accu (Operand.const 1)) e
  gen_control inst Opcode.branchifnot e = do
    b ← e.br_block
    n ← e.no_br_block
    let test = Test.compares Comparison.ne Operand.accu (Operand.const 1)
    some (emit (Code.cond_br test (entry_label n) (entry_label b) ∷ []) e)
  gen_control inst Opcode.switch e = gen_switch inst e
  gen_control inst Opcode.beq e = compare_br Comparison.eq inst e
  gen_control inst Opcode.bneq e = compare_br Comparison.ne inst e
  gen_control inst Opcode.bltint e = compare_br Comparison.slt inst e
  gen_control inst Opcode.bleint e = compare_br Comparison.sle inst e
  gen_control inst Opcode.bgtint e = compare_br Comparison.sgt inst e
  gen_control inst Opcode.bgeint e = compare_br Comparison.sge inst e
  gen_control inst Opcode.bultint e = compare_br Comparison.ult inst e
  gen_control inst Opcode.bugeint e = compare_br Comparison.uge inst e
  gen_control inst _ e = none

  -- The code of `GenCodeForInst`, with the pointers to functions at hand (`gen_code_for_inst` gets them
  -- first); an instruction that it does not handle exits the process.
  unfoldable pub inst_code : ZInstruction → Emitter → Option Emitter
  inst_code inst e = elim (gen_straight inst) [
    | some code ↦ some (emit code e)
    | none ↦ gen_control inst inst.op_num e
  ]

  unfoldable pub gen_code : List ZInstruction → Emitter → Option Emitter
  gen_code [] e = some e
  gen_code (inst ∷ rest) e = inst_code inst e >>= gen_code rest

  -- The code of `CodeGen`: `starts` holds for a block of the main function without predecessors.
  unfoldable pub code_gen : Bool → List ZInstruction → Emitter → Option Emitter
  code_gen starts insts e = gen_code insts (if starts then emit (call0 Callee.init) e else e)

  -- `genTermInst`, with the first of `NextBlocks`.
  unfoldable pub gen_term_inst : List ZInstruction → Option ℕ → Emitter → Option Emitter
  gen_term_inst insts next e = do
    inst ← last_inst insts
    if is_jump_inst inst || is_return inst || is_switch inst
        then some e
        else (do n ← next; some (emit (Code.br (latest_label e n) ∷ []) e))
