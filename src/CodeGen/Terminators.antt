-- ===== src/CodeGen/Terminators.antt =====
-- Every LLVM block that a `GenBlock` emits ends with its only terminator (src/GenBlock.cpp).
use camll_vm.Base.{
  ℕ, ◌≡◌, refl, inl, inr, subst, Bool, true, false, not, Option, none, some, List, [], ◌∷◌, ◌++◌,
  >>=-eq-some, Bool-cases, Option-cases, if◌then◌else◌, some_inj, arith, ◌==◌,
}
use camll_vm.Opcode.{Opcode}
use camll_vm.Instruction.{ZInstruction, arg, is_jump_op, is_return_op}
use camll_vm.CodeGen.Emit.{Callee, Operand, label, Test, Code, const_int32, call0, call1}
use camll_vm.CodeGen.Straight.{gen_straight_at, gen_straight}
use camll_vm.CodeGen.Block.{
  Emitter, emit, next_label, add_block, gen_cond_br, gen_pushtrap, gen_grab, gen_return, switch_to,
  gen_switch, found_all, gen_control, inst_code, gen_code, code_gen, gen_term_inst, last_inst,
  new_block,
}
use camll_vm.CodeGen.Sealed.{
  runs_on, IsOpen, IsClosed, runs_on-append, IsSealed-append, emit_goes_on, emit_closes,
  close_block, Gives, Gives-bind, ends_block, IsDone, HasInnerOnly,
}
use camll_vm.CodeGen.Calls.{straight_lem, ends_nothing_lem}

module _ (has_block : ℕ → Bool) (latest : ℕ → ℕ) where
  cond_br_lem :
      (t : Test) (e : Emitter) → IsOpen e → Gives IsClosed (gen_cond_br has_block latest t e)
  unfolding gen_cond_br
  cond_br_lem t e o =
      Gives-bind IsClosed e.br_block _
        λ b. Gives-bind IsClosed e.no_br_block _ λ n. emit_closes (Code.cond_br t _ _ ∷ []) e refl o

  pushtrap_lem :
      (inst : ZInstruction) (e : Emitter)
      → IsOpen e
      → Gives IsOpen (gen_pushtrap has_block latest inst e)
  unfolding gen_pushtrap add_block
  pushtrap_lem inst e o =
      Gives-bind IsOpen (if has_block (arg inst 0) then some (arg inst 0) else none) _ λ t.
        let buffer = call0 Callee.get_new_buffer ++ Code.set_jmp ∷ [] in
        let branch = Code.cond_br Test.low_bit (label t 0) (next_label e 1) ∷ [] in
        let open_code = runs_on-append e.current buffer o.1 refl in
        let first = close_block e.closed (e.current ++ buffer) branch o.0 open_code refl in
        elim (Bool-cases (t == e.id)) [
          | inl own ↦ rw own (first, refl)
          | inr other ↦ rw other (first, refl)
        ]

  grab_lem :
      (inst : ZInstruction) (e : Emitter) → IsOpen e → IsOpen (gen_grab has_block latest inst e)
  unfolding gen_grab add_block
  grab_lem inst e o =
      let test =
        call1 Callee.check_grab (const_int32 (arg inst 0))
        ++ Code.cond_br Test.low_bit (next_label e 2) (next_label e 1) ∷ [] in
      let partial =
        call1 Callee.create_restart_closure Operand.restart_function ++ Code.ret_void ∷ [] in
      let first = close_block e.closed e.current test o.0 o.1 refl in
      (close_block (e.closed ++ (e.current ++ test) ∷ []) [] partial first refl refl, refl)

  return_lem :
      (inst : ZInstruction) (e : Emitter) → IsOpen e → IsClosed (gen_return has_block latest inst e)
  unfolding gen_return add_block
  return_lem inst e o =
      let test =
        call1 Callee.handle_return (const_int32 (arg inst 0))
        ++ Code.cond_br Test.not_null (next_label e 1) (next_label e 2) ∷ [] in
      let jump = Code.tail_invoke ∷ Code.ret_void ∷ [] in
      let first = close_block e.closed e.current test o.0 o.1 refl in
      (close_block (e.closed ++ (e.current ++ test) ∷ []) [] jump first refl refl, refl)

  switch_to_lem :
      (inst : ZInstruction) (e : Emitter) (entries : List ℕ)
      → IsOpen e
      → Gives IsClosed (switch_to has_block latest inst e entries)
  unfolding switch_to
  switch_to_lem inst e [] o = tt
  switch_to_lem inst e (d ∷ ds) o = (
    o.0,
    IsSealed-append e.current (Code.call Callee.get_switch_offset _ ∷ Code.switch_on _ _ ∷ []) o.1
        refl,
  )

  switch_lem :
      (inst : ZInstruction) (e : Emitter)
      → IsOpen e
      → Gives IsClosed (gen_switch has_block latest inst e)
  unfolding gen_switch
  switch_lem inst e o =
      Gives-bind IsClosed (found_all has_block latest inst.switch_entries)
        (switch_to has_block latest inst e) (λ entries. switch_to_lem inst e entries o)

  control_lem :
      (inst : ZInstruction) (op : Opcode) (e : Emitter)
      → IsOpen e
      → Gives (IsDone (ends_block op)) (gen_control has_block latest inst op e)
  unfolding gen_control is_jump_op is_return_op
  control_lem inst Opcode.pushtrap e o = pushtrap_lem inst e o
  control_lem inst Opcode.raise e o =
      (o.0, IsSealed-append e.current (Code.call _ _ ∷ Code.ret_void ∷ []) o.1 refl)
  control_lem inst Opcode.grab e o = grab_lem inst e o
  control_lem inst Opcode.appterm1 e o = (
    o.0,
    IsSealed-append e.current (Code.call _ _ ∷ Code.tail_invoke ∷ Code.ret_void ∷ []) o.1 refl,
  )
  control_lem inst Opcode.appterm2 e o = (
    o.0,
    IsSealed-append e.current (Code.call _ _ ∷ Code.tail_invoke ∷ Code.ret_void ∷ []) o.1 refl,
  )
  control_lem inst Opcode.appterm3 e o = (
    o.0,
    IsSealed-append e.current (Code.call _ _ ∷ Code.tail_invoke ∷ Code.ret_void ∷ []) o.1 refl,
  )
  control_lem inst Opcode.appterm e o = (
    o.0,
    IsSealed-append e.current (Code.call _ _ ∷ Code.tail_invoke ∷ Code.ret_void ∷ []) o.1 refl,
  )
  control_lem inst Opcode.stop e o = (o.0, IsSealed-append e.current (Code.ret_void ∷ []) o.1 refl)
  control_lem inst Opcode.return e o = return_lem inst e o
  control_lem inst Opcode.branch e o =
      Gives-bind IsClosed e.br_block _ λ b. emit_closes (Code.br _ ∷ []) e refl o
  control_lem inst Opcode.branchif e o = cond_br_lem _ e o
  control_lem inst Opcode.branchifnot e o =
      Gives-bind IsClosed e.br_block _
        λ b. Gives-bind IsClosed e.no_br_block _ λ n. emit_closes (Code.cond_br _ _ _ ∷ []) e refl o
  control_lem inst Opcode.switch e o = switch_lem inst e o
  control_lem inst Opcode.beq e o = cond_br_lem _ e o
  control_lem inst Opcode.bneq e o = cond_br_lem _ e o
  control_lem inst Opcode.bltint e o = cond_br_lem _ e o
  control_lem inst Opcode.bleint e o = cond_br_lem _ e o
  control_lem inst Opcode.bgtint e o = cond_br_lem _ e o
  control_lem inst Opcode.bgeint e o = cond_br_lem _ e o
  control_lem inst Opcode.bultint e o = cond_br_lem _ e o
  control_lem inst Opcode.bugeint e o = cond_br_lem _ e o
  control_lem inst _ e o = tt

  -- An instruction that does not end its block leaves the last block to go on, and one that does
  -- seals it; either way every block before the last ends with its only terminator.
  inst_lem :
      (inst : ZInstruction) (e e' : Emitter)
      → IsOpen e
      → inst_code has_block latest inst e ≡ some e'
      → IsDone (ends_block inst.op_num) e'
  unfolding inst_code gen_straight
  inst_lem inst e e' o h = elim (Option-cases (gen_straight_at inst inst.op_num)) [
    | inl n ↦
        subst (Gives (IsDone (ends_block inst.op_num))) (rw (inst_code, n) at h)
          (control_lem inst inst.op_num e o)
    | inr (code, c) ↦
        let calls : runs_on code ≡ true = rw c at (straight_lem inst inst.op_num) in
        let nothing : not (ends_block inst.op_num) ≡ true =
          rw c at (ends_nothing_lem inst inst.op_num) in
        let kind : ends_block inst.op_num ≡ false = ground arith in
        rw kind (subst IsOpen (some_inj (rw (inst_code, c) at h)) (emit_goes_on code e calls o))
  ]

  gen_code_lem :
      (front : List ZInstruction) (last : ZInstruction) (e e' : Emitter)
      → HasInnerOnly front
      → IsOpen e
      → gen_code has_block latest (front ++ last ∷ []) e ≡ some e'
      → IsDone (ends_block last.op_num) e'
  unfolding gen_code
  gen_code_lem [] last e e' inner o h =
      let (e₁, c, r) = >>=-eq-some (inst_code has_block latest last e) _ h in
      subst (IsDone (ends_block last.op_num)) (some_inj r) (inst_lem last e e₁ o c)
  gen_code_lem (x ∷ front) last e e' inner o h =
      let (e₁, c, r) = >>=-eq-some (inst_code has_block latest x e) _ h in
      let o₁ : IsOpen e₁ = rw inner.0 at (inst_lem x e e₁ o c) in
      gen_code_lem front last e₁ e' inner.1 o₁ r

pub last_inst_lem :
    (front : List ZInstruction) (last : ZInstruction) → last_inst (front ++ last ∷ []) ≡ some last
last_inst_lem [] last = refl
last_inst_lem (x ∷ []) last = refl
last_inst_lem (x ∷ y ∷ front) last = last_inst_lem (y ∷ front) last

start_lem :
    (starts : Bool) (e : Emitter)
    → IsOpen e
    → IsOpen (if starts then emit (call0 Callee.init) e else e)
start_lem true e o = emit_goes_on (call0 Callee.init) e refl o
start_lem false e o = o

term_lem :
    (has_block : ℕ → Bool) (latest : ℕ → ℕ) (insts : List ZInstruction) (last : ZInstruction)
    (next : Option ℕ) (e e' : Emitter)
    → last_inst insts ≡ some last
    → IsDone (ends_block last.op_num) e
    → gen_term_inst has_block latest insts next e ≡ some e'
    → IsClosed e'
unfolding gen_term_inst
term_lem has_block latest insts last next e e' l d h = elim (Bool-cases (ends_block last.op_num)) [
  | inl b ↦ subst IsClosed (some_inj (rw (gen_term_inst, l, b) at h)) (rw b at d)
  | inr b ↦
      subst (Gives IsClosed) (rw (gen_term_inst, l, b) at h)
        (Gives-bind IsClosed next _ λ n. emit_closes (Code.br _ ∷ []) e refl (rw b at d))
]

pub code_gen_closes :
    (has_block : ℕ → Bool) (latest : ℕ → ℕ) (starts : Bool) (front : List ZInstruction)
    (last : ZInstruction) (e₀ e e' : Emitter) (next : Option ℕ)
    → HasInnerOnly front
    → IsOpen e₀
    → code_gen has_block latest starts (front ++ last ∷ []) e₀ ≡ some e
    → gen_term_inst has_block latest (front ++ last ∷ []) next e ≡ some e'
    → IsClosed e'
unfolding code_gen
code_gen_closes has_block latest starts front last e₀ e e' next inner o₀ g t =
    let o = start_lem starts e₀ o₀ in
    let d = gen_code_lem has_block latest front last _ e inner o g in
    term_lem has_block latest (front ++ last ∷ []) last next e e' (last_inst_lem front last) d t

-- When `CodeGen` and `genTermInst` return for a `GenBlock` in which only the last instruction may
-- be a jump, a return or a switch, every LLVM block that they made ends with a terminator and has
-- no other.
pub code_gen-IsClosed :
    (has_block : ℕ → Bool) (latest : ℕ → ℕ) (starts : Bool) (front : List ZInstruction)
    (last : ZInstruction) (id : ℕ) (b n next : Option ℕ) (e e' : Emitter)
    → HasInnerOnly front
    → code_gen has_block latest starts (front ++ last ∷ []) (new_block id b n) ≡ some e
    → gen_term_inst has_block latest (front ++ last ∷ []) next e ≡ some e'
    → IsClosed e'
code_gen-IsClosed has_block latest starts front last id b n next e e' inner g t =
    code_gen_closes has_block latest starts front last (new_block id b n) e e' next inner (tt, refl)
      g t
