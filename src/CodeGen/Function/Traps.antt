-- ===== src/CodeGen/Function/Traps.antt =====
-- Into which other blocks a block of src/GenBlock.cpp emits: the handlers of its `PUSHTRAP`s.
use camll_vm.Base.{
  ℕ, ◌≡◌, ◌≢◌, refl, subst, inl, inr, Bool, true, false, Option, none, some, List, [], ◌∷◌, ◌++◌,
  All, >>=-eq-some, Bool-cases, Option-cases, if◌then◌else◌, ◌==◌, some_inj, arith, ◌>>=◌, ◌||◌,
}
use camll_vm.Opcode.{Opcode}
use camll_vm.Instruction.{ZInstruction, arg, is_pushtrap_op, is_jump_inst, is_return, is_switch}
use camll_vm.CodeGen.Emit.{Callee, Code, Test, label, call0}
use camll_vm.CodeGen.Straight.{gen_straight}
use camll_vm.CodeGen.Block.{
  Emitter, emit, add_block, gen_cond_br, gen_pushtrap, gen_grab, gen_return, switch_to, gen_switch,
  found_all, gen_control, inst_code, gen_code, code_gen, gen_term_inst, last_inst, to_handler,
  next_label, latest_label,
}
use camll_vm.CodeGen.Sealed.{Gives, Gives-bind}

-- The block is `k`, and the handlers that it emits into satisfy `Target`.
abbrev pub EmitsTo : (ℕ → Type 0) → ℕ → Emitter → Type 0
EmitsTo Target k e = (e.id ≡ k) × All Target e.trap_blocks

abbrev pub TrapsTo : (ℕ → Type 0) → ℕ → ZInstruction → Type 0
TrapsTo Target k inst = is_pushtrap_op inst.op_num ≡ true → arg inst 0 ≢ k → Target (arg inst 0)

module _ (has_block : ℕ → Bool) (latest : ℕ → ℕ) (Target : ℕ → Type 0) (k : ℕ) where
  cond_br_lem :
      (t : _) (e : Emitter)
      → EmitsTo Target k e
      → Gives (EmitsTo Target k) (gen_cond_br has_block latest t e)
  unfolding gen_cond_br
  cond_br_lem t e o =
      Gives-bind (EmitsTo Target k) e.br_block _
        λ b. Gives-bind (EmitsTo Target k) e.no_br_block _ λ n. o

  to_handler_lem :
      (t : ℕ) (e : Emitter)
      → (t ≢ k → Target t)
      → EmitsTo Target k e
      → EmitsTo Target k (to_handler t e)
  to_handler_lem t e f o = elim (Bool-cases (t == e.id)) [
    | inl own ↦ rw own o
    | inr other ↦ let apart : t ≢ k = ground (arith, o.0) in rw other (o.0, (f apart, o.1))
  ]

  found_lem :
      (t : ℕ) (f : ℕ → Option Emitter)
      → Gives (EmitsTo Target k) (f t)
      → Gives (EmitsTo Target k) ((if has_block t then some t else none) >>= f)
  found_lem t f h = elim (Bool-cases (has_block t)) [ inl y ↦ rw y h | inr n ↦ rw n tt ]

  switch_to_lem :
      (inst : ZInstruction) (e : Emitter) (entries : List ℕ)
      → EmitsTo Target k e
      → Gives (EmitsTo Target k) (switch_to has_block latest inst e entries)
  unfolding switch_to
  switch_to_lem inst e [] o = tt
  switch_to_lem inst e (d ∷ ds) o = o

  control_lem :
      (inst : ZInstruction) (op : Opcode) (e : Emitter)
      → (is_pushtrap_op op ≡ true → arg inst 0 ≢ k → Target (arg inst 0))
      → EmitsTo Target k e
      → Gives (EmitsTo Target k) (gen_control has_block latest inst op e)
  unfolding gen_control gen_pushtrap gen_grab gen_return gen_switch gen_cond_br add_block
  control_lem inst Opcode.pushtrap e f o =
      let e₁ = emit (call0 Callee.get_new_buffer ++ Code.set_jmp ∷ []) e in
      let jump = Code.cond_br Test.low_bit (label (arg inst 0) 0) (next_label e 1) ∷ [] in
      found_lem (arg inst 0) _ (to_handler_lem (arg inst 0) (add_block (emit jump e₁)) (f refl) o)
  control_lem inst Opcode.raise e f o = o
  control_lem inst Opcode.grab e f o = o
  control_lem inst Opcode.appterm1 e f o = o
  control_lem inst Opcode.appterm2 e f o = o
  control_lem inst Opcode.appterm3 e f o = o
  control_lem inst Opcode.appterm e f o = o
  control_lem inst Opcode.stop e f o = o
  control_lem inst Opcode.return e f o = o
  control_lem inst Opcode.branch e f o = Gives-bind (EmitsTo Target k) e.br_block _ λ b. o
  control_lem inst Opcode.branchif e f o = cond_br_lem _ e o
  control_lem inst Opcode.branchifnot e f o =
      Gives-bind (EmitsTo Target k) e.br_block _
        λ b. Gives-bind (EmitsTo Target k) e.no_br_block _ λ n. o
  control_lem inst Opcode.switch e f o =
      Gives-bind (EmitsTo Target k) (found_all has_block latest inst.switch_entries)
        (switch_to has_block latest inst e) λ entries. switch_to_lem inst e entries o
  control_lem inst Opcode.beq e f o = cond_br_lem _ e o
  control_lem inst Opcode.bneq e f o = cond_br_lem _ e o
  control_lem inst Opcode.bltint e f o = cond_br_lem _ e o
  control_lem inst Opcode.bleint e f o = cond_br_lem _ e o
  control_lem inst Opcode.bgtint e f o = cond_br_lem _ e o
  control_lem inst Opcode.bgeint e f o = cond_br_lem _ e o
  control_lem inst Opcode.bultint e f o = cond_br_lem _ e o
  control_lem inst Opcode.bugeint e f o = cond_br_lem _ e o
  control_lem inst _ e f o = tt

  inst_lem :
      (inst : ZInstruction) (e : Emitter)
      → TrapsTo Target k inst
      → EmitsTo Target k e
      → Gives (EmitsTo Target k) (inst_code has_block latest inst e)
  unfolding inst_code
  inst_lem inst e f o = elim (Option-cases (gen_straight inst)) [
    | inl n ↦ rw (inst_code, n) (control_lem inst inst.op_num e f o)
    | inr (code, c) ↦ rw (inst_code, c) o
  ]

  gen_code_lem :
      (insts : List ZInstruction) (e e' : Emitter)
      → All (TrapsTo Target k) insts
      → EmitsTo Target k e
      → gen_code has_block latest insts e ≡ some e'
      → EmitsTo Target k e'
  unfolding gen_code
  gen_code_lem [] e e' f o h = subst (EmitsTo Target k) (some_inj h) o
  gen_code_lem (inst ∷ rest) e e' f o h =
      let (e₁, first, more) = >>=-eq-some (inst_code has_block latest inst e) _ h in
      gen_code_lem rest e₁ e' f.1 (subst (Gives (EmitsTo Target k)) first (inst_lem inst e f.0 o))
        more

  -- A block emits into the handlers of its traps alone.
  pub block-EmitsTo :
      (starts : Bool) (insts : List ZInstruction) (next : Option ℕ) (e₀ e e' : Emitter)
      → All (TrapsTo Target k) insts
      → EmitsTo Target k e₀
      → code_gen has_block latest starts insts e₀ ≡ some e
      → gen_term_inst has_block latest insts next e ≡ some e'
      → EmitsTo Target k e'
  unfolding code_gen gen_term_inst
  block-EmitsTo starts insts next e₀ e e' f o h t =
      let begun : EmitsTo Target k (if starts then emit (call0 Callee.init) e₀ else e₀) =
        starting starts e₀ o in
      let made = gen_code_lem insts _ e f begun h in
      let (last, l, more) = >>=-eq-some (last_inst insts) _ t in
      subst (Gives (EmitsTo Target k)) more
        (ending (is_jump_inst last || is_return last || is_switch last) next e made)
    where
      starting :
          (b : Bool) (e : Emitter)
          → EmitsTo Target k e
          → EmitsTo Target k (if b then emit (call0 Callee.init) e else e)
      starting true e o = o
      starting false e o = o

      ending :
          (b : Bool) (n : Option ℕ) (e : Emitter)
          → EmitsTo Target k e
          → Gives (EmitsTo Target k) (
              if b
              then some e
              else (n >>= λ i. some (emit (Code.br (latest_label has_block latest e i) ∷ []) e)))
      ending true n e o = o
      ending false none e o = tt
      ending false (some i) e o = o
