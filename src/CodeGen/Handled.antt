-- ===== src/CodeGen/Handled.antt =====
-- Which instructions `GenCodeForInst` (src/GenBlock.cpp) handles.
use camll_vm.Base.{
  ℕ, ◌≡◌, refl, Bool, true, false, Option, none, some, List, [], ◌∷◌, All, Option-cases, inl, inr,
}
use camll_vm.Opcode.{Opcode}
use camll_vm.Instruction.{ZInstruction, arg, is_jump_op, is_branch_op, is_pushtrap_op, is_switch_op}
use camll_vm.CodeGen.Emit.{Test}
use camll_vm.CodeGen.Straight.{
  gen_const, gen_acc, gen_arith, gen_data, closure_code, gen_call, gen_straight_at, gen_straight,
}
use camll_vm.CodeGen.Function.{fns_of, Progress, get_ptrs_to, gen_code_for_inst}
use camll_vm.CodeGen.Block.{
  Emitter, gen_cond_br, gen_pushtrap, switch_to, gen_switch, found_all, gen_control, inst_code,
}

-- The opcodes with a `case`.
abbrev pub is_handled : Opcode → Bool
is_handled Opcode.restart = false
is_handled Opcode.event = false
is_handled Opcode.break = false
is_handled _ = true

-- The blocks that an instruction refers to are there.
pub record HasTargets (has_block : ℕ → Bool) (inst : ZInstruction) (e : Emitter) : Type 0 where
  pub jump : is_jump_op inst.op_num ≡ true → (b : ℕ) × (e.br_block ≡ some b)
  pub goes_on :
      is_jump_op inst.op_num ≡ true
      → is_branch_op inst.op_num ≡ false
      → (n : ℕ) × (e.no_br_block ≡ some n)
  pub handler : is_pushtrap_op inst.op_num ≡ true → has_block (arg inst 0) ≡ true
  pub entries :
      is_switch_op inst.op_num ≡ true
      → (d : ℕ) × (ds : List ℕ) × (inst.switch_entries ≡ d ∷ ds)
        × All (λ (i : ℕ). has_block i ≡ true) inst.switch_entries

abbrev pub is_some : Option Emitter → Bool
is_some none = false
is_some (some e) = true

abbrev BothWays : Opcode → Emitter → Type 0
BothWays op e =
    (is_jump_op op ≡ true → (b : ℕ) × (e.br_block ≡ some b))
    × (is_jump_op op ≡ true → is_branch_op op ≡ false → (n : ℕ) × (e.no_br_block ≡ some n))

module _ (has_block : ℕ → Bool) (latest : ℕ → ℕ) where
  found_all_lem :
      (is : List ℕ)
      → All (λ (i : ℕ). has_block i ≡ true) is
      → found_all has_block latest is ≡ some is
  found_all_lem [] h = refl
  found_all_lem (i ∷ is) h = rw (h.0, found_all_lem is h.1)

  cond_br_returns :
      (t : Test) (e : Emitter)
      → (b : ℕ) × (e.br_block ≡ some b)
      → (n : ℕ) × (e.no_br_block ≡ some n)
      → is_some (gen_cond_br has_block latest t e) ≡ true
  unfolding gen_cond_br
  cond_br_returns t e (b, p) (n, q) = rw (p, q)

  pushtrap_returns :
      (inst : ZInstruction) (e : Emitter)
      → has_block (arg inst 0) ≡ true
      → is_some (gen_pushtrap has_block latest inst e) ≡ true
  unfolding gen_pushtrap
  pushtrap_returns inst e h = rw h

  switch_returns :
      (inst : ZInstruction) (e : Emitter)
      → (d : ℕ) × (ds : List ℕ) × (inst.switch_entries ≡ d ∷ ds)
        × All (λ (i : ℕ). has_block i ≡ true) inst.switch_entries
      → is_some (gen_switch has_block latest inst e) ≡ true
  unfolding gen_switch switch_to
  switch_returns inst e (d, ds, p, h) = rw (found_all_lem inst.switch_entries h, p)

  branch_returns :
      (inst : ZInstruction) (e : Emitter)
      → (b : ℕ) × (e.br_block ≡ some b)
      → is_some (gen_control has_block latest inst Opcode.branch e) ≡ true
  unfolding gen_control
  branch_returns inst e (b, p) = rw p

  branchifnot_returns :
      (inst : ZInstruction) (e : Emitter)
      → (b : ℕ) × (e.br_block ≡ some b)
      → (n : ℕ) × (e.no_br_block ≡ some n)
      → is_some (gen_control has_block latest inst Opcode.branchifnot e) ≡ true
  unfolding gen_control
  branchifnot_returns inst e (b, p) (n, q) = rw (p, q)

  control_returns :
      (inst : ZInstruction) (op : Opcode) (e : Emitter)
      → is_handled op ≡ true
      → BothWays op e
      → (is_pushtrap_op op ≡ true → has_block (arg inst 0) ≡ true)
      → (is_switch_op op ≡ true
          → (d : ℕ) × (ds : List ℕ) × (inst.switch_entries ≡ d ∷ ds)
            × All (λ (i : ℕ). has_block i ≡ true) inst.switch_entries)
      → gen_straight_at inst op ≡ none
      → is_some (gen_control has_block latest inst op e) ≡ true
  unfolding gen_control gen_straight_at gen_const gen_acc gen_arith gen_data closure_code gen_call
      is_jump_op
  control_returns inst Opcode.pushtrap e k j p s n = pushtrap_returns inst e (p refl)
  control_returns inst Opcode.branch e k j p s n = branch_returns inst e (j.0 refl)
  control_returns inst Opcode.branchifnot e k j p s n =
      branchifnot_returns inst e (j.0 refl) (j.1 refl refl)
  control_returns inst Opcode.switch e k j p s n = switch_returns inst e (s refl)
  control_returns inst Opcode.branchif e k j p s n = cond_br_returns _ e (j.0 refl) (j.1 refl refl)
  control_returns inst Opcode.beq e k j p s n = cond_br_returns _ e (j.0 refl) (j.1 refl refl)
  control_returns inst Opcode.bneq e k j p s n = cond_br_returns _ e (j.0 refl) (j.1 refl refl)
  control_returns inst Opcode.bltint e k j p s n = cond_br_returns _ e (j.0 refl) (j.1 refl refl)
  control_returns inst Opcode.bleint e k j p s n = cond_br_returns _ e (j.0 refl) (j.1 refl refl)
  control_returns inst Opcode.bgtint e k j p s n = cond_br_returns _ e (j.0 refl) (j.1 refl refl)
  control_returns inst Opcode.bgeint e k j p s n = cond_br_returns _ e (j.0 refl) (j.1 refl refl)
  control_returns inst Opcode.bultint e k j p s n = cond_br_returns _ e (j.0 refl) (j.1 refl refl)
  control_returns inst Opcode.bugeint e k j p s n = cond_br_returns _ e (j.0 refl) (j.1 refl refl)
  control_returns inst Opcode.raise e k j p s n = refl
  control_returns inst Opcode.grab e k j p s n = refl
  control_returns inst Opcode.appterm1 e k j p s n = refl
  control_returns inst Opcode.appterm2 e k j p s n = refl
  control_returns inst Opcode.appterm3 e k j p s n = refl
  control_returns inst Opcode.appterm e k j p s n = refl
  control_returns inst Opcode.stop e k j p s n = refl
  control_returns inst Opcode.return e k j p s n = refl
  control_returns inst _ e k j p s n = cc

inst_code_returns :
    (has_block : ℕ → Bool) (latest : ℕ → ℕ) (inst : ZInstruction) (e : Emitter)
    → is_handled inst.op_num ≡ true
    → HasTargets has_block inst e
    → is_some (inst_code has_block latest inst e) ≡ true
unfolding inst_code gen_straight
inst_code_returns has_block latest inst e k t =
    elim (Option-cases (gen_straight_at inst inst.op_num)) [
      | inl n ↦
          rw (inst_code, n)
            (control_returns has_block latest inst inst.op_num e k (t.jump, t.goes_on) t.handler
              t.entries n)
      | inr (code, c) ↦ rw (inst_code, c)
    ]

-- `GenCodeForInst` returns for every instruction but `RESTART`, `EVENT` and `BREAK`, provided that the
-- blocks which the instruction refers to are there, and that `getPtrToFunc` returns for each function
-- whose address it takes.
pub gen_code_for_inst_returns :
    (generate : ℕ → Progress → Option Progress) (has_block : ℕ → Bool) (latest : ℕ → ℕ)
    (inst : ZInstruction) (e : Emitter) (p p' : Progress)
    → is_handled inst.op_num ≡ true
    → HasTargets has_block inst e
    → get_ptrs_to generate (fns_of inst inst.op_num) p ≡ some p'
    → (e' : Emitter) × (gen_code_for_inst generate has_block latest inst e p ≡ some (e', p'))
unfolding gen_code_for_inst
gen_code_for_inst_returns generate has_block latest inst e p p' k t pointers =
    elim (Option-cases (inst_code has_block latest inst e)) [
      | inl n ↦
          let no : false ≡ true = rw n at (inst_code_returns has_block latest inst e k t) in
          absurd (cc)
      | inr (e', made) ↦ (e', rw (gen_code_for_inst, pointers, made) refl)
    ]
