-- ===== src/CodeGen/Run/Block.antt =====
-- One block of a function: what src/GenBlock.cpp generates for it, run on the machine of
-- src/StdLib/CStdLib.c, against the integer ZINC machine.
use mathlib.Core.List.{append_assoc}
use camll_vm.Base.{
  ℕ, ◌*◌, ◌≤◌, ◌<◌, ◌≡◌, refl, sym, ap, ◌∙◌, subst, inl, inr, ◌⊎◌, Bool, true, false, not,
  Option-cases, Option, none, some, List, [], ◌∷◌, ◌++◌, ◌==◌, if◌then◌else◌, word_mod, some_inj,
  >>=-eq-some, ◌>>=◌,
}
use camll_vm.Opcode.{Opcode}
use camll_vm.Instruction.{ZInstruction, arg, sign_extend, is_jump_op, is_return_op}
use camll_vm.ModuleCreator.Blocks.{Graph}
use camll_vm.Runtime.State.{Machine, Ocaml, IsStandard}
use camll_vm.Runtime.Frames.{handle_return}
use camll_vm.CodeGen.Emit.{Callee, Code, Test, Label, label, call1, const_int32}
use camll_vm.CodeGen.Straight.{
  gen_const, gen_acc, gen_arith, gen_data, closure_code, gen_call, gen_straight_at, gen_straight,
}
use camll_vm.CodeGen.Sealed.{ends_block}
use camll_vm.CodeGen.Block.{
  Emitter, emit, new_block, add_block, latest_label, gen_return, gen_control, inst_code, gen_code,
  code_gen, gen_term_inst, last_inst,
}
use camll_vm.CodeGen.Terminators.{last_inst_lem}
use camll_vm.CodeGen.Function.{new_store, front_of}
use camll_vm.CodeGen.Run.{call_runtime, Process, Exit, run_calls, run_block}
use camll_vm.CodeGen.Run.Spec.{Zinc, zinc_step, jumps}
use camll_vm.CodeGen.Run.Steps.{Represents}
use camll_vm.CodeGen.Run.Graph.{
  Outcome, branch_to, goes_on, zinc_other, zinc_end, zinc_block, plain_next,
}
use camll_vm.CodeGen.Run.Simulation.{zinc_step_lem, zinc_run-simulated}
use camll_vm.CodeGen.Run.Branches.{run_block-append, jumps_lem, gen_code-append}
use camll_vm.CodeGen.Run.Ends.{zinc_block_split, not_branch, not_jump, ends_nothing, jumps_ends}

module _ (ml : Ocaml) (std : IsStandard ml) (fuel : ℕ) (p : Process) (r : Machine) (base cap : ℕ)
    (high : base < word_mod) (room : 8 * cap ≤ base) (has_block : ℕ → Bool) (latest : ℕ → ℕ)
    (g : Graph) (k : ℕ) where
  -- Where a jump to the last LLVM block of `j` goes.
  abbrev pub last_of : ℕ → ℕ
  last_of j = if j == k then 0 else latest j

  -- The block that ends as `e`, run from `m`, has the outcome.
  abbrev pub Follows : Option ℕ → Emitter → Machine → Outcome → Type 0
  Follows plain e m (Outcome.goes_to j z) =
      (e.closed ≡ [])
      × (i : ℕ) × (m' : Machine) × (run_block ml fuel p e.current 0 m
          ≡ some (Exit.goes_to (label j i) 0 m'))
      × Represents r base z m'
      × ((i ≡ 0) ⊎ ((i ≡ last_of j) × (plain ≡ some j)))
  Follows plain e m (Outcome.leaves a z) =
      (code : List Code) × (m' : Machine) × (e.closed
        ≡ code ∷ (Code.tail_invoke ∷ Code.ret_void ∷ []) ∷ [])
      × (e.current ≡ Code.ret_void ∷ [])
      × Represents r base z m'
      × (run_block ml fuel p code 0 m
          ≡ some (
              Exit.goes_to
                (if (handle_return ml (sign_extend a) m').0 == 0 then label k 2 else label k 1)
                (handle_return ml (sign_extend a) m').0 (handle_return ml (sign_extend a) m').1))

  abbrev start : Emitter
  start = new_store g k

  -- The instruction as `op`, and `genTermInst`.
  abbrev made : ZInstruction → Opcode → Emitter → Option Emitter
  made inst op e = elim (gen_straight_at inst op) [
    | some c ↦ some (emit c e)
    | none ↦ gen_control has_block latest inst op e
  ]

  abbrev ended : Opcode → Emitter → Option Emitter
  ended op e =
      if ends_block op
      then some e
      else (front_of (g.next k) >>= λ n.
          some (emit (Code.br (latest_label has_block latest e n) ∷ []) e))

  module _ (code : List Code) (m m₁ : Machine) (ran : run_calls ml fuel p code 0 m ≡ some (0, m₁))
      (z : Zinc) (h : Represents r base z m₁) where
    abbrev EndsRight : ZInstruction → Opcode → Outcome → Type 0
    EndsRight inst op o =
        (e : Emitter) × (e' : Emitter) × (made inst op (emit code start) ≡ some e)
        × (ended op e ≡ some e')
        × Follows (plain_next g k (some (record inst { op_num = op }))) e' m o

    return_lem :
        (inst : ZInstruction) (o : Outcome)
        → some (Outcome.leaves (arg inst 0) z) ≡ some o
        → EndsRight inst Opcode.return o
    unfolding gen_straight_at gen_const gen_acc gen_arith gen_data closure_code gen_call gen_control
        gen_return add_block is_jump_op is_return_op run_block call_runtime
    return_lem inst o e =
        let test = call1 Callee.handle_return (const_int32 (arg inst 0)) in
        let jump = Code.cond_br Test.not_null (label k 1) (label k 2) ∷ [] in
        let first = code ++ (test ++ jump) in
        let last_machine = handle_return ml (sign_extend (arg inst 0)) m₁ in
        let met : Follows (front_of (g.next k)) (gen_return has_block latest inst (emit code start))
            m (Outcome.leaves (arg inst 0) z) =
          (
            first,
            m₁,
            refl,
            refl,
            h,
            run_block-append ml std fuel p code (test ++ jump) 0 0 m m₁ ran
                ∙ ap (λ (l : Label). some (Exit.goes_to l last_machine.0 last_machine.1))
                    (swap (last_machine.0 == 0)),
          ) in
        let done = gen_return has_block latest inst (emit code start) in
        (done, done, refl, refl, subst (Follows (front_of (g.next k)) done m) (some_inj e) met)
      where
        swap :
            (b : Bool)
            → (if not b then label k 1 else label k 2) ≡ (if b then label k 2 else label k 1)
        swap true = refl
        swap false = refl

    branch_lem :
        (inst : ZInstruction) (o : Outcome)
        → (g.br_block k >>= λ b. some (Outcome.goes_to b z)) ≡ some o
        → EndsRight inst Opcode.branch o
    unfolding gen_straight_at gen_const gen_acc gen_arith gen_data closure_code gen_call gen_control
        latest_label is_jump_op run_block
    branch_lem inst o e =
        let (b, eb, q) = >>=-eq-some (g.br_block k) _ e in
        let jump = Code.br (label b (last_of b)) ∷ [] in
        let met : Follows (g.br_block k) (emit jump (emit code start)) m (Outcome.goes_to b z) = (
          refl,
          last_of b,
          m₁,
          run_block-append ml std fuel p code jump 0 0 m m₁ ran,
          h,
          inr (refl, eb),
        ) in
        (
          emit jump (emit code start),
          emit jump (emit code start),
          rw eb refl,
          refl,
          subst (Follows (g.br_block k) (emit jump (emit code start)) m) (some_inj q) met,
        )

    -- A conditional branch.
    taken_lem :
        (inst : ZInstruction) (op : Opcode) (taken : Bool) (o : Outcome)
        → jumps op (arg inst 0) z.accu ≡ some taken
        → branch_to g k taken z ≡ some o
        → EndsRight inst op o
    unfolding run_block
    taken_lem inst op taken o j e =
        let (b, eb, e₁) = >>=-eq-some (g.br_block k) _ e in
        let (n, en, q) = >>=-eq-some (g.no_br_block k) _ e₁ in
        let (none_lem, t, x, y, ends, goes) =
          jumps_lem ml std fuel p has_block latest b n inst op k code z.accu m₁ taken h.accu_lem
            j in
        let jump = Code.cond_br t x y ∷ [] in
        let Generates : Option ℕ → Option ℕ → Type 0 = λ bo no.
          gen_control has_block latest inst op (emit code (new_block k bo no))
          ≡ some (emit jump (emit code (new_block k bo no))) in
        let half : Generates (g.br_block k) (some n) =
          subst (λ (bo : Option ℕ). Generates bo (some n)) (sym eb) ends in
        let whole : Generates (g.br_block k) (g.no_br_block k) =
          subst (Generates (g.br_block k)) (sym en) half in
        let met : Follows (plain_next g k (some (record inst { op_num = op })))
            (emit jump (emit code start)) m (Outcome.goes_to (if taken then b else n) z) =
          (
            refl,
            0,
            m₁,
            run_block-append ml std fuel p code jump 0 0 m m₁ ran
                ∙ ap (λ (l : Label). some (Exit.goes_to l 0 m₁)) goes,
            h,
            inl refl,
          ) in
        (
          emit jump (emit code start),
          emit jump (emit code start),
          rw (made, none_lem) whole,
          rw (jumps_ends op (arg inst 0) z.accu taken j) refl,
          subst (Follows _ (emit jump (emit code start)) m) (some_inj q) met,
        )

    step_lem :
        (inst : ZInstruction) (o : Outcome)
        → (zinc_step cap inst z >>= goes_on g k) ≡ some o
        → EndsRight inst inst.op_num o
    unfolding run_block gen_straight latest_label
    step_lem inst o e =
        let (z₁, q, e₁) = >>=-eq-some (zinc_step cap inst z) _ e in
        let (n, en, q₁) = >>=-eq-some (front_of (g.next k)) _ e₁ in
        let (more, made_lem, m₂, ran₂, h₂) =
          zinc_step_lem ml std fuel p r base cap high room inst z z₁ m₁ h q in
        let jump = Code.br (label n (last_of n)) ∷ [] in
        let goes_on_lem : ends_block inst.op_num ≡ false = ends_nothing inst more made_lem in
        let plain : plain_next g k (some inst) ≡ some n =
          rw (not_branch inst.op_num goes_on_lem, not_jump inst.op_num goes_on_lem) en in
        let all = emit jump (emit more (emit code start)) in
        let met : Follows (plain_next g k (some inst)) all m (Outcome.goes_to n z₁) = (
          refl,
          last_of n,
          m₂,
          ap (λ (c : List Code). run_block ml fuel p c 0 m) (append_assoc code more jump)
              ∙ run_block-append ml std fuel p code (more ++ jump) 0 0 m m₁ ran
              ∙ run_block-append ml std fuel p more jump 0 0 m₁ m₂ ran₂,
          h₂,
          inr (refl, plain),
        ) in
        (
          emit more (emit code start),
          all,
          rw (made, made_lem) refl,
          rw (ended, goes_on_lem, en) refl,
          subst (Follows _ all m) (some_inj q₁) met,
        )

    other_lem :
        (inst : ZInstruction) (o : Outcome)
        → zinc_other cap g k inst (jumps inst.op_num (arg inst 0) z.accu) z ≡ some o
        → EndsRight inst inst.op_num o
    other_lem inst o e = elim (Option-cases (jumps inst.op_num (arg inst 0) z.accu)) [
      | inl n ↦ step_lem inst o (rw n at e)
      | inr (taken, j) ↦ taken_lem inst inst.op_num taken o j (rw j at e)
    ]

    -- As `op`, since the outcome depends on the opcode.
    end_lem :
        (inst : ZInstruction) (op : Opcode) (o : Outcome)
        → inst.op_num ≡ op
        → zinc_end cap g k inst op z ≡ some o
        → EndsRight inst op o
    unfolding zinc_end
    end_lem inst Opcode.return o q e = return_lem inst o e
    end_lem inst Opcode.branch o q e = branch_lem inst o e
    end_lem inst op o q e =
        subst (λ (x : Opcode). EndsRight inst x o) q
          (other_lem inst o (
            subst (λ (x : Opcode). zinc_other cap g k inst (jumps x (arg inst 0) z.accu) z ≡ some o)
              (sym q) e))

  -- A generated block does what the integer ZINC machine does on its instructions.
  pub block_lem :
      (z : Zinc) (m : Machine) (o : Outcome) (e e' : Emitter)
      → Represents r base z m
      → zinc_block cap g k (g.insts k) z ≡ some o
      → code_gen has_block latest false (g.insts k) start ≡ some e
      → gen_term_inst has_block latest (g.insts k) (front_of (g.next k)) e ≡ some e'
      → Follows (plain_next g k (last_inst (g.insts k))) e' m o
  unfolding code_gen gen_term_inst gen_code inst_code gen_straight is_jump_op is_return_op
  block_lem z m o e e' h q made_lem ended_lem =
      let (front, last, z₁, split, goes, ends) = zinc_block_split cap g k (g.insts k) z o q in
      let (code, first, m₁, ran, h₁) =
        zinc_run-simulated ml std fuel p r base cap high room has_block latest front z z₁ m start h
          goes in
      let (f, f', one, two, follows) = end_lem code m m₁ ran z₁ h₁ last last.op_num o refl ends in
      let both : gen_code has_block latest (front ++ last ∷ []) start ≡ some f =
        gen_code-append ml std fuel p has_block latest 0 0 front (last ∷ []) start (emit code start)
          first
        ∙ rw (gen_code, inst_code, one) refl in
      let same : f ≡ e = some_inj (sym both ∙ rw split at made_lem) in
      let back : last_inst (g.insts k) ≡ some last = rw split (last_inst_lem front last) in
      let closing : gen_term_inst has_block latest (g.insts k) (front_of (g.next k)) f ≡ some e' =
        subst
          (λ (x : Emitter).
            gen_term_inst has_block latest (g.insts k) (front_of (g.next k)) x ≡ some e')
          (sym same) ended_lem in
      let same' : f' ≡ e' = some_inj (sym two ∙ rw (gen_term_inst, back) at closing) in
      rw back (subst (λ (x : Emitter). Follows (plain_next g k (some last)) x m o) same' follows)
