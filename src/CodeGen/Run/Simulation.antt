-- ===== src/CodeGen/Run/Simulation.antt =====
-- The code of the instructions on integers and on the stack (src/GenBlock.cpp), run on the machine
-- of src/StdLib/CStdLib.c, against the integer ZINC machine.
use camll_vm.Base.{
  ℕ, ◌*◌, ◌<◌, ◌≤◌, ◌≡◌, refl, sym, ap, ◌∙◌, subst, Bool, Bool-cases, Option-cases, inl, inr,
  Option, some, List, [], ◌∷◌, ◌++◌, length, ltb, word_mod, some_inj, >>=-eq-some, ltb→lt, ◌>>=◌,
}
use mathlib.Core.List.{append-nil, append_assoc}
use camll_vm.Opcode.{Opcode}
use camll_vm.Instruction.{ZInstruction, arg}
use camll_vm.Runtime.State.{Machine, Ocaml, IsStandard, push_word}
use camll_vm.Runtime.Data
use camll_vm.CodeGen.Emit.{Code}
use camll_vm.CodeGen.Straight.{push, gen_straight}
use camll_vm.CodeGen.Block.{Emitter, emit, inst_code, gen_code}
use camll_vm.CodeGen.Families.{
  general_form, pushed_form, gen_straight-general_form, gen_straight-pushed_form,
}
use camll_vm.CodeGen.Run.{call_runtime, Process, operands, run_calls}
use camll_vm.CodeGen.Run.Spec.{Zinc, zinc_push, zinc_general, zinc_step, zinc_run}
use camll_vm.CodeGen.Run.Steps.{Represents, push_lem}
use camll_vm.CodeGen.Run.Plain.{Reaches, becomes, zinc_base_lem}

module _ (ml : Ocaml) (std : IsStandard ml) (fuel : ℕ) (p : Process) (r : Machine) (base cap : ℕ)
    (high : base < word_mod) (room : 8 * cap ≤ base) where
  run_calls-append :
      (a b : List Code) (last l : ℕ) (m m' : Machine)
      → run_calls ml fuel p a last m ≡ some (l, m')
      → run_calls ml fuel p (a ++ b) last m ≡ run_calls ml fuel p b l m'
  unfolding run_calls
  run_calls-append [] b last l m m' e =
      ap (λ (x : ℕ × Machine). run_calls ml fuel p b x.0 x.1) (some_inj e)
  run_calls-append (Code.call f args ∷ a) b last l m m' e =
      let (x, ran, more) = >>=-eq-some (call_runtime ml fuel f (operands ml fuel p m args) m) _ e in
      rw ran (run_calls-append a b x.0 l x.1 m' more)
  run_calls-append (Code.invoke ∷ a) b last l m m' e =
      let (x, ran, more) = >>=-eq-some (p.enter last m) _ e in
      rw ran (run_calls-append a b 0 l x m' more)
  run_calls-append (c ∷ a) b last l m m' e = absurd (cc)

  zinc_general_lem :
      (inst : ZInstruction) (z z' : Zinc) (m : Machine)
      → Represents r base z m
      → zinc_general cap inst.op_num (arg inst 0) (general_form inst.op_num) z ≡ some z'
      → Reaches ml std fuel p r base cap high room (gen_straight inst) m z'
  unfolding gen_straight
  zinc_general_lem inst z z' m h e = elim (Option-cases (general_form inst.op_num)) [
    | inl n ↦ zinc_base_lem ml std fuel p r base cap high room inst inst.op_num z z' m h (rw n at e)
    | inr ((op, k), g) ↦
        let at : Reaches ml std fuel p r base cap high room
            (gen_straight (record inst { op_num = op; args = k ∷ [] })) m z' =
          zinc_base_lem ml std fuel p r base cap high room
            (record inst { op_num = op; args = k ∷ [] }) op z z' m h (rw g at e) in
        subst (λ (o : Option (List Code)). Reaches ml std fuel p r base cap high room o m z')
          (sym (gen_straight-general_form inst op k g)) at
  ]

  pushed_lem :
      (inst : ZInstruction) (op : Opcode) (z z' : Zinc) (m : Machine)
      → Represents r base z m
      → pushed_form inst.op_num ≡ some op
      → (zinc_push cap z >>= zinc_general cap op (arg inst 0) (general_form op)) ≡ some z'
      → Reaches ml std fuel p r base cap high room (gen_straight inst) m z'
  unfolding run_calls call_runtime Data.push
  pushed_lem inst op z z' m h g e = elim (Bool-cases (ltb (length z.stack) cap)) [
    | inl t ↦
        let top_lem = push_lem r base cap high room z m h (ltb→lt _ _ t) in
        let (code, made, m', ran, h') =
          zinc_general_lem (record inst { op_num = op }) _ z' (push_word m.accu m) top_lem
            (rw t at e) in
        let (code₁, made₁, all) = gen_straight-pushed_form inst op g in
        let same : code ≡ code₁ = some_inj (sym made ∙ made₁) in
        (push ++ code, rw same all, m', ran, h')
    | inr f ↦ absurd (cc)
  ]

  -- Where OCaml's macros are as `IsStandard` says: when the integer ZINC machine has a next state, the
  -- instruction emits calls alone, which run to a machine that stands for that state.
  pub zinc_step_lem :
      (inst : ZInstruction) (z z' : Zinc) (m : Machine)
      → Represents r base z m
      → zinc_step cap inst z ≡ some z'
      → Reaches ml std fuel p r base cap high room (gen_straight inst) m z'
  unfolding zinc_step
  zinc_step_lem inst z z' m h e = elim (Option-cases (pushed_form inst.op_num)) [
    | inl n ↦ zinc_general_lem inst z z' m h (rw n at e)
    | inr (op, g) ↦ pushed_lem inst op z z' m h g (rw g at e)
  ]

  -- Where OCaml's macros are as `IsStandard` says: when the integer ZINC machine, which has the
  -- instructions on constants, integers and the stack and which any other instruction stops, runs
  -- a list of instructions to its end, GenBlock generates them all into the current LLVM block, as
  -- calls that run, from a machine that stands for the first state, in an address space with room
  -- for the stack, to their end and leave a machine that stands for the final state.
  pub zinc_run-simulated :
      (has_block : ℕ → Bool) (latest : ℕ → ℕ) (insts : List ZInstruction) (z z' : Zinc)
      (m : Machine) (e : Emitter)
      → Represents r base z m
      → zinc_run cap insts z ≡ some z'
      → (code : List Code) × (gen_code has_block latest insts e ≡ some (emit code e))
        × (m' : Machine) × (run_calls ml fuel p code 0 m ≡ some (0, m'))
        × Represents r base z' m'
  unfolding zinc_run gen_code inst_code run_calls
  zinc_run-simulated has_block latest [] z z' m e h q = (
    [],
    rw (append-nil e.current) refl,
    m,
    refl,
    becomes ml std fuel p r base cap high room z z' m q h,
  )
  zinc_run-simulated has_block latest (inst ∷ rest) z z' m e h q =
      let (z₁, q₁, more) = >>=-eq-some (zinc_step cap inst z) _ q in
      let (code, made, m₁, ran, h₁) = zinc_step_lem inst z z₁ m h q₁ in
      let (codes, all, m', goes, h') =
        zinc_run-simulated has_block latest rest z₁ z' m₁ (emit code e) h₁ more in
      (
        code ++ codes,
        rw (gen_code, inst_code, made) (rw (sym (append_assoc e.current code codes)) all),
        m',
        run_calls-append code codes 0 0 m m₁ ran ∙ goes,
        h',
      )
