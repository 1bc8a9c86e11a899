-- ===== src/CodeGen/Run/Branches.antt =====
-- A block that ends with a conditional branch (src/GenBlock.cpp), run on the machine of
-- src/StdLib/CStdLib.c, against the integer ZINC machine.
use camll_vm.Base.{
  ℕ, ◌*◌, ◌%◌, ◌<◌, ◌≤◌, ◌≡◌, ◌+◌, refl, ap, ◌∙◌, Bool, true, false, not, Option, none, some, List,
  [], ◌∷◌, ◌++◌, ◌==◌, if◌then◌else◌, arith, word, word_mod, some_inj, >>=-eq-some,
}
use camll_vm.Opcode.{Opcode}
use camll_vm.Instruction.{ZInstruction, arg, sign_extend}
use camll_vm.Runtime.State.{Machine, Ocaml, IsStandard, tagged}
use camll_vm.Runtime.Ints.Laws.{
  int_mod, signed_lt-tagged, signed_le-tagged, ==-tagged, ltb-tagged, leb-tagged,
}
use camll_vm.CodeGen.Emit.{Callee, Code, Operand, Test, Label, label, Comparison, const_val}
use camll_vm.CodeGen.Straight.{
  gen_const, gen_acc, gen_arith, gen_data, closure_code, gen_call, gen_straight_at, gen_straight,
}
use camll_vm.CodeGen.Block.{new_block, Emitter, emit, gen_cond_br, gen_control, inst_code, gen_code}
use camll_vm.CodeGen.Run.{
  call_runtime, Process, Exit, compare_words, operands, holds, thrown, run_calls, run_block,
}
use camll_vm.CodeGen.Run.Spec.{Value, Zinc, jumps, zinc_run}
use camll_vm.CodeGen.Run.Steps.{Encodes, Represents}
use camll_vm.CodeGen.Run.Simulation.{zinc_run-simulated}

module _ (ml : Ocaml) (std : IsStandard ml) (fuel : ℕ) (p : Process) where
  not_thrown :
      (f : Callee) (args : List ℕ) (m : Machine) (x : ℕ × Machine)
      → call_runtime ml fuel f args m ≡ some x
      → thrown ml fuel p f args m ≡ none
  unfolding call_runtime
  not_thrown Callee.throw_exception [] m x e = refl
  not_thrown Callee.throw_exception (v ∷ []) m x e = absurd (cc)
  not_thrown Callee.throw_exception (v ∷ w ∷ vs) m x e = refl
  not_thrown f args m x e = refl

  pub run_block-append :
      (a b : List Code) (last l : ℕ) (m m' : Machine)
      → run_calls ml fuel p a last m ≡ some (l, m')
      → run_block ml fuel p (a ++ b) last m ≡ run_block ml fuel p b l m'
  unfolding run_calls run_block
  run_block-append [] b last l m m' e =
      ap (λ (x : ℕ × Machine). run_block ml fuel p b x.0 x.1) (some_inj e)
  run_block-append (Code.call f args ∷ a) b last l m m' e =
      let (x, ran, more) = >>=-eq-some (call_runtime ml fuel f (operands ml fuel p m args) m) _ e in
      rw (run_block, not_thrown f (operands ml fuel p m args) m x ran, ran)
        (run_block-append a b x.0 l x.1 m' more)
  run_block-append (Code.invoke ∷ a) b last l m m' e =
      let (x, ran, more) = >>=-eq-some (p.enter last m) _ e in
      rw ran (run_block-append a b 0 l x m' more)
  run_block-append (c ∷ a) b last l m m' e = absurd (cc)

  -- The emitted branch goes to `b` when the jump is taken, else to `n`.
  abbrev Branches : Option Emitter → Emitter → Bool → ℕ → ℕ → Machine → Type 0
  Branches o e taken b n m =
      (t : Test) × (x : Label) × (y : Label) × (o ≡ some (emit (Code.cond_br t x y ∷ []) e))
      × ((if holds ml fuel p t 0 m then x else y) ≡ label (if taken then b else n) 0)

  chosen :
      (h taken : Bool) (b n : ℕ)
      → h ≡ taken
      → (if h then label b 0 else label n 0) ≡ label (if taken then b else n) 0
  chosen h true b n q = rw q refl
  chosen h false b n q = rw q refl

  chosen_other :
      (h taken : Bool) (b n : ℕ)
      → h ≡ not taken
      → (if h then label n 0 else label b 0) ≡ label (if taken then b else n) 0
  chosen_other h true b n q = rw q refl
  chosen_other h false b n q = rw q refl

  module _ (has_block : ℕ → Bool) (latest : ℕ → ℕ) (b n : ℕ) where
    abbrev pub starting : ℕ → Emitter
    starting i = new_block i (some b) (some n)

    even_lem : (a : ℕ) → a % 2 ≡ 0 → (a == 1) ≡ false
    even_lem a h = ground arith

    abbrev pub JumpsRight :
        ℕ → List Code → Option (List Code) → Option Emitter → Bool → Machine → Type 0
    JumpsRight i code straight o taken m =
        (straight ≡ none)
        × (t : Test) × (x : Label) × (y : Label) × (o
            ≡ some (emit (Code.cond_br t x y ∷ []) (emit code (starting i))))
        × ((if holds ml fuel p t 0 m then x else y) ≡ label (if taken then b else n) 0)

    with_arg : (k : ℕ) → word (2 * sign_extend k + 1) ≡ tagged (sign_extend k % int_mod)
    with_arg k = omega arith

    compared_lem :
        (c : Comparison) (inst : ZInstruction) (i : ℕ) (code : List Code) (a : ℕ) (m : Machine)
        (test taken : Bool)
        → m.accu ≡ tagged a
        → compare_words c (tagged (sign_extend (arg inst 0) % int_mod)) (tagged a) ≡ test
        → some test ≡ some taken
        → JumpsRight i code none
            (gen_cond_br has_block latest
              (Test.compares c (const_val (arg inst 0)) Operand.accu)
              (emit code (starting i)))
            taken
            m
    unfolding gen_cond_br
    compared_lem c inst i code a m test taken ta q e =
        (refl, _, _, _, refl, chosen _ taken b n (rw (with_arg (arg inst 0), ta) (q ∙ some_inj e)))

    pub jumps_lem :
        (inst : ZInstruction) (op : Opcode) (i : ℕ) (code : List Code) (v : Value) (m : Machine)
        (taken : Bool)
        → Encodes v m.accu
        → jumps op (arg inst 0) v ≡ some taken
        → JumpsRight i code
            (gen_straight_at inst op)
            (gen_control has_block latest inst op (emit code (starting i)))
            taken
            m
    unfolding jumps gen_straight_at gen_const gen_acc gen_arith gen_data closure_code gen_call
        gen_control gen_cond_br compare_words
    jumps_lem inst Opcode.branchif i code (Value.int a) m taken h e = (
      refl,
      _,
      _,
      _,
      refl,
      chosen _ taken b n (rw h.1 (ap not (==-tagged a 0 h.0 (omega arith)) ∙ some_inj e)),
    )
    jumps_lem inst Opcode.branchif i code (Value.ref a) m taken h e =
        (refl, _, _, _, refl, chosen _ taken b n (rw h.0 (ap not (even_lem a h.1) ∙ some_inj e)))
    jumps_lem inst Opcode.branchifnot i code (Value.int a) m taken h e = (
      refl,
      _,
      _,
      _,
      refl,
      chosen_other _ taken b n (rw h.1 (ap not (==-tagged a 0 h.0 (omega arith) ∙ some_inj e))),
    )
    jumps_lem inst Opcode.branchifnot i code (Value.ref a) m taken h e = (
      refl,
      _,
      _,
      _,
      refl,
      chosen_other _ taken b n (rw h.0 (ap not (even_lem a h.1 ∙ some_inj e))),
    )
    jumps_lem inst Opcode.beq i code (Value.int a) m taken h e =
        compared_lem Comparison.eq inst i code a m _ taken h.1 (==-tagged _ a (omega arith) h.0) e
    jumps_lem inst Opcode.bneq i code (Value.int a) m taken h e =
        compared_lem Comparison.ne inst i code a m _ taken h.1
          (ap not (==-tagged _ a (omega arith) h.0)) e
    jumps_lem inst Opcode.bltint i code (Value.int a) m taken h e =
        compared_lem Comparison.slt inst i code a m _ taken h.1
          (signed_lt-tagged _ a (omega arith) h.0) e
    jumps_lem inst Opcode.bleint i code (Value.int a) m taken h e =
        compared_lem Comparison.sle inst i code a m _ taken h.1
          (signed_le-tagged _ a (omega arith) h.0) e
    jumps_lem inst Opcode.bgtint i code (Value.int a) m taken h e =
        compared_lem Comparison.sgt inst i code a m _ taken h.1
          (signed_lt-tagged a _ h.0 (omega arith)) e
    jumps_lem inst Opcode.bgeint i code (Value.int a) m taken h e =
        compared_lem Comparison.sge inst i code a m _ taken h.1
          (signed_le-tagged a _ h.0 (omega arith)) e
    jumps_lem inst Opcode.bultint i code (Value.int a) m taken h e =
        compared_lem Comparison.ult inst i code a m _ taken h.1 (ltb-tagged _ a (omega arith) h.0) e
    jumps_lem inst Opcode.bugeint i code (Value.int a) m taken h e =
        compared_lem Comparison.uge inst i code a m _ taken h.1 (leb-tagged a _ h.0 (omega arith)) e
    jumps_lem inst op i code (Value.int a) m taken h e = absurd (cc)
    jumps_lem inst op i code (Value.ref a) m taken h e = absurd (cc)

    pub gen_code-append :
        (xs ys : List ZInstruction) (e e₁ : Emitter)
        → gen_code has_block latest xs e ≡ some e₁
        → gen_code has_block latest (xs ++ ys) e ≡ gen_code has_block latest ys e₁
    unfolding gen_code
    gen_code-append [] ys e e₁ q = ap (gen_code has_block latest ys) (some_inj q)
    gen_code-append (x ∷ xs) ys e e₁ q =
        let (e₂, first, more) = >>=-eq-some (inst_code has_block latest x e) _ q in
        rw (gen_code, first) (gen_code-append xs ys e₂ e₁ more)

    module _ (r : Machine) (base cap : ℕ) (high : base < word_mod) (room : 8 * cap ≤ base) where
      -- Where OCaml's macros are as `IsStandard` says: let the integer ZINC machine, which has the
      -- instructions on constants, integers and the stack and which any other instruction stops,
      -- run a list of instructions to its end, and decide a conditional branch that follows them.
      -- Then the list and the branch are generated as one LLVM block. Run from a machine that
      -- stands for the first state, in an address space with room for the stack, the block goes to
      -- the first LLVM block of BrBlock when the integer ZINC machine jumps and to that of
      -- NoBrBlock when it does not, with a machine that stands for the integer ZINC machine's last
      -- state.
      pub branching_block-simulated :
          (insts : List ZInstruction) (inst : ZInstruction) (i : ℕ) (z z' : Zinc) (m : Machine)
          (taken : Bool)
          → Represents r base z m
          → zinc_run cap insts z ≡ some z'
          → jumps inst.op_num (arg inst 0) z'.accu ≡ some taken
          → (code : List Code) × (gen_code has_block latest
                (insts ++ inst ∷ [])
                (new_block i (some b) (some n))
              ≡ some (record (new_block i (some b) (some n)) { current = code }))
            × (m' : Machine) × (run_block ml fuel p code 0 m
                ≡ some (Exit.goes_to (label (if taken then b else n) 0) 0 m'))
            × Represents r base z' m'
      unfolding inst_code gen_code gen_straight run_block
      branching_block-simulated insts inst i z z' m taken h q j =
          let (code, made, m', ran, h') =
            zinc_run-simulated ml std fuel p r base cap high room has_block latest insts z z' m
              (new_block i (some b) (some n)) h q in
          let (none_lem, t, x, y, ends, goes) =
            jumps_lem inst inst.op_num i code z'.accu m' taken h'.accu_lem j in
          (
            code ++ Code.cond_br t x y ∷ [],
            gen_code-append insts (inst ∷ []) _ _ made
                ∙ rw (gen_code, inst_code, none_lem, ends) refl,
            m',
            run_block-append code (Code.cond_br t x y ∷ []) 0 0 m m' ran
                ∙ ap (λ (l : Label). some (Exit.goes_to l 0 m')) goes,
            h',
          )
