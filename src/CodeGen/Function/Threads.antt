-- ===== src/CodeGen/Function/Threads.antt =====
-- The pointers that `getPtrToFunc` (src/GenBlock.cpp) takes during the code generation of a block may be
-- taken before it: `CodeGen` of a block is the code of its instructions after them.
use camll_vm.Base.{
  ℕ, ◌≡◌, refl, sym, ap, ◌∙◌, Bool, ◌&&◌, Option, none, some, List, [], ◌∷◌, ◌++◌, if◌then◌else◌,
  ◌>>=◌, Bool-cases, inl, inr,
}
use camll_vm.Instruction.{ZInstruction}
use camll_vm.ModuleCreator.Blocks.{Graph, has_key, is_empty}
use camll_vm.CodeGen.Emit.{Callee, call0}
use camll_vm.CodeGen.Block.{Emitter, emit, inst_code, gen_code, code_gen, gen_term_inst}
use camll_vm.CodeGen.Function.{
  fns_of, all_fns, Store, Progress, is_main, has_block_of, last_block, front_of, put_block,
  get_ptrs_to, gen_code_for_inst, gen_insts, gen_block, gen_blocks,
}

-- The code of a block of the function `id`, by `CodeGen` and `genTermInst`.
unfoldable pub block_code : ℕ → Graph → ℕ → Store → Option Emitter
block_code id g k s = do
  let starts = is_main id && is_empty (g.prev k)
  e ← code_gen (has_block_of g) (last_block s) starts (g.insts k) (s k)
  gen_term_inst (has_block_of g) (last_block s) (g.insts k) (front_of (g.next k)) e

abbrev with_progress : Option Emitter → Progress → Option (Emitter × Progress)
with_progress y p = y >>= λ e. some (e, p)

abbrev paired : Option Progress → Option Emitter → Option (Emitter × Progress)
paired x y = x >>= with_progress y

paired-none : (x : Option Progress) → paired x none ≡ none
paired-none none = refl
paired-none (some p) = refl

paired-append :
    (x : Option Progress) (y : Option Emitter) (f : Progress → Option Progress)
    (h : Emitter → Option Emitter) (r : Emitter → Progress → Option (Emitter × Progress))
    → ((e : Emitter) (p : Progress) → r e p ≡ paired (f p) (h e))
    → (paired x y >>= λ t. r t.0 t.1) ≡ paired (x >>= f) (y >>= h)
paired-append none y f h r same = refl
paired-append (some p) none f h r same = sym (paired-none (f p))
paired-append (some p) (some e) f h r same = same e p

paired-then :
    {A : Type 0} (x : Option Progress) (y : Option Emitter) (h : Emitter → Option Emitter)
    (r : Emitter → Progress → Option A)
    → ((paired x y >>= λ t. with_progress (h t.0) t.1) >>= λ t. r t.0 t.1)
      ≡ (x >>= λ p. (y >>= h) >>= λ e. r e p)
paired-then none y h r = refl
paired-then (some p) none h r = refl
paired-then (some p) (some e) h r = last (h e)
  where
    last : (o : Option Emitter) → (with_progress o p >>= λ t. r t.0 t.1) ≡ (o >>= λ e. r e p)
    last none = refl
    last (some e') = refl

module _ (generate : ℕ → Progress → Option Progress) where
  get_ptrs_to-append :
      (fs gs : List ℕ) (p : Progress)
      → get_ptrs_to generate (fs ++ gs) p ≡ (get_ptrs_to generate fs p >>= get_ptrs_to generate gs)
  unfolding get_ptrs_to
  get_ptrs_to-append [] gs p = refl
  get_ptrs_to-append (f ∷ fs) gs p = elim (Bool-cases (has_key f p.started)) [
    | inl t ↦ rw (get_ptrs_to, t) (get_ptrs_to-append fs gs p)
    | inr n ↦ rw (get_ptrs_to, n) (after (get_ptrs_to-append fs gs) (generate f p))
  ]
    where
      after :
          ((q : Progress)
            → get_ptrs_to generate (fs ++ gs) q
              ≡ (get_ptrs_to generate fs q >>= get_ptrs_to generate gs))
          → (o : Option Progress)
          → (o >>= get_ptrs_to generate (fs ++ gs))
            ≡ ((o >>= get_ptrs_to generate fs) >>= get_ptrs_to generate gs)
      after more none = refl
      after more (some q) = more q

  module _ (has_block : ℕ → Bool) (latest : ℕ → ℕ) where
    gen_insts_lem :
        (insts : List ZInstruction) (e : Emitter) (p : Progress)
        → gen_insts generate has_block latest insts e p
          ≡ paired (get_ptrs_to generate (all_fns insts) p) (gen_code has_block latest insts e)
    unfolding gen_insts gen_code get_ptrs_to all_fns gen_code_for_inst
    gen_insts_lem [] e p = refl
    gen_insts_lem (inst ∷ rest) e p =
        paired-append (get_ptrs_to generate (fns_of inst inst.op_num) p)
          (inst_code has_block latest inst e) (get_ptrs_to generate (all_fns rest))
          (gen_code has_block latest rest) (gen_insts generate has_block latest rest)
          (gen_insts_lem rest)
        ∙ ap (λ (x : Option Progress). paired x (gen_code has_block latest (inst ∷ rest) e))
            (sym (get_ptrs_to-append (fns_of inst inst.op_num) (all_fns rest) p))

  -- The loop over the blocks takes the pointers of a block, and then makes its code.
  pub gen_blocks-block_code :
      (id : ℕ) (g : Graph) (k : ℕ) (ks : List ℕ) (s : Store) (p : Progress)
      → gen_blocks generate id g (k ∷ ks) s p ≡ (
          get_ptrs_to generate (all_fns (g.insts k)) p >>= λ q.
          block_code id g k s >>= λ e. gen_blocks generate id g ks (put_block e s) q)
  unfolding gen_blocks gen_block block_code code_gen
  gen_blocks-block_code id g k ks s p =
      let starts = is_main id && is_empty (g.prev k) in
      let first = if starts then emit (call0 Callee.init) (s k) else s k in
      let term = gen_term_inst (has_block_of g) (last_block s) (g.insts k) (front_of (g.next k)) in
      ap
        (λ (x : Option (Emitter × Progress)). (x >>= λ t. with_progress (term t.0) t.1) >>= λ t.
          gen_blocks generate id g ks (put_block t.0 s) t.1)
        (gen_insts_lem (has_block_of g) (last_block s) (g.insts k) first p)
      ∙ paired-then (get_ptrs_to generate (all_fns (g.insts k)) p)
          (gen_code (has_block_of g) (last_block s) (g.insts k) first) term
          (λ e q. gen_blocks generate id g ks (put_block e s) q)
