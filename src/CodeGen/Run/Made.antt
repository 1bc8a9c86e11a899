-- ===== src/CodeGen/Run/Made.antt =====
-- How the blocks of a function without traps come about (`GenFunction::CodeGen`, src/GenFunction.cpp).
use camll_vm.Base.{
  Ascends, ℕ, suc, ◌≤◌, ◌<◌, ◌≡◌, ◌≢◌, refl, sym, ap, ◌∙◌, false, ◌&&◌, Option, some, List, [], ◌∷◌,
  ◌==◌, length, some_inj, >>=-eq-some, arith, ==_refl, All, All-map,
}
use camll_vm.Instruction.{ZInstruction, is_pushtrap_op}
use camll_vm.ModuleCreator.Blocks.{Graph, at_key, is_empty}
use camll_vm.CodeGen.Block.{Emitter, code_gen, gen_term_inst}
use camll_vm.CodeGen.Function.Threads.{block_code, gen_blocks-block_code}
use camll_vm.CodeGen.Function.{
  all_fns, Store, new_store, add_prologues, put_block, has_block_of, last_block, is_main, front_of,
  Progress, get_ptrs_to, gen_blocks,
}
use camll_vm.CodeGen.Function.Traps.{TrapsTo, block-EmitsTo}

abbrev pub HasNoTrap : Graph → ℕ → Type 0
HasNoTrap g k = All (λ (i : ZInstruction). is_pushtrap_op i.op_num ≡ false) (g.insts k)

-- How the block `k` of the store `s` came about. The later blocks were not generated then, the
-- earlier ones were.
pub record IsMade (g : Graph) (s : Store) (k : ℕ) : Type 0 where
  pub latest : ℕ → ℕ
  pub emitter : Emitter
  pub made_lem : code_gen (has_block_of g) latest false (g.insts k) (new_store g k) ≡ some emitter
  pub ended_lem :
      gen_term_inst (has_block_of g) latest (g.insts k) (front_of (g.next k)) emitter ≡ some (s k)
  pub later_lem : (j : ℕ) → k < j → latest j ≡ 0
  pub earlier_lem : (j : ℕ) → j < k → latest j ≡ length (s j).closed

no_traps : (ts : List ℕ) → All (λ (t : ℕ). 1 ≤ 0) ts → ts ≡ []
no_traps [] a = refl
no_traps (t ∷ ts) a = absurd (omega (arith, a.0))

module _ (id : ℕ) (not_main : is_main id ≡ false) (g : Graph) where
  gen_block_lem :
      (k : ℕ) (s : Store) (e : Emitter)
      → HasNoTrap g k
      → s k ≡ new_store g k
      → block_code id g k s ≡ some e
      → (f : Emitter) × (code_gen (has_block_of g) (last_block s) false (g.insts k) (new_store g k)
          ≡ some f)
        × (gen_term_inst (has_block_of g) (last_block s) (g.insts k) (front_of (g.next k)) f
            ≡ some e)
        × (e.id ≡ k)
        × (e.trap_blocks ≡ [])
  unfolding block_code
  gen_block_lem k s e free fresh h =
      let (f, made, ended) =
        >>=-eq-some
          (code_gen (has_block_of g) (last_block s) (is_main id && is_empty (g.prev k)) (g.insts k)
            (s k))
          _ h in
      let made' : code_gen (has_block_of g) (last_block s) false (g.insts k) (new_store g k)
          ≡ some f =
        rw (not_main, fresh) at made in
      let traps =
        All-map (λ i. is_pushtrap_op i.op_num ≡ false) (TrapsTo (λ t. 1 ≤ 0) k)
          (λ i n t d. ground arith) (g.insts k) free in
      let after =
        block-EmitsTo (has_block_of g) (last_block s) (λ t. 1 ≤ 0) k false (g.insts k)
          (front_of (g.next k)) (new_store g k) f e traps (refl, tt) made' ended in
      (f, made', ended, after.0, no_traps e.trap_blocks after.1)

  module _ (generate : ℕ → Progress → Option Progress) where
    pub gen_blocks_lem :
        (n : ℕ) (ks : List ℕ) (s : Store) (p : Progress) (r : Store × Progress)
        → Ascends ks
        → All (λ (k : ℕ). n ≤ k) ks
        → All (HasNoTrap g) ks
        → ((j : ℕ) → n ≤ j → s j ≡ new_store g j)
        → gen_blocks generate id g ks s p ≡ some r
        → All (IsMade g r.0) ks × ((j : ℕ) → j < n → r.0 j ≡ s j)
    unfolding gen_blocks add_prologues
    gen_blocks_lem n [] s p r a above free fresh h =
        (tt, λ j lt. ap (λ (x : Store × Progress). x.0 j) (sym (some_inj h)))
    gen_blocks_lem n (k ∷ ks) s p r a above free fresh h =
        let (q, visited, rest) =
          >>=-eq-some (get_ptrs_to generate (all_fns (g.insts k)) p) _
            (sym (gen_blocks-block_code generate id g k ks s p) ∙ h) in
        let (e, made, more) = >>=-eq-some (block_code id g k s) _ rest in
        let (f, one, two, own, none_to) = gen_block_lem k s e free.0 (fresh k above.0) made in
        let put : put_block e s ≡ at_key s k e = rw (none_to, own) refl in
        let others =
          gen_blocks_lem (suc k) ks (at_key s k e) q r a.1 a.0 free.1 (still k e above.0)
            (rw put at more) in
        let closed_lem : IsMade g r.0 k = record {
          latest = last_block s;
          emitter = f;
          made_lem = one;
          ended_lem = rw (others.1 k (omega arith), ==_refl k) two;
          later_lem =
              λ j lt. ap (λ (x : Emitter). length x.closed) (fresh j (omega (arith, above.0)));
          earlier_lem = λ j lt.
              ap (λ (x : Emitter). length x.closed)
                (sym (others.1 j (omega arith) ∙ apart k j e (omega arith)));
        } in
        (
          (closed_lem, others.0),
          λ j lt. others.1 j (omega (arith, above.0)) ∙ apart k j e (omega (arith, above.0)),
        )
      where
        apart : (k j : ℕ) (e : Emitter) → k ≢ j → at_key s k e j ≡ s j
        apart k j e d = let other : (k == j) ≡ false = ground arith in rw other refl

        still : (k : ℕ) (e : Emitter) → n ≤ k → (j : ℕ) → suc k ≤ j → at_key s k e j ≡ new_store g j
        still i e le j lt = apart i j e (omega arith) ∙ fresh j (omega arith)
