-- ===== src/CodeGen/Function/Each.antt =====
-- What holds of each function that `GenFunction::CodeGen` (src/GenFunction.cpp) has generated, when it
-- holds of what the loop over the blocks of a function makes.
use camll_vm.Base.{
  ℕ, zero, suc, ◌+◌, ◌≡◌, subst, Option, some, List, [], ◌∷◌, length, All, Bool-cases, inl, inr,
  >>=-eq-some, some_inj, sym, ◌∙◌,
}
use camll_vm.ModuleCreator.Blocks.{Graph, has_key}
use camll_vm.CodeGen.Function.Threads.{block_code, gen_blocks-block_code}
use camll_vm.CodeGen.Function.{
  all_fns, Store, Compiled, Progress, find_graph, get_ptrs_to, gen_blocks, gen_function, gen_by_id,
  compile, put_block, new_store, compiled_of,
}

module _ (P : Compiled → Type 0) where
  abbrev pub AllCompiled : Progress → Type 0
  AllCompiled p = All P p.compiled

  -- Generating another function keeps the property.
  abbrev pub Keeps : (ℕ → Progress → Option Progress) → Type 0
  Keeps a = (f : ℕ) (p p' : Progress) → AllCompiled p → a f p ≡ some p' → AllCompiled p'

  -- What the loop over the blocks of a function makes has the property.
  abbrev pub Grants : (ℕ → Progress → Option Progress) → ℕ → Graph → Type 0
  Grants a id g =
      (p : Progress) (r : Store × Progress)
      → gen_blocks a id g g.keys (new_store g) p ≡ some r
      → P (compiled_of id g r.0)

  module _ (a : ℕ → Progress → Option Progress) (keeps : Keeps a) where
    get_ptrs_to_keeps :
        (fs : List ℕ) (p p' : Progress)
        → AllCompiled p
        → get_ptrs_to a fs p ≡ some p'
        → AllCompiled p'
    unfolding get_ptrs_to
    get_ptrs_to_keeps [] p p' s h = subst AllCompiled (some_inj h) s
    get_ptrs_to_keeps (f ∷ fs) p p' s h = elim (Bool-cases (has_key f p.started)) [
      | inl known ↦ get_ptrs_to_keeps fs p p' s (rw (get_ptrs_to, known) at h)
      | inr new ↦
          let (q, made, more) = >>=-eq-some (a f p) _ (rw (get_ptrs_to, new) at h) in
          get_ptrs_to_keeps fs q p' (keeps f p q s made) more
    ]

    gen_blocks_keeps :
        (id : ℕ) (g : Graph) (ks : List ℕ) (s : Store) (p : Progress) (r : Store × Progress)
        → AllCompiled p
        → gen_blocks a id g ks s p ≡ some r
        → AllCompiled r.1
    unfolding gen_blocks
    gen_blocks_keeps id g [] s p r i h =
        subst (λ (x : Store × Progress). AllCompiled x.1) (some_inj h) i
    gen_blocks_keeps id g (k ∷ ks) s p r i h =
        let (q, visited, rest) =
          >>=-eq-some (get_ptrs_to a (all_fns (g.insts k)) p) _
            (sym (gen_blocks-block_code a id g k ks s p) ∙ h) in
        let (e, made, more) = >>=-eq-some (block_code id g k s) _ rest in
        gen_blocks_keeps id g ks (put_block e s) q r
          (get_ptrs_to_keeps (all_fns (g.insts k)) p q i visited) more

    gen_function_keeps :
        (id : ℕ) (g : Graph) (p p' : Progress)
        → Grants a id g
        → AllCompiled p
        → gen_function a id g p ≡ some p'
        → AllCompiled p'
    unfolding gen_function
    gen_function_keeps id g p p' grants i h =
        let (r, made, done) = >>=-eq-some (gen_blocks a id g g.keys (new_store g) p) _ h in
        subst AllCompiled (some_inj done)
          (grants p r made, gen_blocks_keeps id g g.keys (new_store g) p r i made)

  gen_by_id-Keeps :
      (fns : List (ℕ × Graph)) (fuel : ℕ)
      → ((n f : ℕ) (g : Graph) → find_graph f fns ≡ some g → Grants (gen_by_id fns n) f g)
      → Keeps (gen_by_id fns fuel)
  unfolding gen_by_id
  gen_by_id-Keeps fns zero grants f p p' s h = absurd (cc)
  gen_by_id-Keeps fns (suc fuel) grants f p p' s h =
      let (g, found, made) = >>=-eq-some (find_graph f fns) _ h in
      gen_function_keeps (gen_by_id fns fuel) (gen_by_id-Keeps fns fuel grants) f g
        (record p { started = f ∷ p.started }) p' (grants fuel f g found) s made

  pub compile-AllCompiled :
      (fns : List (ℕ × Graph)) (main : Graph) (p : Progress)
      → ((n f : ℕ) (g : Graph) → find_graph f fns ≡ some g → Grants (gen_by_id fns n) f g)
      → Grants (gen_by_id fns (length fns + 1)) 0 main
      → compile fns main ≡ some p
      → AllCompiled p
  unfolding compile
  compile-AllCompiled fns main p grants main_grants h =
      gen_function_keeps (gen_by_id fns (length fns + 1))
        (gen_by_id-Keeps fns (length fns + 1) grants) 0 main
        (record { started = []; compiled = [] }) p main_grants tt h
