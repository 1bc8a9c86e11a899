-- ===== src/CodeGen/Function/Sealed.antt =====
-- Every LLVM block of a function that `GenFunction::CodeGen` (src/GenFunction.cpp) generates ends
-- with its only terminator.
use camll_vm.Base.{
  Ascends, ℕ, ◌<◌, ◌≤◌, ◌≡◌, refl, sym, ap, subst, ◌∙◌, ◌≢◌, inl, inr, true, false, ◌&&◌, Option,
  some, List, [], ◌∷◌, ◌++◌, All, All-map, ==_iff, >>=-eq-some, Bool-cases, ◌==◌, some_inj, arith,
}
use camll_vm.Instruction.{ZInstruction, arg, is_pushtrap_op}
use camll_vm.ModuleCreator.Blocks.{Graph, at_key, is_empty}
use camll_vm.CodeGen.Block.{Emitter, emit, prologue, code_gen}
use camll_vm.CodeGen.Sealed.{IsOpen, IsClosed, HasInnerOnly, emit_goes_on}
use camll_vm.CodeGen.Terminators.{code_gen_closes}
use camll_vm.CodeGen.Function.Threads.{block_code, gen_blocks-block_code}
use camll_vm.CodeGen.Function.{
  all_fns, Store, new_store, add_prologues, put_block, has_block_of, last_block, is_main, front_of,
  Progress, get_ptrs_to, gen_blocks, gen_function, finish,
}
use camll_vm.CodeGen.Function.Traps.{EmitsTo, TrapsTo, block-EmitsTo}

-- The handler of a `PUSHTRAP` in block `k` is not an earlier block.
abbrev pub TrapsForward : ℕ → ZInstruction → Type 0
TrapsForward k inst = is_pushtrap_op inst.op_num ≡ true → k ≤ arg inst 0

-- The block is `k`, and it emits into later ones alone.
abbrev EmitsAfter : ℕ → Emitter → Type 0
EmitsAfter k = EmitsTo (λ t. k < t) k

-- Only the last instruction of a block ends it, and its traps go forward.
pub record IsFit (g : Graph) (k : ℕ) : Type 0 where
  pub front : List ZInstruction
  pub last : ZInstruction
  pub insts_lem : g.insts k ≡ front ++ last ∷ []
  pub inner_lem : HasInnerOnly front
  pub forward_lem : All (TrapsForward k) (g.insts k)

-- The emitter of the block `k`, before its instructions are generated.
abbrev ReadyAt : ℕ → Emitter → Type 0
ReadyAt k e = (e.id ≡ k) × IsOpen e × (e.trap_blocks ≡ [])

abbrev IsReady : Store → ℕ → Type 0
IsReady s k = ReadyAt k (s k)

-- Prologues leave the blocks up to `k` alone, and the others ready.
add_prologues_lem :
    (ts : List ℕ) (s : Store) (k : ℕ)
    → All (λ (t : ℕ). k < t) ts
    → ((j : ℕ) → j ≤ k → add_prologues ts s j ≡ s j)
      × ((j : ℕ) → IsReady s j → IsReady (add_prologues ts s) j)
unfolding add_prologues
add_prologues_lem [] s k a = (λ j le. refl, λ j h. h)
add_prologues_lem (t ∷ ts) s k a =
    let s₁ : Store = at_key s t (emit prologue (s t)) in
    let more = add_prologues_lem ts s₁ k a.1 in
    (λ j le. more.0 j le ∙ apart j le, λ j h. more.1 j (ready j h))
  where
    apart : (j : ℕ) → j ≤ k → at_key s t (emit prologue (s t)) j ≡ s j
    apart j le = let other : (t == j) ≡ false = ground (arith, a.0) in rw other refl

    ready : (j : ℕ) → IsReady s j → IsReady (at_key s t (emit prologue (s t))) j
    ready j h = elim (Bool-cases (t == j)) [
      | inl same ↦
          let q : j ≡ t = sym ((==_iff t j).0 same) in
          let h' : ReadyAt t (s t) = subst (IsReady s) q h in
          let met : ReadyAt t (emit prologue (s t)) =
            (h'.0, emit_goes_on prologue (s t) refl h'.1, h'.2) in
          rw same (subst (λ (i : ℕ). ReadyAt i (emit prologue (s t))) (sym q) met)
      | inr other ↦ rw other h
    ]

-- A block that is generated leaves the others as they are, or ready.
put_block_lem :
    (e : Emitter) (s : Store) (k : ℕ)
    → EmitsAfter k e
    → (put_block e s k ≡ e)
      × ((j : ℕ) → j < k → put_block e s j ≡ s j)
      × ((j : ℕ) → k < j → IsReady s j → IsReady (put_block e s) j)
put_block_lem e s k o =
    let more = add_prologues_lem e.trap_blocks (at_key s e.id e) k o.1 in
    (
      more.0 k (omega arith) ∙ own,
      λ j lt. more.0 j (omega arith) ∙ other j (omega arith),
      λ j lt h. more.1 j (subst (ReadyAt j) (sym (other j (omega arith))) h),
    )
  where
    own : at_key s e.id e k ≡ e
    own = let same : (e.id == k) ≡ true = (==_iff e.id k).1 o.0 in rw same refl

    other : (j : ℕ) → j ≢ k → at_key s e.id e j ≡ s j
    other j n = let apart : (e.id == j) ≡ false = ground (arith, o.0) in rw apart refl

gen_block_lem :
    (id : ℕ) (g : Graph) (k : ℕ) (s : Store) (e : Emitter)
    → IsFit g k
    → IsReady s k
    → block_code id g k s ≡ some e
    → IsClosed e × EmitsAfter k e
unfolding block_code
gen_block_lem id g k s e fit r h =
    let starts = is_main id && is_empty (g.prev k) in
    let (e₁, made, ended) =
      >>=-eq-some (code_gen (has_block_of g) (last_block s) starts (g.insts k) (s k)) _ h in
    (
      code_gen_closes (has_block_of g) (last_block s) starts fit.front fit.last (s k) e₁ e
          (front_of (g.next k)) fit.inner_lem r.1 (rw fit.insts_lem at made)
          (rw fit.insts_lem at ended),
      block-EmitsTo (has_block_of g) (last_block s) (λ t. k < t) k starts (g.insts k)
          (front_of (g.next k)) (s k) e₁ e
          (All-map (TrapsForward k) (TrapsTo (λ t. k < t) k) (λ i f t n. omega (arith, f t))
            (g.insts k) fit.forward_lem)
          (r.0, rw r.2 tt) made ended,
    )

All-next :
    (P Q : ℕ → Type 0) (k : ℕ) (ks : List ℕ)
    → All (λ (j : ℕ). k < j) ks
    → All P ks
    → ((j : ℕ) → k < j → P j → Q j)
    → All Q ks
All-next P Q k [] a d f = tt
All-next P Q k (j ∷ ks) a d f = (f j a.0 d.0, All-next P Q k ks a.1 d.1 f)

module _ (generate : ℕ → Progress → Option Progress) where
  pub gen_blocks_lem :
      (id : ℕ) (g : Graph) (ks : List ℕ) (s : Store) (p : Progress) (r : Store × Progress)
      → Ascends ks
      → All (IsFit g) ks
      → All (IsReady s) ks
      → gen_blocks generate id g ks s p ≡ some r
      → All (λ (k : ℕ). IsClosed (r.0 k)) ks × ((j : ℕ) → All (λ (k : ℕ). j < k) ks → r.0 j ≡ s j)
  unfolding gen_blocks
  gen_blocks_lem id g [] s p r a f d h =
      (tt, λ j u. ap (λ (x : Store × Progress). x.0 j) (sym (some_inj h)))
  gen_blocks_lem id g (k ∷ ks) s p r a f d h =
      let (q, visited, rest) =
        >>=-eq-some (get_ptrs_to generate (all_fns (g.insts k)) p) _
          (sym (gen_blocks-block_code generate id g k ks s p) ∙ h) in
      let (e, made, more) = >>=-eq-some (block_code id g k s) _ rest in
      let block = gen_block_lem id g k s e f.0 d.0 made in
      let put = put_block_lem e s k block.1 in
      let others =
        gen_blocks_lem id g ks (put_block e s) q r a.1 f.1
          (All-next (IsReady s) (IsReady (put_block e s)) k ks a.0 d.1 put.2) more in
      (
        (subst IsClosed (sym (others.1 k a.0 ∙ put.0)) block.0, others.0),
        λ j u. others.1 j u.1 ∙ put.1 j u.0,
      )

  pub new_store-IsReady : (g : Graph) (ks : List ℕ) → All (IsReady (new_store g)) ks
  new_store-IsReady g [] = tt
  new_store-IsReady g (k ∷ ks) = ((refl, (tt, refl), refl), new_store-IsReady g ks)

  -- When `CodeGen` returns for a function whose blocks are in ascending order, in each of which only
  -- the last instruction may be a jump, a return or a switch, and no handler comes before the block
  -- that sets it up, every LLVM block of every block ends with a terminator and has no other. The
  -- prologues of the traps, which one block emits into another, do not change that.
  pub gen_function-IsClosed :
      (id : ℕ) (g : Graph) (p p' : Progress)
      → Ascends g.keys
      → All (IsFit g) g.keys
      → gen_function generate id g p ≡ some p'
      → (s : Store) × (q : Progress) × (p' ≡ finish id g s q)
        × All (λ (k : ℕ). IsClosed (s k)) g.keys
  unfolding gen_function
  gen_function-IsClosed id g p p' a f h =
      let (r, made, done) = >>=-eq-some (gen_blocks generate id g g.keys (new_store g) p) _ h in
      (
        r.0,
        r.1,
        sym (some_inj done),
        (gen_blocks_lem id g g.keys (new_store g) p r a f (new_store-IsReady g g.keys) made).0,
      )
