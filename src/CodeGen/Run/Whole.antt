-- ===== src/CodeGen/Run/Whole.antt =====
-- A function that `GenFunction::CodeGen` (src/GenFunction.cpp) has generated, run on the machine of
-- src/StdLib/CStdLib.c, against the integer ZINC machine.
use camll_vm.Base.{
  Ascends, ℕ, zero, suc, ◌*◌, ◌≤◌, ◌<◌, ◌≡◌, refl, sym, ap, ap₂, ◌∙◌, subst, inl, inr, ◌⊎◌, true,
  false, Bool-cases, Option, none, some, List, [], ◌∷◌, ◌++◌, ◌==◌, ltb, length, get_elem?,
  if◌then◌else◌, word_mod, some_inj, >>=-eq-some, ◌>>=◌, arith, All, ltb→lt,
}
use camll_vm.Instruction.{sign_extend}
use camll_vm.ModuleCreator.Blocks.{Graph, has_key}
use camll_vm.Runtime.State.{Machine, Ocaml, IsStandard}
use camll_vm.Runtime.Frames.{handle_return}
use camll_vm.CodeGen.Emit.{Code, label}
use camll_vm.CodeGen.Block.{last_inst}
use camll_vm.CodeGen.Function.{
  Store, new_store, has_block_of, is_main, Progress, gen_blocks, gen_function, finish, compiled_of,
}
use camll_vm.CodeGen.Run.{Process, Exit, run_block}
use camll_vm.CodeGen.Run.Spec.{Zinc}
use camll_vm.CodeGen.Run.Steps.{Represents}
use camll_vm.CodeGen.Run.Graph.{
  Outcome, zinc_block, zinc_graph, code_at, run_function, follow, taken_up, plain_next, ahead,
  goes_ahead, returns_op,
}
use camll_vm.CodeGen.Run.Made.{HasNoTrap, IsMade, gen_blocks_lem}
use camll_vm.CodeGen.Run.Block.{last_of, Follows, block_lem}
use camll_vm.CodeGen.Run.Trips.{All-at, returns_lem, continues, zinc_graph_inv}

module _ (ml : Ocaml) (std : IsStandard ml) (fuel : ℕ) (p : Process) (r : Machine) (base cap : ℕ)
    (high : base < word_mod) (room : 8 * cap ≤ base) (id : ℕ) (g : Graph) (s : Store)
    (made : All (IsMade g s) g.keys) (forward : All (λ (k : ℕ). goes_ahead g k ≡ true) g.keys) where
  abbrev FollowsAt : (k : ℕ) → IsMade g s k → Machine → Outcome → Type 0
  FollowsAt k b m o =
      Follows ml std fuel p r base cap high room (has_block_of g) b.latest g k
        (plain_next g k (last_inst (g.insts k))) (s k) m o

  block_follows :
      (k : ℕ) (b : IsMade g s k) (z : Zinc) (m : Machine) (o : Outcome)
      → Represents r base z m
      → zinc_block cap g k (g.insts k) z ≡ some o
      → FollowsAt k b m o
  block_follows k b z m o h q =
      block_lem ml std fuel p r base cap high room (has_block_of g) b.latest g k z m o b.emitter
        (s k) h q b.made_lem b.ended_lem

  single_lem :
      (j : ℕ) (b : IsMade g s j) (z : Zinc) (m : Machine) (o : Outcome)
      → Represents r base z m
      → zinc_block cap g j (g.insts j) z ≡ some o
      → (length (s j).closed ≡ 0) ⊎ (returns_op (last_inst (g.insts j)) ≡ true)
  single_lem j b z m (Outcome.goes_to i z') h q =
      inl (
        ap (λ (c : List (List Code)). length c)
          (block_follows j b z m (Outcome.goes_to i z') h q).0)
  single_lem j b z m (Outcome.leaves a z') h q = inr (returns_lem cap g j (g.insts j) z z' a q)

  -- A jump to the last LLVM block of a block from which the integer ZINC machine goes on is one to its first.
  starts_at_first :
      (k j i n : ℕ) (b : IsMade g s k) (z : Zinc) (m : Machine) (x : ℕ × Zinc)
      → Represents r base z m
      → goes_ahead g k ≡ true
      → i ≡ last_of ml std fuel p r base cap high room (has_block_of g) b.latest g k j
      → plain_next g k (last_inst (g.insts k)) ≡ some j
      → zinc_graph cap g n j z ≡ some x
      → i ≡ 0
  unfolding zinc_graph
  starts_at_first k j i zero b z m x h a e to q = absurd (cc)
  starts_at_first k j i (suc n) b z m x h a e to q = elim (Bool-cases (j == k)) [
    | inl own ↦ rw own at e
    | inr other ↦
        let (known, o, ran, more) = zinc_graph_inv cap g n j z x q in
        let last : i ≡ b.latest j = rw other at e in
        elim (Bool-cases (ltb k j)) [
          | inl before ↦ last ∙ b.later_lem j (ltb→lt k j before)
          | inr after ↦
              let earlier : j < k = ground arith in
              elim (single_lem j (All-at (IsMade g s) j g.keys known made) z m o h ran) [
                | inl one_block ↦ last ∙ b.earlier_lem j earlier ∙ one_block
                | inr returns ↦
                    let no : ahead g k (some j) ≡ true = rw to at a in
                    let fails : false ≡ true = rw (returns, after) at no in absurd (cc)
              ]
        ]
  ]

  -- What is in the memory of the LLVM function.
  code_lem :
      (k i : ℕ)
      → has_key k g.keys ≡ true
      → code_at (compiled_of id g s) (label k i) ≡ get_elem? ((s k).closed ++ (s k).current ∷ []) i
  code_lem k i known = rw known refl

  step_at :
      (n k i last : ℕ) (code : List Code) (m : Machine)
      → code_at (compiled_of id g s) (label k i) ≡ some code
      → run_function ml fuel p (suc n) (compiled_of id g s) (label k i) last m ≡ (
          run_block ml fuel p code last m
          >>= follow ml fuel p (run_function ml fuel p n (compiled_of id g s)))
  unfolding run_function
  step_at n k i last code m e = rw (run_function, e) refl

  abbrev Leaves : ℕ → ℕ → Machine → ℕ × Zinc → Type 0
  Leaves n k m x =
      (m' : Machine) × Represents r base x.1 m'
      × (run_function ml fuel p (suc n) (compiled_of id g s) (label k 0) 0 m
          ≡ taken_up ml fuel p (handle_return ml (sign_extend x.0) m'))

  return_lem :
      (n k a : ℕ) (m m' : Machine) (z' : Zinc) (b : IsMade g s k)
      → has_key k g.keys ≡ true
      → Represents r base z' m'
      → (code : List Code) → (s k).closed ≡ code ∷ (Code.tail_invoke ∷ Code.ret_void ∷ []) ∷ []
      → (s k).current ≡ Code.ret_void ∷ []
      → run_block ml fuel p code 0 m
        ≡ some (
            Exit.goes_to
              (if (handle_return ml (sign_extend a) m').0 == 0 then label k 2 else label k 1)
              (handle_return ml (sign_extend a) m').0
              (handle_return ml (sign_extend a) m').1)
      → Leaves (suc n) k m (a, z')
  unfolding run_block
  return_lem n k a m m' z' b known h code closed current ran =
      let done = handle_return ml (sign_extend a) m' in
      let enter : (i : ℕ)
          → code_at (compiled_of id g s) (label k i)
            ≡ get_elem? (code ∷ (Code.tail_invoke ∷ Code.ret_void ∷ []) ∷ (Code.ret_void ∷ []) ∷ [])
                i =
        λ i.
          code_lem k i known
          ∙ ap₂ (λ (cs : List (List Code)) (c : List Code). get_elem? (cs ++ c ∷ []) i) closed
              current in
      (
        m',
        h,
        step_at (suc n) k 0 0 code m (enter 0)
            ∙ rw ran (elim (Bool-cases (done.0 == 0)) [
              | inl t ↦ rw t (step_at n k 2 done.0 (Code.ret_void ∷ []) done.1 (enter 2))
              | inr f ↦ rw f (
                  step_at n k 1 done.0 (Code.tail_invoke ∷ Code.ret_void ∷ []) done.1 (enter 1)
                  ∙ entered (p.enter done.0 done.1))
            ]),
      )
    where
      entered :
          (o : Option Machine)
          → ((o >>= λ m₁. some (Exit.returns m₁))
              >>= follow ml fuel p (run_function ml fuel p n (compiled_of id g s)))
            ≡ (o >>= λ m₁. some (Exit.returns m₁))
      entered none = refl
      entered (some m₁) = refl

  run_lem :
      (n k : ℕ) (z : Zinc) (x : ℕ × Zinc) (m : Machine)
      → Represents r base z m
      → zinc_graph cap g n k z ≡ some x
      → Leaves n k m x
  unfolding zinc_graph
  run_lem zero k z x m h q = absurd (cc)
  run_lem (suc n) k z x m h q =
      let (known, o, ran, more) = zinc_graph_inv cap g n k z x q in
      let b = All-at (IsMade g s) k g.keys known made in
      outcome o b known (block_follows k b z m o h ran) more (λ j z₁ m₁. run_lem n j z₁ x m₁)
    where
      outcome :
          (o : Outcome) (b : IsMade g s k)
          → has_key k g.keys ≡ true
          → FollowsAt k b m o
          → continues cap g n o ≡ some x
          → ((j : ℕ) (z₁ : Zinc) (m₁ : Machine)
              → Represents r base z₁ m₁
              → zinc_graph cap g n j z₁ ≡ some x
              → Leaves n j m₁ x)
          → Leaves (suc n) k m x
      outcome (Outcome.leaves a z') b known (code, m', closed, current, h', ran) more next =
          subst (Leaves (suc n) k m) (some_inj more)
            (return_lem n k a m m' z' b known h' code closed current ran)
      outcome (Outcome.goes_to j z₁) b known (closed, i, m₁, ran, h₁, first) more next =
          let (m', h', runs) = next j z₁ m₁ h₁ more in
          let at : code_at (compiled_of id g s) (label k 0) ≡ some (s k).current =
            code_lem k 0 known ∙ rw closed refl in
          let entry : i ≡ 0 = elim first [
            | inl zero_lem ↦ zero_lem
            | inr (e, to) ↦
                starts_at_first k j i n b z₁ m₁ x h₁
                  (All-at (λ k. goes_ahead g k ≡ true) k g.keys known forward) e to more
          ] in
          (m', h', step_at (suc n) k 0 0 (s k).current m at ∙ rw (ran, entry) runs)

-- Where OCaml's macros are as `IsStandard` says: take a function, other than the main one, whose blocks
-- are in ascending order, that sets no traps and in which only conditional branches go to an earlier block
-- that ends with a `RETURN`, and let `CodeGen` return for it. Whenever the integer ZINC machine gets from a
-- block to a `RETURN`, through at most `n` blocks, the generated code, run from the first LLVM block of that
-- block on a machine that stands for the integer ZINC machine's state, comes to `handleReturn` with a machine that
-- stands for its final state: the run, through at most `n + 1` LLVM blocks, is what `handleReturn` gives on
-- that machine, with the caller's code entered if there is any.
pub gen_function-simulated :
    (ml : Ocaml) (std : IsStandard ml) (fuel : ℕ) (p : Process) (r : Machine) (base cap : ℕ)
    → base < word_mod
    → 8 * cap ≤ base
    → (generate : ℕ → Progress → Option Progress) (id : ℕ) (g : Graph) (q q' : Progress)
    → is_main id ≡ false
    → Ascends g.keys
    → All (HasNoTrap g) g.keys
    → All (λ (k : ℕ). goes_ahead g k ≡ true) g.keys
    → gen_function generate id g q ≡ some q'
    → (n k a : ℕ) (z z' : Zinc) (m : Machine) → Represents r base z m
    → zinc_graph cap g n k z ≡ some (a, z')
    → (s : Store) × (q₁ : Progress) × (q' ≡ finish id g s q₁)
      × (m' : Machine) × Represents r base z' m'
      × (run_function ml fuel p (suc n) (compiled_of id g s) (label k 0) 0 m
          ≡ taken_up ml fuel p (handle_return ml (sign_extend a) m'))
unfolding gen_function
gen_function-simulated ml std fuel p r base cap high room generate id g q q' other asc free
      ahead_lem h n k a z z' m rep ran =
    let (done, made, last) = >>=-eq-some (gen_blocks generate id g g.keys (new_store g) q) _ h in
    let blocks =
      (gen_blocks_lem id other g generate 0 g.keys (new_store g) q done asc (All-any g.keys) free
        (λ j le. refl) made).0 in
    let (m', stands, runs) =
      run_lem ml std fuel p r base cap high room id g done.0 blocks ahead_lem n k z (a, z') m rep
        ran in
    (done.0, done.1, sym (some_inj last), m', stands, runs)
  where
    All-any : (ks : List ℕ) → All (λ (k : ℕ). 0 ≤ k) ks
    All-any [] = tt
    All-any (k ∷ ks) = (omega arith, All-any ks)
