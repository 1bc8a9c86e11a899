-- ===== src/CodeGen/Function/Fuel.antt =====
-- The recursion of `GenFunction::CodeGen` (src/GenFunction.cpp) through `getPtrToFunc` ends: each
-- call sets `LlvmFunc` of another function.
use camll_vm.Base.{
  ℕ, zero, suc, ◌+◌, ◌<◌, ◌≤◌, ◌≡◌, refl, sym, ap, ◌∙◌, true, false, inl, inr, Option, none, some,
  List, [], ◌∷◌, length, ◌==◌, ==_iff, Bool-cases, Option-cases, Yields, if◌then◌else◌, ◌>>=◌,
  arith,
}
use camll_vm.ModuleCreator.Blocks.{Graph, has_key}
use camll_vm.CodeGen.Function.{
  all_fns, Store, Progress, find_graph, get_ptrs_to, gen_blocks, gen_function, gen_by_id, compile,
  put_block, new_store, finish,
}
use camll_vm.CodeGen.Function.Threads.{block_code, gen_blocks-block_code}
use camll_vm.CodeGen.Function.Closed.{anything, Extends, Generates, gen_by_id_lem, get_ptrs_to_lem}

-- The functions that are not started.
abbrev pending : List (ℕ × Graph) → List ℕ → ℕ
pending [] started = 0
pending (f ∷ fs) started =
    if has_key f.0 started then pending fs started else suc (pending fs started)

pending-le :
    (fns : List (ℕ × Graph)) (a b : List ℕ)
    → ((i : ℕ) → has_key i a ≡ true → has_key i b ≡ true)
    → pending fns b ≤ pending fns a
pending-le [] a b h = omega arith
pending-le (f ∷ fs) a b h = elim (Bool-cases (has_key f.0 a)) [
  | inl t ↦ rw (t, h f.0 t) (pending-le fs a b h)
  | inr n ↦ ground (arith, pending-le fs a b h)
]

later : (i id : ℕ) (a : List ℕ) → has_key i a ≡ true → has_key i (id ∷ a) ≡ true
later i id a h = elim (Bool-cases (i == id)) [ inl t ↦ rw t refl | inr f ↦ rw f h ]

pending-lt :
    (fns : List (ℕ × Graph)) (id : ℕ) (g : Graph) (a : List ℕ)
    → find_graph id fns ≡ some g
    → has_key id a ≡ false
    → pending fns (id ∷ a) < pending fns a
pending-lt [] id g a e h = cc
pending-lt ((i, f) ∷ fs) id g a e h = elim (Bool-cases (id == i)) [
  | inl t ↦
      let same : id ≡ i = (==_iff id i).0 t in
      let le = pending-le fs a (id ∷ a) (λ k. later k id a) in
      let before : has_key i a ≡ false = rw same at h in
      let after : (i == id) ≡ true = (==_iff i id).1 (sym same) in
      rw (before, after) (omega (arith, le))
  | inr n ↦
      let less = pending-lt fs id g a (rw n at e) h in
      let apart : (i == id) ≡ false = ground arith in
      elim (Bool-cases (has_key i a)) [
        | inl t ↦ rw (apart, t) less
        | inr u ↦ rw (apart, u) (omega (arith, less))
      ]
]

pending-le-length : (fns : List (ℕ × Graph)) (a : List ℕ) → pending fns a ≤ length fns
pending-le-length [] a = omega arith
pending-le-length (f ∷ fs) a = ground (arith, pending-le-length fs a)

>>=-agree {ℓ κ μ} :
    {A : Type ℓ} {B : Type κ} {P : A → Type μ} (m : Option A) (f g : A → Option B)
    → Yields P m
    → ((a : A) → P a → f a ≡ g a)
    → (m >>= f) ≡ (m >>= g)
>>=-agree none f g y h = refl
>>=-agree (some a) f g y h = h a y

module _ (fns : List (ℕ × Graph)) where
  -- Two ways of generating other functions agree while fewer than `n` functions are to start.
  abbrev AgreeBelow :
      ℕ → (ℕ → Progress → Option Progress) → (ℕ → Progress → Option Progress) → Type 0
  AgreeBelow n a b =
      (f : ℕ) (p : Progress)
      → has_key f p.started ≡ false
      → pending fns p.started < n
      → a f p ≡ b f p

  Extends-pending :
      (p p' : Progress) → Extends fns p p' → pending fns p'.started ≤ pending fns p.started
  Extends-pending p p' x = pending-le fns p.started p'.started x.started_lem

  module _ (n : ℕ) (a b : ℕ → Progress → Option Progress) (same : AgreeBelow n a b)
      (gen : Generates fns a) where
    get_ptrs_to_agree :
        (fs : List ℕ) (p : Progress)
        → pending fns p.started < n
        → get_ptrs_to a fs p ≡ get_ptrs_to b fs p
    unfolding get_ptrs_to
    get_ptrs_to_agree [] p lt = refl
    get_ptrs_to_agree (f ∷ fs) p lt = elim (Bool-cases (has_key f p.started)) [
      | inl known ↦ rw (get_ptrs_to, known) (get_ptrs_to_agree fs p lt)
      | inr new ↦
          rw (get_ptrs_to, new, sym (same f p new lt))
            (>>=-agree (a f p) _ _ (gen f p)
              λ q y. get_ptrs_to_agree fs q (omega (arith, Extends-pending p q y.0)))
    ]

    gen_blocks_agree :
        (id : ℕ) (g : Graph) (ks : List ℕ) (s : Store) (p : Progress)
        → pending fns p.started < n
        → gen_blocks a id g ks s p ≡ gen_blocks b id g ks s p
    unfolding gen_blocks
    gen_blocks_agree id g [] s p lt = refl
    gen_blocks_agree id g (k ∷ ks) s p lt =
        gen_blocks-block_code a id g k ks s p
        ∙ >>=-agree (get_ptrs_to a (all_fns (g.insts k)) p) _ _
            (get_ptrs_to_lem fns a gen (all_fns (g.insts k)) p)
            (λ q y. >>=-agree (block_code id g k s) _ _ (anything (block_code id g k s)) λ e u.
              gen_blocks_agree id g ks (put_block e s) q (omega (arith, Extends-pending p q y.0)))
        ∙ ap
            (λ (x : Option Progress).
              x >>= λ q. block_code id g k s >>= λ e. gen_blocks b id g ks (put_block e s) q)
            (get_ptrs_to_agree (all_fns (g.insts k)) p lt)
        ∙ sym (gen_blocks-block_code b id g k ks s p)

    gen_function_agree :
        (id : ℕ) (g : Graph) (p : Progress)
        → pending fns p.started < n
        → gen_function a id g p ≡ gen_function b id g p
    unfolding gen_function
    gen_function_agree id g p lt =
        ap (λ (m : Option (Store × Progress)). m >>= λ r. some (finish id g r.0 r.1))
          (gen_blocks_agree id g g.keys (new_store g) p lt)

  -- `CodeGen` of a function of the module, with at most `depth` calls in one another; `bottom` stands for
  -- a call below them.
  unfoldable pub nested : (ℕ → Progress → Option Progress) → ℕ → ℕ → Progress → Option Progress
  nested bottom zero id p = bottom id p
  nested bottom (suc depth) id p =
      let generate = nested bottom depth in
      find_graph id fns >>= λ g. gen_function generate id g (record p { started = id ∷ p.started })

  nested_agrees :
      (bottom : ℕ → Progress → Option Progress) (n : ℕ)
      → AgreeBelow n (gen_by_id fns n) (nested bottom n)
  unfolding gen_by_id nested
  nested_agrees bottom zero id p new lt = absurd (omega arith)
  nested_agrees bottom (suc n) id p new lt = elim (Option-cases (find_graph id fns)) [
    | inl missing ↦ rw (gen_by_id, nested, missing) refl
    | inr (g, found) ↦
        rw (gen_by_id, nested, found)
          (gen_function_agree n (gen_by_id fns n) (nested bottom n) (nested_agrees bottom n)
            (gen_by_id_lem fns n) id g (record p { started = id ∷ p.started })
            (omega (arith, pending-lt fns id g p.started found new)))
  ]

  -- The recursion of `CodeGen` through `getPtrToFunc` ends: `compile` makes no more calls in one another
  -- than the module has functions, and one. Whatever a call below them did, `bottom`, the result would
  -- be that of `compile`.
  pub compile-nested :
      (main : Graph) (bottom : ℕ → Progress → Option Progress)
      → gen_function
          (nested bottom (length fns + 1))
          0
          main
          (record { started = []; compiled = [] })
        ≡ compile fns main
  unfolding compile
  compile-nested main bottom = sym (
      gen_function_agree (length fns + 1) (gen_by_id fns (length fns + 1))
        (nested bottom (length fns + 1)) (nested_agrees bottom (length fns + 1))
        (gen_by_id_lem fns (length fns + 1)) 0 main (record { started = []; compiled = [] })
        (omega (arith, pending-le-length fns [])))
