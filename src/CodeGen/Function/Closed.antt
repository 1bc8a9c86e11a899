-- ===== src/CodeGen/Function/Closed.antt =====
-- Which functions `GenFunction::CodeGen` (src/GenFunction.cpp) generates: those that it is asked
-- for, and those that they refer to.
use camll_vm.Base.{
  ℕ, zero, suc, ◌+◌, ◌≡◌, refl, sym, subst, true, ◌||◌, inl, inr, ◌⊎◌, Option, none, some, List, [],
  ◌∷◌, All, ◌==◌, length, ==_iff, ==_refl, Option-cases, Bool-cases, Yields, Yields-bind,
  Yields-mono,
}
use camll_vm.ModuleCreator.Blocks.{Graph, has_key}
use camll_vm.CodeGen.Block.{Emitter}
use camll_vm.CodeGen.Function.Threads.{block_code, gen_blocks-block_code}
use camll_vm.CodeGen.Function.{
  all_fns, Store, Compiled, Progress, find_graph, get_ptrs_to, gen_blocks, gen_function, gen_by_id,
  compile, put_block, new_store, finish,
}

abbrev pub IsStarted : Progress → ℕ → Type 0
IsStarted p f = has_key f p.started ≡ true

abbrev ids : List Compiled → List ℕ
ids [] = []
ids (c ∷ cs) = c.id ∷ ids cs

-- The functions that the blocks `ks` refer to are started.
abbrev pub RefersTo : Graph → Progress → List ℕ → Type 0
RefersTo g p ks = All (λ (k : ℕ). All (IsStarted p) (all_fns (g.insts k))) ks

pub anything : (m : Option Emitter) → Yields (λ (e : Emitter). Unit {0}) m
anything none = tt
anything (some e) = tt

module _ (fns : List (ℕ × Graph)) where
  -- The function `i` has its code, and the functions that it refers to are started.
  pub record IsGenerated (p : Progress) (i : ℕ) : Type 0 where
    pub has_code : has_key i (ids p.compiled) ≡ true
    pub graph : Graph
    pub graph_lem : find_graph i fns ≡ some graph
    pub refers_lem : RefersTo graph p graph.keys

  -- Nothing is lost, and what is started on the way is generated.
  pub record Extends (p p' : Progress) : Type 0 where
    pub started_lem : (i : ℕ) → IsStarted p i → IsStarted p' i
    pub code_lem : (i : ℕ) → has_key i (ids p.compiled) ≡ true → has_key i (ids p'.compiled) ≡ true
    pub new_lem : (i : ℕ) → IsStarted p' i → (IsStarted p i) ⊎ (IsGenerated p' i)

  All-mono :
      (p p' : Progress) (fs : List ℕ)
      → ((i : ℕ) → IsStarted p i → IsStarted p' i)
      → All (IsStarted p) fs
      → All (IsStarted p') fs
  All-mono p p' [] h a = tt
  All-mono p p' (f ∷ fs) h a = (h f a.0, All-mono p p' fs h a.1)

  RefersTo-mono :
      (g : Graph) (p p' : Progress) (ks : List ℕ)
      → ((i : ℕ) → IsStarted p i → IsStarted p' i)
      → RefersTo g p ks
      → RefersTo g p' ks
  RefersTo-mono g p p' [] h a = tt
  RefersTo-mono g p p' (k ∷ ks) h a =
      (All-mono p p' (all_fns (g.insts k)) h a.0, RefersTo-mono g p p' ks h a.1)

  IsGenerated-mono : (p p' : Progress) (i : ℕ) → Extends p p' → IsGenerated p i → IsGenerated p' i
  IsGenerated-mono p p' i x d = record {
    has_code = x.code_lem i d.has_code;
    graph = d.graph;
    graph_lem = d.graph_lem;
    refers_lem = RefersTo-mono d.graph p p' d.graph.keys x.started_lem d.refers_lem;
  }

  Extends-refl : (p : Progress) → Extends p p
  Extends-refl p = record { started_lem = λ i h. h; code_lem = λ i h. h; new_lem = λ i h. inl h }

  Extends-trans : (p q r : Progress) → Extends p q → Extends q r → Extends p r
  Extends-trans p q r x y = record {
    started_lem = λ i h. y.started_lem i (x.started_lem i h);
    code_lem = λ i h. y.code_lem i (x.code_lem i h);
    new_lem = λ i h. elim (y.new_lem i h) [
      | inl old ↦ elim (x.new_lem i old) [
        | inl o ↦ inl o
        | inr d ↦ inr (IsGenerated-mono q r i y d)
      ]
      | inr d ↦ inr d
    ];
  }

  adds_code : (p : Progress) (c : Compiled) → Extends p (record p { compiled = c ∷ p.compiled })
  adds_code p c = record {
    started_lem = λ i h. h;
    code_lem = λ i h. elim (Bool-cases (i == c.id)) [ inl t ↦ rw t refl | inr f ↦ rw f h ];
    new_lem = λ i h. inl h;
  }

  module _ (generate : ℕ → Progress → Option Progress) where
    -- What `generate` does for a function that is not started.
    abbrev pub Generates : Type 0
    Generates =
        (f : ℕ) (p : Progress)
        → Yields (λ (p' : Progress). Extends p p' × IsStarted p' f) (generate f p)

    abbrev pub Visits : List ℕ → Progress → Progress → Type 0
    Visits fs p p' = Extends p p' × All (IsStarted p') fs

    pub get_ptrs_to_lem :
        Generates → (fs : List ℕ) (p : Progress) → Yields (Visits fs p) (get_ptrs_to generate fs p)
    unfolding get_ptrs_to
    get_ptrs_to_lem gen [] p = (Extends-refl p, tt)
    get_ptrs_to_lem gen (f ∷ fs) p = elim (Bool-cases (has_key f p.started)) [
      | inl known ↦
          rw (get_ptrs_to, known)
            (Yields-mono (Visits fs p) (Visits (f ∷ fs) p) (get_ptrs_to generate fs p)
              (get_ptrs_to_lem gen fs p) λ p' v. (v.0, (v.0.started_lem f known, v.1)))
      | inr new ↦
          rw (get_ptrs_to, new)
            (Yields-bind (λ (q : Progress). Extends p q × IsStarted q f) (Visits (f ∷ fs) p)
              (generate f p) (get_ptrs_to generate fs) (gen f p)
              λ q x.
                Yields-mono (Visits fs q) (Visits (f ∷ fs) p) (get_ptrs_to generate fs q)
                  (get_ptrs_to_lem gen fs q)
                  λ p' v. (Extends-trans p q p' x.0 v.0, (v.0.started_lem f x.1, v.1)))
    ]

    abbrev Refers : Graph → List ℕ → Progress → Store × Progress → Type 0
    Refers g ks p r = Extends p r.1 × RefersTo g r.1 ks

    gen_blocks_lem :
        Generates
        → (id : ℕ) (g : Graph) (ks : List ℕ) (s : Store) (p : Progress)
        → Yields (Refers g ks p) (gen_blocks generate id g ks s p)
    unfolding gen_blocks
    gen_blocks_lem gen id g [] s p = (Extends-refl p, tt)
    gen_blocks_lem gen id g (k ∷ ks) s p =
        subst (Yields (Refers g (k ∷ ks) p)) (sym (gen_blocks-block_code generate id g k ks s p)) (
          Yields-bind (Visits (all_fns (g.insts k)) p) (Refers g (k ∷ ks) p)
            (get_ptrs_to generate (all_fns (g.insts k)) p) _
            (get_ptrs_to_lem gen (all_fns (g.insts k)) p)
            λ q v.
              Yields-bind (λ (e : Emitter). Unit {0}) (Refers g (k ∷ ks) p) (block_code id g k s) _
                (anything (block_code id g k s))
                λ e u.
                  Yields-mono (Refers g ks q) (Refers g (k ∷ ks) p)
                    (gen_blocks generate id g ks (put_block e s) q)
                    (gen_blocks_lem gen id g ks (put_block e s) q)
                    λ r w. (
                      Extends-trans p q r.1 v.0 w.0,
                      (All-mono q r.1 (all_fns (g.insts k)) w.0.started_lem v.1, w.1),
                    ))

    -- The function has its code, and the functions that it refers to are started.
    abbrev Makes : ℕ → Graph → Progress → Progress → Type 0
    Makes id g p p' = Extends p p' × (has_key id (ids p'.compiled) ≡ true) × RefersTo g p' g.keys

    gen_function_lem :
        Generates
        → (id : ℕ) (g : Graph) (p : Progress) → Yields (Makes id g p) (gen_function generate id g p)
    unfolding gen_function
    gen_function_lem gen id g p =
        Yields-bind (Refers g g.keys p) (Makes id g p)
          (gen_blocks generate id g g.keys (new_store g) p) _
          (gen_blocks_lem gen id g g.keys (new_store g) p)
          λ r v. (
            Extends-trans p r.1 (finish id g r.0 r.1) v.0 (adds_code r.1 _),
            rw (==_refl id) refl,
            RefersTo-mono g r.1 (finish id g r.0 r.1) g.keys (λ i h. h) v.1,
          )

  enters :
      (id : ℕ) (g : Graph) (p p' : Progress)
      → find_graph id fns ≡ some g
      → Extends (record p { started = id ∷ p.started }) p'
      → has_key id (ids p'.compiled) ≡ true
      → RefersTo g p' g.keys
      → Extends p p' × IsStarted p' id
  enters id g p p' found x code refs = (
    record {
      started_lem = λ i h. x.started_lem i (later i h);
      code_lem = x.code_lem;
      new_lem = λ i h. fresh i (x.new_lem i h);
    },
    x.started_lem id (rw (==_refl id) refl),
  )
    where
      later : (i : ℕ) → IsStarted p i → ((i == id) || has_key i p.started) ≡ true
      later i h = elim (Bool-cases (i == id)) [ inl t ↦ rw t refl | inr f ↦ rw f h ]

      fresh :
          (i : ℕ)
          → (IsStarted (record p { started = id ∷ p.started }) i) ⊎ (IsGenerated p' i)
          → (IsStarted p i) ⊎ (IsGenerated p' i)
      fresh i (inr d) = inr d
      fresh i (inl h) = elim (Bool-cases (i == id)) [
        | inl t ↦ inr (
            subst (IsGenerated p') (sym ((==_iff i id).0 t))
              record { has_code = code; graph = g; graph_lem = found; refers_lem = refs })
        | inr f ↦ inl (rw f at h)
      ]

  pub gen_by_id_lem : (fuel : ℕ) → Generates (gen_by_id fns fuel)
  unfolding gen_by_id
  gen_by_id_lem zero id p = tt
  gen_by_id_lem (suc fuel) id p = elim (Option-cases (find_graph id fns)) [
    | inl missing ↦ rw (gen_by_id, missing) tt
    | inr (g, found) ↦
        rw (gen_by_id, found)
          (Yields-mono _ (λ (p' : Progress). Extends p p' × IsStarted p' id) _
            (gen_function_lem (gen_by_id fns fuel) (gen_by_id_lem fuel) id g
              (record p { started = id ∷ p.started }))
            λ p' m. enters id g p p' found m.0 m.1 m.2)
  ]

  All-keys : (P : ℕ → Type 0) (ks : List ℕ) → ((i : ℕ) → has_key i ks ≡ true → P i) → All P ks
  All-keys P [] f = tt
  All-keys P (k ∷ ks) f = (f k (rw (==_refl k) refl), All-keys P ks λ i h. f i (later i h))
    where
      later : (i : ℕ) → has_key i ks ≡ true → ((i == k) || has_key i ks) ≡ true
      later i h = elim (Bool-cases (i == k)) [ inl t ↦ rw t refl | inr f ↦ rw f h ]

  -- When `CodeGen` of the main function returns, the functions that its blocks refer to have been
  -- started; and every function that has been started is one of the module, has its code, and refers
  -- to functions that have been started.
  pub compile-IsGenerated :
      (main : Graph) (p : Progress)
      → compile fns main ≡ some p
      → RefersTo main p main.keys × All (IsGenerated p) p.started
  unfolding compile
  compile-IsGenerated main p h =
      let m : Makes (gen_by_id fns (length fns + 1)) 0 main _ p = subst (Yields _) h (
        gen_function_lem (gen_by_id fns (length fns + 1)) (gen_by_id_lem (length fns + 1)) 0 main
          (record { started = []; compiled = [] })) in
      (
        m.2,
        All-keys (IsGenerated p) p.started
            λ i s. elim (m.0.new_lem i s) [ inl none_yet ↦ absurd (cc) | inr d ↦ d ],
      )
