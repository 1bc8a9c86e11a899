-- ===== src/Annotate/Targets.antt =====
-- What `annotateNodes` (src/Instructions.cpp) marks: the targets of an instruction.
use mathlib.Core.List.{Memᴰ}
use mathlib.Core.List.Memᴰ.{cases_cons}
use camll_vm.Base.{
  ℕ, ◌+◌, ◌≡◌, refl, sym, ◌∙◌, subst, ◌⊎◌, inl, inr, Bool, true, false, Option, some, List, [], ◌∷◌,
  ◌>>=◌, Yields, Yields-bind, Yields-mono, some_inj,
}
use camll_vm.Instruction.{
  ZInstruction, InstrAnnotation, function_start, block_start, arg, rounds, get_dest_idx, is_closure,
  is_closure_rec, is_switch, is_push_trap, is_jump_inst,
}
use camll_vm.Annotate.{mark, mark_all, first, when, annotate_one, annotate_from, annotate_nodes}
use camll_vm.Annotate.Marks.{
  starts_something, IsMarkedAt, KeepsMarks, with_equation, mark_lem, mark_all_lem,
}

-- The instructions that `inst` makes the first of a block or a function.
pub data RefersTo (inst : ZInstruction) : ℕ → Type 0 where
  by_closure : is_closure inst ≡ true → RefersTo inst (get_dest_idx inst)
  by_closure_rec :
      {i : ℕ} {fns : List ℕ}
      → is_closure_rec inst ≡ true
      → first (rounds (arg inst 0)) inst.closure_rec_fns ≡ some fns
      → Memᴰ i fns
      → RefersTo inst i
  by_switch : {i : ℕ} → is_switch inst ≡ true → Memᴰ i inst.switch_entries → RefersTo inst i
  by_push_trap : is_push_trap inst ≡ true → RefersTo inst (get_dest_idx inst)
  by_jump : is_jump_inst inst ≡ true → RefersTo inst (get_dest_idx inst)
  follows_jump : is_jump_inst inst ≡ true → RefersTo inst (inst.idx + 1)

-- One of the steps of the body: under its condition it marks some instructions.
abbrev Marks : (ℕ → Type 0) → List ZInstruction → List ZInstruction → Type 0
Marks P s t = ((i : ℕ) → P i → IsMarkedAt i t) × KeepsMarks s t

abbrev If : Bool → (ℕ → Type 0) → ℕ → Type 0
If b P i = (b ≡ true) × P i

when_lem :
    (b : Bool) (P : ℕ → Type 0) (f : List ZInstruction → Option (List ZInstruction))
    (s : List ZInstruction)
    → Yields (Marks P s) (f s)
    → Yields (Marks (If b P) s) (when b f s)
when_lem true P f s h =
    Yields-mono (Marks P s) (Marks (If true P) s) (f s) h (λ t k. (λ i c. k.0 i c.1, k.1))
when_lem false P f s h = (λ i c. cc c.0, λ j k. k)

-- Two steps in a row.
then_lem :
    (P Q : ℕ → Type 0) (m : Option (List ZInstruction))
    (f : List ZInstruction → Option (List ZInstruction)) (s : List ZInstruction)
    → Yields (Marks P s) m
    → ((t : List ZInstruction) → Yields (Marks Q t) (f t))
    → Yields (Marks (λ (i : ℕ). P i ⊎ Q i) s) (m >>= f)
then_lem P Q m f s h g = Yields-bind (Marks P s) (Marks (λ (i : ℕ). P i ⊎ Q i) s) m f h λ t k.
    Yields-mono (Marks Q t) (Marks (λ (i : ℕ). P i ⊎ Q i) s) (f t) (g t)
      (λ u l. (λ i c. elim c [ inl p ↦ l.1 i (k.0 i p) | inr q ↦ l.0 i q ], λ j q. l.1 j (k.1 j q)))

one_lem :
    (a : InstrAnnotation) (i : ℕ) (s : List ZInstruction)
    → starts_something a ≡ true
    → Yields (Marks (λ (j : ℕ). j ≡ i) s) (mark a i s)
one_lem a i s m =
    Yields-mono (λ (t : List ZInstruction). IsMarkedAt i t × KeepsMarks s t)
      (Marks (λ (j : ℕ). j ≡ i) s) (mark a i s) (mark_lem a i s m)
      (λ t k. (λ j e. subst (λ (n : ℕ). IsMarkedAt n t) (sym e) k.0, k.1))

-- The conditions of the five steps of the body.
abbrev ByClosureRec : ZInstruction → ℕ → Type 0
ByClosureRec inst i =
    (fns : List ℕ) × (first (rounds (arg inst 0)) inst.closure_rec_fns ≡ some fns) × Memᴰ i fns

closure_rec_lem :
    (inst : ZInstruction) (s : List ZInstruction)
    → Yields
        (Marks (ByClosureRec inst) s)
        (first (rounds (arg inst 0)) inst.closure_rec_fns >>= λ fns. mark_all function_start fns s)
closure_rec_lem inst s =
    let o = first (rounds (arg inst 0)) inst.closure_rec_fns in
    Yields-bind (λ (fns : List ℕ). o ≡ some fns) (Marks (ByClosureRec inst) s) o
      (λ fns. mark_all function_start fns s) (with_equation o)
      λ fns e.
        Yields-mono (Marks (λ (i : ℕ). Memᴰ i fns) s) (Marks (ByClosureRec inst) s)
          (mark_all function_start fns s) (mark_all_lem function_start fns s refl)
          λ t k. (λ i c. k.0 i (subst (Memᴰ i) (some_inj (sym c.1 ∙ e)) c.2), k.1)

jump_lem :
    (inst : ZInstruction) (s : List ZInstruction)
    → Yields
        (Marks (λ (i : ℕ). (i ≡ get_dest_idx inst) ⊎ (i ≡ inst.idx + 1)) s)
        (mark block_start (get_dest_idx inst) s >>= mark block_start (inst.idx + 1))
jump_lem inst s =
    then_lem (λ (i : ℕ). i ≡ get_dest_idx inst) (λ (i : ℕ). i ≡ inst.idx + 1)
      (mark block_start (get_dest_idx inst) s) (mark block_start (inst.idx + 1)) s
      (one_lem block_start (get_dest_idx inst) s refl)
      (λ t. one_lem block_start (inst.idx + 1) t refl)

abbrev Condition : ZInstruction → ℕ → Type 0
Condition inst i =
    (((If (is_closure inst) (λ j. j ≡ get_dest_idx inst) i
          ⊎ If (is_closure_rec inst) (ByClosureRec inst) i)
        ⊎ If (is_switch inst) (λ j. Memᴰ j inst.switch_entries) i)
      ⊎ If (is_push_trap inst) (λ j. j ≡ get_dest_idx inst) i)
    ⊎ If (is_jump_inst inst) (λ j. (j ≡ get_dest_idx inst) ⊎ (j ≡ inst.idx + 1)) i

RefersTo-Condition : (inst : ZInstruction) (i : ℕ) → RefersTo inst i → Condition inst i
RefersTo-Condition inst i (by_closure c) = inl (inl (inl (inl (c, refl))))
RefersTo-Condition inst i (by_closure_rec c e m) = inl (inl (inl (inr (c, (_, e, m)))))
RefersTo-Condition inst i (by_switch c m) = inl (inl (inr (c, m)))
RefersTo-Condition inst i (by_push_trap c) = inl (inr (c, refl))
RefersTo-Condition inst i (by_jump c) = inr (c, inl refl)
RefersTo-Condition inst i (follows_jump c) = inr (c, inr refl)

closure_step :
    (inst : ZInstruction) (s : List ZInstruction)
    → Yields
        (Marks (If (is_closure inst) (λ (j : ℕ). j ≡ get_dest_idx inst)) s)
        (when (is_closure inst) (mark function_start (get_dest_idx inst)) s)
closure_step inst s =
    when_lem (is_closure inst) (λ (j : ℕ). j ≡ get_dest_idx inst)
      (mark function_start (get_dest_idx inst)) s
      (one_lem function_start (get_dest_idx inst) s refl)

closure_rec_step :
    (inst : ZInstruction) (s : List ZInstruction)
    → Yields (Marks (If (is_closure_rec inst) (ByClosureRec inst)) s) (
        when
          (is_closure_rec inst)
          (λ s. first (rounds (arg inst 0)) inst.closure_rec_fns >>= λ fns.
            mark_all function_start fns s)
          s)
closure_rec_step inst s =
    when_lem (is_closure_rec inst) (ByClosureRec inst)
      (λ s.
        first (rounds (arg inst 0)) inst.closure_rec_fns >>= λ fns. mark_all function_start fns s)
      s (closure_rec_lem inst s)

switch_step :
    (inst : ZInstruction) (s : List ZInstruction)
    → Yields
        (Marks (If (is_switch inst) (λ (j : ℕ). Memᴰ j inst.switch_entries)) s)
        (when (is_switch inst) (mark_all block_start inst.switch_entries) s)
switch_step inst s =
    when_lem (is_switch inst) (λ (j : ℕ). Memᴰ j inst.switch_entries)
      (mark_all block_start inst.switch_entries) s
      (mark_all_lem block_start inst.switch_entries s refl)

push_trap_step :
    (inst : ZInstruction) (s : List ZInstruction)
    → Yields
        (Marks (If (is_push_trap inst) (λ (j : ℕ). j ≡ get_dest_idx inst)) s)
        (when (is_push_trap inst) (mark block_start (get_dest_idx inst)) s)
push_trap_step inst s =
    when_lem (is_push_trap inst) (λ (j : ℕ). j ≡ get_dest_idx inst)
      (mark block_start (get_dest_idx inst)) s (one_lem block_start (get_dest_idx inst) s refl)

jump_step :
    (inst : ZInstruction) (s : List ZInstruction)
    → Yields
        (Marks (If (is_jump_inst inst) (λ (j : ℕ). (j ≡ get_dest_idx inst) ⊎ (j ≡ inst.idx + 1))) s)
        (when
          (is_jump_inst inst)
          (λ s. mark block_start (get_dest_idx inst) s >>= mark block_start (inst.idx + 1))
          s)
jump_step inst s =
    when_lem (is_jump_inst inst) (λ (j : ℕ). (j ≡ get_dest_idx inst) ⊎ (j ≡ inst.idx + 1))
      (λ s. mark block_start (get_dest_idx inst) s >>= mark block_start (inst.idx + 1)) s
      (jump_lem inst s)

annotate_one_lem :
    (inst : ZInstruction) (s : List ZInstruction)
    → Yields (Marks (RefersTo inst) s) (annotate_one inst s)
unfolding annotate_one
annotate_one_lem inst s =
    Yields-mono (Marks (Condition inst) s) (Marks (RefersTo inst) s) (annotate_one inst s)
      (Yields-bind (Marks (If (is_closure inst) (λ (j : ℕ). j ≡ get_dest_idx inst)) s)
        (Marks (Condition inst) s)
        (when (is_closure inst) (mark function_start (get_dest_idx inst)) s) _ (closure_step inst s)
        λ s₁ k₁.
          Yields-bind (Marks (If (is_closure_rec inst) (ByClosureRec inst)) s₁)
            (Marks (Condition inst) s)
            (when (is_closure_rec inst)
              (λ s. first (rounds (arg inst 0)) inst.closure_rec_fns >>= λ fns.
                mark_all function_start fns s)
              s₁)
            _ (closure_rec_step inst s₁)
            λ s₂ k₂.
              Yields-bind (Marks (If (is_switch inst) (λ (j : ℕ). Memᴰ j inst.switch_entries)) s₂)
                (Marks (Condition inst) s)
                (when (is_switch inst) (mark_all block_start inst.switch_entries) s₂) _
                (switch_step inst s₂)
                λ s₃ k₃.
                  Yields-bind (Marks (If (is_push_trap inst) (λ (j : ℕ). j ≡ get_dest_idx inst)) s₃)
                    (Marks (Condition inst) s)
                    (when (is_push_trap inst) (mark block_start (get_dest_idx inst)) s₃) _
                    (push_trap_step inst s₃)
                    λ s₄ k₄.
                      Yields-mono
                        (Marks
                          (If (is_jump_inst inst)
                            (λ (j : ℕ). (j ≡ get_dest_idx inst) ⊎ (j ≡ inst.idx + 1)))
                          s₄)
                        (Marks (Condition inst) s)
                        (when (is_jump_inst inst)
                          (λ s.
                            mark block_start (get_dest_idx inst) s
                            >>= mark block_start (inst.idx + 1))
                          s₄)
                        (jump_step inst s₄)
                        λ t k₅. (
                          (λ i c. elim c [
                            | inr c₅ ↦ k₅.0 i c₅
                            | inl d ↦ k₅.1 i (elim d [
                              | inr c₄ ↦ k₄.0 i c₄
                              | inl d' ↦ k₄.1 i (elim d' [
                                | inr c₃ ↦ k₃.0 i c₃
                                | inl d'' ↦
                                    k₃.1 i (elim d'' [
                                      | inr c₂ ↦ k₂.0 i c₂
                                      | inl c₁ ↦ k₂.1 i (k₁.0 i c₁)
                                    ])
                              ])
                            ])
                          ]),
                          λ j m. k₅.1 j (k₄.1 j (k₃.1 j (k₂.1 j (k₁.1 j m)))),
                        ))
      (λ t k. (λ i r. k.0 i (RefersTo-Condition inst i r), k.1))

-- Every instruction of `xs` has what it refers to marked.
annotate_from_lem :
    (xs s : List ZInstruction)
    → Yields
        (Marks (λ (i : ℕ). (x : ZInstruction) × Memᴰ x xs × RefersTo x i) s)
        (annotate_from xs s)
unfolding annotate_from
annotate_from_lem [] s = (λ i c. elim c.1 [ ], λ j k. k)
annotate_from_lem (x ∷ xs) s =
    Yields-mono
      (Marks (λ (i : ℕ). RefersTo x i ⊎ ((y : ZInstruction) × Memᴰ y xs × RefersTo y i)) s)
      (Marks (λ (i : ℕ). (y : ZInstruction) × Memᴰ y (x ∷ xs) × RefersTo y i) s)
      (annotate_one x s >>= annotate_from xs)
      (then_lem (RefersTo x) (λ (i : ℕ). (y : ZInstruction) × Memᴰ y xs × RefersTo y i)
        (annotate_one x s) (annotate_from xs) s (annotate_one_lem x s) (annotate_from_lem xs))
      (λ t k. (
        λ i c. k.0 i (elim (cases_cons c.1) [
          | inl e ↦ inl (subst (λ (z : ZInstruction). RefersTo z i) e c.2)
          | inr r ↦ inr (c.0, r, c.2)
        ]),
        k.1,
      ))

-- When `annotateNodes` returns, the target of each jump, trap, closure, recursive closure and switch
-- entry, and the instruction behind each jump, begin a block or a function.
pub annotate_nodes-IsMarkedAt :
    (insts out : List ZInstruction) (x : ZInstruction) (i : ℕ)
    → annotate_nodes insts ≡ some out
    → Memᴰ x insts
    → RefersTo x i
    → IsMarkedAt i out
unfolding annotate_nodes
annotate_nodes-IsMarkedAt insts out x i e m r =
    (subst (Yields (Marks (λ (j : ℕ). (y : ZInstruction) × Memᴰ y insts × RefersTo y j) insts)) e
        (annotate_from_lem insts insts)).0
      i (x, m, r)
