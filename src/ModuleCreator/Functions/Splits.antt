-- ===== src/ModuleCreator/Functions/Splits.antt =====
-- Where the cutting loop of `generate` (src/GenModuleCreator.cpp) puts each instruction.
use mathlib.Core.List.{Memᴰ}
use mathlib.Core.List.Memᴰ.{cases_cons}
use camll_vm.Base.{
  ℕ, zero, suc, ◌≡◌, refl, sym, ap, ◌∙◌, subst, ◌⊎◌, inl, inr, true, false, Option, none, some,
  List, [], ◌∷◌, ◌++◌, Bool-cases, ◌>>=◌, >>=-eq-some, some_inj, ◌≤◌, ◌<◌, length, length-append,
  Option-cases, arith,
}
use camll_vm.Instruction.{ZInstruction, is_restart_op}
use camll_vm.ModuleCreator.Functions.{
  Fn, init_function, starts_function, Split, add_main, split_functions,
}
use camll_vm.ModuleCreator.Functions.Cuts.{init_function-IsFunctionCut}

mem_of-append :
    {x : ZInstruction} (xs ys : List ZInstruction) → Memᴰ x (xs ++ ys) → Memᴰ x xs ⊎ Memᴰ x ys
mem_of-append [] ys m = inr m
mem_of-append (z ∷ xs) ys m = elim (cases_cons m) [
  | inl e ↦ inl (Memᴰ.head e)
  | inr r ↦ elim (mem_of-append xs ys r) [ inl l ↦ inl (Memᴰ.tail l) | inr q ↦ inr q ]
]

-- The instruction is in a function or in the main block.
abbrev pub IsPlaced : ZInstruction → Split → Type 0
IsPlaced x s = Memᴰ x s.main ⊎ ((f : Fn) × Memᴰ f s.functions × Memᴰ x f.insts)

IsPlaced-later :
    (x : ZInstruction) (f : Fn) (s : Split)
    → IsPlaced x s
    → IsPlaced x (record s { functions = f ∷ s.functions })
IsPlaced-later x f s (inl m) = inl m
IsPlaced-later x f s (inr (g, m, n)) = inr (g, Memᴰ.tail m, n)

IsPlaced-main : (x inst : ZInstruction) (s : Split) → IsPlaced x s → IsPlaced x (add_main inst s)
IsPlaced-main x inst s p = elim (Bool-cases (is_restart_op inst.op_num)) [
  | inl e ↦ rw e p
  | inr e ↦ rw e (elim p [ inl m ↦ inl (Memᴰ.tail m) | inr q ↦ inr q ])
]

IsPlaced-here :
    (x inst : ZInstruction) (s : Split)
    → x ≡ inst
    → is_restart_op x.op_num ≡ false
    → IsPlaced x (add_main inst s)
IsPlaced-here x inst s e r =
    let kept : is_restart_op inst.op_num ≡ false = rw e at r in rw kept (inl (Memᴰ.head e))

function_round :
    (fuel : ℕ) (inst : ZInstruction) (rest : List ZInstruction)
    → starts_function inst.annotation ≡ true
    → split_functions (suc fuel) (inst ∷ rest) ≡ (
        init_function (inst ∷ rest) >>= λ c.
        split_functions fuel c.1 >>= λ s. some (record s { functions = c.0 ∷ s.functions }))
unfolding split_functions
function_round fuel inst rest e = rw (split_functions, e)

main_round :
    (fuel : ℕ) (inst : ZInstruction) (rest : List ZInstruction)
    → starts_function inst.annotation ≡ false
    → split_functions (suc fuel) (inst ∷ rest)
      ≡ (split_functions fuel rest >>= λ s. some (add_main inst s))
unfolding split_functions
main_round fuel inst rest e = rw (split_functions, e)

-- When the cutting loop returns, every instruction but a `RESTART` is in one of the functions or in
-- the main block.
pub split_functions-IsPlaced :
    (fuel : ℕ) (insts : List ZInstruction) (s : Split) (x : ZInstruction)
    → split_functions fuel insts ≡ some s
    → Memᴰ x insts
    → is_restart_op x.op_num ≡ false
    → IsPlaced x s
unfolding split_functions
split_functions-IsPlaced fuel [] s x e m r = elim m [ ]
split_functions-IsPlaced zero (inst ∷ rest) s x e m r = cc
split_functions-IsPlaced (suc fuel) (inst ∷ rest) s x e m r =
    elim (Bool-cases (starts_function inst.annotation)) [
      | inl b ↦
          let (c, i, e₁) =
            >>=-eq-some (init_function (inst ∷ rest)) _
              (sym (function_round fuel inst rest b) ∙ e) in
          let (s', t, e₂) = >>=-eq-some (split_functions fuel c.1) _ e₁ in
          let cut = init_function-IsFunctionCut (inst ∷ rest) c.0 c.1 i in
          let there : Memᴰ x (c.0.insts ++ c.1) = rw (cut.whole) m in
          subst (IsPlaced x) (some_inj e₂) (elim (mem_of-append c.0.insts c.1 there) [
            | inl l ↦ inr (c.0, Memᴰ.head refl, l)
            | inr l ↦ IsPlaced-later x c.0 s' (split_functions-IsPlaced fuel c.1 s' x t l r)
          ])
      | inr b ↦
          let (s', t, e₂) =
            >>=-eq-some (split_functions fuel rest) _ (sym (main_round fuel inst rest b) ∙ e) in
          subst (IsPlaced x) (some_inj e₂) (elim (cases_cons m) [
            | inl q ↦ IsPlaced-here x inst s' q r
            | inr l ↦ IsPlaced-main x inst s' (split_functions-IsPlaced fuel rest s' x t l r)
          ])
    ]

cut_shortens :
    (insts : List ZInstruction) (c : Fn × List ZInstruction)
    → init_function insts ≡ some c
    → length c.1 < length insts
cut_shortens insts c i =
    let cut = init_function-IsFunctionCut insts c.0 c.1 i in
    let whole = ap length cut.whole in
    let ends = ap length cut.ends in
    omega (arith, whole, ends, length-append c.0.insts c.1, length-append cut.front (cut.last ∷ []))

-- The runs of the cutting loop: rounds on a queue that is not empty, up to the empty queue or a fault
-- of `initFunction`, and what they yield.
pub data Ends : List ZInstruction → Option Split → Type 0 where
  stops : Ends [] (some (record { functions = []; main = [] }))
  faults :
      (inst : ZInstruction) (rest : List ZInstruction)
      → starts_function inst.annotation ≡ true
      → init_function (inst ∷ rest) ≡ none
      → Ends (inst ∷ rest) none
  cuts :
      (inst : ZInstruction) (rest : List ZInstruction) (c : Fn × List ZInstruction)
      (o : Option Split)
      → starts_function inst.annotation ≡ true
      → init_function (inst ∷ rest) ≡ some c
      → Ends c.1 o
      → Ends (inst ∷ rest) (o >>= λ s. some (record s { functions = c.0 ∷ s.functions }))
  keeps :
      (inst : ZInstruction) (rest : List ZInstruction) (o : Option Split)
      → starts_function inst.annotation ≡ false
      → Ends rest o
      → Ends (inst ∷ rest) (o >>= λ s. some (add_main inst s))

-- With fuel for as many rounds as there are instructions, the cutting loop ends: it has a run of
-- finitely many rounds, up to the empty queue or to a fault of `initFunction`, and the result is what
-- the rounds yield.
pub split_functions-Ends :
    (fuel : ℕ) (insts : List ZInstruction)
    → length insts ≤ fuel
    → Ends insts (split_functions fuel insts)
unfolding split_functions
split_functions-Ends fuel [] h = Ends.stops
split_functions-Ends zero (inst ∷ rest) h = absurd (omega arith)
split_functions-Ends (suc fuel) (inst ∷ rest) h =
    elim (Bool-cases (starts_function inst.annotation)) [
      | inl b ↦ elim (Option-cases (init_function (inst ∷ rest))) [
        | inl n ↦
            subst (Ends (inst ∷ rest)) (sym (function_round fuel inst rest b ∙ rw n refl))
              (Ends.faults inst rest b n)
        | inr (c, i) ↦
            let shorter = cut_shortens (inst ∷ rest) c i in
            subst (Ends (inst ∷ rest)) (sym (function_round fuel inst rest b ∙ rw i refl)) (
              Ends.cuts inst rest c (split_functions fuel c.1) b i
                (split_functions-Ends fuel c.1 (omega arith)))
      ]
      | inr b ↦ subst (Ends (inst ∷ rest)) (sym (main_round fuel inst rest b)) (
          Ends.keeps inst rest (split_functions fuel rest) b
            (split_functions-Ends fuel rest (omega arith)))
    ]
