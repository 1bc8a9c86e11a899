-- ===== src/ModuleCreator/Generate/Sorted.antt =====
-- The blocks of every function that `generate` (src/GenModuleCreator.cpp) makes stand in the order of
-- their first instructions.
use camll_vm.Base.{
  ℕ, zero, suc, ◌<◌, ◌≡◌, refl, subst, Bool, true, false, none, some, List, [], ◌∷◌, length, All,
  Ascends, ltb, ltb→lt, ◌==◌, Bool-cases, inl, inr, Yields, Yields-bind, >>=-eq-some, some_inj, ◌-◌,
  arith,
}
use camll_vm.Instruction.{ZInstruction, block_start}
use camll_vm.ModuleCreator.Dead.{remove_dead_instructions}
use camll_vm.ModuleCreator.Functions.{Fn, split_functions}
use camll_vm.ModuleCreator.Blocks.{
  Graph, insert_key, block_keys, starts_block, new_graph, link_blocks, remove_all, remove_blocks,
  to_remove, remove_unused_blocks, generate_function,
}
use camll_vm.ModuleCreator.Blocks.Removal.{remove_keys}
use camll_vm.ModuleCreator.Blocks.Unused.{remove_blocks-keys}
use camll_vm.ModuleCreator.Blocks.Links.{link_blocks-Keeps}
use camll_vm.ModuleCreator.Generate.{Module, pick, end_index, generate_functions, generate}

All-insert_key : (P : ℕ → Type 0) (i : ℕ) (ks : List ℕ) → P i → All P ks → All P (insert_key i ks)
unfolding insert_key
All-insert_key P i [] h a = (h, tt)
All-insert_key P i (k ∷ ks) h a = elim (Bool-cases (ltb i k)) [
  | inl t ↦ rw (insert_key, t) (h, a)
  | inr f ↦ elim (Bool-cases (i == k)) [
    | inl t ↦ rw (insert_key, f, t) a
    | inr n ↦ rw (insert_key, f, n) (a.0, All-insert_key P i ks h a.1)
  ]
]

insert_key-Ascends : (i : ℕ) (ks : List ℕ) → Ascends ks → Ascends (insert_key i ks)
unfolding insert_key
insert_key-Ascends i [] a = (tt, tt)
insert_key-Ascends i (k ∷ ks) a = elim (Bool-cases (ltb i k)) [
  | inl t ↦ let lt = ltb→lt i k t in rw (insert_key, t) (((lt, below i k ks lt a.0), a))
  | inr f ↦ elim (Bool-cases (i == k)) [
    | inl t ↦ rw (insert_key, f, t) a
    | inr n ↦
        let above : k < i = ground arith in
        rw (insert_key, f, n)
          (All-insert_key (λ (j : ℕ). k < j) i ks above a.0, insert_key-Ascends i ks a.1)
  ]
]
  where
    below : (i k : ℕ) (ks : List ℕ) → i < k → All (λ (j : ℕ). k < j) ks → All (λ (j : ℕ). i < j) ks
    below i k [] lt a = tt
    below i k (j ∷ js) lt a = (omega (arith, a.0), below i k js lt a.1)

block_keys-Ascends : (insts : List ZInstruction) → Ascends (block_keys insts)
unfolding block_keys
block_keys-Ascends [] = tt
block_keys-Ascends (inst ∷ rest) = elim (Bool-cases (starts_block inst.annotation)) [
  | inl t ↦ rw t (insert_key-Ascends inst.idx (block_keys rest) (block_keys-Ascends rest))
  | inr f ↦ rw f (block_keys-Ascends rest)
]

All-remove_all : (P : ℕ → Type 0) (b : ℕ) (ks : List ℕ) → All P ks → All P (remove_all b ks)
unfolding remove_all
All-remove_all P b [] a = tt
All-remove_all P b (k ∷ ks) a = elim (Bool-cases (b == k)) [
  | inl t ↦ rw (remove_all, t) (All-remove_all P b ks a.1)
  | inr f ↦ rw (remove_all, f) (a.0, All-remove_all P b ks a.1)
]

remove_all-Ascends : (b : ℕ) (ks : List ℕ) → Ascends ks → Ascends (remove_all b ks)
unfolding remove_all
remove_all-Ascends b [] a = tt
remove_all-Ascends b (k ∷ ks) a = elim (Bool-cases (b == k)) [
  | inl t ↦ rw (remove_all, t) (remove_all-Ascends b ks a.1)
  | inr f ↦
      rw (remove_all, f) (All-remove_all (λ (j : ℕ). k < j) b ks a.0, remove_all-Ascends b ks a.1)
]

remove_keys-Ascends : (bs ks : List ℕ) → Ascends ks → Ascends (remove_keys bs ks)
remove_keys-Ascends [] ks a = a
remove_keys-Ascends (b ∷ bs) ks a =
    remove_keys-Ascends bs (remove_all b ks) (remove_all-Ascends b ks a)

abbrev IsSorted : Graph → Type 0
IsSorted g = Ascends g.keys

remove_unused_blocks-IsSorted :
    (fuel : ℕ) (g : Graph) → IsSorted g → Yields IsSorted (remove_unused_blocks fuel g)
unfolding remove_unused_blocks
remove_unused_blocks-IsSorted zero g a = tt
remove_unused_blocks-IsSorted (suc fuel) g a =
    let round = remove_blocks (to_remove g) false g in
    let sorted : IsSorted round.1 =
      rw (remove_blocks-keys (to_remove g) false g) (remove_keys-Ascends (to_remove g) g.keys a) in
    next round.0 round.1 sorted (remove_unused_blocks-IsSorted fuel round.1 sorted)
  where
    next :
        (again : Bool) (h : Graph)
        → IsSorted h
        → Yields IsSorted (remove_unused_blocks fuel h)
        → Yields IsSorted (elim again [ true ↦ remove_unused_blocks fuel h | false ↦ some h ])
    next true h s more = more
    next false h s more = s

generate_function-IsSorted : (insts : List ZInstruction) → Yields IsSorted (generate_function insts)
unfolding generate_function
generate_function-IsSorted [] = tt
generate_function-IsSorted (inst ∷ rest) =
    let insts = record inst { annotation = block_start } ∷ rest in
    Yields-bind (λ (g : Graph). (g.keys ≡ block_keys insts) × _) IsSorted
      (link_blocks none insts (new_graph insts)) _
      (link_blocks-Keeps (block_keys insts) none insts (new_graph insts)
        (refl, λ k n m. elim m [ ]))
      λ g h.
        remove_unused_blocks-IsSorted (suc (length g.keys)) g (rw h.0 (block_keys-Ascends insts))

abbrev AllSorted : List (ℕ × Graph) → Type 0
AllSorted fns = All (λ (f : ℕ × Graph). IsSorted f.1) fns

generate_functions-AllSorted : (fs : List Fn) → Yields AllSorted (generate_functions fs)
unfolding generate_functions
generate_functions-AllSorted [] = tt
generate_functions-AllSorted (f ∷ fs) =
    Yields-bind IsSorted AllSorted (generate_function f.insts) _
      (generate_function-IsSorted f.insts)
      λ g s.
        Yields-bind AllSorted AllSorted (generate_functions fs) _ (generate_functions-AllSorted fs)
          λ rest all. (s, all)

-- Whenever `generate` returns, whatever range of instructions it was given, the blocks of the main
-- function and of every other function stand in strictly ascending order.
pub generate-Ascends :
    (first last : ℕ) (insts : List ZInstruction) (m : Module)
    → generate first last insts ≡ some m
    → Ascends m.main.keys × All (λ (f : ℕ × Graph). Ascends f.1.keys) m.functions
unfolding generate
generate-Ascends first last insts m h =
    let (queue, picked, h₁) =
      >>=-eq-some (pick (end_index (length insts) last - first) first insts) _ h in
    let (s, split, h₂) = >>=-eq-some (split_functions (length queue) queue) _ h₁ in
    let (fns, made, h₃) = >>=-eq-some (generate_functions s.functions) _ h₂ in
    let (g, linked, h₄) = >>=-eq-some (generate_function (remove_dead_instructions s.main)) _ h₃ in
    let (main, trimmed, h₅) = >>=-eq-some (remove_unused_blocks (suc (length g.keys)) g) _ h₄ in
    let sorted : IsSorted g =
      subst (Yields IsSorted) linked
        (generate_function-IsSorted (remove_dead_instructions s.main)) in
    let main_lem : IsSorted main =
      subst (Yields IsSorted) trimmed
        (remove_unused_blocks-IsSorted (suc (length g.keys)) g sorted) in
    let fns_lem : AllSorted fns =
      subst (Yields AllSorted) made (generate_functions-AllSorted s.functions) in
    subst (λ (x : Module). IsSorted x.main × AllSorted x.functions) (some_inj h₅)
      (main_lem, fns_lem)
