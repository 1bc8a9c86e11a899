-- ===== src/ModuleCreator/Blocks/Links.antt =====
-- The graph that `generateFunction` (src/GenModuleCreator.cpp) builds: each edge is known at both
-- ends, and what removing the unused blocks leaves of it.
use mathlib.Core.List.{Memᴰ}
use mathlib.Core.List.Memᴰ.{cases_cons}
use camll_vm.Base.{
  ℕ, suc, ◌≤◌, ◌≡◌, refl, sym, ◌∙◌, subst, ◌⊎◌, inl, inr, Bool, true, false, ◌||◌, Option, none,
  some, List, [], ◌∷◌, ◌++◌, All, All-map, length, ◌==◌, ==_iff, ==_refl, Bool-cases, if◌then◌else◌,
  ltb, Yields, Yields-bind, ◌>>=◌, arith,
}
use camll_vm.Instruction.{
  ZInstruction, block_start, get_dest_idx, is_jump_inst, is_push_trap, is_switch, is_return,
  is_uncond_jump,
}
use camll_vm.ModuleCreator.Order.{IsIncreasing}
use camll_vm.ModuleCreator.Blocks.{
  Graph, at_key, has_key, insert_key, set_next, set_all_next, starts_block, block_keys, last_of,
  fall_through, enter_block, add_edges, link_blocks, new_graph, generate_function,
}
use camll_vm.ModuleCreator.Blocks.Unused.{HasNoOrphans, remove_unused_blocks-HasNoOrphans}
use camll_vm.ModuleCreator.Blocks.Reachable.{
  Reaches, start, step, remove_unused_blocks-keeps_reachable,
}

-- Every edge leads to a block on the map, which has its source among its predecessors.
abbrev pub IsLinked : Graph → Type 0
IsLinked g = (k n : ℕ) → Memᴰ n (g.next k) → Memᴰ k (g.prev n) × Memᴰ n g.keys

mem_of-has_key : (i : ℕ) (ks : List ℕ) → has_key i ks ≡ true → Memᴰ i ks
mem_of-has_key i [] h = cc
mem_of-has_key i (k ∷ ks) h = elim (Bool-cases (i == k)) [
  | inl e ↦ Memᴰ.head ((==_iff i k).0 e)
  | inr e ↦ Memᴰ.tail (mem_of-has_key i ks (rw e at h))
]

mem_of-append_last : (n x : ℕ) (xs : List ℕ) → Memᴰ n (xs ++ x ∷ []) → Memᴰ n xs ⊎ (n ≡ x)
mem_of-append_last n x [] m = elim (cases_cons m) [ inl e ↦ inr e | inr r ↦ elim r [ ] ]
mem_of-append_last n x (y ∷ xs) m = elim (cases_cons m) [
  | inl e ↦ inl (Memᴰ.head e)
  | inr r ↦ elim (mem_of-append_last n x xs r) [ inl l ↦ inl (Memᴰ.tail l) | inr e ↦ inr e ]
]

-- An old predecessor stays one.
mem-at_key :
    (prev : ℕ → List ℕ) (from to k n : ℕ)
    → Memᴰ k (prev n)
    → Memᴰ k (at_key prev to (from ∷ prev to) n)
mem-at_key prev from to k n m = elim (Bool-cases (to == n)) [
  | inl e ↦ rw e (Memᴰ.tail (subst (λ (i : ℕ). Memᴰ k (prev i)) (sym ((==_iff to n).0 e)) m))
  | inr e ↦ rw e m
]

new_edge :
    (prev : ℕ → List ℕ) (from to n : ℕ) → n ≡ to → Memᴰ from (at_key prev to (from ∷ prev to) n)
new_edge prev from to n q = elim (Bool-cases (to == n)) [
  | inl e ↦ rw e (Memᴰ.head refl)
  | inr e ↦ absurd (ground (arith, ==_refl to))
]

-- The edges after `setNext` are the old ones and the new one.
edge_cases :
    (next : ℕ → List ℕ) (from to k n : ℕ)
    → Memᴰ n (at_key next from (next from ++ to ∷ []) k)
    → Memᴰ n (next k) ⊎ ((from ≡ k) × (n ≡ to))
edge_cases next from to k n m = elim (Bool-cases (from == k)) [
  | inl e ↦
      let same = (==_iff from k).0 e in
      elim (mem_of-append_last n to (next from) (rw e at m)) [
        | inl l ↦ inl (subst (λ (i : ℕ). Memᴰ n (next i)) same l)
        | inr q ↦ inr (same, q)
      ]
  | inr e ↦ inl (rw e at m)
]

-- Steps that keep the keys and the links.
abbrev Keeps : List ℕ → Graph → Type 0
Keeps ks g = (g.keys ≡ ks) × IsLinked g

set_next-Keeps :
    (ks : List ℕ) (from to : ℕ) (b : Bool) (g : Graph)
    → Keeps ks g
    → Yields (Keeps ks) (set_next from to b g)
unfolding set_next
set_next-Keeps ks from to b g (same, linked) = elim (Bool-cases (has_key to g.keys)) [
  | inl h ↦ rw h (
    same,
    λ k n m. elim (edge_cases g.next from to k n m) [
      | inl l ↦ let r = linked k n l in (mem-at_key g.prev from to k n r.0, r.1)
      | inr (e, q) ↦ (
        subst (λ (i : ℕ). Memᴰ i (at_key g.prev to (from ∷ g.prev to) n)) e
            (new_edge g.prev from to n q),
        subst (λ (i : ℕ). Memᴰ i g.keys) (sym q) (mem_of-has_key to g.keys h),
      )
    ],
  )
  | inr h ↦ rw h tt
]

set_all_next-Keeps :
    (ks : List ℕ) (from : ℕ) (tos : List ℕ) (g : Graph)
    → Keeps ks g
    → Yields (Keeps ks) (set_all_next from tos g)
unfolding set_all_next
set_all_next-Keeps ks from [] g h = h
set_all_next-Keeps ks from (to ∷ tos) g h =
    Yields-bind (Keeps ks) (Keeps ks) (set_next from to false g) (set_all_next from tos)
      (set_next-Keeps ks from to false g h) (λ g' h'. set_all_next-Keeps ks from tos g' h')

anything : (o : Option ZInstruction) → Yields (λ (i : ZInstruction). Unit {0}) o
anything none = tt
anything (some i) = tt

fall_through-Keeps :
    (ks : List ℕ) (current : Option ℕ) (to : ℕ) (g : Graph)
    → Keeps ks g
    → Yields (Keeps ks) (fall_through current to g)
unfolding fall_through
fall_through-Keeps ks none to g h = h
fall_through-Keeps ks (some c) to g h =
    Yields-bind (λ (i : ZInstruction). Unit {0}) (Keeps ks) (last_of (g.insts c)) _
      (anything (last_of (g.insts c)))
      λ last u. elim (Bool-cases (is_uncond_jump last || is_return last || is_switch last)) [
        | inl e ↦ rw e h
        | inr e ↦ rw e (set_next-Keeps ks c to false g h)
      ]

enter_block-Keeps :
    (ks : List ℕ) (current : Option ℕ) (inst : ZInstruction) (g : Graph)
    → Keeps ks g
    → Yields (λ (s : ℕ × Graph). Keeps ks s.1) (enter_block current inst g)
unfolding enter_block
enter_block-Keeps ks current inst g h = elim (Bool-cases (starts_block inst.annotation)) [
  | inl e ↦
      rw (enter_block, e)
        (Yields-bind (Keeps ks) (λ (s : ℕ × Graph). Keeps ks s.1) (fall_through current inst.idx g)
          _ (fall_through-Keeps ks current inst.idx g h) (λ g' h'. h'))
  | inr e ↦ rw (enter_block, e) (in_block current)
]
  where
    in_block : (c : Option ℕ) → Yields (λ (s : ℕ × Graph). Keeps ks s.1) (c >>= λ i. some (i, g))
    in_block none = tt
    in_block (some c) = h

add_edges-Keeps :
    (ks : List ℕ) (c : ℕ) (inst : ZInstruction) (g : Graph)
    → Keeps ks g
    → Yields (Keeps ks) (add_edges c inst g)
unfolding add_edges
add_edges-Keeps ks c inst g h =
    Yields-bind (Keeps ks) (Keeps ks)
      (if is_jump_inst inst || is_push_trap inst
        then set_next c (get_dest_idx inst) true g
        else some g)
      _ jump
      (λ g' h'. elim (Bool-cases (is_switch inst)) [
        | inl e ↦ rw e (set_all_next-Keeps ks c inst.switch_entries g' h')
        | inr e ↦ rw e h'
      ])
  where
    jump : Yields (Keeps ks) (
        if is_jump_inst inst || is_push_trap inst
        then set_next c (get_dest_idx inst) true g
        else some g)
    jump = elim (Bool-cases (is_jump_inst inst || is_push_trap inst)) [
      | inl e ↦ rw e (set_next-Keeps ks c (get_dest_idx inst) true g h)
      | inr e ↦ rw e h
    ]

pub link_blocks-Keeps :
    (ks : List ℕ) (current : Option ℕ) (insts : List ZInstruction) (g : Graph)
    → Keeps ks g
    → Yields (Keeps ks) (link_blocks current insts g)
unfolding link_blocks
link_blocks-Keeps ks current [] g h = h
link_blocks-Keeps ks current (inst ∷ rest) g h =
    Yields-bind (λ (s : ℕ × Graph). Keeps ks s.1) (Keeps ks) (enter_block current inst g) _
      (enter_block-Keeps ks current inst g h)
      λ s h₁.
        let g₂ = record s.1 { insts = at_key s.1.insts s.0 (s.1.insts s.0 ++ inst ∷ []) } in
        Yields-bind (Keeps ks) (Keeps ks) (add_edges s.0 inst g₂) _
          (add_edges-Keeps ks s.0 inst g₂ h₁) (λ g₃ h₃. link_blocks-Keeps ks (some s.0) rest g₃ h₃)

insert_key_front : (i : ℕ) (ks : List ℕ) → All (λ (j : ℕ). suc i ≤ j) ks → insert_key i ks ≡ i ∷ ks
unfolding insert_key
insert_key_front i [] h = refl
insert_key_front i (k ∷ ks) h =
    let least : ltb i k ≡ true = ground (arith, h.0) in rw (insert_key, least)

-- The keys of instructions in order are no smaller than the first index.
block_keys-above :
    (k : ℕ) (xs : List ZInstruction) → IsIncreasing k xs → All (λ (i : ℕ). k ≤ i) (block_keys xs)
unfolding block_keys
block_keys-above k [] h = tt
block_keys-above k (x ∷ xs) h =
    let above = block_keys-above (suc x.idx) xs h.1 in
    let later =
      All-map (λ (i : ℕ). suc x.idx ≤ i) (λ (i : ℕ). k ≤ i) (λ i p. omega (arith, h.0))
        (block_keys xs) above in
    elim (Bool-cases (starts_block x.annotation)) [
      | inl e ↦ rw (block_keys, e, insert_key_front x.idx (block_keys xs) above) (h.0, later)
      | inr e ↦ rw (block_keys, e) later
    ]

above-not_mem : (i : ℕ) (ks : List ℕ) → All (λ (j : ℕ). suc i ≤ j) ks → ¬ Memᴰ i ks
above-not_mem i [] h m = elim m [ ]
above-not_mem i (k ∷ ks) h m = elim (cases_cons m) [
  | inl e ↦ absurd (omega (arith, h.0))
  | inr r ↦ above-not_mem i ks h.1 r
]

reached-mem :
    (g : Graph) (first k : ℕ)
    → IsLinked g
    → Memᴰ first g.keys
    → Reaches g.next first k
    → Memᴰ k g.keys
reached-mem g first k linked m start = m
reached-mem g first k linked m (step {k = j} r e) = (linked j k e).1

-- The first instruction starts a block, whatever its mark was.
abbrev pub as_function : ZInstruction → List ZInstruction → List ZInstruction
as_function inst rest = record inst { annotation = block_start } ∷ rest

as_function-keys :
    (inst : ZInstruction) (rest : List ZInstruction)
    → IsIncreasing (suc inst.idx) rest
    → block_keys (as_function inst rest) ≡ inst.idx ∷ block_keys rest
unfolding block_keys
as_function-keys inst rest h =
    insert_key_front inst.idx (block_keys rest) (block_keys-above (suc inst.idx) rest h)

-- When the blocks of a function in index order can be linked, `generateFunction` returns. The
-- blocks that it leaves are the first, and others that each have a predecessor; every block that
-- the first one leads to along the edges is among them.
pub generate_function-keeps_reachable :
    (inst : ZInstruction) (rest : List ZInstruction) (g : Graph)
    → IsIncreasing (suc inst.idx) rest
    → link_blocks none (as_function inst rest) (new_graph (as_function inst rest)) ≡ some g
    → (h : Graph) × (generate_function (inst ∷ rest) ≡ some h)
      × HasNoOrphans inst.idx h
      × ((k : ℕ) → Reaches g.next inst.idx k → Memᴰ k h.keys)
unfolding generate_function
generate_function-keeps_reachable inst rest g inc e =
    let ks = block_keys (as_function inst rest) in
    let linked : Keeps ks g = subst (Yields (Keeps ks)) e (
      link_blocks-Keeps ks none (as_function inst rest) (new_graph (as_function inst rest))
        (refl, λ k n m. elim m [ ])) in
    let keys : g.keys ≡ inst.idx ∷ block_keys rest = linked.0 ∙ as_function-keys inst rest inc in
    let apart =
      above-not_mem inst.idx (block_keys rest) (block_keys-above (suc inst.idx) rest inc) in
    let (h, r, ok) =
      remove_unused_blocks-HasNoOrphans (suc (length g.keys)) g inst.idx (block_keys rest) keys
        apart (omega arith) in
    let first : Memᴰ inst.idx g.keys = rw keys (Memᴰ.head refl) in
    (
      h,
      rw e r,
      ok,
      λ k reach.
          remove_unused_blocks-keeps_reachable (suc (length g.keys)) g h inst.idx (block_keys rest)
            k keys apart (λ j n q m. (linked.1 j n m).0) r reach
            (reached-mem g inst.idx k linked.1 first reach),
    )
