-- ===== src/ModuleCreator/Blocks.antt =====
-- `generateFunction` (src/GenModuleCreator.cpp), `setNext` (src/GenBlock.cpp) and
-- `removeUnusedBlocks` (src/GenFunction.cpp). A block is named by its identifier; a block that the
-- map lacks is a null pointer, and its use a fault.
pub mod Removal
pub mod Unused
pub mod Reachable
pub mod Links
use camll_vm.Base.{
  ℕ, zero, suc, ◌+◌, Bool, true, false, ◌&&◌, ◌||◌, not, Option, none, some, List, [], ◌∷◌, ◌++◌,
  length, ltb, ◌==◌, if◌then◌else◌, ◌>>=◌,
}
use camll_vm.Instruction.{
  ZInstruction, InstrAnnotation, block_start, get_dest_idx, is_jump_inst, is_push_trap, is_switch,
  is_return, is_uncond_jump,
}

-- `keys` are those of the map `Blocks`, in order; the other fields hold what each block has, also
-- once it is off the map.
pub record Graph : Type 0 where
  pub keys : List ℕ
  pub prev : ℕ → List ℕ
  pub next : ℕ → List ℕ
  pub br_block : ℕ → Option ℕ
  pub no_br_block : ℕ → Option ℕ
  pub insts : ℕ → List ZInstruction

abbrev pub at_key {ℓ} : {A : Type ℓ} → (ℕ → A) → ℕ → A → ℕ → A
at_key f i v k = if i == k then v else f k

abbrev pub has_key : ℕ → List ℕ → Bool
has_key i [] = false
has_key i (k ∷ ks) = i == k || has_key i ks

-- `std::map::operator[]` for a new block.
unfoldable pub insert_key : ℕ → List ℕ → List ℕ
insert_key i [] = i ∷ []
insert_key i (k ∷ ks) =
    let later = insert_key i ks in
    if ltb i k then i ∷ k ∷ ks else if i == k then k ∷ ks else k ∷ later

-- `setNext`.
unfoldable pub set_next : ℕ → ℕ → Bool → Graph → Option Graph
set_next from to is_br g =
    if has_key to g.keys
    then some (record g {
      next = at_key g.next from (g.next from ++ to ∷ []);
      prev = at_key g.prev to (from ∷ g.prev to);
      br_block = if is_br then at_key g.br_block from (some to) else g.br_block;
      no_br_block = if is_br then g.no_br_block else at_key g.no_br_block from (some to);
    })
    else none

unfoldable pub set_all_next : ℕ → List ℕ → Graph → Option Graph
set_all_next from [] g = some g
set_all_next from (to ∷ tos) g = set_next from to false g >>= set_all_next from tos

abbrev pub starts_block : InstrAnnotation → Bool
starts_block block_start = true
starts_block _ = false

-- A block for every instruction that starts one.
unfoldable pub block_keys : List ZInstruction → List ℕ
block_keys [] = []
block_keys (inst ∷ rest) =
    let later = block_keys rest in
    if starts_block inst.annotation then insert_key inst.idx later else later

abbrev pub last_of : List ZInstruction → Option ZInstruction
last_of [] = none
last_of (x ∷ []) = some x
last_of (x ∷ y ∷ ys) = last_of (y ∷ ys)

-- The edge to the block that follows, unless the last instruction goes elsewhere.
unfoldable pub fall_through : Option ℕ → ℕ → Graph → Option Graph
fall_through none to g = some g
fall_through (some c) to g = do
  last ← last_of (g.insts c)
  if is_uncond_jump last || is_return last || is_switch last then some g else set_next c to false g

-- The first `if` of the loop: `CBlock` and the graph when `inst` is put into a block.
unfoldable pub enter_block : Option ℕ → ZInstruction → Graph → Option (ℕ × Graph)
enter_block current inst g =
    if starts_block inst.annotation
    then (fall_through current inst.idx g >>= λ g'. some (inst.idx, g'))
    else (current >>= λ c. some (c, g))

-- The edges of an instruction.
unfoldable pub add_edges : ℕ → ZInstruction → Graph → Option Graph
add_edges c inst g = do
  g' ←
      (if is_jump_inst inst || is_push_trap inst
        then set_next c (get_dest_idx inst) true g
        else some g)
  if is_switch inst then set_all_next c inst.switch_entries g' else some g'

-- The loop over the instructions.
unfoldable pub link_blocks : Option ℕ → List ZInstruction → Graph → Option Graph
link_blocks current [] g = some g
link_blocks current (inst ∷ rest) g = do
  (c, g₁) ← enter_block current inst g
  let g₂ = record g₁ { insts = at_key g₁.insts c (g₁.insts c ++ inst ∷ []) }
  g₃ ← add_edges c inst g₂
  link_blocks (some c) rest g₃

abbrev pub is_empty : List ℕ → Bool
is_empty [] = true
is_empty (x ∷ xs) = false

-- `std::list::remove`.
unfoldable pub remove_all : ℕ → List ℕ → List ℕ
remove_all b [] = []
remove_all b (x ∷ xs) = let rest = remove_all b xs in if b == x then rest else x ∷ rest

-- The loop over `NextBlocks` of a block to remove, with `restart`.
unfoldable pub drop_edges : ℕ → List ℕ → Bool → Graph → Bool × Graph
drop_edges b [] restart g = (restart, g)
drop_edges b (n ∷ ns) restart g =
    let p = remove_all b (g.prev n) in
    drop_edges b ns (restart || is_empty p) (record g { prev = at_key g.prev n p })

-- The loop over `ToRemoveBlocks`.
unfoldable pub remove_blocks : List ℕ → Bool → Graph → Bool × Graph
remove_blocks [] restart g = (restart, g)
remove_blocks (b ∷ bs) restart g =
    let s = drop_edges b (g.next b) restart g in
    remove_blocks bs s.0 (record s.1 { keys = remove_all b s.1.keys })

-- The blocks without predecessors, the last first, in front of `found`.
unfoldable pub orphans : (ℕ → List ℕ) → List ℕ → List ℕ → List ℕ
orphans prev [] found = found
orphans prev (k ∷ ks) found = orphans prev ks (if is_empty (prev k) then k ∷ found else found)

-- `ToRemoveBlocks`: the first block stays.
unfoldable pub to_remove : Graph → List ℕ
to_remove g = elim g.keys [ [] ↦ [] | first ∷ rest ↦ orphans g.prev rest [] ]

-- `removeUnusedBlocks`, on fuel.
unfoldable pub remove_unused_blocks : ℕ → Graph → Option Graph
remove_unused_blocks zero g = none
remove_unused_blocks (suc fuel) g =
    let s = remove_blocks (to_remove g) false g in
    elim s.0 [ true ↦ remove_unused_blocks fuel s.1 | false ↦ some s.1 ]

abbrev pub new_graph : List ZInstruction → Graph
new_graph insts = record {
  keys = block_keys insts;
  prev = λ i. [];
  next = λ i. [];
  br_block = λ i. none;
  no_br_block = λ i. none;
  insts = λ i. [];
}

-- `generateFunction`; `at(0)` of an empty queue throws.
unfoldable pub generate_function : List ZInstruction → Option Graph
generate_function [] = none
generate_function (inst ∷ rest) = do
  let insts = record inst { annotation = block_start } ∷ rest
  g ← link_blocks none insts (new_graph insts)
  remove_unused_blocks (suc (length g.keys)) g
