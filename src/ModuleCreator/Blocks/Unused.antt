-- ===== src/ModuleCreator/Blocks/Unused.antt =====
-- `removeUnusedBlocks` (src/GenFunction.cpp) ends, and leaves no block without predecessors but the
-- first.
use mathlib.Core.List.{Memᴰ}
use mathlib.Core.List.Memᴰ.{cases_cons}
use camll_vm.Base.{
  ℕ, zero, suc, ◌<◌, ◌≡◌, refl, ap, ◌∙◌, subst, ◌≢◌, inl, inr, Bool, true, false, ◌||◌, some, List,
  [], ◌∷◌, length, ◌==◌, Bool-cases, arith,
}
use camll_vm.ModuleCreator.Blocks.{
  Graph, at_key, is_empty, remove_all, drop_edges, remove_blocks, orphans, to_remove,
  remove_unused_blocks,
}
use camll_vm.ModuleCreator.Blocks.Removal.{
  remove_keys, length-remove_all_mem, mem_of-remove_keys, remove_keys-first, length-remove_keys,
  orphans_only, orphans_all,
}

pub drop_edges-keys :
    (b : ℕ) (ns : List ℕ) (r : Bool) (g : Graph) → (drop_edges b ns r g).1.keys ≡ g.keys
unfolding drop_edges
drop_edges-keys b [] r g = refl
drop_edges-keys b (n ∷ ns) r g =
    let p = remove_all b (g.prev n) in
    drop_edges-keys b ns (r || is_empty p) (record g { prev = at_key g.prev n p })

pub remove_blocks-keys :
    (bs : List ℕ) (r : Bool) (g : Graph) → (remove_blocks bs r g).1.keys ≡ remove_keys bs g.keys
unfolding remove_blocks
remove_blocks-keys [] r g = refl
remove_blocks-keys (b ∷ bs) r g =
    let s = drop_edges b (g.next b) r g in
    remove_blocks-keys bs s.0 (record s.1 { keys = remove_all b s.1.keys })
    ∙ ap (λ (ks : List ℕ). remove_keys bs (remove_all b ks)) (drop_edges-keys b (g.next b) r g)

-- Every block that has predecessors in `g` has some in `h`.
abbrev IsCalm : Graph → Graph → Type 0
IsCalm g h = (k : ℕ) → is_empty (g.prev k) ≡ false → is_empty (h.prev k) ≡ false

calm_update :
    (f : ℕ → List ℕ) (n k : ℕ) (p : List ℕ)
    → is_empty p ≡ false
    → is_empty (f k) ≡ false
    → is_empty (at_key f n p k) ≡ false
calm_update f n k p h g = elim (Bool-cases (n == k)) [ inl e ↦ rw e h | inr e ↦ rw e g ]

-- While `restart` stays unset, no block has lost its last predecessor.
drop_edges-IsCalm :
    (b : ℕ) (ns : List ℕ) (r : Bool) (g : Graph)
    → (drop_edges b ns r g).0 ≡ false
    → (r ≡ false) × IsCalm g (drop_edges b ns r g).1
unfolding drop_edges
drop_edges-IsCalm b [] r g h = (h, λ k e. e)
drop_edges-IsCalm b (n ∷ ns) r g h =
    let p = remove_all b (g.prev n) in
    let later =
      drop_edges-IsCalm b ns (r || is_empty p) (record g { prev = at_key g.prev n p }) h in
    let full : is_empty p ≡ false = ground (arith, later.0) in
    (ground (arith, later.0), λ k e. later.1 k (calm_update g.prev n k p full e))

remove_blocks-IsCalm :
    (bs : List ℕ) (r : Bool) (g : Graph)
    → (remove_blocks bs r g).0 ≡ false
    → (r ≡ false) × IsCalm g (remove_blocks bs r g).1
unfolding remove_blocks
remove_blocks-IsCalm [] r g h = (h, λ k e. e)
remove_blocks-IsCalm (b ∷ bs) r g h =
    let s = drop_edges b (g.next b) r g in
    let later = remove_blocks-IsCalm bs s.0 (record s.1 { keys = remove_all b s.1.keys }) h in
    let now = drop_edges-IsCalm b (g.next b) r g later.0 in (now.0, λ k e. later.1 k (now.1 k e))

-- One round from the keys `first ∷ rest`.
module _ (g : Graph) (first : ℕ) (rest : List ℕ) (keys : g.keys ≡ first ∷ rest)
    (apart : ¬ Memᴰ first rest) where
  unfoldable pub removed : List ℕ
  removed = orphans g.prev rest []

  unfoldable pub round : Bool × Graph
  unfolding removed
  round = remove_blocks removed false g

  pub of_removed : (k : ℕ) → Memᴰ k removed → Memᴰ k rest × (is_empty (g.prev k) ≡ true)
  unfolding removed
  of_removed k m = elim (orphans_only g.prev k rest [] m) [ inl r ↦ r | inr n ↦ elim n [ ] ]

  pub round_keys : round.1.keys ≡ first ∷ remove_keys removed rest
  unfolding round
  round_keys =
      remove_blocks-keys removed false g
      ∙ ap (remove_keys removed) keys
      ∙ remove_keys-first first removed rest (λ m. apart (of_removed first m).0)

  pub round_apart : ¬ Memᴰ first (remove_keys removed rest)
  round_apart m = apart (mem_of-remove_keys first removed rest m).0

  to_remove_lem : to_remove g ≡ removed
  unfolding to_remove removed
  to_remove_lem = rw keys

  shrinks :
      (bs : List ℕ)
      → ((k : ℕ) → Memᴰ k bs → Memᴰ k rest)
      → (remove_blocks bs false g).0 ≡ true
      → length (remove_keys bs rest) < length rest
  unfolding remove_blocks
  shrinks [] sub h = cc
  shrinks (b ∷ bs) sub h = omega (
    arith,
    length-remove_keys bs (remove_all b rest),
    length-remove_all_mem b rest (sub b (Memᴰ.head refl)),
  )

  round_shrinks : round.0 ≡ true → length round.1.keys < length g.keys
  unfolding round
  round_shrinks h =
      rw (round_keys, keys) (omega (arith, shrinks removed (λ k m. (of_removed k m).0) h))

  repeats_round :
      (fuel : ℕ)
      → (remove_blocks (to_remove g) false g).0 ≡ true
      → remove_unused_blocks (suc fuel) g
        ≡ remove_unused_blocks fuel (remove_blocks (to_remove g) false g).1
  unfolding remove_unused_blocks
  repeats_round fuel h = rw (remove_unused_blocks, h)

  last_round :
      (fuel : ℕ)
      → (remove_blocks (to_remove g) false g).0 ≡ false
      → remove_unused_blocks (suc fuel) g ≡ some (remove_blocks (to_remove g) false g).1
  unfolding remove_unused_blocks
  last_round fuel h = rw (remove_unused_blocks, h)

  pub again :
      (fuel : ℕ)
      → round.0 ≡ true
      → remove_unused_blocks (suc fuel) g ≡ remove_unused_blocks fuel round.1
  unfolding round
  again fuel h =
      subst
        (λ (bs : List ℕ).
          (remove_blocks bs false g).0 ≡ true
          → remove_unused_blocks (suc fuel) g
            ≡ remove_unused_blocks fuel (remove_blocks bs false g).1)
        to_remove_lem (repeats_round fuel) h

  pub stops : (fuel : ℕ) → round.0 ≡ false → remove_unused_blocks (suc fuel) g ≡ some round.1
  unfolding round
  stops fuel h =
      subst
        (λ (bs : List ℕ).
          (remove_blocks bs false g).0 ≡ false
          → remove_unused_blocks (suc fuel) g ≡ some (remove_blocks bs false g).1)
        to_remove_lem (last_round fuel) h

  round_preceded :
      round.0 ≡ false
      → (k : ℕ) → Memᴰ k round.1.keys
      → k ≢ first
      → is_empty (round.1.prev k) ≡ false
  unfolding round
  round_preceded h k m ne = elim (cases_cons (rw round_keys at m)) [
    | inl q ↦ absurd (ne q)
    | inr r ↦
        let there = mem_of-remove_keys k removed rest r in
        elim (Bool-cases (is_empty (g.prev k))) [
          | inl e ↦ absurd (there.1 (unfold removed in orphans_all g.prev k rest [] there.0 e))
          | inr e ↦ (remove_blocks-IsCalm removed false g h).1 k e
        ]
  ]

-- The first block is on the map, and every other block on it has a predecessor.
pub record HasNoOrphans (first : ℕ) (g : Graph) : Type 0 where
  pub others : List ℕ
  pub keys_lem : g.keys ≡ first ∷ others
  pub preceded : (k : ℕ) → Memᴰ k g.keys → k ≢ first → is_empty (g.prev k) ≡ false

-- On a map whose first key is distinct from the others, `removeUnusedBlocks`, with fuel for as
-- many rounds as there are blocks and one more, ends, and leaves a map that still has the first
-- block and in which every other block has a predecessor.
pub remove_unused_blocks-HasNoOrphans :
    (fuel : ℕ) (g : Graph) (first : ℕ) (rest : List ℕ)
    → g.keys ≡ first ∷ rest
    → ¬ Memᴰ first rest
    → length g.keys < fuel
    → (h : Graph) × (remove_unused_blocks fuel g ≡ some h) × HasNoOrphans first h
remove_unused_blocks-HasNoOrphans zero g first rest keys apart lt = absurd (omega arith)
remove_unused_blocks-HasNoOrphans (suc fuel) g first rest keys apart lt =
    let s = round g first rest keys apart in
    let left = remove_keys (removed g first rest keys apart) rest in
    elim (Bool-cases s.0) [
      | inl b ↦
          let small = round_shrinks g first rest keys apart b in
          let (h, e, ok) =
            remove_unused_blocks-HasNoOrphans fuel s.1 first left
              (round_keys g first rest keys apart) (round_apart g first rest keys apart)
              (omega arith) in
          (h, again g first rest keys apart fuel b ∙ e, ok)
      | inr b ↦ (
        s.1,
        stops g first rest keys apart fuel b,
        record {
          others = left;
          keys_lem = round_keys g first rest keys apart;
          preceded = round_preceded g first rest keys apart b;
        },
      )
    ]
