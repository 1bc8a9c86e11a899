-- ===== src/ModuleCreator/Blocks/Reachable.antt =====
-- `removeUnusedBlocks` (src/GenFunction.cpp) keeps every block that the first one leads to.
use mathlib.Core.List.{Memᴰ}
use camll_vm.Base.{
  ℕ, zero, suc, ◌≡◌, refl, sym, ◌∙◌, subst, ◌≢◌, inl, inr, Bool, true, false, ◌||◌, some, List, [],
  ◌∷◌, ◌==◌, ==_iff, Bool-cases, some_inj,
}
use camll_vm.ModuleCreator.Blocks.{
  Graph, at_key, is_empty, remove_all, drop_edges, remove_blocks, remove_unused_blocks,
}
use camll_vm.ModuleCreator.Blocks.Removal.{remove_keys, mem-remove_all, mem-remove_keys}
use camll_vm.ModuleCreator.Blocks.Unused.{
  remove_blocks-keys, removed, round, of_removed, round_keys, round_apart, again, stops,
}

-- The blocks that `first` leads to along the successors `next`.
pub data Reaches (next : ℕ → List ℕ) (first : ℕ) : ℕ → Type 0 where
  start : Reaches next first first
  step : {k n : ℕ} → Reaches next first k → Memᴰ n (next k) → Reaches next first n

module _ (next : ℕ → List ℕ) (first : ℕ) where
  -- Each reachable block is among the predecessors of its successors.
  abbrev pub HasReverse : (ℕ → List ℕ) → Type 0
  HasReverse prev = (k n : ℕ) → Reaches next first k → Memᴰ n (next k) → Memᴰ k (prev n)

  HasReverse-update :
      (b n : ℕ) (prev : ℕ → List ℕ)
      → ¬ Reaches next first b
      → HasReverse prev
      → HasReverse (at_key prev n (remove_all b (prev n)))
  HasReverse-update b n prev out rev k m r s = elim (Bool-cases (n == m)) [
    | inl e ↦
        let same : n ≡ m = (==_iff n m).0 e in
        rw e (
          rw same
            (mem-remove_all k b (prev m) (rev k m r s) (λ q. out (subst (Reaches next first) q r))))
    | inr e ↦ rw e (rev k m r s)
  ]

  drop_edges-HasReverse :
      (b : ℕ) (ns : List ℕ) (r : Bool) (g : Graph)
      → ¬ Reaches next first b
      → HasReverse g.prev
      → HasReverse (drop_edges b ns r g).1.prev
  unfolding drop_edges
  drop_edges-HasReverse b [] r g out rev = rev
  drop_edges-HasReverse b (n ∷ ns) r g out rev =
      let p = remove_all b (g.prev n) in
      drop_edges-HasReverse b ns (r || is_empty p) (record g { prev = at_key g.prev n p }) out
        (HasReverse-update b n g.prev out rev)

  remove_blocks-HasReverse :
      (bs : List ℕ) (r : Bool) (g : Graph)
      → ((b : ℕ) → Memᴰ b bs → ¬ Reaches next first b)
      → HasReverse g.prev
      → HasReverse (remove_blocks bs r g).1.prev
  unfolding remove_blocks
  remove_blocks-HasReverse [] r g out rev = rev
  remove_blocks-HasReverse (b ∷ bs) r g out rev =
      let s = drop_edges b (g.next b) r g in
      remove_blocks-HasReverse bs s.0 (record s.1 { keys = remove_all b s.1.keys })
        (λ c m. out c (Memᴰ.tail m))
        (drop_edges-HasReverse b (g.next b) r g (out b (Memᴰ.head refl)) rev)

  empty-not_mem : (k : ℕ) (xs : List ℕ) → is_empty xs ≡ true → ¬ Memᴰ k xs
  empty-not_mem k [] h m = elim m [ ]
  empty-not_mem k (x ∷ xs) h m = cc

  -- A reachable block other than the first has a predecessor.
  orphan_unreachable :
      (prev : ℕ → List ℕ) (b : ℕ)
      → HasReverse prev
      → b ≢ first
      → is_empty (prev b) ≡ true
      → ¬ Reaches next first b
  orphan_unreachable prev b rev ne h start = ne refl
  orphan_unreachable prev b rev ne h (step {k} r m) = empty-not_mem k (prev b) h (rev k b r m)

  keeps :
      (fuel : ℕ) (g h : Graph) (rest : List ℕ) (k : ℕ)
      → g.keys ≡ first ∷ rest
      → ¬ Memᴰ first rest
      → HasReverse g.prev
      → remove_unused_blocks fuel g ≡ some h
      → Reaches next first k
      → Memᴰ k g.keys
      → Memᴰ k h.keys
  unfolding remove_unused_blocks
  keeps zero g h rest k keys apart rev e r m = cc
  keeps (suc fuel) g h rest k keys apart rev e r m =
      let bs = removed g first rest keys apart in
      let s = round g first rest keys apart in
      let out : (b : ℕ) → Memᴰ b bs → ¬ Reaches next first b = λ b mem.
        let (there, none_before) = of_removed g first rest keys apart b mem in
        orphan_unreachable g.prev b rev (λ q. apart (subst (λ (x : ℕ). Memᴰ x rest) q there))
          none_before in
      let rev' : HasReverse s.1.prev =
        unfold round in remove_blocks-HasReverse bs false g out rev in
      let kept : Memᴰ k s.1.keys =
        unfold round in
        rw (remove_blocks-keys bs false g) (mem-remove_keys k bs g.keys m (λ b. out k b r)) in
      elim (Bool-cases s.0) [
        | inl b ↦
            keeps fuel s.1 h (remove_keys bs rest) k (round_keys g first rest keys apart)
              (round_apart g first rest keys apart) rev'
              (sym (again g first rest keys apart fuel b) ∙ e) r kept
        | inr b ↦
            let same : s.1 ≡ h = some_inj (sym (stops g first rest keys apart fuel b) ∙ e) in
            subst (λ (x : Graph). Memᴰ k x.keys) same kept
      ]

-- On a map whose first key stands once, in which every successor of a reachable block knows it as a
-- predecessor, `removeUnusedBlocks` keeps every block on the map that the first one leads to.
pub remove_unused_blocks-keeps_reachable :
    (fuel : ℕ) (g h : Graph) (first : ℕ) (rest : List ℕ) (k : ℕ)
    → g.keys ≡ first ∷ rest
    → ¬ Memᴰ first rest
    → HasReverse g.next first g.prev
    → remove_unused_blocks fuel g ≡ some h
    → Reaches g.next first k
    → Memᴰ k g.keys
    → Memᴰ k h.keys
remove_unused_blocks-keeps_reachable fuel g h first rest k keys apart rev e r m =
    keeps g.next first fuel g h rest k keys apart rev e r m
