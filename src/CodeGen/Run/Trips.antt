-- ===== src/CodeGen/Run/Trips.antt =====
-- The integer ZINC machine's way through the blocks of a function (src/GenFunction.cpp).
use camll_vm.Base.{
  ℕ, suc, ◌≡◌, ◌≢◌, refl, sym, ◌∙◌, subst, inl, inr, Bool, true, Bool-cases, Option, none, some,
  List, [], ◌∷◌, ◌==◌, >>=-eq-some, ==_iff, All,
}
use camll_vm.Opcode.{Opcode}
use camll_vm.Instruction.{ZInstruction, arg}
use camll_vm.ModuleCreator.Blocks.{Graph, has_key}
use camll_vm.CodeGen.Block.{last_inst}
use camll_vm.CodeGen.Terminators.{last_inst_lem}
use camll_vm.CodeGen.Function.{front_of}
use camll_vm.CodeGen.Run.Spec.{Zinc, jumps, zinc_step}
use camll_vm.CodeGen.Run.Graph.{Outcome, zinc_other, zinc_end, zinc_block, zinc_graph, returns_op}
use camll_vm.CodeGen.Run.Ends.{zinc_block_split}

pub All-at : (P : ℕ → Type 0) (k : ℕ) (ks : List ℕ) → has_key k ks ≡ true → All P ks → P k
All-at P k [] h a = absurd (cc)
All-at P k (j ∷ ks) h a = elim (Bool-cases (k == j)) [
  | inl t ↦ subst P (sym ((==_iff k j).0 t)) a.0
  | inr f ↦ All-at P k ks (rw f at h) a.1
]

zinc_end_leaves :
    (cap : ℕ) (g : Graph) (k : ℕ) (inst : ZInstruction) (op : Opcode) (z z' : Zinc) (n : ℕ)
    → zinc_end cap g k inst op z ≡ some (Outcome.leaves n z')
    → op ≡ Opcode.return
unfolding zinc_end
zinc_end_leaves cap g k inst Opcode.return z z' n h = refl
zinc_end_leaves cap g k inst Opcode.branch z z' n h =
    let (b, e, q) = >>=-eq-some (g.br_block k) _ h in absurd (cc)
zinc_end_leaves cap g k inst op z z' n h = absurd (other (jumps op (arg inst 0) z.accu) h)
  where
    other : (t : Option Bool) → zinc_other cap g k inst t z ≢ some (Outcome.leaves n z')
    other (some t) q =
        let (b, e, q₁) = >>=-eq-some (g.br_block k) _ q in
        let (c, e₁, q₂) = >>=-eq-some (g.no_br_block k) _ q₁ in cc
    other none q =
        let (z₁, e, q₁) = >>=-eq-some (zinc_step cap inst z) _ q in
        let (c, e₁, q₂) = >>=-eq-some (front_of (g.next k)) _ q₁ in cc

pub returns_lem :
    (cap : ℕ) (g : Graph) (k : ℕ) (insts : List ZInstruction) (z z' : Zinc) (n : ℕ)
    → zinc_block cap g k insts z ≡ some (Outcome.leaves n z')
    → returns_op (last_inst insts) ≡ true
returns_lem cap g k insts z z' n h =
    let (front, last, z₁, split, ran, ended) =
      zinc_block_split cap g k insts z (Outcome.leaves n z') h in
    rw (split, last_inst_lem front last, zinc_end_leaves cap g k last last.op_num z₁ z' n ended)
      refl

abbrev pub continues : ℕ → Graph → ℕ → Outcome → Option (ℕ × Zinc)
continues cap g n (Outcome.goes_to j z) = zinc_graph cap g n j z
continues cap g n (Outcome.leaves a z) = some (a, z)

pub zinc_graph_inv :
    (cap : ℕ) (g : Graph) (n k : ℕ) (z : Zinc) (x : ℕ × Zinc)
    → zinc_graph cap g (suc n) k z ≡ some x
    → (has_key k g.keys ≡ true)
      × (o : Outcome) × (zinc_block cap g k (g.insts k) z ≡ some o)
      × (continues cap g n o ≡ some x)
unfolding zinc_graph
zinc_graph_inv cap g n k z x h = elim (Bool-cases (has_key k g.keys)) [
  | inl t ↦
      let (o, ran, more) =
        >>=-eq-some (zinc_block cap g k (g.insts k) z) _ (rw (zinc_graph, t) at h) in
      (t, o, ran, same o ∙ more)
  | inr f ↦ let stuck = rw (zinc_graph, f) at h in absurd (cc)
]
  where
    same :
        (o : Outcome)
        → continues cap g n o ≡ elim o [
          | Outcome.goes_to j z' ↦ zinc_graph cap g n j z'
          | Outcome.leaves a z' ↦ some (a, z')
        ]
    same (Outcome.goes_to j z') = refl
    same (Outcome.leaves a z') = refl
