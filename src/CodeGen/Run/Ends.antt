-- ===== src/CodeGen/Run/Ends.antt =====
-- How a block (src/GenBlock.cpp) ends: all instructions but the last one go on to the next.
use camll_vm.Base.{
  ℕ, ◌≡◌, refl, ap, Bool, true, false, not, some, List, [], ◌∷◌, ◌++◌, inl, inr, Bool-cases,
  >>=-eq-some, arith,
}
use camll_vm.Opcode.{Opcode}
use camll_vm.Instruction.{ZInstruction, is_jump_op, is_branch_op}
use camll_vm.ModuleCreator.Blocks.{Graph}
use camll_vm.CodeGen.Emit.{Code}
use camll_vm.CodeGen.Straight.{gen_straight}
use camll_vm.CodeGen.Sealed.{ends_block}
use camll_vm.CodeGen.Calls.{ends_nothing_lem}
use camll_vm.CodeGen.Run.Spec.{Value, Zinc, zinc_step, zinc_run, jumps}
use camll_vm.CodeGen.Run.Graph.{Outcome, zinc_end, zinc_block}

pub zinc_block_split :
    (cap : ℕ) (g : Graph) (k : ℕ) (insts : List ZInstruction) (z : Zinc) (o : Outcome)
    → zinc_block cap g k insts z ≡ some o
    → (front : List ZInstruction) × (last : ZInstruction) × (z₁ : Zinc) × (insts
        ≡ front ++ last ∷ [])
      × (zinc_run cap front z ≡ some z₁)
      × (zinc_end cap g k last last.op_num z₁ ≡ some o)
unfolding zinc_block zinc_run
zinc_block_split cap g k [] z o h = absurd (cc)
zinc_block_split cap g k (inst ∷ []) z o h = ([], inst, z, refl, refl, h)
zinc_block_split cap g k (inst ∷ y ∷ rest) z o h =
    let (z₁, first, more) = >>=-eq-some (zinc_step cap inst z) _ h in
    let (front, last, z₂, split, ran, ended) = zinc_block_split cap g k (y ∷ rest) z₁ o more in
    (
      inst ∷ front,
      last,
      z₂,
      ap (λ (l : List ZInstruction). inst ∷ l) split,
      rw (zinc_run, first) ran,
      ended,
    )

pub not_branch : (op : Opcode) → ends_block op ≡ false → is_branch_op op ≡ false
unfolding is_jump_op
not_branch Opcode.branch h = cc
not_branch op h = refl

pub not_jump : (op : Opcode) → ends_block op ≡ false → is_jump_op op ≡ false
not_jump op h = elim (Bool-cases (is_jump_op op)) [
  | inl t ↦ let ends : ends_block op ≡ true = rw t refl in absurd (cc)
  | inr f ↦ f
]

pub ends_nothing :
    (inst : ZInstruction) (code : List Code)
    → gen_straight inst ≡ some code
    → ends_block inst.op_num ≡ false
unfolding gen_straight
ends_nothing inst code c =
    let no_end : not (ends_block inst.op_num) ≡ true =
      rw c at (ends_nothing_lem inst inst.op_num) in
    ground arith

pub jumps_ends :
    (op : Opcode) (n : ℕ) (v : Value) (taken : Bool)
    → jumps op n v ≡ some taken
    → ends_block op ≡ true
unfolding jumps is_jump_op
jumps_ends Opcode.branchif n v taken h = refl
jumps_ends Opcode.branchifnot n v taken h = refl
jumps_ends Opcode.beq n v taken h = refl
jumps_ends Opcode.bneq n v taken h = refl
jumps_ends Opcode.bltint n v taken h = refl
jumps_ends Opcode.bleint n v taken h = refl
jumps_ends Opcode.bgtint n v taken h = refl
jumps_ends Opcode.bgeint n v taken h = refl
jumps_ends Opcode.bultint n v taken h = refl
jumps_ends Opcode.bugeint n v taken h = refl
jumps_ends op n (Value.int a) taken h = cc
jumps_ends op n (Value.ref a) taken h = cc
