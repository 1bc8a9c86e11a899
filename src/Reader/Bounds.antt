-- ===== src/Reader/Bounds.antt =====
-- Where the code offsets of the instructions that `readInstructions` (src/Instructions.cpp) gives lead.
use camll_vm.Base.{
  ℕ, zero, suc, ◌+◌, ◌/◌, ◌≡◌, refl, ap, ◌∙◌, subst, Bool, true, ◌||◌, Bool-cases, Option-cases,
  inl, inr, ◌⊎◌, some, List, [], ◌∷◌, ◌++◌, length, get_elem?, All, ltb, >>=-eq-some, Yields,
  Yields-bind, arith,
}
use camll_vm.Opcode.{Opcode, arity, all_op_codes}
use camll_vm.Instruction.{ZInstruction, code_offset_args, is_closure_rec, is_switch}
use camll_vm.Reader.{
  Reader, next_word, read_args, read_offsets, read_one, read_loop, start, read_instructions,
}
use camll_vm.Reader.Numbering.{anything}
use camll_vm.Reader.Resolved.{IsResolved, has, Pending, AllBelow, adjust-IsResolved}
use camll_vm.Reader.Notes.{
  code_offset_args-lt, Grows, Pending-Grows, Pending-append, length-append_one, AllBelow-suc,
  IsSame, next_word_lem, read_args_lem, read_offsets_lem,
}

-- The positions lie in the vector, of which the counter is the length, and what has a code offset is noted for the second loop.
record IsBounded (r : Reader) : Type 0 where
  below_lem : AllBelow (length r.instructions) r.positions
  next_lem : r.counter ≡ length r.instructions
  pending_lem : (n : ℕ) → Pending n r.to_adjust 0 r.instructions

IsResolved-or :
    (m : ℕ) (ks : List ℕ) (inst : ZInstruction)
    → ((is_closure_rec inst || is_switch inst) ≡ true → has m ks ≡ true)
    → ((k : ℕ) → code_offset_args inst.op_num ≡ some k → has m ks ≡ true)
    → (n : ℕ) → (has m ks ≡ true) ⊎ IsResolved n inst
IsResolved-or m ks inst f g n = elim (Bool-cases (is_closure_rec inst)) [
  | inl c ↦ inl (f (rw c refl))
  | inr c ↦ elim (Bool-cases (is_switch inst)) [
    | inl w ↦ inl (f (rw (c, w) refl))
    | inr w ↦ elim (Option-cases (code_offset_args inst.op_num)) [
      | inl missing ↦ inr (rw (c, w, missing) tt)
      | inr (k, known) ↦ inl (g k known)
    ]
  ]
]

-- The vector with one more instruction, the reader's note of which is taken if it has an offset.
read_on-IsBounded :
    (r : Reader) (pos : ℕ) (t : ZInstruction × Reader)
    → IsBounded r
    → t.1.instructions ≡ r.instructions
    → t.1.positions ≡ (pos, r.counter) ∷ r.positions
    → t.1.counter ≡ r.counter
    → Grows r.to_adjust t.1.to_adjust
    → ((is_closure_rec t.0 || is_switch t.0) ≡ true
        → has (length r.instructions) t.1.to_adjust ≡ true)
    → ((k : ℕ)
        → code_offset_args t.0.op_num ≡ some k
        → has (length r.instructions) t.1.to_adjust ≡ true)
    → IsBounded
        (record t.1 { counter = t.1.counter + 1; instructions = t.1.instructions ++ t.0 ∷ [] })
read_on-IsBounded r pos t b v p w g f c =
    let n = length r.instructions in
    let from_zero : 0 + n ≡ n = omega arith in
    let longer : length (t.1.instructions ++ t.0 ∷ []) ≡ suc n =
      ap (λ (xs : List ZInstruction). length (xs ++ t.0 ∷ [])) v
      ∙ length-append_one r.instructions t.0 in
    let below : AllBelow (suc n) ((pos, n) ∷ r.positions) =
      (omega arith, AllBelow-suc n r.positions b.below_lem) in
    record {
      below_lem = rw (longer, p, b.next_lem) below;
      next_lem = rw longer (omega (arith, w, b.next_lem));
      pending_lem = λ m. rw v (
          Pending-append m t.1.to_adjust 0 r.instructions t.0
            (rw from_zero (IsResolved-or n t.1.to_adjust t.0 f c m))
            (Pending-Grows m r.to_adjust t.1.to_adjust 0 r.instructions g (b.pending_lem m)));
    }

read_one-IsBounded : (big : Bool) (r : Reader) → IsBounded r → Yields IsBounded (read_one big r)
unfolding read_one
read_one-IsBounded big r b =
    let i = length r.instructions in
    Yields-bind (IsSame r) _ (next_word big r) _ (next_word_lem big r) λ s h.
      Yields-bind (λ (o : Opcode). Unit {0}) _ (get_elem? all_op_codes s.0) _
        (anything (get_elem? all_op_codes s.0))
        λ op u.
          Yields-bind _ _ (read_args big (arity op) 0 i _ _) _
            (read_args_lem big (arity op) 0 i _ _)
            λ s₁ p.
              Yields-bind _ _ (read_offsets big i s₁.0 s₁.1) _
                (read_offsets_lem big i s₁.0 s₁.1 (is_closure_rec s₁.0 || is_switch s₁.0) refl)
                λ t q.
                  read_on-IsBounded r _ t b (q.0.insts_lem ∙ p.0.insts_lem ∙ h.0)
                    (q.0.positions_lem ∙ p.0.positions_lem)
                    (q.0.counter_lem ∙ p.0.counter_lem ∙ h.3)
                    (λ x k. q.0.grows_lem x (p.0.grows_lem x (rw h.2 k)))
                    (λ k. q.1 (rw q.0.op_lem at k))
                    λ k known.
                      let first : code_offset_args op ≡ some k =
                        rw (q.0.op_lem ∙ p.0.op_lem) at known in
                      q.0.grows_lem i
                        (p.1 k first (omega arith) (omega (arith, code_offset_args-lt op k first)))

read_loop-IsBounded :
    (big : Bool) (fuel size : ℕ) (r : Reader)
    → IsBounded r
    → Yields IsBounded (read_loop big fuel size r)
unfolding read_loop
read_loop-IsBounded big zero size r h = tt
read_loop-IsBounded big (suc fuel) size r h = elim (Bool-cases (ltb r.pos size)) [
  | inl e ↦
      rw (read_loop, e)
        (Yields-bind IsBounded IsBounded (read_one big r) _ (read_one-IsBounded big r h)
          (λ s k. read_loop-IsBounded big fuel size s k))
  | inr e ↦ rw (read_loop, e) h
]

-- Whenever `readInstructions` returns, the code offsets of the jumps, traps, closures, recursive
-- closures and switches are indices into the vector that it returns.
pub read_instructions-IsResolved :
    (big : Bool) (tab : List ℕ) (size : ℕ) (insts : List ZInstruction)
    → read_instructions big tab size ≡ some insts
    → All (IsResolved (length insts)) insts
unfolding read_instructions
read_instructions-IsResolved big tab size insts e =
    let (r, looped, e₁) =
      >>=-eq-some (read_loop big (suc (length tab)) (size / 4) (start tab)) _ e in
    let b : IsBounded r = subst (Yields IsBounded) looped (
      read_loop-IsBounded big (suc (length tab)) (size / 4) (start tab)
        (record { below_lem = tt; next_lem = refl; pending_lem = λ n. tt })) in
    let n = length r.instructions in
    let (all, same) =
      adjust-IsResolved n r.positions r.to_adjust r.instructions insts b.below_lem (b.pending_lem n)
        e₁ in
    rw same all
