-- ===== src/Reader/Fuel.antt =====
-- The loop of `readInstructions` (src/Instructions.cpp) takes a word off the code in each round, so
-- that fuel for the words there are is enough.
use camll_vm.Base.{
  ℕ, zero, suc, ◌+◌, ◌≤◌, ◌<◌, ◌≡◌, subst, Bool, true, false, Option, none, some, List, [], ◌∷◌,
  length, get_elem?, ltb, Yields, Yields-bind, Bool-cases, Option-cases, inl, inr, arith,
}
use camll_vm.Endian.{to_big_endian}
use camll_vm.Opcode.{Opcode, arity, all_op_codes}
use camll_vm.Instruction.{ZInstruction, is_closure_rec, is_switch}
use camll_vm.Reader.{
  Reader, store, next_word, read_args, read_closure_rec, read_switch, read_offsets, read_one,
  read_loop,
}
use camll_vm.Reader.Numbering.{anything}

abbrev words_left : Reader → ℕ
words_left r = length r.tab

-- At most `n` words are left.
abbrev LeavesWithin {ℓ} : {A : Type ℓ} → ℕ → A × Reader → Type 0
LeavesWithin n s = words_left s.1 ≤ n

module _ (big : Bool) where
  word_lem :
      (r : Reader) (t : List ℕ)
      → Yields
          (λ (s : ℕ × Reader). words_left s.1 < length t)
          (elim t [
            | [] ↦ none
            | w ∷ rest ↦ some (to_big_endian big w, record r { tab = rest; offset = r.offset + 1 })
          ])
  word_lem r [] = tt
  word_lem r (w ∷ rest) = omega arith

  next_word_lem :
      (r : Reader) → Yields (λ (s : ℕ × Reader). words_left s.1 < words_left r) (next_word big r)
  unfolding next_word
  next_word_lem r = word_lem r r.tab

  read_args_lem :
      (n j m k : ℕ) (inst : ZInstruction) (r : Reader)
      → words_left r ≤ k
      → Yields (LeavesWithin k) (read_args big n j m inst r)
  unfolding read_args
  read_args_lem zero j m k inst r h = h
  read_args_lem (suc n) j m k inst r h =
      Yields-bind (λ (s : ℕ × Reader). words_left s.1 < words_left r) (LeavesWithin k)
        (next_word big r) _ (next_word_lem r)
        λ s l.
          Yields-bind (λ (a : List ℕ). Unit {0}) (LeavesWithin k) (store inst.args j _) _
            (anything (store inst.args j _))
            (λ args u. read_args_lem n (j + 1) m k _ _ (omega arith))

  read_closure_rec_lem :
      (n j base k : ℕ) (inst : ZInstruction) (r : Reader)
      → words_left r ≤ k
      → Yields (LeavesWithin k) (read_closure_rec big n j base inst r)
  unfolding read_closure_rec
  read_closure_rec_lem zero j base k inst r h = h
  read_closure_rec_lem (suc n) j base k inst r h =
      Yields-bind (λ (s : ℕ × Reader). words_left s.1 < words_left r) (LeavesWithin k)
        (next_word big r) _ (next_word_lem r)
        λ s l.
          Yields-bind (λ (a : List ℕ). Unit {0}) (LeavesWithin k) (store inst.closure_rec_fns j _) _
            (anything (store inst.closure_rec_fns j _))
            (λ fns u. read_closure_rec_lem n (j + 1) base k _ _ (omega arith))

  read_switch_lem :
      (n base k : ℕ) (inst : ZInstruction) (r : Reader)
      → words_left r ≤ k
      → Yields (LeavesWithin k) (read_switch big n base inst r)
  unfolding read_switch
  read_switch_lem zero base k inst r h = h
  read_switch_lem (suc n) base k inst r h =
      Yields-bind (λ (s : ℕ × Reader). words_left s.1 < words_left r) (LeavesWithin k)
        (next_word big r) _ (next_word_lem r) (λ s l. read_switch_lem n base k _ _ (omega arith))

  read_offsets_lem :
      (m k : ℕ) (inst : ZInstruction) (r : Reader)
      → words_left r ≤ k
      → Yields (LeavesWithin k) (read_offsets big m inst r)
  unfolding read_offsets
  read_offsets_lem m k inst r h = elim (Bool-cases (is_closure_rec inst)) [
    | inl c ↦
        rw (read_offsets, c)
          (Yields-bind (LeavesWithin k) (LeavesWithin k) (read_closure_rec big _ 0 _ inst r) _
            (read_closure_rec_lem _ 0 _ k inst r h) (λ s l. l))
    | inr c ↦ elim (Bool-cases (is_switch inst)) [
      | inl w ↦
          rw (read_offsets, c, w)
            (Yields-bind (LeavesWithin k) (LeavesWithin k) (read_switch big _ _ inst r) _
              (read_switch_lem _ _ k inst r h) (λ s l. l))
      | inr w ↦ rw (read_offsets, c, w) h
    ]
  ]

  read_one_lem :
      (r : Reader) → Yields (λ (s : Reader). words_left s < words_left r) (read_one big r)
  unfolding read_one
  read_one_lem r =
      let i = length r.instructions in
      Yields-bind (λ (s : ℕ × Reader). words_left s.1 < words_left r) _ (next_word big r) _
        (next_word_lem r)
        λ s₁ k₁.
          Yields-bind (λ (o : Opcode). Unit {0}) _ (get_elem? all_op_codes s₁.0) _
            (anything (get_elem? all_op_codes s₁.0))
            λ op u.
              Yields-bind (LeavesWithin (words_left s₁.1)) _ (read_args big (arity op) 0 i _ _) _
                (read_args_lem (arity op) 0 i (words_left s₁.1) _ _ (omega arith))
                λ s₂ k₂.
                  Yields-bind (LeavesWithin (words_left s₁.1)) _ (read_offsets big i s₂.0 s₂.1) _
                    (read_offsets_lem i (words_left s₁.1) s₂.0 s₂.1 k₂) λ s₃ k₃. omega arith

  -- The runs of the `while`: rounds under its test, up to a state in which the test fails, or a
  -- fault of the body.
  pub data Ends (size : ℕ) : Reader → Option Reader → Type 0 where
    stops : (r : Reader) → ltb r.pos size ≡ false → Ends size r (some r)
    faults : (r : Reader) → ltb r.pos size ≡ true → read_one big r ≡ none → Ends size r none
    goes_on :
        (r r' : Reader) (o : Option Reader)
        → ltb r.pos size ≡ true
        → read_one big r ≡ some r'
        → Ends size r' o
        → Ends size r o

-- With fuel above the number of words that are left, the loop of `readInstructions` ends: it has a run of
-- finitely many rounds, up to a state in which the test of the loop fails or to a fault of a
-- round, and the result is that of the run.
pub read_loop-Ends :
    (big : Bool) (fuel size : ℕ) (r : Reader)
    → length r.tab < fuel
    → Ends big size r (read_loop big fuel size r)
unfolding read_loop
read_loop-Ends big zero size r h = absurd (omega arith)
read_loop-Ends big (suc fuel) size r h = elim (Bool-cases (ltb r.pos size)) [
  | inl e ↦ elim (Option-cases (read_one big r)) [
    | inl n ↦ rw (read_loop, e, n) (Ends.faults r e n)
    | inr (r', o) ↦
        let fewer : length r'.tab < length r.tab =
          subst (Yields (λ (s : Reader). length s.tab < length r.tab)) o (read_one_lem big r) in
        let run = read_loop-Ends big fuel size r' (omega arith) in
        rw (read_loop, e, o) (Ends.goes_on r r' (read_loop big fuel size r') e o run)
  ]
  | inr e ↦ rw (read_loop, e) (Ends.stops r e)
]
