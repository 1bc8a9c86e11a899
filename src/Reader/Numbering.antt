-- ===== src/Reader/Numbering.antt =====
-- The instructions that `readInstructions` (src/Instructions.cpp) gives are numbered in order.
use camll_vm.Base.{
  ℕ, zero, suc, ◌+◌, ◌/◌, ◌≡◌, refl, sym, ap, ◌∙◌, subst, Bool, Option, none, some, List, [], ◌∷◌,
  ◌++◌, length, get_elem?, set, ltb, Yields, Yields-bind, Bool-cases, inl, inr, arith,
}
use camll_vm.Endian.{to_big_endian}
use camll_vm.Opcode.{Opcode, arity, all_op_codes}
use camll_vm.Instruction.{ZInstruction, arg, code_offset_args, is_closure_rec, is_switch}
use camll_vm.Reader.{
  Reader, store, next_word, read_args, read_closure_rec, read_switch, read_offsets, read_one,
  read_loop, idx_at, resolve_fns, adjust_arg, adjust_inst, adjust, start, read_instructions,
}

-- The indices are `k`, `k + 1` and so on.
abbrev pub IsNumbered : ℕ → List ZInstruction → Type 0
IsNumbered k [] = Unit {0}
IsNumbered k (x ∷ xs) = (x.idx ≡ k) × IsNumbered (suc k) xs

IsNumbered-append :
    (k : ℕ) (xs : List ZInstruction) (x : ZInstruction)
    → IsNumbered k xs
    → x.idx ≡ k + length xs
    → IsNumbered k (xs ++ x ∷ [])
IsNumbered-append k [] x h e = (omega arith, tt)
IsNumbered-append k (y ∷ xs) x h e = (h.0, IsNumbered-append (suc k) xs x h.1 (omega arith))

IsNumbered-set :
    (k i : ℕ) (xs : List ZInstruction) (x y : ZInstruction)
    → IsNumbered k xs
    → get_elem? xs i ≡ some x
    → y.idx ≡ x.idx
    → IsNumbered k (set xs i y)
IsNumbered-set k i [] x y h g e = tt
IsNumbered-set k zero (z ∷ xs) x y h g e =
    (e ∙ ap (λ (o : Option ZInstruction). elim o [ none ↦ k | some w ↦ w.idx ]) (sym g) ∙ h.0, h.1)
IsNumbered-set k (suc i) (z ∷ xs) x y h g e = (h.0, IsNumbered-set (suc k) i xs x y h.1 g e)

-- The counter is `i` and the vector holds `insts`.
record Holds (i : ℕ) (insts : List ZInstruction) (r : Reader) : Type 0 where
  vector_lem : r.instructions ≡ insts
  counter_lem : r.counter ≡ i

-- An instruction with the index `i`, read while the counter is `i` and the vector holds `insts`.
abbrev IsReading : ℕ → List ZInstruction → ZInstruction × Reader → Type 0
IsReading i insts s = (s.0.idx ≡ i) × Holds i insts s.1

abbrev KeepsVector : ℕ → List ZInstruction → ℕ × Reader → Type 0
KeepsVector i insts s = Holds i insts s.1

pub anything {ℓ} : {A : Type ℓ} (o : Option A) → Yields (λ (a : A). Unit {0}) o
anything none = tt
anything (some a) = tt

module _ (big : Bool) (i : ℕ) (insts : List ZInstruction) where
  word_lem :
      (r : Reader) (t : List ℕ)
      → Holds i insts r
      → Yields (KeepsVector i insts) (elim t [
        | [] ↦ none
        | w ∷ rest ↦ some (to_big_endian big w, record r { tab = rest; offset = r.offset + 1 })
      ])
  word_lem r [] h = tt
  word_lem r (w ∷ rest) h = record { vector_lem = h.vector_lem; counter_lem = h.counter_lem }

  next_word_lem : (r : Reader) → Holds i insts r → Yields (KeepsVector i insts) (next_word big r)
  unfolding next_word
  next_word_lem r h = word_lem r r.tab h

  read_args_lem :
      (n j m : ℕ) (inst : ZInstruction) (r : Reader)
      → inst.idx ≡ i
      → Holds i insts r
      → Yields (IsReading i insts) (read_args big n j m inst r)
  unfolding read_args
  read_args_lem zero j m inst r e h = (e, h)
  read_args_lem (suc n) j m inst r e h =
      Yields-bind (KeepsVector i insts) (IsReading i insts) (next_word big r) _ (next_word_lem r h)
        λ s k.
          Yields-bind (λ (a : List ℕ). Unit {0}) (IsReading i insts) (store inst.args j _) _
            (anything (store inst.args j _))
            (λ args u.
              read_args_lem n (j + 1) m _ _ e
                (record { vector_lem = k.vector_lem; counter_lem = k.counter_lem }))

  read_closure_rec_lem :
      (n j base : ℕ) (inst : ZInstruction) (r : Reader)
      → inst.idx ≡ i
      → Holds i insts r
      → Yields (IsReading i insts) (read_closure_rec big n j base inst r)
  unfolding read_closure_rec
  read_closure_rec_lem zero j base inst r e h = (e, h)
  read_closure_rec_lem (suc n) j base inst r e h =
      Yields-bind (KeepsVector i insts) (IsReading i insts) (next_word big r) _ (next_word_lem r h)
        λ s k.
          Yields-bind (λ (a : List ℕ). Unit {0}) (IsReading i insts)
            (store inst.closure_rec_fns j _) _ (anything (store inst.closure_rec_fns j _))
            (λ fns u. read_closure_rec_lem n (j + 1) base _ _ e k)

  read_switch_lem :
      (n base : ℕ) (inst : ZInstruction) (r : Reader)
      → inst.idx ≡ i
      → Holds i insts r
      → Yields (IsReading i insts) (read_switch big n base inst r)
  unfolding read_switch
  read_switch_lem zero base inst r e h = (e, h)
  read_switch_lem (suc n) base inst r e h =
      Yields-bind (KeepsVector i insts) (IsReading i insts) (next_word big r) _ (next_word_lem r h)
        (λ s k. read_switch_lem n base _ _ e k)

  read_offsets_lem :
      (m : ℕ) (inst : ZInstruction) (r : Reader)
      → inst.idx ≡ i
      → Holds i insts r
      → Yields (IsReading i insts) (read_offsets big m inst r)
  unfolding read_offsets
  read_offsets_lem m inst r e h = elim (Bool-cases (is_closure_rec inst)) [
    | inl c ↦
        rw (read_offsets, c)
          (Yields-bind (IsReading i insts) (IsReading i insts) (read_closure_rec big _ 0 _ inst r) _
            (read_closure_rec_lem _ 0 _ inst r e h)
            (λ s k. (k.0, record { vector_lem = k.1.vector_lem; counter_lem = k.1.counter_lem })))
    | inr c ↦ elim (Bool-cases (is_switch inst)) [
      | inl w ↦
          rw (read_offsets, c, w)
            (Yields-bind (IsReading i insts) (IsReading i insts) (read_switch big _ _ inst r) _
              (read_switch_lem _ _ inst r e h)
              (λ s k. (k.0, record { vector_lem = k.1.vector_lem; counter_lem = k.1.counter_lem })))
      | inr w ↦ rw (read_offsets, c, w) (e, h)
    ]
  ]

-- The instructions are numbered, and the counter is the next number.
record Counts (r : Reader) : Type 0 where
  numbered : IsNumbered 0 r.instructions
  next_lem : r.counter ≡ length r.instructions

length-append_one :
    (xs : List ZInstruction) (x : ZInstruction) → length (xs ++ x ∷ []) ≡ suc (length xs)
length-append_one [] x = refl
length-append_one (y ∷ xs) x = ap suc (length-append_one xs x)

read_one-Counts : (big : Bool) (r : Reader) → Counts r → Yields Counts (read_one big r)
unfolding read_one
read_one-Counts big r h =
    let i = r.counter in
    let n = length r.instructions in
    let insts = r.instructions in
    Yields-bind (KeepsVector i insts) _ (next_word big r) _
      (next_word_lem big i insts r (record { vector_lem = refl; counter_lem = refl }))
      λ s₁ k₁.
        Yields-bind (λ (o : Opcode). Unit {0}) _ (get_elem? all_op_codes s₁.0) _
          (anything (get_elem? all_op_codes s₁.0))
          λ op u.
            Yields-bind (IsReading i insts) _ (read_args big (arity op) 0 n _ _) _
              (read_args_lem big i insts (arity op) 0 n _ _ refl
                (record { vector_lem = k₁.vector_lem; counter_lem = k₁.counter_lem }))
              λ s₂ k₂.
                Yields-bind (IsReading i insts) _ (read_offsets big n s₂.0 s₂.1) _
                  (read_offsets_lem big i insts n s₂.0 s₂.1 k₂.0 k₂.1)
                  λ s₃ k₃. record {
                    numbered = rw k₃.1.vector_lem (
                        IsNumbered-append 0 insts s₃.0 h.numbered
                          (omega (arith, k₃.0, h.next_lem)));
                    next_lem =
                        rw (k₃.1.vector_lem, k₃.1.counter_lem)
                          (omega (arith, h.next_lem, length-append_one insts s₃.0));
                  }

read_loop-Counts :
    (big : Bool) (fuel size : ℕ) (r : Reader) → Counts r → Yields Counts (read_loop big fuel size r)
unfolding read_loop
read_loop-Counts big zero size r h = tt
read_loop-Counts big (suc fuel) size r h = elim (Bool-cases (ltb r.pos size)) [
  | inl e ↦
      rw (read_loop, e)
        (Yields-bind Counts Counts (read_one big r) _ (read_one-Counts big r h)
          (λ s k. read_loop-Counts big fuel size s k))
  | inr e ↦ rw (read_loop, e) h
]

adjust_arg_lem :
    (ps : List (ℕ × ℕ)) (inst : ZInstruction) (o : Option ℕ)
    → Yields (λ (x : ZInstruction). x.idx ≡ inst.idx) (adjust_arg ps inst o)
unfolding adjust_arg
adjust_arg_lem ps inst none = tt
adjust_arg_lem ps inst (some j) =
    Yields-bind (λ (a : ℕ). Unit {0}) _ (idx_at ps (arg inst j)) _
      (anything (idx_at ps (arg inst j)))
      λ i u.
        Yields-bind (λ (a : List ℕ). Unit {0}) _ (store inst.args j i) _
          (anything (store inst.args j i)) (λ a v. refl)

adjust_inst_lem :
    (ps : List (ℕ × ℕ)) (inst : ZInstruction)
    → Yields (λ (x : ZInstruction). x.idx ≡ inst.idx) (adjust_inst ps inst)
unfolding adjust_inst
adjust_inst_lem ps inst = elim (Bool-cases (is_closure_rec inst)) [
  | inl c ↦
      rw (adjust_inst, c)
        (Yields-bind (λ (a : List ℕ). Unit {0}) _ (resolve_fns ps _ inst.closure_rec_fns) _
          (anything _) (λ a u. refl))
  | inr c ↦ elim (Bool-cases (is_switch inst)) [
    | inl w ↦
        rw (adjust_inst, c, w)
          (Yields-bind (λ (a : List ℕ). Unit {0}) _ (resolve_fns ps _ inst.switch_entries) _
            (anything _) (λ a u. refl))
    | inr w ↦ rw (adjust_inst, c, w) (adjust_arg_lem ps inst (code_offset_args inst.op_num))
  ]
]

with_equation {ℓ} : {A : Type ℓ} (o : Option A) → Yields (λ (a : A). o ≡ some a) o
with_equation none = tt
with_equation (some a) = refl

adjust_lem :
    (ps : List (ℕ × ℕ)) (ks : List ℕ) (insts : List ZInstruction)
    → IsNumbered 0 insts
    → Yields (IsNumbered 0) (adjust ps ks insts)
unfolding adjust
adjust_lem ps [] insts h = h
adjust_lem ps (k ∷ ks) insts h =
    Yields-bind (λ (x : ZInstruction). get_elem? insts k ≡ some x) _ (get_elem? insts k) _
      (with_equation (get_elem? insts k))
      λ x e.
        Yields-bind (λ (y : ZInstruction). y.idx ≡ x.idx) _ (adjust_inst ps x) _
          (adjust_inst_lem ps x)
          λ y q. adjust_lem ps ks (set insts k y) (IsNumbered-set 0 k insts x y h e q)

-- Whenever `readInstructions` returns, instruction number `i` of the vector has the index `i`.
pub read_instructions-IsNumbered :
    (big : Bool) (tab : List ℕ) (size : ℕ) (insts : List ZInstruction)
    → read_instructions big tab size ≡ some insts
    → IsNumbered 0 insts
unfolding read_instructions
read_instructions-IsNumbered big tab size insts e = subst (Yields (IsNumbered 0)) e (
    Yields-bind Counts (IsNumbered 0) (read_loop big (suc (length tab)) (size / 4) (start tab)) _
      (read_loop-Counts big (suc (length tab)) (size / 4) (start tab)
        (record { numbered = tt; next_lem = refl }))
      (λ r h. adjust_lem r.positions r.to_adjust r.instructions h.numbered))
