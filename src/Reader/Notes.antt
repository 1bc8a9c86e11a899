-- ===== src/Reader/Notes.antt =====
-- What `readInstructions` (src/Instructions.cpp) notes for its second loop.
use camll_vm.Base.{
  ℕ, zero, suc, ◌+◌, ◌<◌, ◌≤◌, ◌≡◌, refl, ap, ◌∙◌, subst, Bool, true, false, ◌||◌, Bool-cases, inl,
  inr, ◌⊎◌, none, some, List, [], ◌∷◌, ◌++◌, length, ◌==◌, ==_refl, some_inj, Yields, Yields-bind,
  Yields-mono, if◌then◌else◌, arith,
}
use camll_vm.Endian.{to_big_endian}
use camll_vm.Opcode.{Opcode, arity}
use camll_vm.Instruction.{ZInstruction, code_offset_args, is_closure_rec, is_switch}
use camll_vm.Reader.{
  Reader, store, is_offset_arg, next_word, read_args, read_closure_rec, read_switch, read_offsets,
}
use camll_vm.Reader.Numbering.{anything}
use camll_vm.Reader.Resolved.{IsResolved, has, Pending, AllBelow}

pub code_offset_args-lt : (op : Opcode) (k : ℕ) → code_offset_args op ≡ some k → k < arity op
unfolding code_offset_args arity
code_offset_args-lt Opcode.push_retaddr k h = let e : 0 ≡ k = some_inj h in omega (arith, e)
code_offset_args-lt Opcode.closure k h = let e : 1 ≡ k = some_inj h in omega (arith, e)
code_offset_args-lt Opcode.branch k h = let e : 0 ≡ k = some_inj h in omega (arith, e)
code_offset_args-lt Opcode.branchif k h = let e : 0 ≡ k = some_inj h in omega (arith, e)
code_offset_args-lt Opcode.branchifnot k h = let e : 0 ≡ k = some_inj h in omega (arith, e)
code_offset_args-lt Opcode.pushtrap k h = let e : 0 ≡ k = some_inj h in omega (arith, e)
code_offset_args-lt Opcode.beq k h = let e : 1 ≡ k = some_inj h in omega (arith, e)
code_offset_args-lt Opcode.bneq k h = let e : 1 ≡ k = some_inj h in omega (arith, e)
code_offset_args-lt Opcode.bltint k h = let e : 1 ≡ k = some_inj h in omega (arith, e)
code_offset_args-lt Opcode.bleint k h = let e : 1 ≡ k = some_inj h in omega (arith, e)
code_offset_args-lt Opcode.bgtint k h = let e : 1 ≡ k = some_inj h in omega (arith, e)
code_offset_args-lt Opcode.bgeint k h = let e : 1 ≡ k = some_inj h in omega (arith, e)
code_offset_args-lt Opcode.bultint k h = let e : 1 ≡ k = some_inj h in omega (arith, e)
code_offset_args-lt Opcode.bugeint k h = let e : 1 ≡ k = some_inj h in omega (arith, e)
code_offset_args-lt op k h = absurd (cc)

-- What has been noted for the second loop stays noted.
abbrev pub Grows : List ℕ → List ℕ → Type 0
Grows ks ks' = (x : ℕ) → has x ks ≡ true → has x ks' ≡ true

pub has-append : (x y : ℕ) (ks : List ℕ) → has x ks ≡ true → has x (ks ++ y ∷ []) ≡ true
has-append x y [] h = absurd (cc)
has-append x y (k ∷ ks) h = elim (Bool-cases (x == k)) [
  | inl t ↦ rw t refl
  | inr f ↦ rw f (has-append x y ks (rw f at h))
]

pub has-last : (x : ℕ) (ks : List ℕ) → has x (ks ++ x ∷ []) ≡ true
has-last x [] = rw (==_refl x) refl
has-last x (k ∷ ks) = elim (Bool-cases (x == k)) [
  | inl t ↦ rw t refl
  | inr f ↦ rw f (has-last x ks)
]

pub Pending-Grows :
    (n : ℕ) (ks ks' : List ℕ) (k : ℕ) (xs : List ZInstruction)
    → Grows ks ks'
    → Pending n ks k xs
    → Pending n ks' k xs
Pending-Grows n ks ks' k [] g p = tt
Pending-Grows n ks ks' k (x ∷ xs) g (inl h, p) =
    (inl (g k h), Pending-Grows n ks ks' (suc k) xs g p)
Pending-Grows n ks ks' k (x ∷ xs) g (inr h, p) = (inr h, Pending-Grows n ks ks' (suc k) xs g p)

pub Pending-append :
    (n : ℕ) (ks : List ℕ) (k : ℕ) (xs : List ZInstruction) (x : ZInstruction)
    → (has (k + length xs) ks ≡ true) ⊎ IsResolved n x
    → Pending n ks k xs
    → Pending n ks k (xs ++ x ∷ [])
Pending-append n ks k [] x h p =
    let here : k + 0 ≡ k = omega arith in
    (subst (λ (i : ℕ). (has i ks ≡ true) ⊎ IsResolved n x) here h, tt)
Pending-append n ks k (y ∷ ys) x h p =
    let there : k + suc (length ys) ≡ suc k + length ys = omega arith in
    (
      p.0,
      Pending-append n ks (suc k) ys x
          (subst (λ (i : ℕ). (has i ks ≡ true) ⊎ IsResolved n x) there h) p.1,
    )

pub length-append_one :
    (xs : List ZInstruction) (x : ZInstruction) → length (xs ++ x ∷ []) ≡ suc (length xs)
length-append_one [] x = refl
length-append_one (y ∷ ys) x = ap suc (length-append_one ys x)

pub AllBelow-suc : (n : ℕ) (ps : List (ℕ × ℕ)) → AllBelow n ps → AllBelow (suc n) ps
AllBelow-suc n [] a = tt
AllBelow-suc n (p ∷ ps) a = (omega (arith, a.0), AllBelow-suc n ps a.1)

-- The instruction keeps its opcode, and the reader its vector, positions and notes.
pub record IsReadOn (inst : ZInstruction) (r : Reader) (s : ZInstruction × Reader) : Type 0 where
  pub op_lem : s.0.op_num ≡ inst.op_num
  pub insts_lem : s.1.instructions ≡ r.instructions
  pub positions_lem : s.1.positions ≡ r.positions
  pub counter_lem : s.1.counter ≡ r.counter
  pub grows_lem : Grows r.to_adjust s.1.to_adjust

abbrev pub IsSame : Reader → ℕ × Reader → Type 0
IsSame r s =
    (s.1.instructions ≡ r.instructions)
    × (s.1.positions ≡ r.positions)
    × (s.1.to_adjust ≡ r.to_adjust)
    × (s.1.counter ≡ r.counter)

module _ (big : Bool) where
  word_lem :
      (r : Reader) (t : List ℕ)
      → Yields (IsSame r) (elim t [
        | [] ↦ none
        | w ∷ rest ↦ some (to_big_endian big w, record r { tab = rest; offset = r.offset + 1 })
      ])
  word_lem r [] = tt
  word_lem r (w ∷ rest) = (refl, refl, refl, refl)

  pub next_word_lem : (r : Reader) → Yields (IsSame r) (next_word big r)
  unfolding next_word
  next_word_lem r = word_lem r r.tab

  later :
      (inst : ZInstruction) (r : Reader) (w : ℕ × Reader)
      → IsSame r w
      → {inst' : ZInstruction} → (t : ZInstruction × Reader) → IsReadOn inst' w.1 t
      → inst'.op_num ≡ inst.op_num
      → IsReadOn inst r t
  later inst r w h t p e = record {
    op_lem = p.op_lem ∙ e;
    insts_lem = p.insts_lem ∙ h.0;
    positions_lem = p.positions_lem ∙ h.1;
    counter_lem = p.counter_lem ∙ h.3;
    grows_lem = λ x q. p.grows_lem x (rw h.2 q);
  }

  -- With `n` rounds left from the argument `j` on, the note of a code offset among them is taken.
  abbrev pub IsNoted : ℕ → ℕ → ℕ → ZInstruction → ZInstruction × Reader → Type 0
  IsNoted n j m inst s =
      (k : ℕ)
      → code_offset_args inst.op_num ≡ some k
      → j ≤ k
      → k < j + n
      → has m s.1.to_adjust ≡ true

  noted-Grows : (coded : Bool) (ks : List ℕ) (m : ℕ) → Grows ks (if coded then ks ++ m ∷ [] else ks)
  noted-Grows true ks m x h = has-append x m ks h
  noted-Grows false ks m x h = h

  pub read_args_lem :
      (n j m : ℕ) (inst : ZInstruction) (r : Reader)
      → Yields
          (λ (s : ZInstruction × Reader). IsReadOn inst r s × IsNoted n j m inst s)
          (read_args big n j m inst r)
  unfolding read_args
  read_args_lem zero j m inst r = (
    record {
      op_lem = refl;
      insts_lem = refl;
      positions_lem = refl;
      counter_lem = refl;
      grows_lem = λ x h. h;
    },
    λ k e l u. absurd (omega (arith, l, u)),
  )
  read_args_lem (suc n) j m inst r =
      Yields-bind (IsSame r) _ (next_word big r) _ (next_word_lem r) λ s h.
        Yields-bind (λ (a : List ℕ). Unit {0}) _ (store inst.args j _) _
          (anything (store inst.args j _))
          λ args u.
            Yields-mono _
              (λ (t : ZInstruction × Reader). IsReadOn inst r t × IsNoted (suc n) j m inst t) _
              (read_args_lem n (j + 1) m _ _)
              (λ t p. (
                record {
                  op_lem = p.0.op_lem;
                  insts_lem = p.0.insts_lem ∙ h.0;
                  positions_lem = p.0.positions_lem ∙ h.1;
                  counter_lem = p.0.counter_lem ∙ h.3;
                  grows_lem = λ x q. p.0.grows_lem x (noted-Grows coded r.to_adjust m x q);
                },
                λ k e l v. elim (Bool-cases (k == j)) [
                  | inl same ↦ p.0.grows_lem m (first k e same r.to_adjust)
                  | inr apart ↦ p.1 k e (ground arith) (omega (arith, v))
                ],
              ))
    where
      coded : Bool
      coded = is_offset_arg (code_offset_args inst.op_num) j

      first :
          (k : ℕ)
          → code_offset_args inst.op_num ≡ some k
          → (k == j) ≡ true
          → (ks : List ℕ) → has m (if coded then ks ++ m ∷ [] else ks) ≡ true
      first k e same ks = let on : coded ≡ true = rw e same in rw on (has-last m ks)

  read_closure_rec_lem :
      (n j base : ℕ) (inst : ZInstruction) (r : Reader)
      → Yields (IsReadOn inst r) (read_closure_rec big n j base inst r)
  unfolding read_closure_rec
  read_closure_rec_lem zero j base inst r = record {
    op_lem = refl;
    insts_lem = refl;
    positions_lem = refl;
    counter_lem = refl;
    grows_lem = λ x h. h;
  }
  read_closure_rec_lem (suc n) j base inst r =
      Yields-bind (IsSame r) _ (next_word big r) _ (next_word_lem r) λ s h.
        Yields-bind (λ (a : List ℕ). Unit {0}) _ (store inst.closure_rec_fns j _) _
          (anything (store inst.closure_rec_fns j _))
          λ fns u.
            Yields-mono _ _ _ (read_closure_rec_lem n (j + 1) base _ _)
              (λ t p. later inst r s h t p refl)

  read_switch_lem :
      (n base : ℕ) (inst : ZInstruction) (r : Reader)
      → Yields (IsReadOn inst r) (read_switch big n base inst r)
  unfolding read_switch
  read_switch_lem zero base inst r = record {
    op_lem = refl;
    insts_lem = refl;
    positions_lem = refl;
    counter_lem = refl;
    grows_lem = λ x h. h;
  }
  read_switch_lem (suc n) base inst r =
      Yields-bind (IsSame r) _ (next_word big r) _ (next_word_lem r)
        λ s h. Yields-mono _ _ _ (read_switch_lem n base _ _) (λ t p. later inst r s h t p refl)

  -- The note of an instruction with offsets is taken.
  abbrev pub IsNotedAt : ℕ → Bool → ZInstruction × Reader → Type 0
  IsNotedAt m with_offsets s = with_offsets ≡ true → has m s.1.to_adjust ≡ true

  pub read_offsets_lem :
      (m : ℕ) (inst : ZInstruction) (r : Reader) (offsets : Bool)
      → offsets ≡ (is_closure_rec inst || is_switch inst)
      → Yields
          (λ (s : ZInstruction × Reader). IsReadOn inst r s × IsNotedAt m offsets s)
          (read_offsets big m inst r)
  unfolding read_offsets
  read_offsets_lem m inst r offsets e = elim (Bool-cases (is_closure_rec inst)) [
    | inl c ↦
        rw (read_offsets, c)
          (Yields-bind (IsReadOn inst r) _ (read_closure_rec big _ 0 _ inst r) _
            (read_closure_rec_lem _ 0 _ inst r) noted)
    | inr c ↦ elim (Bool-cases (is_switch inst)) [
      | inl w ↦
          rw (read_offsets, c, w)
            (Yields-bind (IsReadOn inst r) _ (read_switch big _ _ inst r) _
              (read_switch_lem _ _ inst r) noted)
      | inr w ↦
          rw (read_offsets, c, w)
            (
              record {
                op_lem = refl;
                insts_lem = refl;
                positions_lem = refl;
                counter_lem = refl;
                grows_lem = λ x h. h;
              },
              λ h. let no : offsets ≡ false = rw (c, w) at e in absurd (cc),
            )
    ]
  ]
    where
      noted :
          {pos : ℕ}
          → (s : ZInstruction × Reader) → IsReadOn inst r s
          → (let t = record s.1 { pos = pos; to_adjust = s.1.to_adjust ++ m ∷ [] } in
              IsReadOn inst r (s.0, t) × IsNotedAt m offsets (s.0, t))
      noted s p = (
        record {
          op_lem = p.op_lem;
          insts_lem = p.insts_lem;
          positions_lem = p.positions_lem;
          counter_lem = p.counter_lem;
          grows_lem = λ x h. has-append x m s.1.to_adjust (p.grows_lem x h);
        },
        λ h. has-last m s.1.to_adjust,
      )
