-- ===== src/ModuleCreator/Functions/Cuts.antt =====
-- What `initFunction` takes off the queue, and when the cutting loop ends.
use camll_vm.Base.{
  subst, sym, some_inj, ℕ, suc, ◌≤◌, max, ◌≡◌, refl, ap, ◌∙◌, inl, inr, true, false, ◌&&◌, ◌||◌,
  none, some, List, [], ◌∷◌, ◌++◌, All, length, leb, arith, Bool-cases, Option-cases, ◌>>=◌,
  >>=-eq-some,
}
use camll_vm.Instruction.{
  ZInstruction, get_dest_idx, is_jump_inst, is_push_trap, is_switch, is_return,
}
use camll_vm.ModuleCreator.Functions.{
  Cut, back, next_max_inst_idx, take_function, Fn, function_arity, init_function,
}

-- The jumps, traps and last switch entry of an instruction go no further than `n`.
abbrev pub StaysWithin : ℕ → ZInstruction → Type 0
StaysWithin n inst =
    ((is_jump_inst inst || is_push_trap inst) ≡ true → get_dest_idx inst ≤ n)
    × ((last : ℕ) → is_switch inst ≡ true → back inst.switch_entries ≡ some last → last ≤ n)

next_max_bounds :
    (m m' : ℕ) (inst : ZInstruction)
    → next_max_inst_idx m inst ≡ some m'
    → (m ≤ m') × StaysWithin m' inst
unfolding next_max_inst_idx
next_max_bounds m m' inst h = (ground arith, (ground arith, λ last p q. ground arith))

StaysWithin-mono : (n k : ℕ) (x : ZInstruction) → n ≤ k → StaysWithin n x → StaysWithin k x
StaysWithin-mono n k x le h = (λ p. omega (arith, h.0 p), λ last p q. omega (arith, h.1 last p q))

-- `c` cuts the queue `xs` behind a last instruction of a function: a return, past which no
-- instruction of the function goes.
pub record IsFunctionCut (m : ℕ) (xs : List ZInstruction) (c : Cut) : Type 0 where
  pub whole : c.0 ++ c.1 ≡ xs
  pub front : List ZInstruction
  pub last : ZInstruction
  pub ends : c.0 ≡ front ++ last ∷ []
  pub returns : is_return last ≡ true
  pub within : All (StaysWithin last.idx) c.0
  pub above : m ≤ last.idx

take_one :
    (m m' : ℕ) (x : ZInstruction) (xs : List ZInstruction)
    → next_max_inst_idx m x ≡ some m'
    → (is_return x && leb m' x.idx) ≡ true
    → take_function m (x ∷ xs) ≡ some (x ∷ [], xs)
unfolding take_function
take_one m m' x xs e b = rw e (rw b)

take_more :
    (m m' : ℕ) (x : ZInstruction) (xs : List ZInstruction)
    → next_max_inst_idx m x ≡ some m'
    → (is_return x && leb m' x.idx) ≡ false
    → take_function m (x ∷ xs) ≡ (take_function m' xs >>= λ c. some (x ∷ c.0, c.1))
unfolding take_function
take_more m m' x xs e b = rw e (rw b)

take_none :
    (m : ℕ) (x : ZInstruction) (xs : List ZInstruction)
    → next_max_inst_idx m x ≡ none
    → take_function m (x ∷ xs) ≡ none
unfolding take_function
take_none m x xs e = rw (e, ◌>>=◌)

take_nil : (m : ℕ) → take_function m [] ≡ none
unfolding take_function
take_nil m = refl

cut_one :
    (m m' : ℕ) (x : ZInstruction) (xs : List ZInstruction)
    → next_max_inst_idx m x ≡ some m'
    → (is_return x && leb m' x.idx) ≡ true
    → IsFunctionCut m (x ∷ xs) (x ∷ [], xs)
cut_one m m' x xs e b =
    let bounds = next_max_bounds m m' x e in
    let low : m' ≤ x.idx = ground arith in
    record {
      whole = refl;
      front = [];
      last = x;
      ends = refl;
      returns = ground arith;
      within = (StaysWithin-mono m' x.idx x low bounds.1, tt);
      above = omega arith;
    }

cut_more :
    (m m' : ℕ) (x : ZInstruction) (xs : List ZInstruction) (c : Cut)
    → next_max_inst_idx m x ≡ some m'
    → IsFunctionCut m' xs c
    → IsFunctionCut m (x ∷ xs) (x ∷ c.0, c.1)
cut_more m m' x xs c e r =
    let bounds = next_max_bounds m m' x e in
    record {
      whole = ap (◌∷◌ x) r.whole;
      front = x ∷ r.front;
      last = r.last;
      ends = ap (◌∷◌ x) r.ends;
      returns = r.returns;
      within = (StaysWithin-mono m' r.last.idx x r.above bounds.1, r.within);
      above = omega (arith, bounds.0, r.above);
    }

take_function-IsFunctionCut :
    (m : ℕ) (xs : List ZInstruction) (c : Cut) → take_function m xs ≡ some c → IsFunctionCut m xs c
take_function-IsFunctionCut m [] c h = cc (take_nil m)
take_function-IsFunctionCut m (x ∷ xs) c h = elim (Option-cases (next_max_inst_idx m x)) [
  | inl e ↦ cc (take_none m x xs e)
  | inr (m', e) ↦ elim (Bool-cases (is_return x && leb m' x.idx)) [
    | inl b ↦
        let same : (x ∷ [], xs) ≡ c = some_inj (sym (take_one m m' x xs e b) ∙ h) in
        subst (IsFunctionCut m (x ∷ xs)) same (cut_one m m' x xs e b)
    | inr b ↦
        let (c', t, f) = >>=-eq-some (take_function m' xs) _ (sym (take_more m m' x xs e b) ∙ h) in
        subst (IsFunctionCut m (x ∷ xs)) (some_inj f)
          (cut_more m m' x xs c' e (take_function-IsFunctionCut m' xs c' t))
  ]
]

-- Whenever `initFunction` returns, the function and what is left make up the queue, the function
-- ends with a return, and no jump, trap or last switch entry of it goes past that return.
pub init_function-IsFunctionCut :
    (queue : List ZInstruction) (f : Fn) (rest : List ZInstruction)
    → init_function queue ≡ some (f, rest)
    → IsFunctionCut 0 queue (f.insts, rest)
unfolding init_function
init_function-IsFunctionCut [] f rest h = cc
init_function-IsFunctionCut (x ∷ xs) f rest h =
    let (c, t, e) = >>=-eq-some (take_function 0 (x ∷ xs)) _ h in
    let same : c ≡ (f.insts, rest) = ground arith in
    subst (IsFunctionCut 0 (x ∷ xs)) same (take_function-IsFunctionCut 0 (x ∷ xs) c t)

-- A queue that a function can be cut from.
abbrev pub HasEntries : ZInstruction → Type 0
HasEntries inst = is_switch inst ≡ true → (last : ℕ) × (back inst.switch_entries ≡ some last)

next_max_within :
    (m n : ℕ) (x : ZInstruction)
    → m ≤ n
    → StaysWithin n x
    → HasEntries x
    → (m' : ℕ) × (next_max_inst_idx m x ≡ some m') × (m' ≤ n)
next_max_within m n x le within entries = elim (Bool-cases (is_switch x)) [
  | inl b ↦
      let (last, e) = entries b in
      let le' = within.1 last b e in
      elim (Bool-cases (is_jump_inst x || is_push_trap x)) [
        | inl j ↦ (
          max (max m (get_dest_idx x)) last,
          unfold next_max_inst_idx in rw (j, b, e),
          omega (arith, within.0 j),
        )
        | inr j ↦ (max m last, unfold next_max_inst_idx in rw (j, b, e), omega arith)
      ]
  | inr b ↦ elim (Bool-cases (is_jump_inst x || is_push_trap x)) [
    | inl j ↦
        (max m (get_dest_idx x), unfold next_max_inst_idx in rw (j, b), omega (arith, within.0 j))
    | inr j ↦ (m, unfold next_max_inst_idx in rw (j, b), le)
  ]
]

take_function_returns :
    (m : ℕ) (front : List ZInstruction) (last : ZInstruction) (rest : List ZInstruction)
    → is_return last ≡ true
    → m ≤ last.idx
    → All (λ (x : ZInstruction). StaysWithin last.idx x × HasEntries x) (front ++ last ∷ [])
    → (c : Cut) × (take_function m (front ++ last ∷ rest) ≡ some c)
      × (length c.0 ≤ suc (length front))
take_function_returns m [] last rest r le all =
    let (m', e, le') = next_max_within m last.idx last le all.0.0 all.0.1 in
    ((last ∷ [], rest), take_one m m' last rest e (ground arith), omega arith)
take_function_returns m (x ∷ front) last rest r le all =
    let (m', e, le') = next_max_within m last.idx x le all.0.0 all.0.1 in
    elim (Bool-cases (is_return x && leb m' x.idx)) [
      | inl b ↦
          ((x ∷ [], front ++ last ∷ rest), take_one m m' x (front ++ last ∷ rest) e b, omega arith)
      | inr b ↦
          let (c, t, l) = take_function_returns m' front last rest r le' all.1 in
          ((x ∷ c.0, c.1), take_more m m' x (front ++ last ∷ rest) e b ∙ rw t, omega arith)
    ]

-- On a queue with a return that no instruction before it goes past (and no empty switch before
-- it), `initFunction` returns, and takes nothing behind that return.
pub init_function_returns :
    (front : List ZInstruction) (last : ZInstruction) (rest : List ZInstruction)
    → is_return last ≡ true
    → All (λ (x : ZInstruction). StaysWithin last.idx x × HasEntries x) (front ++ last ∷ [])
    → (f : Fn) × (rest' : List ZInstruction) × (init_function (front ++ last ∷ rest)
        ≡ some (f, rest'))
      × (length f.insts ≤ suc (length front))
unfolding init_function
init_function_returns [] last rest r all =
    let (c, t, l) = take_function_returns 0 [] last rest r (omega arith) all in
    (record { id = last.idx; arity = function_arity last; insts = c.0 }, c.1, rw t, l)
init_function_returns (x ∷ front) last rest r all =
    let (c, t, l) = take_function_returns 0 (x ∷ front) last rest r (omega arith) all in
    (record { id = x.idx; arity = function_arity x; insts = c.0 }, c.1, rw t, l)
