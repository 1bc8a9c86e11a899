-- ===== src/Reader/Resolved.antt =====
-- What the second loop of `readInstructions` (src/Instructions.cpp) makes of the code offsets.
use camll_vm.Base.{
  ℕ, zero, suc, ◌+◌, ◌<◌, ◌≡◌, ◌≢◌, refl, sym, ap, ◌∙◌, subst, Bool, true, false, ◌||◌, Bool-cases,
  Option-cases, length-set, inl, inr, ◌⊎◌, Option, none, some, List, [], ◌∷◌, length, get_elem?,
  set, All, ltb, ltb→lt, ◌==◌, >>=-eq-some, some_inj, arith,
}
use camll_vm.Instruction.{
  ZInstruction, arg, get_or_zero, rounds, code_offset_args, is_closure_rec, is_switch,
}
use camll_vm.Reader.{store, idx_at, resolve_fns, adjust_arg, adjust_inst, adjust}

-- The first `k` are below `n`.
abbrev pub FirstBelow : ℕ → ℕ → List ℕ → Type 0
FirstBelow n zero xs = Unit {0}
FirstBelow n (suc k) [] = Unit
FirstBelow n (suc k) (x ∷ xs) = (x < n) × FirstBelow n k xs

abbrev pub Resolves : ℕ → ZInstruction → Bool → Bool → Option ℕ → Type 0
Resolves n inst true s o = FirstBelow n (rounds (arg inst 0)) inst.closure_rec_fns
Resolves n inst false true o = FirstBelow n (length inst.switch_entries) inst.switch_entries
Resolves n inst false false none = Unit
Resolves n inst false false (some j) = arg inst j < n

-- The code offsets of the instruction are below `n`: its closures, its switch entries, or its argument.
abbrev pub IsResolved : ℕ → ZInstruction → Type 0
IsResolved n inst =
    Resolves n inst (is_closure_rec inst) (is_switch inst) (code_offset_args inst.op_num)

abbrev pub has : ℕ → List ℕ → Bool
has k [] = false
has k (x ∷ xs) = k == x || has k xs

-- From number `k` on, each instruction is yet to be adjusted or has its code offsets below `n`.
abbrev pub Pending : ℕ → List ℕ → ℕ → List ZInstruction → Type 0
Pending n ks k [] = Unit {0}
Pending n ks k (x ∷ xs) = ((has k ks ≡ true) ⊎ IsResolved n x) × Pending n ks (suc k) xs

abbrev pub AllBelow : ℕ → List (ℕ × ℕ) → Type 0
AllBelow n ps = All (λ (q : ℕ × ℕ). q.1 < n) ps

idx_at-lt : (n : ℕ) (ps : List (ℕ × ℕ)) (p i : ℕ) → AllBelow n ps → idx_at ps p ≡ some i → i < n
unfolding idx_at
idx_at-lt n [] p i a h = absurd (cc)
idx_at-lt n ((q, j) ∷ ps) p i a h = elim (Bool-cases (q == p)) [
  | inl t ↦ let same : j ≡ i = some_inj (rw (idx_at, t) at h) in omega (arith, same, a.0)
  | inr f ↦ idx_at-lt n ps p i a.1 (rw (idx_at, f) at h)
]

resolve_fns-FirstBelow :
    (n : ℕ) (ps : List (ℕ × ℕ)) (k : ℕ) (fns out : List ℕ)
    → AllBelow n ps
    → resolve_fns ps k fns ≡ some out
    → FirstBelow n k out × (length out ≡ length fns)
unfolding resolve_fns
resolve_fns-FirstBelow n ps zero fns out a h =
    (tt, ap (λ (xs : List ℕ). length xs) (sym (some_inj h)))
resolve_fns-FirstBelow n ps (suc k) [] out a h = absurd (cc)
resolve_fns-FirstBelow n ps (suc k) (f ∷ fns) out a h =
    let (i, found, h₁) = >>=-eq-some (idx_at ps f) _ h in
    let (rest, more, h₂) = >>=-eq-some (resolve_fns ps k fns) _ h₁ in
    let (below, same) = resolve_fns-FirstBelow n ps k fns rest a more in
    subst (λ (xs : List ℕ). FirstBelow n (suc k) xs × (length xs ≡ length (f ∷ fns))) (some_inj h₂)
      ((idx_at-lt n ps f i a found, below), ap suc same)

get_or_zero-set : (xs : List ℕ) (i v : ℕ) → i < length xs → get_or_zero (set xs i v) i ≡ v
get_or_zero-set [] i v h = absurd (omega arith)
get_or_zero-set (x ∷ xs) zero v h = refl
get_or_zero-set (x ∷ xs) (suc i) v h = get_or_zero-set xs i v (omega arith)

adjust_arg-lt :
    (n : ℕ) (ps : List (ℕ × ℕ)) (inst out : ZInstruction) (j : ℕ)
    → AllBelow n ps
    → adjust_arg ps inst (some j) ≡ some out
    → (inst.op_num ≡ out.op_num) × (inst.closure_rec_fns ≡ out.closure_rec_fns) × (arg out j < n)
unfolding adjust_arg
adjust_arg-lt n ps inst out j a h =
    let (i, found, h₁) = >>=-eq-some (idx_at ps (arg inst j)) _ h in
    let (args, stored, h₂) = >>=-eq-some (store inst.args j i) _ h₁ in
    let same : record inst { args = args } ≡ out = some_inj h₂ in
    let args_lem : args ≡ out.args = ap (λ (x : ZInstruction). x.args) same in
    (
      ap (λ (x : ZInstruction). x.op_num) same,
      ap (λ (x : ZInstruction). x.closure_rec_fns) same,
      rw (sym args_lem) (written args i stored (idx_at-lt n ps (arg inst j) i a found)),
    )
  where
    written :
        (args : List ℕ) (i : ℕ) → store inst.args j i ≡ some args → i < n → get_or_zero args j < n
    written args i e lt = elim (Bool-cases (ltb j (length inst.args))) [
      | inl t ↦
          let set_lem : set inst.args j i ≡ args = some_inj (rw t at e) in
          let value = get_or_zero-set inst.args j i (ltb→lt j (length inst.args) t) in
          rw (sym set_lem) (omega (arith, value))
      | inr f ↦ let no = rw f at e in absurd (cc)
    ]

adjust_inst-IsResolved :
    (n : ℕ) (ps : List (ℕ × ℕ)) (inst out : ZInstruction)
    → AllBelow n ps
    → adjust_inst ps inst ≡ some out
    → IsResolved n out
unfolding adjust_inst adjust_arg
adjust_inst-IsResolved n ps inst out a h = elim (Bool-cases (is_closure_rec inst)) [
  | inl c ↦
      let (fns, made, h₁) =
        >>=-eq-some (resolve_fns ps (rounds (arg inst 0)) inst.closure_rec_fns) _ (rw c at h) in
      let below =
        (resolve_fns-FirstBelow n ps (rounds (arg inst 0)) inst.closure_rec_fns fns a made).0 in
      subst (IsResolved n) (some_inj h₁) (rw c below)
  | inr c ↦ elim (Bool-cases (is_switch inst)) [
    | inl w ↦
        let (entries, made, h₁) =
          >>=-eq-some (resolve_fns ps (length inst.switch_entries) inst.switch_entries) _
            (rw (c, w) at h) in
        let (below, same) =
          resolve_fns-FirstBelow n ps (length inst.switch_entries) inst.switch_entries entries a
            made in
        subst (IsResolved n) (some_inj h₁) (rw (c, w, same) below)
    | inr w ↦ elim (Option-cases (code_offset_args inst.op_num)) [
      | inl missing ↦ let no : none ≡ some out = rw (c, w, missing) at h in absurd (cc)
      | inr (j, known) ↦
          let e : adjust_arg ps inst (some j) ≡ some out = rw known at (rw (c, w) at h) in
          let (made, _, below) = adjust_arg-lt n ps inst out j a e in
          rw (sym made, c, w, known) below
    ]
  ]
]

-- From number `k` on, adjusting `k₀` leaves the others pending.
Pending-set :
    (n k₀ : ℕ) (ks : List ℕ) (k : ℕ) (xs : List ZInstruction) (x : ZInstruction)
    → IsResolved n x
    → Pending n (k₀ ∷ ks) k xs
    → ((i : ℕ) → k + i ≡ k₀ → Pending n ks k (set xs i x)) × (k₀ < k → Pending n ks k xs)
Pending-set n k₀ ks k [] x r p = (λ i e. tt, λ lt. tt)
Pending-set n k₀ ks k (y ∷ ys) x r p =
    let more = Pending-set n k₀ ks (suc k) ys x r p.1 in
    (at more, λ lt. (other (omega arith) p.0, more.1 (omega arith)))
  where
    other :
        k ≢ k₀
        → ((k == k₀ || has k ks) ≡ true) ⊎ IsResolved n y
        → (has k ks ≡ true) ⊎ IsResolved n y
    other d (inl h) = let apart : (k == k₀) ≡ false = ground arith in inl (rw apart at h)
    other d (inr h) = inr h

    at :
        ((i : ℕ) → suc k + i ≡ k₀ → Pending n ks (suc k) (set ys i x))
          × (k₀ < suc k → Pending n ks (suc k) ys)
        → (i : ℕ) → k + i ≡ k₀
        → Pending n ks k (set (y ∷ ys) i x)
    at more zero e = (inr r, more.1 (omega arith))
    at more (suc i) e = (other (omega arith) p.0, more.0 i (omega arith))

Pending-All : (n k : ℕ) (xs : List ZInstruction) → Pending n [] k xs → All (IsResolved n) xs
Pending-All n k [] p = tt
Pending-All n k (x ∷ xs) (inl h, p) = absurd (cc)
Pending-All n k (x ∷ xs) (inr h, p) = (h, Pending-All n (suc k) xs p)

pub adjust-IsResolved :
    (n : ℕ) (ps : List (ℕ × ℕ)) (ks : List ℕ) (insts out : List ZInstruction)
    → AllBelow n ps
    → Pending n ks 0 insts
    → adjust ps ks insts ≡ some out
    → All (IsResolved n) out × (length out ≡ length insts)
unfolding adjust
adjust-IsResolved n ps [] insts out a p h =
    subst (λ (xs : List ZInstruction). All (IsResolved n) xs × (length xs ≡ length insts))
      (some_inj h) (Pending-All n 0 insts p, refl)
adjust-IsResolved n ps (k ∷ ks) insts out a p h =
    let (inst, found, h₁) = >>=-eq-some (get_elem? insts k) _ h in
    let (inst', made, h₂) = >>=-eq-some (adjust_inst ps inst) _ h₁ in
    let r = adjust_inst-IsResolved n ps inst inst' a made in
    let still = (Pending-set n k ks 0 insts inst' r p).0 k (omega arith) in
    let (all, same) = adjust-IsResolved n ps ks (set insts k inst') out a still h₂ in
    (all, same ∙ length-set insts k inst')
