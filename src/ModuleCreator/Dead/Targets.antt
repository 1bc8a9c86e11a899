-- ===== src/ModuleCreator/Dead/Targets.antt =====
-- Which jump targets `removeDeadInstructions` keeps.
use mathlib.Core.List.{Memᴰ}
use mathlib.Core.List.Memᴰ.{cases_cons}
use camll_vm.Base.{
  ℕ, suc, ◌≤◌, ◌<◌, ◌≡◌, refl, ap, ◌∙◌, inl, inr, Bool, true, false, ◌||◌, some, List, [], ◌∷◌,
  ◌++◌, All, arith, Bool-cases,
}
use camll_vm.Opcode.{Opcode}
use camll_vm.Instruction.{
  ZInstruction, arg, get_dest_idx, is_cond_jump, is_push_trap, is_uncond_jump, is_branch_op,
  is_pushtrap_op, code_offset_args,
}
use camll_vm.ModuleCreator.Order.{IsIncreasing, le-mem}
use camll_vm.ModuleCreator.Dead.{
  stays, next_smallest, next_max, remove_dead_from, remove_dead_instructions,
}

-- An instruction that may go on at its target: a conditional jump, a `BRANCH`, a `PUSHTRAP`.
abbrev pub may_jump : ZInstruction → Bool
may_jump inst = is_cond_jump inst || is_push_trap inst || is_uncond_jump inst

-- No jump goes to the very first instruction of the program.
abbrev pub HasPositiveTargets : List ZInstruction → Type 0
HasPositiveTargets [] = Unit {0}
HasPositiveTargets (x ∷ xs) = (may_jump x ≡ true → 0 < get_dest_idx x) × HasPositiveTargets xs

kept :
    (m s : ℕ) (x : ZInstruction) (xs : List ZInstruction)
    → stays m s x.idx ≡ true
    → remove_dead_from m s (x ∷ xs) ≡ x ∷ remove_dead_from (next_max m x) (next_smallest s x) xs
unfolding remove_dead_from
kept m s x xs h = ground arith

dropped :
    (m s : ℕ) (x : ZInstruction) (xs : List ZInstruction)
    → stays m s x.idx ≡ false
    → remove_dead_from m s (x ∷ xs) ≡ remove_dead_from m s xs
unfolding remove_dead_from
dropped m s x xs h = ground arith

branch_dest : (op : Opcode) → is_branch_op op ≡ true → code_offset_args op ≡ some 0
unfolding code_offset_args
branch_dest Opcode.branch h = refl
branch_dest _ h = cc

dest-branch : (x : ZInstruction) → is_uncond_jump x ≡ true → get_dest_idx x ≡ arg x 0
unfolding get_dest_idx
dest-branch x h = rw (branch_dest x.op_num h)

next_smallest_bounds :
    (s : ℕ) (x : ZInstruction)
    → (may_jump x ≡ true → 0 < get_dest_idx x)
    → 0 < s
    → (0 < next_smallest s x) × (next_smallest s x ≤ s)
unfolding next_smallest
next_smallest_bounds s x pos h = ground arith

next_smallest_jump :
    (s : ℕ) (x : ZInstruction)
    → (is_cond_jump x || is_push_trap x) ≡ true
    → 0 < get_dest_idx x
    → (0 < next_smallest s x) × (next_smallest s x ≤ get_dest_idx x)
unfolding next_smallest
next_smallest_jump s x j pos = ground arith

-- What stays once a conditional jump to its index or below has been met.
keeps_after_cond :
    (m s : ℕ) (t : ZInstruction) (xs : List ZInstruction)
    → HasPositiveTargets xs
    → 0 < s
    → s ≤ t.idx
    → Memᴰ t xs
    → Memᴰ t (remove_dead_from m s xs)
keeps_after_cond m s t [] ps pos le mem = elim mem [ ]
keeps_after_cond m s t (x ∷ xs) ps pos le (Memᴰ.head e) =
    rw (kept m s x xs (ground (arith, ap (λ (i : ZInstruction). i.idx) e))) (Memᴰ.head e)
keeps_after_cond m s t (x ∷ xs) ps pos le (Memᴰ.tail r) =
    let b = next_smallest_bounds s x ps.0 pos in
    let later = keeps_after_cond (next_max m x) (next_smallest s x) t xs ps.1 b.0 (omega arith) r in
    elim (Bool-cases (stays m s x.idx)) [
      | inl h ↦ rw (kept m s x xs h) (Memᴰ.tail later)
      | inr h ↦ rw (dropped m s x xs h) (keeps_after_cond m s t xs ps.1 pos le r)
    ]

next_max-branch :
    (m : ℕ) (x : ZInstruction) → is_uncond_jump x ≡ true → next_max m x ≡ get_dest_idx x
unfolding next_max
next_max-branch m x h = ground (arith, dest-branch x h)

next_max-other : (m : ℕ) (x : ZInstruction) → is_uncond_jump x ≡ false → next_max m x ≡ m
unfolding next_max
next_max-other m x h = ground arith

-- What stays after an unconditional jump to its index.
keeps_after_branch :
    (m s k : ℕ) (t : ZInstruction) (xs : List ZInstruction)
    → IsIncreasing k xs
    → HasPositiveTargets xs
    → m ≡ t.idx
    → Memᴰ t xs
    → Memᴰ t (remove_dead_from m s xs)
keeps_after_branch m s k t [] inc ps le mem = elim mem [ ]
keeps_after_branch m s k t (x ∷ xs) inc ps e (Memᴰ.head p) =
    rw (kept m s x xs (ground (arith, ap (λ (i : ZInstruction). i.idx) p))) (Memᴰ.head p)
keeps_after_branch m s k t (x ∷ xs) inc ps e (Memᴰ.tail r) =
    let above = le-mem (suc x.idx) xs inc.1 r in
    let same = keeps_after_branch m s (suc x.idx) t xs inc.1 ps.1 e r in
    elim (Bool-cases (stays m s x.idx)) [
      | inl h ↦ rw (kept m s x xs h) (Memᴰ.tail (later h above))
      | inr h ↦ rw (dropped m s x xs h) same
    ]
  where
    later :
        stays m s x.idx ≡ true
        → x.idx < t.idx
        → Memᴰ t (remove_dead_from (next_max m x) (next_smallest s x) xs)
    later h above =
        let low : (0 < s) × (s ≤ x.idx) = ground arith in
        let b = next_smallest_bounds s x ps.0 low.0 in
        keeps_after_cond (next_max m x) (next_smallest s x) t xs ps.1 b.0 (omega arith) r

keeps_target_of :
    (m s : ℕ) (j t : ZInstruction) (xs : List ZInstruction)
    → IsIncreasing (suc j.idx) xs
    → HasPositiveTargets xs
    → may_jump j ≡ true
    → 0 < get_dest_idx j
    → get_dest_idx j ≡ t.idx
    → Memᴰ t xs
    → Memᴰ t (remove_dead_from (next_max m j) (next_smallest s j) xs)
keeps_target_of m s j t xs inc ps jumps pos e mem =
    elim (Bool-cases (is_cond_jump j || is_push_trap j)) [
      | inl c ↦
          let b = next_smallest_jump s j c pos in
          keeps_after_cond (next_max m j) (next_smallest s j) t xs ps b.0 (omega arith) mem
      | inr c ↦
          let u : is_uncond_jump j ≡ true = ground arith in
          keeps_after_branch (next_max m j) (next_smallest s j) (suc j.idx) t xs inc ps
            (next_max-branch m j u ∙ e) mem
    ]

-- What `removeDeadInstructions` keeps was there.
pub mem_of_mem-remove_dead :
    (m s : ℕ) {j : ZInstruction} (xs : List ZInstruction)
    → Memᴰ j (remove_dead_from m s xs)
    → Memᴰ j xs
unfolding remove_dead_from
mem_of_mem-remove_dead m s [] h = h
mem_of_mem-remove_dead m s (x ∷ xs) h = elim (Bool-cases (stays m s x.idx)) [
  | inl b ↦ elim (cases_cons (rw (kept m s x xs b) at h)) [
    | inl e ↦ Memᴰ.head e
    | inr r ↦ Memᴰ.tail (mem_of_mem-remove_dead (next_max m x) (next_smallest s x) xs r)
  ]
  | inr b ↦ Memᴰ.tail (mem_of_mem-remove_dead m s xs (rw (dropped m s x xs b) at h))
]

idx_of : {i j : ZInstruction} → i ≡ j → i.idx ≡ j.idx
idx_of e = ap (λ (i : ZInstruction). i.idx) e

keeps_from :
    (m s k : ℕ) (j t : ZInstruction) (xs : List ZInstruction)
    → IsIncreasing k xs
    → HasPositiveTargets xs
    → may_jump j ≡ true
    → get_dest_idx j ≡ t.idx
    → j.idx < t.idx
    → Memᴰ t xs
    → Memᴰ j (remove_dead_from m s xs)
    → Memᴰ t (remove_dead_from m s xs)
keeps_from m s k j t [] inc ps jumps e lt mem jm = elim mem [ ]
keeps_from m s k j t (x ∷ xs) inc ps jumps e lt (Memᴰ.head p) jm =
    elim (cases_cons (mem_of_mem-remove_dead m s (x ∷ xs) jm)) [
      | inl q ↦ absurd (omega (arith, idx_of p, idx_of q))
      | inr r ↦ absurd (omega (arith, idx_of p, le-mem (suc x.idx) xs inc.1 r))
    ]
keeps_from m s k j t (x ∷ xs) inc ps jumps e lt (Memᴰ.tail r) jm =
    elim (Bool-cases (stays m s x.idx)) [
      | inl h ↦ rw (kept m s x xs h) (
          Memᴰ.tail (elim (cases_cons (rw (kept m s x xs h) at jm)) [
            | inl q ↦ of_head q
            | inr l ↦
                keeps_from (next_max m x) (next_smallest s x) (suc x.idx) j t xs inc.1 ps.1 jumps e
                  lt r l
          ]))
      | inr h ↦ rw (dropped m s x xs h) (
          keeps_from m s (suc x.idx) j t xs inc.1 ps.1 jumps e lt r (rw (dropped m s x xs h) at jm))
    ]
  where
    of_head : j ≡ x → Memᴰ t (remove_dead_from (next_max m x) (next_smallest s x) xs)
    of_head q =
        let jumps' : may_jump x ≡ true = rw q at jumps in
        let e' : get_dest_idx x ≡ t.idx = rw q at e in
        keeps_target_of m s x t xs inc.1 ps.1 jumps' (ps.0 jumps') e' r

-- In a program in index order in which nothing jumps to the instruction 0, the target of a
-- conditional jump, a `BRANCH` or a `PUSHTRAP` that `removeDeadInstructions` keeps, if it stands
-- further on, is kept too.
pub remove_dead-keeps_forward_target :
    (insts : List ZInstruction) (j t : ZInstruction)
    → IsIncreasing 0 insts
    → HasPositiveTargets insts
    → may_jump j ≡ true
    → get_dest_idx j ≡ t.idx
    → j.idx < t.idx
    → Memᴰ t insts
    → Memᴰ j (remove_dead_instructions insts)
    → Memᴰ t (remove_dead_instructions insts)
unfolding remove_dead_instructions
remove_dead-keeps_forward_target insts j t inc ps jumps e lt mem jm =
    keeps_from 0 0 0 j t insts inc ps jumps e lt mem jm

branch-not-pushtrap : (op : Opcode) → is_branch_op op ≡ true → is_pushtrap_op op ≡ false
branch-not-pushtrap Opcode.branch h = refl
branch-not-pushtrap _ h = cc

next_smallest-branch : (s : ℕ) (b : ZInstruction) → is_uncond_jump b ≡ true → next_smallest s b ≡ s
unfolding next_smallest
next_smallest-branch s b u = ground (arith, branch-not-pushtrap b.op_num u)

drops_below :
    (m : ℕ) (xs rest : List ZInstruction)
    → All (λ (x : ZInstruction). x.idx < m) xs
    → remove_dead_from m 0 (xs ++ rest) ≡ remove_dead_from m 0 rest
drops_below m [] rest h = refl
drops_below m (x ∷ xs) rest h =
    dropped m 0 x (xs ++ rest) (ground arith) ∙ drops_below m xs rest h.1

abbrev pub IsStraight : ZInstruction → Type 0
IsStraight x = (is_cond_jump x ≡ false) × (is_uncond_jump x ≡ false) × (is_push_trap x ≡ false)

keeps_straight :
    (front more : List ZInstruction)
    → All IsStraight front
    → remove_dead_from 0 0 (front ++ more) ≡ front ++ remove_dead_from 0 0 more
unfolding next_max next_smallest
keeps_straight [] more s = refl
keeps_straight (x ∷ front) more s =
    let (no_cond, no_uncond, no_trap) = s.0 in
    let same_max : next_max 0 x ≡ 0 = rw (next_max, no_uncond) refl in
    let same_smallest : next_smallest 0 x ≡ 0 = rw (next_smallest, no_cond, no_trap) refl in
    kept 0 0 x (front ++ more) (ground arith)
    ∙ rw (same_max, same_smallest) (ap (◌∷◌ x) (keeps_straight front more s.1))

-- After a `BRANCH` that no conditional jump, trap or other `BRANCH` comes before, every instruction below
-- its target is dropped, whatever the instructions after it, `rest`, jump to.
pub remove_dead-drops_body :
    (front : List ZInstruction) (b : ZInstruction) (body rest : List ZInstruction)
    → All IsStraight front
    → is_uncond_jump b ≡ true
    → All (λ (x : ZInstruction). x.idx < get_dest_idx b) body
    → remove_dead_instructions (front ++ (b ∷ (body ++ rest)))
      ≡ front ++ (b ∷ remove_dead_from (get_dest_idx b) 0 rest)
unfolding remove_dead_instructions
remove_dead-drops_body front b body rest s u below =
    keeps_straight front (b ∷ (body ++ rest)) s
    ∙ ap (◌++◌ front) (
        kept 0 0 b (body ++ rest) (ground arith)
        ∙ rw (next_max-branch 0 b u, next_smallest-branch 0 b u)
            (ap (◌∷◌ b) (drops_below (get_dest_idx b) body rest below)))
