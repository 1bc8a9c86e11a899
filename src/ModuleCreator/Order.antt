-- ===== src/ModuleCreator/Order.antt =====
-- Lists of instructions in the order of their indices, as `readInstructions` gives them.
use mathlib.Core.List.{Memᴰ}
use camll_vm.Base.{ℕ, suc, ◌≤◌, List, [], ◌∷◌, ap, arith}
use camll_vm.Instruction.{ZInstruction}

-- The indices grow, from `k` on.
abbrev pub IsIncreasing : ℕ → List ZInstruction → Type 0
IsIncreasing k [] = Unit {0}
IsIncreasing k (x ∷ xs) = (k ≤ x.idx) × IsIncreasing (suc x.idx) xs

pub le-mem :
    (k : ℕ) {t : ZInstruction} (xs : List ZInstruction) → IsIncreasing k xs → Memᴰ t xs → k ≤ t.idx
le-mem k [] h m = elim m [ ]
le-mem k (x ∷ xs) h (Memᴰ.head e) = omega (arith, ap (λ (i : ZInstruction). i.idx) e, h.0)
le-mem k (x ∷ xs) h (Memᴰ.tail m) = omega (arith, le-mem (suc x.idx) xs h.1 m, h.0)
