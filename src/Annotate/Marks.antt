-- ===== src/Annotate/Marks.antt =====
-- What `annotateNodes` (src/Instructions.cpp) marks.
use mathlib.Core.List.{Memᴰ}
use mathlib.Core.List.Memᴰ.{cases_cons}
use camll_vm.Base.{
  ℕ, zero, suc, ◌<◌, ◌≡◌, refl, sym, ◌∙◌, subst, ◌≢◌, inl, inr, Bool, true, false, Option, none,
  some, List, [], ◌∷◌, length, get_elem?, set, get_elem?-set_self, get_elem?-set_ne, ◌==◌, ==_iff,
  Yields, Yields-bind, Yields-mono, Bool-cases, arith,
}
use camll_vm.Instruction.{ZInstruction, InstrAnnotation, nothing}
use camll_vm.Annotate.{mark, mark_all}

abbrev pub starts_something : InstrAnnotation → Bool
starts_something nothing = false
starts_something _ = true

-- The instruction number `i` begins a block or a function.
abbrev pub IsMarkedAt : ℕ → List ZInstruction → Type 0
IsMarkedAt i s =
    (x : ZInstruction) × (get_elem? s i ≡ some x) × (starts_something x.annotation ≡ true)

-- What is marked stays so.
abbrev pub KeepsMarks : List ZInstruction → List ZInstruction → Type 0
KeepsMarks s t = (j : ℕ) → IsMarkedAt j s → IsMarkedAt j t

in_range :
    (s : List ZInstruction) (i : ℕ) (x : ZInstruction) → get_elem? s i ≡ some x → i < length s
in_range [] i x h = cc
in_range (y ∷ s) zero x h = omega arith
in_range (y ∷ s) (suc i) x h = omega (arith, in_range s i x h)

IsMarkedAt-set :
    (s : List ZInstruction) (i : ℕ) (x y : ZInstruction)
    → get_elem? s i ≡ some x
    → starts_something y.annotation ≡ true
    → IsMarkedAt i (set s i y) × KeepsMarks s (set s i y)
IsMarkedAt-set s i x y h m = (
  here,
  λ j k. elim (Bool-cases (i == j)) [
    | inl e ↦ subst (λ (n : ℕ). IsMarkedAt n (set s i y)) ((==_iff i j).0 e) here
    | inr e ↦
        let apart : i ≢ j = λ q. cc ((==_iff i j).1 q) in
        (k.0, get_elem?-set_ne s i j y apart ∙ k.1, k.2)
  ],
)
  where
    here : IsMarkedAt i (set s i y)
    here = (y, get_elem?-set_self s i y (in_range s i x h), m)

pub with_equation {ℓ} : {A : Type ℓ} (o : Option A) → Yields (λ (a : A). o ≡ some a) o
with_equation none = tt
with_equation (some a) = refl

pub mark_lem :
    (a : InstrAnnotation) (i : ℕ) (s : List ZInstruction)
    → starts_something a ≡ true
    → Yields (λ (t : List ZInstruction). IsMarkedAt i t × KeepsMarks s t) (mark a i s)
unfolding mark
mark_lem a i s m =
    Yields-bind (λ (x : ZInstruction). get_elem? s i ≡ some x) _ (get_elem? s i) _
      (with_equation (get_elem? s i))
      (λ x e. IsMarkedAt-set s i x (record x { annotation = a }) e m)

pub mark_all_lem :
    (a : InstrAnnotation) (is : List ℕ) (s : List ZInstruction)
    → starts_something a ≡ true
    → Yields
        (λ (t : List ZInstruction). ((i : ℕ) → Memᴰ i is → IsMarkedAt i t) × KeepsMarks s t)
        (mark_all a is s)
unfolding mark_all
mark_all_lem a [] s m = (λ i r. elim r [ ], λ j k. k)
mark_all_lem a (i ∷ is) s m =
    Yields-bind (λ (t : List ZInstruction). IsMarkedAt i t × KeepsMarks s t) _ (mark a i s) _
      (mark_lem a i s m)
      λ t k.
        Yields-mono
          (λ (u : List ZInstruction). ((j : ℕ) → Memᴰ j is → IsMarkedAt j u) × KeepsMarks t u)
          (λ (u : List ZInstruction). ((j : ℕ) → Memᴰ j (i ∷ is) → IsMarkedAt j u) × KeepsMarks s u)
          (mark_all a is t) (mark_all_lem a is t m)
          (λ u l. (
            λ j r. elim (cases_cons r) [
              | inl e ↦ l.1 j (subst (λ (n : ℕ). IsMarkedAt n t) (sym e) k.0)
              | inr r' ↦ l.0 j r'
            ],
            λ j q. l.1 j (k.1 j q),
          ))
