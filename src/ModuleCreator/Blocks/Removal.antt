-- ===== src/ModuleCreator/Blocks/Removal.antt =====
-- What one round of `removeUnusedBlocks` (src/GenFunction.cpp) does to the keys and the edges.
use mathlib.Core.List.{Memᴰ}
use mathlib.Core.List.Memᴰ.{cases_cons}
use camll_vm.Base.{
  ℕ, ◌≤◌, ◌<◌, ◌≡◌, refl, sym, ap, ◌∙◌, ◌≢◌, ◌⊎◌, inl, inr, true, List, [], ◌∷◌, length, ◌==◌,
  ==_iff, Bool-cases, arith,
}
use camll_vm.ModuleCreator.Blocks.{is_empty, remove_all, orphans}

abbrev pub remove_keys : List ℕ → List ℕ → List ℕ
remove_keys [] ks = ks
remove_keys (b ∷ bs) ks = remove_keys bs (remove_all b ks)

pub remove_all-hit : (b x : ℕ) (xs : List ℕ) → b ≡ x → remove_all b (x ∷ xs) ≡ remove_all b xs
unfolding remove_all
remove_all-hit b x xs e = ground arith

pub remove_all-miss : (b x : ℕ) (xs : List ℕ) → b ≢ x → remove_all b (x ∷ xs) ≡ x ∷ remove_all b xs
unfolding remove_all
remove_all-miss b x xs ne = ground arith

same_or_not : (a b : ℕ) → (a ≡ b) ⊎ (a ≢ b)
same_or_not a b = elim (Bool-cases (a == b)) [
  | inl h ↦ inl ((==_iff a b).0 h)
  | inr h ↦ inr (λ e. cc ((==_iff a b).1 e))
]

pub mem-remove_all : (k b : ℕ) (xs : List ℕ) → Memᴰ k xs → k ≢ b → Memᴰ k (remove_all b xs)
unfolding remove_all
mem-remove_all k b [] m ne = m
mem-remove_all k b (x ∷ xs) m ne = elim (same_or_not b x) [
  | inl e ↦
      rw (remove_all-hit b x xs e) (elim (cases_cons m) [
        | inl q ↦ absurd (ne (q ∙ sym e))
        | inr r ↦ mem-remove_all k b xs r ne
      ])
  | inr n ↦
      rw (remove_all-miss b x xs n) (elim (cases_cons m) [
        | inl q ↦ Memᴰ.head q
        | inr r ↦ Memᴰ.tail (mem-remove_all k b xs r ne)
      ])
]

pub mem_of-remove_all : (k b : ℕ) (xs : List ℕ) → Memᴰ k (remove_all b xs) → Memᴰ k xs × (k ≢ b)
unfolding remove_all
mem_of-remove_all k b [] m = elim m [ ]
mem_of-remove_all k b (x ∷ xs) m = elim (same_or_not b x) [
  | inl e ↦
      let r = mem_of-remove_all k b xs (rw (remove_all-hit b x xs e) at m) in (Memᴰ.tail r.0, r.1)
  | inr n ↦ elim (cases_cons (rw (remove_all-miss b x xs n) at m)) [
    | inl q ↦ (Memᴰ.head q, λ e. n (sym e ∙ q))
    | inr r ↦ let s = mem_of-remove_all k b xs r in (Memᴰ.tail s.0, s.1)
  ]
]

pub length-remove_all : (b : ℕ) (xs : List ℕ) → length (remove_all b xs) ≤ length xs
unfolding remove_all
length-remove_all b [] = omega arith
length-remove_all b (x ∷ xs) = ground (arith, length-remove_all b xs)

pub length-remove_all_mem : (b : ℕ) (xs : List ℕ) → Memᴰ b xs → length (remove_all b xs) < length xs
length-remove_all_mem b [] m = elim m [ ]
length-remove_all_mem b (x ∷ xs) m = elim (same_or_not b x) [
  | inl e ↦ rw (remove_all-hit b x xs e) (omega (arith, length-remove_all b xs))
  | inr n ↦ rw (remove_all-miss b x xs n) (elim (cases_cons m) [
    | inl q ↦ absurd (n q)
    | inr r ↦ omega (arith, length-remove_all_mem b xs r)
  ])
]

pub mem_of-remove_keys :
    (k : ℕ) (bs xs : List ℕ) → Memᴰ k (remove_keys bs xs) → Memᴰ k xs × ¬ Memᴰ k bs
mem_of-remove_keys k [] xs m = (m, λ n. elim n [ ])
mem_of-remove_keys k (b ∷ bs) xs m =
    let r = mem_of-remove_keys k bs (remove_all b xs) m in
    let s = mem_of-remove_all k b xs r.0 in
    (s.0, λ n. elim (cases_cons n) [ inl q ↦ s.1 q | inr t ↦ r.1 t ])

pub mem-remove_keys :
    (k : ℕ) (bs xs : List ℕ) → Memᴰ k xs → ¬ Memᴰ k bs → Memᴰ k (remove_keys bs xs)
mem-remove_keys k [] xs m n = m
mem-remove_keys k (b ∷ bs) xs m n =
    mem-remove_keys k bs (remove_all b xs) (mem-remove_all k b xs m (λ e. n (Memᴰ.head e)))
      (λ t. n (Memᴰ.tail t))

pub remove_keys-first :
    (first : ℕ) (bs xs : List ℕ)
    → ¬ Memᴰ first bs
    → remove_keys bs (first ∷ xs) ≡ first ∷ remove_keys bs xs
remove_keys-first first [] xs n = refl
remove_keys-first first (b ∷ bs) xs n =
    ap (remove_keys bs) (remove_all-miss b first xs (λ e. n (Memᴰ.head (sym e))))
    ∙ remove_keys-first first bs (remove_all b xs) (λ t. n (Memᴰ.tail t))

pub length-remove_keys : (bs xs : List ℕ) → length (remove_keys bs xs) ≤ length xs
length-remove_keys [] xs = omega arith
length-remove_keys (b ∷ bs) xs =
    omega (arith, length-remove_keys bs (remove_all b xs), length-remove_all b xs)

-- The blocks to remove are blocks without predecessors, and all of them.
pub orphans_only :
    (prev : ℕ → List ℕ) (k : ℕ) (ks found : List ℕ)
    → Memᴰ k (orphans prev ks found)
    → (Memᴰ k ks × (is_empty (prev k) ≡ true)) ⊎ Memᴰ k found
unfolding orphans
orphans_only prev k [] found m = inr m
orphans_only prev k (x ∷ ks) found m = elim (Bool-cases (is_empty (prev x))) [
  | inl e ↦ elim (orphans_only prev k ks (x ∷ found) (rw (orphans, e) at m)) [
    | inl r ↦ inl (Memᴰ.tail r.0, r.1)
    | inr r ↦ elim (cases_cons r) [ inl q ↦ inl (Memᴰ.head q, rw q e) | inr t ↦ inr t ]
  ]
  | inr e ↦ elim (orphans_only prev k ks found (rw (orphans, e) at m)) [
    | inl r ↦ inl (Memᴰ.tail r.0, r.1)
    | inr r ↦ inr r
  ]
]

orphans_keep :
    (prev : ℕ → List ℕ) (k : ℕ) (ks found : List ℕ) → Memᴰ k found → Memᴰ k (orphans prev ks found)
unfolding orphans
orphans_keep prev k [] found m = m
orphans_keep prev k (x ∷ ks) found m = elim (Bool-cases (is_empty (prev x))) [
  | inl e ↦ rw (orphans, e) (orphans_keep prev k ks (x ∷ found) (Memᴰ.tail m))
  | inr e ↦ rw (orphans, e) (orphans_keep prev k ks found m)
]

pub orphans_all :
    (prev : ℕ → List ℕ) (k : ℕ) (ks found : List ℕ)
    → Memᴰ k ks
    → is_empty (prev k) ≡ true
    → Memᴰ k (orphans prev ks found)
unfolding orphans
orphans_all prev k [] found m h = elim m [ ]
orphans_all prev k (x ∷ ks) found m h = elim (Bool-cases (is_empty (prev x))) [
  | inl e ↦
      rw (orphans, e)
        (elim (cases_cons m) [
          | inl q ↦ orphans_keep prev k ks (x ∷ found) (Memᴰ.head q)
          | inr r ↦ orphans_all prev k ks (x ∷ found) r h
        ])
  | inr e ↦
      rw (orphans, e)
        (elim (cases_cons m) [
          | inl q ↦ absurd (cc (ap prev q))
          | inr r ↦ orphans_all prev k ks found r h
        ])
]
