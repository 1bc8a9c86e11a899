-- ===== src/Context/Erase.antt =====
-- Which instructions `Context::init` (src/Context.cpp) keeps of a range to erase.
use camll_vm.Base.{
  ℕ, zero, suc, ◌+◌, ◌-◌, ◌<◌, ◌≤◌, ◌≡◌, ◌^◌, refl, sym, ap, ◌∙◌, Bool, true, false, ◌&&◌, none,
  some, List, [], ◌∷◌, ◌++◌, length, take, drop, get_elem?, ltb, leb, ltb→lt, leb→le, ◌==◌,
  Bool-cases, inl, inr, >>=-eq-some, some_inj, if◌then◌else◌, arith,
}
use camll_vm.Instruction.{ZInstruction}
use camll_vm.Context.{position, erase, erase_range}

length-take : (n : ℕ) (xs : List ZInstruction) → n ≤ length xs → length (take n xs) ≡ n
length-take zero xs h = refl
length-take (suc n) [] h = absurd (omega arith)
length-take (suc n) (x ∷ xs) h = ap suc (length-take n xs (omega arith))

get_elem?-take :
    (n i : ℕ) (xs ys : List ZInstruction)
    → i < n
    → n ≤ length xs
    → get_elem? (take n xs ++ ys) i ≡ get_elem? xs i
get_elem?-take zero i xs ys lt h = absurd (omega arith)
get_elem?-take (suc n) i [] ys lt h = absurd (omega arith)
get_elem?-take (suc n) zero (x ∷ xs) ys lt h = refl
get_elem?-take (suc n) (suc i) (x ∷ xs) ys lt h =
    get_elem?-take n i xs ys (omega arith) (omega arith)

get_elem?-behind :
    (xs ys : List ZInstruction) (i : ℕ) → get_elem? (xs ++ ys) (length xs + i) ≡ get_elem? ys i
get_elem?-behind [] ys i = ap (get_elem? ys) (omega arith)
get_elem?-behind (x ∷ xs) ys i =
    let next : suc (length xs) + i ≡ suc (length xs + i) = omega arith in
    ap (get_elem? (x ∷ xs ++ ys)) next ∙ get_elem?-behind xs ys i

get_elem?-drop : (n i : ℕ) (xs : List ZInstruction) → get_elem? (drop n xs) i ≡ get_elem? xs (n + i)
get_elem?-drop zero i xs = ap (get_elem? xs) (omega arith)
get_elem?-drop (suc n) i [] = refl
get_elem?-drop (suc n) i (x ∷ xs) =
    let next : suc (n + i) ≡ suc n + i = omega arith in
    get_elem?-drop n i xs ∙ ap (get_elem? (x ∷ xs)) next

-- A positive bound counts from the beginning, another one from the end.
abbrev pub Bounds : ℕ → ℕ → ℕ → Type 0
Bounds size n b =
    b ≡ (if ltb 0 n && ltb n (2 ^ 31) then n else if n == 0 then size else size - (2 ^ 32 - n))

position-Bounds : (size n b : ℕ) → position size n ≡ some b → Bounds size n b × (b ≤ size)
unfolding position
position-Bounds size n b h = elim (Bool-cases (ltb 0 n && ltb n (2 ^ 31))) [
  | inl t ↦
      let front : (if leb n size then some n else none) ≡ some b = rw t at h in
      rw t (checked n (leb n size) n b (λ le. le) refl front)
  | inr f ↦ elim (Bool-cases (n == 0)) [
    | inl z ↦ let q : size ≡ b = some_inj (rw (f, z) at h) in rw (f, z) (sym q, omega (arith, q))
    | inr z ↦
        let back : (if leb (2 ^ 32 - n) size then some (size - (2 ^ 32 - n)) else none) ≡ some b =
          rw (f, z) at h in
        rw (f, z)
          (checked (2 ^ 32 - n) (leb (2 ^ 32 - n) size) (size - (2 ^ 32 - n)) b (λ le. omega arith)
            refl back)
  ]
]
  where
    checked :
        (m : ℕ) (c : Bool) (x b : ℕ)
        → (m ≤ size → x ≤ size)
        → leb m size ≡ c
        → (if c then some x else none) ≡ some b
        → (b ≡ x) × (b ≤ size)
    checked m true x b within q e =
        let same : x ≡ b = some_inj e in (sym same, omega (arith, same, within (leb→le m size q)))
    checked m false x b within q e = absurd (cc)

-- Whenever the erasing of a range returns, and the range is not empty as written, its bounds, of which
-- a positive one counts from the beginning and another from the end, lie in order within the vector.
-- The instructions in front of the range stay where they are, and those from its end on
-- follow them.
pub erase_range-keeps :
    (first last i : ℕ) (insts kept : List ZInstruction)
    → (first == last) ≡ false
    → erase_range first last insts ≡ some kept
    → (b : ℕ) × (e : ℕ) × Bounds (length insts) first b
      × Bounds (length insts) last e
      × (b ≤ e)
      × (e ≤ length insts)
      × (get_elem? kept i ≡ get_elem? insts (if ltb i b then i else i - b + e))
unfolding erase_range erase
erase_range-keeps first last i insts kept n h =
    let (b, at, h₁) = >>=-eq-some (position (length insts) first) _ (rw n at h) in
    let (e, at₁, h₂) = >>=-eq-some (position (length insts) last) _ h₁ in
    let (bounds, within) = position-Bounds (length insts) first b at in
    let (bounds₁, within₁) = position-Bounds (length insts) last e at₁ in
    let (le, same) = erase_lem b e h₂ in
    (b, e, bounds, bounds₁, le, within₁, rw (sym same) (found b e within))
  where
    erase_lem :
        (b e : ℕ)
        → (if leb b e && leb e (length insts) then some (take b insts ++ drop e insts) else none)
          ≡ some kept
        → (b ≤ e) × (take b insts ++ drop e insts ≡ kept)
    erase_lem b e q = elim (Bool-cases (leb b e)) [
      | inl t ↦ elim (Bool-cases (leb e (length insts))) [
        | inl u ↦ (leb→le b e t, some_inj (rw (t, u) at q))
        | inr u ↦ let no = rw (t, u) at q in absurd (cc)
      ]
      | inr t ↦ let no = rw t at q in absurd (cc)
    ]

    found :
        (b e : ℕ)
        → b ≤ length insts
        → get_elem? (take b insts ++ drop e insts) i
          ≡ get_elem? insts (if ltb i b then i else i - b + e)
    found b e le = elim (Bool-cases (ltb i b)) [
      | inl t ↦ rw t (get_elem?-take b i insts (drop e insts) (ltb→lt i b t) le)
      | inr f ↦
          let split : i ≡ length (take b insts) + (i - b) =
            ground (arith, length-take b insts le) in
          let order : e + (i - b) ≡ i - b + e = omega arith in
          rw f (
            ap (get_elem? (take b insts ++ drop e insts)) split
            ∙ get_elem?-behind (take b insts) (drop e insts) (i - b)
            ∙ get_elem?-drop e (i - b) insts
            ∙ ap (get_elem? insts) order)
    ]
