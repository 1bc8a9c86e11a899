-- ===== src/Runtime/Objects/Search.antt =====
-- The binary search of `getDynMet` finds the method with the tag that is looked for.
use native.Mathlib.Decide.{dec_lt}
use camll_vm.Base.{
  ℕ, zero, suc, ◌+◌, ◌-◌, ◌/◌, ◌%◌, ◌^◌, ◌≤◌, ◌<◌, ◌≡◌, refl, ◌∙◌, ap, true, false, some, inl, inr,
  arith, ltb→lt, Bool-cases, ltb, if◌then◌else◌, word, signed_lt,
}
use Prim.Native.Nat.{bit_or}
use camll_vm.Base.Bits.{bit_or-one}
use camll_vm.Instruction.{rounds}
use camll_vm.Runtime.State.{Machine, Ocaml, get_field_at}
use camll_vm.Runtime.Objects.{middle, search_method, methods, get_dyn_met}

-- The place of a word in the signed order.
abbrev pub rank : ℕ → ℕ
rank w = word (w + 2 ^ 63)

abbrev pub IsOdd : ℕ → Type 0
IsOdd n = n % 2 ≡ 1

-- The tags, which stand at the odd indices from 3 to `hi`, ascend as signed words.
abbrev pub IsAscending : (ℕ → ℕ) → ℕ → Type 0
IsAscending tag hi =
    (i j : ℕ) → 3 ≤ i → i < j → j ≤ hi → IsOdd i → IsOdd j → rank (tag i) < rank (tag j)

middle-between :
    (li hi : ℕ)
    → IsOdd li
    → IsOdd hi
    → li < hi
    → hi < 2 ^ 30
    → (mi : ℕ) × (middle li hi ≡ some mi) × (li < mi) × (mi ≤ hi) × IsOdd mi
unfolding middle
middle-between li hi p q h small =
    let sum : ltb (li + hi) (2 ^ 31) ≡ true = ground arith in
    let bits = bit_or-one ((li + hi) / 2) in
    (
      bit_or ((li + hi) / 2) 1,
      rw sum refl,
      omega (arith, bits),
      omega (arith, bits),
      omega (arith, bits),
    )

search_step :
    (fuel : ℕ) (tag : ℕ → ℕ) (wanted li hi mi : ℕ)
    → li < hi
    → middle li hi ≡ some mi
    → search_method (suc fuel) tag wanted li hi ≡ (
        if signed_lt wanted (tag mi)
        then search_method fuel tag wanted li (mi - 2)
        else search_method fuel tag wanted mi hi)
unfolding search_method
search_step fuel tag wanted li hi mi h e =
    let goes_on : ltb li hi ≡ true = ground arith in rw (search_method, goes_on, e) refl

search_done :
    (fuel : ℕ) (tag : ℕ → ℕ) (wanted li : ℕ) → search_method (suc fuel) tag wanted li li ≡ some li
unfolding search_method
search_done fuel tag wanted li = ground arith

-- The test of a round tells on which side of `mi` the index `k` of the wanted tag lies.
module _ (tag : ℕ → ℕ) (hi k mi : ℕ) (asc : IsAscending tag hi) (low : 3 ≤ k) (q : k ≤ hi)
    (low' : 3 ≤ mi) (q' : mi ≤ hi) (ok : IsOdd k) (om : IsOdd mi) where
  lies_left : signed_lt (tag k) (tag mi) ≡ true → k < mi
  lies_left t = elim (dec_lt k mi) [
    | yes h ↦ h
    | no h ↦ elim (dec_lt mi k) [
      | yes g ↦ absurd (ground (arith, asc mi k low' g q om ok))
      | no g ↦ let same : mi ≡ k = omega arith in absurd (ground (arith, ap tag same))
    ]
  ]

  lies_right : signed_lt (tag k) (tag mi) ≡ false → mi ≤ k
  lies_right t = elim (dec_lt k mi) [
    | yes g ↦ absurd (ground (arith, asc k mi low g q' ok om))
    | no g ↦ omega arith
  ]

search_finds :
    (fuel : ℕ) (tag : ℕ → ℕ) (wanted li hi k : ℕ)
    → 3 ≤ li
    → IsOdd li
    → IsOdd hi
    → IsOdd k
    → li ≤ k
    → k ≤ hi
    → hi < 2 ^ 30
    → hi - li < fuel
    → IsAscending tag hi
    → tag k ≡ wanted
    → search_method fuel tag wanted li hi ≡ some k
search_finds zero tag wanted li hi k low ol oh ok p q small f asc e = absurd (omega arith)
search_finds (suc fuel) tag wanted li hi k low ol oh ok p q small f asc e =
    elim (Bool-cases (ltb li hi)) [
      | inr b ↦
          let at_k : li ≡ k = ground arith in
          let at_hi : hi ≡ li = ground arith in
          rw at_hi (search_done fuel tag wanted li ∙ ap some at_k)
      | inl b ↦
          let lt = ltb→lt li hi b in
          let (mi, at, above, within, om) = middle-between li hi ol oh lt small in
          let step = search_step fuel tag wanted li hi mi lt at in
          elim (Bool-cases (signed_lt (tag k) (tag mi))) [
            | inl t ↦
                let left = lies_left tag hi k mi asc (omega arith) q (omega arith) within ok om t in
                let rec =
                  search_finds fuel tag wanted li (mi - 2) k low ol (omega arith) ok p (omega arith)
                    (omega arith) (omega arith) (λ i j a b c oi oj. asc i j a b (omega arith) oi oj)
                    e in
                step ∙ rw (← e, t) (rw e rec)
            | inr t ↦
                let right =
                  lies_right tag hi k mi asc (omega arith) q (omega arith) within ok om t in
                let rec =
                  search_finds fuel tag wanted mi hi k (omega arith) om oh ok right q small
                    (omega arith) asc e in
                step ∙ rw (← e, t) (rw e rec)
          ]
    ]

module _ (ml : Ocaml) where
  -- The table of the object on top of the stack holds `hi`, the last index of a tag, in its field 0,
  -- and its tags ascend; the tag in the accumulator stands at `k`.
  pub record HasMethod (m : Machine) (hi k : ℕ) : Type 0 where
    pub size : rounds (get_field_at ml m (methods ml m) 0 % 2 ^ 32) ≡ hi
    pub small_size : hi < 2 ^ 30
    pub odd_size : IsOdd hi
    pub odd_index : IsOdd k
    pub from : 3 ≤ k
    pub upto : k ≤ hi
    pub ascending : IsAscending (get_field_at ml m (methods ml m)) hi
    pub found : get_field_at ml m (methods ml m) k ≡ m.accu

  -- In a table of ascending tags, of fewer than 2 ^ 30 fields, that has the tag in the accumulator, `getDynMet`, with fuel for as
  -- many rounds as the table has fields, ends and leaves the method in front of that tag.
  pub get_dyn_met-finds :
      (m : Machine) (hi k : ℕ)
      → HasMethod m hi k
      → get_dyn_met ml (suc hi) m
        ≡ some (record m { accu = get_field_at ml m (methods ml m) (k - 1) })
  unfolding get_dyn_met
  get_dyn_met-finds m hi k h = rw h.size (
      rw (
        search_finds (suc hi) (get_field_at ml m (methods ml m)) m.accu 3 hi k (omega arith) refl
          h.odd_size h.odd_index h.from h.upto h.small_size (omega arith) h.ascending h.found))
