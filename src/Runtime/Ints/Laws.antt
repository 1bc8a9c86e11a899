-- ===== src/Runtime/Ints/Laws.antt =====
-- The integer instructions compute on tagged integers of 63 bits.
use Prim.Native.Nat.{bit_and, bit_or, bit_xor}
use native.Mathlib.Nat.{div-div-eq-div-mul, mul-div-mul_left, div-le_self, mul_comm}
use camll_vm.Base.{
  ℕ, ◌+◌, ◌-◌, ◌*◌, ◌/◌, ◌%◌, ◌^◌, ◌<◌, ◌≤◌, ◌≡◌, sym, ◌∙◌, ap, Bool, not, some, ltb, leb, ◌==◌,
  if◌then◌else◌, arith, word, word_mod, add_word, sub_word, signed_lt, signed_le, Bool-cases, inl,
  inr, true,
}
use camll_vm.Base.Bits.{
  bit_and-odd, bit_or-odd, bit_xor-odd, bit_or-one, bit_and-lt, bit_or-lt, bit_xor-lt,
}
use camll_vm.Runtime.State.{Machine, Ocaml, IsStandard, top, drop_slots, tagged, untagged}
use camll_vm.Runtime.Ints.{
  of_bool, add_int, sub_int, neg_int, shift_left, shift_right, mul_int, and_int, or_int, xor_int,
  lsl_int, lsr_int, asr_int, signed_shift_right, cmp_eq, cmp_neq, lt_int, le_int, gt_int, ge_int,
  ult_int, uge_int,
}

-- The number of integers of 63 bits.
abbrev pub int_mod : ℕ
int_mod = 2 ^ 63

abbrev pub IsInt : ℕ → Type 0
IsInt a = a < int_mod

pub untagged-tagged :
    (a : ℕ) → IsInt a → untagged (tagged a) ≡ (if ltb a (2 ^ 62) then a else a + 2 ^ 63)
untagged-tagged a h = ground arith

tagged-mod : (p : ℕ) → tagged (word p) ≡ 2 * (p % int_mod) + 1
tagged-mod p = omega arith

extended : (a : ℕ) → (if ltb a (2 ^ 62) then a else a + 2 ^ 63) % int_mod ≡ a % int_mod
extended a = ground arith

mul_low :
    (a b : ℕ)
    → IsInt a
    → IsInt b
    → tagged (word (untagged (tagged a) * untagged (tagged b))) ≡ tagged (a * b % int_mod)
mul_low a b ha hb =
    rw (untagged-tagged a ha, untagged-tagged b hb)
      (elim (Bool-cases (ltb a (2 ^ 62))) [
        | inl p ↦ elim (Bool-cases (ltb b (2 ^ 62))) [
          | inl q ↦ rw (p, q) (omega arith)
          | inr q ↦ rw (p, q) (omega arith)
        ]
        | inr p ↦ elim (Bool-cases (ltb b (2 ^ 62))) [
          | inl q ↦ rw (p, q) (omega arith)
          | inr q ↦ rw (p, q) (omega arith)
        ]
      ])

-- The order of two 63-bit patterns as signed integers.
abbrev pub int_lt : ℕ → ℕ → Bool
int_lt a b = ltb ((a + 2 ^ 62) % int_mod) ((b + 2 ^ 62) % int_mod)

pub signed_lt-tagged : (a b : ℕ) → IsInt a → IsInt b → signed_lt (tagged a) (tagged b) ≡ int_lt a b
signed_lt-tagged a b ha hb = ground arith

pub signed_le-tagged :
    (a b : ℕ) → IsInt a → IsInt b → signed_le (tagged a) (tagged b) ≡ not (int_lt b a)
signed_le-tagged a b ha hb = ground arith

pub ==-tagged : (a b : ℕ) → IsInt a → IsInt b → (tagged a == tagged b) ≡ (a == b)
==-tagged a b ha hb = ground arith

pub ltb-tagged : (a b : ℕ) → IsInt a → IsInt b → ltb (tagged a) (tagged b) ≡ ltb a b
ltb-tagged a b ha hb = ground arith

pub leb-tagged : (a b : ℕ) → IsInt a → IsInt b → leb (tagged a) (tagged b) ≡ leb a b
leb-tagged a b ha hb = ground arith

tagged-odd : (a : ℕ) → IsInt a → tagged a ≡ 2 * a + 1
tagged-odd a h = omega arith

and-tagged : (a b : ℕ) → IsInt a → IsInt b → bit_and (tagged a) (tagged b) ≡ 2 * bit_and a b + 1
and-tagged a b ha hb = rw (tagged-odd a ha, tagged-odd b hb) (bit_and-odd a b)

or-tagged : (a b : ℕ) → IsInt a → IsInt b → bit_or (tagged a) (tagged b) ≡ 2 * bit_or a b + 1
or-tagged a b ha hb = rw (tagged-odd a ha, tagged-odd b hb) (bit_or-odd a b)

xor-tagged :
    (a b : ℕ) → IsInt a → IsInt b → bit_or (bit_xor (tagged a) (tagged b)) 1 ≡ 2 * bit_xor a b + 1
xor-tagged a b ha hb =
    rw (tagged-odd a ha, tagged-odd b hb)
      (omega (arith, ap (λ (t : ℕ). bit_or t 1) (bit_xor-odd a b), bit_or-one (2 * bit_xor a b)))

untag_low : (a : ℕ) → IsInt a → sub_word (tagged a) 1 ≡ 2 * a
untag_low a h = omega arith

half_shift : (a n : ℕ) → 2 * a / 2 ^ n / 2 ≡ a / 2 ^ n
half_shift a n =
    div-div-eq-div-mul (2 * a) (2 ^ n) 2
    ∙ rw (mul_comm (2 ^ n) 2) (mul-div-mul_left a (2 ^ n) (omega arith))

shift-le : (a n : ℕ) → a / 2 ^ n ≤ a
shift-le a n = div-le_self a (2 ^ n)

small_shift : (b : ℕ) → b < 64 → untagged (tagged b) ≡ b
small_shift b h = ground arith

below : (b : ℕ) → b < 64 → ltb b 64 ≡ true
below b h = ground arith

lsl-tagged :
    (a n : ℕ)
    → IsInt a
    → add_word (shift_left (sub_word (tagged a) 1) n) 1 ≡ tagged (a * 2 ^ n % int_mod)
lsl-tagged a n h = rw (untag_low a h) (omega arith)

lsr-tagged :
    (a n : ℕ) → IsInt a → bit_or (shift_right (sub_word (tagged a) 1) n) 1 ≡ tagged (a / 2 ^ n)
lsr-tagged a n h =
    rw (untag_low a h, bit_or-one (2 * a / 2 ^ n)) (omega (arith, half_shift a n, shift-le a n))

-- An integer below zero is filled with ones from the left.
abbrev pub int_asr : ℕ → ℕ → ℕ
int_asr a n = if leb (2 ^ 62) a then int_mod - 1 - (int_mod - 1 - a) / 2 ^ n else a / 2 ^ n

odd_floor : (c : ℕ) → (2 * c + 1) / 2 ≡ c
odd_floor c = omega arith

leb_double : (a : ℕ) → IsInt a → leb (2 ^ 63) (2 * a) ≡ leb (2 ^ 62) a
leb_double a h = ground arith

odd_half : (c n : ℕ) → (2 * c + 1) / 2 ^ n / 2 ≡ c / 2 ^ n
odd_half c n =
    div-div-eq-div-mul (2 * c + 1) (2 ^ n) 2
    ∙ rw (mul_comm (2 ^ n) 2) (sym (div-div-eq-div-mul (2 * c + 1) 2 (2 ^ n)) ∙ rw (odd_floor c))

fill_ones :
    (a n : ℕ)
    → 2 ^ 62 ≤ a
    → IsInt a
    → 2 * ((word_mod - 1 - (word_mod - 1 - 2 * a) / 2 ^ n) / 2) + 1
      ≡ tagged (int_mod - 1 - (int_mod - 1 - a) / 2 ^ n)
fill_ones a n low high =
    let complement : word_mod - 1 - 2 * a ≡ 2 * (int_mod - 1 - a) + 1 = omega arith in
    rw complement (omega (arith, odd_half (int_mod - 1 - a) n, shift-le (int_mod - 1 - a) n))

asr-tagged :
    (a n : ℕ)
    → IsInt a
    → bit_or (signed_shift_right (sub_word (tagged a) 1) n) 1 ≡ tagged (int_asr a n)
asr-tagged a n h = elim (Bool-cases (leb (2 ^ 62) a)) [
  | inl neg ↦ rw (untag_low a h, bit_or-one, leb_double a h, neg) (fill_ones a n (ground arith) h)
  | inr pos ↦
      rw (untag_low a h, bit_or-one, leb_double a h, pos)
        (omega (arith, half_shift a n, shift-le a n))
]

module _ (ml : Ocaml) (std : IsStandard ml) where
  mul_int-tagged :
      (m : Machine) (a b : ℕ)
      → IsInt a
      → IsInt b
      → m.accu ≡ tagged a
      → top m ≡ tagged b
      → (mul_int ml m).accu ≡ tagged (a * b % int_mod)
  unfolding mul_int
  mul_int-tagged m a b ha hb p q =
      rw (p, q)
        (std.val_long_lem _
          ∙ rw
              (std.long_val_lem (tagged a) (omega arith), std.long_val_lem (tagged b) (omega arith))
              (mul_low a b ha hb))

  -- Where OCaml's macros are as `IsStandard` says: on tagged integers, `addInt`, `subInt`,
  -- `negInt` and `mulInt` give the tagged sum, difference, negation and product modulo 2 ^ 63.
  pub arithmetic-tagged :
      (m : Machine) (a b : ℕ)
      → IsInt a
      → IsInt b
      → m.accu ≡ tagged a
      → top m ≡ tagged b
      → ((add_int m).accu ≡ tagged ((a + b) % int_mod))
        × ((sub_int m).accu ≡ tagged ((a + int_mod - b) % int_mod))
        × ((neg_int m).accu ≡ tagged ((int_mod - a) % int_mod))
        × ((mul_int ml m).accu ≡ tagged (a * b % int_mod))
  unfolding add_int sub_int neg_int
  arithmetic-tagged m a b ha hb p q =
      (ground arith, ground arith, ground arith, mul_int-tagged m a b ha hb p q)

  -- On tagged integers `andInt`, `orInt` and `xorInt` give the tagged result of the operation on the
  -- integers.
  pub bitwise-tagged :
      (m : Machine) (a b : ℕ)
      → IsInt a
      → IsInt b
      → m.accu ≡ tagged a
      → top m ≡ tagged b
      → ((and_int m).accu ≡ tagged (bit_and a b))
        × ((or_int m).accu ≡ tagged (bit_or a b))
        × ((xor_int m).accu ≡ tagged (bit_xor a b))
  unfolding and_int or_int xor_int
  bitwise-tagged m a b ha hb p q = (
    rw (p, q) (and-tagged a b ha hb ∙ omega (arith, bit_and-lt 63 a b ha hb)),
    rw (p, q) (or-tagged a b ha hb ∙ omega (arith, bit_or-lt 63 a b ha hb)),
    rw (p, q) (xor-tagged a b ha hb ∙ omega (arith, bit_xor-lt 63 a b ha hb)),
  )

  -- Where OCaml's macros are as `IsStandard` says: on a tagged integer, `lslInt`, `lsrInt` and
  -- `asrInt` by a tagged count below 64 pop the count and give the tagged integer shifted: to the
  -- left cut to 63 bits, to the right as an unsigned number or, for `asrInt`, filled with its
  -- sign.
  pub shifts-tagged :
      (m : Machine) (a b : ℕ)
      → IsInt a
      → b < 64
      → m.accu ≡ tagged a
      → top m ≡ tagged b
      → (lsl_int ml m ≡ some (record (drop_slots 1 m) { accu = tagged (a * 2 ^ b % int_mod) }))
        × (lsr_int ml m ≡ some (record (drop_slots 1 m) { accu = tagged (a / 2 ^ b) }))
        × (asr_int ml m ≡ some (record (drop_slots 1 m) { accu = tagged (int_asr a b) }))
  unfolding lsl_int lsr_int asr_int
  shifts-tagged m a b ha small p q = (
    rw (p, q, std.long_val_lem (tagged b) (omega arith), small_shift b small, below b small)
        (rw (lsl-tagged a b ha)),
    rw (p, q, std.long_val_lem (tagged b) (omega arith), small_shift b small, below b small)
        (rw (lsr-tagged a b ha)),
    rw (p, q, std.long_val_lem (tagged b) (omega arith), small_shift b small, below b small)
        (rw (asr-tagged a b ha)),
  )

  -- Where OCaml's macros are as `IsStandard` says: on tagged integers the comparisons give the
  -- tagged truth value of the comparison of the integers: signed, and unsigned for `ultInt` and
  -- `ugeInt`.
  pub comparisons-tagged :
      (m : Machine) (a b : ℕ)
      → IsInt a
      → IsInt b
      → m.accu ≡ tagged a
      → top m ≡ tagged b
      → ((cmp_eq ml m).accu ≡ tagged (of_bool (a == b)))
        × ((cmp_neq ml m).accu ≡ tagged (of_bool (not (a == b))))
        × ((lt_int ml m).accu ≡ tagged (of_bool (int_lt a b)))
        × ((le_int ml m).accu ≡ tagged (of_bool (not (int_lt b a))))
        × ((gt_int ml m).accu ≡ tagged (of_bool (int_lt b a)))
        × ((ge_int ml m).accu ≡ tagged (of_bool (not (int_lt a b))))
        × ((ult_int ml m).accu ≡ tagged (of_bool (ltb a b)))
        × ((uge_int ml m).accu ≡ tagged (of_bool (leb b a)))
  unfolding cmp_eq cmp_neq lt_int le_int gt_int ge_int ult_int uge_int
  comparisons-tagged m a b ha hb p q = (
    std.val_long_lem _ ∙ rw (p, q) (ap (λ (t : Bool). tagged (of_bool t)) (==-tagged a b ha hb)),
    std.val_long_lem _
        ∙ rw (p, q) (ap (λ (t : Bool). tagged (of_bool (not t))) (==-tagged a b ha hb)),
    std.val_long_lem _
        ∙ rw (p, q) (ap (λ (t : Bool). tagged (of_bool t)) (signed_lt-tagged a b ha hb)),
    std.val_long_lem _
        ∙ rw (p, q) (ap (λ (t : Bool). tagged (of_bool t)) (signed_le-tagged a b ha hb)),
    std.val_long_lem _
        ∙ rw (p, q) (ap (λ (t : Bool). tagged (of_bool t)) (signed_lt-tagged b a hb ha)),
    std.val_long_lem _
        ∙ rw (p, q) (ap (λ (t : Bool). tagged (of_bool t)) (signed_le-tagged b a hb ha)),
    std.val_long_lem _ ∙ rw (p, q) (ap (λ (t : Bool). tagged (of_bool t)) (ltb-tagged a b ha hb)),
    std.val_long_lem _ ∙ rw (p, q) (ap (λ (t : Bool). tagged (of_bool t)) (leb-tagged b a hb ha)),
  )
