-- ===== src/Runtime/Ints.antt =====
-- Integer instructions of src/StdLib/CStdLib.c. A division by zero and a shift by 64 or more are
-- undefined in C, which is `none`.
pub mod Laws
pub mod Division
use Prim.Native.Nat.{bit_and, bit_or, bit_xor}
use camll_vm.Base.{
  ℕ, ◌+◌, ◌-◌, ◌*◌, ◌/◌, ◌%◌, ◌^◌, Bool, true, false, not, Option, none, some, ltb, leb, ◌==◌,
  if◌then◌else◌, word, word_mod, add_word, sub_word, ptr_add, signed_lt, signed_le, ◌>>=◌,
}
use camll_vm.Runtime.State.{Machine, Ocaml, top, drop_slots}

-- `Accu = f(Accu, *StackPointer++)`.
abbrev pub binary : (ℕ → ℕ → ℕ) → Machine → Machine
binary f m = record (drop_slots 1 m) { accu = f m.accu (top m) }

abbrev pub of_bool : Bool → ℕ
of_bool b = if b then 1 else 0

unfoldable pub add_int : Machine → Machine
add_int = binary λ a b. sub_word (add_word a b) 1

unfoldable pub neg_int : Machine → Machine
neg_int m = record m { accu = sub_word 2 m.accu }

unfoldable pub sub_int : Machine → Machine
sub_int = binary λ a b. add_word (sub_word a b) 1

unfoldable pub and_int : Machine → Machine
and_int = binary bit_and

unfoldable pub or_int : Machine → Machine
or_int = binary bit_or

unfoldable pub xor_int : Machine → Machine
xor_int = binary λ a b. bit_or (bit_xor a b) 1

unfoldable pub offset_int : ℕ → Machine → Machine
offset_int n m = record m { accu = add_word m.accu n }

-- The quotient and the remainder of signed words, truncated towards zero as in C.
abbrev pub is_negative : ℕ → Bool
is_negative w = leb (2 ^ 63) w

abbrev pub magnitude : ℕ → ℕ
magnitude w = if is_negative w then word_mod - w else w

abbrev pub with_sign : Bool → ℕ → ℕ
with_sign negative n = if negative then word (word_mod - n) else n

abbrev pub differ : Bool → Bool → Bool
differ a b = if a then not b else b

unfoldable pub signed_div : ℕ → ℕ → ℕ
signed_div a b =
    with_sign (differ (is_negative a) (is_negative b)) (word (magnitude a / magnitude b))

unfoldable pub signed_rem : ℕ → ℕ → ℕ
signed_rem a b = with_sign (is_negative a) (magnitude a % magnitude b)

-- `a << n`, `a >> n` of an unsigned and of a signed word.
abbrev pub shift_left : ℕ → ℕ → ℕ
shift_left a n = word (a * 2 ^ n)

abbrev pub shift_right : ℕ → ℕ → ℕ
shift_right a n = a / 2 ^ n

-- A negative word is filled with ones from the left: `-1 - ((-1 - a) >> n)`.
abbrev pub signed_shift_right : ℕ → ℕ → ℕ
signed_shift_right a n =
    if is_negative a then word_mod - 1 - (word_mod - 1 - a) / 2 ^ n else a / 2 ^ n

module _ (ml : Ocaml) where
  unfoldable pub mul_int : Machine → Machine
  mul_int = binary λ a b. ml.val_long (word (ml.long_val a * ml.long_val b))

  unfoldable pub div_int : Machine → Option Machine
  div_int m =
      let divisor = ml.long_val (top m) in
      if divisor == 0
      then none
      else some
          (record (drop_slots 1 m) { accu = ml.val_long (signed_div (ml.long_val m.accu) divisor) })

  unfoldable pub mod_int : Machine → Option Machine
  mod_int m =
      let divisor = ml.long_val (top m) in
      if divisor == 0
      then none
      else some
          (record (drop_slots 1 m) { accu = ml.val_long (signed_rem (ml.long_val m.accu) divisor) })

  -- A shift by `Long_val(*StackPointer++)`.
  abbrev shifted : (ℕ → ℕ → ℕ) → Machine → Option Machine
  shifted f m =
      let n = ml.long_val (top m) in
      if ltb n 64 then some (record (drop_slots 1 m) { accu = f m.accu n }) else none

  unfoldable pub lsl_int : Machine → Option Machine
  lsl_int = shifted λ a n. add_word (shift_left (sub_word a 1) n) 1

  unfoldable pub lsr_int : Machine → Option Machine
  lsr_int = shifted λ a n. bit_or (shift_right (sub_word a 1) n) 1

  unfoldable pub asr_int : Machine → Option Machine
  asr_int = shifted λ a n. bit_or (signed_shift_right (sub_word a 1) n) 1

  unfoldable pub is_int : Machine → Machine
  is_int m = record m { accu = ml.val_long (bit_and m.accu 1) }

  -- `Val_not(x)` is `Val_false + Val_true - x`.
  unfoldable pub bool_not : Machine → Machine
  bool_not m = record m { accu = sub_word (add_word (ml.val_long 0) (ml.val_long 1)) m.accu }

  abbrev compared : (ℕ → ℕ → Bool) → Machine → Machine
  compared test = binary λ a b. ml.val_long (of_bool (test a b))

  unfoldable pub cmp_eq : Machine → Machine
  cmp_eq = compared ◌==◌

  unfoldable pub cmp_neq : Machine → Machine
  cmp_neq = compared λ a b. not (a == b)

  unfoldable pub lt_int : Machine → Machine
  lt_int = compared signed_lt

  unfoldable pub le_int : Machine → Machine
  le_int = compared signed_le

  unfoldable pub gt_int : Machine → Machine
  gt_int = compared λ a b. signed_lt b a

  unfoldable pub ge_int : Machine → Machine
  ge_int = compared λ a b. signed_le b a

  unfoldable pub ult_int : Machine → Machine
  ult_int = compared ltb

  unfoldable pub uge_int : Machine → Machine
  uge_int = compared λ a b. leb b a
