-- ===== src/Base/Words.antt =====
-- 64-bit machine words: bit patterns below 2 ^ 64, with the wrap-around written out.
use Prim.Native.Nat.{ℕ, ◌+◌, ◌-◌, ◌*◌, ◌%◌, ◌^◌, compare, Ordering}
use mathlib.Core.Bool.{Bool, true, false}

-- The number of patterns of a 64-bit word.
abbrev pub word_mod : ℕ
word_mod = 2 ^ 64

abbrev pub word : ℕ → ℕ
word n = n % word_mod

abbrev pub add_word : ℕ → ℕ → ℕ
add_word a b = word (a + b)

-- `b` is a word.
abbrev pub sub_word : ℕ → ℕ → ℕ
sub_word a b = word (a + word_mod - b)

-- `p + n` and `p - n` for a `value*`: the address of a word `n` further up or down.
abbrev pub ptr_add : ℕ → ℕ → ℕ
ptr_add p n = word (p + 8 * n)

abbrev pub ptr_sub : ℕ → ℕ → ℕ
ptr_sub p n = sub_word p (word (8 * n))

-- The order of the signed numbers that two words stand for.
abbrev pub signed_lt : ℕ → ℕ → Bool
signed_lt a b = elim (compare (word (a + 2 ^ 63)) (word (b + 2 ^ 63))) [
  | Ordering.lt ↦ true
  | _ ↦ false
]

abbrev pub signed_le : ℕ → ℕ → Bool
signed_le a b = elim (compare (word (a + 2 ^ 63)) (word (b + 2 ^ 63))) [
  | Ordering.gt ↦ false
  | _ ↦ true
]

-- A memory gives the word at each address.
abbrev pub Memory : Type 0
Memory = ℕ → ℕ

abbrev pub write : Memory → ℕ → ℕ → Memory
write m a v b = elim (compare a b) [ Ordering.eq ↦ v | _ ↦ m b ]
