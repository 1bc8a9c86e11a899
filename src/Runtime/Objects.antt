-- ===== src/Runtime/Objects.antt =====
-- Method lookup (src/StdLib/CStdLib.c). The indices `li`, `hi` and `mi` are C `int`s: a sum of 2 ^ 31 or
-- more overflows, which is a fault; a negative `hi` ends the loop at once, as 0 does.
pub mod Search
use Prim.Native.Nat.{bit_or}
use camll_vm.Base.{
  ℕ, zero, suc, ◌+◌, ◌-◌, ◌*◌, ◌/◌, ◌%◌, ◌^◌, Bool, true, false, Option, none, some, ltb,
  if◌then◌else◌, signed_lt, ◌>>=◌,
}
use camll_vm.Instruction.{rounds}
use camll_vm.Runtime.State.{Machine, Ocaml, slot, push_word, get_field_at, int_of_word}

-- `mi = ((li + hi) >> 1) | 1`, if the sum is an `int`.
unfoldable pub middle : ℕ → ℕ → Option ℕ
middle li hi = if ltb (li + hi) (2 ^ 31) then some (bit_or ((li + hi) / 2) 1) else none

-- `while (li < hi)`: `tag` gives `Field(meths, mi)`. `none` means a fault, or that the fuel ran out.
unfoldable pub search_method : ℕ → (ℕ → ℕ) → ℕ → ℕ → ℕ → Option ℕ
search_method zero tag wanted li hi = none
search_method (suc fuel) tag wanted li hi =
    let search = search_method fuel tag wanted in
    if ltb li hi
    then (middle li hi >>= λ mi.
        if signed_lt wanted (tag mi) then search li (mi - 2) else search mi hi)
    else some li

module _ (ml : Ocaml) where
  -- `Lookup(obj, lab)`.
  unfoldable pub get_method : Machine → Machine
  get_method m =
      let meths = get_field_at ml m (slot m 0) 0 in
      record m { accu = get_field_at ml m meths (int_of_word (ml.long_val m.accu)) }

  -- The table of methods of the object on top of the stack.
  abbrev pub methods : Machine → ℕ
  methods m = get_field_at ml m (slot m 0) 0

  unfoldable pub get_dyn_met : ℕ → Machine → Option Machine
  get_dyn_met fuel m =
      let meths = methods m in
      let hi = rounds (get_field_at ml m meths 0 % 2 ^ 32) in
      search_method fuel (get_field_at ml m meths) m.accu 3 hi >>= λ li.
      some (record m { accu = get_field_at ml m meths (li - 1) })

  unfoldable pub get_pub_met : ℕ → ℕ → Machine → Option Machine
  get_pub_met fuel met m = get_dyn_met fuel (record (push_word m.accu m) { accu = ml.val_long met })
