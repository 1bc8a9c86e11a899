-- ===== src/CodeGen/Run/Spec.antt =====
-- The integer ZINC machine, which the generated code of src/GenBlock.cpp is to behave like, on values and a
-- list for the stack. It has the instructions on constants, integers and the stack alone: `CONSTINT`, `ACC`,
-- `PUSH`, `POP`, `ASSIGN`, the operations and comparisons on integers, `ISINT`, `BOOLNOT` and
-- `CHECK_SIGNALS`, with their short forms, and `jumps` decides the conditional branches. Any other instruction
-- stops it: the result is `none`.
use Prim.Native.Nat.{bit_and, bit_or, bit_xor}
use camll_vm.Base.{
  ℕ, ◌+◌, ◌-◌, ◌*◌, ◌/◌, ◌%◌, ◌^◌, Bool, true, false, not, Option, none, some, List, [], ◌∷◌,
  length, get_elem?, set, drop, ltb, leb, ◌==◌, if◌then◌else◌, ◌>>=◌,
}
use camll_vm.Opcode.{Opcode}
use camll_vm.Instruction.{ZInstruction, arg, sign_extend}
use camll_vm.Runtime.Ints.{of_bool}
use camll_vm.Runtime.Ints.Laws.{int_mod, int_lt, int_asr}
use camll_vm.Runtime.Ints.Division.{int_div, int_rem}
use camll_vm.CodeGen.Families.{general_form, pushed_form}

-- An integer of 63 bits, or the address of a block.
pub data Value : Type 0 where
  int ref : ℕ → Value

-- The accumulator, and the stack from its top down.
pub record Zinc : Type 0 where
  pub accu : Value
  pub stack : List Value

abbrev truth : Bool → Option ℕ
truth b = some (of_bool b)

-- The result of an instruction on the accumulator `a` and the top `b`; a division by 0 and a shift
-- by 64 or more have none.
abbrev pub on_ints : Opcode → ℕ → ℕ → Option ℕ
on_ints Opcode.addint a b = some ((a + b) % int_mod)
on_ints Opcode.subint a b = some ((a + int_mod - b) % int_mod)
on_ints Opcode.mulint a b = some (a * b % int_mod)
on_ints Opcode.divint a b = if b == 0 then none else some (int_div a b)
on_ints Opcode.modint a b = if b == 0 then none else some (int_rem a b)
on_ints Opcode.andint a b = some (bit_and a b)
on_ints Opcode.orint a b = some (bit_or a b)
on_ints Opcode.xorint a b = some (bit_xor a b)
on_ints Opcode.lslint a b = if ltb b 64 then some (a * 2 ^ b % int_mod) else none
on_ints Opcode.lsrint a b = if ltb b 64 then some (a / 2 ^ b) else none
on_ints Opcode.asrint a b = if ltb b 64 then some (int_asr a b) else none
on_ints Opcode.eq a b = truth (a == b)
on_ints Opcode.neq a b = truth (not (a == b))
on_ints Opcode.ltint a b = truth (int_lt a b)
on_ints Opcode.leint a b = truth (not (int_lt b a))
on_ints Opcode.gtint a b = truth (int_lt b a)
on_ints Opcode.geint a b = truth (not (int_lt a b))
on_ints Opcode.ultint a b = truth (ltb a b)
on_ints Opcode.ugeint a b = truth (leb b a)
on_ints _ a b = none

abbrev pub two_ints : Opcode → Value → List Value → Option Zinc
two_ints op (Value.int a) (Value.int b ∷ s) =
    on_ints op a b >>= λ c. some (record { accu = Value.int c; stack = s })
two_ints op v s = none

abbrev pub one_int : (ℕ → Option ℕ) → Value → List Value → Option Zinc
one_int f (Value.int a) s = f a >>= λ c. some (record { accu = Value.int c; stack = s })
one_int f (Value.ref r) s = none

abbrev pub kind_of : Value → ℕ
kind_of (Value.int a) = 1
kind_of (Value.ref r) = 0

-- `2 * n` is an `int32_t`: the bytecode gives such arguments to `OFFSETINT`.
abbrev pub fits_doubled : ℕ → Bool
fits_doubled n =
    if ltb n (2 ^ 30) then true else if leb (2 ^ 32 - 2 ^ 30) n then ltb n (2 ^ 32) else false

-- Whether the conditional jump is taken, with the argument `n` on the left of the comparison.
unfoldable pub jumps : Opcode → ℕ → Value → Option Bool
jumps Opcode.branchif n (Value.int a) = some (not (a == 0))
jumps Opcode.branchif n (Value.ref r) = some true
jumps Opcode.branchifnot n (Value.int a) = some (a == 0)
jumps Opcode.branchifnot n (Value.ref r) = some false
jumps Opcode.beq n (Value.int a) = some (sign_extend n % int_mod == a)
jumps Opcode.bneq n (Value.int a) = some (not (sign_extend n % int_mod == a))
jumps Opcode.bltint n (Value.int a) = some (int_lt (sign_extend n % int_mod) a)
jumps Opcode.bleint n (Value.int a) = some (not (int_lt a (sign_extend n % int_mod)))
jumps Opcode.bgtint n (Value.int a) = some (int_lt a (sign_extend n % int_mod))
jumps Opcode.bgeint n (Value.int a) = some (not (int_lt (sign_extend n % int_mod) a))
jumps Opcode.bultint n (Value.int a) = some (ltb (sign_extend n % int_mod) a)
jumps Opcode.bugeint n (Value.int a) = some (leb a (sign_extend n % int_mod))
jumps _ n v = none

-- The stack has room for `cap` values.
module _ (cap : ℕ) where
  abbrev pub zinc_push : Zinc → Option Zinc
  zinc_push z =
      if ltb (length z.stack) cap then some (record z { stack = z.accu ∷ z.stack }) else none

  -- An instruction with the argument `n`, which is signed.
  unfoldable pub zinc_base : Opcode → ℕ → Zinc → Option Zinc
  zinc_base Opcode.constint n z = some (record z { accu = Value.int (sign_extend n % int_mod) })
  zinc_base Opcode.push n z = zinc_push z
  zinc_base Opcode.acc n z = do v ← get_elem? z.stack (sign_extend n); some (record z { accu = v })
  zinc_base Opcode.pop n z =
      if leb (sign_extend n) (length z.stack)
      then some (record z { stack = drop (sign_extend n) z.stack })
      else none
  zinc_base Opcode.assign n z =
      if ltb (sign_extend n) (length z.stack)
      then some (record { accu = Value.int 0; stack = set z.stack (sign_extend n) z.accu })
      else none
  zinc_base Opcode.isint n z = some (record z { accu = Value.int (kind_of z.accu) })
  zinc_base Opcode.negint n z = one_int (λ a. some ((int_mod - a) % int_mod)) z.accu z.stack
  zinc_base Opcode.boolnot n z =
      one_int (λ a. if ltb a 2 then some (1 - a) else none) z.accu z.stack
  zinc_base Opcode.offsetint n z =
      one_int (λ a. if fits_doubled n then some ((a + sign_extend n) % int_mod) else none) z.accu
        z.stack
  zinc_base Opcode.check_signals n z = some z
  zinc_base op n z = two_ints op z.accu z.stack

  abbrev pub zinc_general : Opcode → ℕ → Option (Opcode × ℕ) → Zinc → Option Zinc
  zinc_general op n none z = zinc_base op n z
  zinc_general op n (some (g, k)) z = zinc_base g k z

  abbrev pub zinc_pushed : Opcode → ℕ → Option Opcode → Zinc → Option Zinc
  zinc_pushed op n none z = zinc_general op n (general_form op) z
  zinc_pushed op n (some rest) z = zinc_push z >>= zinc_general rest n (general_form rest)

  -- One instruction: `PUSHACC1` pushes and then does what `ACC` does with the argument 1.
  unfoldable pub zinc_step : ZInstruction → Zinc → Option Zinc
  unfolding zinc_base
  zinc_step inst z = zinc_pushed inst.op_num (arg inst 0) (pushed_form inst.op_num) z

  unfoldable pub zinc_run : List ZInstruction → Zinc → Option Zinc
  zinc_run [] z = some z
  zinc_run (inst ∷ rest) z = zinc_step inst z >>= zinc_run rest
