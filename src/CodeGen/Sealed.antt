-- ===== src/CodeGen/Sealed.antt =====
-- Code that goes on and code that is sealed, for the LLVM blocks of src/GenBlock.cpp.
use camll_vm.Base.{
  ◌≡◌, Bool, true, false, ◌&&◌, ◌||◌, not, Option, none, some, List, [], ◌∷◌, ◌++◌, All, All-append,
  ◌>>=◌, arith,
}
use camll_vm.Opcode.{Opcode}
use camll_vm.Instruction.{ZInstruction, is_jump_op, is_return_op, is_switch_op}
use camll_vm.CodeGen.Emit.{Code, is_terminator}
use camll_vm.CodeGen.Block.{Emitter, emit}

-- Code without a terminator, and code whose last instruction is its only terminator.
abbrev pub runs_on : List Code → Bool
runs_on [] = true
runs_on (c ∷ cs) = not (is_terminator c) && runs_on cs

abbrev pub is_sealed : List Code → Bool
is_sealed [] = false
is_sealed (c ∷ []) = is_terminator c
is_sealed (c ∷ d ∷ cs) = not (is_terminator c) && is_sealed (d ∷ cs)

abbrev pub IsSealed : List Code → Type 0
IsSealed code = is_sealed code ≡ true

-- The last block may go on; or it is sealed like the others.
abbrev pub IsOpen : Emitter → Type 0
IsOpen e = All IsSealed e.closed × (runs_on e.current ≡ true)

abbrev pub IsClosed : Emitter → Type 0
IsClosed e = All IsSealed e.closed × IsSealed e.current

pub runs_on-append :
    (a b : List Code) → runs_on a ≡ true → runs_on b ≡ true → runs_on (a ++ b) ≡ true
runs_on-append [] b h g = g
runs_on-append (c ∷ a) b h g = ground (arith, runs_on-append a b)

pub IsSealed-append : (a b : List Code) → runs_on a ≡ true → IsSealed b → IsSealed (a ++ b)
IsSealed-append [] b h g = g
IsSealed-append (c ∷ []) [] h g = cc
IsSealed-append (c ∷ []) (d ∷ b) h g = ground arith
IsSealed-append (c ∷ d ∷ a) b h g = ground (arith, IsSealed-append (d ∷ a) b)

pub emit_goes_on :
    (code : List Code) (e : Emitter) → runs_on code ≡ true → IsOpen e → IsOpen (emit code e)
emit_goes_on code e h o = (o.0, runs_on-append e.current code o.1 h)

pub emit_closes :
    (code : List Code) (e : Emitter) → IsSealed code → IsOpen e → IsClosed (emit code e)
emit_closes code e h o = (o.0, IsSealed-append e.current code o.1 h)

-- `addBlock` behind code that ends with its only terminator.
pub close_block :
    (bs : List (List Code)) (b code : List Code)
    → All IsSealed bs
    → runs_on b ≡ true
    → IsSealed code
    → All IsSealed (bs ++ (b ++ code) ∷ [])
close_block bs b code h o c =
    All-append IsSealed bs ((b ++ code) ∷ []) h (IsSealed-append b code o c, tt)

-- A property of the emitter that a step returns, when it returns.
abbrev pub Gives : (Emitter → Type 0) → Option Emitter → Type 0
Gives P none = Unit {0}
Gives P (some e) = P e

pub Gives-bind {ℓ} :
    {A : Type ℓ} (P : Emitter → Type 0) (m : Option A) (f : A → Option Emitter)
    → ((a : A) → Gives P (f a))
    → Gives P (m >>= f)
Gives-bind P none f h = tt
Gives-bind P (some a) f h = h a

-- The test of `genTermInst`: the instruction has ended its block.
abbrev pub ends_block : Opcode → Bool
ends_block op = is_jump_op op || is_return_op op || is_switch_op op

abbrev pub IsDone : Bool → Emitter → Type 0
IsDone true e = IsClosed e
IsDone false e = IsOpen e

-- The instructions of a block before its last do not end it.
abbrev pub HasInnerOnly : List ZInstruction → Type 0
HasInnerOnly front = All (λ (i : ZInstruction). ends_block i.op_num ≡ false) front
