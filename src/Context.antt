-- ===== src/Context.antt =====
-- `Context::init`, `generateMod` and `compile` (src/Context.cpp), and `main` (src/main.cpp): the
-- steps from a code section to LLVM code. The bytecode file is read, and the OCaml runtime started,
-- by the runtime's own functions: the code section, `caml_start_code` and `caml_code_size`, is an
-- argument. The passes of LLVM and the run of the main function are LLVM's.
pub mod Erase
mod Tests
use camll_vm.Base.{
  ℕ, ◌+◌, ◌-◌, ◌%◌, ◌^◌, Bool, true, false, ◌&&◌, ◌||◌, not, Option, none, some, List, ◌++◌, length,
  take, drop, ltb, leb, ◌==◌, if◌then◌else◌, ◌>>=◌,
}
use camll_vm.Instruction.{ZInstruction}
use camll_vm.Reader.{read_instructions}
use camll_vm.Annotate.{annotate_nodes}
use camll_vm.ModuleCreator.Generate.{Module, generate}
use camll_vm.CodeGen.Function.{Progress, compile}

-- `begin() + n` for an `int` above 0, else `end() + n`; an iterator outside the vector is a fault.
unfoldable pub position : ℕ → ℕ → Option ℕ
position size n =
    if ltb 0 n && ltb n (2 ^ 31)
    then (if leb n size then some n else none)
    else if n == 0
    then some size
    else if leb (2 ^ 32 - n) size
    then some (size - (2 ^ 32 - n))
    else none

-- `erase(b, e)`; a range that ends before it begins is a fault.
unfoldable pub erase : ℕ → ℕ → List ZInstruction → Option (List ZInstruction)
erase b e insts =
    if leb b e && leb e (length insts) then some (take b insts ++ drop e insts) else none

-- The range from `EraseFirst` to `EraseLast`.
unfoldable pub erase_range : ℕ → ℕ → List ZInstruction → Option (List ZInstruction)
unfolding position erase
erase_range first last insts =
    if first == last
    then some insts
    else (do b ← position (length insts) first; e ← position (length insts) last; erase b e insts)

-- `init`, from `readInstructions` on.
unfoldable pub init : Bool → List ℕ → ℕ → ℕ → ℕ → ℕ → Option (List ZInstruction)
unfolding erase_range erase
init big code size from first last = do
  insts ← read_instructions big code size
  marked ← annotate_nodes insts
  kept ← erase_range first last marked
  erase 0 from kept

-- What the command line gives: `erased` is what `sscanf` makes of the range, if it finds two numbers.
pub record Options : Type 0 where
  pub well_formed : Bool
  pub help : Bool
  pub show_unimplemented : Bool
  pub has_file : Bool
  pub erased : Option (ℕ × ℕ)
  pub from : ℕ
  pub step : ℕ

-- How far the program gets: it exits with a code, or has gone through the steps.
pub data Reached : Type 0 where
  exits : ℕ → Reached
  has_read : List ZInstruction → Reached
  has_module : Module → Reached
  has_code : Progress → Reached

-- The order of the signed numbers that two patterns of `int` stand for.
abbrev pub int_above : ℕ → ℕ → Bool
int_above a b = ltb ((b + 2 ^ 31) % 2 ^ 32) ((a + 2 ^ 31) % 2 ^ 32)

-- The steps; the last step, the run of the main function, is LLVM's.
unfoldable pub run_steps : Bool → List ℕ → ℕ → Options → ℕ × ℕ → Option Reached
unfolding init
run_steps big code size o r = do
  insts ← init big code size o.from r.0 r.1
  if not (int_above o.step 1) then some (Reached.has_read insts) else (do
    m ← generate 0 0 insts
    if not (int_above o.step 2)
        then some (Reached.has_module m)
        else (do p ← compile m.functions m.main; some (Reached.has_code p)))

abbrev with_range : (ℕ × ℕ → Option Reached) → Option (ℕ × ℕ) → Option Reached
with_range f none = some (Reached.exits 1)
with_range f (some r) = if int_above r.0 r.1 then some (Reached.exits 1) else f r

-- `main`.
unfoldable pub run_main : Bool → List ℕ → ℕ → Options → Option Reached
unfolding run_steps
run_main big code size o =
    if not o.well_formed
    then some (Reached.exits 1)
    else if o.help || o.show_unimplemented
    then some (Reached.exits 0)
    else if not o.has_file
    then some (Reached.exits 1)
    else with_range (run_steps big code size o) o.erased
