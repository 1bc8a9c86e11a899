-- ===== src/Reader.antt =====
-- `readInstructions` (src/Instructions.cpp): a code section, word by word, becomes a vector of
-- instructions whose code offsets are indices into that vector.
pub mod Numbering
pub mod Fuel
pub mod Resolved
pub mod Notes
pub mod Bounds
mod Tests
use camll_vm.Base.{
  ℕ, zero, suc, ◌+◌, ◌-◌, ◌/◌, ◌%◌, ◌^◌, Bool, true, false, Option, none, some, List, [], ◌∷◌, ◌++◌,
  length, get_elem?, set, ltb, ◌==◌, if◌then◌else◌, ◌>>=◌,
}
use camll_vm.Endian.{u32, u32_mod, to_big_endian}
use camll_vm.Opcode.{Opcode, arity, all_op_codes}
use camll_vm.Instruction.{
  ZInstruction, InstrAnnotation, arg, rounds, code_offset_args, is_closure_rec, is_switch,
}

-- The variables of the loop. `tab` is what `TabInst` has not passed, `offset` is
-- `TabInst - TabInstB` and `counter` is `i`. An instruction pointer is its number in the vector; of the
-- instruction at a position, only the `idx` is kept.
pub record Reader : Type 0 where
  pub counter : ℕ
  pub tab : List ℕ
  pub offset : ℕ
  pub pos : ℕ
  pub positions : List (ℕ × ℕ)
  pub instructions : List ZInstruction
  pub to_adjust : List ℕ

-- A write into a fixed array: out of range is a fault.
abbrev pub store : List ℕ → ℕ → ℕ → Option (List ℕ)
store xs i v = if ltb i (length xs) then some (set xs i v) else none

abbrev pub zeros : ℕ → List ℕ
zeros zero = []
zeros (suc n) = 0 ∷ zeros n

abbrev pub is_offset_arg : Option ℕ → ℕ → Bool
is_offset_arg none j = false
is_offset_arg (some k) j = k == j

module _ (big : Bool) where
  -- `toBigEndian(*TabInst++)`.
  unfoldable pub next_word : Reader → Option (ℕ × Reader)
  next_word r = elim r.tab [
    | [] ↦ none
    | w ∷ rest ↦ some (to_big_endian big w, record r { tab = rest; offset = r.offset + 1 })
  ]

  -- The loop over `Arity()`, with `n` rounds left, for instruction number `i`.
  unfoldable pub read_args : ℕ → ℕ → ℕ → ZInstruction → Reader → Option (ZInstruction × Reader)
  read_args zero j i inst r = some (inst, r)
  read_args (suc n) j i inst r = do
    (w, r') ← next_word r
    let coded = is_offset_arg (code_offset_args inst.op_num) j
    let val = if coded then u32 (r.pos + w + 1) else w
    args' ← store inst.args j val
    read_args n (j + 1) i (record inst { args = args' })
        (record r' {
          pos = u32 (r.pos + 1);
          to_adjust = if coded then r.to_adjust ++ i ∷ [] else r.to_adjust;
        })

  -- The offsets of `CLOSUREREC`, relative to `base`.
  unfoldable pub read_closure_rec :
      ℕ → ℕ → ℕ → ZInstruction → Reader → Option (ZInstruction × Reader)
  read_closure_rec zero j base inst r = some (inst, r)
  read_closure_rec (suc n) j base inst r = do
    (w, r') ← next_word r
    fns ← store inst.closure_rec_fns j (u32 (base + w))
    read_closure_rec n (j + 1) base (record inst { closure_rec_fns = fns }) r'

  -- The offsets of `SWITCH`, relative to `base`.
  unfoldable pub read_switch : ℕ → ℕ → ZInstruction → Reader → Option (ZInstruction × Reader)
  read_switch zero base inst r = some (inst, r)
  read_switch (suc n) base inst r = do
    (w, r') ← next_word r
    let entries = inst.switch_entries ++ u32 (base + w) ∷ []
    read_switch n base (record inst { switch_entries = entries }) r'

  -- `(Args[0] >> 16) + (Args[0] & 0XFFFF)`, with the sign kept by the shift.
  unfoldable pub num_switch_entries : ℕ → ℕ
  num_switch_entries w =
      u32 ((if ltb w (2 ^ 31) then w / 2 ^ 16 else w / 2 ^ 16 + (2 ^ 32 - 2 ^ 16)) + w % 2 ^ 16)

  -- The part of the body after the arguments: `Pos++`, the offsets, `Pos += n - 1`.
  unfoldable pub read_offsets : ℕ → ZInstruction → Reader → Option (ZInstruction × Reader)
  read_offsets i inst r =
      if is_closure_rec inst
      then (do
        let base = u32 (r.pos + 1)
        (inst', r') ← read_closure_rec (rounds (arg inst 0)) 0 base inst r
        some (
          inst',
          record r' {
            pos = u32 (base + arg inst 0 + u32_mod - 1);
            to_adjust = r'.to_adjust ++ i ∷ [];
          },
        ))
      else if is_switch inst
      then (do
        let base = u32 (r.pos + 1)
        let n = num_switch_entries (arg inst 0)
        (inst', r') ← read_switch (rounds n) base inst r
        some (
          inst',
          record r' { pos = u32 (base + n + u32_mod - 1); to_adjust = r'.to_adjust ++ i ∷ [] },
        ))
      else some (inst, r)

  fresh : Opcode → ℕ → ℕ → ZInstruction
  fresh op i offset = record {
    op_num = op;
    args = zeros 4;
    idx = i;
    orig_idx = offset;
    closure_rec_fns = zeros 32;
    switch_entries = [];
    annotation = InstrAnnotation.nothing;
  }

  -- One round of the `while`. An opcode past the table is a fault.
  unfoldable pub read_one : Reader → Option Reader
  unfolding fresh
  read_one r = do
    let i = length r.instructions
    (w, r₁) ← next_word r
    op ← get_elem? all_op_codes w
    let pos' = u32 (r.pos + 1)
    (inst, r₂) ←
        read_args (arity op) 0 i (fresh op r.counter r.offset)
          (record r₁ { pos = pos'; positions = (pos', r.counter) ∷ r.positions })
    (inst', r₃) ← read_offsets i inst r₂
    some (record r₃ { counter = r₃.counter + 1; instructions = r₃.instructions ++ inst' ∷ [] })

  -- `while (Pos < Size)`.
  unfoldable pub read_loop : ℕ → ℕ → Reader → Option Reader
  read_loop zero size r = none
  read_loop (suc fuel) size r = elim (ltb r.pos size) [
    | true ↦ (read_one r >>= λ r'. read_loop fuel size r')
    | false ↦ some r
  ]

-- `InstPositions[p]->idx`; a position that begins no instruction gives a null pointer.
unfoldable pub idx_at : List (ℕ × ℕ) → ℕ → Option ℕ
idx_at [] p = none
idx_at ((q, i) ∷ ps) p = if q == p then some i else idx_at ps p

-- The first `n` entries, each replaced by the index of its target.
unfoldable pub resolve_fns : List (ℕ × ℕ) → ℕ → List ℕ → Option (List ℕ)
resolve_fns ps zero fns = some fns
resolve_fns ps (suc n) [] = none
resolve_fns ps (suc n) (f ∷ fns) = do i ← idx_at ps f; rest ← resolve_fns ps n fns; some (i ∷ rest)

-- The code offset of any other instruction to adjust.
unfoldable pub adjust_arg : List (ℕ × ℕ) → ZInstruction → Option ℕ → Option ZInstruction
adjust_arg ps inst none = none
adjust_arg ps inst (some j) = do
  i ← idx_at ps (arg inst j)
  args' ← store inst.args j i
  some (record inst { args = args' })

unfoldable pub adjust_inst : List (ℕ × ℕ) → ZInstruction → Option ZInstruction
adjust_inst ps inst =
    if is_closure_rec inst
    then (do
      fns ← resolve_fns ps (rounds (arg inst 0)) inst.closure_rec_fns
      some (record inst { closure_rec_fns = fns }))
    else if is_switch inst
    then (do
      entries ← resolve_fns ps (length inst.switch_entries) inst.switch_entries
      some (record inst { switch_entries = entries }))
    else adjust_arg ps inst (code_offset_args inst.op_num)

-- The second loop, over the instructions to adjust.
unfoldable pub adjust : List (ℕ × ℕ) → List ℕ → List ZInstruction → Option (List ZInstruction)
adjust ps [] insts = some insts
adjust ps (k ∷ ks) insts = do
  inst ← get_elem? insts k
  inst' ← adjust_inst ps inst
  adjust ps ks (set insts k inst')

abbrev pub start : List ℕ → Reader
start tab = record {
  counter = 0;
  tab = tab;
  offset = 0;
  pos = 0;
  positions = [];
  instructions = [];
  to_adjust = [];
}

-- `Size` is in bytes.
unfoldable pub read_instructions : Bool → List ℕ → ℕ → Option (List ZInstruction)
read_instructions big tab size = do
  r ← read_loop big (suc (length tab)) (size / 4) (start tab)
  adjust r.positions r.to_adjust r.instructions
