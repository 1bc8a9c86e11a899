-- ===== src/Runtime/State.antt =====
-- The global variables of src/StdLib/CStdLib.c, and what that file takes from the OCaml runtime.
-- The stack is reached only through `StackPointer`, `caml_trapsp` and `caml_extern_sp`, a block
-- only through a value, so each has a memory of its own. Every word is a 64-bit pattern.
use camll_vm.Base.{
  ◌-◌, ◌%◌, ℕ, ◌+◌, ◌*◌, ◌/◌, ◌^◌, ◌<◌, ◌≤◌, ◌≡◌, List, Option, Memory, write, ptr_add, ptr_sub,
  sub_word, word, word_mod, ltb, if◌then◌else◌,
}

pub record Machine : Type 0 where
  pub accu : ℕ
  -- `StackPointer`
  pub sp : ℕ
  pub env : ℕ
  pub extra_args : ℕ
  pub stack : Memory
  pub heap : Memory
  -- `caml_trapsp`, `caml_extern_sp`, `caml_stack_threshold`, `caml_global_data`, `caml_exn_bucket`
  pub trap_sp : ℕ
  pub extern_sp : ℕ
  pub stack_threshold : ℕ
  pub global_data : ℕ
  pub exn_bucket : ℕ
  -- `NextExceptionContext`, the `Next` of each of `Buffers`, `CurrentBufferIndex`. A context is its
  -- index in `Buffers`, the null pointer is `none`.
  pub next_context : Option ℕ
  pub context_next : ℕ → Option ℕ
  pub buffer_index : ℕ
  -- `caml_external_raise`: null, or the `JmpBuf` of a context that may itself be null.
  pub external_raise : Option (Option ℕ)

-- The macros of `mlvalues.h` and the functions of the OCaml runtime that the file calls. `field v i`
-- is the address of `Field(v, i)`; `trap_link p` that of `Trap_link(p)`.
pub record Ocaml : Type 0 where
  pub val_long : ℕ → ℕ
  pub long_val : ℕ → ℕ
  pub field : ℕ → ℕ → ℕ
  pub header : ℕ → ℕ
  pub wosize_hd : ℕ → ℕ
  pub tag_hd : ℕ → ℕ
  pub make_header : ℕ → ℕ → ℕ
  pub closure_tag : ℕ
  pub infix_tag : ℕ
  pub double_array_tag : ℕ
  pub max_young_wosize : ℕ
  pub atom : ℕ → ℕ
  pub byte : Memory → ℕ → ℕ → ℕ
  pub set_byte : Memory → ℕ → ℕ → ℕ → Memory
  pub double_wosize : ℕ
  pub double_tag : ℕ
  pub double_val : Memory → ℕ → ℕ
  pub double_field : Memory → ℕ → ℕ → ℕ
  pub store_double_field : Memory → ℕ → ℕ → ℕ → Memory
  pub trap_link : ℕ → ℕ
  pub alloc_small : ℕ → ℕ → Machine → ℕ × Machine
  pub alloc_shr : ℕ → ℕ → Machine → ℕ × Machine
  pub realloc_stack : Machine → Machine
  pub primitive : ℕ → List ℕ → Machine → ℕ × Machine

-- The number `n` of 63 bits as a value, and the signed reading of a value.
abbrev pub tagged : ℕ → ℕ
tagged n = word (2 * n + 1)

abbrev pub untagged : ℕ → ℕ
untagged v = v / 2 + (if ltb v (2 ^ 63) then 0 else 2 ^ 63)

-- The conversion of a word to `int` and back, which keeps the sign of the low half.
abbrev pub int_of_word : ℕ → ℕ
int_of_word w = let low = w % 2 ^ 32 in if ltb low (2 ^ 31) then low else low + (2 ^ 64 - 2 ^ 32)

-- The documented representation of values: an integer is shifted left with its low bit set, a
-- block is the address of its first field, with the fields one word apart.
pub record IsStandard (ml : Ocaml) : Type 0 where
  pub val_long_lem : (n : ℕ) → ml.val_long n ≡ tagged n
  pub long_val_lem : (v : ℕ) → v < word_mod → ml.long_val v ≡ untagged v
  pub field_lem : (v i : ℕ) → ml.field v i ≡ word (v + 8 * i)
  pub header_lem : (v : ℕ) → ml.header v ≡ sub_word v 8
  pub trap_link_lem : (p : ℕ) → ml.trap_link p ≡ word (p + 8)

-- What the code relies on of `Alloc_small` between two collections, for a block of at most
-- `Max_young_wosize` words, which alone it is for: it changes the heap alone, and the new block has the
-- size that was asked for in its header and lies within the address space.
pub record IsAllocator (ml : Ocaml) : Type 0 where
  pub heap_only :
      (w t : ℕ) (m : Machine)
      → w ≤ ml.max_young_wosize
      → (ml.alloc_small w t m).1 ≡ record m { heap = (ml.alloc_small w t m).1.heap }
  pub sized :
      (w t : ℕ) (m : Machine)
      → w ≤ ml.max_young_wosize
      → ml.wosize_hd ((ml.alloc_small w t m).1.heap (ml.header (ml.alloc_small w t m).0)) ≡ w
  pub placed :
      (w t : ℕ) (m : Machine)
      → w ≤ ml.max_young_wosize
      → (8 ≤ (ml.alloc_small w t m).0) × ((ml.alloc_small w t m).0 + 8 * w < word_mod)

-- `StackPointer[n]`, and a write to it.
abbrev pub slot : Machine → ℕ → ℕ
slot m n = m.stack (ptr_add m.sp n)

abbrev pub set_slot : ℕ → ℕ → Machine → Machine
set_slot n v m = record m { stack = write m.stack (ptr_add m.sp n) v }

-- `*StackPointer`, the machine after `StackPointer += n`, and `*--StackPointer = v`.
abbrev pub top : Machine → ℕ
top m = m.stack m.sp

abbrev pub drop_slots : ℕ → Machine → Machine
drop_slots n m = record m { sp = ptr_add m.sp n }

abbrev pub push_word : ℕ → Machine → Machine
push_word v m = let p = ptr_sub m.sp 1 in record m { sp = p; stack = write m.stack p v }

module _ (ml : Ocaml) where
  -- `Field(v, i)`, and a write to it.
  abbrev pub get_field_at : Machine → ℕ → ℕ → ℕ
  get_field_at m v i = m.heap (ml.field v i)

  abbrev pub set_field_at : ℕ → ℕ → ℕ → Machine → Machine
  set_field_at v i x m = record m { heap = write m.heap (ml.field v i) x }

  abbrev pub wosize_val : Machine → ℕ → ℕ
  wosize_val m v = ml.wosize_hd (m.heap (ml.header v))

  abbrev pub tag_val : Machine → ℕ → ℕ
  tag_val m v = ml.tag_hd (m.heap (ml.header v))

  abbrev pub code_val : Machine → ℕ → ℕ
  code_val m v = get_field_at m v 0
