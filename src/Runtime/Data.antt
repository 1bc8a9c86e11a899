-- ===== src/Runtime/Data.antt =====
-- Constants, the stack, globals and blocks (src/StdLib/CStdLib.c). `Modify` and
-- `caml_initialize` are stores: the write barrier's own tables are not modelled.
use camll_vm.Base.{
  ℕ, zero, suc, ◌+◌, ◌-◌, ◌*◌, ◌/◌, ◌%◌, ◌^◌, Bool, leb, ◌==◌, if◌then◌else◌, word, add_word,
}
use camll_vm.Runtime.State.{
  Machine, Ocaml, slot, set_slot, top, drop_slots, push_word, get_field_at, set_field_at,
  wosize_val, tag_val, int_of_word,
}

unfoldable pub init : Machine → Machine
init m = record m { sp = m.extern_sp }

unfoldable pub const_int : ℕ → Machine → Machine
const_int ci m = record m { accu = ci }

unfoldable pub push : Machine → Machine
push m = push_word m.accu m

unfoldable pub pop : ℕ → Machine → Machine
pop n m = drop_slots n m

unfoldable pub acc : ℕ → Machine → Machine
acc n m = record m { accu = slot m n }

module _ (ml : Ocaml) where
  unfoldable pub env_acc : ℕ → Machine → Machine
  env_acc n m = record m { accu = get_field_at ml m m.env n }

  unfoldable pub assign : ℕ → Machine → Machine
  assign n m = record (set_slot n m.accu m) { accu = ml.val_long 0 }

  unfoldable pub get_field : ℕ → Machine → Machine
  get_field idx m = record m { accu = get_field_at ml m m.accu idx }

  unfoldable pub set_field : ℕ → Machine → Machine
  set_field idx m = record (set_field_at ml m.accu idx (top m) (drop_slots 1 m)) {
    accu = ml.val_long 0;
  }

  unfoldable pub get_atom : ℕ → Machine → Machine
  get_atom idx m = record m { accu = ml.atom idx }

  unfoldable pub get_block_size : Machine → ℕ → ℕ
  get_block_size m block = wosize_val ml m block

  unfoldable pub is_closure_header : ℕ → Bool
  is_closure_header hd = ml.tag_hd hd == ml.closure_tag

  unfoldable pub make_block1 : ℕ → Machine → Machine
  make_block1 tag m =
      let (block, m₁) = ml.alloc_small 1 tag m in
      record (set_field_at ml block 0 m₁.accu m₁) { accu = block }

  unfoldable pub make_block2 : ℕ → Machine → Machine
  make_block2 tag m =
      let (block, m₁) = ml.alloc_small 2 tag m in
      let m₂ = set_field_at ml block 0 m₁.accu m₁ in
      let m₃ = set_field_at ml block 1 (slot m₂ 0) m₂ in record (drop_slots 1 m₃) { accu = block }

  unfoldable pub make_block3 : ℕ → Machine → Machine
  make_block3 tag m =
      let (block, m₁) = ml.alloc_small 3 tag m in
      let m₂ = set_field_at ml block 0 m₁.accu m₁ in
      let m₃ = set_field_at ml block 1 (slot m₂ 0) m₂ in
      let m₄ = set_field_at ml block 2 (slot m₃ 1) m₃ in record (drop_slots 2 m₄) { accu = block }

  -- `for (; i < wosize; i++) Field(block, i) = *StackPointer++`, with `n` rounds left.
  unfoldable pub fill_from_stack : ℕ → ℕ → ℕ → Machine → Machine
  fill_from_stack zero i block m = m
  fill_from_stack (suc n) i block m =
      fill_from_stack n (i + 1) block (set_field_at ml block i (top m) (drop_slots 1 m))

  -- The two branches differ in the heap that the block comes from.
  unfoldable pub make_block : ℕ → ℕ → Machine → Machine
  make_block tag wosize m =
      let (block, m₁) =
        (if leb wosize ml.max_young_wosize
          then ml.alloc_small wosize tag m
          else ml.alloc_shr wosize tag m) in
      let m₂ = fill_from_stack (wosize - 1) 1 block (set_field_at ml block 0 m₁.accu m₁) in
      record m₂ { accu = block }

  abbrev store_double : ℕ → ℕ → ℕ → Machine → Machine
  store_double block i v m = record m {
    heap = ml.store_double_field m.heap block i (ml.double_val m.heap v);
  }

  unfoldable pub fill_doubles : ℕ → ℕ → ℕ → Machine → Machine
  fill_doubles zero i block m = m
  fill_doubles (suc n) i block m =
      fill_doubles n (i + 1) block (drop_slots 1 (store_double block i (top m) m))

  unfoldable pub make_float_block : ℕ → Machine → Machine
  make_float_block size m =
      let words = size * ml.double_wosize in
      let (block, m₁) =
        (if leb size (ml.max_young_wosize / ml.double_wosize)
          then ml.alloc_small words ml.double_array_tag m
          else ml.alloc_shr words ml.double_array_tag m) in
      let m₂ = fill_doubles (size - 1) 1 block (store_double block 0 m₁.accu m₁) in
      record m₂ { accu = block }

  unfoldable pub store_double_field : ℕ → Machine → Machine
  store_double_field idx m =
      drop_slots 1 (record (store_double m.accu idx (top m) m) { accu = ml.val_long 0 })

  -- `Store_double_val` writes the only field of the new block.
  unfoldable pub get_double_field : ℕ → Machine → Machine
  get_double_field idx m =
      let d = ml.double_field m.heap m.accu idx in
      let (block, m₁) = ml.alloc_small ml.double_wosize ml.double_tag m in
      record m₁ { accu = block; heap = ml.store_double_field m₁.heap block 0 d }

  unfoldable pub get_global : ℕ → Machine → Machine
  get_global idx m = record m { accu = get_field_at ml m m.global_data idx }

  unfoldable pub set_global : ℕ → Machine → Machine
  set_global idx m = set_field_at ml m.global_data idx m.accu m

  unfoldable pub vect_length : Machine → Machine
  vect_length m =
      let size = wosize_val ml m m.accu in
      let floats = tag_val ml m m.accu == ml.double_array_tag in
      record m { accu = ml.val_long (if floats then size / ml.double_wosize else size) }

  unfoldable pub get_vect_item : Machine → Machine
  get_vect_item m =
      drop_slots 1 (record m { accu = get_field_at ml m m.accu (ml.long_val (slot m 0)) })

  unfoldable pub set_vect_item : Machine → Machine
  set_vect_item m =
      let m₁ = set_field_at ml m.accu (ml.long_val (slot m 0)) (slot m 1) (drop_slots 2 m) in
      record m₁ { accu = ml.val_long 0 }

  unfoldable pub get_string_char : Machine → Machine
  get_string_char m =
      drop_slots 1
        (record m { accu = ml.val_long (ml.byte m.heap m.accu (ml.long_val (slot m 0))) })

  -- The value is cut to an `unsigned char`.
  unfoldable pub set_string_char : Machine → Machine
  set_string_char m =
      let byte = ml.long_val (slot m 1) % 2 ^ 8 in
      drop_slots 2 (record m {
        heap = ml.set_byte m.heap m.accu (ml.long_val (slot m 0)) byte;
        accu = ml.val_long 0;
      })

  -- `Is_block` tests the low bit. The index is cut to an `int`.
  unfoldable pub get_switch_offset : ℕ → ℕ → Machine → ℕ
  get_switch_offset switch_arg dispatch m =
      if dispatch % 2 == 0
      then add_word (switch_arg % 2 ^ 16) (tag_val ml m dispatch)
      else int_of_word (ml.long_val dispatch)

  unfoldable pub offset_ref : ℕ → Machine → Machine
  offset_ref offset m =
      let v = add_word (get_field_at ml m m.accu 0) (word (2 * offset)) in
      record (set_field_at ml m.accu 0 v m) { accu = ml.val_long 0 }
