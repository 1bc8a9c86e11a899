-- ===== src/Runtime/Frames.antt =====
-- Application, return, traps and calls of C primitives (src/StdLib/CStdLib.c). A code pointer is a
-- word, the null pointer 0.
pub mod Calls
pub mod Traps
pub mod Tails
pub mod Primitives
use camll_vm.Base.{
  ℕ, zero, suc, ◌+◌, ◌-◌, ◌*◌, ◌^◌, Bool, Option, none, some, List, [], ◌∷◌, ltb, if◌then◌else◌,
  ptr_add, ptr_sub, add_word, sub_word, signed_lt, signed_le, write,
}
use camll_vm.Runtime.State.{Machine, Ocaml, slot, set_slot, top, drop_slots, push_word, code_val}

-- `StackPointer -= n`.
abbrev pub reserve : ℕ → Machine → Machine
reserve n m = record m { sp = ptr_sub m.sp n }

-- What a function hands back to the generated code: where to go on, and the machine.
abbrev pub Call : Type 0
Call = ℕ × Machine

module _ (ml : Ocaml) where
  unfoldable pub check_stacks : Machine → Machine
  check_stacks m =
      if ltb m.sp m.stack_threshold
      then (let m₁ = ml.realloc_stack (record m { extern_sp = m.sp }) in
          record m₁ { sp = m₁.extern_sp })
      else m

  unfoldable pub apply : ℕ → Machine → Call
  apply n m = (code_val ml m m.accu, record m { extra_args = sub_word n 1; env = m.accu })

  abbrev enter : ℕ → Machine → Call
  enter extra m =
      let m₁ = check_stacks (record m { env = m.accu; extra_args = extra }) in
      (code_val ml m₁ m₁.accu, m₁)

  unfoldable pub apply1 : Machine → Call
  unfolding check_stacks
  apply1 m =
      let arg1 = slot m 0 in
      let m₁ = set_slot 0 arg1 (reserve 3 m) in
      let m₂ = set_slot 2 m₁.env m₁ in
      let m₃ = set_slot 3 (ml.val_long m₂.extra_args) m₂ in enter 0 m₃

  unfoldable pub apply2 : Machine → Call
  unfolding check_stacks
  apply2 m =
      let arg1 = slot m 0 in
      let arg2 = slot m 1 in
      let m₁ = set_slot 1 arg2 (set_slot 0 arg1 (reserve 3 m)) in
      let m₂ = set_slot 3 m₁.env m₁ in
      let m₃ = set_slot 4 (ml.val_long m₂.extra_args) m₂ in enter 1 m₃

  unfoldable pub apply3 : Machine → Call
  unfolding check_stacks
  apply3 m =
      let arg1 = slot m 0 in
      let arg2 = slot m 1 in
      let arg3 = slot m 2 in
      let m₁ = set_slot 2 arg3 (set_slot 1 arg2 (set_slot 0 arg1 (reserve 3 m))) in
      let m₂ = set_slot 4 m₁.env m₁ in
      let m₃ = set_slot 5 (ml.val_long m₂.extra_args) m₂ in enter 2 m₃

  -- `for (i = nargs - 1; i >= 0; i--) newsp[i] = StackPointer[i]`, with `n` rounds left.
  unfoldable pub slide : ℕ → ℕ → Machine → Machine
  slide zero newsp m = m
  slide (suc n) newsp m =
      slide n newsp (record m { stack = write m.stack (ptr_add newsp n) (slot m n) })

  -- The loop runs on an `int`: no rounds for a negative `nargs`.
  abbrev slide_rounds : ℕ → ℕ
  slide_rounds nargs = if ltb nargs (2 ^ 31) then nargs else 0

  unfoldable pub appterm : ℕ → ℕ → Machine → Call
  unfolding check_stacks slide
  appterm nargs slotsize m =
      let newsp = ptr_sub (ptr_add m.sp slotsize) nargs in
      let m₁ = record (slide (slide_rounds nargs) newsp m) { sp = newsp } in
      enter (sub_word (add_word m₁.extra_args nargs) 1) m₁

  unfoldable pub appterm1 : ℕ → Machine → Call
  unfolding check_stacks
  appterm1 slotsize m =
      let arg1 = slot m 0 in
      let m₁ = record m { sp = ptr_sub (ptr_add m.sp slotsize) 1 } in
      let m₂ = set_slot 0 arg1 m₁ in enter m₂.extra_args m₂

  unfoldable pub appterm2 : ℕ → Machine → Call
  unfolding check_stacks
  appterm2 slotsize m =
      let arg1 = slot m 0 in
      let arg2 = slot m 1 in
      let m₁ = record m { sp = ptr_sub (ptr_add m.sp slotsize) 2 } in
      let m₂ = set_slot 1 arg2 (set_slot 0 arg1 m₁) in enter (add_word m₂.extra_args 1) m₂

  unfoldable pub appterm3 : ℕ → Machine → Call
  unfolding check_stacks
  appterm3 slotsize m =
      let arg1 = slot m 0 in
      let arg2 = slot m 1 in
      let arg3 = slot m 2 in
      let m₁ = record m { sp = ptr_sub (ptr_add m.sp slotsize) 3 } in
      let m₂ = set_slot 2 arg3 (set_slot 1 arg2 (set_slot 0 arg1 m₁)) in
      enter (add_word m₂.extra_args 2) m₂

  unfoldable pub handle_return : ℕ → Machine → Call
  handle_return stsz m =
      let m₁ = drop_slots stsz m in
      if signed_lt 0 m₁.extra_args
      then (
        code_val ml m₁ m₁.accu,
        record m₁ { extra_args = sub_word m₁.extra_args 1; env = m₁.accu },
      )
      else (0, drop_slots 3 (record m₁ { env = slot m₁ 1; extra_args = ml.long_val (slot m₁ 2) }))

  unfoldable pub push_ret_addr : Machine → Machine
  push_ret_addr m =
      let m₁ = set_slot 0 (ml.val_long 0) (reserve 3 m) in
      let m₂ = set_slot 1 m₁.env m₁ in set_slot 2 (ml.val_long m₂.extra_args) m₂

  unfoldable pub push_trap : Machine → Machine
  push_trap m =
      let m₁ = reserve 4 m in
      let m₂ = record m₁ { stack = write m₁.stack (ml.trap_link m₁.sp) m₁.trap_sp } in
      let m₃ = set_slot 2 m₂.env m₂ in
      let m₄ = set_slot 3 (ml.val_long m₃.extra_args) m₃ in record m₄ { trap_sp = m₄.sp }

  unfoldable pub pop_trap : Machine → Machine
  pop_trap m = drop_slots 4 (record m { trap_sp = m.stack (ml.trap_link m.sp) })

  unfoldable pub get_exception_value : Machine → Machine
  get_exception_value m =
      let m₁ = record m { sp = m.trap_sp } in
      let m₂ = record m₁ { env = slot m₁ 2; trap_sp = m₁.stack (ml.trap_link m₁.sp) } in
      let m₃ = record m₂ { extra_args = ml.long_val (slot m₂ 3) } in
      record (drop_slots 4 m₃) { accu = m₃.exn_bucket }

  -- `Setup_for_c_call`, the call, `Restore_after_c_call`.
  abbrev pub setup_for_c_call : Machine → Machine
  setup_for_c_call m = let m₁ = push_word m.env m in record m₁ { extern_sp = m₁.sp }

  abbrev restore_after_c_call : Machine → Machine
  restore_after_c_call m =
      let m₁ = record m { sp = m.extern_sp } in drop_slots 1 (record m₁ { env = top m₁ })

  -- The call of `Primitive(prim)`, its result in the accumulator.
  abbrev call_primitive : ℕ → List ℕ → Machine → Machine
  call_primitive prim args m =
      let (v, m₁) = ml.primitive prim args m in restore_after_c_call (record m₁ { accu = v })

  unfoldable pub c_call1 : ℕ → Machine → Machine
  c_call1 prim m = let s = setup_for_c_call m in call_primitive prim (s.accu ∷ []) s

  unfoldable pub c_call2 : ℕ → Machine → Machine
  c_call2 prim m =
      let s = setup_for_c_call m in drop_slots 1 (call_primitive prim (s.accu ∷ slot s 1 ∷ []) s)

  unfoldable pub c_call3 : ℕ → Machine → Machine
  c_call3 prim m =
      let s = setup_for_c_call m in
      drop_slots 2 (call_primitive prim (s.accu ∷ slot s 1 ∷ slot s 2 ∷ []) s)

  unfoldable pub c_call4 : ℕ → Machine → Machine
  c_call4 prim m =
      let s = setup_for_c_call m in
      drop_slots 3 (call_primitive prim (s.accu ∷ slot s 1 ∷ slot s 2 ∷ slot s 3 ∷ []) s)

  unfoldable pub c_call5 : ℕ → Machine → Machine
  c_call5 prim m =
      let s = setup_for_c_call m in
      drop_slots 4 (call_primitive prim (s.accu ∷ slot s 1 ∷ slot s 2 ∷ slot s 3 ∷ slot s 4 ∷ []) s)

  -- The arguments are the address of the first one and their number.
  unfoldable pub c_calln : ℕ → ℕ → Machine → Machine
  c_calln prim nargs m =
      let s = setup_for_c_call (push_word m.accu m) in
      drop_slots nargs (call_primitive prim (ptr_add s.sp 1 ∷ nargs ∷ []) s)

unfoldable pub check_grab : ℕ → Machine → Bool
check_grab required m = signed_le required m.extra_args

unfoldable pub subtract_extra_args : ℕ → Machine → Machine
subtract_extra_args required m = record m { extra_args = sub_word m.extra_args required }
