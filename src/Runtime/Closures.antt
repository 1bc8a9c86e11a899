-- ===== src/Runtime/Closures.antt =====
-- Closures, recursive closures and partial application (src/StdLib/CStdLib.c).
pub mod Copies
pub mod Partial
use camll_vm.Base.{
  ℕ, zero, suc, ◌+◌, ◌-◌, ◌*◌, ◌/◌, ◌%◌, ◌^◌, Bool, ltb, if◌then◌else◌, word, add_word, sub_word,
  ptr_add, ptr_sub, signed_lt, write,
}
use camll_vm.Runtime.State.{
  Machine, Ocaml, slot, set_slot, top, drop_slots, push_word, get_field_at, set_field_at,
  wosize_val, int_of_word,
}

module _ (ml : Ocaml) where
  -- `for (i = 0; i < n; i++) Field(v, base + i) = StackPointer[i]`, with `n` rounds left.
  unfoldable pub save_slots : ℕ → ℕ → ℕ → ℕ → Machine → Machine
  save_slots zero i base v m = m
  save_slots (suc n) i base v m =
      save_slots n (i + 1) base v (set_field_at ml v (base + i) (slot m i) m)

  -- `for (i = 0; i < n; i++) StackPointer[i] = Field(v, base + i)`.
  unfoldable pub load_slots : ℕ → ℕ → ℕ → ℕ → Machine → Machine
  load_slots zero i base v m = m
  load_slots (suc n) i base v m =
      load_slots n (i + 1) base v (set_slot i (get_field_at ml m v (base + i)) m)

  -- The rounds of a loop below a signed word.
  abbrev pub word_rounds : ℕ → ℕ
  word_rounds n = if ltb n (2 ^ 63) then n else 0

  -- `if (nvars > 0) *--StackPointer = Accu`.
  abbrev push_vars : ℕ → Machine → Machine
  push_vars nvars m = if signed_lt 0 nvars then push_word m.accu m else m

  abbrev alloc_closure : ℕ → Machine → Machine
  alloc_closure wosize m =
      let (block, m₁) = ml.alloc_small wosize ml.closure_tag m in record m₁ { accu = block }

  unfoldable pub closure : ℕ → ℕ → Machine → Machine
  unfolding save_slots
  closure nvars code m =
      let m₁ = alloc_closure (add_word 1 nvars) (push_vars nvars m) in
      let m₂ = set_field_at ml m₁.accu 0 code m₁ in
      drop_slots nvars (save_slots (word_rounds nvars) 0 1 m₂.accu m₂)

  unfoldable pub closure_rec : ℕ → ℕ → ℕ → Machine → Machine
  unfolding save_slots
  closure_rec nfuncs nvars code m =
      let head = sub_word (word (nfuncs * 2)) 1 in
      let m₁ = alloc_closure (add_word head nvars) (push_vars nvars m) in
      let m₂ = drop_slots nvars (save_slots (word_rounds nvars) 0 head m₁.accu m₁) in
      let m₃ = set_field_at ml m₂.accu 0 code m₂ in push_word m₃.accu m₃

  -- The pointer pushed is the address of the nested closure's code field.
  unfoldable pub set_closure_rec_nested_clos : ℕ → ℕ → Machine → Machine
  set_closure_rec_nested_clos idx code m =
      let p = sub_word (word (idx * 2)) 1 in
      let hd = ml.make_header (word (idx * 2)) ml.infix_tag in
      let m₁ = set_field_at ml m.accu p hd m in
      let m₂ = set_field_at ml m₁.accu (add_word p 1) code m₁ in
      push_word (ml.field m₂.accu (add_word p 1)) m₂

  unfoldable pub offset_closure : ℕ → Machine → Machine
  offset_closure offset m = record m { accu = add_word m.env (word (offset * 8)) }

  unfoldable pub create_restart_closure : ℕ → Machine → Machine
  unfolding save_slots
  create_restart_closure code m =
      let num_args = add_word 1 m.extra_args in
      let m₁ = alloc_closure (add_word num_args 2) m in
      let m₂ = set_field_at ml m₁.accu 1 m₁.env m₁ in
      let m₃ = save_slots num_args 0 2 m₂.accu m₂ in
      let m₄ = drop_slots num_args (set_field_at ml m₃.accu 0 code m₃) in
      let m₅ = record m₄ { env = slot m₄ 1; extra_args = ml.long_val (slot m₄ 2) } in
      drop_slots 3 m₅

  -- `num_args` is an `int`: the low half of the difference, with its sign.
  unfoldable pub restart : Machine → Machine
  unfolding load_slots
  restart m =
      let num_args = int_of_word (sub_word (wosize_val ml m m.env) 2) in
      let m₁ = record m { sp = ptr_sub m.sp num_args } in
      let m₂ = load_slots (word_rounds num_args) 0 2 m₁.env m₁ in
      record m₂ { env = get_field_at ml m₂ m₂.env 1; extra_args = add_word m₂.extra_args num_args }
