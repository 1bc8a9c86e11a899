-- ===== src/CodeGen/Run/Plain.antt =====
-- The code of the instructions that have no argument in their opcode (src/GenBlock.cpp), run on the
-- machine of src/StdLib/CStdLib.c, against the integer ZINC machine.
use Prim.Native.Nat.{bit_and}
use camll_vm.Base.{
  ℕ, ◌+◌, ◌-◌, ◌*◌, ◌%◌, ◌<◌, ◌≤◌, ◌≡◌, refl, ap, ◌∙◌, subst, true, Bool-cases, inl, inr, Option,
  none, some, List, [], ◌∷◌, length, get_elem?, ltb, leb, if◌then◌else◌, arith, word, word_mod,
  some_inj, add_word, sub_word, >>=-eq-some, ltb→lt, leb→le,
}
use camll_vm.Base.Bits.{bit_and-one}
use camll_vm.Endian.{u32}
use camll_vm.Opcode.{Opcode}
use camll_vm.Instruction.{ZInstruction, arg, sign_extend}
use camll_vm.Runtime.State.{Machine, Ocaml, IsStandard, tagged}
use camll_vm.Runtime.Data
use camll_vm.Runtime.Ints.{neg_int, offset_int, is_int, bool_not}
use camll_vm.Runtime.Ints.Laws.{IsInt, int_mod}
use camll_vm.CodeGen.Emit.{Code}
use camll_vm.CodeGen.Straight.{
  gen_const, gen_acc, gen_arith, gen_data, closure_code, gen_call, gen_straight_at,
}
use camll_vm.CodeGen.Run.{call_runtime, Process, run_calls}
use camll_vm.CodeGen.Run.Spec.{
  Value, Zinc, on_ints, two_ints, one_int, kind_of, zinc_base, fits_doubled,
}
use camll_vm.CodeGen.Run.Steps.{
  Encodes, Represents, with_accu, slot_lem, push_lem, drop_lem, assign_lem,
}
use camll_vm.CodeGen.Run.Binary.{binary_lem}

module _ (ml : Ocaml) (std : IsStandard ml) (fuel : ℕ) (p : Process) (r : Machine) (base cap : ℕ)
    (high : base < word_mod) (room : 8 * cap ≤ base) where
  -- The code runs from `m` to a machine that stands for `z`.
  abbrev pub Reaches : Option (List Code) → Machine → Zinc → Type 0
  Reaches o m z =
      (code : List Code) × (o ≡ some code)
      × (m' : Machine) × (run_calls ml fuel p code 0 m ≡ some (0, m'))
      × Represents r base z m'

  pub becomes :
      (z z' : Zinc) (m : Machine)
      → some z ≡ some z'
      → Represents r base z m
      → Represents r base z' m
  becomes z z' m e h = subst (λ (y : Zinc). Represents r base y m) (some_inj e) h

  two_ints_lem :
      (inst : ZInstruction) (op : Opcode) (v : Value) (s : List Value) (z : Zinc) (m : Machine)
      → Represents r base (record { accu = v; stack = s }) m
      → two_ints op v s ≡ some z
      → Reaches (gen_straight_at inst op) m z
  two_ints_lem inst op (Value.ref a) s z m h e = absurd (cc)
  two_ints_lem inst op (Value.int a) [] z m h e = absurd (cc)
  two_ints_lem inst op (Value.int a) (Value.ref b ∷ s) z m h e = absurd (cc)
  two_ints_lem inst op (Value.int a) (Value.int b ∷ s) z m h e =
      let (c, g, q) = >>=-eq-some (on_ints op a b) _ e in
      let (code, made, w, ran, enc) =
        binary_lem ml std fuel p m a b h.accu_lem.0 h.stack_lem.0.0 h.accu_lem.1 h.stack_lem.0.1
          inst op c g in
      let dropped = drop_lem r base cap high room _ m 1 h (omega arith) in
      let last = with_accu r base cap high room _ _ (Value.int c) w dropped enc in
      (code, made, _, ran, becomes _ z _ q last)

  -- An instruction on one integer, which leaves `w` of the code's word in the accumulator.
  one_int_lem :
      (f : ℕ → Option ℕ) (w : ℕ → ℕ) (v : Value) (s : List Value) (z : Zinc) (m : Machine)
      → ((a c : ℕ) → IsInt a → f a ≡ some c → IsInt c × (w (tagged a) ≡ tagged c))
      → Represents r base (record { accu = v; stack = s }) m
      → one_int f v s ≡ some z
      → Represents r base z (record m { accu = w m.accu })
  one_int_lem f w (Value.ref a) s z m law h e = absurd (cc)
  one_int_lem f w (Value.int a) s z m law h e =
      let (c, g, q) = >>=-eq-some (f a) _ e in
      let (i, t) = law a c h.accu_lem.0 g in
      becomes _ z _ q
        (with_accu r base cap high room _ m (Value.int c) (w m.accu) h (i, ap w h.accu_lem.1 ∙ t))

  neg_lem :
      (a c : ℕ)
      → IsInt a
      → some ((int_mod - a) % int_mod) ≡ some c
      → IsInt c × (sub_word 2 (tagged a) ≡ tagged c)
  neg_lem a c i e =
      let q : (int_mod - a) % int_mod ≡ c = some_inj e in (omega (arith, q), omega (arith, q))

  not_lem :
      (a c : ℕ)
      → IsInt a
      → (if ltb a 2 then some (1 - a) else none) ≡ some c
      → IsInt c × (sub_word (add_word (ml.val_long 0) (ml.val_long 1)) (tagged a) ≡ tagged c)
  not_lem a c i e = elim (Bool-cases (ltb a 2)) [
    | inl t ↦
        let q : 1 - a ≡ c = some_inj (rw t at e) in
        (omega (arith, q), omega (arith, q, std.val_long_lem 0, std.val_long_lem 1, ltb→lt a 2 t))
    | inr t ↦ absurd (cc)
  ]

  doubled : (n : ℕ) → fits_doubled n ≡ true → sign_extend (u32 (2 * n)) ≡ word (2 * sign_extend n)
  doubled n h = ground arith

  offset_lem :
      (n a c : ℕ)
      → IsInt a
      → (if fits_doubled n then some ((a + sign_extend n) % int_mod) else none) ≡ some c
      → IsInt c × (add_word (tagged a) (sign_extend (u32 (2 * n))) ≡ tagged c)
  offset_lem n a c i e = elim (Bool-cases (fits_doubled n)) [
    | inl t ↦
        let q : (a + sign_extend n) % int_mod ≡ c = some_inj (rw t at e) in
        (omega (arith, q), omega (arith, q, doubled n t))
    | inr t ↦ absurd (cc)
  ]

  kind_lem :
      (v : Value) (w : ℕ)
      → Encodes v w
      → Encodes (Value.int (kind_of v)) (ml.val_long (bit_and w 1))
  kind_lem (Value.int a) w h =
      (omega arith, omega (arith, std.val_long_lem (bit_and w 1), bit_and-one w, h.1))
  kind_lem (Value.ref a) w h =
      (omega arith, omega (arith, std.val_long_lem (bit_and w 1), bit_and-one w, h.0, h.1))

  pub zinc_base_lem :
      (inst : ZInstruction) (op : Opcode) (z z' : Zinc) (m : Machine)
      → Represents r base z m
      → zinc_base cap op (arg inst 0) z ≡ some z'
      → Reaches (gen_straight_at inst op) m z'
  unfolding zinc_base gen_straight_at gen_const gen_acc gen_arith gen_data closure_code gen_call
      call_runtime run_calls Data.const_int Data.acc Data.push Data.pop Data.assign neg_int
      offset_int is_int bool_not
  zinc_base_lem inst Opcode.constint z z' m h e = (
    _,
    refl,
    _,
    refl,
    becomes _ z' _ e (
        with_accu r base cap high room z m (Value.int (sign_extend (arg inst 0) % int_mod))
          (word (2 * sign_extend (arg inst 0) + 1)) h (omega arith, omega arith)),
  )
  zinc_base_lem inst Opcode.push z z' m h e = elim (Bool-cases (ltb (length z.stack) cap)) [
    | inl t ↦ (
      _,
      refl,
      _,
      refl,
      becomes _ z' _ (rw t at e) (push_lem r base cap high room z m h (ltb→lt _ _ t)),
    )
    | inr f ↦ absurd (cc)
  ]
  zinc_base_lem inst Opcode.acc z z' m h e =
      let (v, g, q) = >>=-eq-some (get_elem? z.stack (sign_extend (arg inst 0))) _ e in
      (
        _,
        refl,
        _,
        refl,
        becomes _ z' _ q (
            with_accu r base cap high room z m v _ h
              (slot_lem r base cap high room z m (sign_extend (arg inst 0)) v h g)),
      )
  zinc_base_lem inst Opcode.pop z z' m h e =
      elim (Bool-cases (leb (sign_extend (arg inst 0)) (length z.stack))) [
        | inl t ↦ (
          _,
          refl,
          _,
          refl,
          becomes _ z' _ (rw t at e)
              (drop_lem r base cap high room z m (sign_extend (arg inst 0)) h (leb→le _ _ t)),
        )
        | inr f ↦ absurd (cc)
      ]
  zinc_base_lem inst Opcode.assign z z' m h e =
      elim (Bool-cases (ltb (sign_extend (arg inst 0)) (length z.stack))) [
        | inl t ↦ (
          _,
          refl,
          _,
          refl,
          becomes _ z' _ (rw t at e) (
              assign_lem r base cap high room z m (sign_extend (arg inst 0)) _ h (ltb→lt _ _ t)
                (std.val_long_lem 0)),
        )
        | inr f ↦ absurd (cc)
      ]
  zinc_base_lem inst Opcode.isint z z' m h e = (
    _,
    refl,
    _,
    refl,
    becomes _ z' _ e (
        with_accu r base cap high room z m (Value.int (kind_of z.accu))
          (ml.val_long (bit_and m.accu 1)) h (kind_lem z.accu m.accu h.accu_lem)),
  )
  zinc_base_lem inst Opcode.negint z z' m h e =
      (_, refl, _, refl, one_int_lem _ (λ x. sub_word 2 x) z.accu z.stack z' m neg_lem h e)
  zinc_base_lem inst Opcode.boolnot z z' m h e = (
    _,
    refl,
    _,
    refl,
    one_int_lem _ (λ x. sub_word (add_word (ml.val_long 0) (ml.val_long 1)) x) z.accu z.stack z' m
        not_lem h e,
  )
  zinc_base_lem inst Opcode.offsetint z z' m h e = (
    _,
    refl,
    _,
    refl,
    one_int_lem _ (λ x. add_word x (sign_extend (u32 (2 * arg inst 0)))) z.accu z.stack z' m
        (offset_lem (arg inst 0)) h e,
  )
  zinc_base_lem inst Opcode.check_signals z z' m h e = ([], refl, m, refl, becomes z z' m e h)
  zinc_base_lem inst op z z' m h e = two_ints_lem inst op z.accu z.stack z' m h e
