-- ===== src/CodeGen/Run/Binary.antt =====
-- The instructions on two integers: what they emit (src/GenBlock.cpp), run on the machine of
-- src/StdLib/CStdLib.c, gives the result on the integers.
use native.Mathlib.Nat.{div-le_self}
use camll_vm.Base.{
  ℕ, ◌*◌, ◌/◌, ◌%◌, ◌^◌, ◌<◌, ◌≡◌, refl, ap, ◌∙◌, subst, Bool, true, false, Bool-cases, inl, inr,
  Option, none, some, List, ltb, ◌==◌, if◌then◌else◌, arith, some_inj, ltb→lt,
}
use camll_vm.Base.Bits.{bit_and-lt, bit_or-lt, bit_xor-lt}
use camll_vm.Opcode.{Opcode}
use camll_vm.Instruction.{ZInstruction}
use camll_vm.Runtime.State.{Machine, Ocaml, IsStandard, top, drop_slots, tagged}
use camll_vm.Runtime.Ints.{
  of_bool, add_int, sub_int, mul_int, div_int, mod_int, and_int, or_int, xor_int, lsl_int, lsr_int,
  asr_int, cmp_eq, cmp_neq, lt_int, le_int, gt_int, ge_int, ult_int, uge_int,
}
use camll_vm.Runtime.Ints.Laws.{
  IsInt, int_mod, int_asr, arithmetic-tagged, bitwise-tagged, shifts-tagged, comparisons-tagged,
}
use camll_vm.Runtime.Ints.Division.{int_div, int_rem, int_with_sign, division-tagged}
use camll_vm.CodeGen.Emit.{Callee, Code, call0}
use camll_vm.CodeGen.Straight.{
  gen_const, gen_acc, gen_arith, gen_data, closure_code, gen_call, gen_straight_at,
}
use camll_vm.CodeGen.Run.{call_runtime, Process, run_calls}
use camll_vm.CodeGen.Run.Spec.{Value, on_ints}
use camll_vm.CodeGen.Run.Steps.{Encodes}

of_bool-IsInt : (b : Bool) → IsInt (of_bool b)
of_bool-IsInt true = omega arith
of_bool-IsInt false = omega arith

with_sign-IsInt : (b : Bool) (n : ℕ) → IsInt (int_with_sign b n)
with_sign-IsInt true n = omega arith
with_sign-IsInt false n = omega arith

int_asr-IsInt : (a n : ℕ) → IsInt a → IsInt (int_asr a n)
int_asr-IsInt a n h = ground (arith, div-le_self a (2 ^ n))

module _ (ml : Ocaml) (std : IsStandard ml) (fuel : ℕ) (p : Process) (m : Machine) where
  -- The code runs, pops the second operand and leaves `c` in the accumulator.
  abbrev pub Computes : Option (List Code) → ℕ → Type 0
  Computes o c =
      (code : List Code) × (o ≡ some code)
      × (w : ℕ) × (run_calls ml fuel p code 0 m ≡ some (0, record (drop_slots 1 m) { accu = w }))
      × Encodes (Value.int c) w

  computes :
      (f : Callee) (c w : ℕ)
      → run_calls ml fuel p (call0 f) 0 m ≡ some (0, record (drop_slots 1 m) { accu = w })
      → IsInt c
      → w ≡ tagged c
      → Computes (some (call0 f)) c
  computes f c w e i t = (call0 f, refl, w, e, (i, t))

  module _ (a b : ℕ) (ia : IsInt a) (ib : IsInt b) (ta : m.accu ≡ tagged a)
      (tb : top m ≡ tagged b) where
    -- A partial operation, for the functions `f` of the runtime that may fail.
    partial_lem :
        (f : Callee) (g : Machine → Option Machine) (c n : ℕ)
        → ((m' : Machine) → g m ≡ some m' → run_calls ml fuel p (call0 f) 0 m ≡ some (0, m'))
        → g m ≡ some (record (drop_slots 1 m) { accu = tagged n })
        → n ≡ c
        → IsInt c
        → Computes (some (call0 f)) c
    partial_lem f g c n run e q i = computes f c (tagged n) (run _ e) i (ap tagged q)

    div_lem :
        (c : ℕ)
        → (if b == 0 then none else some (int_div a b)) ≡ some c
        → Computes (some (call0 Callee.div_int)) c
    unfolding run_calls call_runtime
    div_lem c e = elim (Bool-cases (b == 0)) [
      | inl z ↦ cc
      | inr z ↦
          let law = (division-tagged ml std m a b ia ib ta tb).0 in
          let q : int_div a b ≡ c = some_inj (rw z at e) in
          partial_lem Callee.div_int (div_int ml) c (int_div a b) (λ m' r. rw r) (rw z at law) q
            (subst IsInt q (with_sign-IsInt _ _))
    ]

    mod_lem :
        (c : ℕ)
        → (if b == 0 then none else some (int_rem a b)) ≡ some c
        → Computes (some (call0 Callee.mod_int)) c
    unfolding run_calls call_runtime
    mod_lem c e = elim (Bool-cases (b == 0)) [
      | inl z ↦ cc
      | inr z ↦
          let law = (division-tagged ml std m a b ia ib ta tb).1 in
          let q : int_rem a b ≡ c = some_inj (rw z at e) in
          partial_lem Callee.mod_int (mod_int ml) c (int_rem a b) (λ m' r. rw r) (rw z at law) q
            (subst IsInt q (with_sign-IsInt _ _))
    ]

    -- A shift to `n`, of which `law` says what the function `g` gives.
    shift_lem :
        (f : Callee) (g : Machine → Option Machine) (n c : ℕ)
        → ((m' : Machine) → g m ≡ some m' → run_calls ml fuel p (call0 f) 0 m ≡ some (0, m'))
        → (b < 64 → g m ≡ some (record (drop_slots 1 m) { accu = tagged n }))
        → IsInt n
        → (if ltb b 64 then some n else none) ≡ some c
        → Computes (some (call0 f)) c
    shift_lem f g n c run law i e = elim (Bool-cases (ltb b 64)) [
      | inl z ↦
          let q : n ≡ c = some_inj (rw z at e) in
          partial_lem f g c n run (law (ltb→lt b 64 z)) q (subst IsInt q i)
      | inr z ↦ cc
    ]

    pub binary_lem :
        (inst : ZInstruction) (op : Opcode) (c : ℕ)
        → on_ints op a b ≡ some c
        → Computes (gen_straight_at inst op) c
    unfolding gen_straight_at gen_const gen_acc gen_arith gen_data closure_code gen_call
        call_runtime run_calls add_int sub_int and_int or_int xor_int mul_int cmp_eq cmp_neq lt_int
        le_int gt_int ge_int ult_int uge_int
    binary_lem inst Opcode.addint c e =
        computes Callee.add_int c (add_int m).accu refl (subst IsInt (some_inj e) (omega arith))
          ((arithmetic-tagged ml std m a b ia ib ta tb).0 ∙ ap tagged (some_inj e))
    binary_lem inst Opcode.subint c e =
        computes Callee.sub_int c (sub_int m).accu refl (subst IsInt (some_inj e) (omega arith))
          ((arithmetic-tagged ml std m a b ia ib ta tb).1 ∙ ap tagged (some_inj e))
    binary_lem inst Opcode.mulint c e =
        computes Callee.mul_int c (mul_int ml m).accu refl (subst IsInt (some_inj e) (omega arith))
          ((arithmetic-tagged ml std m a b ia ib ta tb).3 ∙ ap tagged (some_inj e))
    binary_lem inst Opcode.andint c e =
        computes Callee.and_int c (and_int m).accu refl
          (subst IsInt (some_inj e) (bit_and-lt 63 a b ia ib))
          ((bitwise-tagged ml std m a b ia ib ta tb).0 ∙ ap tagged (some_inj e))
    binary_lem inst Opcode.orint c e =
        computes Callee.or_int c (or_int m).accu refl
          (subst IsInt (some_inj e) (bit_or-lt 63 a b ia ib))
          ((bitwise-tagged ml std m a b ia ib ta tb).1 ∙ ap tagged (some_inj e))
    binary_lem inst Opcode.xorint c e =
        computes Callee.xor_int c (xor_int m).accu refl
          (subst IsInt (some_inj e) (bit_xor-lt 63 a b ia ib))
          ((bitwise-tagged ml std m a b ia ib ta tb).2 ∙ ap tagged (some_inj e))
    binary_lem inst Opcode.eq c e =
        computes Callee.cmp_eq c (cmp_eq ml m).accu refl
          (subst IsInt (some_inj e) (of_bool-IsInt _))
          ((comparisons-tagged ml std m a b ia ib ta tb).0 ∙ ap tagged (some_inj e))
    binary_lem inst Opcode.neq c e =
        computes Callee.cmp_neq c (cmp_neq ml m).accu refl
          (subst IsInt (some_inj e) (of_bool-IsInt _))
          ((comparisons-tagged ml std m a b ia ib ta tb).1 ∙ ap tagged (some_inj e))
    binary_lem inst Opcode.ltint c e =
        computes Callee.lt_int c (lt_int ml m).accu refl
          (subst IsInt (some_inj e) (of_bool-IsInt _))
          ((comparisons-tagged ml std m a b ia ib ta tb).2 ∙ ap tagged (some_inj e))
    binary_lem inst Opcode.leint c e =
        computes Callee.le_int c (le_int ml m).accu refl
          (subst IsInt (some_inj e) (of_bool-IsInt _))
          ((comparisons-tagged ml std m a b ia ib ta tb).3 ∙ ap tagged (some_inj e))
    binary_lem inst Opcode.gtint c e =
        computes Callee.gt_int c (gt_int ml m).accu refl
          (subst IsInt (some_inj e) (of_bool-IsInt _))
          ((comparisons-tagged ml std m a b ia ib ta tb).4 ∙ ap tagged (some_inj e))
    binary_lem inst Opcode.geint c e =
        computes Callee.ge_int c (ge_int ml m).accu refl
          (subst IsInt (some_inj e) (of_bool-IsInt _))
          ((comparisons-tagged ml std m a b ia ib ta tb).5 ∙ ap tagged (some_inj e))
    binary_lem inst Opcode.ultint c e =
        computes Callee.ult_int c (ult_int ml m).accu refl
          (subst IsInt (some_inj e) (of_bool-IsInt _))
          ((comparisons-tagged ml std m a b ia ib ta tb).6 ∙ ap tagged (some_inj e))
    binary_lem inst Opcode.ugeint c e =
        computes Callee.uge_int c (uge_int ml m).accu refl
          (subst IsInt (some_inj e) (of_bool-IsInt _))
          ((comparisons-tagged ml std m a b ia ib ta tb).7 ∙ ap tagged (some_inj e))
    binary_lem inst Opcode.divint c e = div_lem c e
    binary_lem inst Opcode.modint c e = mod_lem c e
    binary_lem inst Opcode.lslint c e =
        shift_lem Callee.lsl_int (lsl_int ml) (a * 2 ^ b % int_mod) c (λ m' r. rw r)
          (λ lt. (shifts-tagged ml std m a b ia lt ta tb).0) (omega arith) e
    binary_lem inst Opcode.lsrint c e =
        shift_lem Callee.lsr_int (lsr_int ml) (a / 2 ^ b) c (λ m' r. rw r)
          (λ lt. (shifts-tagged ml std m a b ia lt ta tb).1) (omega (arith, div-le_self a (2 ^ b)))
          e
    binary_lem inst Opcode.asrint c e =
        shift_lem Callee.asr_int (asr_int ml) (int_asr a b) c (λ m' r. rw r)
          (λ lt. (shifts-tagged ml std m a b ia lt ta tb).2) (int_asr-IsInt a b ia) e
    binary_lem inst op c e = absurd (cc)
