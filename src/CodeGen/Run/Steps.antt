-- ===== src/CodeGen/Run/Steps.antt =====
-- How the stack and the accumulator of the machine (src/StdLib/CStdLib.c) stand for those of the
-- integer ZINC machine, and what keeps it so.
use camll_vm.Base.{
  ℕ, zero, suc, ◌+◌, ◌-◌, ◌*◌, ◌%◌, ◌<◌, ◌≤◌, ◌≡◌, sym, ◌∙◌, subst, some, List, [], ◌∷◌, length,
  length-set, get_elem?, set, drop, arith, Memory, write, word_mod, ptr_add, ptr_sub, some_inj,
}
use camll_vm.Runtime.State.{Machine, slot, drop_slots, push_word, tagged}
use camll_vm.Runtime.Ints.Laws.{IsInt}
use camll_vm.CodeGen.Run.Spec.{Value, Zinc}

-- The word of a value.
abbrev pub Encodes : Value → ℕ → Type 0
Encodes (Value.int a) w = IsInt a × (w ≡ tagged a)
Encodes (Value.ref r) w = (w ≡ r) × (r % 2 ≡ 0)

-- The values of a list stand in memory from `p` on.
abbrev pub HoldsAt : Memory → ℕ → List Value → Type 0
HoldsAt stack p [] = Unit {0}
HoldsAt stack p (v ∷ vs) = Encodes v (stack p) × HoldsAt stack (p + 8) vs

pub HoldsAt-write :
    (stack : Memory) (a w p : ℕ) (vs : List Value)
    → a < p
    → HoldsAt stack p vs
    → HoldsAt (write stack a w) p vs
HoldsAt-write stack a w p [] lt h = tt
HoldsAt-write stack a w p (v ∷ vs) lt h =
    let same : write stack a w p ≡ stack p = ground arith in
    (subst (Encodes v) (sym same) h.0, HoldsAt-write stack a w (p + 8) vs (omega arith) h.1)

next : (p k : ℕ) → p + 8 * suc k ≡ p + 8 + 8 * k
next p k = omega arith

pub HoldsAt-get :
    (stack : Memory) (p k : ℕ) (vs : List Value) (v : Value)
    → HoldsAt stack p vs
    → get_elem? vs k ≡ some v
    → Encodes v (stack (p + 8 * k)) × (k < length vs)
HoldsAt-get stack p k [] v h e = cc
HoldsAt-get stack p zero (x ∷ vs) v h e =
    let same : p + 8 * 0 ≡ p = omega arith in
    (rw same (subst (λ (y : Value). Encodes y (stack p)) (some_inj e) h.0), omega arith)
HoldsAt-get stack p (suc k) (x ∷ vs) v h e =
    let r = HoldsAt-get stack (p + 8) k vs v h.1 e in (rw (next p k) r.0, omega (arith, r.1))

pub HoldsAt-drop :
    (stack : Memory) (p k : ℕ) (vs : List Value)
    → k ≤ length vs
    → HoldsAt stack p vs
    → HoldsAt stack (p + 8 * k) (drop k vs)
HoldsAt-drop stack p zero vs le h = let same : p + 8 * 0 ≡ p = omega arith in rw same h
HoldsAt-drop stack p (suc k) [] le h = absurd (omega arith)
HoldsAt-drop stack p (suc k) (v ∷ vs) le h =
    rw (next p k) (HoldsAt-drop stack (p + 8) k vs (omega arith) h.1)

pub length-drop : (k : ℕ) (vs : List Value) → k ≤ length vs → length (drop k vs) + k ≡ length vs
length-drop zero vs le = omega arith
length-drop (suc k) [] le = absurd (omega arith)
length-drop (suc k) (v ∷ vs) le = omega (arith, length-drop k vs (omega arith))

pub HoldsAt-set :
    (stack : Memory) (p k w : ℕ) (vs : List Value) (v : Value)
    → k < length vs
    → HoldsAt stack p vs
    → Encodes v w
    → HoldsAt (write stack (p + 8 * k) w) p (set vs k v)
HoldsAt-set stack p k w [] v lt h e = absurd (omega arith)
HoldsAt-set stack p zero w (x ∷ vs) v lt h e =
    let hit : write stack (p + 8 * 0) w p ≡ w = ground arith in
    (subst (Encodes v) (sym hit) e, HoldsAt-write stack (p + 8 * 0) w (p + 8) vs (omega arith) h.1)
HoldsAt-set stack p (suc k) w (x ∷ vs) v lt h e =
    let miss : write stack (p + 8 * suc k) w p ≡ stack p = ground arith in
    let later = HoldsAt-set stack (p + 8) k w vs v (omega arith) h.1 e in
    (
      subst (Encodes x) (sym miss) h.0,
      subst (λ (a : ℕ). HoldsAt (write stack a w) (p + 8) (set vs k v)) (sym (next p k)) later,
    )

-- The machine `m` stands for `z`. The stack ends at `base`; from there on, and but for the
-- accumulator, the stack and its pointer, `m` is as `r`.
pub record Represents (r : Machine) (base : ℕ) (z : Zinc) (m : Machine) : Type 0 where
  pub accu_lem : Encodes z.accu m.accu
  pub stack_lem : HoldsAt m.stack m.sp z.stack
  pub base_lem : m.sp + 8 * length z.stack ≡ base
  pub above_lem : (a : ℕ) → base ≤ a → m.stack a ≡ r.stack a
  pub rest_lem : record m { accu = r.accu; sp = r.sp; stack = r.stack } ≡ r

module _ (r : Machine) (base cap : ℕ) (high : base < word_mod) (room : 8 * cap ≤ base) where
  -- A new accumulator.
  pub with_accu :
      (z : Zinc) (m : Machine) (v : Value) (w : ℕ)
      → Represents r base z m
      → Encodes v w
      → Represents r base (record z { accu = v }) (record m { accu = w })
  with_accu z m v w h e = record {
    accu_lem = e;
    stack_lem = h.stack_lem;
    base_lem = h.base_lem;
    above_lem = h.above_lem;
    rest_lem = h.rest_lem;
  }

  pub slot_lem :
      (z : Zinc) (m : Machine) (k : ℕ) (v : Value)
      → Represents r base z m
      → get_elem? z.stack k ≡ some v
      → Encodes v (slot m k)
  slot_lem z m k v h e =
      let got = HoldsAt-get m.stack m.sp k z.stack v h.stack_lem e in
      let at : ptr_add m.sp k ≡ m.sp + 8 * k = omega (arith, h.base_lem, got.1) in
      subst (λ (a : ℕ). Encodes v (m.stack a)) (sym at) got.0

  pub push_lem :
      (z : Zinc) (m : Machine)
      → Represents r base z m
      → length z.stack < cap
      → Represents r base (record z { stack = z.accu ∷ z.stack }) (push_word m.accu m)
  push_lem z m h lt =
      let p : ptr_sub m.sp 1 ≡ m.sp - 8 = omega (arith, h.base_lem) in
      let back : m.sp - 8 + 8 ≡ m.sp = omega (arith, h.base_lem) in
      record {
        accu_lem = h.accu_lem;
        stack_lem = pushed p back;
        base_lem = omega (arith, p, h.base_lem);
        above_lem = λ a le. kept a p le;
        rest_lem = h.rest_lem;
      }
    where
      pushed :
          ptr_sub m.sp 1 ≡ m.sp - 8
          → m.sp - 8 + 8 ≡ m.sp
          → HoldsAt (write m.stack (ptr_sub m.sp 1) m.accu) (ptr_sub m.sp 1) (z.accu ∷ z.stack)
      pushed p back =
          let hit : write m.stack (ptr_sub m.sp 1) m.accu (ptr_sub m.sp 1) ≡ m.accu =
            ground arith in
          let up : ptr_sub m.sp 1 + 8 ≡ m.sp = omega (arith, p, back) in
          (
            subst (Encodes z.accu) (sym hit) h.accu_lem,
            subst (λ (a : ℕ). HoldsAt (write m.stack (ptr_sub m.sp 1) m.accu) a z.stack) (sym up)
                (HoldsAt-write m.stack (ptr_sub m.sp 1) m.accu m.sp z.stack (omega (arith, up))
                  h.stack_lem),
          )

      kept :
          (a : ℕ)
          → ptr_sub m.sp 1 ≡ m.sp - 8
          → base ≤ a
          → write m.stack (ptr_sub m.sp 1) m.accu a ≡ r.stack a
      kept a p le =
          let miss : write m.stack (ptr_sub m.sp 1) m.accu a ≡ m.stack a =
            ground (arith, h.base_lem) in
          miss ∙ h.above_lem a le

  pub drop_lem :
      (z : Zinc) (m : Machine) (k : ℕ)
      → Represents r base z m
      → k ≤ length z.stack
      → Represents r base (record z { stack = drop k z.stack }) (drop_slots k m)
  drop_lem z m k h le =
      let at : ptr_add m.sp k ≡ m.sp + 8 * k = omega (arith, h.base_lem) in
      record {
        accu_lem = h.accu_lem;
        stack_lem =
            subst (λ (a : ℕ). HoldsAt m.stack a (drop k z.stack)) (sym at)
              (HoldsAt-drop m.stack m.sp k z.stack le h.stack_lem);
        base_lem = omega (arith, at, h.base_lem, length-drop k z.stack le);
        above_lem = h.above_lem;
        rest_lem = h.rest_lem;
      }

  pub assign_lem :
      (z : Zinc) (m : Machine) (k w : ℕ)
      → Represents r base z m
      → k < length z.stack
      → w ≡ tagged 0
      → Represents r base
          (record { accu = Value.int 0; stack = set z.stack k z.accu })
          (record m { stack = write m.stack (ptr_add m.sp k) m.accu; accu = w })
  assign_lem z m k w h lt e =
      let at : ptr_add m.sp k ≡ m.sp + 8 * k = omega (arith, h.base_lem) in
      record {
        accu_lem = (omega arith, e);
        stack_lem =
            subst (λ (a : ℕ). HoldsAt (write m.stack a m.accu) m.sp (set z.stack k z.accu)) (sym at)
              (HoldsAt-set m.stack m.sp k m.accu z.stack z.accu lt h.stack_lem h.accu_lem);
        base_lem = omega (arith, length-set z.stack k z.accu, h.base_lem);
        above_lem = λ a le. kept a at le;
        rest_lem = h.rest_lem;
      }
    where
      kept :
          (a : ℕ)
          → ptr_add m.sp k ≡ m.sp + 8 * k
          → base ≤ a
          → write m.stack (ptr_add m.sp k) m.accu a ≡ r.stack a
      kept a p le =
          let miss : write m.stack (ptr_add m.sp k) m.accu a ≡ m.stack a =
            ground (arith, h.base_lem) in
          miss ∙ h.above_lem a le
