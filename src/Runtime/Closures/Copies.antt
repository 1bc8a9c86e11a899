-- ===== src/Runtime/Closures/Copies.antt =====
-- The loops that copy the stack into a block and back.
use camll_vm.Base.{ℕ, zero, suc, ◌+◌, ◌*◌, ◌≤◌, ◌<◌, ◌≡◌, ◌⊎◌, inl, refl, ◌∙◌, arith, word_mod}
use native.Mathlib.Decide.{dec_lt}
use camll_vm.Runtime.State.{Machine, Ocaml, IsStandard, slot, set_slot, set_field_at, get_field_at}
use camll_vm.Runtime.Closures.{save_slots, load_slots}

module _ (ml : Ocaml) (std : IsStandard ml) where
  pub field-eq : (v i : ℕ) → v + 8 * i < word_mod → ml.field v i ≡ v + 8 * i
  field-eq v i h = std.field_lem v i ∙ omega arith

  pub save_rest :
      (n i base v : ℕ) (m : Machine)
      → save_slots ml n i base v m ≡ record m { heap = (save_slots ml n i base v m).heap }
  unfolding save_slots
  save_rest zero i base v m = refl
  save_rest (suc n) i base v m =
      save_rest n (i + 1) base v (set_field_at ml v (base + i) (slot m i) m)

  pub save_outside :
      (n i base v : ℕ) (m : Machine) (a : ℕ)
      → v + 8 * (base + i + n) < word_mod
      → (a < v + 8 * (base + i)) ⊎ (v + 8 * (base + i + n) ≤ a)
      → (save_slots ml n i base v m).heap a ≡ m.heap a
  unfolding save_slots
  save_outside zero i base v m a room h = refl
  save_outside (suc n) i base v m a room h =
      save_outside n (i + 1) base v (set_field_at ml v (base + i) (slot m i) m) a (omega arith)
        (omega arith)
      ∙ ground (arith, field-eq v (base + i) (omega arith))

  pub save_inside :
      (n i base v : ℕ) (m : Machine) (j : ℕ)
      → v + 8 * (base + i + n) < word_mod
      → i ≤ j
      → j < i + n
      → (save_slots ml n i base v m).heap (v + 8 * (base + j)) ≡ slot m j
  unfolding save_slots
  save_inside zero i base v m j room low high = absurd (omega arith)
  save_inside (suc n) i base v m j room low high = elim (dec_lt i j) [
    | yes lt ↦
        save_inside n (i + 1) base v (set_field_at ml v (base + i) (slot m i) m) j (omega arith)
          (omega arith) (omega arith)
    | no ge ↦
        let same : j ≡ i = omega arith in
        let m' = set_field_at ml v (base + i) (slot m i) m in
        let first : (save_slots ml n (i + 1) base v m').heap (v + 8 * (base + i)) ≡ slot m i =
          save_outside n (i + 1) base v m' (v + 8 * (base + i)) (omega arith) (inl (omega arith))
          ∙ ground (arith, field-eq v (base + i) (omega arith)) in
        rw same first
  ]

  pub load_rest :
      (n i base v : ℕ) (m : Machine)
      → load_slots ml n i base v m ≡ record m { stack = (load_slots ml n i base v m).stack }
  unfolding load_slots
  load_rest zero i base v m = refl
  load_rest (suc n) i base v m =
      load_rest n (i + 1) base v (set_slot i (get_field_at ml m v (base + i)) m)

  pub load_outside :
      (n i base v : ℕ) (m : Machine) (a : ℕ)
      → m.sp + 8 * (i + n) < word_mod
      → (a < m.sp + 8 * i) ⊎ (m.sp + 8 * (i + n) ≤ a)
      → (load_slots ml n i base v m).stack a ≡ m.stack a
  unfolding load_slots
  load_outside zero i base v m a room h = refl
  load_outside (suc n) i base v m a room h =
      load_outside n (i + 1) base v (set_slot i (get_field_at ml m v (base + i)) m) a (omega arith)
        (omega arith)
      ∙ ground arith

  pub load_inside :
      (n i base v : ℕ) (m : Machine) (j : ℕ)
      → m.sp + 8 * (i + n) < word_mod
      → i ≤ j
      → j < i + n
      → (load_slots ml n i base v m).stack (m.sp + 8 * j) ≡ get_field_at ml m v (base + j)
  unfolding load_slots
  load_inside zero i base v m j room low high = absurd (omega arith)
  load_inside (suc n) i base v m j room low high = elim (dec_lt i j) [
    | yes lt ↦
        load_inside n (i + 1) base v (set_slot i (get_field_at ml m v (base + i)) m) j (omega arith)
          (omega arith) (omega arith)
    | no ge ↦
        let same : j ≡ i = omega arith in
        let m' = set_slot i (get_field_at ml m v (base + i)) m in
        let first : (load_slots ml n (i + 1) base v m').stack (m.sp + 8 * i)
            ≡ get_field_at ml m v (base + i) =
          load_outside n (i + 1) base v m' (m.sp + 8 * i) (omega arith) (inl (omega arith))
          ∙ ground arith in
        rw same first
  ]
