-- ===== src/Runtime/Ints/Division.antt =====
-- `divInt` and `modInt` divide integers of 63 bits, towards zero.
use native.Mathlib.Nat.{div-le_self, mod-le}
use camll_vm.Base.{
  ℕ, ◌+◌, ◌-◌, ◌/◌, ◌%◌, ◌^◌, ◌≤◌, ◌≡◌, refl, ◌∙◌, Bool, true, false, some, none, leb, ltb, ◌==◌,
  if◌then◌else◌, arith, word,
}
use camll_vm.Runtime.State.{Machine, Ocaml, IsStandard, top, drop_slots, tagged}
use camll_vm.Runtime.Ints.{
  is_negative, magnitude, with_sign, differ, signed_div, signed_rem, div_int, mod_int,
}
use camll_vm.Runtime.Ints.Laws.{int_mod, IsInt, untagged-tagged}

-- Sign and magnitude of a 63-bit pattern, and the truncated quotient and remainder of two.
abbrev pub int_negative : ℕ → Bool
int_negative a = leb (2 ^ 62) a

abbrev pub int_magnitude : ℕ → ℕ
int_magnitude a = if int_negative a then int_mod - a else a

abbrev pub int_with_sign : Bool → ℕ → ℕ
int_with_sign negative n = if negative then (int_mod - n) % int_mod else n % int_mod

abbrev pub int_div : ℕ → ℕ → ℕ
int_div a b =
    int_with_sign (differ (int_negative a) (int_negative b)) (int_magnitude a / int_magnitude b)

abbrev pub int_rem : ℕ → ℕ → ℕ
int_rem a b = int_with_sign (int_negative a) (int_magnitude a % int_magnitude b)

wide : (a : ℕ) → ℕ
wide a = if ltb a (2 ^ 62) then a else a + 2 ^ 63

negative-wide : (a : ℕ) → IsInt a → is_negative (wide a) ≡ int_negative a
unfolding wide
negative-wide a h = ground arith

magnitude-wide : (a : ℕ) → IsInt a → magnitude (wide a) ≡ int_magnitude a
unfolding wide
magnitude-wide a h = ground arith

int_magnitude-le : (a : ℕ) → IsInt a → int_magnitude a ≤ 2 ^ 62
int_magnitude-le a h = ground arith

tagged-with_sign :
    (s : Bool) (q : ℕ) → q ≤ 2 ^ 62 → tagged (with_sign s (word q)) ≡ tagged (int_with_sign s q)
tagged-with_sign true q h = omega arith
tagged-with_sign false q h = omega arith

tagged-with_sign_small :
    (s : Bool) (q : ℕ) → q ≤ 2 ^ 62 → tagged (with_sign s q) ≡ tagged (int_with_sign s q)
tagged-with_sign_small true q h = omega arith
tagged-with_sign_small false q h = omega arith

div-tagged :
    (a b : ℕ) → IsInt a → IsInt b → tagged (signed_div (wide a) (wide b)) ≡ tagged (int_div a b)
unfolding signed_div
div-tagged a b ha hb =
    rw (magnitude-wide a ha, magnitude-wide b hb, negative-wide a ha, negative-wide b hb)
      (tagged-with_sign _ _
        (omega (arith, div-le_self (int_magnitude a) (int_magnitude b), int_magnitude-le a ha)))

rem-tagged :
    (a b : ℕ) → IsInt a → IsInt b → tagged (signed_rem (wide a) (wide b)) ≡ tagged (int_rem a b)
unfolding signed_rem
rem-tagged a b ha hb =
    rw (magnitude-wide a ha, magnitude-wide b hb, negative-wide a ha)
      (tagged-with_sign_small _ _ (rem-le a b ha))
  where
    rem-le : (a b : ℕ) → IsInt a → int_magnitude a % int_magnitude b ≤ 2 ^ 62
    rem-le a b ha = omega (arith, mod-le (int_magnitude a) (int_magnitude b), int_magnitude-le a ha)

wide-zero : (b : ℕ) → IsInt b → (wide b == 0) ≡ (b == 0)
unfolding wide
wide-zero b h = ground arith

module _ (ml : Ocaml) (std : IsStandard ml) where
  long_val-tagged : (a : ℕ) → IsInt a → ml.long_val (tagged a) ≡ wide a
  unfolding wide
  long_val-tagged a h = std.long_val_lem (tagged a) (omega arith) ∙ untagged-tagged a h

  -- Where OCaml's macros are as `IsStandard` says: with a divisor other than 0, `divInt` and
  -- `modInt` pop it and leave the tagged quotient, truncated towards zero, and the tagged
  -- remainder, which has the sign of the dividend. With a divisor 0 both are undefined.
  pub division-tagged :
      (m : Machine) (a b : ℕ)
      → IsInt a
      → IsInt b
      → m.accu ≡ tagged a
      → top m ≡ tagged b
      → (div_int ml m ≡ (
          if b == 0 then none else some (record (drop_slots 1 m) { accu = tagged (int_div a b) })))
        × (mod_int ml m ≡ (
            if b == 0
            then none
            else some (record (drop_slots 1 m) { accu = tagged (int_rem a b) })))
  unfolding div_int mod_int
  division-tagged m a b ha hb p q = (
    rw
        (
          q,
          p,
          long_val-tagged a ha,
          long_val-tagged b hb,
          wide-zero b hb,
          std.val_long_lem,
          div-tagged a b ha hb,
        )
        refl,
    rw
        (
          q,
          p,
          long_val-tagged a ha,
          long_val-tagged b hb,
          wide-zero b hb,
          std.val_long_lem,
          rem-tagged a b ha hb,
        )
        refl,
  )
