-- ===== src/Runtime/Frames/Primitives.antt =====
-- Calls of C primitives.
use camll_vm.Base.{
  ℕ, zero, suc, ◌+◌, ◌-◌, ◌*◌, ◌≤◌, ◌<◌, ◌≡◌, refl, ◌∙◌, List, [], ◌∷◌, arith, word_mod, subst,
}
use camll_vm.Runtime.State.{Machine, Ocaml, slot, drop_slots}
use camll_vm.Runtime.Frames.{
  c_call1, c_call2, c_call3, c_call4, c_call5, setup_for_c_call, call_primitive,
}

-- The primitives that take their arguments one by one, by their number.
pub data Fixed : Type 0 where
  one two three four five : Fixed

-- How many of the arguments stand on the stack.
abbrev pub stacked : Fixed → ℕ
stacked one = 0
stacked two = 1
stacked three = 2
stacked four = 3
stacked five = 4

-- The `n` words of the stack from the address `p` on.
abbrev pub words_at : (ℕ → ℕ) → ℕ → ℕ → List ℕ
words_at stack zero p = []
words_at stack (suc n) p = stack p ∷ words_at stack n (p + 8)

-- What a C primitive keeps: `caml_extern_sp`, and the stack from there on.
pub record KeepsStack (f : Machine → ℕ × Machine) : Type 0 where
  pub same_extern : (m : Machine) → (f m).1.extern_sp ≡ m.extern_sp
  pub same_stack : (m : Machine) (a : ℕ) → m.extern_sp ≤ a → (f m).1.stack a ≡ m.stack a

module _ (ml : Ocaml) where
  abbrev pub c_called : Fixed → ℕ → Machine → Machine
  c_called one = c_call1 ml
  c_called two = c_call2 ml
  c_called three = c_call3 ml
  c_called four = c_call4 ml
  c_called five = c_call5 ml

  -- `r` follows from the call of the primitive on `args` at `s`, with `n` words of `m` popped.
  pub record HasCalled (prim : ℕ) (args : List ℕ) (n : ℕ) (s m r : Machine) : Type 0 where
    pub result : r.accu ≡ (ml.primitive prim args s).0
    pub popped : r.sp ≡ m.sp + 8 * n
    pub same_env : r.env ≡ m.env
    pub same_stack : (a : ℕ) → m.sp ≤ a → r.stack a ≡ m.stack a

  module _ (prim : ℕ) (keeps : (args : List ℕ) → KeepsStack (ml.primitive prim args)) (m : Machine)
      (low : 8 ≤ m.sp) (high : m.sp + 32 < word_mod) where
    state : Machine
    state = setup_for_c_call ml m

    extern_kept : (args : List ℕ) → (ml.primitive prim args state).1.extern_sp ≡ m.sp - 8
    unfolding state
    extern_kept args = (keeps args).same_extern state ∙ omega arith

    env_kept : (args : List ℕ) → (ml.primitive prim args state).1.stack (m.sp - 8) ≡ m.env
    unfolding state
    env_kept args = (keeps args).same_stack state (m.sp - 8) (omega arith) ∙ ground arith

    stack_kept :
        (args : List ℕ) (a : ℕ) → m.sp ≤ a → (ml.primitive prim args state).1.stack a ≡ m.stack a
    unfolding state
    stack_kept args a h = (keeps args).same_stack state a (omega arith) ∙ ground arith

    called_one : HasCalled prim (m.accu ∷ []) 0 state m (c_call1 ml prim m)
    unfolding c_call1 state
    called_one = record {
      result = refl;
      popped = ground (arith, extern_kept (m.accu ∷ []));
      same_env = ground (arith, extern_kept (m.accu ∷ []), env_kept (m.accu ∷ []));
      same_stack = stack_kept (m.accu ∷ []);
    }

    called_many :
        (n : ℕ) (args : List ℕ)
        → n ≤ 4
        → m.sp + 8 * n < word_mod
        → HasCalled prim args n state m (drop_slots n (call_primitive ml prim args state))
    unfolding state
    called_many n args small room = record {
      result = refl;
      popped = ground (arith, extern_kept args);
      same_env = ground (arith, extern_kept args, env_kept args);
      same_stack = stack_kept args;
    }

    slot_kept : (n : ℕ) → n ≤ 3 → slot state (n + 1) ≡ m.stack (m.sp + 8 * n)
    unfolding state
    slot_kept n small = ground arith

    called :
        (k : Fixed)
        → HasCalled prim
            (m.accu ∷ words_at m.stack (stacked k) m.sp)
            (stacked k)
            state
            m
            (c_called k prim m)
    unfolding c_call2 c_call3 c_call4 c_call5 state
    called one = called_one
    called two =
        subst (λ (args : List ℕ). HasCalled prim args 1 state m (c_call2 ml prim m))
          (ground (arith, slot_kept 0 (omega arith)))
          (called_many 1 (m.accu ∷ slot state 1 ∷ []) (omega arith) (omega arith))
    called three =
        subst (λ (args : List ℕ). HasCalled prim args 2 state m (c_call3 ml prim m))
          (ground (arith, slot_kept 0 (omega arith), slot_kept 1 (omega arith)))
          (called_many 2 (m.accu ∷ slot state 1 ∷ slot state 2 ∷ []) (omega arith) (omega arith))
    called four =
        subst (λ (args : List ℕ). HasCalled prim args 3 state m (c_call4 ml prim m))
          (ground (
            arith,
            slot_kept 0 (omega arith),
            slot_kept 1 (omega arith),
            slot_kept 2 (omega arith),
          ))
          (called_many 3 (m.accu ∷ slot state 1 ∷ slot state 2 ∷ slot state 3 ∷ []) (omega arith)
            (omega arith))
    called five =
        subst (λ (args : List ℕ). HasCalled prim args 4 state m (c_call5 ml prim m))
          (ground (
            arith,
            slot_kept 0 (omega arith),
            slot_kept 1 (omega arith),
            slot_kept 2 (omega arith),
            slot_kept 3 (omega arith),
          ))
          (called_many 4 (m.accu ∷ slot state 1 ∷ slot state 2 ∷ slot state 3 ∷ slot state 4 ∷ [])
            (omega arith) (omega arith))

  -- A call of a primitive that keeps the stack passes it the accumulator and the arguments on the
  -- stack, leaves its result in the accumulator and the caller's environment in place, pops the
  -- arguments, and changes nothing of the stack from the caller's stack pointer on.
  pub c_call-HasCalled :
      (k : Fixed) (prim : ℕ) (m : Machine)
      → ((args : List ℕ) → KeepsStack (ml.primitive prim args))
      → 8 ≤ m.sp
      → m.sp + 32 < word_mod
      → HasCalled prim
          (m.accu ∷ words_at m.stack (stacked k) m.sp)
          (stacked k)
          (setup_for_c_call ml m)
          m
          (c_called k prim m)
  unfolding state
  c_call-HasCalled k prim m keeps low high = called prim keeps m low high k
