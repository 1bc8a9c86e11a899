-- ===== src/Runtime/Frames/Traps.antt =====
-- Exception traps on the stack, and the return to them.
use camll_vm.Base.{ℕ, ◌-◌, ◌≤◌, ◌<◌, ◌≡◌, refl, ◌∙◌, arith, word_mod, ptr_sub}
use camll_vm.Runtime.State.{Machine, Ocaml, IsStandard}
use camll_vm.Runtime.Frames.{push_trap, pop_trap, get_exception_value}
use camll_vm.Runtime.Frames.Calls.{IsCount, long_val-val_long}

-- The body of a handler `d` has come to `c`: it raised, or ended, with the trap frame intact and
-- `caml_trapsp` pointing to it.
pub record HasTrapped (d c : Machine) : Type 0 where
  pub same_trap : c.trap_sp ≡ d.trap_sp
  pub same_stack : (a : ℕ) → d.trap_sp ≤ a → c.stack a ≡ d.stack a

module _ (ml : Ocaml) (std : IsStandard ml) where
  -- A trap frame of `m` that `d` has pushed: the link, the environment and the extra arguments.
  record IsTrapFrame (m d : Machine) : Type 0 where
    below : d.sp ≡ m.sp - 32
    trapped : d.trap_sp ≡ m.sp - 32
    link_saved : d.stack (m.sp - 24) ≡ m.trap_sp
    env_saved : d.stack (m.sp - 16) ≡ m.env
    extra_saved : d.stack (m.sp - 8) ≡ ml.val_long m.extra_args
    kept : (a : ℕ) → m.sp ≤ a → d.stack a ≡ m.stack a

  push_trap-IsTrapFrame :
      (m : Machine) → 32 ≤ m.sp → m.sp < word_mod → IsTrapFrame m (push_trap ml m)
  unfolding push_trap
  push_trap-IsTrapFrame m low high =
      let link : ml.trap_link (ptr_sub m.sp 4) ≡ m.sp - 24 = std.trap_link_lem _ ∙ omega arith in
      record {
        below = ground arith;
        trapped = ground arith;
        link_saved = ground (arith, link);
        env_saved = ground (arith, link);
        extra_saved = ground (arith, link);
        kept = λ a h. ground (arith, link);
      }

  -- Where OCaml's macros are as `IsStandard` says: an exception that reaches the trap pushed at
  -- `m`, wherever the stack pointer of the body stands, brings back the stack pointer,
  -- environment, extra arguments and outer trap of `m`, with the exception in the accumulator.
  pub get_exception_value-push_trap :
      (m c : Machine)
      → 32 ≤ m.sp
      → m.sp < word_mod
      → IsCount m.extra_args
      → HasTrapped (push_trap ml m) c
      → let r = get_exception_value ml c in
        (r.sp ≡ m.sp)
        × (r.env ≡ m.env)
        × (r.extra_args ≡ m.extra_args)
        × (r.trap_sp ≡ m.trap_sp)
        × (r.accu ≡ c.exn_bucket)
        × ((a : ℕ) → m.sp ≤ a → r.stack a ≡ m.stack a)
  unfolding get_exception_value
  get_exception_value-push_trap m c low high count t =
      let f = push_trap-IsTrapFrame m low high in
      let trap = t.same_trap ∙ f.trapped in
      let link : ml.trap_link c.trap_sp ≡ m.sp - 24 = std.trap_link_lem _ ∙ omega arith in
      let at_link = t.same_stack (m.sp - 24) (omega (arith, f.trapped)) ∙ f.link_saved in
      let at_env = t.same_stack (m.sp - 16) (omega (arith, f.trapped)) ∙ f.env_saved in
      let at_extra = t.same_stack (m.sp - 8) (omega (arith, f.trapped)) ∙ f.extra_saved in
      let round = long_val-val_long ml std m.extra_args count in
      (
        ground (arith, trap),
        ground (arith, trap, at_env),
        ground (arith, trap, at_extra, round),
        ground (arith, trap, link, at_link),
        refl,
        λ a h. t.same_stack a (omega (arith, f.trapped)) ∙ f.kept a h,
      )

  -- Where OCaml's macros are as `IsStandard` says: when the body ends with the stack pointer at
  -- the trap, `popTrap` takes the frame off: the stack pointer and the outer trap are those of
  -- `m`; the accumulator, environment and extra arguments are the body's.
  pub pop_trap-push_trap :
      (m c : Machine)
      → 32 ≤ m.sp
      → m.sp < word_mod
      → HasTrapped (push_trap ml m) c
      → c.sp ≡ (push_trap ml m).sp
      → let r = pop_trap ml c in
        (r.sp ≡ m.sp)
        × (r.trap_sp ≡ m.trap_sp)
        × (r.accu ≡ c.accu)
        × (r.env ≡ c.env)
        × (r.extra_args ≡ c.extra_args)
        × ((a : ℕ) → m.sp ≤ a → r.stack a ≡ m.stack a)
  unfolding pop_trap
  pop_trap-push_trap m c low high t e =
      let f = push_trap-IsTrapFrame m low high in
      let sp' = e ∙ f.below in
      let link : ml.trap_link c.sp ≡ m.sp - 24 = std.trap_link_lem _ ∙ omega arith in
      let at_link = t.same_stack (m.sp - 24) (omega (arith, f.trapped)) ∙ f.link_saved in
      (
        ground (arith, sp'),
        ground (arith, link, at_link),
        refl,
        refl,
        refl,
        λ a h. t.same_stack a (omega (arith, f.trapped)) ∙ f.kept a h,
      )
