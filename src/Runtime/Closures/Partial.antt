-- ===== src/Runtime/Closures/Partial.antt =====
-- Partial application: the closure that keeps the arguments given so far, and its restart.
use camll_vm.Base.{
  ℕ, ◌+◌, ◌-◌, ◌*◌, ◌^◌, ◌≤◌, ◌<◌, ◌≡◌, inl, inr, refl, ◌∙◌, ap, arith, word_mod, ptr_add, add_word,
  sub_word, ptr_sub, write,
}
use camll_vm.Runtime.State.{Machine, Ocaml, IsStandard, IsAllocator, wosize_val, int_of_word}
use camll_vm.Runtime.Closures.{create_restart_closure, restart, save_slots, load_slots, word_rounds}
use camll_vm.Runtime.Closures.Copies.{
  field-eq, save_rest, save_outside, save_inside, load_rest, load_outside, load_inside,
}

-- `r` has the arguments and the environment that the block in the environment of `c` keeps of `m`.
pub record HasRestarted (n : ℕ) (m c r : Machine) : Type 0 where
  pub args_pushed : (r.sp ≡ c.sp - 8 * n)
  pub args_back : (j : ℕ) → j < n → r.stack (r.sp + 8 * j) ≡ m.stack (m.sp + 8 * j)
  pub below_args : (a : ℕ) → c.sp ≤ a → r.stack a ≡ c.stack a
  pub env_back : r.env ≡ m.env
  pub more : r.extra_args ≡ add_word c.extra_args n

module _ (ml : Ocaml) where
  -- The block `b` in the machine `c` is a partial application of `code` to the `n` arguments at the top
  -- of the stack of `m`, in the environment of `m`.
  pub record IsPartial (n code b : ℕ) (m c : Machine) : Type 0 where
    pub size : wosize_val ml c b ≡ n + 2
    pub code_kept : c.heap b ≡ code
    pub env_kept : c.heap (b + 8) ≡ m.env
    pub args_kept : (j : ℕ) → j < n → c.heap (b + 8 * (2 + j)) ≡ m.stack (m.sp + 8 * j)

  -- `c` has gone back to the caller of `m`, whose frame stands behind `n` arguments.
  pub record HasGoneBack (n : ℕ) (m c : Machine) : Type 0 where
    pub frame_popped : c.sp ≡ m.sp + 8 * (n + 3)
    pub caller_env : c.env ≡ m.stack (m.sp + 8 * (n + 1))
    pub caller_extra : c.extra_args ≡ ml.long_val (m.stack (m.sp + 8 * (n + 2)))
    pub same_stack : c.stack ≡ m.stack

module _ (ml : Ocaml) (std : IsStandard ml) (al : IsAllocator ml) where
  -- The new block, and the machine that has filled it.
  abbrev block : ℕ → Machine → ℕ
  block n m = (ml.alloc_small (n + 2) ml.closure_tag m).0

  abbrev alloc_heap : ℕ → Machine → ℕ → ℕ
  alloc_heap n m = (ml.alloc_small (n + 2) ml.closure_tag m).1.heap

  abbrev with_env : ℕ → Machine → Machine
  with_env n m = record m {
    accu = block n m;
    heap = write (alloc_heap n m) (ml.field (block n m) 1) m.env;
  }

  abbrev filled : ℕ → ℕ → Machine → Machine
  filled n code m =
      let m₃ = save_slots ml n 0 2 (block n m) (with_env n m) in
      record m {
        accu = block n m;
        sp = ptr_add (ptr_add m.sp n) 3;
        env = m.stack (ptr_add (ptr_add m.sp n) 1);
        extra_args = ml.long_val (m.stack (ptr_add (ptr_add m.sp n) 2));
        heap = write m₃.heap (ml.field (block n m) 0) code;
      }

  create-eq :
      (code n : ℕ) (m : Machine)
      → m.extra_args + 1 ≡ n
      → n + 2 < word_mod
      → n + 2 ≤ ml.max_young_wosize
      → create_restart_closure ml code m ≡ filled n code m
  unfolding create_restart_closure
  create-eq code n m e room small =
      let count : add_word 1 m.extra_args ≡ n = omega arith in
      let size : add_word n 2 ≡ n + 2 = omega arith in
      rw (count, size, al.heap_only (n + 2) ml.closure_tag m small)
        (rw (save_rest ml std n 0 2 (block n m) (with_env n m)) refl)

  module _ (n code : ℕ) (m : Machine) (room : m.sp + 8 * (n + 3) < word_mod)
      (small : n + 2 ≤ ml.max_young_wosize) where
    in_range : (8 ≤ block n m) × (block n m + 8 * (n + 2) < word_mod)
    in_range = al.placed (n + 2) ml.closure_tag m small

    filled_heap :
        (a : ℕ)
        → block n m + 8 ≤ a
        → (filled n code m).heap a ≡ (save_slots ml n 0 2 (block n m) (with_env n m)).heap a
    filled_heap a h = ground (arith, field-eq ml std (block n m) 0, in_range)

    filled_header :
        (filled n code m).heap (ml.header (block n m)) ≡ alloc_heap n m (ml.header (block n m))
    filled_header =
        let at_header : ml.header (block n m) ≡ block n m - 8 =
          std.header_lem (block n m) ∙ omega (arith, in_range) in
        let saved =
          save_outside ml std n 0 2 (block n m) (with_env n m) (block n m - 8)
            (omega (arith, in_range)) (inl (omega (arith, in_range))) in
        rw at_header (
          ground
            (arith, field-eq ml std (block n m) 0, field-eq ml std (block n m) 1, in_range, saved))

    filled_env : (filled n code m).heap (block n m + 8) ≡ m.env
    filled_env =
        filled_heap (block n m + 8) (omega arith)
        ∙ save_outside ml std n 0 2 (block n m) (with_env n m) (block n m + 8)
            (omega (arith, in_range)) (inl (omega arith))
        ∙ ground (arith, field-eq ml std (block n m) 1, in_range)

    filled_args :
        (j : ℕ) → j < n → (filled n code m).heap (block n m + 8 * (2 + j)) ≡ m.stack (m.sp + 8 * j)
    filled_args j h =
        filled_heap (block n m + 8 * (2 + j)) (omega arith)
        ∙ save_inside ml std n 0 2 (block n m) (with_env n m) j (omega (arith, in_range))
            (omega arith) (omega arith)
        ∙ ground arith

    filled-IsPartial : IsPartial ml n code (block n m) m (filled n code m)
    filled-IsPartial = record {
      size = ap ml.wosize_hd filled_header ∙ al.sized (n + 2) ml.closure_tag m small;
      code_kept = ground (arith, field-eq ml std (block n m) 0, in_range);
      env_kept = filled_env;
      args_kept = filled_args;
    }

    filled-HasGoneBack : HasGoneBack ml n m (filled n code m)
    filled-HasGoneBack = record {
      frame_popped = omega arith;
      caller_env = ground arith;
      caller_extra = ground arith;
      same_stack = refl;
    }

  -- Where OCaml's macros are as `IsStandard` says and allocation is as `IsAllocator` says: with
  -- the extra arguments on the stack, at most `Max_young_wosize - 2` of them, and a frame behind them,
  -- `createRestartClosure` leaves a block that is a partial application of the code to these
  -- arguments in the present environment, and goes back to the caller with the block in the
  -- accumulator.
  pub create_restart_closure-IsPartial :
      (code n : ℕ) (m : Machine)
      → m.extra_args + 1 ≡ n
      → m.sp + 8 * (n + 3) < word_mod
      → n + 2 ≤ ml.max_young_wosize
      → let c = create_restart_closure ml code m in
        IsPartial ml n code c.accu m c × HasGoneBack ml n m c
  create_restart_closure-IsPartial code n m e room small =
      rw (create-eq code n m e (omega arith) small)
        (filled-IsPartial n code m room small, filled-HasGoneBack n code m room small)

  abbrev lowered : ℕ → Machine → Machine
  lowered n c = record c { sp = c.sp - 8 * n }

  restart-eq :
      (n : ℕ) (c : Machine)
      → wosize_val ml c c.env ≡ n + 2
      → n < 2 ^ 31
      → 8 * n ≤ c.sp
      → c.sp < word_mod
      → restart ml c ≡ record c {
        sp = c.sp - 8 * n;
        stack = (load_slots ml n 0 2 c.env (lowered n c)).stack;
        env = c.heap (ml.field c.env 1);
        extra_args = add_word c.extra_args n;
      }
  unfolding restart
  restart-eq n c size small low high =
      let count : sub_word (n + 2) 2 ≡ n = omega arith in
      let low_half : int_of_word n ≡ n = ground arith in
      let rounds : word_rounds ml n ≡ n = ground arith in
      let down : ptr_sub c.sp n ≡ c.sp - 8 * n = omega arith in
      rw (size, count, low_half, down, rounds)
        (rw (load_rest ml std n 0 2 c.env (lowered n c)) refl)

  -- Where OCaml's macros are as `IsStandard` says: `restart` in an environment that is a partial
  -- application of `n` arguments, which an `int` holds, pushes them in their order, brings back the environment that
  -- they were given in, and counts them as extra arguments.
  pub restart-HasRestarted :
      (n code : ℕ) (m c : Machine)
      → IsPartial ml n code c.env m c
      → c.env + 8 * (n + 2) < word_mod
      → n < 2 ^ 31
      → 8 * n ≤ c.sp
      → c.sp < word_mod
      → HasRestarted n m c (restart ml c)
  unfolding restart
  restart-HasRestarted n code m c part placed small low high =
      let inside = load_inside ml std n 0 2 c.env (lowered n c) in
      let outside = load_outside ml std n 0 2 c.env (lowered n c) in
      rw (restart-eq n c part.size small low high) (record {
        args_pushed = refl;
        args_back = λ j h.
            inside j (omega arith) (omega arith) (omega arith)
            ∙ ap c.heap (field-eq ml std c.env (2 + j) (omega arith))
            ∙ part.args_kept j h;
        below_args = λ a h. outside a (omega arith) (inr (omega arith));
        env_back = ap c.heap (field-eq ml std c.env 1 (omega arith)) ∙ part.env_kept;
        more = refl;
      })
