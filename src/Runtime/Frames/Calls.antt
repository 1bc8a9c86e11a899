-- ===== src/Runtime/Frames/Calls.antt =====
-- A call and the return from it.
use camll_vm.Base.{ℕ, ◌+◌, ◌-◌, ◌*◌, ◌^◌, ◌≤◌, ◌<◌, ◌≡◌, ◌∙◌, arith, word_mod}
use camll_vm.Runtime.State.{Machine, Ocaml, IsStandard, tagged, code_val}
use camll_vm.Runtime.Frames.{Call, apply1, apply2, apply3, handle_return}

-- The stack has room for a frame of three words, which the threshold leaves, and `n` arguments.
abbrev pub HasRoom : ℕ → Machine → Type 0
HasRoom n m = (m.stack_threshold + 24 ≤ m.sp) × (m.sp + 8 * n < word_mod)

-- A count of arguments that a tagged integer holds.
abbrev pub IsCount : ℕ → Type 0
IsCount n = n < 2 ^ 62

-- `c` is a machine in which the callee `d` has done its work: it is back at the callee's stack
-- pointer with no further arguments, and the stack from there on is as the callee found it.
pub record HasFinished (d c : Machine) : Type 0 where
  pub same_sp : c.sp ≡ d.sp
  pub no_extra : c.extra_args ≡ 0
  pub same_stack : (a : ℕ) → d.sp ≤ a → c.stack a ≡ d.stack a

-- `r` is the caller `m` again, with `n` arguments popped and the result `v`.
pub record HasReturned (n : ℕ) (m : Machine) (v : ℕ) (r : ℕ × Machine) : Type 0 where
  pub returns : r.0 ≡ 0
  pub result : r.1.accu ≡ v
  pub popped : r.1.sp ≡ m.sp + 8 * n
  pub same_env : r.1.env ≡ m.env
  pub same_extra : r.1.extra_args ≡ m.extra_args

-- The numbers of arguments that have an instruction of their own.
pub data Nary : Type 0 where
  one two three : Nary

abbrev pub nary : Nary → ℕ
nary one = 1
nary two = 2
nary three = 3

module _ (ml : Ocaml) where
  abbrev pub applied : Nary → Machine → Call
  applied one m = apply1 ml m
  applied two m = apply2 ml m
  applied three m = apply3 ml m

module _ (ml : Ocaml) (std : IsStandard ml) where
  pub long_val-val_long : (n : ℕ) → IsCount n → ml.long_val (ml.val_long n) ≡ n
  long_val-val_long n h =
      rw (std.val_long_lem n) (std.long_val_lem (tagged n) (omega arith) ∙ ground arith)

  -- A frame: the arguments from the stack pointer on, then the return address, the environment
  -- and the extra arguments of the caller.
  record IsFrame (n extra : ℕ) (m d : Machine) : Type 0 where
    below : d.sp ≡ m.sp - 24
    env_saved : d.stack (m.sp - 24 + 8 * n + 8) ≡ m.env
    extra_saved : d.stack (m.sp - 24 + 8 * n + 16) ≡ ml.val_long m.extra_args
    entered : (d.env ≡ m.accu) × (d.accu ≡ m.accu) × (d.extra_args ≡ extra)
    kept : (a : ℕ) → m.sp + 8 * n ≤ a → d.stack a ≡ m.stack a
    code_kept : d.heap ≡ m.heap

  apply1-IsFrame : (m : Machine) → HasRoom 1 m → IsFrame 1 0 m (apply1 ml m).1
  unfolding apply1
  apply1-IsFrame m room = record {
    below = ground arith;
    env_saved = ground arith;
    extra_saved = ground arith;
    entered = ground arith;
    kept = λ a h. ground arith;
    code_kept = ground arith;
  }

  apply2-IsFrame : (m : Machine) → HasRoom 2 m → IsFrame 2 1 m (apply2 ml m).1
  unfolding apply2
  apply2-IsFrame m room = record {
    below = ground arith;
    env_saved = ground arith;
    extra_saved = ground arith;
    entered = ground arith;
    kept = λ a h. ground arith;
    code_kept = ground arith;
  }

  apply3-IsFrame : (m : Machine) → HasRoom 3 m → IsFrame 3 2 m (apply3 ml m).1
  unfolding apply3
  apply3-IsFrame m room = record {
    below = ground arith;
    env_saved = ground arith;
    extra_saved = ground arith;
    entered = ground arith;
    kept = λ a h. ground arith;
    code_kept = ground arith;
  }

  frame-HasReturned :
      (n extra : ℕ) (m d c : Machine)
      → IsCount n
      → 24 ≤ m.sp
      → m.sp + 8 * n < word_mod
      → IsCount m.extra_args
      → IsFrame n extra m d
      → HasFinished d c
      → HasReturned n m c.accu (handle_return ml n c)
  unfolding handle_return
  frame-HasReturned n extra m d c small low room count f done =
      let sp' = done.same_sp ∙ f.below in
      let at_env = done.same_stack (m.sp - 24 + 8 * n + 8) (omega arith) ∙ f.env_saved in
      let at_extra = done.same_stack (m.sp - 24 + 8 * n + 16) (omega arith) ∙ f.extra_saved in
      record {
        returns = ground arith;
        result = ground arith;
        popped = ground arith;
        same_env = ground (arith, at_env);
        same_extra = ground (arith, at_extra, long_val-val_long m.extra_args count);
      }

  applied-IsFrame :
      (k : Nary) (m : Machine)
      → HasRoom (nary k) m
      → IsFrame (nary k) (nary k - 1) m (applied ml k m).1
  applied-IsFrame one m room = apply1-IsFrame m room
  applied-IsFrame two m room = apply2-IsFrame m room
  applied-IsFrame three m room = apply3-IsFrame m room

  applied-code :
      (k : Nary) (m : Machine) → HasRoom (nary k) m → (applied ml k m).0 ≡ code_val ml m m.accu
  unfolding apply1 apply2 apply3
  applied-code one m room = ground arith
  applied-code two m room = ground arith
  applied-code three m room = ground arith

  -- Where OCaml's macros are as `IsStandard` says: `apply1`, `apply2` and `apply3`, with room on
  -- the stack, hand back the code of the function in the accumulator, which becomes the
  -- environment, with 0, 1 or 2 extra arguments.
  pub apply_enters :
      (k : Nary) (m : Machine)
      → HasRoom (nary k) m
      → ((applied ml k m).0 ≡ code_val ml m m.accu)
        × ((applied ml k m).1.env ≡ m.accu)
        × ((applied ml k m).1.extra_args ≡ nary k - 1)
  apply_enters k m room =
      let e = (applied-IsFrame k m room).entered in (applied-code k m room, e.0, e.2)

  nary-IsCount : (k : Nary) → IsCount (nary k)
  nary-IsCount one = omega arith
  nary-IsCount two = omega arith
  nary-IsCount three = omega arith

  -- Where OCaml's macros are as `IsStandard` says: after `apply1`, `apply2` or `apply3` (with
  -- room on the stack, and extra arguments that a tagged integer holds), once the callee has
  -- finished and left the frame alone, `handleReturn` for its arguments takes the caller up
  -- again: the result is in the accumulator, the environment and the extra arguments are the
  -- caller's, and the arguments are popped.
  pub apply-handle_return :
      (k : Nary) (m c : Machine)
      → HasRoom (nary k) m
      → IsCount m.extra_args
      → HasFinished (applied ml k m).1 c
      → HasReturned (nary k) m c.accu (handle_return ml (nary k) c)
  apply-handle_return k m c room count done =
      frame-HasReturned (nary k) (nary k - 1) m (applied ml k m).1 c (nary-IsCount k) (omega arith)
        (omega arith) count (applied-IsFrame k m room) done
