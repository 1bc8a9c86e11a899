-- ===== src/Runtime/Frames/Tails.antt =====
-- Tail calls slide their arguments to the top of the frame that they replace.
use camll_vm.Base.{
  ℕ, zero, suc, ◌+◌, ◌-◌, ◌*◌, ◌^◌, ◌≤◌, ◌<◌, ◌≡◌, ◌⊎◌, inr, refl, ◌∙◌, arith, false, ltb, sub_word,
  add_word, word_mod, word, ptr_add, ptr_sub, write, Memory,
}
use native.Mathlib.Decide.{dec_lt}
use camll_vm.Runtime.State.{Machine, Ocaml, slot, code_val}
use camll_vm.Runtime.Frames.{Call, slide, slide_rounds, appterm, appterm1, appterm2, appterm3}

-- The `n` words at `p` in the memory `s` are those at `q` in the memory `t`.
abbrev pub IsCopy : ℕ → Memory → ℕ → Memory → ℕ → Type 0
IsCopy n s p t q = (i : ℕ) → i < n → s (p + 8 * i) ≡ t (q + 8 * i)

-- The tail calls: those of one, two and three arguments, and the general one.
pub data Tail : Type 0 where
  one two three : Tail
  many : ℕ → Tail

abbrev pub tail_args : Tail → ℕ
tail_args one = 1
tail_args two = 2
tail_args three = 3
tail_args (many n) = n

module _ (ml : Ocaml) where
  -- `c` is the tail call with `n` arguments from the frame of `slotsize` words at the top of `m`'s
  -- stack: the frame has made way for the arguments, and the function in the accumulator runs.
  pub record HasSlid (n slotsize : ℕ) (m : Machine) (c : Call) : Type 0 where
    pub code : c.0 ≡ code_val ml m m.accu
    pub entered : (c.1.env ≡ m.accu) × (c.1.accu ≡ m.accu)
    pub more : c.1.extra_args ≡ word (m.extra_args + (n - 1))
    pub at_top : c.1.sp + 8 * n ≡ m.sp + 8 * slotsize
    pub copied : IsCopy n c.1.stack c.1.sp m.stack m.sp
    pub kept : (a : ℕ) → m.sp + 8 * slotsize ≤ a → c.1.stack a ≡ m.stack a

  abbrev slide_write : ℕ → ℕ → Machine → Machine
  slide_write n newsp m = record m { stack = write m.stack (ptr_add newsp n) (slot m n) }

  -- Nothing else changes.
  slide_rest :
      (n newsp : ℕ) (m : Machine)
      → slide ml n newsp m ≡ record m { stack = (slide ml n newsp m).stack }
  unfolding slide
  slide_rest zero newsp m = refl
  slide_rest (suc n) newsp m = slide_rest n newsp (slide_write n newsp m)

  slide_outside :
      (n newsp : ℕ) (m : Machine) (a : ℕ)
      → newsp + 8 * n < word_mod
      → (a < newsp) ⊎ (newsp + 8 * n ≤ a)
      → (slide ml n newsp m).stack a ≡ m.stack a
  unfolding slide
  slide_outside zero newsp m a room h = refl
  slide_outside (suc n) newsp m a room h =
      slide_outside n newsp (slide_write n newsp m) a (omega arith) (omega arith) ∙ ground arith

  slide-IsCopy :
      (n newsp : ℕ) (m : Machine)
      → m.sp ≤ newsp
      → newsp + 8 * n < word_mod
      → IsCopy n (slide ml n newsp m).stack newsp m.stack m.sp
  unfolding slide
  slide-IsCopy zero newsp m up room i h = absurd (omega arith)
  slide-IsCopy (suc n) newsp m up room i h = elim (dec_lt i n) [
    | yes lt ↦ slide-IsCopy n newsp (slide_write n newsp m) up (omega arith) i lt ∙ ground arith
    | no ge ↦
        let last : i ≡ n = omega arith in
        let end : (slide ml n newsp (slide_write n newsp m)).stack (newsp + 8 * n)
            ≡ m.stack (m.sp + 8 * n) =
          slide_outside n newsp (slide_write n newsp m) (newsp + 8 * n) (omega arith)
            (inr (omega arith))
          ∙ ground arith in
        rw last end
  ]

  newsp-eq :
      (n slotsize sp : ℕ)
      → n ≤ slotsize
      → sp + 8 * slotsize < word_mod
      → ptr_sub (ptr_add sp slotsize) n ≡ sp + 8 * (slotsize - n)
  newsp-eq n slotsize sp fits room = omega arith

  -- The machine that a tail call enters when the stack need not grow.
  abbrev slid : ℕ → ℕ → Machine → Call
  slid n slotsize m = (
    code_val ml m m.accu,
    record m {
      sp = m.sp + 8 * (slotsize - n);
      stack = (slide ml n (m.sp + 8 * (slotsize - n)) m).stack;
      env = m.accu;
      extra_args = sub_word (add_word m.extra_args n) 1;
    },
  )

  appterm-eq :
      (n slotsize : ℕ) (m : Machine)
      → n < 2 ^ 31
      → n ≤ slotsize
      → m.stack_threshold ≤ m.sp
      → m.sp + 8 * slotsize < word_mod
      → appterm ml n slotsize m ≡ slid n slotsize m
  unfolding appterm
  appterm-eq n slotsize m small fits thr room =
      let rounds : slide_rounds ml n ≡ n = ground arith in
      let at_top : ltb (m.sp + 8 * (slotsize - n)) m.stack_threshold ≡ false = ground arith in
      rw
        (
          newsp-eq n slotsize m.sp fits room,
          rounds,
          slide_rest n (m.sp + 8 * (slotsize - n)) m,
          at_top,
        )
        refl

  slid-HasSlid :
      (n slotsize : ℕ) (m : Machine)
      → 0 < n
      → n ≤ slotsize
      → m.sp + 8 * slotsize < word_mod
      → HasSlid n slotsize m (slid n slotsize m)
  slid-HasSlid n slotsize m pos fits room = record {
    code = refl;
    entered = (refl, refl);
    more = omega arith;
    at_top = omega arith;
    copied = slide-IsCopy n (m.sp + 8 * (slotsize - n)) m (omega arith) (omega arith);
    kept = λ a h. slide_outside n (m.sp + 8 * (slotsize - n)) m a (omega arith) (inr (omega arith));
  }

  -- The tail calls by their number of arguments.
  abbrev pub tail_called : Tail → ℕ → Machine → Call
  tail_called one = appterm1 ml
  tail_called two = appterm2 ml
  tail_called three = appterm3 ml
  tail_called (many n) = appterm ml n

  one-eq :
      (slotsize : ℕ) (m : Machine)
      → 1 ≤ slotsize
      → m.extra_args < word_mod
      → m.stack_threshold ≤ m.sp
      → m.sp + 8 * slotsize < word_mod
      → appterm1 ml slotsize m ≡ slid 1 slotsize m
  unfolding appterm1 slide
  one-eq slotsize m fits ew thr room = ground (arith, newsp-eq 1 slotsize m.sp fits room)

  two-IsCopy :
      (slotsize : ℕ) (m : Machine)
      → 2 ≤ slotsize
      → m.stack_threshold ≤ m.sp
      → m.sp + 8 * slotsize < word_mod
      → IsCopy 2 (appterm2 ml slotsize m).1.stack (appterm2 ml slotsize m).1.sp m.stack m.sp
  unfolding appterm2
  two-IsCopy slotsize m fits thr room zero h = ground (arith, newsp-eq 2 slotsize m.sp fits room)
  two-IsCopy slotsize m fits thr room (suc zero) h =
      ground (arith, newsp-eq 2 slotsize m.sp fits room)
  two-IsCopy slotsize m fits thr room (suc (suc i)) h = absurd (omega arith)

  two-HasSlid :
      (slotsize : ℕ) (m : Machine)
      → 2 ≤ slotsize
      → m.stack_threshold ≤ m.sp
      → m.sp + 8 * slotsize < word_mod
      → HasSlid 2 slotsize m (appterm2 ml slotsize m)
  unfolding appterm2
  two-HasSlid slotsize m fits thr room =
      let new = newsp-eq 2 slotsize m.sp fits room in
      record {
        code = ground (arith, new);
        entered = ground (arith, new);
        more = ground (arith, new);
        at_top = ground (arith, new);
        copied = two-IsCopy slotsize m fits thr room;
        kept = λ a h. ground (arith, new);
      }

  three-IsCopy :
      (slotsize : ℕ) (m : Machine)
      → 3 ≤ slotsize
      → m.stack_threshold ≤ m.sp
      → m.sp + 8 * slotsize < word_mod
      → IsCopy 3 (appterm3 ml slotsize m).1.stack (appterm3 ml slotsize m).1.sp m.stack m.sp
  unfolding appterm3
  three-IsCopy slotsize m fits thr room zero h = ground (arith, newsp-eq 3 slotsize m.sp fits room)
  three-IsCopy slotsize m fits thr room (suc zero) h =
      ground (arith, newsp-eq 3 slotsize m.sp fits room)
  three-IsCopy slotsize m fits thr room (suc (suc zero)) h =
      ground (arith, newsp-eq 3 slotsize m.sp fits room)
  three-IsCopy slotsize m fits thr room (suc (suc (suc i))) h = absurd (omega arith)

  three-HasSlid :
      (slotsize : ℕ) (m : Machine)
      → 3 ≤ slotsize
      → m.stack_threshold ≤ m.sp
      → m.sp + 8 * slotsize < word_mod
      → HasSlid 3 slotsize m (appterm3 ml slotsize m)
  unfolding appterm3
  three-HasSlid slotsize m fits thr room =
      let new = newsp-eq 3 slotsize m.sp fits room in
      record {
        code = ground (arith, new);
        entered = ground (arith, new);
        more = ground (arith, new);
        at_top = ground (arith, new);
        copied = three-IsCopy slotsize m fits thr room;
        kept = λ a h. ground (arith, new);
      }

  -- A tail call of at least one argument from a frame that holds its arguments, with the stack above
  -- its threshold, moves the arguments to the top of the frame in their order, changes nothing above
  -- the frame, and enters the function in the accumulator with that many more arguments.
  pub tail_called-HasSlid :
      (k : Tail) (slotsize : ℕ) (m : Machine)
      → 0 < tail_args k
      → tail_args k < 2 ^ 31
      → tail_args k ≤ slotsize
      → m.extra_args < word_mod
      → m.stack_threshold ≤ m.sp
      → m.sp + 8 * slotsize < word_mod
      → HasSlid (tail_args k) slotsize m (tail_called k slotsize m)
  tail_called-HasSlid one slotsize m pos small fits ew thr room =
      rw (one-eq slotsize m fits ew thr room) (slid-HasSlid 1 slotsize m pos fits room)
  tail_called-HasSlid two slotsize m pos small fits ew thr room =
      two-HasSlid slotsize m fits thr room
  tail_called-HasSlid three slotsize m pos small fits ew thr room =
      three-HasSlid slotsize m fits thr room
  tail_called-HasSlid (many n) slotsize m pos small fits ew thr room =
      rw (appterm-eq n slotsize m small fits thr room) (slid-HasSlid n slotsize m pos fits room)
