-- ===== src/Runtime/Tests.antt =====
-- The theorems on the runtime library at concrete machines, over the sample runtime.
use Prim.Native.Nat.{bit_and, bit_or, bit_xor}
use camll_vm.Base.{
  ℕ, zero, suc, ◌+◌, ◌-◌, ◌*◌, ◌/◌, ◌%◌, ◌^◌, ◌≤◌, ◌<◌, ◌≡◌, ◌⊎◌, inl, inr, refl, none, some, not,
  List, [], ◌∷◌, arith, ltb, leb, ◌==◌, if◌then◌else◌, Memory,
}
use camll_vm.Runtime.Exceptions.Nesting.{Event, IsNested, Agrees, run, run-depth}
use camll_vm.Runtime.State.{Machine, tagged, drop_slots, get_field_at}
use camll_vm.Runtime.Sample.{sample, sample-IsStandard, sample-IsAllocator, at_rest}
use camll_vm.Runtime.Ints.{
  of_bool, add_int, sub_int, neg_int, mul_int, and_int, or_int, xor_int, lsl_int, lsr_int, asr_int,
  cmp_eq, cmp_neq, lt_int, le_int, gt_int, ge_int, ult_int, uge_int, div_int, mod_int,
}
use camll_vm.Runtime.Ints.Laws.{
  int_mod, int_lt, int_asr, arithmetic-tagged, bitwise-tagged, shifts-tagged, comparisons-tagged,
}
use camll_vm.Runtime.Ints.Division.{int_div, int_rem, division-tagged}
use camll_vm.Runtime.Frames.{
  handle_return, push_trap, get_exception_value, pop_trap, setup_for_c_call, c_call3,
}
use camll_vm.Runtime.Frames.Calls.{
  two, applied, HasFinished, HasReturned, apply_enters, apply-handle_return,
}
use camll_vm.Runtime.Frames.Traps.{HasTrapped, get_exception_value-push_trap, pop_trap-push_trap}
use camll_vm.Runtime.Frames.Primitives.{Fixed, KeepsStack, HasCalled, c_call-HasCalled}
use camll_vm.Runtime.Frames.Tails.{Tail, HasSlid, tail_called, tail_called-HasSlid}
use camll_vm.Runtime.Closures.{create_restart_closure, restart}
use camll_vm.Runtime.Closures.Partial.{
  IsPartial, HasGoneBack, HasRestarted, create_restart_closure-IsPartial, restart-HasRestarted,
}
use camll_vm.Runtime.Objects.{get_dyn_met, methods}
use camll_vm.Runtime.Objects.Search.{HasMethod, IsOdd, IsAscending, get_dyn_met-finds}

abbrev words : List (ℕ × ℕ) → Memory
words [] a = 0
words ((b, v) ∷ rest) a = if b == a then v else words rest a

-- -7 in the accumulator, 2 on the stack.
abbrev operands : Machine
operands = at_rest (2 ^ 64 - 13) 1000 0 0 (words ((1000, 5) ∷ [])) (words [])

arithmetic-tagged_example :
    ((add_int operands).accu ≡ tagged ((2 ^ 63 - 7 + 2) % int_mod))
    × ((sub_int operands).accu ≡ tagged ((2 ^ 63 - 7 + int_mod - 2) % int_mod))
    × ((neg_int operands).accu ≡ tagged ((int_mod - (2 ^ 63 - 7)) % int_mod))
    × ((mul_int sample operands).accu ≡ tagged ((2 ^ 63 - 7) * 2 % int_mod))
arithmetic-tagged_example =
    arithmetic-tagged sample sample-IsStandard operands (2 ^ 63 - 7) 2 (omega arith) (omega arith)
      refl refl

bitwise-tagged_example :
    ((and_int operands).accu ≡ tagged (bit_and (2 ^ 63 - 7) 2))
    × ((or_int operands).accu ≡ tagged (bit_or (2 ^ 63 - 7) 2))
    × ((xor_int operands).accu ≡ tagged (bit_xor (2 ^ 63 - 7) 2))
bitwise-tagged_example =
    bitwise-tagged sample sample-IsStandard operands (2 ^ 63 - 7) 2 (omega arith) (omega arith) refl
      refl

shifts-tagged_example :
    (lsl_int sample operands
      ≡ some (record (drop_slots 1 operands) { accu = tagged ((2 ^ 63 - 7) * 2 ^ 2 % int_mod) }))
    × (lsr_int sample operands
        ≡ some (record (drop_slots 1 operands) { accu = tagged ((2 ^ 63 - 7) / 2 ^ 2) }))
    × (asr_int sample operands
        ≡ some (record (drop_slots 1 operands) { accu = tagged (int_asr (2 ^ 63 - 7) 2) }))
shifts-tagged_example =
    shifts-tagged sample sample-IsStandard operands (2 ^ 63 - 7) 2 (omega arith) (omega arith) refl
      refl

comparisons-tagged_example :
    ((cmp_eq sample operands).accu ≡ tagged (of_bool (2 ^ 63 - 7 == 2)))
    × ((cmp_neq sample operands).accu ≡ tagged (of_bool (not (2 ^ 63 - 7 == 2))))
    × ((lt_int sample operands).accu ≡ tagged (of_bool (int_lt (2 ^ 63 - 7) 2)))
    × ((le_int sample operands).accu ≡ tagged (of_bool (not (int_lt 2 (2 ^ 63 - 7)))))
    × ((gt_int sample operands).accu ≡ tagged (of_bool (int_lt 2 (2 ^ 63 - 7))))
    × ((ge_int sample operands).accu ≡ tagged (of_bool (not (int_lt (2 ^ 63 - 7) 2))))
    × ((ult_int sample operands).accu ≡ tagged (of_bool (ltb (2 ^ 63 - 7) 2)))
    × ((uge_int sample operands).accu ≡ tagged (of_bool (leb 2 (2 ^ 63 - 7))))
comparisons-tagged_example =
    comparisons-tagged sample sample-IsStandard operands (2 ^ 63 - 7) 2 (omega arith) (omega arith)
      refl refl

division-tagged_example :
    (div_int sample operands ≡ (
      if 2 == 0
      then none
      else some (record (drop_slots 1 operands) { accu = tagged (int_div (2 ^ 63 - 7) 2) })))
    × (mod_int sample operands ≡ (
        if 2 == 0
        then none
        else some (record (drop_slots 1 operands) { accu = tagged (int_rem (2 ^ 63 - 7) 2) })))
division-tagged_example =
    division-tagged sample sample-IsStandard operands (2 ^ 63 - 7) 2 (omega arith) (omega arith)
      refl refl

-- -7 / 2 is -3, and the remainder -1.
quotient_rounds_to_zero :
    (int_div (2 ^ 63 - 7) 2 ≡ 2 ^ 63 - 3) × (int_rem (2 ^ 63 - 7) 2 ≡ 2 ^ 63 - 1)
quotient_rounds_to_zero = (refl, refl)

-- A closure at 5000 in the accumulator, arguments 21 and 23, one extra argument of the caller.
abbrev calling : Machine
calling =
    at_rest 5000 1000 6000 1 (words ((1000, 21) ∷ (1008, 23) ∷ (1016, 99) ∷ []))
      (words ((5000, 777) ∷ []))

apply_enters_example :
    ((applied sample two calling).0 ≡ 777)
    × ((applied sample two calling).1.env ≡ 5000)
    × ((applied sample two calling).1.extra_args ≡ 1)
apply_enters_example = apply_enters sample sample-IsStandard two calling (omega arith)

abbrev callee_done : Machine
callee_done = record ((applied sample two calling).1) { accu = 45; extra_args = 0; env = 0 }

callee_done-HasFinished : HasFinished (applied sample two calling).1 callee_done
callee_done-HasFinished = record { same_sp = refl; no_extra = refl; same_stack = λ a h. refl }

apply-handle_return_example : HasReturned 2 calling 45 (handle_return sample 2 callee_done)
apply-handle_return_example =
    apply-handle_return sample sample-IsStandard two calling callee_done (omega arith) (omega arith)
      callee_done-HasFinished

abbrev raising : Machine
raising = record (push_trap sample calling) { sp = 800; env = 0; exn_bucket = 42 }

raising-HasTrapped : HasTrapped (push_trap sample calling) raising
raising-HasTrapped = record { same_trap = refl; same_stack = λ a h. refl }

get_exception_value-push_trap_example :
    let r = get_exception_value sample raising in
    (r.sp ≡ 1000)
    × (r.env ≡ 6000)
    × (r.extra_args ≡ 1)
    × (r.trap_sp ≡ 8000)
    × (r.accu ≡ 42)
    × ((a : ℕ) → 1000 ≤ a → r.stack a ≡ calling.stack a)
unfolding push_trap
get_exception_value-push_trap_example =
    get_exception_value-push_trap sample sample-IsStandard calling raising (omega arith)
      (omega arith) (omega arith) raising-HasTrapped

abbrev ended : Machine
ended = record (push_trap sample calling) { accu = 9 }

ended-HasTrapped : HasTrapped (push_trap sample calling) ended
ended-HasTrapped = record { same_trap = refl; same_stack = λ a h. refl }

pop_trap-push_trap_example :
    let r = pop_trap sample ended in
    (r.sp ≡ 1000)
    × (r.trap_sp ≡ 8000)
    × (r.accu ≡ 9)
    × (r.env ≡ ended.env)
    × (r.extra_args ≡ ended.extra_args)
    × ((a : ℕ) → 1000 ≤ a → r.stack a ≡ calling.stack a)
pop_trap-push_trap_example =
    pop_trap-push_trap sample sample-IsStandard calling ended (omega arith) (omega arith)
      ended-HasTrapped refl

sample-KeepsStack : (prim : ℕ) (args : List ℕ) → KeepsStack (sample.primitive prim args)
sample-KeepsStack prim args = record { same_extern = λ m. refl; same_stack = λ m a h. refl }

c_call-HasCalled_example :
    HasCalled sample 0
      (5000 ∷ 21 ∷ 23 ∷ [])
      2
      (setup_for_c_call sample calling)
      calling
      (c_call3 sample 0 calling)
c_call-HasCalled_example =
    c_call-HasCalled sample Fixed.three 0 calling (sample-KeepsStack 0) (omega arith) (omega arith)

tail_called-HasSlid_example :
    HasSlid sample 2 3 calling (tail_called sample (Tail.many 2) 3 calling)
tail_called-HasSlid_example =
    tail_called-HasSlid sample (Tail.many 2) 3 calling (omega arith) (omega arith) (omega arith)
      (omega arith) (omega arith) (omega arith)

create_restart_closure-IsPartial_example :
    let c = create_restart_closure sample 555 calling in
    IsPartial sample 2 555 c.accu calling c × HasGoneBack sample 2 calling c
create_restart_closure-IsPartial_example =
    create_restart_closure-IsPartial sample sample-IsStandard sample-IsAllocator 555 2 calling refl
      (omega arith) (omega arith)

-- The partial application at 4096 is the environment, and one more argument is on the stack.
abbrev restarting : Machine
restarting =
    at_rest 4096 1024 4096 0 (words ((1024, 25) ∷ []))
      (words ((4088, 4096) ∷ (4096, 555) ∷ (4104, 6000) ∷ (4112, 21) ∷ (4120, 23) ∷ []))

restarting-IsPartial : IsPartial sample 2 555 4096 calling restarting
restarting-IsPartial = record { size = refl; code_kept = refl; env_kept = refl; args_kept = args }
  where
    args :
        (j : ℕ) → j < 2 → restarting.heap (4096 + 8 * (2 + j)) ≡ calling.stack (calling.sp + 8 * j)
    args zero h = refl
    args (suc zero) h = refl
    args (suc (suc j)) h = absurd (omega arith)

restart-HasRestarted_example : HasRestarted 2 calling restarting (restart sample restarting)
restart-HasRestarted_example =
    restart-HasRestarted sample sample-IsStandard sample-IsAllocator 2 555 calling restarting
      restarting-IsPartial (omega arith) (omega arith) (omega arith) (omega arith)

-- An object at 3000 on the stack; its table at 3200 has the tags 11, 15 and 19 at 3, 5 and 7.
abbrev object : Machine
object = at_rest 15 1000 0 0 (words ((1000, 3000) ∷ [])) (
    words (
      (3000, 3200)
      ∷ (3200, 7)
      ∷ (3216, 100)
      ∷ (3224, 11)
      ∷ (3232, 200)
      ∷ (3240, 15)
      ∷ (3248, 300)
      ∷ (3256, 19)
      ∷ []))

odd_cases : (n : ℕ) → 3 ≤ n → n ≤ 7 → IsOdd n → (n ≡ 3) ⊎ (n ≡ 5) ⊎ (n ≡ 7)
odd_cases n low high odd = omega arith

object_tags : IsAscending (get_field_at sample object (methods sample object)) 7
object_tags i j low lt high oi oj = elim (odd_cases i low (omega arith) oi) [
  | inl p ↦ elim (odd_cases j (omega arith) high oj) [
    | inl q ↦ absurd (omega arith)
    | inr (inl q) ↦ rw (p, q) (omega arith)
    | inr (inr q) ↦ rw (p, q) (omega arith)
  ]
  | inr (inl p) ↦ elim (odd_cases j (omega arith) high oj) [
    | inl q ↦ absurd (omega arith)
    | inr (inl q) ↦ absurd (omega arith)
    | inr (inr q) ↦ rw (p, q) (omega arith)
  ]
  | inr (inr p) ↦ absurd (omega arith)
]

object-HasMethod : HasMethod sample object 7 5
object-HasMethod = record {
  size = refl;
  small_size = omega arith;
  odd_size = refl;
  odd_index = refl;
  from = omega arith;
  upto = omega arith;
  ascending = object_tags;
  found = refl;
}

get_dyn_met-finds_example : get_dyn_met sample 8 object ≡ some (record object { accu = 200 })
get_dyn_met-finds_example = get_dyn_met-finds sample object 7 5 object-HasMethod

-- Two handlers set up and one taken off.
abbrev two_in_one_out : List Event
two_in_one_out = Event.enter ∷ Event.enter ∷ Event.leave ∷ []

abbrev no_handler : Machine
no_handler = at_rest 1 4096 0 0 (λ a. 0) (λ a. 0)

no_handler-IsNested : IsNested 0 no_handler
no_handler-IsNested = record { index = refl; inner = refl; linked = λ i l. absurd (omega arith) }

run-depth_example : Agrees (some 1) (run two_in_one_out no_handler)
run-depth_example = run-depth two_in_one_out 0 no_handler no_handler-IsNested
