-- ===== src/Runtime/Exceptions/Nesting.antt =====
-- The contexts of exception handlers (src/StdLib/CStdLib.c) are a stack: of their number alone
-- depends where an exception goes.
use camll_vm.Base.{
  ℕ, zero, suc, ◌+◌, ◌-◌, ◌<◌, ◌≡◌, refl, sym, ap, ◌∙◌, true, false, Option, none, some, List, [],
  ◌∷◌, Bool-cases, ltb, ltb→lt, inl, inr, ◌==◌, ==_iff, if◌then◌else◌, ◌>>=◌, arith,
}
use camll_vm.Runtime.State.{Machine}
use camll_vm.Runtime.Exceptions.{buffers, link_context, get_new_buffer, remove_exception_context}

-- The innermost of `n` contexts.
abbrev pub innermost : ℕ → Option ℕ
innermost zero = none
innermost (suc n) = some n

-- `n` contexts are there, each linked to the one around it.
pub record IsNested (n : ℕ) (m : Machine) : Type 0 where
  pub index : m.buffer_index ≡ n
  pub inner : m.next_context ≡ innermost n
  pub linked : (i : ℕ) → i < n → m.context_next i ≡ innermost i

-- A handler is set up, or taken off.
pub data Event : Type 0 where
  enter leave : Event

abbrev pub run : List Event → Machine → Option Machine
run [] m = some m
run (enter ∷ es) m = get_new_buffer m >>= run es
run (leave ∷ es) m = remove_exception_context m >>= run es

-- The number of contexts after the events: there is room for `buffers`, and one to take off.
abbrev pub depth : List Event → ℕ → Option ℕ
depth [] n = some n
depth (enter ∷ es) n = if ltb n buffers then depth es (suc n) else none
depth (leave ∷ es) zero = none
depth (leave ∷ es) (suc n) = depth es n

-- The result of a run from `n` contexts has as many as `depth` says, and is a fault when `depth` is.
abbrev pub Agrees : Option ℕ → Option Machine → Type 0
Agrees none r = r ≡ none
Agrees (some n) r = (m : Machine) × (r ≡ some m) × IsNested n m

abbrev entered : Machine → Machine
entered m = record m {
  context_next = link_context m.context_next m.buffer_index m.next_context;
  next_context = some m.buffer_index;
  buffer_index = m.buffer_index + 1;
  external_raise = some (some m.buffer_index);
}

abbrev left : ℕ → Machine → Machine
left c m = record m {
  next_context = m.context_next c;
  buffer_index = m.buffer_index - 1;
  external_raise = some (m.context_next c);
}

enter_lem :
    (n : ℕ) (m : Machine)
    → IsNested n m
    → n < buffers
    → (m' : Machine) × (get_new_buffer m ≡ some m') × IsNested (suc n) m'
unfolding get_new_buffer
enter_lem n m h lt =
    let room : ltb m.buffer_index buffers ≡ true = ground (arith, h.index) in
    (
      entered m,
      rw room,
      record {
        index = omega (arith, h.index);
        inner = ap some h.index;
        linked = λ i l. elim (Bool-cases (m.buffer_index == i)) [
          | inl e ↦ rw e (h.inner ∙ ap innermost (sym h.index ∙ (==_iff m.buffer_index i).0 e))
          | inr e ↦ let below : i < n = ground (arith, h.index) in rw e (h.linked i below)
        ];
      },
    )

leave_lem :
    (n : ℕ) (m : Machine)
    → IsNested (suc n) m
    → (m' : Machine) × (remove_exception_context m ≡ some m') × IsNested n m'
unfolding remove_exception_context
leave_lem n m h = (
  left n m,
  rw h.inner,
  record {
    index = omega (arith, h.index);
    inner = h.linked n (omega arith);
    linked = λ i l. h.linked i (omega arith);
  },
)

full_lem : (n : ℕ) (m : Machine) → IsNested n m → ltb n buffers ≡ false → get_new_buffer m ≡ none
unfolding get_new_buffer
full_lem n m h e = rw h.index (rw e)

empty_lem : (m : Machine) → IsNested 0 m → remove_exception_context m ≡ none
unfolding remove_exception_context
empty_lem m h = rw h.inner

-- From `n` nested contexts, a sequence of handlers set up and taken off runs if and only if there
-- are never more than 2048 contexts and never one too few, and leaves the nested contexts that are
-- then left.
pub run-depth :
    (es : List Event) (n : ℕ) (m : Machine) → IsNested n m → Agrees (depth es n) (run es m)
run-depth [] n m h = (m, refl, h)
run-depth (enter ∷ es) n m h = elim (Bool-cases (ltb n buffers)) [
  | inl e ↦
      let (m', q, h') = enter_lem n m h (ltb→lt n buffers e) in
      rw (e, q) (run-depth es (suc n) m' h')
  | inr e ↦ rw (e, full_lem n m h e) refl
]
run-depth (leave ∷ es) zero m h = rw (empty_lem m h) refl
run-depth (leave ∷ es) (suc n) m h =
    let (m', q, h') = leave_lem n m h in rw q (run-depth es n m' h')
