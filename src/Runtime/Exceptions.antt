-- ===== src/Runtime/Exceptions.antt =====
-- The contexts of exception handlers (src/StdLib/CStdLib.c). The jump buffers' contents belong to
-- `sigsetjmp`; a context stands for the place that a jump goes to.
pub mod Nesting
use camll_vm.Base.{ℕ, ◌+◌, ◌-◌, Option, none, some, ltb, ◌==◌, if◌then◌else◌, ◌>>=◌}
use camll_vm.Runtime.State.{Machine}

-- `Buffers` has room for so many contexts.
abbrev pub buffers : ℕ
buffers = 2048

abbrev pub link_context : (ℕ → Option ℕ) → ℕ → Option ℕ → ℕ → Option ℕ
link_context f i c j = if i == j then c else f j

-- A context past the array is a fault.
unfoldable pub get_new_buffer : Machine → Option Machine
get_new_buffer m =
    if ltb m.buffer_index buffers
    then some (record m {
      context_next = link_context m.context_next m.buffer_index m.next_context;
      next_context = some m.buffer_index;
      buffer_index = m.buffer_index + 1;
      external_raise = some (some m.buffer_index);
    })
    else none

-- With no context left, `external_raise` is the `JmpBuf` of the null pointer, which is not null.
unfoldable pub remove_exception_context : Machine → Option Machine
remove_exception_context m = do
  context ← m.next_context
  some (record m {
    next_context = m.context_next context;
    buffer_index = m.buffer_index - 1;
    external_raise = some (m.context_next context);
  })

-- Where `throwException` ends: `exit(0)`, or a jump to a context.
pub data Thrown : Type 0 where
  exits : Thrown
  jumps : ℕ → Machine → Thrown

unfoldable pub throw_exception : ℕ → Machine → Thrown
throw_exception exc m = elim m.next_context [
  | none ↦ exits
  | some c ↦ jumps c (record m { exn_bucket = exc })
]
