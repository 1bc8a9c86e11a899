-- ===== src/Runtime/Sample.antt =====
-- A concrete OCaml runtime, in which the tests run: values as documented, and an allocator that
-- places every block at the same address.
use camll_vm.Base.{
  ℕ, ◌+◌, ◌*◌, ◌/◌, ◌%◌, refl, none, List, [], ◌∷◌, arith, Memory, word, sub_word, write,
}
use camll_vm.Runtime.State.{Machine, Ocaml, IsStandard, IsAllocator, tagged, untagged}

abbrev pub sample_header : ℕ → ℕ → ℕ
sample_header w t = w * 1024 + t % 256

abbrev pub sample_alloc : ℕ → ℕ → Machine → ℕ × Machine
sample_alloc w t m = (4096, record m { heap = write m.heap 4088 (sample_header w t) })

abbrev sample_sum : List ℕ → ℕ
sample_sum [] = 0
sample_sum (x ∷ xs) = word (x + sample_sum xs)

-- A primitive adds its arguments.
abbrev pub sample : Ocaml
sample = record {
  val_long = tagged;
  long_val = untagged;
  field = λ v i. word (v + 8 * i);
  header = λ v. sub_word v 8;
  wosize_hd = λ h. h / 1024;
  tag_hd = λ h. h % 256;
  make_header = sample_header;
  closure_tag = 247;
  infix_tag = 249;
  double_array_tag = 254;
  max_young_wosize = 256;
  atom = λ t. 65536 + 8 * t;
  byte = λ mem v i. mem (word (v + i)) % 256;
  set_byte = λ mem v i b. write mem (word (v + i)) b;
  double_wosize = 1;
  double_tag = 253;
  double_val = λ mem v. mem v;
  double_field = λ mem v i. mem (word (v + 8 * i));
  store_double_field = λ mem v i d. write mem (word (v + 8 * i)) d;
  trap_link = λ p. word (p + 8);
  alloc_small = sample_alloc;
  alloc_shr = sample_alloc;
  realloc_stack = λ m. m;
  primitive = λ prim args m. (sample_sum args, m);
}

pub sample-IsStandard : IsStandard sample
sample-IsStandard = record {
  val_long_lem = λ n. refl;
  long_val_lem = λ v h. refl;
  field_lem = λ v i. refl;
  header_lem = λ v. refl;
  trap_link_lem = λ p. refl;
}

pub sample-IsAllocator : IsAllocator sample
sample-IsAllocator = record {
  heap_only = λ w t m h. refl;
  sized = λ w t m h. omega arith;
  placed = λ w t m h. omega arith;
}

-- A machine with the given registers and memories.
abbrev pub at_rest : ℕ → ℕ → ℕ → ℕ → Memory → Memory → Machine
at_rest accu sp env extra stack heap = record {
  accu = accu;
  sp = sp;
  env = env;
  extra_args = extra;
  stack = stack;
  heap = heap;
  trap_sp = 8000;
  extern_sp = 0;
  stack_threshold = 256;
  global_data = 32768;
  exn_bucket = 0;
  next_context = none;
  context_next = λ i. none;
  buffer_index = 0;
  external_raise = none;
}
