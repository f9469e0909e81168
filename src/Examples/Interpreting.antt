-- ===== src/Examples/Interpreting.antt =====
-- A method, 100, that sends with one argument, register 2, and has a jump that is patched; the method 108
-- that answers the send; and two classes, 16 above 24.
use valutron.Prelude.{
  ℕ, ◌+◌, ◌≡◌, inl, refl, true, false, some, none, [], ◌∷◌, arith, ◌==◌, if◌then◌else◌,
}
use valutron.Outcome.{done}
use valutron.Word.{is_nil, is_smi}
use valutron.Bytecode.{Opcode, byte_of}
use valutron.CodeGen.{CodeGen, patch_jump_to}
use valutron.Dictionary.{Obj, Table, symbol_lookup}
use valutron.Methods.{Classes, Cache, own_method, lookup_method, lookup_cached}
use valutron.Methods.Search.{IsAncestry, first_method, lookup_method-first_method}
use valutron.Methods.Cached.{
  IsCoherent, method_of, lookup_cached-lookup_method, lookup_cached-IsCoherent, lookup_cached-stale,
}
use valutron.Interpreter.State.{
  spill, Code, Heap, Context, Machine, goes, World, ctx, reg_at, unspill,
}
use valutron.Interpreter.Contexts.{full_size, activate, leave, enter}
use valutron.Interpreter.Step.{tests_counter, loop, execute}
use valutron.Interpreter.Sends.{jump_if}
use valutron.Interpreter.Preemption.{Resumes, execute-preempted}
use valutron.Interpreter.Jumping.{jump_if-patch_jump_to}
use valutron.Interpreter.Callers.{Callers, activate-Callers}
use valutron.Interpreter.Calls.{KeepsCode, passed, activate-enters, activate-leave}

abbrev address : Obj → ℕ
address x = x

-- The selector 40 has the method 108 in class 24; class 16 has no dictionary.
abbrev methods : Table
methods = record { key = 40; value = 108; links = [] } ∷ []

abbrev classes : Classes
classes cls =
    if cls == 16
    then record { methods = none; super_class = 24 }
    else record { methods = some methods; super_class = 0 }

lower-IsAncestry : IsAncestry classes 16 (16 ∷ 24 ∷ [])
unfolding is_nil is_smi
lower-IsAncestry = (refl, refl, refl, omega arith, omega arith, (refl, refl, refl, inl refl))

lookup_method-first_method_example :
    lookup_method address classes 2 16 40 ≡ first_method address classes 40 (16 ∷ 24 ∷ [])
lookup_method-first_method_example =
    lookup_method-first_method address classes 40 2 16 (16 ∷ 24 ∷ []) lower-IsAncestry (omega arith)

abbrev empty_cache : Cache
empty_cache = record { selector = 40; cls = 0; method = 0; version = 0 }

abbrev filled_cache : Cache
filled_cache = record { selector = 40; cls = 16; method = 108; version = 5 }

empty_cache-IsCoherent : IsCoherent address classes 2 empty_cache
unfolding is_nil
empty_cache-IsCoherent = inl refl

lookup_cached-lookup_method_example :
    method_of address classes 2 (lookup_cached address classes 2 16 empty_cache)
    ≡ lookup_method address classes 2 16 40
lookup_cached-lookup_method_example =
    lookup_cached-lookup_method address classes 2 16 empty_cache empty_cache-IsCoherent

found : lookup_cached address classes 2 16 empty_cache ≡ done (108, filled_cache)
unfolding lookup_cached own_method symbol_lookup is_nil is_smi
found = refl

lookup_cached-IsCoherent_example :
    IsCoherent address classes 2 filled_cache
    × (filled_cache.selector ≡ empty_cache.selector)
    × (filled_cache.cls ≡ 16)
    × (filled_cache.method ≡ 108)
    × (filled_cache.version ≡ 5)
lookup_cached-IsCoherent_example =
    lookup_cached-IsCoherent address classes 2 16 108 empty_cache filled_cache
      empty_cache-IsCoherent found

-- The same classes without the method.
abbrev emptied : Classes
emptied cls = record { methods = none; super_class = 0 }

lookup_cached-stale_example :
    lookup_cached address emptied 1 16 filled_cache ≡ done (108, filled_cache)
lookup_cached-stale_example =
    lookup_cached-stale address classes emptied 2 1 16 108 empty_cache filled_cache found

abbrev generated : CodeGen
generated = record {
  bytecode =
      byte_of Opcode.send
      ∷ 0
      ∷ 1
      ∷ 2
      ∷ byte_of Opcode.jump
      ∷ 0
      ∷ 0
      ∷ byte_of Opcode.lda_nil
      ∷ byte_of Opcode.return
      ∷ [];
  literals = [];
  is_block = false;
  reg = 4;
  n_args = 1;
  n_locals = 2;
}

abbrev code : Obj → Code
code o = record {
  bytecode = (patch_jump_to 7 8 generated).bytecode;
  literals = 112 ∷ [];
  stack_size = 5;
  heap_vars_size = 0;
  method_class = 24;
  is_block = false;
  receiver = 0;
  home_method_context = 0;
  block_heap_vars = 0;
}

abbrev heap : Heap
heap = record {
  code = code;
  fields = λ o i. 0;
  class_of = λ o. 16;
  classes = classes;
  caches = λ o. empty_cache;
  globals = [];
}

abbrev world : World
world = record {
  hash_code = address;
  obj_true = 200;
  obj_false = 208;
  obj_smalltalk = 216;
  sym_bin = λ op. 40;
  bin_primitive = λ op a b. 0;
  primitive = λ prim args m. (0, m);
  new_array = λ n h. (224, h);
  copy_block = λ o h. (232, h);
  new_stack_frame = λ p bp h. (240, h);
}

world-KeepsCode : KeepsCode world
world-KeepsCode n h = refl

abbrev bottom : Context
bottom = record {
  prev_bp = 0;
  method_or_block = 100;
  home_method_bp = 0;
  heap_vars = 0;
  parent_heap_vars = 0;
  program_counter = 0;
  regs = λ i. i + 300;
  is_live = true;
}

-- The machine with its program counter at `pc`.
abbrev machine : ℕ → Machine
machine pc = record {
  heap = heap;
  contexts = λ bp. bottom;
  bp = 1;
  stack_words = 100;
  proc = 248;
  accumulator = 0;
  ac = 400;
  pc = pc;
}

execute-preempted_example :
    (m' : Machine) × (loop world 5 (true ∷ []) (machine 0) ≡ done (1, m'))
    × (execute world 5 (false ∷ []) m' ≡ loop world 5 (false ∷ []) (spill (machine 0)))
    × Resumes (machine 0) (spill (machine 0))
unfolding patch_jump_to byte_of tests_counter
execute-preempted_example =
    execute-preempted world 5 (machine 0) Opcode.send [] (false ∷ []) refl refl (omega arith)

jump_if-patch_jump_to_example : jump_if true (machine 5) ≡ done (goes (machine 8))
jump_if-patch_jump_to_example =
    jump_if-patch_jump_to generated 7 8 (machine 5) true (omega arith) (omega arith) (omega arith)
      (omega arith) refl refl

abbrev sent : Machine
sent =
    enter world 15
      (record bottom {
        prev_bp = 1;
        method_or_block = 108;
        regs = passed (λ i. i + 300) (2 ∷ []) 1 (λ i. if i == 0 then 400 else 0);
      })
      (machine 4)

activate-enters_example :
    (n : Machine) × (activate world 400 108 1 (machine 3) ≡ done (goes n))
    × (n.bp ≡ 1 + full_size (machine 3))
    × (n.pc ≡ 0)
    × ((ctx n).method_or_block ≡ 108)
    × ((ctx n).prev_bp ≡ 1)
    × ((ctx n).regs ≡ passed (reg_at (machine 3)) (2 ∷ []) 1 (λ i. if i == 0 then 400 else 0))
unfolding patch_jump_to full_size
activate-enters_example =
    activate-enters world world-KeepsCode (machine 3) 400 108 (2 ∷ []) (omega arith) (omega arith)
      (refl, tt)

activate-sent : activate world 400 108 1 (machine 3) ≡ done (goes sent)
unfolding activate patch_jump_to
activate-sent = refl

activate-leave_example :
    (k' : Machine) × (leave sent ≡ goes k')
    × (k'.bp ≡ 1)
    × (k'.pc ≡ 3 + 1)
    × (k'.ac ≡ sent.ac)
    × ((ctx k').regs ≡ bottom.regs)
    × ((ctx k').method_or_block ≡ 100)
    × ((ctx k').prev_bp ≡ 0)
unfolding patch_jump_to full_size
activate-leave_example =
    activate-leave world world-KeepsCode (machine 3) 400 108 (2 ∷ []) (omega arith) (omega arith)
      (refl, tt) sent sent (omega arith) activate-sent refl refl

one-Callers : Callers (λ bp. bottom) 1 (1 ∷ [])
one-Callers = (refl, omega arith, omega arith, refl)

two-Callers : Callers sent.contexts 15 (15 ∷ 1 ∷ [])
unfolding enter spill unspill
two-Callers = (refl, omega arith, omega arith, (refl, omega arith, omega arith, refl))

activate-Callers_example : Callers sent.contexts 15 (15 ∷ 1 ∷ [])
unfolding patch_jump_to full_size enter spill unspill
activate-Callers_example =
    activate-Callers world (machine 3) sent 400 108 (2 ∷ []) (1 ∷ []) world-KeepsCode (omega arith)
      (omega arith) (refl, tt) one-Callers activate-sent

abbrev back : Machine
back = unspill (record sent { bp = 1 })
