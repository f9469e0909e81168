-- ===== src/Interpreter/Preemption.antt =====
-- Time slices: `timesliceDone` of `execute` (cmd/vm/Interpreter.cc), and executing the process again.
use valutron.Prelude.{
  ltb, lt→ltb, ◌<◌, ℕ, ◌+◌, ◌-◌, ◌≡◌, ◌≢◌, refl, Bool, true, some, List, ◌∷◌, get_elem?, arith,
  ◌==◌,
}
use valutron.Outcome.{done}
use valutron.Bytecode.{Opcode, byte_of, opcode_at-byte_of}
use valutron.Interpreter.State.{Machine, stops, World, ctx, code_of, spill}
use valutron.Interpreter.Step.{tests_counter, timeslice_done, dispatch, loop, resume, execute}

-- `n` is `m` but for the accumulator and the program counter that are kept in the process: in the context
-- that is current the program counter alone is another, all other contexts are the same.
pub record Resumes (m n : Machine) : Type 0 where
  pub same_ac : n.ac ≡ m.ac
  pub same_pc : n.pc ≡ m.pc
  pub same_bp : n.bp ≡ m.bp
  pub same_heap : n.heap ≡ m.heap
  pub same_stack : n.stack_words ≡ m.stack_words
  pub same_proc : n.proc ≡ m.proc
  pub kept_ac : n.accumulator ≡ m.ac
  pub kept_pc : ctx n ≡ record (ctx m) { program_counter = m.pc }
  pub same_contexts : (i : ℕ) → i ≢ m.bp → n.contexts i ≡ m.contexts i

spill-Resumes : (m : Machine) → Resumes m (spill m)
unfolding spill
spill-Resumes m = record {
  same_ac = refl;
  same_pc = refl;
  same_bp = refl;
  same_heap = refl;
  same_stack = refl;
  same_proc = refl;
  kept_ac = refl;
  kept_pc = ground arith;
  same_contexts = λ i other. ground arith;
}

module _ (w : World) (fuel : ℕ) where
  resume-spill : (m : Machine) → resume w fuel (spill m) ≡ spill m
  unfolding resume spill
  resume-spill m = let self : (m.bp == m.bp) ≡ true = ground arith in rw self refl

  preempted :
      (m : Machine) (op : Opcode)
      → get_elem? (code_of m).bytecode m.pc ≡ some (byte_of op)
      → tests_counter op ≡ true
      → m.pc < 10000
      → dispatch w fuel true m ≡ done (stops 1 (spill m))
  unfolding dispatch timeslice_done
  preempted m op e t low =
      let same : m.pc + 1 - 1 ≡ m.pc = omega arith in
      let small : ltb m.pc 10000 ≡ true = lt→ltb m.pc 10000 low in
      rw (e, opcode_at-byte_of op, t, same, small) refl

  -- If the next instruction is one that tests the interrupt flag and finds it set, and stands below 10000,
  -- then `execute` answers 1. Executed again, with any readings of the flag, the process goes on just as the
  -- loop does from the spilled machine, which has the same `ac` and `pc`, so that the instruction is next
  -- again, and the same objects, stack, process and contexts but for the accumulator and the program counter
  -- of the current context, in which `ac` and `pc` are saved.
  pub execute-preempted :
      (m : Machine) (op : Opcode) (flags later : List Bool)
      → get_elem? (code_of m).bytecode m.pc ≡ some (byte_of op)
      → tests_counter op ≡ true
      → m.pc < 10000
      → (m' : Machine) × (loop w fuel (true ∷ flags) m ≡ done (1, m'))
        × (execute w fuel later m' ≡ loop w fuel later (spill m))
        × Resumes m (spill m)
  unfolding loop execute
  execute-preempted m op flags later e t low =
      (spill m, rw (preempted m op e t low) refl, rw (resume-spill m) refl, spill-Resumes m)
