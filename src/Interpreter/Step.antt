-- ===== src/Interpreter/Step.antt =====
-- `execute` of cmd/vm/Interpreter.cc: the dispatch of one instruction, and the loop. The interrupt flag is read at each instruction
-- that tests it; what the reads find is a list.
use valutron.Prelude.{ℕ, ◌-◌, Bool, true, false, ◌&&◌, ltb, List, [], ◌∷◌, if◌then◌else◌}
use valutron.Outcome.{Outcome, done, dies, runs_on, ◌>>=◌, or_dies}
use valutron.Bytecode.{Opcode, opcode_at}
use valutron.Interpreter.State.{
  Machine, Next, goes, stops, World, ctx, reg_at, next_byte, spill, unspill,
}
use valutron.Interpreter.Contexts.{leave, leave_self, leave_block}
use valutron.Interpreter.Loads.{
  with_ac, move_parent_heap_var_to_my_heap_vars, move_my_heap_var_to_parent_heap_vars, load,
  parent_heap_var, my_heap_var, nst_var, lda_literal, store, star, move, lda_global,
  lda_this_context, lda_block_copy, and,
}
use valutron.Interpreter.Sends.{
  jump_if, branch_if, bin_op, send, send_super, primitive, primitive_0, primitive_1, primitive_2,
  primitive_3, primitive_v,
}

-- The instructions that begin with `TESTCOUNTER ()`.
unfoldable pub tests_counter : Opcode → Bool
tests_counter Opcode.branch_if_false = true
tests_counter Opcode.branch_if_true = true
tests_counter Opcode.bin_op = true
tests_counter Opcode.send = true
tests_counter Opcode.send_super = true
tests_counter Opcode.primitive = true
tests_counter Opcode.primitive_0 = true
tests_counter Opcode.primitive_1 = true
tests_counter Opcode.primitive_2 = true
tests_counter Opcode.primitive_3 = true
tests_counter Opcode.primitive_v = true
tests_counter Opcode.return_self = true
tests_counter Opcode.return = true
tests_counter Opcode.block_return = true
tests_counter _ = false

module _ (w : World) (fuel : ℕ) where
  -- One instruction, fetched already.
  unfoldable pub run : Opcode → Machine → Outcome Next
  run Opcode.move_parent_heap_var_to_my_heap_vars m = move_parent_heap_var_to_my_heap_vars m
  run Opcode.move_my_heap_var_to_parent_heap_vars m = move_my_heap_var_to_parent_heap_vars m
  run Opcode.lda_nil m = with_ac 0 m
  run Opcode.lda_true m = with_ac w.obj_true m
  run Opcode.lda_false m = with_ac w.obj_false m
  run Opcode.lda_this_context m = lda_this_context w m
  run Opcode.lda_this_process m = with_ac m.proc m
  run Opcode.lda_smalltalk m = with_ac w.obj_smalltalk m
  run Opcode.lda_parent_heap_var m = load parent_heap_var m
  run Opcode.lda_my_heap_var m = load my_heap_var m
  run Opcode.lda_global m = lda_global w m
  run Opcode.lda_nst_var m = load nst_var m
  run Opcode.lda_literal m = lda_literal m
  run Opcode.lda_block_copy m = lda_block_copy w m
  run Opcode.ldar m = load reg_at m
  run Opcode.sta_nst_var m = store (λ n. reg_at n 0) m
  run Opcode.sta_global m = dies
  run Opcode.sta_parent_heap_var m = store (λ n. (ctx n).parent_heap_vars) m
  run Opcode.sta_my_heap_var m = store (λ n. (ctx n).heap_vars) m
  run Opcode.star m = star m
  run Opcode.move m = move m
  run Opcode.and m = and w m
  run Opcode.jump m = jump_if true m
  run Opcode.branch_if_false m = branch_if w w.obj_false m
  run Opcode.branch_if_true m = branch_if w w.obj_true m
  run Opcode.bin_op m = bin_op w fuel m
  run Opcode.send m = send w fuel m
  run Opcode.send_super m = send_super w fuel m
  run Opcode.primitive m = primitive w m
  run Opcode.primitive_0 m = primitive_0 w m
  run Opcode.primitive_1 m = primitive_1 w m
  run Opcode.primitive_2 m = primitive_2 w m
  run Opcode.primitive_3 m = primitive_3 w m
  run Opcode.primitive_v m = primitive_v w m
  run Opcode.return_self m = done (leave_self m)
  run Opcode.return m = done (leave m)
  run Opcode.block_return m = done (leave_block m)

  -- `timesliceDone`: the instruction is not begun, and the process is spilled; 1 is the answer. The
  -- assertion is about the program counter just spilled.
  unfoldable pub timeslice_done : Machine → Outcome Next
  unfolding spill
  timeslice_done m =
      let back = record m { pc = m.pc - 1 } in
      if ltb back.pc 10000 then done (stops 1 (spill back)) else dies

  unfoldable pub dispatch : Bool → Machine → Outcome Next
  unfolding next_byte run tests_counter timeslice_done
  dispatch interrupt m = do
    (byte, m) ← next_byte m
    op ← or_dies (opcode_at byte)
    if interrupt && tests_counter op then timeslice_done m else run op m

  -- The loop from a machine on. Each round has its reading of the flag; after the last one `runs_on`.
  unfoldable pub loop : List Bool → Machine → Outcome (ℕ × Machine)
  unfolding dispatch
  loop [] m = runs_on
  loop (interrupt ∷ flags) m = do
    next ← dispatch interrupt m
    elim next [ goes m' ↦ loop flags m' | stops r m' ↦ done (r, m') ]

  -- The start of `execute`: the process is unspilled.
  unfoldable pub resume : Machine → Machine
  unfolding unspill
  resume m = record (unspill m) { ac = m.accumulator }

  unfoldable pub execute : List Bool → Machine → Outcome (ℕ × Machine)
  unfolding resume loop
  execute flags m = loop flags (resume m)
