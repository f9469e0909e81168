-- ===== src/Interpreter/Contexts.antt =====
-- Contexts in the stack of a process: newContext, initWithMethod, methodClass and blockReturn, and what a
-- send and a return do to them.
use valutron.Prelude.{ℕ, zero, suc, ◌+◌, ◌-◌, true, false, ◌==◌, ltb, if◌then◌else◌}
use valutron.Outcome.{Outcome, done, dies, ◌>>=◌}
use valutron.Dictionary.{Obj}
use valutron.Interpreter.State.{
  Heap, Context, Machine, Next, goes, stops, World, ctx, code_of, reg_at, write_context, write_reg,
  set_ctx, next_byte, spill, unspill,
}

-- `fullSize`: `m_size`, which is 8 + stackSize - 1, and the two words of the header.
unfoldable pub full_size : Machine → ℕ
full_size m = 8 + (code_of m).stack_size - 1 + 2

-- `newContext`: the index of the new context; it must lie in the stack.
unfoldable pub new_context : Machine → Outcome ℕ
unfolding full_size
new_context m =
    let new_bp = m.bp + full_size m in if ltb m.stack_words new_bp then dies else done new_bp

module _ (w : World) where
  -- `initWithMethod`, with the `prevBP` that `newContext` sets.
  unfoldable pub init_with_method : ℕ → Obj → Obj → Heap → Heap × Context
  init_with_method prev_bp receiver method heap =
      let size = (heap.code method).heap_vars_size in
      let (vars, heap') = if size == 0 then (0, heap) else w.new_array size heap in
      (
        heap',
        record {
          prev_bp = prev_bp;
          method_or_block = method;
          home_method_bp = 0;
          heap_vars = vars;
          parent_heap_vars = 0;
          program_counter = 0;
          regs = λ i. if i == 0 then receiver else 0;
          is_live = true;
        },
      )

  -- `initWithBlock`, which leaves `prevBP` as it is.
  unfoldable pub init_with_block : ℕ → Obj → Heap → Heap × Context
  init_with_block prev_bp block heap =
      let b = heap.code block in
      let (vars, heap') =
        if b.heap_vars_size == 0 then (0, heap) else w.new_array b.heap_vars_size heap in
      (
        heap',
        record {
          prev_bp = prev_bp;
          method_or_block = block;
          home_method_bp = b.home_method_context;
          heap_vars = vars;
          parent_heap_vars = b.block_heap_vars;
          program_counter = 0;
          regs = λ i. if i == 0 then b.receiver else 0;
          is_live = true;
        },
      )

  -- The loop of a send: register i + 1 of the new context is the register that the next byte names.
  unfoldable pub pass_args : ℕ → ℕ → Context → Machine → Outcome (Context × Machine)
  unfolding next_byte
  pass_args zero i c m = done (c, m)
  pass_args (suc n) i c m = do
    (r, m') ← next_byte m
    pass_args n (i + 1) (write_reg i (reg_at m' r) c) m'

  -- The new context is put at `new_bp`, with the old one spilled, and becomes the current one.
  unfoldable pub enter : ℕ → Context → Machine → Machine
  unfolding spill unspill
  enter new_bp c m =
      let m' = spill m in
      unspill (record m' { contexts = write_context new_bp c m'.contexts; bp = new_bp })

  unfoldable pub activate : Obj → Obj → ℕ → Machine → Outcome Next
  unfolding new_context init_with_method pass_args enter
  activate receiver method n_args m = if method == 0 then dies else (do
    new_bp ← new_context m
    let (heap, c) = init_with_method m.bp receiver method m.heap
    (c', m') ← pass_args n_args 1 c (record m { heap = heap })
    done (goes (enter new_bp c' m')))

-- `opReturn`: the accumulator is the answer.
unfoldable pub leave : Machine → Next
unfolding unspill
leave m =
    if (ctx m).prev_bp == 0
    then stops 0 (record m { accumulator = m.ac; bp = 0 })
    else goes (unspill (record m { bp = (ctx m).prev_bp }))

-- `opReturnSelf`: the receiver is the answer, and the context is dead.
unfoldable pub leave_self : Machine → Next
unfolding leave
leave_self m = leave (set_ctx (record (ctx m) { is_live = false }) (record m { ac = reg_at m 0 }))

-- `methodClass`: the class that defines the method, or the method that the block is in.
unfoldable pub method_class_of : Machine → Obj
method_class_of m =
    if (code_of m).is_block
    then (m.heap.code (m.contexts (ctx m).home_method_bp).method_or_block).method_class
    else (code_of m).method_class

-- `blockReturn`: the home context of the block dies, and its caller goes on.
unfoldable pub block_return : Machine → Machine
block_return m =
    let home = (code_of m).home_method_context in
    let c = m.contexts home in
    record m {
      contexts = write_context home (record c { is_live = false }) m.contexts;
      bp = c.prev_bp;
    }

unfoldable pub leave_block : Machine → Next
unfolding spill unspill block_return
leave_block m =
    let m' = block_return (spill m) in if m'.bp == 0 then stops 0 m' else goes (unspill m')
