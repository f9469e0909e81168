-- ===== src/Interpreter/Loads.antt =====
-- The instructions of `execute` (cmd/vm/Interpreter.cc) that move values between `ac`, registers, variables and literals.
use valutron.Prelude.{ℕ, not, ◌||◌, ◌==◌, if◌then◌else◌}
use valutron.Outcome.{Outcome, done, ◌>>=◌}
use valutron.Dictionary.{Obj, symbol_lookup}
use valutron.Interpreter.State.{
  Code, Machine, Next, goes, World, ctx, code_of, reg_at, set_reg, field, set_field, next_byte,
  literal,
}

abbrev pub with_ac : Obj → Machine → Outcome Next
with_ac v m = done (goes (record m { ac = v }))

unfoldable pub move_parent_heap_var_to_my_heap_vars : Machine → Outcome Next
unfolding next_byte
move_parent_heap_var_to_my_heap_vars m = do
  (src, m) ← next_byte m
  (dst, m) ← next_byte m
  done (goes (set_field (ctx m).heap_vars dst (field m (ctx m).parent_heap_vars src) m))

unfoldable pub move_my_heap_var_to_parent_heap_vars : Machine → Outcome Next
unfolding next_byte
move_my_heap_var_to_parent_heap_vars m = do
  (src, m) ← next_byte m
  (dst, m) ← next_byte m
  done (goes (set_field (ctx m).parent_heap_vars dst (field m (ctx m).heap_vars src) m))

-- The instructions with one operand: what the operand stands for is put in `ac`.
unfoldable pub load : (Machine → ℕ → Obj) → Machine → Outcome Next
unfolding next_byte
load value m = do (src, m) ← next_byte m; with_ac (value m src) m

abbrev pub parent_heap_var : Machine → ℕ → Obj
parent_heap_var m src = field m (ctx m).parent_heap_vars src

abbrev pub my_heap_var : Machine → ℕ → Obj
my_heap_var m src = field m (ctx m).heap_vars src

abbrev pub nst_var : Machine → ℕ → Obj
nst_var m src = field m (reg_at m 0) src

unfoldable pub lda_literal : Machine → Outcome Next
unfolding next_byte literal
lda_literal m = do (src, m) ← next_byte m; lit ← literal m src; with_ac lit m

-- The instructions that store `ac` in a slot of an object.
unfoldable pub store : (Machine → Obj) → Machine → Outcome Next
unfolding next_byte
store object m = do (dst, m) ← next_byte m; done (goes (set_field (object m) dst m.ac m))

unfoldable pub star : Machine → Outcome Next
unfolding next_byte
star m = do (dst, m) ← next_byte m; done (goes (set_reg dst m.ac m))

unfoldable pub move : Machine → Outcome Next
unfolding next_byte
move m = do
  (dst, m) ← next_byte m
  (src, m) ← next_byte m
  done (goes (set_reg dst (reg_at m src) m))

module _ (w : World) where
  unfoldable pub lda_global : Machine → Outcome Next
  unfolding next_byte literal
  lda_global m = do
    (src, m) ← next_byte m
    name ← literal m src
    with_ac (symbol_lookup w.hash_code name m.heap.globals) m

  unfoldable pub lda_this_context : Machine → Outcome Next
  lda_this_context m =
      let (frame, heap) = w.new_stack_frame m.proc m.bp m.heap in
      with_ac frame (record m { heap = heap })

  -- The copy of a block gets the variables, the receiver and the home of the context that makes it. The
  -- abort on a corrupted copy is left out.
  unfoldable pub lda_block_copy : Machine → Outcome Next
  unfolding next_byte literal
  lda_block_copy m = do
    (src, m) ← next_byte m
    constructor ← literal m src
    let (block, heap) = w.copy_block constructor m.heap
    let home = if (code_of m).is_block then (ctx m).home_method_bp else m.bp
    let filled : Code = record (heap.code block) {
      block_heap_vars = (ctx m).heap_vars;
      receiver = reg_at m 0;
      home_method_context = home;
    }
    let heap' = record heap { code = λ o. if o == block then filled else heap.code o }
    with_ac block (record m { heap = heap' })

  unfoldable pub and : Machine → Outcome Next
  unfolding next_byte
  and m = do
    (src, m) ← next_byte m
    with_ac
        (if not (m.ac == w.obj_true) || not (reg_at m src == w.obj_true) then w.obj_false else m.ac)
        m
