-- ===== src/Interpreter/Sends.antt =====
-- Jumps, sends and primitives: instructions of `execute` in cmd/vm/Interpreter.cc.
use valutron.Prelude.{ℕ, zero, suc, ◌+◌, Bool, not, ◌||◌, List, [], ◌∷◌, ◌==◌, if◌then◌else◌}
use valutron.Prelude.Int.{ℤ, pos, negsuc, ◌+ℤ◌}
use valutron.Outcome.{Outcome, done, dies, ◌>>=◌}
use valutron.Bytecode.{int16}
use valutron.Dictionary.{Obj}
use valutron.Methods.{lookup_method, lookup_cached}
use valutron.Interpreter.State.{
  Machine, Next, goes, World, reg_at, write_reg, next_byte, literal, spill, unspill,
}
use valutron.Interpreter.Contexts.{activate, method_class_of, new_context, init_with_method, enter}

-- A place before the code is no place.
abbrev pub to_pc : ℤ → Outcome ℕ
to_pc (pos n) = done n
to_pc (negsuc n) = dies

-- The operand of a jump, and the jump if `taken`.
unfoldable pub jump_if : Bool → Machine → Outcome Next
unfolding next_byte int16
jump_if taken m = do
  (b1, m) ← next_byte m
  (b2, m) ← next_byte m
  if taken
      then (do target ← to_pc (pos m.pc +ℤ int16 b1 b2); done (goes (record m { pc = target })))
      else done (goes m)

-- The operands of `opPrimitive`.
unfoldable pub fetch_regs : ℕ → Machine → Outcome (List Obj × Machine)
unfolding next_byte
fetch_regs zero m = done ([], m)
fetch_regs (suc n) m = do
  (r, m) ← next_byte m
  (rest, m') ← fetch_regs n m
  done (reg_at m r ∷ rest, m')

-- The registers from `first` on, as `opPrimitiveV` hands them over.
unfoldable pub regs_from : ℕ → ℕ → Machine → List Obj
regs_from zero first m = []
regs_from (suc n) first m = reg_at m first ∷ regs_from n (first + 1) m

module _ (w : World) where
  -- A branch asserts that `ac` is a Boolean.
  unfoldable pub branch_if : Obj → Machine → Outcome Next
  unfolding jump_if
  branch_if value m =
      if (m.ac == w.obj_false) || (m.ac == w.obj_true) then jump_if (m.ac == value) m else dies

  -- The send that `BinOp` falls back on: it has one argument, which is in no operand.
  unfoldable pub activate_binary : Obj → Obj → Obj → Machine → Outcome Next
  unfolding new_context init_with_method enter
  activate_binary arg1 arg2 method m = if method == 0 then dies else (do
    new_bp ← new_context m
    let (heap, c) = init_with_method w m.bp arg1 method m.heap
    done (goes (enter w new_bp (write_reg 1 arg2 c) (record m { heap = heap }))))

  unfoldable pub bin_op : ℕ → Machine → Outcome Next
  unfolding next_byte lookup_method activate_binary
  bin_op fuel m = do
    (src, m) ← next_byte m
    (op, m) ← next_byte m
    let arg1 = reg_at m src
    let arg2 = m.ac
    let r = w.bin_primitive op arg1 arg2
    if not (r == 0) then done (goes (record m { ac = r })) else (do
      meth ← lookup_method w.hash_code m.heap.classes fuel (m.heap.class_of arg1) (w.sym_bin op)
      activate_binary arg1 arg2 meth (record m { ac = r }))

  -- The lookup of a send from the class `cls` on, with the cache that the literal is.
  unfoldable pub find_method : ℕ → Obj → Obj → Machine → Outcome (Obj × Machine)
  unfolding lookup_cached
  find_method fuel cls cache m = do
    (meth, c) ← lookup_cached w.hash_code m.heap.classes fuel cls (m.heap.caches cache)
    let heap = record m.heap { caches = λ o. if o == cache then c else m.heap.caches o }
    done (meth, record m { heap = heap })

  unfoldable pub send : ℕ → Machine → Outcome Next
  unfolding next_byte literal find_method activate
  send fuel m = do
    (sel_idx, m) ← next_byte m
    (n_args, m) ← next_byte m
    cache ← literal m sel_idx
    (meth, m) ← find_method fuel (m.heap.class_of m.ac) cache m
    activate w m.ac meth n_args (record m { accumulator = m.ac })

  unfoldable pub send_super : ℕ → Machine → Outcome Next
  unfolding next_byte literal find_method activate method_class_of
  send_super fuel m = do
    (sel_idx, m) ← next_byte m
    (n_args, m) ← next_byte m
    cache ← literal m sel_idx
    (meth, m) ← find_method fuel (m.heap.classes (method_class_of m)).super_class cache m
    activate w m.ac meth n_args m

  -- A primitive runs on the spilled process, which it may change.
  unfoldable pub call : ℕ → List Obj → Machine → Outcome Next
  unfolding spill unspill
  call prim args m =
      let (r, m') = w.primitive prim args (spill m) in done (goes (unspill (record m' { ac = r })))

  unfoldable pub primitive : Machine → Outcome Next
  unfolding next_byte fetch_regs call
  primitive m = do
    (prim, m) ← next_byte m
    (n_args, m) ← next_byte m
    (args, m) ← fetch_regs n_args m
    let (array, heap) = w.new_array n_args m.heap
    call prim args (record m { heap = heap })

  unfoldable pub primitive_0 : Machine → Outcome Next
  unfolding next_byte call
  primitive_0 m = do (prim, m) ← next_byte m; call prim [] m

  unfoldable pub primitive_1 : Machine → Outcome Next
  unfolding next_byte call
  primitive_1 m = do (prim, m) ← next_byte m; call prim (m.ac ∷ []) m

  unfoldable pub primitive_2 : Machine → Outcome Next
  unfolding next_byte call
  primitive_2 m = do
    (prim, m) ← next_byte m
    (arg1reg, m) ← next_byte m
    call prim (reg_at m arg1reg ∷ m.ac ∷ []) m

  unfoldable pub primitive_3 : Machine → Outcome Next
  unfolding next_byte call
  primitive_3 m = do
    (prim, m) ← next_byte m
    (arg1reg, m) ← next_byte m
    call prim (reg_at m arg1reg ∷ reg_at m (arg1reg + 1) ∷ m.ac ∷ []) m

  unfoldable pub primitive_v : Machine → Outcome Next
  unfolding next_byte regs_from call
  primitive_v m = do
    (prim, m) ← next_byte m
    (n_args, m) ← next_byte m
    (arg1reg, m) ← next_byte m
    call prim (regs_from n_args arg1reg m) m
