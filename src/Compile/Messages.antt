-- ===== src/Compile/Messages.antt =====
-- Messages, cascades and primitives: `MessageExprNode`, `CascadeExprNode` and `PrimitiveExprNode` of
-- cmd/vm/AST.cc, over what their receiver and their arguments emit.
use valutron.Prelude.{
  ℕ, zero, suc, Bool, true, false, Option, none, some, List, [], ◌∷◌, length, if◌then◌else◌,
}
use valutron.Outcome.{Outcome, done, dies, ◌>>=◌}
use valutron.CodeGen.{
  CodeGen, Name, RegisterId, alloc_reg, gen_star_into, gen_ldar, gen_message, gen_jump,
  gen_branch_if_false, gen_branch_if_true, patch_jump_to, patch_jump_to_here, gen_bin_op,
  gen_primitive, gen_primitive_0, gen_primitive_1, gen_primitive_2, gen_primitive_3,
  gen_primitive_v,
}
use valutron.Tree.Nodes.{Special, Kind, Primitive}
use valutron.Compile.State.{State, Emitter, on_gen, emit_and_star}

-- `generateIntoReg` of each argument, and the registers.
unfoldable pub args_into_regs : List Emitter → State → Outcome (State × List RegisterId)
args_into_regs [] st = done (st, [])
args_into_regs (arg ∷ args) st = do
  (st, reg) ← arg.into_reg st
  (st, regs) ← args_into_regs args st
  done (st, reg ∷ regs)

-- The part of `MessageExprNode::generateOn` for a message that is not special: with arguments, the receiver
-- is loaded again behind them; without, one that is in a register already is not loaded.
unfoldable pub send_on :
    Bool → Emitter → Name → List Emitter → Option RegisterId → State → Outcome State
unfolding args_into_regs on_gen gen_ldar gen_message
send_on is_super receiver selector [] none st = do
  st ← receiver.emit st
  done (on_gen (gen_message is_super selector []) st)
send_on is_super receiver selector [] (some recv_reg) st =
    done (on_gen (gen_message is_super selector []) st)
send_on is_super receiver selector (arg ∷ args) none st = do
  (st, recv_reg) ← receiver.into_reg st
  (st, regs) ← args_into_regs (arg ∷ args) st
  done (on_gen (λ c. gen_message is_super selector regs (gen_ldar recv_reg c)) st)
send_on is_super receiver selector (arg ∷ args) (some recv_reg) st = do
  (st, regs) ← args_into_regs (arg ∷ args) st
  done (on_gen (λ c. gen_message is_super selector regs (gen_ldar recv_reg c)) st)

-- A branch or a jump, and where its operand ends.
unfoldable pub with_jump : (CodeGen → CodeGen × ℕ) → State → State × ℕ
with_jump f st = let (c, loc) = f st.code_gen in (record st { code_gen = c }, loc)

-- `genBranchIfFalse` or `genBranchIfTrue`.
unfoldable pub gen_branch : Bool → CodeGen → CodeGen × ℕ
unfolding gen_branch_if_false gen_branch_if_true
gen_branch on_false c = if on_false then gen_branch_if_false c else gen_branch_if_true c

-- Code that runs the argument unless the branch is taken.
unfoldable pub skip_on : Bool → Emitter → Emitter → State → Outcome State
unfolding with_jump gen_branch on_gen patch_jump_to_here
skip_on on_false receiver arg st = do
  st ← receiver.emit st
  let (st, skip) = with_jump (gen_branch on_false) st
  st ← arg.emit st
  done (on_gen (patch_jump_to_here skip) st)

-- Code that runs one of two arguments.
unfoldable pub choose_on : Bool → Emitter → Emitter → Emitter → State → Outcome State
unfolding with_jump gen_branch on_gen gen_jump patch_jump_to_here
choose_on on_false receiver arg₀ arg₁ st = do
  st ← receiver.emit st
  let (st, skip_first) = with_jump (gen_branch on_false) st
  st ← arg₀.emit st
  let (st, skip_second) = with_jump gen_jump st
  st ← arg₁.emit (on_gen (patch_jump_to_here skip_first) st)
  done (on_gen (patch_jump_to_here skip_second) st)

-- Code that loops to the receiver's beginning, through a body.
unfoldable pub loop_on : Bool → Emitter → (State → Outcome State) → State → Outcome State
unfolding with_jump gen_branch on_gen gen_jump patch_jump_to patch_jump_to_here
loop_on on_false receiver body st = do
  let receiver_begin = length st.code_gen.bytecode
  st ← receiver.emit st
  let (st, branch) = with_jump (gen_branch on_false) st
  st ← body st
  let (st, pos) = with_jump gen_jump st
  done (on_gen (λ c. patch_jump_to_here branch (patch_jump_to pos receiver_begin c)) st)

unfoldable pub bin_op_on : ℕ → Emitter → Emitter → State → Outcome State
unfolding on_gen gen_bin_op
bin_op_on op receiver arg st = do
  (st, recv_reg) ← receiver.into_reg st
  st ← arg.emit st
  done (on_gen (gen_bin_op recv_reg op) st)

-- `generateSpecialOn`, whose assertion the caller makes. A missing argument is out of bounds.
unfoldable pub special_on : Special → Emitter → List Emitter → State → Outcome State
unfolding skip_on choose_on loop_on bin_op_on
special_on Special.and receiver (arg ∷ args) st = skip_on true receiver arg st
special_on Special.if_true_if_false receiver (arg₀ ∷ arg₁ ∷ args) st =
    choose_on true receiver arg₀ arg₁ st
special_on Special.if_false_if_true receiver (arg₀ ∷ arg₁ ∷ args) st =
    choose_on false receiver arg₀ arg₁ st
special_on Special.if_true receiver (arg ∷ args) st = skip_on true receiver arg st
special_on Special.if_false receiver (arg ∷ args) st = skip_on false receiver arg st
special_on Special.while_true receiver (arg ∷ args) st = loop_on true receiver arg.emit st
special_on Special.while_false receiver (arg ∷ args) st = loop_on false receiver arg.emit st
special_on Special.while_true_0 receiver args st = loop_on true receiver done st
special_on Special.while_false_0 receiver args st = loop_on false receiver done st
special_on (Special.bin_op op) receiver (arg ∷ args) st = bin_op_on op receiver arg st
special_on _ receiver args st = dies

-- `MessageExprNode::generateOn` with its assertions: a special message is not sent to `super`, and its
-- receiver is not in a register. `none` is the register -1.
unfoldable pub message_on :
    Special → Bool → Emitter → Name → List Emitter → Option RegisterId → State → Outcome State
unfolding send_on special_on
message_on Special.normal is_super receiver selector args recv_reg st =
    send_on is_super receiver selector args recv_reg st
message_on kind false receiver selector args none st = special_on kind receiver args st
message_on kind _ receiver selector args _ st = dies

-- The messages of a cascade behind the first, which is on the receiver's register too.
unfoldable pub cascade_all :
    List (Option RegisterId → State → Outcome State) → RegisterId → State → Outcome State
cascade_all [] rcvr st = done st
cascade_all (message ∷ messages) rcvr st = do
  st ← message (some rcvr) st
  cascade_all messages rcvr st

-- `CascadeExprNode::generateOn`. A cascade of one message generates its receiver twice.
unfoldable pub cascade_on :
    Emitter → List (Option RegisterId → State → Outcome State) → State → Outcome State
unfolding cascade_all emit_and_star
cascade_on receiver [] st = dies
cascade_on receiver (message ∷ []) st = do st ← receiver.emit st; message none st
cascade_on receiver (message ∷ next ∷ messages) st = do
  (st, rcvr) ← emit_and_star receiver.emit st
  cascade_all (message ∷ next ∷ messages) rcvr st

-- `generateOn` of each argument, and `genStar`: the arguments of a primitive of the old style.
unfoldable pub args_by_star : List Emitter → State → Outcome (State × List RegisterId)
unfolding emit_and_star
args_by_star [] st = done (st, [])
args_by_star (arg ∷ args) st = do
  (st, reg) ← emit_and_star arg.emit st
  (st, regs) ← args_by_star args st
  done (st, reg ∷ regs)

unfoldable pub alloc_regs : ℕ → CodeGen → CodeGen × List RegisterId
unfolding alloc_reg
alloc_regs zero c = (c, [])
alloc_regs (suc n) c =
    let (c, reg) = alloc_reg c in let (c, regs) = alloc_regs n c in (c, reg ∷ regs)

unfoldable pub args_to_regs : List Emitter → List RegisterId → State → Outcome State
unfolding on_gen gen_star_into
args_to_regs [] regs st = done st
args_to_regs (arg ∷ args) [] st = dies
args_to_regs (arg ∷ args) (reg ∷ regs) st = do
  st ← arg.emit st
  args_to_regs args regs (on_gen (λ c. (gen_star_into reg c).0) st)

-- `case Primitive::kTriadic`: the second register is allocated before the second argument.
unfoldable pub triadic_on : ℕ → Emitter → Emitter → Emitter → State → Outcome State
unfolding emit_and_star on_gen alloc_reg gen_star_into gen_primitive_3
triadic_on index arg₀ arg₁ arg₂ st = do
  (st, arg1reg) ← emit_and_star arg₀.emit st
  let (c, arg2reg) = alloc_reg st.code_gen
  st ← arg₁.emit (record st { code_gen = c })
  st ← arg₂.emit (on_gen (λ c. (gen_star_into arg2reg c).0) st)
  done (on_gen (gen_primitive_3 index arg1reg) st)

-- `case Primitive::kVariadic`: `argRegs[0]` does not exist without an argument.
unfoldable pub variadic_on : ℕ → List Emitter → State → Outcome State
unfolding on_gen alloc_regs args_to_regs gen_primitive_v
variadic_on index [] st = dies
variadic_on index (arg ∷ args) st = do
  let (c, regs) = alloc_regs (length (arg ∷ args)) st.code_gen
  let first = (alloc_reg st.code_gen).1
  st ← args_to_regs (arg ∷ args) regs (record st { code_gen = c })
  done (on_gen (gen_primitive_v index (length (arg ∷ args)) first) st)

-- `PrimitiveExprNode::generateOn`, with its assertions.
unfoldable pub kind_on : Kind → ℕ → List Emitter → State → Outcome State
unfolding emit_and_star on_gen gen_primitive_0 gen_primitive_1 gen_primitive_2 triadic_on
    variadic_on
kind_on Kind.niladic index [] st = done (on_gen (gen_primitive_0 index) st)
kind_on Kind.monadic index (arg ∷ []) st = do
  st ← arg.emit st
  done (on_gen (gen_primitive_1 index) st)
kind_on Kind.diadic index (arg₀ ∷ arg₁ ∷ []) st = do
  (st, arg1reg) ← emit_and_star arg₀.emit st
  st ← arg₁.emit st
  done (on_gen (gen_primitive_2 index arg1reg) st)
kind_on Kind.triadic index (arg₀ ∷ arg₁ ∷ arg₂ ∷ []) st = triadic_on index arg₀ arg₁ arg₂ st
kind_on Kind.variadic index args st = variadic_on index args st
kind_on _ index args st = dies

unfoldable pub primitive_on : Primitive → List Emitter → State → Outcome State
unfolding args_by_star on_gen gen_primitive kind_on
primitive_on num args st =
    if num.old_style
    then (do (st, regs) ← args_by_star args st; done (on_gen (gen_primitive num.index regs) st))
    else kind_on num.kind num.index args st
