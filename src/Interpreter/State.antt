-- ===== src/Interpreter/State.antt =====
-- The state of the interpreter: a process with its stack of contexts, the objects that the instructions
-- touch, and the registers `ac` and `pc` of `execute`. An object is an address, 0 is nil.
use valutron.Prelude.{ℕ, ◌+◌, Bool, List, get_elem?, ◌==◌, if◌then◌else◌, ◌&&◌}
use valutron.Outcome.{Outcome, done, ◌>>=◌, or_dies}
use valutron.Dictionary.{Obj, Table}
use valutron.Methods.{Classes, Cache}

-- A method or a block. The last four are those of a block.
pub record Code : Type 0 where
  pub bytecode : List ℕ
  pub literals : List Obj
  pub stack_size : ℕ
  pub heap_vars_size : ℕ
  pub method_class : Obj
  pub is_block : Bool
  pub receiver : Obj
  pub home_method_context : ℕ
  pub block_heap_vars : Obj

-- `fields` are the slots of an object, from 1 on (`basicAt`).
pub record Heap : Type 0 where
  pub code : Obj → Code
  pub fields : Obj → ℕ → Obj
  pub class_of : Obj → Obj
  pub classes : Classes
  pub caches : Obj → Cache
  pub globals : Table

-- `ContextOopDesc`. A `prev_bp` or `home_method_bp` of 0 is nil; `is_live` tells that the class of the
-- context is not nil; register 0 is the receiver.
pub record Context : Type 0 where
  pub prev_bp : ℕ
  pub method_or_block : Obj
  pub home_method_bp : ℕ
  pub heap_vars : Obj
  pub parent_heap_vars : Obj
  pub program_counter : ℕ
  pub regs : ℕ → Obj
  pub is_live : Bool

-- A process stands on the context at `bp`; contexts are found in the stack by their index.
pub record Machine : Type 0 where
  pub heap : Heap
  pub contexts : ℕ → Context
  pub bp : ℕ
  pub stack_words : ℕ
  pub proc : Obj
  pub accumulator : Obj
  pub ac : Obj
  pub pc : ℕ

-- `goes`: dispatch the next instruction. `stops`: `execute` returns 0 (finished) or 1 (preempted).
pub data Next : Type 0 where
  goes : Machine → Next
  stops : ℕ → Machine → Next

-- What the instructions call: the object memory, the primitives, and the objects that the virtual machine
-- knows. The primitives numbered by `BinOp` compute on their operands alone.
pub record World : Type 0 where
  pub hash_code : Obj → ℕ
  pub obj_true : Obj
  pub obj_false : Obj
  pub obj_smalltalk : Obj
  pub sym_bin : ℕ → Obj
  pub bin_primitive : ℕ → Obj → Obj → Obj
  pub primitive : ℕ → List Obj → Machine → Obj × Machine
  pub new_array : ℕ → Heap → Obj × Heap
  pub copy_block : Obj → Heap → Obj × Heap
  pub new_stack_frame : Obj → ℕ → Heap → Obj × Heap

-- `CTX`, and the code that it runs.
abbrev pub ctx : Machine → Context
ctx m = m.contexts m.bp

abbrev pub code_of : Machine → Code
code_of m = m.heap.code (ctx m).method_or_block

abbrev pub reg_at : Machine → ℕ → Obj
reg_at m i = (ctx m).regs i

abbrev pub write_context : ℕ → Context → (ℕ → Context) → ℕ → Context
write_context bp c contexts i = if i == bp then c else contexts i

abbrev pub write_reg : ℕ → Obj → Context → Context
write_reg i v c = record c { regs = λ j. if j == i then v else c.regs j }

abbrev pub set_ctx : Context → Machine → Machine
set_ctx c m = record m { contexts = write_context m.bp c m.contexts }

abbrev pub set_reg : ℕ → Obj → Machine → Machine
set_reg i v m = set_ctx (write_reg i v (ctx m)) m

abbrev pub field : Machine → Obj → ℕ → Obj
field m o i = m.heap.fields o i

abbrev pub set_field : Obj → ℕ → Obj → Machine → Machine
set_field o i v m = record m {
  heap = record m.heap { fields = λ p j. if (p == o) && (j == i) then v else m.heap.fields p j };
}

-- `FETCH ()`. Behind the code there is nothing to read.
unfoldable pub next_byte : Machine → Outcome (ℕ × Machine)
next_byte m = do
  b ← or_dies (get_elem? (code_of m).bytecode m.pc)
  done (b, record m { pc = m.pc + 1 })

unfoldable pub literal : Machine → ℕ → Outcome Obj
literal m i = or_dies (get_elem? (code_of m).literals i)

-- `SPILL` and `UNSPILL`.
unfoldable pub spill : Machine → Machine
spill m = record (set_ctx (record (ctx m) { program_counter = m.pc }) m) { accumulator = m.ac }

unfoldable pub unspill : Machine → Machine
unspill m = record m { pc = (ctx m).program_counter }
