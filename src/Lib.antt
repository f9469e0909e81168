-- ===== src/Lib.antt =====
-- A verification of the Valutron virtual machine, a Smalltalk system in C++ (cmd/vm).
--
-- A Smalltalk method is parsed into a tree. Its names are resolved in scopes (Synth.cc), which moves
-- variables that an inner block uses to the heap. The code generator (Generation.cc) then emits bytecode
-- and literals for it, which the disassembler (Bytecode.cc) prints and the interpreter runs; classes,
-- globals and methods are found in hash dictionaries (Objects.cc). The scheduler (Scheduling.cc) keeps
-- the runnable processes in a queue, runs them in turn, and is interrupted by a timer.
--
-- The modules, and the code that each is about:
--
--   Prelude       shared names, Boolean tests, lists with indices, and the integers.
--   Word          cmd/vm/Oops.hh: the macros VT_isPtr, VT_isSmi, VT_intValue and VT_fromInt on words of
--                 64 bits. Word/RoundTrip is about what survives the coding.
--   Smi           cmd/vm/Primitive.cc: primAdd to primRemainder and primLessThan to primNotEqual. The
--                 objects true and false are a parameter. Smi/Arith and Smi/Compare hold the proofs.
--   Bytecode      cmd/vm/Interpreter.hh: the opcodes; Bytecode/Instruction has the operands that the
--                 interpreter fetches for each of them.
--   Disassembler  cmd/vm/Bytecode.cc: disassemble. A line is its opcode with the values printed.
--   CodeGen       cmd/vm/Generation.cc and Generation.hh: class CodeGen, in CodeGen/Core, Load,
--                 Store and Control. Generated holds the proofs: Calls (the calls as data), Emit, Jumps,
--                 Literals and Printed.
--   Scheduler     cmd/vm/Scheduling.cc: addToListLast, removeFromList and containedInList over a store of
--                 links, and the methods of SchedulerOopDesc. Scheduler/Interrupts has the flags of
--                 CPUThreadPair, Scheduler/Rounds its scheduleLoop from the label `loop` on, where what a
--                 process does is a parameter; Chain and Queue hold proofs.
--   Dictionary    cmd/vm/Objects.cc: insert, findPairByFun, symbolInsert and symbolLookup of
--                 DictionaryOopDesc. The hash code of an object is a parameter.
--                 Dictionary/Symbols has strHash and fromString. A string is the list of its
--                 bytes, and the address of a new symbol is an argument. The sum in strHash is
--                 taken to fit an int32_t.
--   Scope         cmd/vm/Synth.cc and AST.hh: the variables, scopes and lookups.
--   Methods       cmd/vm/Interpreter.cc: lookupMethod and lookupCached. The fields of the classes are a
--                 function. Search and Cached hold the proofs.
--   Interpreter   cmd/vm/Interpreter.cc: State (the process, its contexts, the objects, and the registers
--                 `ac` and `pc`), Contexts (newContext, initWithMethod, initWithBlock, methodClass,
--                 blockReturn, the returns), Loads and Sends (the other instructions), Step (the dispatch
--                 and the loop of `execute`). The object memory and the primitives are the parameter World.
--                 A context is a record found by its index in the stack, so that contexts do not overlap
--                 here; a register behind the end of its context is not told from one inside. A byte or a
--                 literal that is not there, and a failed assertion, stop the machine. Preemption, Jumping,
--                 Calls and Callers hold the proofs.
--   Tree          cmd/vm/AST.hh and Synth.cc: Syntax (the tree of the parser), Nodes (the tree after
--                 synthesis) and Synth (synthInScope and synthInlineInScope of each node). The table of
--                 Primitive::named is a parameter. Positions and types are not in the tree, and an integer
--                 is taken to fit an `int`. Each message of a cascade has a copy of the receiver, which the
--                 source shares: a loop that is a message of a cascade inlines the receiver of the cascade
--                 itself there, and not here.
--   Compile       cmd/vm/AST.cc: State, Vars (class Var and identifiers), Messages (messages, cascades and
--                 primitives, over what their parts emit) and Generate (the other nodes, blocks, statements
--                 and methods). A block object is its place among the blocks made. WellFormed and Source
--                 are the trees on which no assertion fails; Landing, Leads, Shapes, Jumps, Layout, Emits, Parts,
--                 Primitives, Idents, Bodies, Programs, Promotable and FrontEnd hold the proofs.
--   Fields        cmd/vm/Primitive.cc: primBasicAt, primbasicAtPut, primStringSize, primStringCat and
--                 primCopyFromTo, with the conversion of an index to `int`. Access and Counted hold the proofs
--                 on fields. Fields/Strings has the definitions on strings, which are lists of bytes. A
--                 string without a null stops the machine here.
--   Types         cmd/vm/Typecheck.cc, Typecheck.hh and TypeFlow.cc: the type checker. Types are shared objects
--                 that are changed in place, and are kept in a Store by address; what is written to
--                 std::cerr is kept as complaints. Store, Invocation (typeInInvocation, constructInto, the
--                 copies of blocks), Subtype (isSubtypeOf, narrow), Send (typeSend), Check (the types of
--                 expressions, the checks of statements, typeCheckBlock) and Register (resolveInTyEnv,
--                 registerIVars, typeReg) hold the definitions. A read behind the end of a vector stops the
--                 machine here, a thrown error too. Terms (types without sharing, and which object is which),
--                 Substitution, Hierarchy, Supertypes, Answers, Refines, Inherits, Blocks, Responds, Understood,
--                 Returns, Registration, Entries and Inherited hold the proofs.
--   Outcome       results of code that may stop the machine or need more fuel.
--   Examples      tests, and the theorems at concrete inputs.
--
-- Numbers: a word is a natural number below 2 ^ 64, a byte is cut by `% 256`, a jump's offset by
-- `% 2 ^ 16`. Strings are lists of character codes.
--
-- Fuel: the loops over a list of processes take fuel, because links can form a cycle; a number above the
-- length of the list is enough, and the theorems ask for no more. The loop of the disassembler takes the
-- length of the code, for every round reads at least one byte. The search of a method takes the number of
-- classes up to the root. The type checker takes one number for the depth of types and one for the depth
-- of calls: the height of a type is enough for the first, and the number of classes above the receiver and one
-- for the second. The loop of `execute` makes one round for each reading of the interrupt flag that
-- it is given, and the scheduling loop as many as its parameter says, for a program may run for ever.
--
-- Not modelled: the object memory (calls of the Memory Pool System), the parser (generated by lemon and
-- flex), the threads and the event loop, primitives that do I/O or floating point, and the declarations of
-- classes and namespaces in the dictionaries of the machine.
pub mod Prelude
pub mod Outcome
pub mod Word
pub mod Smi
pub mod Bytecode
pub mod Disassembler
pub mod CodeGen
pub mod Compile
pub mod Generated
pub mod Scheduler
pub mod Dictionary
pub mod Scope
pub mod Tree
pub mod Types
pub mod Methods
pub mod Interpreter
pub mod Examples
pub mod Fields
