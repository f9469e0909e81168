-- ===== src/Disassembler.antt =====
-- The disassembler, `disassemble` of cmd/vm/Bytecode.cc. A printed line is its address, its
-- instruction and the values that the text shows, in their order; the wording around them is left out.
pub mod Listing
use valutron.Prelude.{ℕ, zero, suc, ◌+◌, ◌≡◌, Option, none, some, List, [], ◌∷◌, map, length}
use valutron.Prelude.Int.{ℤ, pos, ◌+ℤ◌}
use valutron.Bytecode.{Opcode, opcode_at, int16}

-- A shown value: a number, a byte printed as a character, a jump's target, or a binary selector.
pub data Shown : Type 0 where
  num : ℕ → Shown
  chr : ℕ → Shown
  target : ℤ → Shown
  selector : ℕ → Shown

pub data Line : Type 0 where
  line : ℕ → Opcode → List Shown → Line
  unknown : ℕ → Line

-- `pc` and the code from there on.
abbrev pub Cursor : Type 0
Cursor = ℕ × List ℕ

-- `none` is a read behind the end of the code.
abbrev pub Fetch : Type 0 → Type 0
Fetch A = Cursor → Option (A × Cursor)

abbrev pub pure : {A : Type 0} → A → Fetch A
pure a c = some (a, c)

infixl 5 ◌>>=◌
abbrev pub ◌>>=◌ : {A B : Type 0} → Fetch A → (A → Fetch B) → Fetch B
◌>>=◌ m f c = elim (m c) [ none ↦ none | some (a, c') ↦ f a c' ]

-- `FETCH`: `code[pc++]`.
abbrev pub fetch : Fetch ℕ
fetch (pc, []) = none
fetch (pc, b ∷ r) = some (b, (pc + 1, r))

abbrev pub position : Fetch ℕ
position (pc, r) = some (pc, (pc, r))

-- The loop over the argument registers of a send.
abbrev pub fetch_all : ℕ → Fetch (List ℕ)
fetch_all zero = pure []
fetch_all (suc n) = do b ← fetch; bs ← fetch_all n; pure (b ∷ bs)

-- The cases of the `switch`.
unfoldable pub show : Opcode → Fetch (List Shown)
show Opcode.move_parent_heap_var_to_my_heap_vars = do
  src ← fetch
  dst ← fetch
  pure (num dst ∷ num dst ∷ [])
show Opcode.move_my_heap_var_to_parent_heap_vars = do
  src ← fetch
  dst ← fetch
  pure (num dst ∷ num src ∷ [])
show Opcode.lda_nil = pure []
show Opcode.lda_true = pure []
show Opcode.lda_false = pure []
show Opcode.lda_this_context = pure []
show Opcode.lda_this_process = pure []
show Opcode.lda_smalltalk = pure []
show Opcode.lda_parent_heap_var = do src ← fetch; pure (num src ∷ [])
show Opcode.lda_my_heap_var = do src ← fetch; pure (num src ∷ [])
show Opcode.lda_global = do src ← fetch; pure (num src ∷ [])
show Opcode.lda_nst_var = do src ← fetch; pure (num src ∷ [])
show Opcode.lda_literal = do src ← fetch; pure (num src ∷ [])
show Opcode.lda_block_copy = do src ← fetch; pure (num src ∷ [])
show Opcode.ldar = do src ← fetch; pure (num src ∷ [])
show Opcode.sta_nst_var = do dst ← fetch; pure (num dst ∷ [])
show Opcode.sta_global = do dst ← fetch; pure (num dst ∷ [])
show Opcode.sta_parent_heap_var = do dst ← fetch; pure (num dst ∷ [])
show Opcode.sta_my_heap_var = do dst ← fetch; pure (num dst ∷ [])
show Opcode.star = do dst ← fetch; pure (num dst ∷ [])
show Opcode.move = do dst ← fetch; src ← fetch; pure (num dst ∷ num src ∷ [])
show Opcode.and = do src ← fetch; pure (num src ∷ [])
show Opcode.jump = do
  b1 ← fetch
  b2 ← fetch
  pc ← position
  pure (target (pos pc +ℤ int16 b1 b2) ∷ [])
show Opcode.branch_if_false = do
  b1 ← fetch
  b2 ← fetch
  pc ← position
  pure (target (pos pc +ℤ int16 b1 b2) ∷ [])
show Opcode.branch_if_true = do
  b1 ← fetch
  b2 ← fetch
  pc ← position
  pure (target (pos pc +ℤ int16 b1 b2) ∷ [])
show Opcode.bin_op = do src ← fetch; op ← fetch; pure (selector op ∷ num src ∷ [])
show Opcode.send = do sel ← fetch; n ← fetch; regs ← fetch_all n; pure (num sel ∷ map num regs)
show Opcode.send_super = do
  sel ← fetch
  n ← fetch
  regs ← fetch_all n
  pure (num sel ∷ map chr regs)
show Opcode.primitive = do
  prim ← fetch
  n ← fetch
  regs ← fetch_all n
  pure (num prim ∷ map num regs)
show Opcode.primitive_0 = do prim ← fetch; pure (num prim ∷ [])
show Opcode.primitive_1 = do prim ← fetch; pure (num prim ∷ [])
show Opcode.primitive_2 = do prim ← fetch; arg2 ← fetch; pure (num prim ∷ num arg2 ∷ [])
show Opcode.primitive_3 = do
  prim ← fetch
  arg1 ← fetch
  arg2 ← fetch
  pure (num prim ∷ num arg1 ∷ num arg2 ∷ [])
show Opcode.primitive_v = do
  prim ← fetch
  n ← fetch
  reg ← fetch
  pure (num prim ∷ num n ∷ num reg ∷ [])
show Opcode.return_self = pure []
show Opcode.return = pure []
show Opcode.block_return = pure []

-- The `switch` of one line; a byte from `kMax` on matches no case of it.
abbrev pub show_line : ℕ → Option Opcode → Fetch Line
show_line pc none = pure (unknown pc)
show_line pc (some op) = do s ← show op; pure (line pc op s)

unfoldable pub disassemble_line : Fetch Line
disassemble_line (pc, r) = (do b ← fetch; show_line pc (opcode_at b)) (pc, r)

-- `while (pc < length)`. Each round reads a byte, so as many rounds as bytes are enough.
unfoldable pub disassemble_loop : ℕ → Cursor → Option (List Line)
disassemble_loop fuel (pc, []) = some []
disassemble_loop zero (pc, b ∷ r) = none
disassemble_loop (suc fuel) (pc, b ∷ r) = elim (disassemble_line (pc, b ∷ r)) [
  | none ↦ none
  | some (l, c) ↦ elim (disassemble_loop fuel c) [ none ↦ none | some ls ↦ some (l ∷ ls) ]
]

unfoldable pub disassemble : List ℕ → Option (List Line)
unfolding disassemble_loop disassemble_line
disassemble code = disassemble_loop (length code) (0, code)
