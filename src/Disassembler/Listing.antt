-- ===== src/Disassembler/Listing.antt =====
-- The lines of a listing, against `disassemble` of cmd/vm/Bytecode.cc.
use valutron.Prelude.{
  ℕ, zero, suc, ◌+◌, ◌≤◌, ◌≡◌, ◌≢◌, refl, some, List, [], ◌∷◌, ◌++◌, map, length, length-append,
  arith,
}
use valutron.Prelude.Int.{pos, ◌+ℤ◌}
use valutron.Bytecode.{Opcode, opcode_at, byte_of, opcode_at-byte_of, int16}
use valutron.Bytecode.Instruction.{
  Arity, fixed, counted, arity, Fits, Instr, IsInstr, AllInstr, encode, encode_all,
}
use valutron.Disassembler.{
  Shown, num, chr, target, selector, Line, line, fetch_all, show, disassemble_line,
  disassemble_loop, disassemble, show_line, ◌>>=◌,
}

-- What a line shows of its operands: their numbers, but for the instructions named here. `after` is
-- the address behind the operands, from which a jump is counted.
unfoldable pub shown : Opcode → (after : ℕ) → List ℕ → List Shown
shown Opcode.move_parent_heap_var_to_my_heap_vars after (src ∷ dst ∷ []) = num dst ∷ num dst ∷ []
shown Opcode.move_my_heap_var_to_parent_heap_vars after (src ∷ dst ∷ []) = num dst ∷ num src ∷ []
shown Opcode.jump after (b1 ∷ b2 ∷ []) = target (pos after +ℤ int16 b1 b2) ∷ []
shown Opcode.branch_if_false after (b1 ∷ b2 ∷ []) = target (pos after +ℤ int16 b1 b2) ∷ []
shown Opcode.branch_if_true after (b1 ∷ b2 ∷ []) = target (pos after +ℤ int16 b1 b2) ∷ []
shown Opcode.bin_op after (src ∷ op ∷ []) = selector op ∷ num src ∷ []
shown Opcode.send after (sel ∷ n ∷ regs) = num sel ∷ map num regs
shown Opcode.send_super after (sel ∷ n ∷ regs) = num sel ∷ map chr regs
shown Opcode.primitive after (prim ∷ n ∷ regs) = num prim ∷ map num regs
shown op after args = map num args

abbrev Shows : Opcode → ℕ → List ℕ → List ℕ → Type 0
Shows op pc args rest =
    show op (pc, args ++ rest) ≡ some (shown op (pc + length args) args, (pc + length args, rest))

fetch_all-append :
    (regs rest : List ℕ) (pc : ℕ)
    → fetch_all (length regs) (pc, regs ++ rest) ≡ some (regs, (pc + length regs, rest))
fetch_all-append [] rest pc = ground arith
fetch_all-append (r ∷ regs) rest pc = ground (arith, fetch_all-append regs rest (pc + 1))

arity-le : (op : Opcode) (n : ℕ) → arity op ≡ fixed n → n ≤ 3
unfolding arity
arity-le Opcode.lda_nil n h = ground arith
arity-le _ n h = ground arith

module _ (pc : ℕ) (rest : List ℕ) where
  Shows-fixed_0 : (op : Opcode) → arity op ≡ fixed 0 → Shows op pc [] rest
  unfolding arity show shown
  Shows-fixed_0 Opcode.lda_nil h = ground arith
  Shows-fixed_0 _ h = ground arith

  Shows-fixed_1 : (op : Opcode) (a : ℕ) → arity op ≡ fixed 1 → Shows op pc (a ∷ []) rest
  unfolding arity show shown
  Shows-fixed_1 Opcode.lda_nil a h = ground arith
  Shows-fixed_1 _ a h = ground arith

  Shows-fixed_2 :
      (op : Opcode) (a b : ℕ)
      → arity op ≡ fixed 2
      → op ≢ Opcode.primitive_3
      → Shows op pc (a ∷ b ∷ []) rest
  unfolding arity show shown
  Shows-fixed_2 Opcode.lda_nil a b h ne = ground arith
  Shows-fixed_2 Opcode.primitive_3 a b h ne = absurd (ne refl)
  Shows-fixed_2 _ a b h ne = ground arith

  Shows-fixed_3 : (op : Opcode) (a b c : ℕ) → arity op ≡ fixed 3 → Shows op pc (a ∷ b ∷ c ∷ []) rest
  unfolding arity show shown
  Shows-fixed_3 Opcode.lda_nil a b c h = ground arith
  Shows-fixed_3 _ a b c h = ground arith

  Shows-counted :
      (op : Opcode) (a : ℕ) (regs : List ℕ)
      → arity op ≡ counted
      → Shows op pc (a ∷ length regs ∷ regs) rest
  unfolding arity show shown
  Shows-counted Opcode.lda_nil a regs h = ground arith
  Shows-counted _ a regs h = ground (arith, fetch_all-append regs rest (pc + 1 + 1))

  shows :
      (op : Opcode) (args : List ℕ) (a : Arity)
      → arity op ≡ a
      → Fits a args
      → op ≢ Opcode.primitive_3
      → Shows op pc args rest
  shows op [] (fixed zero) h f ne = Shows-fixed_0 op h
  shows op (a ∷ []) (fixed (suc zero)) h f ne = Shows-fixed_1 op a h
  shows op (a ∷ b ∷ []) (fixed (suc (suc zero))) h f ne = Shows-fixed_2 op a b h ne
  shows op (a ∷ b ∷ c ∷ []) (fixed (suc (suc (suc zero)))) h f ne = Shows-fixed_3 op a b c h
  shows op (a ∷ n ∷ regs) counted h f ne = rw f (Shows-counted op a regs h)
  shows op (a ∷ b ∷ c ∷ d ∷ args) (fixed (suc (suc (suc (suc n))))) h f ne =
      absurd (omega (arith, arity-le op (suc (suc (suc (suc n)))) h))
  shows op args a h f ne = absurd f

-- The lines of a program that starts at `pc`.
unfoldable pub listing : ℕ → List Instr → List Line
listing pc [] = []
listing pc (i ∷ is) =
    let after = pc + 1 + length i.args in line pc i.op (shown i.op after i.args) ∷ listing after is

disassemble_line-encode :
    (i : Instr) (pc : ℕ) (rest : List ℕ)
    → IsInstr i
    → i.op ≢ Opcode.primitive_3
    → disassemble_line (pc, encode i ++ rest)
      ≡ some (
        line pc i.op (shown i.op (pc + 1 + length i.args) i.args),
        (pc + 1 + length i.args, rest),
      )
unfolding disassemble_line
disassemble_line-encode i pc rest h ne = rw (
  opcode_at-byte_of i.op,
  show_line,
  ◌>>=◌,
  shows (pc + 1) rest i.op i.args (arity i.op) refl h ne,
)

-- No instruction is a call of a primitive with three arguments.
abbrev pub NoTriadic : List Instr → Type 0
NoTriadic [] = Unit
NoTriadic (i ∷ is) = (i.op ≢ Opcode.primitive_3) × NoTriadic is

disassemble_loop-listing :
    (is : List Instr) (fuel pc : ℕ)
    → AllInstr is
    → NoTriadic is
    → length (encode_all is) ≤ fuel
    → disassemble_loop fuel (pc, encode_all is) ≡ some (listing pc is)
unfolding disassemble_loop listing encode_all
disassemble_loop-listing [] zero pc h ne f = refl
disassemble_loop-listing [] (suc fuel) pc h ne f = refl
disassemble_loop-listing (i ∷ is) zero pc h ne f = absurd (omega arith)
disassemble_loop-listing (i ∷ is) (suc fuel) pc h ne f = ground (
  arith,
  disassemble_line-encode i pc (encode_all is) h.0 ne.0,
  disassemble_loop-listing is fuel (pc + 1 + length i.args) h.1 ne.1
      (omega (arith, length-append {0} i.args (encode_all is))),
)

-- For code that is a sequence of instructions with their operands, none of them a call of a primitive
-- with three arguments, `disassemble` reads no byte behind the end and prints one line for each
-- instruction, at its address, with the operands of that instruction.
pub disassemble-listing :
    (is : List Instr)
    → AllInstr is
    → NoTriadic is
    → disassemble (encode_all is) ≡ some (listing 0 is)
unfolding disassemble
disassemble-listing is h ne =
    disassemble_loop-listing is (length (encode_all is)) 0 h ne (omega arith)

-- A call of a primitive with three arguments has two operands. `disassemble` reads a third, so that the
-- return behind it gets no line of its own.
pub disassemble-triadic :
    (prim reg : ℕ)
    → disassemble (
        encode_all (
          record { op = Opcode.primitive_3; args = prim ∷ reg ∷ [] }
          ∷ record { op = Opcode.return; args = [] }
          ∷ []))
      ≡ some (line 0 Opcode.primitive_3 (num prim ∷ num reg ∷ num 35 ∷ []) ∷ [])
unfolding disassemble encode_all show byte_of opcode_at
disassemble-triadic prim reg = refl
