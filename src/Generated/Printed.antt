-- ===== src/Generated/Printed.antt =====
-- The generator (cmd/vm/Generation.cc) together with the disassembler (cmd/vm/Bytecode.cc).
use valutron.Prelude.{ℕ, ◌≡◌, Bool, some, List}
use valutron.CodeGen.{new_code_gen}
use valutron.Disassembler.{disassemble}
use valutron.Disassembler.Listing.{listing, NoTriadic, disassemble-listing}
use valutron.Generated.Calls.{Call}
use valutron.Generated.Emit.{
  perform_all, meaning_all, AllCountable, perform_all-Appends, meaning_all-AllInstr,
}

-- For any sequence of calls of the generator, from a new generator on, in which every send and primitive
-- has fewer than 256 arguments and no call makes a call of a primitive with three arguments:
-- `disassemble` prints the generated code as the instructions that the calls stand for, one line each.
pub disassemble-perform_all :
    (calls : List Call) (n_args n_locals : ℕ) (is_block : Bool)
    → AllCountable calls
    → NoTriadic (meaning_all calls (new_code_gen n_args n_locals is_block))
    → disassemble (perform_all calls (new_code_gen n_args n_locals is_block)).bytecode
      ≡ some (listing 0 (meaning_all calls (new_code_gen n_args n_locals is_block)))
unfolding new_code_gen
disassemble-perform_all calls n_args n_locals is_block h ne =
    let c = new_code_gen n_args n_locals is_block in
    rw (perform_all-Appends calls c)
      (disassemble-listing (meaning_all calls c) (meaning_all-AllInstr calls c h) ne)
