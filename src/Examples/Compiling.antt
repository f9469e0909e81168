-- ===== src/Examples/Compiling.antt =====
-- Concrete instances of the theorems on synthesis and code generation.
use valutron.Prelude.{some, ◌≡◌, refl, List, [], ◌∷◌, length, arith}
use valutron.Prelude.Int.{pos}
use valutron.Outcome.{Outcome, done, ◌>>=◌}
use valutron.CodeGen.{Name, gen_load_argument, gen_load_my_heap_var, gen_store_my_heap_var}
use valutron.Scope.{CodeScope, empty_code_scope, local, parents_heap_var}
use valutron.Scope.Visible.{top}
use valutron.Tree.Syntax.{Expr, Stmts, no_exprs, more_exprs, no_stmts, expr_stmt, return_stmt}
use valutron.Tree.Synth.{synth_method}
use valutron.Compile.State.{Compiled}
use valutron.Tree.Nodes.{
  Special, Node, Steps, no_nodes, more_nodes, no_steps, expr_step, return_step,
}
use valutron.Compile.Leads.{Ends, IsProgram, AllPrograms}
use valutron.Compile.WellFormed.{StepsWellFormed}
use valutron.Compile.Programs.{generate_method-IsProgram}
use valutron.Compile.Generate.{generate_method, ending}

abbrev x : Name
x = b'x' ∷ []

abbrev y : Name
y = b'y' ∷ []

abbrev block_of : Stmts → Expr
block_of stmts = Expr.block [] [] stmts

-- y := x ifTrue: [1] ifFalse: [^y]. [x] whileTrue: [y foo]. ^[y].
abbrev body : Stmts
body =
    expr_stmt
      (Expr.assign y (
        Expr.message (Expr.ident x)
          (b'i' ∷ b'f' ∷ b'T' ∷ b'r' ∷ b'u' ∷ b'e' ∷ b':' ∷ b'i' ∷ b'f' ∷ b'F' ∷ b'a' ∷ b'l' ∷ b's'
            ∷ b'e' ∷ b':' ∷ [])
          (more_exprs (block_of (expr_stmt (Expr.integer (pos 1)) no_stmts))
            (more_exprs (block_of (return_stmt (Expr.ident y) no_stmts)) no_exprs))))
      (expr_stmt
        (Expr.message (block_of (expr_stmt (Expr.ident x) no_stmts))
          (b'w' ∷ b'h' ∷ b'i' ∷ b'l' ∷ b'e' ∷ b'T' ∷ b'r' ∷ b'u' ∷ b'e' ∷ b':' ∷ [])
          (more_exprs
            (block_of
              (expr_stmt (Expr.message (Expr.ident y) (b'f' ∷ b'o' ∷ b'o' ∷ []) no_exprs) no_stmts))
            no_exprs))
        (return_stmt (block_of (expr_stmt (Expr.ident y) no_stmts)) no_stmts))

unfoldable compiled_body : Outcome (Compiled × List Compiled)
unfolding synth_method generate_method
compiled_body = do
  (s, steps) ← synth_method [] [] (x ∷ []) (y ∷ []) body
  generate_method 1 (top s) steps

-- The method's code: `y` is moved to the heap, for the block reads it.
compiled_body_bytes : (compiled_body >>= λ p. done (length p.0.bytecode)) ≡ done 35
unfolding compiled_body gen_load_argument gen_load_my_heap_var gen_store_my_heap_var
compiled_body_bytes = refl

-- A method whose local is read by a block: x ifTrue: [1]. ^[x].
abbrev method_scope_of_x : CodeScope
method_scope_of_x = record {
  my_heap_vars = record { name = x; index = 1; origin = local 1 } ∷ [];
  args = [];
  locals = record { name = x; index = 1; promoted = some 1 } ∷ [];
}

abbrev steps_of_x : Steps
steps_of_x =
    expr_step
      (Node.message Special.if_true (Node.ident x (local 1)) x
        (more_nodes (Node.inlined (expr_step (Node.integer (pos 1)) no_steps)) no_nodes))
      (return_step
        (Node.block empty_code_scope 0 (expr_step (Node.ident x (parents_heap_var 1)) no_steps))
        no_steps)

generate_method-IsProgram_example :
    Ends
      (generate_method 0 method_scope_of_x steps_of_x)
      (λ p. IsProgram p.0.bytecode × AllPrograms p.1)
unfolding StepsWellFormed ending
generate_method-IsProgram_example =
    generate_method-IsProgram 0 method_scope_of_x steps_of_x (tt, tt) tt (ground arith)
