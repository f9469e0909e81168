-- ===== src/Compile/FrontEnd.antt =====
-- From the parser's tree to code: synthesis (cmd/vm/Synth.cc) and code generation (AST.cc) together.
use valutron.Prelude.{
  ℕ, suc, ◌≡◌, refl, ap, Bool, true, false, Option, none, some, List, [], ◌∷◌, length, arith,
}
use valutron.Outcome.{Outcome, done, dies, runs_on, ◌>>=◌, or_dies}
use valutron.CodeGen.{Name}
use valutron.Scope.{Scope, method_scope, block_scope, lookup}
use valutron.Scope.Visible.{top}
use valutron.Tree.Syntax.{
  Expr, Exprs, Messages, Stmts, no_exprs, more_exprs, no_messages, more_messages, no_stmts,
  expr_stmt, return_stmt, is_super,
}
use valutron.Tree.Nodes.{
  Special, Primitive, Node, Nodes, Sends, Steps, no_sends, more_sends, no_steps, size,
}
use valutron.Tree.Synth.{
  assoc, special_kind, declare, add_locals_to, inlines_args, inlines_receiver, leave_block, synth,
  synth_args, synth_messages, synth_stmts,
}
use valutron.Compile.Leads.{Ends, IsProgram, AllPrograms}
use valutron.Compile.Parts.{Asserts}
use valutron.Compile.WellFormed.{
  WellFormed, AllWellFormed, SendsWellFormed, StepsWellFormed, HasMessage, has_sends, several,
}
use valutron.Compile.Promotable.{
  ScopesPromotable, lookup-ScopesPromotable, declare-AllPromotable, add_locals_to-ScopesPromotable,
}
use valutron.Compile.Source.{
  count, CanCompile, AllCanCompile, MessagesCanCompile, StmtsCanCompile, HasMessages, HasStatement,
  has_messages, many,
}
use valutron.Compile.Generate.{is_super_node, generate_method}

-- The computation ends with a result of which `P` holds, or the compiler stops with an error.
abbrev pub Yields : {A : Type 0} → Outcome A → (A → Type 0) → Type 0
Yields (done a) P = P a
Yields dies P = Unit
Yields runs_on P = ⊥

Yields-bind :
    {A B : Type 0} (P : A → Type 0) (Q : B → Type 0) (m : Outcome A) (f : A → Outcome B)
    → Yields m P
    → ((a : A) → P a → Yields (f a) Q)
    → Yields (m >>= f) Q
Yields-bind P Q (done a) f h k = k a h
Yields-bind P Q dies f h k = tt
Yields-bind P Q runs_on f h k = elim h [ ]

or_dies-Yields : {A : Type 0} (o : Option A) → Yields (or_dies o) (λ a. o ≡ some a)
or_dies-Yields none = tt
or_dies-Yields (some a) = refl

-- What synthesis makes of an expression, of arguments, of messages and of statements.
abbrev Good : Expr → Scope × Node → Type 0
Good e (s, n) = ScopesPromotable s × WellFormed n × (is_super_node n ≡ is_super e)

abbrev GoodArgs : Exprs → Scope × Nodes → Type 0
GoodArgs es (s, ns) = ScopesPromotable s × AllWellFormed ns × (size ns ≡ count es)

abbrev GoodMessages : Bool → Bool → Messages → Scope × Sends → Type 0
GoodMessages more on_super messages (s, ms) =
    ScopesPromotable s
    × SendsWellFormed more on_super ms
    × (has_sends ms ≡ has_messages messages)
    × (several ms ≡ many messages)

abbrev HasStep : Steps → Type 0
HasStep no_steps = ⊥
HasStep _ = Unit

abbrev GoodStmts : Stmts → Scope × Steps → Type 0
GoodStmts stmts (s, steps) =
    ScopesPromotable s × StepsWellFormed steps × (HasStatement stmts → HasStep steps)

Asserts-other : (kind : Special) → Asserts kind false none
Asserts-other Special.normal = tt
Asserts-other _ = tt

-- Synthesis makes no message to `super` special.
special_kind-Asserts : (b : Bool) (selector : Name) → Asserts (special_kind b selector) b none
unfolding special_kind
special_kind-Asserts true selector = tt
special_kind-Asserts false selector = Asserts-other (special_kind false selector)

HasMessages-HasMessage :
    (messages : Messages) (ms : Sends)
    → has_sends ms ≡ has_messages messages
    → HasMessages messages
    → HasMessage ms
HasMessages-HasMessage no_messages ms e h = elim h [ ]
HasMessages-HasMessage (more_messages _ _ _ _) no_sends e h = absurd (ground arith)
HasMessages-HasMessage (more_messages _ _ _ _) (more_sends _ _ _ _ _) e h = tt

leave_block-Good :
    (args locals : List Name) (stmts : Stmts) (n_args : ℕ) (inner : Scope × Steps)
    → GoodStmts stmts inner
    → Yields (leave_block n_args inner) (Good (Expr.block args locals stmts))
unfolding leave_block WellFormed is_super_node is_super
leave_block-Good args locals stmts n_args (block_scope c p, steps) (h, w, nonempty) =
    (h.1, (h.0, w), refl)
leave_block-Good args locals stmts n_args (method_scope c ivars, steps) g = tt

mutual
  unfolding synth CanCompile WellFormed size count is_super_node is_super

  synth-Good :
      (table : List (Name × Primitive)) (inline : Bool) (e : Expr) (s : Scope)
      → CanCompile table e
      → ScopesPromotable s
      → Yields (synth table inline e s) (Good e)
  synth-Good table inline (Expr.integer num) s h k = (k, tt, refl)
  synth-Good table inline (Expr.character khar) s h k = (k, tt, refl)
  synth-Good table inline (Expr.symbol name) s h k = (k, tt, refl)
  synth-Good table inline (Expr.string str) s h k = (k, tt, refl)
  synth-Good table inline Expr.float s h k = (k, tt, refl)
  synth-Good table inline Expr.array s h k = (k, tt, refl)
  synth-Good table inline (Expr.ident id) s h k = (lookup-ScopesPromotable id s k, tt, refl)
  synth-Good table inline (Expr.assign left right) s h k =
      let s' = (lookup left s).0 in
      Yields-bind (Good right) (Good (Expr.assign left right)) (synth table false right s') _
        (synth-Good table false right s' h (lookup-ScopesPromotable left s k))
        λ (s'', n) (k', w, same). (k', w, refl)
  synth-Good table inline (Expr.message receiver selector args) s (takes, hr, ha) k =
      let kind = special_kind (is_super receiver) selector in
      let e = Expr.message receiver selector args in
      Yields-bind (Good receiver) (Good e) (synth table (inlines_receiver kind) receiver s) _
        (synth-Good table (inlines_receiver kind) receiver s hr k)
        λ (s', r) (k', wr, same).
          Yields-bind (GoodArgs args) (Good e) (synth_args table (inlines_args kind) args s') _
            (synth_args-GoodArgs table (inlines_args kind) args s' ha k')
            λ (s'', ns) (k'', w, n). (
              k'',
              (rw same (special_kind-Asserts (is_super receiver) selector), rw n takes, wr, w),
              refl,
            )
  synth-Good table inline (Expr.cascade receiver messages) s (has, hr, hm) k =
      let e = Expr.cascade receiver messages in
      Yields-bind (Good receiver) (Good e) (synth table false receiver s) _
        (synth-Good table false receiver s hr k)
        λ (s', r) (k', wr, same).
          Yields-bind (GoodMessages (many messages) (is_super receiver) messages) (Good e)
            (synth_messages table messages s') _
            (synth_messages-GoodMessages table (many messages) (is_super receiver) messages s' hm
              k')
            λ (s'', ms) (k'', w, shape, more).
              (k'', (HasMessages-HasMessage messages ms shape has, wr, rw (same, more) w), refl)
  synth-Good table inline (Expr.primitive name args) s (takes, ha) k =
      let e = Expr.primitive name args in
      Yields-bind (λ num. assoc name table ≡ some num) (Good e) (or_dies (assoc name table)) _
        (or_dies-Yields (assoc name table))
        λ num found.
          Yields-bind (GoodArgs args) (Good e) (synth_args table false args s) _
            (synth_args-GoodArgs table false args s ha k)
            λ (s', ns) (k', w, n). (k', (rw n (takes num found), w), refl)
  synth-Good table false (Expr.block args locals stmts) s h k =
      let e = Expr.block args locals stmts in
      Yields-bind (λ c. declare args locals ≡ some c) (Good e) (or_dies (declare args locals)) _
        (or_dies-Yields (declare args locals))
        λ c declared.
          Yields-bind (GoodStmts stmts) (Good e) (synth_stmts table stmts (block_scope c s)) _
            (synth_stmts-GoodStmts table stmts (block_scope c s) h
              (declare-AllPromotable args locals c declared, k))
            (leave_block-Good args locals stmts (length args))
  synth-Good table true (Expr.block [] locals stmts) s h k =
      let e = Expr.block [] locals stmts in
      Yields-bind (λ s'. add_locals_to locals s ≡ some s') (Good e)
        (or_dies (add_locals_to locals s)) _ (or_dies-Yields (add_locals_to locals s))
        λ s' added.
          Yields-bind (GoodStmts stmts) (Good e) (synth_stmts table stmts s') _
            (synth_stmts-GoodStmts table stmts s' h
              (add_locals_to-ScopesPromotable locals s s' added k))
            λ (s'', steps) (k', w, nonempty). (k', w, refl)
  synth-Good table true (Expr.block (arg ∷ args) locals stmts) s h k = tt

  synth_args-GoodArgs :
      (table : List (Name × Primitive)) (inline : Bool) (es : Exprs) (s : Scope)
      → AllCanCompile table es
      → ScopesPromotable s
      → Yields (synth_args table inline es s) (GoodArgs es)
  synth_args-GoodArgs table inline no_exprs s h k = (k, tt, refl)
  synth_args-GoodArgs table inline (more_exprs e es) s h k =
      Yields-bind (Good e) (GoodArgs (more_exprs e es)) (synth table inline e s) _
        (synth-Good table inline e s h.0 k)
        λ (s', n) (k', w, same).
          Yields-bind (GoodArgs es) (GoodArgs (more_exprs e es)) (synth_args table inline es s') _
            (synth_args-GoodArgs table inline es s' h.1 k')
            λ (s'', ns) (k'', ws, n). (k'', (w, ws), ap suc n)

  synth_messages-GoodMessages :
      (table : List (Name × Primitive)) (more on_super : Bool) (messages : Messages) (s : Scope)
      → MessagesCanCompile table more on_super messages
      → ScopesPromotable s
      → Yields (synth_messages table messages s) (GoodMessages more on_super messages)
  synth_messages-GoodMessages table more on_super no_messages s h k = (k, tt, refl, refl)
  synth_messages-GoodMessages table more on_super (more_messages receiver selector args messages) s
        (may, takes, hr, ha, hm) k =
      let kind = special_kind (is_super receiver) selector in
      let all = more_messages receiver selector args messages in
      let Q = GoodMessages more on_super all in
      Yields-bind (Good receiver) Q (synth table (inlines_receiver kind) receiver s) _
        (synth-Good table (inlines_receiver kind) receiver s hr k)
        λ (s', r) (k', wr, same).
          Yields-bind (GoodArgs args) Q (synth_args table (inlines_args kind) args s') _
            (synth_args-GoodArgs table (inlines_args kind) args s' ha k')
            λ (s'', ns) (k'', w, n).
              Yields-bind (GoodMessages more on_super messages) Q
                (synth_messages table messages s'') _
                (synth_messages-GoodMessages table more on_super messages s'' hm k'')
                λ (s₃, ms) (k₃, ws, shape, rest). (k₃, (may, rw n takes, wr, w, ws), refl, shape)

  synth_stmts-GoodStmts :
      (table : List (Name × Primitive)) (stmts : Stmts) (s : Scope)
      → StmtsCanCompile table stmts
      → ScopesPromotable s
      → Yields (synth_stmts table stmts s) (GoodStmts stmts)
  synth_stmts-GoodStmts table no_stmts s h k = (k, tt, λ none_here. none_here)
  synth_stmts-GoodStmts table (expr_stmt e stmts) s h k =
      Yields-bind (Good e) (GoodStmts (expr_stmt e stmts)) (synth table false e s) _
        (synth-Good table false e s h.0 k)
        λ (s', n) (k', w, same).
          Yields-bind (GoodStmts stmts) (GoodStmts (expr_stmt e stmts)) (synth_stmts table stmts s')
            _ (synth_stmts-GoodStmts table stmts s' h.1 k')
            λ (s'', steps) (k'', ws, nonempty). (k'', (w, ws), λ some_here. tt)
  synth_stmts-GoodStmts table (return_stmt e stmts) s h k =
      Yields-bind (Good e) (GoodStmts (return_stmt e stmts)) (synth table false e s) _
        (synth-Good table false e s h.0 k)
        λ (s', n) (k', w, same).
          Yields-bind (GoodStmts stmts) (GoodStmts (return_stmt e stmts))
            (synth_stmts table stmts s') _ (synth_stmts-GoodStmts table stmts s' h.1 k')
            λ (s'', steps) (k'', ws, nonempty). (k'', (w, ws), λ some_here. tt)

-- The code generation, behind the synthesis, of a method with some statement.
abbrev pub Compiles : ℕ → Scope × Steps → Type 0
Compiles n_args (s, steps) =
    Ends (generate_method n_args (top s) steps) (λ p. IsProgram p.0.bytecode × AllPrograms p.1)
