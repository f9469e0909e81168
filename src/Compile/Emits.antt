-- ===== src/Compile/Emits.antt =====
-- The messages of cmd/vm/AST.cc: if the receiver and the arguments emit whole instructions whose jumps stay
-- among them, then so does the message.
use valutron.Prelude.{
  suc, ◌<◌, ◌≡◌, refl, ap, Bool, Option, none, some, List, [], ◌∷◌, length, arith,
}
use valutron.Outcome.{Outcome, done, dies, runs_on, ◌>>=◌}
use valutron.CodeGen.{
  CodeGen, Name, RegisterId, gen_message, gen_ldar, gen_jump, patch_jump_to_here,
}
use valutron.Generated.Calls.{Call, perform}
use valutron.Generated.Emit.{IsCountable}
use valutron.Compile.Leads.{Ends, Ends-bind, Leads, Leads-same, Leads-trans, IsPlain, call-Leads}
use valutron.Compile.Shapes.{skip-Emitted}
use valutron.Compile.Jumps.{choose-Emitted, loop-Emitted}
use valutron.Compile.State.{State, Emitter, on_gen, push_star, emit_and_star}
use valutron.Compile.Messages.{
  args_into_regs, send_on, with_jump, gen_branch, skip_on, choose_on, loop_on,
}

abbrev pub Emits : (State → Outcome State) → Type 0
Emits emit = (st : State) → Ends (emit st) (Leads st)

abbrev pub EmitsIntoReg : (State → Outcome (State × RegisterId)) → Type 0
EmitsIntoReg into_reg = (st : State) → Ends (into_reg st) (λ p. Leads st p.0)

abbrev pub EmitsWell : Emitter → Type 0
EmitsWell e = Emits e.emit × EmitsIntoReg e.into_reg

abbrev pub AllEmitWell : List Emitter → Type 0
AllEmitWell [] = Unit
AllEmitWell (e ∷ es) = EmitsWell e × AllEmitWell es

pub Ends-weaken :
    (st st' : State) (m : Outcome State) → Leads st st' → Ends m (Leads st') → Ends m (Leads st)
Ends-weaken st st' (done st'') l h = Leads-trans st st' st'' l h
Ends-weaken st st' dies l h = h
Ends-weaken st st' runs_on l h = h

-- One piece of code behind another.
pub Ends-Leads :
    (st : State) (m : Outcome State) (f : State → Outcome State)
    → Ends m (Leads st)
    → ((st' : State) → Ends (f st') (Leads st'))
    → Ends (m >>= f) (Leads st)
Ends-Leads st m f h k =
    Ends-bind (Leads st) (Leads st) m f h λ st' l. Ends-weaken st st' (f st') l (k st')

pub Ends-Leads_reg :
    (st : State) (m : Outcome (State × RegisterId)) (f : State × RegisterId → Outcome State)
    → Ends m (λ p. Leads st p.0)
    → ((st' : State) (reg : RegisterId) → Ends (f (st', reg)) (Leads st'))
    → Ends (m >>= f) (Leads st)
Ends-Leads_reg st m f h k =
    Ends-bind (λ p. Leads st p.0) (Leads st) m f h λ p l. Ends-weaken st p.0 (f p) l (k p.0 p.1)

pub call-Emits :
    (call : Call) (f : CodeGen → CodeGen)
    → IsCountable call
    → IsPlain call
    → ((c : CodeGen) → f c ≡ perform call c)
    → (st : State) → Leads st (on_gen f st)
unfolding on_gen
call-Emits call f count plain called st =
    call-Leads call st (on_gen f st) count plain (called st.code_gen) refl

pub star-Leads : (st : State) → Leads st (push_star st).0
unfolding push_star perform
star-Leads st = call-Leads Call.star st (push_star st).0 tt tt refl refl

pub emit_and_star-EmitsIntoReg :
    (emit : State → Outcome State) → Emits emit → EmitsIntoReg (emit_and_star emit)
unfolding emit_and_star
emit_and_star-EmitsIntoReg emit h st =
    Ends-bind (Leads st) (λ p. Leads st p.0) (emit st) _ (h st)
      λ st' l. Leads-trans st st' (push_star st').0 l (star-Leads st')

-- The arguments' registers are as many as the arguments.
abbrev pub Regs : State → List Emitter → State × List RegisterId → Type 0
Regs st args (st', regs) = Leads st st' × (length regs ≡ length args)

pub args_into_regs-Regs :
    (args : List Emitter) (st : State)
    → AllEmitWell args
    → Ends (args_into_regs args st) (Regs st args)
unfolding args_into_regs
args_into_regs-Regs [] st h = (Leads-same st st refl refl, refl)
args_into_regs-Regs (arg ∷ args) st h =
    Ends-bind (λ p. Leads st p.0) (Regs st (arg ∷ args)) (arg.into_reg st) _ (h.0.1 st)
      λ (st', reg) l.
        Ends-bind (Regs st' args) (Regs st (arg ∷ args)) (args_into_regs args st') _
          (args_into_regs-Regs args st' h.1)
          λ (st'', regs) (l', size). (Leads-trans st st' st'' l l', ap suc size)

send-Leads :
    (is_super : Bool) (selector : Name) (regs : List RegisterId) (st : State)
    → length regs < 256
    → Leads st (on_gen (gen_message is_super selector regs) st)
unfolding perform
send-Leads is_super selector regs st h =
    call-Emits (Call.message is_super selector regs) (gen_message is_super selector regs) h tt
      (λ c. refl) st

-- The receiver again, and the send.
reload-Leads :
    (is_super : Bool) (selector : Name) (regs : List RegisterId) (recv_reg : RegisterId)
    (st : State)
    → length regs < 256
    → Leads st (on_gen (λ c. gen_message is_super selector regs (gen_ldar recv_reg c)) st)
unfolding perform on_gen
reload-Leads is_super selector regs recv_reg st h =
    let st' = on_gen (gen_ldar recv_reg) st in
    Leads-trans st st' (on_gen (gen_message is_super selector regs) st')
      (call-Emits (Call.ldar recv_reg) (gen_ldar recv_reg) tt tt (λ c. refl) st)
      (send-Leads is_super selector regs st' h)

-- The arguments, the receiver and the send.
send_args-Leads :
    (is_super : Bool) (selector : Name) (args : List Emitter) (recv_reg : RegisterId) (st : State)
    → AllEmitWell args
    → length args < 256
    → Ends
        (args_into_regs args st >>= λ (st, regs).
          done (on_gen (λ c. gen_message is_super selector regs (gen_ldar recv_reg c)) st))
        (Leads st)
send_args-Leads is_super selector args recv_reg st h count =
    Ends-bind (Regs st args) (Leads st) (args_into_regs args st) _ (args_into_regs-Regs args st h)
      λ (st', regs) (l, size).
        Leads-trans st st'
          (on_gen (λ c. gen_message is_super selector regs (gen_ldar recv_reg c)) st') l
          (reload-Leads is_super selector regs recv_reg st' (omega (arith, size)))

pub send_on-Emits :
    (is_super : Bool) (receiver : Emitter) (selector : Name) (args : List Emitter)
    (recv_reg : Option RegisterId)
    → EmitsWell receiver
    → AllEmitWell args
    → length args < 256
    → Emits (send_on is_super receiver selector args recv_reg)
unfolding send_on
send_on-Emits is_super receiver selector [] none r h count st =
    Ends-Leads st (receiver.emit st) _ (r.0 st)
      λ st'. send-Leads is_super selector [] st' (omega arith)
send_on-Emits is_super receiver selector [] (some recv_reg) r h count st =
    send-Leads is_super selector [] st (omega arith)
send_on-Emits is_super receiver selector (arg ∷ args) none r h count st =
    Ends-Leads_reg st (receiver.into_reg st) _ (r.1 st)
      λ st' recv_reg. send_args-Leads is_super selector (arg ∷ args) recv_reg st' h count
send_on-Emits is_super receiver selector (arg ∷ args) (some recv_reg) r h count st =
    send_args-Leads is_super selector (arg ∷ args) recv_reg st h count

-- The code of a branch behind a receiver, up to its hole: what an argument adds to it is patched in.
pub skip_on-Emits :
    (on_false : Bool) (receiver arg : Emitter)
    → EmitsWell receiver
    → EmitsWell arg
    → Emits (skip_on on_false receiver arg)
unfolding skip_on with_jump on_gen
skip_on-Emits on_false receiver arg r h st =
    Ends-bind (Leads st) (Leads st) (receiver.emit st) _ (r.0 st) λ d ((is, l), keeps).
      let b = record d { code_gen = (gen_branch on_false d.code_gen).0 } in
      Ends-bind (Leads b) (Leads st) (arg.emit b) _ (h.0 b) λ e ((js, l'), keeps'). (
        skip-Emitted on_false st.code_gen d.code_gen e.code_gen is js l l',
        λ programs. keeps' (keeps programs),
      )

pub choose_on-Emits :
    (on_false : Bool) (receiver arg₀ arg₁ : Emitter)
    → EmitsWell receiver
    → EmitsWell arg₀
    → EmitsWell arg₁
    → Emits (choose_on on_false receiver arg₀ arg₁)
unfolding choose_on with_jump on_gen
choose_on-Emits on_false receiver arg₀ arg₁ r h k st =
    Ends-bind (Leads st) (Leads st) (receiver.emit st) _ (r.0 st) λ d ((is, l), keeps).
      let branched = gen_branch on_false d.code_gen in
      let b = record d { code_gen = branched.0 } in
      Ends-bind (Leads b) (Leads st) (arg₀.emit b) _ (h.0 b) λ e ((js, l'), keeps').
        let f = record e { code_gen = patch_jump_to_here branched.1 (gen_jump e.code_gen).0 } in
        Ends-bind (Leads f) (Leads st) (arg₁.emit f) _ (k.0 f) λ g ((ks, l''), keeps''). (
          choose-Emitted on_false st.code_gen d.code_gen e.code_gen g.code_gen is js ks l l' l'',
          λ programs. keeps'' (keeps' (keeps programs)),
        )

pub loop_on-Emits :
    (on_false : Bool) (receiver : Emitter) (body : State → Outcome State)
    → EmitsWell receiver
    → Emits body
    → Emits (loop_on on_false receiver body)
unfolding loop_on with_jump on_gen
loop_on-Emits on_false receiver body r h st =
    Ends-bind (Leads st) (Leads st) (receiver.emit st) _ (r.0 st) λ d ((is, l), keeps).
      let b = record d { code_gen = (gen_branch on_false d.code_gen).0 } in
      Ends-bind (Leads b) (Leads st) (body b) _ (h b) λ e ((js, l'), keeps'). (
        loop-Emitted on_false st.code_gen d.code_gen e.code_gen is js l l',
        λ programs. keeps' (keeps programs),
      )
