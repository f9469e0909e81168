-- ===== src/Compile/Parts.antt =====
-- The other messages of cmd/vm/AST.cc, and cascades: with parts that emit whole instructions
-- whose jumps stay among them, so do they, if their assertions hold.
use valutron.Prelude.{
  ℕ, ◌<◌, ◌≤◌, refl, Bool, true, false, Option, none, some, List, [], ◌∷◌, length, arith,
}
use valutron.Outcome.{Outcome, done}
use valutron.CodeGen.{Name, RegisterId, gen_bin_op}
use valutron.Generated.Calls.{Call, perform}
use valutron.Tree.Nodes.{Special}
use valutron.Compile.Leads.{Leads-same}
use valutron.Compile.Emits.{
  Emits, EmitsWell, AllEmitWell, Ends-Leads, Ends-Leads_reg, call-Emits, emit_and_star-EmitsIntoReg,
  send_on-Emits, skip_on-Emits, choose_on-Emits, loop_on-Emits,
}
use valutron.Compile.State.{State, Emitter, emit_and_star}
use valutron.Compile.Messages.{bin_op_on, special_on, message_on, cascade_all, cascade_on}

-- The number of arguments that a message of that kind reads, or can count.
abbrev pub Takes : Special → ℕ → Type 0
Takes Special.normal n = n < 256
Takes Special.if_true_if_false n = 2 ≤ n
Takes Special.if_false_if_true n = 2 ≤ n
Takes Special.while_true_0 n = Unit
Takes Special.while_false_0 n = Unit
Takes _ n = 1 ≤ n

-- The assertions of a message's `generateOn`.
abbrev pub Asserts : Special → Bool → Option RegisterId → Type 0
Asserts Special.normal is_super recv_reg = Unit
Asserts kind false none = Unit
Asserts kind is_super recv_reg = ⊥

abbrev IsSpecial : Special → Type 0
IsSpecial Special.normal = ⊥
IsSpecial _ = Unit

bin_op_on-Emits :
    (op : ℕ) (receiver arg : Emitter)
    → EmitsWell receiver
    → EmitsWell arg
    → Emits (bin_op_on op receiver arg)
unfolding bin_op_on perform
bin_op_on-Emits op receiver arg r h st =
    Ends-Leads_reg st (receiver.into_reg st) _ (r.1 st) λ st' reg.
      Ends-Leads st' (arg.emit st') _ (h.0 st')
        (call-Emits (Call.bin_op reg op) (gen_bin_op reg op) tt tt (λ c. refl))

special_on-Emits :
    (kind : Special) (receiver : Emitter) (args : List Emitter)
    → IsSpecial kind
    → EmitsWell receiver
    → AllEmitWell args
    → Takes kind (length args)
    → Emits (special_on kind receiver args)
unfolding special_on
special_on-Emits Special.normal receiver args e r h n = elim e [ ]
special_on-Emits Special.and receiver (arg ∷ args) e r h n = skip_on-Emits true receiver arg r h.0
special_on-Emits Special.if_true receiver (arg ∷ args) e r h n =
    skip_on-Emits true receiver arg r h.0
special_on-Emits Special.if_false receiver (arg ∷ args) e r h n =
    skip_on-Emits false receiver arg r h.0
special_on-Emits Special.if_true_if_false receiver (arg ∷ arg' ∷ args) e r h n =
    choose_on-Emits true receiver arg arg' r h.0 h.1.0
special_on-Emits Special.if_false_if_true receiver (arg ∷ arg' ∷ args) e r h n =
    choose_on-Emits false receiver arg arg' r h.0 h.1.0
special_on-Emits Special.while_true receiver (arg ∷ args) e r h n =
    loop_on-Emits true receiver arg.emit r h.0.0
special_on-Emits Special.while_false receiver (arg ∷ args) e r h n =
    loop_on-Emits false receiver arg.emit r h.0.0
special_on-Emits Special.while_true_0 receiver args e r h n =
    loop_on-Emits true receiver done r λ st. Leads-same st st refl refl
special_on-Emits Special.while_false_0 receiver args e r h n =
    loop_on-Emits false receiver done r λ st. Leads-same st st refl refl
special_on-Emits (Special.bin_op op) receiver (arg ∷ args) e r h n =
    bin_op_on-Emits op receiver arg r h.0
special_on-Emits Special.if_true_if_false receiver (arg ∷ []) e r h n = omega (arith, n)
special_on-Emits Special.if_false_if_true receiver (arg ∷ []) e r h n = omega (arith, n)
special_on-Emits _ receiver [] e r h n = omega (arith, n)

pub message_on-Emits :
    (kind : Special) (is_super : Bool) (receiver : Emitter) (selector : Name) (args : List Emitter)
    (recv_reg : Option RegisterId)
    → Asserts kind is_super recv_reg
    → Takes kind (length args)
    → EmitsWell receiver
    → AllEmitWell args
    → Emits (message_on kind is_super receiver selector args recv_reg)
unfolding message_on
message_on-Emits Special.normal is_super receiver selector args recv_reg a n r h =
    send_on-Emits is_super receiver selector args recv_reg r h n
message_on-Emits Special.and false receiver selector args none a n r h =
    special_on-Emits Special.and receiver args tt r h n
message_on-Emits Special.if_true false receiver selector args none a n r h =
    special_on-Emits Special.if_true receiver args tt r h n
message_on-Emits Special.if_false false receiver selector args none a n r h =
    special_on-Emits Special.if_false receiver args tt r h n
message_on-Emits Special.if_true_if_false false receiver selector args none a n r h =
    special_on-Emits Special.if_true_if_false receiver args tt r h n
message_on-Emits Special.if_false_if_true false receiver selector args none a n r h =
    special_on-Emits Special.if_false_if_true receiver args tt r h n
message_on-Emits Special.while_true false receiver selector args none a n r h =
    special_on-Emits Special.while_true receiver args tt r h n
message_on-Emits Special.while_false false receiver selector args none a n r h =
    special_on-Emits Special.while_false receiver args tt r h n
message_on-Emits Special.while_true_0 false receiver selector args none a n r h =
    special_on-Emits Special.while_true_0 receiver args tt r h n
message_on-Emits Special.while_false_0 false receiver selector args none a n r h =
    special_on-Emits Special.while_false_0 receiver args tt r h n
message_on-Emits (Special.bin_op op) false receiver selector args none a n r h =
    special_on-Emits (Special.bin_op op) receiver args tt r h n
message_on-Emits _ _ receiver selector args _ a n r h = elim a [ ]

-- A message of a cascade: on a register if it is one of several, and else with its receiver.
abbrev pub MessageEmits : Bool → (Option RegisterId → State → Outcome State) → Type 0
MessageEmits true message = (reg : RegisterId) → Emits (message (some reg))
MessageEmits false message = Emits (message none)

abbrev pub AllMessagesEmit : Bool → List (Option RegisterId → State → Outcome State) → Type 0
AllMessagesEmit more [] = Unit
AllMessagesEmit more (m ∷ ms) = MessageEmits more m × AllMessagesEmit more ms

cascade_all-Emits :
    (messages : List (Option RegisterId → State → Outcome State)) (rcvr : RegisterId)
    → AllMessagesEmit true messages
    → Emits (cascade_all messages rcvr)
unfolding cascade_all
cascade_all-Emits [] rcvr h st = Leads-same st st refl refl
cascade_all-Emits (message ∷ messages) rcvr h st =
    Ends-Leads st (message (some rcvr) st) _ (h.0 rcvr st) (cascade_all-Emits messages rcvr h.1)

-- One message is sent with its receiver; more are sent to the register that holds it.
abbrev pub CascadeEmits : List (Option RegisterId → State → Outcome State) → Type 0
CascadeEmits [] = ⊥
CascadeEmits (m ∷ []) = AllMessagesEmit false (m ∷ [])
CascadeEmits (m ∷ m' ∷ ms) = AllMessagesEmit true (m ∷ m' ∷ ms)

pub cascade_on-Emits :
    (receiver : Emitter) (messages : List (Option RegisterId → State → Outcome State))
    → EmitsWell receiver
    → CascadeEmits messages
    → Emits (cascade_on receiver messages)
unfolding cascade_on
cascade_on-Emits receiver [] r h st = elim h [ ]
cascade_on-Emits receiver (m ∷ []) r h st = Ends-Leads st (receiver.emit st) _ (r.0 st) h.0
cascade_on-Emits receiver (m ∷ m' ∷ ms) r h st =
    Ends-Leads_reg st (emit_and_star receiver.emit st) _
      (emit_and_star-EmitsIntoReg receiver.emit r.0 st)
      λ st' reg. cascade_all-Emits (m ∷ m' ∷ ms) reg h st'
