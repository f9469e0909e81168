-- ===== src/Interpreter/Calls.antt =====
-- A send and the return from it, in `execute` of cmd/vm/Interpreter.cc.
use valutron.Prelude.{
  ℕ, suc, ◌+◌, ◌<◌, ◌≤◌, ◌≡◌, ◌≢◌, refl, sym, ap, ◌∙◌, true, false, some, List, [], ◌∷◌, get_elem?,
  length, arith, ◌==◌, ltb, if◌then◌else◌, Bool-cases, inl, inr,
}
use valutron.Outcome.{done}
use valutron.Dictionary.{Obj}
use valutron.Interpreter.State.{
  Context, Heap, Machine, goes, World, ctx, code_of, reg_at, next_byte, spill, unspill, write_reg,
}
use valutron.Interpreter.Contexts.{
  full_size, new_context, init_with_method, pass_args, enter, activate, leave,
}

-- The bytes from `pc` on name these registers.
abbrev pub Operands : List ℕ → ℕ → List ℕ → Type 0
Operands code pc [] = Unit
Operands code pc (r ∷ rs) = (get_elem? code pc ≡ some r) × Operands code (pc + 1) rs

-- Register `i` and those behind it get the values of these registers.
abbrev pub passed : (ℕ → Obj) → List ℕ → ℕ → (ℕ → Obj) → ℕ → Obj
passed source [] i regs = regs
passed source (r ∷ rs) i regs = passed source rs (i + 1) (λ j. if j == i then source r else regs j)

-- An allocation leaves the methods and blocks as they are.
abbrev pub KeepsCode : World → Type 0
KeepsCode w = (n : ℕ) (heap : Heap) → (w.new_array n heap).1.code ≡ heap.code

-- A write to register `i`, as a function of the registers.
passed-Operands :
    (w : World) (rs : List ℕ) (i : ℕ) (c : Context) (m : Machine)
    → Operands (code_of m).bytecode m.pc rs
    → pass_args w (length rs) i c m
      ≡ done (record c { regs = passed (reg_at m) rs i c.regs }, record m { pc = m.pc + length rs })
unfolding pass_args next_byte
passed-Operands w [] i c m h = let same : m.pc + 0 ≡ m.pc = omega arith in rw same refl
passed-Operands w (r ∷ rs) i c m (e, h) =
    let next : m.pc + 1 + length rs ≡ m.pc + suc (length rs) = omega arith in
    rw
      (
        e,
        passed-Operands w rs (i + 1) (write_reg i (reg_at m r) c) (record m { pc = m.pc + 1 }) h,
        next,
      )
      refl

init-KeepsCode :
    (w : World) (prev_bp : ℕ) (receiver method : Obj) (heap : Heap)
    → KeepsCode w
    → (init_with_method w prev_bp receiver method heap).0.code ≡ heap.code
unfolding init_with_method
init-KeepsCode w prev_bp receiver method heap keeps =
    let size = (heap.code method).heap_vars_size in
    elim (Bool-cases (size == 0)) [
      | inl empty ↦ rw empty refl
      | inr full ↦ rw full (keeps size heap)
    ]

-- What `enter` leaves: the new context at its place, and the old one spilled.
record Entered (new_bp : ℕ) (c : Context) (m n : Machine) : Type 0 where
  at_bp : n.bp ≡ new_bp
  at_pc : n.pc ≡ c.program_counter
  current : ctx n ≡ c
  caller : n.contexts m.bp ≡ record (ctx m) { program_counter = m.pc }

enter-Entered :
    (w : World) (new_bp : ℕ) (c : Context) (m : Machine)
    → m.bp < new_bp
    → Entered new_bp c m (enter w new_bp c m)
unfolding enter spill unspill
enter-Entered w new_bp c m above =
    let self : (new_bp == new_bp) ≡ true = ground arith in
    let old : (m.bp == m.bp) ≡ true = ground arith in
    let apart : (m.bp == new_bp) ≡ false = ground arith in
    record {
      at_bp = refl;
      at_pc = rw self refl;
      current = rw self refl;
      caller = rw (apart, old) refl;
    }

module _ (w : World) (keeps : KeepsCode w) (m : Machine) (receiver method : Obj) (rs : List ℕ)
    (found : method ≢ 0) (fits : m.bp + full_size m ≤ m.stack_words)
    (operands : Operands (code_of m).bytecode m.pc rs) where
  abbrev begun : Heap × Context
  begun = init_with_method w m.bp receiver method m.heap

  abbrev pub filled : Context
  filled = record begun.1 { regs = passed (reg_at m) rs 1 begun.1.regs }

  abbrev pub fetched : Machine
  fetched = record m { heap = begun.0; pc = m.pc + length rs }

  pub activate-enter :
      activate w receiver method (length rs) m
      ≡ done (goes (enter w (m.bp + full_size m) filled fetched))
  unfolding activate new_context
  activate-enter =
      let e₁ : (method == 0) ≡ false = ground arith in
      let e₂ : ltb m.stack_words (m.bp + full_size m) ≡ false = ground arith in
      let same = init-KeepsCode w m.bp receiver method m.heap keeps in
      let operands' : Operands (begun.0.code (ctx m).method_or_block).bytecode m.pc rs =
        rw same operands in
      rw (e₁, e₂, passed-Operands w rs 1 begun.1 (record m { heap = begun.0 }) operands') refl

  entered :
      Entered (m.bp + full_size m) filled fetched (enter w (m.bp + full_size m) filled fetched)
  unfolding full_size
  entered = enter-Entered w (m.bp + full_size m) filled fetched (omega arith)

  -- If a method is found, its context fits in the stack, allocation leaves all code as it is, and the next
  -- bytes name the registers of the arguments, then a send begins a context behind the current one: it runs
  -- the method from its start, its register 0 is the receiver, the registers from 1 on have the values of
  -- the registers named and the others are nil, and its caller is the context of the send.
  pub activate-enters :
      (n : Machine) × (activate w receiver method (length rs) m ≡ done (goes n))
      × (n.bp ≡ m.bp + full_size m)
      × (n.pc ≡ 0)
      × ((ctx n).method_or_block ≡ method)
      × ((ctx n).prev_bp ≡ m.bp)
      × ((ctx n).regs ≡ passed (reg_at m) rs 1 (λ i. if i == 0 then receiver else 0))
  unfolding init_with_method
  activate-enters =
      let e = entered in
      (
        enter w (m.bp + full_size m) filled fetched,
        activate-enter,
        e.at_bp,
        e.at_pc,
        ap (λ c. c.method_or_block) e.current,
        ap (λ c. c.prev_bp) e.current,
        ap (λ c. c.regs) e.current,
      )

  -- Let a send go from the machine `m` to the machine `n`: its method is found, its context fits in
  -- the stack, allocation leaves all code as it is, the next bytes name the registers of the
  -- arguments, and the sender's context has an index other than 0. Let `k` be any machine whose
  -- current context has the same caller as that of `n`, and in which the context of the sender is as
  -- in `n`. Then the return from `k` goes on in the sender's context, behind the operands of the
  -- send, with its registers, code and caller as they were in `m`, and with the answer of the callee
  -- in `ac`.
  pub activate-leave :
      (n k : Machine)
      → m.bp ≢ 0
      → activate w receiver method (length rs) m ≡ done (goes n)
      → (ctx k).prev_bp ≡ (ctx n).prev_bp
      → k.contexts m.bp ≡ n.contexts m.bp
      → (k' : Machine) × (leave k ≡ goes k')
        × (k'.bp ≡ m.bp)
        × (k'.pc ≡ m.pc + length rs)
        × (k'.ac ≡ k.ac)
        × ((ctx k').regs ≡ (ctx m).regs)
        × ((ctx k').method_or_block ≡ (ctx m).method_or_block)
        × ((ctx k').prev_bp ≡ (ctx m).prev_bp)
  unfolding leave unspill init_with_method
  activate-leave n k nz sent callee kept =
      let e = entered in
      let both : done (goes n) ≡ done (goes (enter w (m.bp + full_size m) filled fetched)) =
        sym sent ∙ activate-enter in
      let same : n ≡ enter w (m.bp + full_size m) filled fetched = cc both in
      let back : (ctx k).prev_bp ≡ m.bp =
        callee ∙ ap (λ x. (ctx x).prev_bp) same ∙ ap (λ c. c.prev_bp) e.current in
      let caller = kept ∙ ap (λ x. x.contexts m.bp) same ∙ e.caller in
      let nz' : (m.bp == 0) ≡ false = ground arith in
      (
        unspill (record k { bp = m.bp }),
        rw (back, nz') refl,
        refl,
        ap (λ c. c.program_counter) caller,
        refl,
        ap (λ c. c.regs) caller,
        ap (λ c. c.method_or_block) caller,
        ap (λ c. c.prev_bp) caller,
      )
