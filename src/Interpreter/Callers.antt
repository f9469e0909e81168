-- ===== src/Interpreter/Callers.antt =====
-- The chain of callers in the stack of a process, under the sends and returns of cmd/vm/Interpreter.cc.
use valutron.Prelude.{
  ℕ, ◌+◌, ◌<◌, ◌≤◌, ◌≡◌, ◌≢◌, refl, sym, subst, ◌∙◌, true, List, [], ◌∷◌, length, arith, ◌==◌,
  Bool-cases, inl, inr,
}
use valutron.Outcome.{done}
use valutron.Dictionary.{Obj}
use valutron.Interpreter.State.{Context, Machine, goes, stops, World, ctx, code_of, spill, unspill}
use valutron.Interpreter.Contexts.{init_with_method, full_size, enter, activate, leave}
use valutron.Interpreter.Calls.{KeepsCode, Operands, filled, fetched, activate-enter}

-- The contexts from `bp` down are these: each caller stands below its callee, and the last has no caller.
abbrev pub Callers : (ℕ → Context) → ℕ → List ℕ → Type 0
Callers contexts bp [] = bp ≡ 0
Callers contexts bp (b ∷ bs) =
    (b ≡ bp) × (bp ≢ 0) × ((contexts bp).prev_bp < bp) × Callers contexts (contexts bp).prev_bp bs

Callers-above :
    (old new : ℕ → Context) (bp : ℕ) (bs : List ℕ)
    → ((i : ℕ) → i ≤ bp → (new i).prev_bp ≡ (old i).prev_bp)
    → Callers old bp bs
    → Callers new bp bs
Callers-above old new bp [] same h = h
Callers-above old new bp (b ∷ bs) same (e, nz, below, rest) =
    let here = same bp (omega arith) in
    (
      e,
      nz,
      omega arith,
      subst (λ p. Callers new p bs) (sym here)
          (Callers-above old new (old bp).prev_bp bs (λ i le. same i (omega arith)) rest),
    )

enter-callers :
    (w : World) (new_bp : ℕ) (c : Context) (m : Machine) (i : ℕ)
    → i < new_bp
    → ((enter w new_bp c m).contexts i).prev_bp ≡ (m.contexts i).prev_bp
unfolding enter spill unspill
enter-callers w new_bp c m i below = ground arith

-- If the callers of a process form a chain downwards in the stack, a method is found, its context fits in
-- the stack, allocation leaves all code as it is, and the next bytes name the registers of the arguments,
-- then after the send the callers form such a chain with the new context on top.
pub activate-Callers :
    (w : World) (m n : Machine) (receiver method : Obj) (rs bs : List ℕ)
    → KeepsCode w
    → method ≢ 0
    → m.bp + full_size m ≤ m.stack_words
    → Operands (code_of m).bytecode m.pc rs
    → Callers m.contexts m.bp bs
    → activate w receiver method (length rs) m ≡ done (goes n)
    → Callers n.contexts n.bp (n.bp ∷ bs)
unfolding full_size enter spill unspill init_with_method
activate-Callers w m n receiver method rs bs keeps found fits operands chain sent =
    let new_bp = m.bp + full_size m in
    let c = filled w keeps m receiver method rs found fits operands in
    let k = fetched w keeps m receiver method rs found fits operands in
    let e = enter w new_bp c k in
    let both : done (goes n) ≡ done (goes e) =
      sym sent ∙ activate-enter w keeps m receiver method rs found fits operands in
    let same : e ≡ n = cc both in
    let self : (new_bp == new_bp) ≡ true = ground arith in
    let back : (e.contexts new_bp).prev_bp ≡ m.bp = rw self refl in
    let rest : Callers e.contexts m.bp bs =
      Callers-above m.contexts e.contexts m.bp bs
        (λ i le. enter-callers w new_bp c k i (omega arith)) chain in
    let whole : Callers e.contexts e.bp (e.bp ∷ bs) =
      (refl, omega arith, omega arith, subst (λ p. Callers e.contexts p bs) (sym back) rest) in
    subst (λ x. Callers x.contexts x.bp (x.bp ∷ bs)) same whole

-- If the callers of a process form a chain downwards in the stack, then a return that goes on leaves the
-- chain without its top.
pub leave-Callers :
    (m n : Machine) (b : ℕ) (bs : List ℕ)
    → Callers m.contexts m.bp (b ∷ bs)
    → leave m ≡ goes n
    → Callers n.contexts n.bp bs
unfolding leave unspill
leave-Callers m n b bs (e, nz, below, rest) left = elim (Bool-cases ((ctx m).prev_bp == 0)) [
  | inl last ↦
      let ends : stops 0 (record m { accumulator = m.ac; bp = 0 }) ≡ goes n = rw last at left in
      absurd (cc ends)
  | inr more ↦
      let k : Machine = unspill (record m { bp = (ctx m).prev_bp }) in
      let on : goes k ≡ goes n = rw more at left in
      let same : k ≡ n = cc on in subst (λ x. Callers x.contexts x.bp bs) same rest
]
