-- ===== src/Compile/Primitives.antt =====
-- The code of `PrimitiveExprNode` of cmd/vm/AST.cc: with arguments that emit whole instructions whose jumps
-- stay among them, so does the primitive, if its assertions hold.
use valutron.Prelude.{
  ℕ, zero, suc, ◌<◌, ◌≤◌, ◌≡◌, refl, ap, Bool, true, false, List, [], ◌∷◌, length, arith,
}
use valutron.CodeGen.{
  CodeGen, RegisterId, alloc_reg, gen_star_into, gen_primitive, gen_primitive_0, gen_primitive_1,
  gen_primitive_2, gen_primitive_3, gen_primitive_v,
}
use valutron.Generated.Calls.{Call, perform}
use valutron.Tree.Nodes.{Kind, Primitive}
use valutron.Compile.Leads.{Ends, Ends-bind, Leads, Leads-same, Leads-trans}
use valutron.Compile.Emits.{
  Emits, EmitsWell, AllEmitWell, Ends-weaken, Ends-Leads, Ends-Leads_reg, call-Emits,
  emit_and_star-EmitsIntoReg, Regs,
}
use valutron.Compile.State.{State, Emitter, on_gen, emit_and_star}
use valutron.Compile.Messages.{
  args_by_star, alloc_regs, args_to_regs, triadic_on, variadic_on, kind_on, primitive_on,
}

-- The number of arguments that a primitive of that style and kind is asserted to have, or can count.
abbrev pub PrimitiveTakes : Bool → Kind → ℕ → Type 0
PrimitiveTakes true kind n = n < 256
PrimitiveTakes false Kind.niladic n = n ≡ 0
PrimitiveTakes false Kind.monadic n = n ≡ 1
PrimitiveTakes false Kind.diadic n = n ≡ 2
PrimitiveTakes false Kind.triadic n = n ≡ 3
PrimitiveTakes false Kind.variadic n = 1 ≤ n

args_by_star-Regs :
    (args : List Emitter) (st : State)
    → AllEmitWell args
    → Ends (args_by_star args st) (Regs st args)
unfolding args_by_star
args_by_star-Regs [] st h = (Leads-same st st refl refl, refl)
args_by_star-Regs (arg ∷ args) st h =
    Ends-bind (λ p. Leads st p.0) (Regs st (arg ∷ args)) (emit_and_star arg.emit st) _
      (emit_and_star-EmitsIntoReg arg.emit h.0.0 st)
      λ (st', reg) l.
        Ends-bind (Regs st' args) (Regs st (arg ∷ args)) (args_by_star args st') _
          (args_by_star-Regs args st' h.1)
          λ (st'', regs) (l', size). (Leads-trans st st' st'' l l', ap suc size)

star_into-Leads :
    (reg : RegisterId) (st : State) → Leads st (on_gen (λ c. (gen_star_into reg c).0) st)
unfolding perform
star_into-Leads reg st =
    call-Emits (Call.star_into reg) (λ c. (gen_star_into reg c).0) tt tt (λ c. refl) st

args_to_regs-Emits :
    (args : List Emitter) (regs : List RegisterId)
    → AllEmitWell args
    → length regs ≡ length args
    → Emits (args_to_regs args regs)
unfolding args_to_regs
args_to_regs-Emits [] regs h n st = Leads-same st st refl refl
args_to_regs-Emits (arg ∷ args) [] h n st = omega (arith, n)
args_to_regs-Emits (arg ∷ args) (reg ∷ regs) h n st =
    Ends-Leads st (arg.emit st) _ (h.0.0 st) λ st'.
      let st'' = on_gen (λ c. (gen_star_into reg c).0) st' in
      Ends-weaken st' st'' (args_to_regs args regs st'') (star_into-Leads reg st')
        (args_to_regs-Emits args regs h.1 (omega (arith, n)) st'')

-- The allocation of registers emits nothing.
alloc_regs-frame :
    (n : ℕ) (c : CodeGen)
    → ((alloc_regs n c).0.bytecode ≡ c.bytecode) × (length (alloc_regs n c).1 ≡ n)
unfolding alloc_regs alloc_reg
alloc_regs-frame zero c = (refl, refl)
alloc_regs-frame (suc n) c =
    let rest = alloc_regs-frame n (alloc_reg c).0 in (rest.0, ap suc rest.1)

triadic_on-Emits :
    (index : ℕ) (arg₀ arg₁ arg₂ : Emitter)
    → EmitsWell arg₀
    → EmitsWell arg₁
    → EmitsWell arg₂
    → Emits (triadic_on index arg₀ arg₁ arg₂)
unfolding triadic_on perform alloc_reg
triadic_on-Emits index arg₀ arg₁ arg₂ h k l st =
    Ends-Leads_reg st (emit_and_star arg₀.emit st) _ (emit_and_star-EmitsIntoReg arg₀.emit h.0 st)
      λ st₁ reg.
        let (c, reg') = alloc_reg st₁.code_gen in
        let st₂ = record st₁ { code_gen = c } in
        Ends-weaken st₁ st₂ _ (Leads-same st₁ st₂ refl refl) (
          Ends-Leads st₂ (arg₁.emit st₂) _ (k.0 st₂) λ st₃.
            let st₄ = on_gen (λ c. (gen_star_into reg' c).0) st₃ in
            Ends-weaken st₃ st₄ _ (star_into-Leads reg' st₃) (
              Ends-Leads st₄ (arg₂.emit st₄) _ (l.0 st₄) (
                call-Emits (Call.primitive_3 index reg) (gen_primitive_3 index reg) tt tt
                  (λ c. refl))))

variadic_on-Emits :
    (index : ℕ) (args : List Emitter)
    → AllEmitWell args
    → 1 ≤ length args
    → Emits (variadic_on index args)
unfolding variadic_on perform
variadic_on-Emits index [] h n st = omega (arith, n)
variadic_on-Emits index (arg ∷ args) h n st =
    let k = length (arg ∷ args) in
    let (same, size) = alloc_regs-frame k st.code_gen in
    let st' = record st { code_gen = (alloc_regs k st.code_gen).0 } in
    let first = (alloc_reg st.code_gen).1 in
    Ends-weaken st st' _ (Leads-same st st' same refl) (
      Ends-Leads st' (args_to_regs (arg ∷ args) (alloc_regs k st.code_gen).1 st') _
        (args_to_regs-Emits (arg ∷ args) (alloc_regs k st.code_gen).1 h size st')
        (call-Emits (Call.primitive_v index k first) (gen_primitive_v index k first) tt tt
          (λ c. refl)))

kind_on-Emits :
    (kind : Kind) (index : ℕ) (args : List Emitter)
    → AllEmitWell args
    → PrimitiveTakes false kind (length args)
    → Emits (kind_on kind index args)
unfolding kind_on perform
kind_on-Emits Kind.niladic index [] h n st =
    call-Emits (Call.primitive_0 index) (gen_primitive_0 index) tt tt (λ c. refl) st
kind_on-Emits Kind.monadic index (arg ∷ []) h n st =
    Ends-Leads st (arg.emit st) _ (h.0.0 st)
      (call-Emits (Call.primitive_1 index) (gen_primitive_1 index) tt tt (λ c. refl))
kind_on-Emits Kind.diadic index (arg₀ ∷ arg₁ ∷ []) h n st =
    Ends-Leads_reg st (emit_and_star arg₀.emit st) _ (emit_and_star-EmitsIntoReg arg₀.emit h.0.0 st)
      λ st' reg.
        Ends-Leads st' (arg₁.emit st') _ (h.1.0.0 st')
          (call-Emits (Call.primitive_2 index reg) (gen_primitive_2 index reg) tt tt (λ c. refl))
kind_on-Emits Kind.triadic index (arg₀ ∷ arg₁ ∷ arg₂ ∷ []) h n st =
    triadic_on-Emits index arg₀ arg₁ arg₂ h.0 h.1.0 h.1.1.0 st
kind_on-Emits Kind.variadic index args h n st = variadic_on-Emits index args h n st
kind_on-Emits _ index args h n st = omega (arith, n)

style_on-Emits :
    (num : Primitive) (old_style : Bool) (args : List Emitter)
    → AllEmitWell args
    → PrimitiveTakes old_style num.kind (length args)
    → Emits (primitive_on (record num { old_style = old_style }) args)
unfolding primitive_on perform
style_on-Emits num true args h n st =
    let index = num.index in
    Ends-bind (Regs st args) (Leads st) (args_by_star args st) _ (args_by_star-Regs args st h)
      λ (st', regs) (l, size). Leads-trans st st' (on_gen (gen_primitive index regs) st') l (
        call-Emits (Call.primitive index regs) (gen_primitive index regs) (omega (arith, size)) tt
          (λ c. refl) st')
style_on-Emits num false args h n st = kind_on-Emits num.kind num.index args h n st

pub primitive_on-Emits :
    (num : Primitive) (args : List Emitter)
    → AllEmitWell args
    → PrimitiveTakes num.old_style num.kind (length args)
    → Emits (primitive_on num args)
primitive_on-Emits num args h n = style_on-Emits num num.old_style args h n
