-- ===== src/Scheduler/Interrupts.antt =====
-- The interrupt flags of `CPUThreadPair` in cmd/vm/Scheduling.cc. Each method is one atomic step here;
-- the timer's callback runs in the event thread between any two of them.
use valutron.Prelude.{
  ◌≡◌, refl, Bool, true, false, not, ◌&&◌, ◌||◌, List, [], ◌∷◌, arith, Option, none, some,
  if◌then◌else◌,
}

pub record Flags : Type 0 where
  pub interrupt_flag : Bool
  pub other_interrupt_flag : Bool
  pub interrupts_disabled : Bool

unfoldable pub interrupt : Flags → Flags
interrupt f =
    if f.interrupts_disabled
    then record f { other_interrupt_flag = true }
    else record f { interrupt_flag = true }

-- `timeSliceCb` does not look at `m_interruptsDisabled`.
unfoldable pub time_slice_cb : Flags → Flags
time_slice_cb f = record f { interrupt_flag = true }

unfoldable pub disable_interrupts : Flags → Flags
disable_interrupts f = record {
  interrupts_disabled = true;
  interrupt_flag = false;
  other_interrupt_flag = if f.other_interrupt_flag then true else f.interrupt_flag;
}

unfoldable pub enable_interrupts : Flags → Flags
enable_interrupts f = record {
  interrupts_disabled = false;
  interrupt_flag = if f.other_interrupt_flag then true else f.interrupt_flag;
  other_interrupt_flag = false;
}

-- `yield` asserts that interrupts are enabled.
unfoldable pub yield : Flags → Option Flags
unfolding interrupt
yield f = if f.interrupts_disabled then none else some (interrupt f)

pub data Event : Type 0 where
  raise time_slice disable enable : Event

unfoldable pub handle : Event → Flags → Flags
unfolding interrupt time_slice_cb disable_interrupts enable_interrupts
handle raise f = interrupt f
handle time_slice f = time_slice_cb f
handle disable f = disable_interrupts f
handle enable f = enable_interrupts f

unfoldable pub handle_all : List Event → Flags → Flags
handle_all [] f = f
handle_all (e ∷ es) f = handle_all es (handle e f)

-- Some event raises an interrupt.
unfoldable pub raises : List Event → Bool
raises [] = false
raises (raise ∷ es) = true
raises (time_slice ∷ es) = true
raises (_ ∷ es) = raises es

-- An interrupt is set aside only while interrupts are disabled.
abbrev pub IsSettled : Flags → Type 0
IsSettled f = (f.other_interrupt_flag && not f.interrupts_disabled) ≡ false

abbrev pub pending : Flags → Bool
pending f = f.interrupt_flag || f.other_interrupt_flag

handle-IsSettled : (e : Event) (f : Flags) → IsSettled f → IsSettled (handle e f)
unfolding handle
handle-IsSettled raise f h = ground arith
handle-IsSettled _ f h = ground arith

handle_all-IsSettled : (es : List Event) (f : Flags) → IsSettled f → IsSettled (handle_all es f)
unfolding handle_all
handle_all-IsSettled [] f h = h
handle_all-IsSettled (e ∷ es) f h = handle_all-IsSettled es (handle e f) (handle-IsSettled e f h)

handle-pending : (e : Event) (f : Flags) → pending (handle e f) ≡ (pending f || raises (e ∷ []))
unfolding handle raises
handle-pending raise f = ground arith
handle-pending _ f = ground arith

raises_nil : raises [] ≡ false
unfolding raises
raises_nil = refl

raises-cons : (e : Event) (es : List Event) → raises (e ∷ es) ≡ (raises (e ∷ []) || raises es)
unfolding raises
raises-cons raise es = refl
raises-cons _ es = refl

handle_all-pending :
    (es : List Event) (f : Flags) → pending (handle_all es f) ≡ (pending f || raises es)
unfolding handle_all
handle_all-pending [] f = ground (arith, raises_nil)
handle_all-pending (e ∷ es) f =
    ground (arith, handle_all-pending es (handle e f), handle-pending e f, raises-cons e es)

-- If no interrupt was set aside with interrupts enabled at the start, and after a sequence of
-- interrupts, time slices, disablings and enablings the interrupts are enabled, then the interpreter
-- sees an interrupt exactly if one was pending before or one of the events raised one.
pub handle_all-delivers :
    (es : List Event) (f : Flags)
    → IsSettled f
    → (handle_all es f).interrupts_disabled ≡ false
    → (handle_all es f).interrupt_flag ≡ (pending f || raises es)
handle_all-delivers es f h on = ground (arith, handle_all-pending es f, handle_all-IsSettled es f h)

-- While interrupts are disabled the timer still shows the interpreter an interrupt.
pub time_slice_cb-ignores_disabled :
    (f : Flags) → (time_slice_cb (disable_interrupts f)).interrupt_flag ≡ true
unfolding time_slice_cb
time_slice_cb-ignores_disabled f = refl
