-- ===== src/Examples/Processes.antt =====
-- Two processes, 8 and 16, queued in this order, and a third, 24, that is free.
use valutron.Prelude.{true, ◌≡◌, refl, false, ◌||◌, [], ◌∷◌, arith, ◌==◌, if◌then◌else◌}
use valutron.Scheduler.{Store, done, suspend_process}
use valutron.Scheduler.Queue.{Holds, IsFree, suspend_process-remove}
use valutron.Scheduler.Interrupts.{
  Flags, raise, disable, enable, handle, handle_all, raises, pending, handle_all-delivers,
}
use valutron.Scheduler.Rounds.{
  Thread, Execute, schedule_loop, Preempts, Finishes, schedule_loop-round_robin,
  schedule_loop-drains,
}

abbrev queued : Store
queued = record { list = 8; link = λ p. if p == 8 then 16 else 0 }

queued-Holds : Holds queued (8 ∷ 16 ∷ [])
queued-Holds = ground arith

third-IsFree : IsFree queued 24 (8 ∷ 16 ∷ [])
third-IsFree = ground arith

suspend_process-remove_example :
    (s' : Store) × (suspend_process 3 16 queued ≡ done s') × Holds s' (8 ∷ []) × (s'.link 16 ≡ 0)
suspend_process-remove_example =
    suspend_process-remove 3 queued (8 ∷ []) 16 [] queued-Holds (omega arith)

-- A processor that uses up every time slice, and one that runs every process to its end.
abbrev preempting : Execute
preempting p s = record { result = 1; state = 1; after = record s { interrupt_flag = true } }

preempting-Preempts : Preempts preempting
preempting-Preempts p s = (omega arith, omega arith, refl)

abbrev finishing : Execute
finishing p s = record { result = 0; state = 1; after = s }

finishing-Finishes : Finishes finishing
finishing-Finishes p s = (refl, refl)

abbrev thread : Thread
thread = record { store = queued; cur_proc = 0; interrupt_flag = false }

schedule_loop-round_robin_example :
    (s' : Thread) × (schedule_loop 1 5 preempting thread ≡ done (8 ∷ [], s'))
    × Holds s'.store (16 ∷ 8 ∷ [])
schedule_loop-round_robin_example =
    schedule_loop-round_robin 5 preempting (8 ∷ []) (16 ∷ []) thread preempting-Preempts
      queued-Holds (omega arith)

schedule_loop-drains_example :
    (s' : Thread) × (schedule_loop 3 5 finishing thread ≡ done (8 ∷ 16 ∷ [], s'))
    × Holds s'.store []
schedule_loop-drains_example =
    schedule_loop-drains 5 finishing (8 ∷ 16 ∷ []) thread finishing-Finishes queued-Holds

abbrev quiet : Flags
quiet = record { interrupt_flag = false; other_interrupt_flag = false; interrupts_disabled = false }

handle_all-delivers_example :
    (handle_all (disable ∷ raise ∷ enable ∷ []) quiet).interrupt_flag
    ≡ (pending quiet || raises (disable ∷ raise ∷ enable ∷ []))
unfolding handle_all handle
handle_all-delivers_example = handle_all-delivers (disable ∷ raise ∷ enable ∷ []) quiet refl refl
