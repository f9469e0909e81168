-- ===== src/Scheduler/Rounds.antt =====
-- The loop of `CPUThreadThread::scheduleLoop`: each round runs the next process and queues it again,
-- unless it has finished or waits. What `execute` does is a parameter. The start of
-- the timer and the printing are left out.
use mathlib.Core.List.{append_assoc, append-nil}
use valutron.Prelude.{
  Bool, false, ℕ, zero, suc, ◌+◌, ◌<◌, ◌≤◌, ◌≡◌, ◌≢◌, refl, subst, List, [], ◌∷◌, ◌++◌, arith,
  length, length-append, ◌==◌, if◌then◌else◌,
}
use valutron.Scheduler.{
  Proc, Store, Outcome, done, ◌>>=◌, add_proc_to_runnables, get_next_for_running,
}
use valutron.Scheduler.Queue.{Holds, add_proc_to_runnables-append, get_next_for_running-head}

-- The run queue with the scheduler's `curProc` and the thread's interrupt flag.
pub record Thread : Type 0 where
  pub store : Store
  pub cur_proc : Proc
  pub interrupt_flag : Bool

-- `execute` answers 0 for a finished process; otherwise its `state` tells whether it waits (3).
pub record Executed : Type 0 where
  pub result : ℕ
  pub state : ℕ
  pub after : Thread

abbrev pub Execute : Type 0
Execute = Proc → Thread → Executed

abbrev pub clear_flag : Thread → Thread
clear_flag s = record s { interrupt_flag = false }

-- A round: the process that ran, 0 if none was runnable, and the state afterwards.
unfoldable pub schedule_round : ℕ → Execute → Thread → Outcome (Proc × Thread)
schedule_round fuel execute s = do
  (proc, store) ← get_next_for_running fuel s.store
  let s' = record s { store = store; cur_proc = proc }
  let e = execute proc s'
  (if proc == 0
      then done (0, s')
      else if e.result == 0
      then done (proc, clear_flag e.after)
      else if e.state == 3
      then done (proc, clear_flag e.after)
      else (do
        t ← add_proc_to_runnables fuel proc e.after.store
        done (proc, clear_flag (record e.after { store = t }))))

-- The loop ends when nothing is runnable; at most `n` rounds are made here. The result is the processes
-- that ran, in order.
unfoldable pub schedule_loop : ℕ → ℕ → Execute → Thread → Outcome (List Proc × Thread)
unfolding schedule_round
schedule_loop zero fuel execute s = done ([], s)
schedule_loop (suc n) fuel execute s = do
  (proc, s') ← schedule_round fuel execute s
  (if proc == 0
      then done ([], s')
      else (do (procs, t) ← schedule_loop n fuel execute s'; done (proc ∷ procs, t)))

-- Every process uses up its time slice and changes no queue.
abbrev pub Preempts : Execute → Type 0
Preempts execute =
    (p : Proc) (s : Thread)
    → ((execute p s).result ≢ 0) × ((execute p s).state ≢ 3) × ((execute p s).after.store ≡ s.store)

-- Every process runs to its end and changes no queue.
abbrev pub Finishes : Execute → Type 0
Finishes execute =
    (p : Proc) (s : Thread) → ((execute p s).result ≡ 0) × ((execute p s).after.store ≡ s.store)

module _ (fuel : ℕ) (execute : Execute) where
  round-Preempts :
      (s : Thread) (x : Proc) (xs : List Proc)
      → Preempts execute
      → Holds s.store (x ∷ xs)
      → length xs < fuel
      → (s' : Thread) × (schedule_round fuel execute s ≡ done (x, s'))
        × Holds s'.store (xs ++ x ∷ [])
  unfolding schedule_round
  round-Preempts s x xs pre h f =
      let (store, next, rest, free) = get_next_for_running-head fuel s.store x xs h in
      let (t, added, again) = add_proc_to_runnables-append fuel store x xs rest free f in
      let started : Thread = record s { store = store; cur_proc = x } in
      let (r, w, same) = pre x started in
      let after = (execute x started).after in
      let added' : add_proc_to_runnables fuel x after.store ≡ done t = rw same added in
      (clear_flag (record after { store = t }), ground arith, again)

  round-Finishes :
      (s : Thread) (x : Proc) (xs : List Proc)
      → Finishes execute
      → Holds s.store (x ∷ xs)
      → (s' : Thread) × (schedule_round fuel execute s ≡ done (x, s')) × Holds s'.store xs
  unfolding schedule_round
  round-Finishes s x xs fin h =
      let (store, next, rest, free) = get_next_for_running-head fuel s.store x xs h in
      let started : Thread = record s { store = store; cur_proc = x } in
      let (r, same) = fin x started in
      (clear_flag (execute x started).after, ground arith, rw same rest)

  round-idle :
      (s : Thread)
      → Holds s.store []
      → schedule_round fuel execute s ≡ done (0, record s { cur_proc = 0 })
  unfolding schedule_round get_next_for_running
  round-idle s h = ground arith

  -- If the queue holds `xs` and behind them `ys`, no fewer than that is the fuel, and every process
  -- uses up its time slice and changes no queue, then as many rounds as there are `xs` run just
  -- those, in their order, and queue them behind `ys`, in the same order.
  pub schedule_loop-round_robin :
      (xs ys : List Proc) (s : Thread)
      → Preempts execute
      → Holds s.store (xs ++ ys)
      → length xs + length ys ≤ fuel
      → (s' : Thread) × (schedule_loop (length xs) fuel execute s ≡ done (xs, s'))
        × Holds s'.store (ys ++ xs)
  unfolding schedule_loop
  schedule_loop-round_robin [] ys s pre h f = (s, refl, rw append-nil h)
  schedule_loop-round_robin (x ∷ xs) ys s pre h f =
      let (t, ran, rest) =
        round-Preempts s x (xs ++ ys) pre h (omega (arith, length-append {0} xs ys)) in
      let (s', looped, last) =
        schedule_loop-round_robin xs (ys ++ x ∷ []) t pre
          (subst (λ l. Holds t.store l) (append_assoc xs ys (x ∷ [])) rest)
          (omega (arith, length-append {0} ys (x ∷ []))) in
      let nz : x ≢ 0 = h.1 in
      (s', ground arith, subst (λ l. Holds s'.store l) (append_assoc ys (x ∷ []) xs) last)

  -- If every process runs to its end and changes no queue, then one round more than the queue holds
  -- processes is enough for the loop to end: it runs each process once, in the order of the queue,
  -- and leaves the queue empty.
  pub schedule_loop-drains :
      (xs : List Proc) (s : Thread)
      → Finishes execute
      → Holds s.store xs
      → (s' : Thread) × (schedule_loop (suc (length xs)) fuel execute s ≡ done (xs, s'))
        × Holds s'.store []
  unfolding schedule_loop
  schedule_loop-drains [] s fin h = (record s { cur_proc = 0 }, ground (arith, round-idle s h), h)
  schedule_loop-drains (x ∷ xs) s fin h =
      let (t, ran, rest) = round-Finishes s x xs fin h in
      let (s', looped, last) = schedule_loop-drains xs t fin rest in
      let nz : x ≢ 0 = h.1 in (s', ground arith, last)
