-- ===== src/Scheduler/Queue.antt =====
-- The operations of the run queue (SchedulerOopDesc in cmd/vm/Scheduling.cc) on the list of its processes.
use valutron.Prelude.{ℕ, ◌<◌, ◌≡◌, ◌≢◌, sym, subst, false, List, [], ◌∷◌, ◌++◌, arith, length, ◌==◌}
use valutron.Scheduler.{
  Proc, Store, write, done, dies, add_proc_to_runnables, suspend_process, get_next_for_running,
}
use valutron.Scheduler.Chain.{
  Outside, IsChain, IsChain-write, last_of-append, node_before-remove, contained_in_list-contains,
  not-contains, contains-append, node_before-dies, IsChain-once,
}

-- The store's list holds these processes, in this order.
abbrev pub Holds : Store → List Proc → Type 0
Holds s xs = IsChain s.link s.list xs

-- A process that is in no list: its link is nil, as after an allocation or a removal.
abbrev pub IsFree : Store → Proc → List Proc → Type 0
IsFree s p xs = (p ≢ 0) × (s.link p ≡ 0) × Outside p xs

-- If a process is not nil, not in the queue, and has no link, and the fuel is above the length of
-- the queue, then adding it queues it behind all others.
pub add_proc_to_runnables-append :
    (fuel : ℕ) (s : Store) (p : Proc) (xs : List Proc)
    → Holds s xs
    → IsFree s p xs
    → length xs < fuel
    → (s' : Store) × (add_proc_to_runnables fuel p s ≡ done s') × Holds s' (xs ++ p ∷ [])
unfolding add_proc_to_runnables
add_proc_to_runnables-append fuel s p [] h (nz, free, out) f = (
  record s { list = p },
  ground (arith, contained_in_list-contains fuel s.link p s.list [] h f, not-contains p [] out),
  ground arith,
)
add_proc_to_runnables-append fuel s p (x ∷ xs) h (nz, free, out) f =
    let (last, found, inside, chain) =
      last_of-append fuel s.link s.list x xs p h out nz free (omega arith) in
    (
      record s { link = write s.link last p },
      ground (
        arith,
        contained_in_list-contains fuel s.link p s.list (x ∷ xs) h f,
        not-contains p (x ∷ xs) out,
      ),
      chain,
    )

-- If a process is queued already, and the fuel is above the length of the queue, then adding it
-- fails an assertion.
pub add_proc_to_runnables-dies :
    (fuel : ℕ) (s : Store) (p : Proc) (ys zs : List Proc)
    → Holds s (ys ++ p ∷ zs)
    → length (ys ++ p ∷ zs) < fuel
    → add_proc_to_runnables fuel p s ≡ dies
unfolding add_proc_to_runnables
add_proc_to_runnables-dies fuel s p ys zs h f = ground (
  arith,
  contained_in_list-contains fuel s.link p s.list (ys ++ p ∷ zs) h f,
  contains-append p ys zs,
)

-- From a queue that is not empty `getNextForRunning` answers the first process and leaves the others
-- in their order; the process is then in no list and has no link.
pub get_next_for_running-head :
    (fuel : ℕ) (s : Store) (x : Proc) (xs : List Proc)
    → Holds s (x ∷ xs)
    → (s' : Store) × (get_next_for_running fuel s ≡ done (x, s')) × Holds s' xs × IsFree s' x xs
unfolding get_next_for_running
get_next_for_running-head fuel s x xs (e, nz, apart, c) = (
  record { list = s.link x; link = write s.link x 0 },
  ground arith,
  IsChain-write s.link x 0 (s.link x) xs apart c,
  (nz, ground arith, apart),
)

-- If the queue holds a process, and the fuel is above the number of processes before it, then
-- suspending it takes it out of the queue, leaves the others in their order, and clears its link.
pub suspend_process-remove :
    (fuel : ℕ) (s : Store) (ys : List Proc) (p : Proc) (zs : List Proc)
    → Holds s (ys ++ p ∷ zs)
    → length ys < fuel
    → (s' : Store) × (suspend_process fuel p s ≡ done s') × Holds s' (ys ++ zs) × (s'.link p ≡ 0)
unfolding suspend_process
suspend_process-remove fuel s [] p zs (e, nz, apart, c) f = (
  record { list = s.link p; link = write s.link p 0 },
  ground arith,
  IsChain-write s.link p 0 (s.link p) zs apart c,
  ground arith,
)
suspend_process-remove fuel s (y ∷ ys) p zs h f =
    let (node, found, before, inside, chain) =
      node_before-remove fuel s.link s.list y ys p zs h (omega arith) in
    let skipped = write s.link node (s.link (s.link node)) in
    let chain' =
      subst (λ q. IsChain (write s.link node (s.link q)) s.list (y ∷ ys ++ zs)) (sym before)
        chain in
    let (nz, out) = IsChain-once s.link s.list (y ∷ ys) p zs h in
    let e₀ : (s.list == 0) ≡ false = ground arith in
    let e₁ : (s.list == p) ≡ false = ground arith in
    (
      record s { link = write skipped p 0 },
      rw (e₀, e₁, found),
      IsChain-write skipped p 0 s.list (y ∷ ys ++ zs) out chain',
      ground arith,
    )

-- A process that is not in the queue cannot be suspended.
pub suspend_process-dies :
    (fuel : ℕ) (s : Store) (p : Proc) (xs : List Proc)
    → Holds s xs
    → Outside p xs
    → p ≢ 0
    → length xs < fuel
    → suspend_process fuel p s ≡ dies
unfolding suspend_process
suspend_process-dies fuel s p [] h out nz f = ground arith
suspend_process-dies fuel s p (x ∷ xs) h out nz f =
    ground (arith, node_before-dies fuel s.link s.list x xs p h out nz)
