-- ===== src/Scheduler.antt =====
-- The run queue of cmd/vm/Scheduling.cc: processes joined by their `link` fields. A process is its
-- address, 0 is nil, and the links of all processes are a store.
pub mod Chain
pub mod Queue
pub mod Interrupts
pub mod Rounds
use valutron.Prelude.{
  ℕ, zero, suc, ◌≡◌, Bool, true, false, not, Option, none, some, ◌==◌, if◌then◌else◌,
}
pub use valutron.Outcome.{Outcome, done, dies, runs_on, ◌>>=◌}

abbrev pub Proc : Type 0
Proc = ℕ

abbrev pub Links : Type 0
Links = Proc → Proc

abbrev pub write : Links → Proc → Proc → Links
write link p q r = if r == p then q else link r

-- The head of a list and the links.
pub record Store : Type 0 where
  pub link : Links
  pub list : Proc

-- `while (!last->link.isNil ()) last = last->link`.
unfoldable pub last_of : ℕ → Links → Proc → Outcome Proc
last_of zero link last = runs_on
last_of (suc fuel) link last =
    let rest = last_of fuel link (link last) in if link last == 0 then done last else rest

unfoldable pub add_to_list_last : ℕ → Proc → Store → Outcome Store
unfolding last_of
add_to_list_last fuel obj s =
    if s.list == 0
    then done (record s { list = obj })
    else (do last ← last_of fuel s.link s.list; done (record s { link = write s.link last obj }))

-- The search for the node before `obj`; the assertion fails at the end of the list.
unfoldable pub node_before : ℕ → Links → Proc → Proc → Outcome Proc
node_before zero link obj node = runs_on
node_before (suc fuel) link obj node =
    let rest = node_before fuel link obj (link node) in
    if link node == obj then done node else if link node == 0 then dies else rest

-- The nil list has no `link` to read.
unfoldable pub remove_from_list : ℕ → Proc → Store → Outcome Store
unfolding node_before
remove_from_list fuel obj s =
    if s.list == 0
    then dies
    else if s.list == obj
    then done (record { list = s.link obj; link = write s.link obj 0 })
    else (do
      node ← node_before fuel s.link obj s.list
      let link = write s.link node (s.link (s.link node))
      done (record s { link = write link obj 0 }))

unfoldable pub contained_in_list : ℕ → Links → Proc → Proc → Outcome Bool
contained_in_list zero link obj node = runs_on
contained_in_list (suc fuel) link obj node =
    let rest = contained_in_list fuel link obj (link node) in
    if node == 0 then done false else if node == obj then done true else rest

-- `SchedulerOopDesc::addProcToRunnables`, with its two assertions.
unfoldable pub add_proc_to_runnables : ℕ → Proc → Store → Outcome Store
unfolding contained_in_list add_to_list_last
add_proc_to_runnables fuel proc s = if not (s.link proc == 0) then dies else (do
  found ← contained_in_list fuel s.link proc s.list
  if found then dies else add_to_list_last fuel proc s)

unfoldable pub suspend_process : ℕ → Proc → Store → Outcome Store
unfolding remove_from_list
suspend_process fuel proc s = remove_from_list fuel proc s

-- `getNextForRunning`: nil if nothing is runnable.
unfoldable pub get_next_for_running : ℕ → Store → Outcome (Proc × Store)
unfolding remove_from_list
get_next_for_running fuel s =
    if s.list == 0 then done (0, s) else (do s' ← remove_from_list fuel s.list s; done (s.list, s'))
