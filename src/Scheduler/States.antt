-- ===== src/Scheduler/States.antt =====
-- The states of tasks: the current task is runnable, and a task that has stopped stays so.
use tang_ping_os.Prelude.{
  ℕ, ◌≤◌, ◌<◌, ◌≡◌, refl, ◌∙◌, inl, inr, true, false, List, length, length-set, get_or, get_or-set,
  get_or-set_ne, set, ◌==◌, Bool-cases, arith, add64,
}
use tang_ping_os.Scheduler.{
  Sched, Task, TaskState, Current, runnable, sleeping, waiting_input, stopped, null, boot, user,
  is_runnable, is_stopped, zero_task, task_at, set_task, task_of, same_task, next_runnable_task,
  switch_to_task, reschedule, leave,
}
use tang_ping_os.Scheduler.Choice.{IndexOk, next_runnable_task-RunsOk, RunsOk}

-- What no call takes back of a task: its pid, and that it stopped with a status.
abbrev pub KeepsTask : Task → Task → Type 0
KeepsTask t t' =
    (t'.pid ≡ t.pid)
    × (is_stopped t ≡ true → (is_stopped t' ≡ true) × (t'.exit_status ≡ t.exit_status))

abbrev pub Keeps : List Task → List Task → Type 0
Keeps ts ts' =
    (length ts ≤ length ts')
    × ((j : ℕ) → j < length ts → KeepsTask (get_or ts j zero_task) (get_or ts' j zero_task))

pub Keeps-refl : (ts : List Task) → Keeps ts ts
Keeps-refl ts = (omega arith, λ j h. (refl, λ e. (e, refl)))

pub Keeps-trans : (a b c : List Task) → Keeps a b → Keeps b c → Keeps a c
Keeps-trans a b c p q = (
  omega (arith, p.0, q.0),
  λ j h.
      let (pid, stop) = p.1 j h in
      let (pid', stop') = q.1 j (omega (arith, p.0)) in
      (
        pid' ∙ pid,
        λ e. let (e', status) = stop e in let (e'', status') = stop' e' in (e'', status' ∙ status),
      ),
)

-- A change of one task that keeps what there is to keep of it.
pub Keeps-set :
    (ts : List Task) (i : ℕ) (t : Task)
    → KeepsTask (get_or ts i zero_task) t
    → Keeps ts (set ts i t)
Keeps-set ts i t k = (
  omega (arith, length-set ts i t),
  λ j h. elim (Bool-cases (i == j)) [
    | inl here ↦
        let at : i ≡ j = ground arith in
        let got : get_or (set ts i t) j zero_task ≡ t =
          ground (arith, get_or-set ts i j t zero_task) in
        rw (got, ← at) k
    | inr there ↦
        let got : get_or (set ts i t) j zero_task ≡ get_or ts j zero_task =
          get_or-set_ne ts i j t zero_task there in
        rw got (refl, λ e. (e, refl))
  ],
)

-- The current task is null, the boot task, or a runnable task of the table.
pub record IsValid (s : Sched) : Type 0 where
  pub indexed : IndexOk s
  pub runs : RunsOk s.tasks s.current

-- What a call leaves: a valid state that keeps what there is to keep.
abbrev pub Good : Sched → Sched → Type 0
Good s s' = IsValid s' × Keeps s.tasks s'.tasks

-- Counting a switch changes neither the states nor what is kept.
switch_to_task_lem :
    (s : Sched) (next : Current)
    → IndexOk s
    → RunsOk s.tasks next
    → Good s (switch_to_task s next).1
unfolding switch_to_task
switch_to_task_lem s next ok r = elim (Bool-cases (same_task next s.current)) [
  | inl same ↦
      rw same
        (record { indexed = ok; runs = same_RunsOk next s.current same r }, Keeps-refl s.tasks)
  | inr other ↦ rw other (moved next r)
]
  where
    same_RunsOk : (c d : Current) → same_task c d ≡ true → RunsOk s.tasks c → RunsOk s.tasks d
    same_RunsOk null null e r = tt
    same_RunsOk boot boot e r = tt
    same_RunsOk (user i) (user j) e r = let at : i ≡ j = ground arith in rw (← at) r
    same_RunsOk null boot e r = tt
    same_RunsOk null (user j) e r = ground arith
    same_RunsOk boot null e r = tt
    same_RunsOk boot (user j) e r = ground arith
    same_RunsOk (user i) null e r = tt
    same_RunsOk (user i) boot e r = tt

    moved :
        (next : Current)
        → RunsOk s.tasks next
        → Good s
            (record (set_task s next
              (record (task_of s next) { switches = add64 (task_of s next).switches 1 })) {
                current = next;
              })
    moved null r = (record { indexed = ok; runs = tt }, Keeps-refl s.tasks)
    moved boot r = (record { indexed = ok; runs = tt }, Keeps-refl s.tasks)
    moved (user i) r =
        let t : Task = record (task_at s i) { switches = add64 (task_at s i).switches 1 } in
        let size = length-set s.tasks i t in
        let got : get_or (set s.tasks i t) i zero_task ≡ t =
          ground (arith, get_or-set s.tasks i i t zero_task) in
        (
          record {
            indexed = (
              omega (arith, size, ok.0),
              λ h. omega (arith, size, ok.1),
              λ z. absurd (omega (arith, size, r.0)),
            );
            runs = (omega (arith, size), rw got r.1);
          },
          Keeps-set s.tasks i t (refl, λ e. (e, refl)),
        )

-- The choice of a task makes a valid state, whatever became of the current task.
pub reschedule_lem : (s : Sched) → IndexOk s → Good s (reschedule s).1
unfolding reschedule
reschedule_lem s ok =
    let s0 : Sched = record s { quantum = 0 } in
    let (i, same, indexed, runs) = next_runnable_task-RunsOk s0 ok in
    let tasks : (next_runnable_task s0).1.tasks ≡ s.tasks = rw same refl in
    rw tasks at (
      switch_to_task_lem (next_runnable_task s0).1 (next_runnable_task s0).0 indexed
        (rw tasks runs))

state_not_stopped :
    (x : TaskState)
    → elim x [ runnable ↦ true | _ ↦ false ] ≡ true
    → elim x [ stopped ↦ true | _ ↦ false ] ≡ false
state_not_stopped runnable e = refl
state_not_stopped sleeping e = refl
state_not_stopped waiting_input e = refl
state_not_stopped stopped e = cc

pub runnable_not_stopped : (t : Task) → is_runnable t ≡ true → is_stopped t ≡ false
runnable_not_stopped t e = state_not_stopped t.state e

-- The current task is changed and another one chosen; of a running task only the pid is kept.
pub leave_lem :
    (s : Sched) (i frame : ℕ) (change : Task → Task)
    → IndexOk s
    → RunsOk s.tasks (user i)
    → ((t : Task) → (change t).pid ≡ t.pid)
    → Good s (leave s i frame change).1
unfolding leave
leave_lem s i frame change ok r pid =
    let t : Task = change (record (task_at s i) { frame = frame }) in
    let s' : Sched = set_task s (user i) t in
    let size = length-set s.tasks i t in
    let running = r.1 in
    let not_stopped : is_stopped (task_at s i) ≡ false =
      runnable_not_stopped (task_at s i) running in
    let kept = Keeps-set s.tasks i t (pid (record (task_at s i) { frame = frame }), λ e. cc) in
    let (valid, keeps) = reschedule_lem s' (
      omega (arith, size, ok.0),
      λ h. omega (arith, size, ok.1),
      λ z. absurd (omega (arith, size, r.0)),
    ) in
    (valid, Keeps-trans s.tasks s'.tasks (reschedule s').1.tasks kept keeps)
