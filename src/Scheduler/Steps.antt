-- ===== src/Scheduler/Steps.antt =====
-- The calls of the scheduler as steps, and what every sequence of them keeps.
use tang_ping_os.Prelude.{
  ℕ, zero, suc, ◌<◌, ◌≡◌, refl, ◌∙◌, inl, inr, ◌⊎◌, Bool, true, false, not, ◌||◌, List, [], ◌∷◌,
  map, length, length-set, get_or, get_or-set, get_or-set_ne, set, ltb, ◌==◌, Bool-cases, arith,
  add64, ap,
}
use tang_ping_os.Scheduler.{
  Sched, Task, TaskState, Current, runnable, sleeping, waiting_input, stopped, null, boot, user,
  is_runnable, zero_task, task_at, set_task, wake_task, wake_waiter, wake_sleeping_tasks, tick,
  on_timer_tick, ensure_boot_task, reclaim_pending_stacks, save_frame, reschedule, quantum_ticks,
}
use tang_ping_os.Scheduler.Choice.{runnable_at, RunsOk}
use tang_ping_os.Scheduler.States.{
  KeepsTask, Keeps-refl, Keeps-trans, Keeps-set, IsValid, Good, reschedule_lem,
}

-- A change of one task that leaves its state, pid and status alone.
pub record Minor (t t' : Task) : Type 0 where
  pub state : t'.state ≡ t.state
  pub pid : t'.pid ≡ t.pid
  pub status : t'.exit_status ≡ t.exit_status

pub set-Minor :
    (s : Sched) (i : ℕ) (t : Task)
    → IsValid s
    → Minor (task_at s i) t
    → Good s (set_task s (user i) t)
set-Minor s i t v m = (
  record {
    indexed =
        let size = length-set s.tasks i t in
        (
          omega (arith, size, v.indexed.0),
          λ h. omega (arith, size, v.indexed.1),
          λ z. v.indexed.2 (omega (arith, size)),
        );
    runs = still s.current v.runs;
  },
  Keeps-set s.tasks i t (m.pid, λ e. (ap stops m.state ∙ e, m.status)),
)
  where
    stops : TaskState → Bool
    stops x = elim x [ stopped ↦ true | _ ↦ false ]

    runs_state : TaskState → Bool
    runs_state x = elim x [ runnable ↦ true | _ ↦ false ]

    still : (c : Current) → RunsOk s.tasks c → RunsOk (set s.tasks i t) c
    still null r = tt
    still boot r = tt
    still (user j) r = (
      omega (arith, length-set s.tasks i t, r.0),
      elim (Bool-cases (i == j)) [
        | inl here ↦
            let at : i ≡ j = ground arith in
            let lt : i < length s.tasks = omega (arith, at, r.0) in
            let got : get_or (set s.tasks i t) i zero_task ≡ t =
              ground (arith, get_or-set s.tasks i i t zero_task) in
            let was : runnable_at s.tasks i ≡ true = rw at r.1 in
            rw (← at, got) (ap runs_state m.state ∙ was)
        | inr there ↦ rw (get_or-set_ne s.tasks i j t zero_task there) r.1
      ],
    )

state_cases :
    (x : TaskState) → (x ≡ runnable) ⊎ ((x ≡ sleeping) ⊎ ((x ≡ waiting_input) ⊎ (x ≡ stopped)))
state_cases runnable = inl refl
state_cases sleeping = inr (inl refl)
state_cases waiting_input = inr (inr (inl refl))
state_cases stopped = inr (inr (inr refl))

-- A change that wakes tasks at most.
abbrev Wakes : (Task → Task) → Type 0
Wakes f = (t : Task) → (is_runnable t ≡ true → is_runnable (f t) ≡ true) × KeepsTask t (f t)

wake_task-Wakes : (now : ℕ) → Wakes (wake_task now)
unfolding wake_task
wake_task-Wakes now t = elim (state_cases t.state) [
  | inl e ↦ ground arith
  | inr (inl e) ↦ ground arith
  | inr (inr (inl e)) ↦ ground arith
  | inr (inr (inr e)) ↦ ground arith
]

pub wake_waiter-Wakes : Wakes wake_waiter
unfolding wake_waiter
wake_waiter-Wakes t = elim (state_cases t.state) [
  | inl e ↦ ground arith
  | inr (inl e) ↦ ground arith
  | inr (inr (inl e)) ↦ ground arith
  | inr (inr (inr e)) ↦ ground arith
]

length-map : (f : Task → Task) (ts : List Task) → length (map f ts) ≡ length ts
length-map f [] = refl
length-map f (t ∷ ts) = ap suc (length-map f ts)

get_or-map :
    (f : Task → Task) (ts : List Task) (j : ℕ)
    → j < length ts
    → get_or (map f ts) j zero_task ≡ f (get_or ts j zero_task)
get_or-map f [] j h = absurd (omega arith)
get_or-map f (t ∷ ts) zero h = refl
get_or-map f (t ∷ ts) (suc j) h = get_or-map f ts j (omega arith)

pub map-Good :
    (s : Sched) (f : Task → Task)
    → Wakes f
    → IsValid s
    → Good s (record s { tasks = map f s.tasks })
map-Good s f w v = (
  record {
    indexed =
        let size = length-map f s.tasks in
        (
          omega (arith, size, v.indexed.0),
          λ h. omega (arith, size, v.indexed.1),
          λ z. v.indexed.2 (omega (arith, size)),
        );
    runs = still s.current v.runs;
  },
  (
    omega (arith, length-map f s.tasks),
    λ j h. rw (get_or-map f s.tasks j h) (w (get_or s.tasks j zero_task)).1,
  ),
)
  where
    still : (c : Current) → RunsOk s.tasks c → RunsOk (map f s.tasks) c
    still null r = tt
    still boot r = tt
    still (user j) r = (
      omega (arith, length-map f s.tasks, r.0),
      rw (get_or-map f s.tasks j r.0) ((w (get_or s.tasks j zero_task)).0 r.1),
    )

ensure_boot-Good : (s : Sched) (frame cr3 : ℕ) → IsValid s → Good s (ensure_boot_task s frame cr3)
unfolding ensure_boot_task
ensure_boot-Good s frame cr3 v = by_current s.current refl
  where
    by_current : (c : Current) → s.current ≡ c → Good s (ensure_boot_task s frame cr3)
    by_current null e =
        rw (ensure_boot_task, e)
          (
            record { indexed = (v.indexed.0, λ h. omega arith, λ z. omega arith); runs = tt },
            Keeps-refl s.tasks,
          )
    by_current boot e = rw (ensure_boot_task, e) (v, Keeps-refl s.tasks)
    by_current (user i) e = rw (ensure_boot_task, e) (v, Keeps-refl s.tasks)

save_frame-Good : (s : Sched) (c : Current) (frame : ℕ) → IsValid s → Good s (save_frame s c frame)
save_frame-Good s null frame v = (v, Keeps-refl s.tasks)
save_frame-Good s boot frame v = (record { indexed = v.indexed; runs = v.runs }, Keeps-refl s.tasks)
save_frame-Good s (user i) frame v =
    set-Minor s i (record (task_at s i) { frame = frame }) v
      (record { state = refl; pid = refl; status = refl })

pub Good-trans : (a b c : Sched) → Good a b → (IsValid b → Good b c) → Good a c
Good-trans a b c p q = let r = q p.0 in (r.0, Keeps-trans a.tasks b.tasks c.tasks p.1 r.1)

tick-Good : (s : Sched) (frame cr3 : ℕ) → IsValid s → Good s (tick s frame cr3)
unfolding tick wake_sleeping_tasks reclaim_pending_stacks
tick-Good s frame cr3 v =
    let s1 : Sched = ensure_boot_task s frame cr3 in
    let s2 : Sched = record s1 { tick_count = add64 s1.tick_count 1; pending = [] } in
    let s3 : Sched = record s2 { tasks = map (wake_task s2.tick_count) s2.tasks } in
    let s4 : Sched = save_frame s3 s3.current frame in
    let p1 = ensure_boot-Good s frame cr3 v in
    let v2 : IsValid s2 = record { indexed = p1.0.indexed; runs = p1.0.runs } in
    let p3 = map-Good s2 (wake_task s2.tick_count) (wake_task-Wakes s2.tick_count) v2 in
    let p4 = save_frame-Good s3 s3.current frame p3.0 in
    (
      record { indexed = p4.0.indexed; runs = p4.0.runs },
      Keeps-trans s.tasks s1.tasks s4.tasks p1.1 (Keeps-trans s1.tasks s3.tasks s4.tasks p3.1 p4.1),
    )

pub on_timer_tick-Good :
    (s : Sched) (frame cr3 : ℕ) → IsValid s → Good s (on_timer_tick s frame cr3).1
unfolding on_timer_tick
on_timer_tick-Good s frame cr3 v = elim (Bool-cases (not s.ready || length s.tasks == 0)) [
  | inl idle ↦ rw idle (v, Keeps-refl s.tasks)
  | inr busy ↦
      let s' : Sched = tick s frame cr3 in
      let p = tick-Good s frame cr3 v in
      elim (Bool-cases (ltb s'.quantum quantum_ticks)) [
        | inl early ↦ rw (busy, early) p
        | inr due ↦
            rw (busy, due)
              (Good-trans s s' (reschedule s').1 p (λ v'. reschedule_lem s' v'.indexed))
      ]
]
