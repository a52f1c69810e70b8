-- ===== src/Scheduler/Calls.antt =====
-- What each call of the scheduler leaves.
use tang_ping_os.Prelude.{
  ℕ, zero, suc, ◌<◌, ◌≡◌, refl, inl, inr, none, some, true, false, ◌||◌, [], ◌∷◌, ◌++◌, Text,
  length, length-append, get_or, get_or-append, ltb, leb, ◌==◌, Bool-cases, Option-cases, arith,
  add64,
}
use tang_ping_os.Fd.{FdTable}
use tang_ping_os.Fd
use tang_ping_os.Scheduler.{
  Sched, Task, Current, Frame, UserImage, waiting_input, null, boot, user, zero_task, task_at,
  set_task, max_tasks, leave, end_task, exit_current, fault_current, yield_current, sleep_current,
  wait_current_for_input, release_task_resources, with_status, with_wake, max_pending_stack_free,
  create_task, create_user_task, add_task, new_task, set_current_brk, on_fds, init,
}
use tang_ping_os.Scheduler.Choice.{RunsOk}
use tang_ping_os.Scheduler.States.{Keeps-refl, IsValid, Good, leave_lem}
use tang_ping_os.Scheduler.Steps.{set-Minor, Good-trans}

release-Good :
    (kernel_cr3 : ℕ) (s s' : Sched) (i : ℕ)
    → IsValid s
    → release_task_resources kernel_cr3 s i ≡ some s'
    → Good s s'
unfolding release_task_resources
release-Good kernel_cr3 s s' i v e =
    let t : Task = task_at s i in
    elim (Bool-cases t.resources_released) [
      | inl before ↦ let put : s ≡ s' = ground arith in rw (← put) (v, Keeps-refl s.tasks)
      | inr first ↦ elim (Bool-cases (t.cr3 == 0 || t.cr3 == kernel_cr3)) [
        | inl kernel ↦
            let t1 : Task = record t { resources_released = true } in
            let put : set_task s (user i) t1 ≡ s' = ground arith in
            rw (← put) (set-Minor s i t1 v (record { state = refl; pid = refl; status = refl }))
        | inr own ↦
            let t1 : Task = record t {
              fds = Fd.reset_all t.fds;
              cr3 = kernel_cr3;
              resources_released = true;
            } in
            elim (Option-cases t.stack) [
              | inl bare ↦
                  let put : set_task s (user i) t1 ≡ s' = ground arith in
                  rw (← put)
                    (set-Minor s i t1 v (record { state = refl; pid = refl; status = refl }))
              | inr (stack, has) ↦
                  elim (Bool-cases (leb max_pending_stack_free (length s.pending))) [
                    | inl full ↦ ground arith
                    | inr room ↦
                        let t2 : Task = record t1 {
                          stack = none;
                          kernel_stack_top = 0;
                          frame = 0;
                        } in
                        let s2 : Sched = set_task s (user i) t2 in
                        let put : record s2 { pending = stack ∷ s.pending } ≡ s' = ground arith in
                        let p =
                          set-Minor s i t2 v (record { state = refl; pid = refl; status = refl }) in
                        rw (← put) (record { indexed = p.0.indexed; runs = p.0.runs }, p.1)
                  ]
            ]
      ]
    ]

end_task-Good :
    (kernel_cr3 : ℕ) (s s' : Sched) (i frame status next : ℕ)
    → IsValid s
    → RunsOk s.tasks (user i)
    → end_task kernel_cr3 s i frame status ≡ some (next, s')
    → Good s s'
unfolding end_task
end_task-Good kernel_cr3 s s' i frame status next v r e =
    let s1 : Sched = (leave s i frame (with_status status)).1 in
    elim (Option-cases (release_task_resources kernel_cr3 s1 i)) [
      | inl panic ↦ ground arith
      | inr (s2, done) ↦
          let same : s2 ≡ s' = ground arith in
          rw (← same) (
            Good-trans s s1 s2 (leave_lem s i frame (with_status status) v.indexed r (λ t. refl))
              (λ v1. release-Good kernel_cr3 s1 s2 i v1 done))
    ]

-- A task that is added at the end.
add-Good : (s : Sched) (t : Task) → length s.tasks < max_tasks → IsValid s → Good s (add_task s t)
add-Good s t room v = (
  record {
    indexed =
        let size = length-append s.tasks (t ∷ []) in
        (
          omega (arith, size),
          λ h. by_size (length s.tasks) refl,
          λ z. absurd (omega (arith, size)),
        );
    runs = still s.current v.runs;
  },
  (omega (arith, length-append s.tasks (t ∷ [])), λ j h. rw (old j h) (refl, λ e. (e, refl))),
)
  where
    by_size : (n : ℕ) → length s.tasks ≡ n → s.index < length (s.tasks ++ (t ∷ []))
    by_size zero e = let first = v.indexed.2 e in omega (arith, length-append s.tasks (t ∷ []))
    by_size (suc n) e =
        let inside = v.indexed.1 (omega arith) in omega (arith, length-append s.tasks (t ∷ []))

    old :
        (j : ℕ)
        → j < length s.tasks
        → get_or (s.tasks ++ (t ∷ [])) j zero_task ≡ get_or s.tasks j zero_task
    old j h = ground (arith, get_or-append s.tasks (t ∷ []) j zero_task)

    still : (c : Current) → RunsOk s.tasks c → RunsOk (s.tasks ++ (t ∷ [])) c
    still null r = tt
    still boot r = tt
    still (user j) r = (omega (arith, length-append s.tasks (t ∷ []), r.0), rw (old j r.0) r.1)

leave-Good :
    (s : Sched) (i frame : ℕ) (change : Task → Task)
    → IsValid s
    → s.current ≡ user i
    → ((t : Task) → (change t).pid ≡ t.pid)
    → Good s (leave s i frame change).1
leave-Good s i frame change v e pid =
    let runs : RunsOk s.tasks (user i) = rw e at v.runs in
    leave_lem s i frame change v.indexed runs pid

pub exit-Good :
    (kernel_cr3 : ℕ) (s s' : Sched) (frame status next : ℕ)
    → IsValid s
    → exit_current kernel_cr3 s frame status ≡ some (next, s')
    → Good s s'
unfolding exit_current
exit-Good kernel_cr3 s s' frame status next v e = by_current s.current refl
  where
    by_current : (c : Current) → s.current ≡ c → Good s s'
    by_current null at = let same : s ≡ s' = ground arith in rw (← same) (v, Keeps-refl s.tasks)
    by_current boot at = let same : s ≡ s' = ground arith in rw (← same) (v, Keeps-refl s.tasks)
    by_current (user i) at =
        let runs : RunsOk s.tasks (user i) = rw at at v.runs in
        end_task-Good kernel_cr3 s s' i frame status next v runs (ground arith)

pub fault-Good :
    (kernel_cr3 : ℕ) (s s' : Sched) (frame vector next : ℕ)
    → IsValid s
    → fault_current kernel_cr3 s frame vector ≡ some (next, s')
    → Good s s'
unfolding fault_current
fault-Good kernel_cr3 s s' frame vector next v e = by_current s.current refl
  where
    by_current : (c : Current) → s.current ≡ c → Good s s'
    by_current null at = ground arith
    by_current boot at = ground arith
    by_current (user i) at =
        let runs : RunsOk s.tasks (user i) = rw at at v.runs in
        end_task-Good kernel_cr3 s s' i frame (add64 128 vector) next v runs (ground arith)

pub yield-Good : (s : Sched) (frame : ℕ) → IsValid s → Good s (yield_current s frame).1
unfolding yield_current
yield-Good s frame v = by_current s.current refl
  where
    by_current : (c : Current) → s.current ≡ c → Good s (yield_current s frame).1
    by_current null at = rw (yield_current, at) (v, Keeps-refl s.tasks)
    by_current boot at = rw (yield_current, at) (v, Keeps-refl s.tasks)
    by_current (user i) at = rw (yield_current, at) (leave-Good s i frame (λ t. t) v at (λ t. refl))

pub sleep-Good : (s : Sched) (frame ticks : ℕ) → IsValid s → Good s (sleep_current s frame ticks).1
unfolding sleep_current
sleep-Good s frame ticks v = elim (Bool-cases (ticks == 0)) [
  | inl none_given ↦ rw none_given (yield-Good s frame v)
  | inr some_given ↦ by_current some_given s.current refl
]
  where
    by_current :
        (ticks == 0) ≡ false
        → (c : Current) → s.current ≡ c
        → Good s (sleep_current s frame ticks).1
    by_current z null at = rw (sleep_current, z, at) (v, Keeps-refl s.tasks)
    by_current z boot at = rw (sleep_current, z, at) (v, Keeps-refl s.tasks)
    by_current z (user i) at =
        rw (sleep_current, z, at)
          (leave-Good s i frame (with_wake (add64 s.tick_count ticks)) v at (λ t. refl))

pub wait-Good : (s : Sched) (frame : ℕ) → IsValid s → Good s (wait_current_for_input s frame).1
unfolding wait_current_for_input
wait-Good s frame v = by_current s.current refl
  where
    by_current : (c : Current) → s.current ≡ c → Good s (wait_current_for_input s frame).1
    by_current null at = rw (wait_current_for_input, at) (v, Keeps-refl s.tasks)
    by_current boot at = rw (wait_current_for_input, at) (v, Keeps-refl s.tasks)
    by_current (user i) at =
        rw (wait_current_for_input, at)
          (leave-Good s i frame (λ t. record t { state = waiting_input }) v at (λ t. refl))

pub create-Good :
    (s s' : Sched) (name : Text) (entry arg kernel_cr3 trampoline stack : ℕ) (f : Frame)
    → IsValid s
    → create_task s name entry arg kernel_cr3 trampoline stack ≡ some (f, s')
    → Good s s'
unfolding create_task
create-Good s s' name entry arg kernel_cr3 trampoline stack f v e =
    elim (Bool-cases (leb max_tasks (length s.tasks))) [
      | inl full ↦ ground arith
      | inr room ↦
          let t : Task = new_task s name kernel_cr3 stack in
          let same : add_task s t ≡ s' = ground arith in rw (← same) (add-Good s t (ground arith) v)
    ]

pub create_user-Good :
    (s s' : Sched) (name : Text) (image : UserImage) (stack : ℕ) (f : Frame)
    → IsValid s
    → create_user_task s name image stack ≡ some (f, s')
    → Good s s'
unfolding create_user_task
create_user-Good s s' name image stack f v e = elim (Bool-cases (leb max_tasks (length s.tasks))) [
  | inl full ↦ ground arith
  | inr room ↦
      let t : Task = record (new_task s name image.cr3 stack) {
        brk_start = image.brk_start;
        brk_current = image.brk_start;
        brk_limit = image.brk_limit;
      } in
      let same : add_task s t ≡ s' = ground arith in rw (← same) (add-Good s t (ground arith) v)
]

pub set_brk-Good : (s : Sched) (new : ℕ) → IsValid s → Good s (set_current_brk s new).2
unfolding set_current_brk
set_brk-Good s new v = by_current s.current refl
  where
    by_current : (c : Current) → s.current ≡ c → Good s (set_current_brk s new).2
    by_current null at = rw (set_current_brk, at) (v, Keeps-refl s.tasks)
    by_current boot at = rw (set_current_brk, at) (v, Keeps-refl s.tasks)
    by_current (user i) at = elim (Bool-cases (new == 0)) [
      | inl asks ↦ rw (set_current_brk, at, asks) (v, Keeps-refl s.tasks)
      | inr moves ↦
          elim (Bool-cases (ltb new (task_at s i).brk_start || ltb (task_at s i).brk_limit new)) [
            | inl outside ↦ rw (set_current_brk, at, moves, outside) (v, Keeps-refl s.tasks)
            | inr inside ↦
                rw (set_current_brk, at, moves, inside)
                  (set-Minor s i (record (task_at s i) { brk_current = new }) v
                    (record { state = refl; pid = refl; status = refl }))
          ]
    ]

pub on_fds-Good :
    {A : Type 0} (s : Sched) (fail : A) (call : FdTable → A × FdTable)
    → IsValid s
    → Good s (on_fds s fail call).1
unfolding on_fds
on_fds-Good s fail call v = by_current s.current refl
  where
    by_current : (c : Current) → s.current ≡ c → Good s (on_fds s fail call).1
    by_current null at = rw (on_fds, at) (v, Keeps-refl s.tasks)
    by_current boot at = rw (on_fds, at) (v, Keeps-refl s.tasks)
    by_current (user i) at =
        rw (on_fds, at)
          (set-Minor s i (record (task_at s i) { fds = (call (task_at s i).fds).1 }) v
            (record { state = refl; pid = refl; status = refl }))

pub init-IsValid : (s : Sched) → IsValid (init s)
unfolding init
init-IsValid s = record { indexed = (omega arith, λ h. absurd (omega arith), λ z. refl); runs = tt }
