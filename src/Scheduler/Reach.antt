-- ===== src/Scheduler/Reach.antt =====
-- Every call of the scheduler, as a step between states, and what all of them keep.
use tang_ping_os.Prelude.{ℕ, ◌≡◌, some, Text}
use tang_ping_os.Fd.{FdTable}
use tang_ping_os.Scheduler.{
  Sched, Frame, UserImage, exit_current, fault_current, yield_current, sleep_current,
  wait_current_for_input, wake_waiter, wake_input_waiters, on_timer_tick, create_task,
  create_user_task, set_current_brk, on_fds, init,
}
use tang_ping_os.Scheduler.States.{Keeps, Keeps-refl, IsValid, Good}
use tang_ping_os.Scheduler.Steps.{map-Good, wake_waiter-Wakes, on_timer_tick-Good, Good-trans}
use tang_ping_os.Scheduler.Calls.{
  exit-Good, fault-Good, yield-Good, sleep-Good, wait-Good, create-Good, create_user-Good,
  set_brk-Good, on_fds-Good, init-IsValid,
}

-- One call of the scheduler. A call that panics makes no step.
pub data Step : Sched → Sched → Type 1 where
  timer : {s : Sched} (frame cr3 : ℕ) → Step s (on_timer_tick s frame cr3).1
  exits :
      {s s' : Sched} (kernel_cr3 frame status next : ℕ)
      → exit_current kernel_cr3 s frame status ≡ some (next, s')
      → Step s s'
  faults :
      {s s' : Sched} (kernel_cr3 frame vector next : ℕ)
      → fault_current kernel_cr3 s frame vector ≡ some (next, s')
      → Step s s'
  yields : {s : Sched} (frame : ℕ) → Step s (yield_current s frame).1
  sleeps : {s : Sched} (frame ticks : ℕ) → Step s (sleep_current s frame ticks).1
  waits : {s : Sched} (frame : ℕ) → Step s (wait_current_for_input s frame).1
  wakes : {s : Sched} → Step s (wake_input_waiters s)
  creates :
      {s s' : Sched} (name : Text) (entry arg kernel_cr3 trampoline stack : ℕ) (f : Frame)
      → create_task s name entry arg kernel_cr3 trampoline stack ≡ some (f, s')
      → Step s s'
  creates_user :
      {s s' : Sched} (name : Text) (image : UserImage) (stack : ℕ) (f : Frame)
      → create_user_task s name image stack ≡ some (f, s')
      → Step s s'
  sets_brk : {s : Sched} (new : ℕ) → Step s (set_current_brk s new).2
  uses_fds :
      {A : Type 0} {s : Sched} (fail : A) (call : FdTable → A × FdTable)
      → Step s (on_fds s fail call).1

-- One call keeps the state valid and what there is to keep of every task.
Step-Good : {s s' : Sched} → Step s s' → IsValid s → Good s s'
unfolding wake_input_waiters
Step-Good {s} (timer frame cr3) v = on_timer_tick-Good s frame cr3 v
Step-Good {s} {s'} (exits k frame status next e) v = exit-Good k s s' frame status next v e
Step-Good {s} {s'} (faults k frame vector next e) v = fault-Good k s s' frame vector next v e
Step-Good {s} (yields frame) v = yield-Good s frame v
Step-Good {s} (sleeps frame ticks) v = sleep-Good s frame ticks v
Step-Good {s} (waits frame) v = wait-Good s frame v
Step-Good {s} wakes v = map-Good s wake_waiter wake_waiter-Wakes v
Step-Good {s} {s'} (creates name entry arg k tr stack f e) v =
    create-Good s s' name entry arg k tr stack f v e
Step-Good {s} {s'} (creates_user name image stack f e) v =
    create_user-Good s s' name image stack f v e
Step-Good {s} (sets_brk new) v = set_brk-Good s new v
Step-Good {s} (uses_fds fail call) v = on_fds-Good s fail call v

-- Any number of calls.
pub data Steps : Sched → Sched → Type 1 where
  done : {s : Sched} → Steps s s
  more : {a b c : Sched} → Steps a b → Step b c → Steps a c

Steps-Good : {s s' : Sched} → Steps s s' → IsValid s → Good s s'
Steps-Good {s} done v = (v, Keeps-refl s.tasks)
Steps-Good {s} {s'} (more {b = b} before last) v =
    Good-trans s b s' (Steps-Good before v) (Step-Good last)

-- Whatever calls of the scheduler follow its initialisation, in whatever order: the table never
-- holds more than 8 tasks, and the current task is null, the boot task or a runnable task of the
-- table. From any state so reached on, no task leaves the table or changes its pid, and a task
-- that has stopped stays stopped with the exit status it has.
pub Steps-IsValid :
    (s0 s s' : Sched)
    → Steps (init s0) s
    → Steps s s'
    → IsValid s × IsValid s' × Keeps s.tasks s'.tasks
Steps-IsValid s0 s s' before after =
    let v = (Steps-Good before (init-IsValid s0)).0 in
    let (v', keeps) = Steps-Good after v in (v, v', keeps)
