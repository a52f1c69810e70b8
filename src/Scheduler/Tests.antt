-- ===== src/Scheduler/Tests.antt =====
-- A table of three tasks, one of them asleep, and the theorems on it.
use tang_ping_os.Prelude.{
  ℕ, ◌≤◌, ◌<◌, ◌≡◌, refl, ◌↔◌, true, false, [], ◌∷◌, length, arith, codes, some,
}
use tang_ping_os.Scheduler.{
  Sched, sleeping, user, boot, zero_task, next_runnable_task, Frame, stack_top, add_task, new_task,
  create_task, init, wake_input_waiters, on_timer_tick,
}
use tang_ping_os.Scheduler.States.{IsValid, Keeps}
use tang_ping_os.Scheduler.Reach.{Step, Steps, Steps-IsValid}
use tang_ping_os.Scheduler.Choice.{
  IndexOk, distance, runnable_at, after_calls, next_runnable_task_lem, next_runnable_task-boot,
  next_runnable_task_fair,
}

abbrev three : Sched
three = record {
  tasks = zero_task ∷ record zero_task { state = sleeping } ∷ zero_task ∷ [];
  boot_task = zero_task;
  current = user 0;
  index = 0;
  quantum = 3;
  tick_count = 100;
  next_pid = 4;
  ready = true;
  pending = [];
}

three-IndexOk : IndexOk three
three-IndexOk = (omega arith, λ h. omega arith, λ z. absurd (omega arith))

next_runnable_task_lem_example :
    (i : ℕ) × (next_runnable_task three ≡ (user i, record three { index = i }))
    × (i < length three.tasks)
    × (runnable_at three.tasks i ≡ true)
    × (distance (length three.tasks) three.index i ≤ distance (length three.tasks) three.index 2)
next_runnable_task_lem_example = next_runnable_task_lem three 2 three-IndexOk (omega arith) refl

next_runnable_task-boot_example :
    ((next_runnable_task three).0 ≡ boot)
    ↔ ((j : ℕ) → j < length three.tasks → runnable_at three.tasks j ≡ false)
next_runnable_task-boot_example = next_runnable_task-boot three three-IndexOk

next_runnable_task_fair_example :
    (k : ℕ) × (k < length three.tasks) × ((next_runnable_task (after_calls k three)).0 ≡ user 2)
next_runnable_task_fair_example = next_runnable_task_fair three 2 three-IndexOk (omega arith) refl

-- A task is created, a timer tick comes and a key is pressed.
abbrev idle : Frame
idle = record {
  rip = 0x1000;
  rdi = 0x2000;
  rsi = 0;
  cs = 0x08;
  rflags = 0x202;
  rsp = stack_top 0x8000;
  ss = 0x10;
}

abbrev one_task : Sched
one_task = add_task (init three) (new_task (init three) (codes "idle") 1 0x8000)

create-idle :
    create_task (init three) (codes "idle") 0x2000 0 1 0x1000 0x8000 ≡ some (idle, one_task)
unfolding create_task init
create-idle = refl

abbrev ticked : Sched
ticked = wake_input_waiters (on_timer_tick one_task 0x9000 1).1

Steps-IsValid_example : IsValid one_task × IsValid ticked × Keeps one_task.tasks ticked.tasks
Steps-IsValid_example =
    Steps-IsValid three one_task ticked
      (Steps.more Steps.done
        (Step.creates (codes "idle") 0x2000 0 1 0x1000 0x8000 idle create-idle))
      (Steps.more (Steps.more Steps.done (Step.timer 0x9000 1)) Step.wakes)
