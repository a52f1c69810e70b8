-- ===== src/Scheduler.antt =====
-- kernel/scheduler.c: the table of tasks, the round-robin choice of the next one, and the calls
-- that block, wake and end tasks. A pointer to a task is `Current`; a pointer to an interrupt
-- frame or a stack is its address. `none` is a kernel panic.
pub mod Choice
pub mod States
pub mod Steps
pub mod Calls
pub mod Reach
mod Tests
use mathlib.Core.Option
use tang_ping_os.Prelude.{
  ℕ, zero, suc, ◌+◌, ◌-◌, ◌*◌, ◌/◌, ◌%◌, Option, none, some, Bool, true, false, not, ◌&&◌, ◌||◌,
  List, [], ◌∷◌, ◌++◌, Text, codes, copy_limited, length, get_or, set, replicate, ltb, leb, ◌==◌,
  if◌then◌else◌, add64, map,
}
use tang_ping_os.Fd
use tang_ping_os.Fd.{FdTable}

abbrev pub max_tasks : ℕ
max_tasks = 8

abbrev pub task_stack_size : ℕ
task_stack_size = 16 * 1024

abbrev pub quantum_ticks : ℕ
quantum_ticks = 25

abbrev pub max_pending_stack_free : ℕ
max_pending_stack_free = 8

abbrev pub task_name_max : ℕ
task_name_max = 32

abbrev pub page_size : ℕ
page_size = 4096

-- `enum task_state`
pub data TaskState : Type 0 where
  runnable sleeping waiting_input stopped : TaskState

-- `struct task`
pub record Task : Type 0 where
  pub pid : ℕ
  pub name : Text
  pub stack : Option ℕ
  pub kernel_stack_top : ℕ
  pub cr3 : ℕ
  pub frame : ℕ
  pub state : TaskState
  pub brk_start : ℕ
  pub brk_current : ℕ
  pub brk_limit : ℕ
  pub wake_tick : ℕ
  pub exit_status : ℕ
  pub switches : ℕ
  pub resources_released : Bool
  pub fds : FdTable

-- `current_task`: null, the boot task, or a task of the table.
pub data Current : Type 0 where
  null boot : Current
  user : ℕ → Current

-- The static variables of scheduler.c. `tasks` holds the first `task_count` tasks.
pub record Sched : Type 0 where
  pub tasks : List Task
  pub boot_task : Task
  pub current : Current
  pub index : ℕ
  pub quantum : ℕ
  pub tick_count : ℕ
  pub next_pid : ℕ
  pub ready : Bool
  pub pending : List ℕ

abbrev pub is_runnable : Task → Bool
is_runnable t = elim t.state [ runnable ↦ true | _ ↦ false ]

abbrev pub is_stopped : Task → Bool
is_stopped t = elim t.state [ stopped ↦ true | _ ↦ false ]

-- A task of zero bytes, as `memset_local` leaves it.
abbrev pub zero_fds : FdTable
zero_fds = record {
  files = replicate Fd.max_fds (record { in_use = false; open_file_index = Fd.zero_index });
  open_files = replicate Fd.max_open_files Fd.no_open_file;
}

abbrev pub zero_task : Task
zero_task = record {
  pid = 0;
  name = [];
  stack = none;
  kernel_stack_top = 0;
  cr3 = 0;
  frame = 0;
  state = runnable;
  brk_start = 0;
  brk_current = 0;
  brk_limit = 0;
  wake_tick = 0;
  exit_status = 0;
  switches = 0;
  resources_released = false;
  fds = zero_fds;
}

abbrev pub task_at : Sched → ℕ → Task
task_at s i = get_or s.tasks i zero_task

-- `*p` and `*p = t` for a pointer to a task; the null pointer is not followed.
abbrev pub task_of : Sched → Current → Task
task_of s null = zero_task
task_of s boot = s.boot_task
task_of s (user i) = task_at s i

abbrev pub set_task : Sched → Current → Task → Sched
set_task s null t = s
set_task s boot t = record s { boot_task = t }
set_task s (user i) t = record s { tasks = set s.tasks i t }

abbrev pub same_task : Current → Current → Bool
same_task null null = true
same_task boot boot = true
same_task (user i) (user j) = i == j
same_task _ _ = false

pub init : Sched → Sched
init s = record s {
  tasks = [];
  index = 0;
  quantum = 0;
  tick_count = 0;
  current = null;
  pending = [];
  ready = true;
}

-- `align_down(value, 16)`
abbrev pub align_down_16 : ℕ → ℕ
align_down_16 value = value / 16 * 16

-- What `scheduler_create_task` writes into the new task's interrupt frame; the other registers
-- are zero.
pub record Frame : Type 0 where
  pub rip : ℕ
  pub rdi : ℕ
  pub rsi : ℕ
  pub cs : ℕ
  pub rflags : ℕ
  pub rsp : ℕ
  pub ss : ℕ

abbrev pub stack_top : ℕ → ℕ
stack_top stack = align_down_16 (stack + task_stack_size) - 8

-- `sizeof(struct interrupt_frame)`: 22 registers.
abbrev pub frame_size : ℕ
frame_size = 176

-- The part that both kinds of task creation share. `stack` is what `kmalloc` returns.
abbrev pub new_task : Sched → Text → ℕ → ℕ → Task
new_task s name cr3 stack = record zero_task {
  pid = s.next_pid;
  name = copy_limited task_name_max name;
  stack = some stack;
  state = runnable;
  cr3 = cr3;
  kernel_stack_top = stack_top stack;
  frame = stack_top stack - frame_size;
}

abbrev pub add_task : Sched → Task → Sched
add_task s t = record s { tasks = s.tasks ++ (t ∷ []); next_pid = add64 s.next_pid 1 }

-- `scheduler_create_task`; `trampoline` is the address of `task_trampoline`.
pub create_task : Sched → Text → ℕ → ℕ → ℕ → ℕ → ℕ → Option (Frame × Sched)
create_task s name entry arg kernel_cr3 trampoline stack =
    if leb max_tasks (length s.tasks)
    then none
    else some (
      record {
        rip = trampoline;
        rdi = entry;
        rsi = arg;
        cs = 0x08;
        rflags = 0x202;
        rsp = stack_top stack;
        ss = 0x10;
      },
      add_task s (new_task s name kernel_cr3 stack),
    )

-- The arguments of `scheduler_create_user_task` behind the name.
pub record UserImage : Type 0 where
  pub cr3 : ℕ
  pub entry : ℕ
  pub stack_top : ℕ
  pub arg0 : ℕ
  pub arg1 : ℕ
  pub brk_start : ℕ
  pub brk_limit : ℕ

pub create_user_task : Sched → Text → UserImage → ℕ → Option (Frame × Sched)
create_user_task s name im stack =
    if leb max_tasks (length s.tasks)
    then none
    else some (
      record {
        rip = im.entry;
        rdi = im.arg0;
        rsi = im.arg1;
        cs = 0x1b;
        rflags = 0x202;
        rsp = im.stack_top;
        ss = 0x23;
      },
      add_task s (record (new_task s name im.cr3 stack) {
        brk_start = im.brk_start;
        brk_current = im.brk_start;
        brk_limit = im.brk_limit;
      }),
    )

-- The rounds of the loop of `next_runnable_task` that are left: the choice, and the new
-- `current_task_index`.
pub next_from : ℕ → List Task → ℕ → Current × ℕ
next_from zero ts index = (boot, index)
next_from (suc left) ts index =
    let i = add64 index 1 % length ts in
    let rest = next_from left ts i in
    if is_runnable (get_or ts i zero_task) then (user i, i) else rest

pub next_runnable_task : Sched → Current × Sched
next_runnable_task s =
    if length s.tasks == 0
    then (boot, s)
    else let (c, i) = next_from (length s.tasks) s.tasks s.index in (c, record s { index = i })

pub wake_task : ℕ → Task → Task
wake_task now t = elim t.state [
  | sleeping ↦ if leb t.wake_tick now then record t { state = runnable } else t
  | _ ↦ t
]

pub wake_sleeping_tasks : Sched → Sched
wake_sleeping_tasks s = record s { tasks = map (wake_task s.tick_count) s.tasks }

pub wake_waiter : Task → Task
wake_waiter t = elim t.state [ waiting_input ↦ record t { state = runnable } | _ ↦ t ]

pub wake_input_waiters : Sched → Sched
wake_input_waiters s = record s { tasks = map wake_waiter s.tasks }

-- `cr3` is the current address space. The index is set to `task_count - 1`; the caller has checked
-- that there is a task.
pub ensure_boot_task : Sched → ℕ → ℕ → Sched
ensure_boot_task s frame cr3 = elim s.current [
  | null ↦ record s {
    boot_task = record zero_task {
      name = codes "boot";
      state = runnable;
      cr3 = cr3;
      kernel_stack_top = align_down_16 (frame + frame_size);
      frame = frame;
    };
    current = boot;
    index = length s.tasks - 1;
  }
  | _ ↦ s
]

-- The frame to return to, and the state after; the switch of the address space is the machine's.
pub switch_to_task : Sched → Current → ℕ × Sched
switch_to_task s next =
    if same_task next s.current
    then ((task_of s s.current).frame, s)
    else let t = task_of s next in
      (
        t.frame,
        record (set_task s next (record t { switches = add64 t.switches 1 })) { current = next },
      )

-- `next_runnable_task` and then `switch_to_task`, with the quantum reset before.
pub reschedule : Sched → ℕ × Sched
reschedule s =
    let (next, s') = next_runnable_task (record s { quantum = 0 }) in switch_to_task s' next

-- `release_task_resources` on a task of the table.
pub release_task_resources : ℕ → Sched → ℕ → Option Sched
release_task_resources kernel_cr3 s i =
    let t = task_at s i in
    if t.resources_released
    then some s
    else if t.cr3 == 0 || t.cr3 == kernel_cr3
    then some (set_task s (user i) (record t { resources_released = true }))
    else let t' = record t {
      fds = Fd.reset_all t.fds;
      cr3 = kernel_cr3;
      resources_released = true;
    } in
      elim t.stack [
        | none ↦ some (set_task s (user i) t')
        | some stack ↦
            if leb max_pending_stack_free (length s.pending)
            then none
            else some
                (record (set_task s (user i)
                  (record t' { stack = none; kernel_stack_top = 0; frame = 0 })) {
                    pending = stack ∷ s.pending;
                  })
      ]

-- Every pending stack is given to `kfree`.
pub reclaim_pending_stacks : Sched → Sched
reclaim_pending_stacks s = record s { pending = [] }

abbrev pub save_frame : Sched → Current → ℕ → Sched
save_frame s c frame = set_task s c (record (task_of s c) { frame = frame })

-- One tick up to the test of the quantum.
pub tick : Sched → ℕ → ℕ → Sched
tick s frame cr3 =
    let s1 = ensure_boot_task s frame cr3 in
    let s2 = record s1 { tick_count = add64 s1.tick_count 1 } in
    let s3 = wake_sleeping_tasks (reclaim_pending_stacks s2) in
    let s4 = save_frame s3 s3.current frame in record s4 { quantum = add64 s4.quantum 1 }

pub on_timer_tick : Sched → ℕ → ℕ → ℕ × Sched
on_timer_tick s frame cr3 =
    if not s.ready || length s.tasks == 0
    then (frame, s)
    else let s' = tick s frame cr3 in
      if ltb s'.quantum quantum_ticks then (frame, s') else reschedule s'

-- What ending, sleeping and waiting have in common: the task's frame is saved, the task is changed
-- and another is chosen.
pub leave : Sched → ℕ → ℕ → (Task → Task) → ℕ × Sched
leave s i frame change =
    reschedule (set_task s (user i) (change (record (task_at s i) { frame = frame })))

abbrev pub with_status : ℕ → Task → Task
with_status status t = record t { state = stopped; exit_status = status }

-- `scheduler_exit_current` without and with its guard.
pub end_task : ℕ → Sched → ℕ → ℕ → ℕ → Option (ℕ × Sched)
end_task kernel_cr3 s i frame status =
    let (next_frame, s') = leave s i frame (with_status status) in
    Option.map (λ s''. (next_frame, s'')) (release_task_resources kernel_cr3 s' i)

pub exit_current : ℕ → Sched → ℕ → ℕ → Option (ℕ × Sched)
exit_current kernel_cr3 s frame status = elim s.current [
  | user i ↦ end_task kernel_cr3 s i frame status
  | _ ↦ some (frame, s)
]

-- `scheduler_fault_current`: without a user task the kernel panics.
pub fault_current : ℕ → Sched → ℕ → ℕ → Option (ℕ × Sched)
fault_current kernel_cr3 s frame vector = elim s.current [
  | user i ↦ end_task kernel_cr3 s i frame (add64 128 vector)
  | _ ↦ none
]

pub yield_current : Sched → ℕ → ℕ × Sched
yield_current s frame = elim s.current [ user i ↦ leave s i frame (λ t. t) | _ ↦ (frame, s) ]

abbrev pub with_wake : ℕ → Task → Task
with_wake at t = record t { state = sleeping; wake_tick = at }

pub sleep_current : Sched → ℕ → ℕ → ℕ × Sched
sleep_current s frame ticks = if ticks == 0 then yield_current s frame else elim s.current [
  | user i ↦ leave s i frame (with_wake (add64 s.tick_count ticks))
  | _ ↦ (frame, s)
]

pub wait_current_for_input : Sched → ℕ → ℕ × Sched
wait_current_for_input s frame = elim s.current [
  | user i ↦ leave s i frame (λ t. record t { state = waiting_input })
  | _ ↦ (frame, s)
]

-- `align_up(value, PAGE_SIZE)`
abbrev pub align_up_page : ℕ → ℕ
align_up_page value = add64 value (page_size - 1) / page_size * page_size

-- The rounds of the loop of `scheduler_set_current_brk` from `page` on: the pages that it maps.
pub pages_from : ℕ → ℕ → List ℕ
pages_from zero page = []
pages_from (suc n) page = page ∷ pages_from n (page + page_size)

pub brk_pages : ℕ → ℕ → List ℕ
brk_pages old new =
    pages_from ((align_up_page new - align_up_page old) / page_size) (align_up_page old)

-- The break returned, the pages mapped to reach it, and the state after. A page that cannot be
-- mapped is a panic of vmm_map_page_in's caller, which is outside this model.
pub set_current_brk : Sched → ℕ → ℕ × List ℕ × Sched
set_current_brk s new = elim s.current [
  | user i ↦
      let t = task_at s i in
      if new == 0
      then (t.brk_current, [], s)
      else if ltb new t.brk_start || ltb t.brk_limit new
      then (t.brk_current, [], s)
      else (
        new,
        (if ltb t.brk_current new then brk_pages t.brk_current new else []),
        set_task s (user i) (record t { brk_current = new }),
      )
  | _ ↦ (0, [], s)
]

pub current_brk : Sched → ℕ
current_brk s = elim s.current [ user i ↦ (task_at s i).brk_current | _ ↦ 0 ]

-- A call on the descriptors of the current task: without one it returns `fail`.
pub on_fds : {A : Type 0} → Sched → A → (FdTable → A × FdTable) → A × Sched
on_fds s fail call = elim s.current [
  | user i ↦
      let t = task_at s i in
      let (a, fds') = call t.fds in (a, set_task s (user i) (record t { fds = fds' }))
  | _ ↦ (fail, s)
]

pub record TaskInfo : Type 0 where
  pub pid : ℕ
  pub state : TaskState
  pub exit_status : ℕ
  pub switches : ℕ
  pub name : Text

-- `none` is 0, past the last task.
pub task_info : Sched → ℕ → Option TaskInfo
task_info s i =
    if leb (length s.tasks) i
    then none
    else let t = task_at s i in
      some (record {
        pid = t.pid;
        state = t.state;
        exit_status = t.exit_status;
        switches = t.switches;
        name = copy_limited task_name_max t.name;
      })

pub current_pid : Sched → ℕ
current_pid s = elim s.current [ null ↦ 0 | c ↦ (task_of s c).pid ]
