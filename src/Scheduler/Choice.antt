-- ===== src/Scheduler/Choice.antt =====
-- The choice of the next task is round robin.
use tang_ping_os.Prelude.{
  ℕ, zero, suc, ◌+◌, ◌-◌, ◌%◌, ◌≤◌, ◌<◌, ◌≡◌, refl, ◌≢◌, ◌↔◌, inl, inr, Bool, true, false, List,
  length, get_or, if◌then◌else◌, ◌==◌, ltb, arith, ap, ◌∙◌, Bool-cases, add64,
}
use native.Mathlib.Nat.{mod-eq_of_lt, mod-eq-sub-mod}
use tang_ping_os.Scheduler.{
  Task, Current, boot, user, null, Sched, is_runnable, zero_task, next_from, next_runnable_task,
  max_tasks,
}

-- How many tasks a round from `index` on passes before it comes to `j`.
abbrev pub distance : ℕ → ℕ → ℕ → ℕ
distance n index j = if ltb index j then j - index - 1 else j + n - index - 1

abbrev pub runnable_at : List Task → ℕ → Bool
runnable_at ts i = is_runnable (get_or ts i zero_task)

next_index :
    (n index : ℕ)
    → index < n
    → n ≤ max_tasks
    → add64 index 1 % n ≡ (if index + 1 == n then 0 else index + 1)
next_index n index h small = elim (Bool-cases (index + 1 == n)) [
  | inl last ↦
      let e : index + 1 ≡ n = ground arith in
      ground (arith, mod-eq-sub-mod {n = index + 1} {m = n}, mod-eq_of_lt {n = 0} {m = n})
  | inr more ↦ ground (arith, mod-eq_of_lt {n = index + 1} {m = n})
]

-- One step round the table brings every task but the one reached nearer by one.
step_distance :
    (n index i k : ℕ)
    → index < n
    → k < n
    → i ≡ (if index + 1 == n then 0 else index + 1)
    → (i < n) × (distance n index i ≡ 0) × (k ≢ i → distance n i k + 1 ≡ distance n index k)
step_distance n index i k h hk e = (ground arith, ground arith, λ ne. ground arith)

-- The first runnable task after the index is found.
next_from-first :
    (left : ℕ) (ts : List Task) (index j : ℕ)
    → index < length ts
    → length ts ≤ max_tasks
    → j < length ts
    → runnable_at ts j ≡ true
    → distance (length ts) index j < left
    → (i : ℕ) × (next_from left ts index ≡ (user i, i))
      × (i < length ts)
      × (runnable_at ts i ≡ true)
      × (distance (length ts) index i ≤ distance (length ts) index j)
unfolding next_from
next_from-first zero ts index j h small hj r d = absurd (omega arith)
next_from-first (suc left) ts index j h small hj r d =
    let e = next_index (length ts) index h small in
    let i' : ℕ = add64 index 1 % length ts in
    let (lt, here, nearer) = step_distance (length ts) index i' j h hj e in
    elim (Bool-cases (runnable_at ts i')) [
      | inl now ↦ (i', rw now refl, lt, now, omega (arith, here))
      | inr later ↦
          let apart : j ≢ i' = λ same. let r' : runnable_at ts i' ≡ true = rw (← same) r in cc in
          let near = nearer apart in
          let (i, found, hi, ri, le) =
            next_from-first left ts i' j lt small hj r (omega (arith, near)) in
          let apart_i : i ≢ i' = λ same. let r' : runnable_at ts i' ≡ true = rw (← same) ri in cc in
          let near_i = (step_distance (length ts) index i' i h hi e).2 apart_i in
          (i, rw later found, hi, ri, omega (arith, le, near, near_i))
    ]

-- What is found is a runnable task of the table.
next_from_sound :
    (left : ℕ) (ts : List Task) (index i : ℕ)
    → 0 < length ts
    → (next_from left ts index).0 ≡ user i
    → (i < length ts) × (runnable_at ts i ≡ true)
unfolding next_from
next_from_sound zero ts index i h e = cc
next_from_sound (suc left) ts index i h e =
    let i' : ℕ = add64 index 1 % length ts in
    let lt : i' < length ts = omega arith in ground (arith, next_from_sound left ts i' i)

next_from-not_null : (left : ℕ) (ts : List Task) (index : ℕ) → (next_from left ts index).0 ≢ null
unfolding next_from
next_from-not_null zero ts index e = cc
next_from-not_null (suc left) ts index e =
    ground (arith, next_from-not_null left ts (add64 index 1 % length ts))

-- The index of a table of tasks lies in it, or is 0 if the table is empty.
abbrev pub IndexOk : Sched → Type 0
IndexOk s =
    (length s.tasks ≤ max_tasks)
    × (0 < length s.tasks → s.index < length s.tasks)
    × (length s.tasks ≡ 0 → s.index ≡ 0)

-- With at most 8 tasks and the index in the table: if some task is runnable, `next_runnable_task`
-- chooses a runnable task that comes no later in the round than that one, and moves the index
-- there; it changes no task.
pub next_runnable_task_lem :
    (s : Sched) (j : ℕ)
    → IndexOk s
    → j < length s.tasks
    → runnable_at s.tasks j ≡ true
    → (i : ℕ) × (next_runnable_task s ≡ (user i, record s { index = i }))
      × (i < length s.tasks)
      × (runnable_at s.tasks i ≡ true)
      × (distance (length s.tasks) s.index i ≤ distance (length s.tasks) s.index j)
unfolding next_runnable_task
next_runnable_task_lem s j ok hj r =
    let (i, found, hi, ri, le) =
      next_from-first (length s.tasks) s.tasks s.index j (ok.1 (omega arith)) ok.0 hj r
        (ground (arith, ok.1)) in
    let some_tasks : (length s.tasks == 0) ≡ false = ground arith in
    (i, rw (some_tasks, found) refl, hi, ri, le)

-- With at most 8 tasks and the index in the table, `next_runnable_task` chooses the boot task
-- exactly if no task of the table is runnable.
pub next_runnable_task-boot :
    (s : Sched)
    → IndexOk s
    → ((next_runnable_task s).0 ≡ boot)
      ↔ ((j : ℕ) → j < length s.tasks → runnable_at s.tasks j ≡ false)
unfolding next_runnable_task
next_runnable_task-boot s ok = (
  λ e j hj. elim (Bool-cases (runnable_at s.tasks j)) [
    | inl r ↦
        let (i, found, hi, ri, le) = next_runnable_task_lem s j ok hj r in
        let e' : user i ≡ boot = rw found at e in cc
    | inr r ↦ r
  ],
  λ idle. by_choice idle (next_runnable_task s).0 refl,
)
  where
    by_choice :
        ((j : ℕ) → j < length s.tasks → runnable_at s.tasks j ≡ false)
        → (c : Current) → (next_runnable_task s).0 ≡ c
        → c ≡ boot
    by_choice idle boot e = refl
    by_choice idle null e = ground (arith, next_from-not_null (length s.tasks) s.tasks s.index)
    by_choice idle (user i) e =
        ground (arith, next_from_sound (length s.tasks) s.tasks s.index i, idle i)

-- A current task of the table is runnable.
abbrev pub RunsOk : List Task → Current → Type 0
RunsOk ts null = Unit
RunsOk ts boot = Unit
RunsOk ts (user i) = (i < length ts) × (runnable_at ts i ≡ true)

next_from-index :
    (left : ℕ) (ts : List Task) (index : ℕ)
    → 0 < left
    → 0 < length ts
    → (next_from left ts index).1 < length ts
unfolding next_from
next_from-index zero ts index h p = absurd (omega arith)
next_from-index (suc zero) ts index h p = ground arith
next_from-index (suc (suc left)) ts index h p =
    ground (arith, next_from-index (suc left) ts (add64 index 1 % length ts))

next_from-RunsOk :
    (left : ℕ) (ts : List Task) (index : ℕ) (c : Current)
    → 0 < length ts
    → (next_from left ts index).0 ≡ c
    → RunsOk ts c
next_from-RunsOk left ts index null p e = tt
next_from-RunsOk left ts index boot p e = tt
next_from-RunsOk left ts index (user i) p e = next_from_sound left ts index i p e

-- Whatever `next_runnable_task` returns may become the current task, and it changes the index alone.
pub next_runnable_task-RunsOk :
    (s : Sched)
    → IndexOk s
    → let (c, s') = next_runnable_task s in
      (i : ℕ) × (s' ≡ record s { index = i }) × IndexOk s' × RunsOk s.tasks c
unfolding next_runnable_task
next_runnable_task-RunsOk s ok = elim (Bool-cases (length s.tasks == 0)) [
  | inl empty ↦
      let done : next_runnable_task s ≡ (boot, s) = rw empty refl in rw done (s.index, refl, ok, tt)
  | inr filled ↦
      let n : ℕ = length s.tasks in
      let r : Current × ℕ = next_from n s.tasks s.index in
      let done : next_runnable_task s ≡ (r.0, record s { index = r.1 }) = rw filled refl in
      let some_tasks : 0 < n = ground arith in
      rw done (
        r.1,
        refl,
        (
          ok.0,
          λ _. next_from-index n s.tasks s.index some_tasks some_tasks,
          λ z. absurd (omega arith),
        ),
        next_from-RunsOk n s.tasks s.index r.0 some_tasks refl,
      )
]

-- The state after `k` calls of `next_runnable_task`, if no task changes.
abbrev pub after_calls : ℕ → Sched → Sched
after_calls zero s = s
after_calls (suc k) s = after_calls k (next_runnable_task s).1

fair_within :
    (d : ℕ) (s : Sched) (j : ℕ)
    → distance (length s.tasks) s.index j < d
    → IndexOk s
    → j < length s.tasks
    → runnable_at s.tasks j ≡ true
    → (k : ℕ) × (k ≤ distance (length s.tasks) s.index j)
      × ((next_runnable_task (after_calls k s)).0 ≡ user j)
fair_within zero s j near ok hj r = absurd (omega arith)
fair_within (suc d) s j near ok hj r =
    let (i, found, hi, ri, le) = next_runnable_task_lem s j ok hj r in
    let s' : Sched = record s { index = i } in
    elim (Bool-cases (i == j)) [
      | inl now ↦
          let there : i ≡ j = ground arith in
          (0, omega arith, ap (λ (w : Current × Sched). w.0) found ∙ ap user there)
      | inr later ↦
          let inside = ok.1 (omega arith) in
          let nearer : distance (length s.tasks) i j < distance (length s.tasks) s.index j =
            ground (arith, le, inside) in
          let (k, few, there) =
            fair_within d s' j (omega (arith, nearer)) (ok.0, λ _. hi, λ z. absurd (omega arith)) hj
              r in
          (
            suc k,
            omega (arith, few, nearer),
            ap (λ (w : Current × Sched). (next_runnable_task (after_calls k w.1)).0) found ∙ there,
          )
    ]

-- With at most 8 tasks and the index in the table, no runnable task starves: while the tasks do
-- not change, one of the next calls of `next_runnable_task`, no more of them than there are tasks,
-- returns that task.
pub next_runnable_task_fair :
    (s : Sched) (j : ℕ)
    → IndexOk s
    → j < length s.tasks
    → runnable_at s.tasks j ≡ true
    → (k : ℕ) × (k < length s.tasks) × ((next_runnable_task (after_calls k s)).0 ≡ user j)
next_runnable_task_fair s j ok hj r =
    let (k, few, there) =
      fair_within (suc (distance (length s.tasks) s.index j)) s j (omega arith) ok hj r in
    (k, ground (arith, few, ok.1), there)
