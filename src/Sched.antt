-- ===== src/Sched.antt =====
-- kernel/src/scheduler.rs: tasks, the round-robin choice of the next one, sleeping, waiting for an
-- interrupt, exit and spawn, and the machine registers that a switch repoints.
pub mod Tasks
pub mod Next
pub mod Invariant
pub mod Parked
pub mod Steps
pub mod Spawn
pub mod Reach
pub mod Fair
mod Tests
use hep_os.Prelude.{
  List, Option, [], add64, get_or, if◌then◌else◌, leb, length, ltb, map, max, none, not, set, some,
  suc, zero, ℕ, ◌%◌, ◌&&◌, ◌++◌, ◌+◌, ◌-◌, ◌/◌, ◌==◌, ◌^◌, ◌∷◌,
}
use hep_os.Sched.Tasks.{
  TaskState, running, ready, blocked, dead, Task, no_task, is_running, is_ready, is_blocked,
  is_dead, is_some, waits_for, new_task,
}

-- The statics SCHEDULER, TICK_COUNT and NEXT_TASK_ID, and what a switch writes: CR3,
-- `PERCPU.kernel_stack` (syscall.rs) and the RSP0 of the TSS (gdt.rs).
pub record Kernel : Type 0 where
  pub tasks : List Task
  pub current : ℕ
  pub tick_count : ℕ
  pub next_task_id : ℕ
  pub cr3 : ℕ
  pub kernel_stack : ℕ
  pub tss_rsp0 : ℕ

-- The result of `Scheduler::next`: the slot whose `rsp` takes the old stack pointer, and the rsp,
-- the CR3 and the kernel stack of the new task.
pub record Switch : Type 0 where
  pub old_slot : ℕ
  pub new_rsp : ℕ
  pub new_cr3 : ℕ
  pub new_kstack_top : ℕ

-- An index into `tasks`; the source would panic past the end.
abbrev pub task_at : List Task → ℕ → Task
task_at ts i = get_or ts i no_task

abbrev pub state_at : List Task → ℕ → TaskState
state_at ts i = (task_at ts i).state

abbrev pub modify : ℕ → (Task → Task) → List Task → List Task
modify i f ts = set ts i (f (task_at ts i))

unfoldable pub wake_sleeper : ℕ → Task → Task
wake_sleeper now t =
    if is_blocked t.state && not (is_some t.waiting_irq) && leb t.wake_at now
    then record t { state = ready }
    else t

-- The search loop of Scheduler::next, with one round for each task.
unfoldable pub find_ready : ℕ → ℕ → ℕ → List Task → ℕ
find_ready zero n i ts = i
find_ready (suc k) n i ts =
    let rest = find_ready k n ((i + 1) % n) ts in if is_ready (state_at ts i) then i else rest

abbrev pub set_state : TaskState → Task → Task
set_state st t = record t { state = st }

-- The end of `next`, once the slot `i` is chosen.
unfoldable pub switch_to : ℕ → Kernel → Option Switch × Kernel
switch_to i s =
    if not (is_ready (state_at s.tasks i))
    then (none, s)
    else if i == s.current
    then (none, s)
    else let ts =
        if is_running (state_at s.tasks s.current)
        then modify s.current (set_state ready) s.tasks
        else s.tasks in
      let ts' = modify i (set_state running) ts in
      let t = task_at ts' i in
      (
        some (record {
          old_slot = s.current;
          new_rsp = t.rsp;
          new_cr3 = t.cr3;
          new_kstack_top = t.kstack_top;
        }),
        record s { tasks = ts'; current = i },
      )

-- Scheduler::next
unfoldable pub next : Kernel → Option Switch × Kernel
unfolding wake_sleeper find_ready switch_to
next s =
    let n = length s.tasks in
    if ltb n 2
    then (none, s)
    else let ts = map (wake_sleeper s.tick_count) s.tasks in
      switch_to (find_ready n n ((s.current + 1) % n) ts) (record s { tasks = ts })

-- use_kstack, write_cr3 and context_switch: `saved` is the stack pointer that `context_switch`
-- leaves in the old task's slot.
unfoldable pub dispatch : ℕ → Switch → Kernel → Kernel
dispatch saved w s = record s {
  tasks = modify w.old_slot (λ t. record t { rsp = saved }) s.tasks;
  cr3 = w.new_cr3;
  kernel_stack = w.new_kstack_top;
  tss_rsp0 = w.new_kstack_top;
}

-- The tail shared by the callers of `next`: dispatch if there is a switch, else `stay`.
unfoldable pub finish : ℕ → (Kernel → Kernel) → Option Switch × Kernel → Kernel
unfolding dispatch
finish saved stay (none, s) = stay s
finish saved stay (some w, s) = dispatch saved w s

abbrev pub modify_current : (Task → Task) → Kernel → Kernel
modify_current f s = record s { tasks = modify s.current f s.tasks }

unfoldable pub set_current_cr3 : ℕ → Kernel → Kernel
set_current_cr3 cr3 = modify_current (λ t. record t { cr3 = cr3 })

-- Position of the first dead task.
unfoldable pub find_dead : List Task → Option ℕ
find_dead [] = none
find_dead (t ∷ ts) =
    if is_dead t.state then some 0 else elim (find_dead ts) [ none ↦ none | some i ↦ some (i + 1) ]

-- `stack` and `kstack` are the addresses of the two fresh buffers; the new task takes the CR3 that
-- is loaded.
unfoldable pub spawn : List ℕ → ℕ → ℕ → ℕ → ℕ → Kernel → ℕ × Kernel
unfolding find_dead new_task
spawn name entry stack kstack trampoline s =
    let id = s.next_task_id in
    let task = new_task id name entry stack kstack s.cr3 trampoline in
    let ts : List Task = elim (find_dead s.tasks) [
      | some i ↦ set s.tasks i task
      | none ↦ s.tasks ++ (task ∷ [])
    ] in
    (id, record s { tasks = ts; next_task_id = add64 id 1 })

-- With no task to switch to the CPU halts in the dead task.
unfoldable pub exit_current : ℕ → Kernel → Kernel
unfolding next finish
exit_current saved s = finish saved (λ k. k) (next (modify_current (set_state dead) s))

abbrev pub run_on : Kernel → Kernel
run_on = modify_current (set_state running)

unfoldable pub sleep_ms : ℕ → ℕ → Kernel → Kernel
unfolding next finish
sleep_ms ms saved s =
    let ticks = max (ms / 10) 1 in
    let wake = add64 s.tick_count ticks in
    finish saved run_on
      (next (modify_current (λ t. record t { wake_at = wake; state = blocked }) s))

abbrev pub u64_max : ℕ
u64_max = 2 ^ 64 - 1

unfoldable pub block_on_irq : ℕ → ℕ → Kernel → Kernel
unfolding next finish
block_on_irq vector saved s =
    finish saved (modify_current (λ t. record t { state = running; waiting_irq = none })) (
      next (
        modify_current
          (λ t. record t { waiting_irq = some vector; wake_at = u64_max; state = blocked }) s))

unfoldable pub wake_waiter : ℕ → Task → Task
wake_waiter vector t =
    if is_blocked t.state && waits_for vector t.waiting_irq
    then record t { waiting_irq = none; state = ready }
    else t

unfoldable pub wake_irq_waiters : ℕ → Kernel → Kernel
unfolding wake_waiter
wake_irq_waiters vector s = record s { tasks = map (wake_waiter vector) s.tasks }

-- The timer interrupt; `timer_vector` is apic.rs's constant.
unfoldable pub tick : ℕ → ℕ → Kernel → Kernel
unfolding wake_irq_waiters next finish
tick timer_vector saved s =
    let s' = record s { tick_count = add64 s.tick_count 1 } in
    finish saved (λ k. k) (next (wake_irq_waiters timer_vector s'))
