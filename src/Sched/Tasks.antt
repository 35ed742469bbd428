-- ===== src/Sched/Tasks.antt =====
-- Tasks of kernel/src/scheduler.rs and the stack frame on which a new task starts.
use hep_os.Prelude.{
  Bool, List, Option, [], false, none, some, true, ℕ, ◌*◌, ◌+◌, ◌-◌, ◌/◌, ◌==◌, ◌∷◌,
}

pub data TaskState : Type 0 where
  running ready blocked dead : TaskState

-- `wake_at` counts ticks; `waiting_irq` is the interrupt vector that a blocked task waits on;
-- `frame` is what Task::new writes into `_stack` from `rsp` up. The rest of the two buffers is not kept.
pub record Task : Type 0 where
  pub id : ℕ
  pub name : List ℕ
  pub state : TaskState
  pub wake_at : ℕ
  pub waiting_irq : Option ℕ
  pub cr3 : ℕ
  pub frame : List ℕ
  pub rsp : ℕ
  pub kstack_top : ℕ

abbrev pub no_task : Task
no_task = record {
  id = 0;
  name = [];
  state = dead;
  wake_at = 0;
  waiting_irq = none;
  cr3 = 0;
  frame = [];
  rsp = 0;
  kstack_top = 0;
}

abbrev pub is_running : TaskState → Bool
is_running running = true
is_running _ = false

abbrev pub is_ready : TaskState → Bool
is_ready ready = true
is_ready _ = false

abbrev pub is_blocked : TaskState → Bool
is_blocked blocked = true
is_blocked _ = false

abbrev pub is_dead : TaskState → Bool
is_dead dead = true
is_dead _ = false

abbrev pub is_some : Option ℕ → Bool
is_some none = false
is_some (some v) = true

-- waiting_irq == Some(vector)
abbrev pub waits_for : ℕ → Option ℕ → Bool
waits_for vector none = false
waits_for vector (some v) = v == vector

abbrev pub stack_size : ℕ
stack_size = 64 * 1024

abbrev pub kstack_size : ℕ
kstack_size = 4 * 4096

-- The seven words at the new stack pointer: r15, r14, r13, r12, rbp, rbx and the return address.
unfoldable pub start_frame : ℕ → ℕ → List ℕ
start_frame entry trampoline = 0 ∷ 0 ∷ 0 ∷ 0 ∷ 0 ∷ entry ∷ trampoline ∷ []

-- (stack_top - 56) & !0xF
unfoldable pub start_rsp : ℕ → ℕ
start_rsp stack = (stack + stack_size - 56) / 16 * 16

-- Task::new. `stack` and `kstack` are the addresses of the two buffers, `cr3` what `read_cr3`
-- returns, `trampoline` the address of `task_trampoline`.
unfoldable pub new_task : ℕ → List ℕ → ℕ → ℕ → ℕ → ℕ → ℕ → Task
unfolding start_rsp start_frame
new_task id name entry stack kstack cr3 trampoline = record {
  id = id;
  name = name;
  state = ready;
  wake_at = 0;
  waiting_irq = none;
  cr3 = cr3;
  frame = start_frame entry trampoline;
  rsp = start_rsp stack;
  kstack_top = kstack + kstack_size;
}
