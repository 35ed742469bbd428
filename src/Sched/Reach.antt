-- ===== src/Sched/Reach.antt =====
-- The scheduler of kernel/src/scheduler.rs as a state machine: what the running task and the
-- interrupt handlers can do, in any order.
use hep_os.Prelude.{List, ℕ}
use hep_os.Sched.{
  Kernel, set_current_cr3, spawn, exit_current, sleep_ms, block_on_irq, wake_irq_waiters, tick,
}
use hep_os.Sched.Invariant.{IsValid}
use hep_os.Sched.Steps.{
  tick-IsValid, wake_irq_waiters-IsValid, IsRunning, sleep_ms-IsValid, block_on_irq-IsValid,
  exit_current-IsValid, set_current_cr3-IsValid,
}
use hep_os.Sched.Spawn.{spawn-IsValid}

-- Interrupts come at any time. The other operations are calls by the current task, which runs; a
-- halted CPU makes none. `saved` is the stack pointer that a switch leaves behind.
pub data Step : Kernel → Kernel → Type 0 where
  timer : (v saved : ℕ) (s : Kernel) → Step s (tick v saved s)
  device : (vector : ℕ) (s : Kernel) → Step s (wake_irq_waiters vector s)
  sleeps : (ms saved : ℕ) (s : Kernel) → IsRunning s → Step s (sleep_ms ms saved s)
  waits_irq : (vector saved : ℕ) (s : Kernel) → IsRunning s → Step s (block_on_irq vector saved s)
  exits : (saved : ℕ) (s : Kernel) → IsRunning s → Step s (exit_current saved s)
  spawns :
      (name : List ℕ) (entry stack kstack trampoline : ℕ) (s : Kernel)
      → IsRunning s
      → Step s (spawn name entry stack kstack trampoline s).1
  enters : (cr3 : ℕ) (s : Kernel) → Step s (record (set_current_cr3 cr3 s) { cr3 = cr3 })

pub data Reach (s : Kernel) : Kernel → Type 0 where
  here : Reach s s
  then_step : {t u : Kernel} → Reach s t → Step t u → Reach s u

Step-IsValid : {s t : Kernel} → Step s t → IsValid s → IsValid t
Step-IsValid (timer v saved s) i = tick-IsValid v saved s i
Step-IsValid (device vector s) i = wake_irq_waiters-IsValid vector s i
Step-IsValid (sleeps ms saved s run) i = sleep_ms-IsValid ms saved s i run
Step-IsValid (waits_irq vector saved s run) i = block_on_irq-IsValid vector saved s i run
Step-IsValid (exits saved s run) i = exit_current-IsValid saved s i run
Step-IsValid (spawns name entry stack kstack trampoline s run) i =
    spawn-IsValid name entry stack kstack trampoline s i run
Step-IsValid (enters cr3 s) i = set_current_cr3-IsValid cr3 s i

-- From a valid state, any sequence of timer and device interrupts, sleeps, waits, exits, spawns and
-- changes of address space by the running task leads to a valid state: the current slot exists, no
-- other task is running, every task that waits for an interrupt is blocked with the wake time
-- u64::MAX, CR3, the syscall stack and RSP0 are the current task's own, and it is running or dead.
pub Reach-IsValid : {s t : Kernel} → IsValid s → Reach s t → IsValid t
Reach-IsValid i here = i
Reach-IsValid i (then_step r st) = Step-IsValid st (Reach-IsValid i r)
