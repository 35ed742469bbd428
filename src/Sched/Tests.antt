-- ===== src/Sched/Tests.antt =====
-- The scheduler of kernel/src/scheduler.rs with the idle task running, one task ready, one asleep
-- and one dead.
use hep_os.Prelude.{
  List, [], arith, false, inl, refl, set, suc, zero, ℕ, ◌*◌, ◌+◌, ◌<◌, ◌∷◌, ◌≡◌, ◌≢◌,
}
use hep_os.Sched.{Kernel, task_at, state_at, next, spawn, sleep_ms, wake_irq_waiters, tick}
use hep_os.Sched.Tasks.{
  TaskState, running, ready, blocked, dead, Task, no_task, is_running, is_some, new_task,
}
use hep_os.Sched.Next.{Chosen, next_lem}
use hep_os.Sched.Invariant.{IsValid}
use hep_os.Sched.Steps.{IsRunning}
use hep_os.Sched.Reach.{timer, device, sleeps, Reach, here, then_step, Reach-IsValid}
use hep_os.Sched.Fair.{run_ticks, ready_task_runs}

abbrev plain : ℕ → TaskState → Task
plain id st = record no_task { id = id; state = st; cr3 = 0x1000 * id; kstack_top = 0x8000 + id }

abbrev four : List Task
four =
    plain 1 running ∷ record (plain 2 blocked) { wake_at = 70 } ∷ plain 3 ready ∷ plain 4 dead ∷ []

abbrev start : Kernel
start = record {
  tasks = four;
  current = 0;
  tick_count = 50;
  next_task_id = 5;
  cr3 = 0x1000;
  kernel_stack = 0x8001;
  tss_rsp0 = 0x8001;
}

start-alone : (i : ℕ) → i < 4 → i ≢ 0 → is_running (state_at four i) ≡ false
start-alone zero lt ne = absurd (ne refl)
start-alone (suc zero) lt ne = refl
start-alone (suc (suc zero)) lt ne = refl
start-alone (suc (suc (suc zero))) lt ne = refl
start-alone (suc (suc (suc (suc i)))) lt ne = absurd (omega arith)

start-quiet : (i : ℕ) → is_some (task_at four i).waiting_irq ≡ false
start-quiet zero = refl
start-quiet (suc zero) = refl
start-quiet (suc (suc zero)) = refl
start-quiet (suc (suc (suc zero))) = refl
start-quiet (suc (suc (suc (suc i)))) = refl

start-IsValid : IsValid start
start-IsValid = record {
  core = record { cur = omega arith; alone = start-alone; waits = λ i lt h. cc (start-quiet i, h) };
  loaded = record { space = refl; stack = refl; rsp0 = refl };
  alive = inl refl;
}

-- The ready task runs, the idle task is ready, and the sleeper sleeps on.
next_runs : (next start).1.current ≡ 2
unfolding next
next_runs = refl

sleep_switches : (sleep_ms 100 77 start).cr3 ≡ 0x3000
unfolding sleep_ms
sleep_switches = refl

spawn_reuses :
    (spawn [] 9 0x10000 0x20000 3 start).1.tasks
    ≡ set four 3 (new_task 5 [] 9 0x10000 0x20000 0x1000 3)
unfolding spawn
spawn_reuses = refl

next_lem_example : Chosen start (next start)
next_lem_example = next_lem start (omega arith) (omega arith)

-- A tick, a sleep by task 3, and an interrupt.
day : Kernel
day = wake_irq_waiters 34 (sleep_ms 30 88 (tick 32 99 start))

three_runs : IsRunning (tick 32 99 start)
unfolding tick
three_runs = refl

start-Reach-day : Reach start day
unfolding day
start-Reach-day =
    then_step
      (then_step (then_step here (timer 32 99 start)) (sleeps 30 88 (tick 32 99 start) three_runs))
      (device 34 (sleep_ms 30 88 (tick 32 99 start)))

Reach-IsValid_example : IsValid day
Reach-IsValid_example = Reach-IsValid start-IsValid start-Reach-day

ready_task_runs_example : (m : ℕ) × (m < 4) × ((run_ticks m 32 (λ i. 77) start).current ≡ 2)
ready_task_runs_example =
    ready_task_runs 2 32 (λ i. 77) start start-IsValid
      (record { slot = omega arith; off = omega arith; due = refl })
