-- ===== src/Sched/Invariant.antt =====
-- The invariant of kernel/src/scheduler.rs: one running task at most, the current one, whose address
-- space and kernel stack are loaded; a task that waits for an interrupt sleeps for ever.
use hep_os.Prelude.{
  ==_iff, ==_refl, Bool-cases, List, ap, arith, false, get_or-map, get_or-set, if◌then◌else◌, inl,
  inr, length, length-map, length-set, map, sym, true, ℕ, ◌<◌, ◌==◌, ◌∙◌, ◌≡◌, ◌≢◌, ◌⊎◌,
}
use hep_os.Sched.{
  Kernel, task_at, state_at, modify, wake_sleeper, modify_current, u64_max, wake_waiter,
}
use hep_os.Sched.Tasks.{Task, no_task, is_running, is_blocked, is_dead, is_some}
use hep_os.Sched.Next.{woken}

abbrev pub Waits : Task → Type 0
Waits t = is_some t.waiting_irq ≡ true → (is_blocked t.state ≡ true) × (t.wake_at ≡ u64_max)

pub record Core (s : Kernel) : Type 0 where
  pub cur : s.current < length s.tasks
  pub alone : (i : ℕ) → i < length s.tasks → i ≢ s.current → is_running (state_at s.tasks i) ≡ false
  pub waits : (i : ℕ) → i < length s.tasks → Waits (task_at s.tasks i)

-- CR3, the syscall stack and the interrupt stack are the current task's own.
pub record IsLoaded (s : Kernel) : Type 0 where
  pub space : s.cr3 ≡ (task_at s.tasks s.current).cr3
  pub stack : s.kernel_stack ≡ (task_at s.tasks s.current).kstack_top
  pub rsp0 : s.tss_rsp0 ≡ (task_at s.tasks s.current).kstack_top

-- The current task is running, or dead on a halted CPU.
abbrev pub IsAlive : Kernel → Type 0
IsAlive s =
    (is_running (state_at s.tasks s.current) ≡ true) ⊎ (is_dead (state_at s.tasks s.current) ≡ true)

pub record IsValid (s : Kernel) : Type 0 where
  pub core : Core s
  pub loaded : IsLoaded s
  pub alive : IsAlive s

pub at-modify :
    (ts : List Task) (i q : ℕ) (f : Task → Task)
    → i < length ts
    → task_at (modify i f ts) q ≡ (if i == q then f (task_at ts i) else task_at ts q)
at-modify ts i q f h = get_or-set ts i q (f (task_at ts i)) no_task h

pub at-woken :
    (s : Kernel) (q : ℕ)
    → q < length s.tasks
    → task_at (woken s) q ≡ wake_sleeper s.tick_count (task_at s.tasks q)
at-woken s q h = get_or-map (wake_sleeper s.tick_count) s.tasks q no_task no_task h

pub length-woken : (s : Kernel) → length (woken s) ≡ length s.tasks
length-woken s = length-map (wake_sleeper s.tick_count) s.tasks

-- What waking does to one task: at most its state, and that only from blocked to ready.
pub record Woken (t t' : Task) : Type 0 where
  pub waits : Waits t → Waits t'
  pub run : is_running t'.state ≡ is_running t.state
  pub end : is_dead t'.state ≡ is_dead t.state
  pub kept : (t'.cr3 ≡ t.cr3) × (t'.kstack_top ≡ t.kstack_top)

pub wake_sleeper-Woken : (now : ℕ) (t : Task) → Woken t (wake_sleeper now t)
unfolding wake_sleeper
wake_sleeper-Woken now t = record {
  waits = λ w h. ground arith;
  run = ground arith;
  end = ground arith;
  kept = ground arith;
}

pub wake_waiter-Woken : (v : ℕ) (t : Task) → Woken t (wake_waiter v t)
unfolding wake_waiter
wake_waiter-Woken v t = record {
  waits = λ w h. ground arith;
  run = ground arith;
  end = ground arith;
  kept = ground arith;
}

module _ (f : Task → Task) (wf : (t : Task) → Woken t (f t)) where
  at-map :
      (s : Kernel) (q : ℕ) → q < length s.tasks → task_at (map f s.tasks) q ≡ f (task_at s.tasks q)
  at-map s q h = get_or-map f s.tasks q no_task no_task h

  pub Core-map : (s : Kernel) → Core s → Core (record s { tasks = map f s.tasks })
  Core-map s c = record {
    cur = rw (length-map f s.tasks) c.cur;
    alone = λ i lt ne.
        let lt' : i < length s.tasks = rw (length-map f s.tasks) at lt in
        ap (λ (t : Task). is_running t.state) (at-map s i lt')
        ∙ (wf (task_at s.tasks i)).run
        ∙ c.alone i lt' ne;
    waits = λ i lt.
        let lt' : i < length s.tasks = rw (length-map f s.tasks) at lt in
        rw (at-map s i lt') ((wf (task_at s.tasks i)).waits (c.waits i lt'));
  }

  pub IsLoaded-map :
      (s : Kernel) → Core s → IsLoaded s → IsLoaded (record s { tasks = map f s.tasks })
  IsLoaded-map s c l =
      let w = wf (task_at s.tasks s.current) in
      record {
        space = rw (at-map s s.current c.cur) (l.space ∙ sym (w.kept.0));
        stack = rw (at-map s s.current c.cur) (l.stack ∙ sym (w.kept.1));
        rsp0 = rw (at-map s s.current c.cur) (l.rsp0 ∙ sym (w.kept.1));
      }

  pub IsAlive-map : (s : Kernel) → Core s → IsAlive s → IsAlive (record s { tasks = map f s.tasks })
  IsAlive-map s c a =
      let w = wf (task_at s.tasks s.current) in
      ground (arith, at-map s s.current c.cur, w.run, w.end)

  pub map-IsValid : (s : Kernel) → IsValid s → IsValid (record s { tasks = map f s.tasks })
  map-IsValid s v = record {
    core = Core-map s v.core;
    loaded = IsLoaded-map s v.core v.loaded;
    alive = IsAlive-map s v.core v.alive;
  }

-- Writes to the current task alone.
pub Core-modify_current :
    (f : Task → Task) (s : Kernel)
    → Core s
    → Waits (f (task_at s.tasks s.current))
    → Core (modify_current f s)
Core-modify_current f s c w = record {
  cur = rw (length-set s.tasks s.current (f (task_at s.tasks s.current))) c.cur;
  alone =
      λ i lt ne. ap (λ (t : Task). is_running t.state) (other i ne) ∙ c.alone i (rw len at lt) ne;
  waits = λ i lt. elim (Bool-cases (s.current == i)) [
    | inl same ↦
        let e : s.current ≡ i = (==_iff s.current i).0 same in
        rw (← e, at-modify s.tasks s.current s.current f c.cur, ==_refl s.current) w
    | inr diff ↦ rw (other i (ground arith)) (c.waits i (rw len at lt))
  ];
}
  where
    len : length (modify_current f s).tasks ≡ length s.tasks
    len = length-set s.tasks s.current (f (task_at s.tasks s.current))

    other : (i : ℕ) → i ≢ s.current → task_at (modify s.current f s.tasks) i ≡ task_at s.tasks i
    other i ne = ground (arith, at-modify s.tasks s.current i f c.cur)
