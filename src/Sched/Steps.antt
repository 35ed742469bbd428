-- ===== src/Sched/Steps.antt =====
-- Every operation of kernel/src/scheduler.rs keeps the invariant, and so does every sequence of them.
use hep_os.Prelude.{
  ==_refl, Bool-cases, Option, add64, arith, false, inl, inr, length, ltb, map, max, none, refl,
  some, subst, sym, true, ℕ, ◌/◌, ◌∙◌, ◌≡◌, ◌⊎◌,
}
use hep_os.Sched.{
  Kernel, Switch, task_at, state_at, modify, wake_sleeper, set_state, next, dispatch, finish,
  modify_current, set_current_cr3, exit_current, sleep_ms, u64_max, block_on_irq, wake_waiter,
  wake_irq_waiters, tick,
}
use hep_os.Sched.Tasks.{running, blocked, dead, Task, is_running, is_dead, is_some}
use hep_os.Sched.Next.{woken, Chosen, next_lem}
use hep_os.Sched.Invariant.{
  Waits, Core, IsLoaded, IsAlive, IsValid, at-modify, at-woken, length-woken, wake_sleeper-Woken,
  wake_waiter-Woken, Core-map, IsLoaded-map, map-IsValid, Core-modify_current,
}
use hep_os.Sched.Parked.{IsValid-parked}

-- The invariant without the current task's state, as it holds while an operation is under way.
record Pre (s : Kernel) : Type 0 where
  core : Core s
  loaded : IsLoaded s

Pre-woken : (s : Kernel) → Pre s → Pre (record s { tasks = woken s })
Pre-woken s p = record {
  core = Core-map (wake_sleeper s.tick_count) (wake_sleeper-Woken s.tick_count) s p.core;
  loaded =
      IsLoaded-map (wake_sleeper s.tick_count) (wake_sleeper-Woken s.tick_count) s p.core p.loaded;
}

current-modified :
    (f : Task → Task) (s : Kernel)
    → Core s
    → task_at (modify s.current f s.tasks) s.current ≡ f (task_at s.tasks s.current)
current-modified f s c = at-modify s.tasks s.current s.current f c.cur ∙ rw (==_refl s.current)

-- A change of the current task that leaves its address space and its kernel stack alone.
abbrev Keeps : (Task → Task) → Type 0
Keeps f = (t : Task) → ((f t).cr3 ≡ t.cr3) × ((f t).kstack_top ≡ t.kstack_top)

Pre-modify_current :
    (f : Task → Task) (s : Kernel)
    → Keeps f
    → Waits (f (task_at s.tasks s.current))
    → Pre s
    → Pre (modify_current f s)
Pre-modify_current f s k w p = record {
  core = Core-modify_current f s p.core w;
  loaded = record {
    space =
        rw (current-modified f s p.core) (p.loaded.space ∙ sym (k (task_at s.tasks s.current)).0);
    stack =
        rw (current-modified f s p.core) (p.loaded.stack ∙ sym (k (task_at s.tasks s.current)).1);
    rsp0 = rw (current-modified f s p.core) (p.loaded.rsp0 ∙ sym (k (task_at s.tasks s.current)).1);
  };
}

IsValid-alive : (s : Kernel) → Pre s → IsAlive s → IsValid s
IsValid-alive s p a = record { core = p.core; loaded = p.loaded; alive = a }

finish-Chosen :
    (saved : ℕ) (stay : Kernel → Kernel) (s : Kernel) (r : Option Switch × Kernel)
    → Pre s
    → IsValid (stay (record s { tasks = woken s }))
    → Chosen s r
    → IsValid (finish saved stay r)
unfolding finish dispatch
finish-Chosen saved stay s (none, s') p v h = rw h.0 v
finish-Chosen saved stay s (some w, s') p v h =
    rw (h.6, h.5)
      (IsValid-parked (record s { tasks = woken s }) h.0 saved (Pre-woken s p).core
        (rw (length-woken s) (h.1)) h.2 h.3)

next_few : (s : Kernel) → ltb (length s.tasks) 2 ≡ true → next s ≡ (none, s)
unfolding next
next_few s few = rw few

finish-next :
    (saved : ℕ) (stay : Kernel → Kernel) (s : Kernel)
    → Pre s
    → IsValid (stay s)
    → IsValid (stay (record s { tasks = woken s }))
    → IsValid (finish saved stay (next s))
unfolding finish
finish-next saved stay s p v w = elim (Bool-cases (ltb (length s.tasks) 2)) [
  | inl few ↦ rw (next_few s few) v
  | inr many ↦ finish-Chosen saved stay s (next s) p w (next_lem s (ground arith) p.core.cur)
]

Pre-IsValid : (s : Kernel) → IsValid s → Pre s
Pre-IsValid s v = record { core = v.core; loaded = v.loaded }

woken-IsValid : (s : Kernel) → IsValid s → IsValid (record s { tasks = woken s })
woken-IsValid s v = map-IsValid (wake_sleeper s.tick_count) (wake_sleeper-Woken s.tick_count) s v

pub tick_count-IsValid : (s : Kernel) (n : ℕ) → IsValid s → IsValid (record s { tick_count = n })
tick_count-IsValid s n v = record {
  core = record { cur = v.core.cur; alone = v.core.alone; waits = v.core.waits };
  loaded = record { space = v.loaded.space; stack = v.loaded.stack; rsp0 = v.loaded.rsp0 };
  alive = v.alive;
}

abbrev Settles : Task → Type 0
Settles t = Waits t × ((is_running t.state ≡ true) ⊎ (is_dead t.state ≡ true))

sleeper_back :
    (now : ℕ) (t : Task)
    → is_some t.waiting_irq ≡ false
    → Settles (set_state running (wake_sleeper now t))
unfolding wake_sleeper
sleeper_back now t idle = (λ h. ground arith, inl refl)

-- The timer interrupt keeps the invariant.
pub tick-IsValid :
    (timer_vector saved : ℕ) (s : Kernel) → IsValid s → IsValid (tick timer_vector saved s)
unfolding tick wake_irq_waiters
tick-IsValid timer_vector saved s v =
    let s0 = record s { tick_count = add64 s.tick_count 1 } in
    let v0 : IsValid s0 = tick_count-IsValid s (add64 s.tick_count 1) v in
    let s1 = record s0 { tasks = map (wake_waiter timer_vector) s0.tasks } in
    let v1 = map-IsValid (wake_waiter timer_vector) (wake_waiter-Woken timer_vector) s0 v0 in
    finish-next saved (λ k. k) s1 (Pre-IsValid s1 v1) v1 (woken-IsValid s1 v1)

-- An interrupt handler that wakes its waiters keeps the invariant.
pub wake_irq_waiters-IsValid :
    (vector : ℕ) (s : Kernel) → IsValid s → IsValid (wake_irq_waiters vector s)
unfolding wake_irq_waiters
wake_irq_waiters-IsValid vector s v =
    map-IsValid (wake_waiter vector) (wake_waiter-Woken vector) s v

-- The calling task of an operation is the current one, and runs.
abbrev pub IsRunning : Kernel → Type 0
IsRunning s = is_running (state_at s.tasks s.current) ≡ true

not_waiting : (t : Task) → Waits t → is_running t.state ≡ true → is_some t.waiting_irq ≡ false
not_waiting t w run = ground arith

modify_current-IsValid :
    (g : Task → Task) (s : Kernel)
    → Keeps g
    → Settles (g (task_at s.tasks s.current))
    → Pre s
    → IsValid (modify_current g s)
modify_current-IsValid g s k w p =
    IsValid-alive (modify_current g s) (Pre-modify_current g s k w.0 p) (
      subst (λ t. (is_running t.state ≡ true) ⊎ (is_dead t.state ≡ true))
        (sym (current-modified g s p.core)) w.1)

-- An operation that changes the calling task by `f`, calls `next`, and on no switch makes the
-- task run again by `g`.
module _ (f g : Task → Task) (saved : ℕ) (s : Kernel) (kf : Keeps f) (kg : Keeps g)
    (wf : Waits (f (task_at s.tasks s.current)))
    (back : Settles (g (f (task_at s.tasks s.current))))
    (back_awake : Settles (g (wake_sleeper s.tick_count (f (task_at s.tasks s.current))))) where
  finish-current : IsValid s → IsValid (finish saved (modify_current g) (next (modify_current f s)))
  finish-current v =
      let s1 = modify_current f s in
      let p1 = Pre-modify_current f s kf wf (Pre-IsValid s v) in
      let cur = current-modified f s v.core in
      finish-next saved (modify_current g) s1 p1 (modify_current-IsValid g s1 kg (rw cur back) p1) (
        modify_current-IsValid g (record s1 { tasks = woken s1 }) kg
          (rw (at-woken s1 s1.current p1.core.cur, cur) back_awake) (Pre-woken s1 p1))

-- A task that goes to sleep, or runs on because no other is ready, leaves the invariant in place.
pub sleep_ms-IsValid :
    (ms saved : ℕ) (s : Kernel) → IsValid s → IsRunning s → IsValid (sleep_ms ms saved s)
unfolding sleep_ms
sleep_ms-IsValid ms saved s v run =
    let t = task_at s.tasks s.current in
    let idle = not_waiting t (v.core.waits s.current v.core.cur) run in
    let wake = add64 s.tick_count (max (ms / 10) 1) in
    let f = λ (u : Task). record u { wake_at = wake; state = blocked } in
    finish-current f (set_state running) saved s (λ u. (refl, refl)) (λ u. (refl, refl)) (λ h. cc)
      (λ h. cc, inl refl) (sleeper_back s.tick_count (f t) idle) v

-- A task that waits for an interrupt, or runs on because no other is ready, leaves the invariant in
-- place.
pub block_on_irq-IsValid :
    (vector saved : ℕ) (s : Kernel)
    → IsValid s
    → IsRunning s
    → IsValid (block_on_irq vector saved s)
unfolding block_on_irq
block_on_irq-IsValid vector saved s v run =
    let f =
      λ (u : Task). record u { waiting_irq = some vector; wake_at = u64_max; state = blocked } in
    let g = λ (u : Task). record u { state = running; waiting_irq = none } in
    finish-current f g saved s (λ u. (refl, refl)) (λ u. (refl, refl)) (λ h. (refl, refl))
      (λ h. cc, inl refl) (λ h. cc, inl refl) v

-- A task that ends leaves the invariant in place: another task runs, or the CPU halts in the dead one.
pub exit_current-IsValid :
    (saved : ℕ) (s : Kernel) → IsValid s → IsRunning s → IsValid (exit_current saved s)
unfolding exit_current
exit_current-IsValid saved s v run =
    let t = task_at s.tasks s.current in
    let idle = not_waiting t (v.core.waits s.current v.core.cur) run in
    let s1 = modify_current (set_state dead) s in
    let v1 =
      modify_current-IsValid (set_state dead) s (λ u. (refl, refl)) (λ h. cc, inr refl)
        (Pre-IsValid s v) in
    finish-next saved (λ k. k) s1 (Pre-IsValid s1 v1) v1 (woken-IsValid s1 v1)

-- A change of address space, in CR3 and in the current task at once as `run_elf` of process.rs makes
-- it, leaves the invariant in place.
pub set_current_cr3-IsValid :
    (cr3 : ℕ) (s : Kernel) → IsValid s → IsValid (record (set_current_cr3 cr3 s) { cr3 = cr3 })
unfolding set_current_cr3
set_current_cr3-IsValid cr3 s v =
    let f = λ (u : Task). record u { cr3 = cr3 } in
    let c = Core-modify_current f s v.core (v.core.waits s.current v.core.cur) in
    let e = current-modified f s v.core in
    record {
      core = record { cur = c.cur; alone = c.alone; waits = c.waits };
      loaded = record {
        space = ground (arith, e);
        stack = ground (arith, e, v.loaded.stack);
        rsp0 = ground (arith, e, v.loaded.rsp0);
      };
      alive = subst (λ t. (is_running t.state ≡ true) ⊎ (is_dead t.state ≡ true)) (sym e) v.alive;
    }
