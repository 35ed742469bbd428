-- ===== src/Sched/Fair.antt =====
-- Round robin of kernel/src/scheduler.rs is fair: a ready task runs within as many timer ticks as
-- there are tasks.
use hep_os.Prelude.{
  ==_iff, Bool-cases, List, Option, add64, ap, arith, get_or-map, inl, inr, leb, length, length-map,
  map, none, refl, some, suc, sym, true, zero, ℕ, ◌-◌, ◌<◌, ◌==◌, ◌∙◌, ◌≡◌, ◌≢◌, ◌≤◌, ◌⊎◌,
}
use hep_os.Sched.{
  Kernel, Switch, task_at, state_at, wake_sleeper, next, dispatch, finish, wake_waiter,
  wake_irq_waiters, tick,
}
use hep_os.Sched.Tasks.{Task, no_task, is_ready}
use hep_os.Sched.Next.{place_of, around-place_of, place_of-lt, woken, NoneBetween, Chosen, next_lem}
use hep_os.Sched.Invariant.{
  Core, IsValid, at-woken, length-woken, wake_sleeper-Woken, wake_waiter-Woken, Core-map,
  map-IsValid,
}
use hep_os.Sched.Parked.{parked, at-parked_other, length-parked}
use hep_os.Sched.Steps.{tick_count-IsValid, tick-IsValid}

place_of_closer :
    (n c i j : ℕ)
    → c < n
    → i < n
    → j < n
    → i ≢ c
    → j ≢ c
    → i ≢ j
    → place_of n c i ≤ place_of n c j
    → place_of n i j < place_of n c j
unfolding place_of
place_of_closer n c i j hc hi hj ic jc ij h = ground arith

-- Task `j` waits for its turn: it is ready, and not the current task.
pub record IsDue (j : ℕ) (s : Kernel) : Type 0 where
  pub slot : j < length s.tasks
  pub off : j ≢ s.current
  pub due : is_ready (state_at s.tasks j) ≡ true

-- `k` timer ticks; `saves` gives the stack pointer that each leaves behind.
unfoldable pub run_ticks : ℕ → ℕ → (ℕ → ℕ) → Kernel → Kernel
run_ticks zero v saves s = s
run_ticks (suc k) v saves s = run_ticks k v (λ i. saves (suc i)) (tick v (saves 0) s)

ready_stays :
    (now : ℕ) (t : Task) → is_ready t.state ≡ true → is_ready (wake_sleeper now t).state ≡ true
unfolding wake_sleeper
ready_stays now t h = ground arith

ready_stays_waiter :
    (v : ℕ) (t : Task) → is_ready t.state ≡ true → is_ready (wake_waiter v t).state ≡ true
unfolding wake_waiter
ready_stays_waiter v t h = ground arith

-- One switch brings a due task's turn nearer, or is its turn.
abbrev Nearer : ℕ → Kernel → Kernel → Type 0
Nearer j s s' =
    (length s'.tasks ≡ length s.tasks)
    × ((s'.current ≡ j)
        ⊎ (IsDue j s'
            × (place_of (length s'.tasks) s'.current j < place_of (length s.tasks) s.current j)))

not_between :
    (ts : List Task) (n c i j : ℕ)
    → c < n
    → j < n
    → j ≢ c
    → NoneBetween ts n c i
    → is_ready (state_at ts j) ≡ true
    → place_of n c i ≤ place_of n c j
not_between ts n c i j hc hj jc none_ready hit =
    elim (Bool-cases (leb (place_of n c i) (place_of n c j))) [
      | inl le ↦ ground arith
      | inr gt ↦
          cc (
            rw (around-place_of n c j hc hj jc) at (none_ready (place_of n c j) (ground arith)),
            hit,
          )
    ]

finish-Nearer :
    (j saved : ℕ) (s : Kernel) (r : Option Switch × Kernel)
    → Core s
    → IsDue j s
    → is_ready (state_at (woken s) j) ≡ true
    → Chosen s r
    → Nearer j s (finish saved (λ k. k) r)
unfolding finish dispatch
finish-Nearer j saved s (none, s') c d hit h = cc (h.1 j d.slot d.off, hit)
finish-Nearer j saved s (some w, s') c d hit h =
    let ws = record s { tasks = woken s } in
    let i : ℕ = h.0 in
    let n = length s.tasks in
    let cw : Core ws = Core-map (wake_sleeper s.tick_count) (wake_sleeper-Woken s.tick_count) s c in
    let li : i < length (woken s) = rw (length-woken s) (h.1) in
    let len : length (parked ws i saved cw li h.2 h.3) ≡ n =
      length-parked ws i saved cw li h.2 h.3 ∙ length-woken s in
    rw (h.6, h.5)
      (elim (Bool-cases (i == j)) [
        | inl same ↦ (len, inl ((==_iff i j).0 same))
        | inr other ↦
            let ij : i ≢ j = ground arith in
            let at = at-parked_other ws i saved cw li h.2 h.3 j d.off (λ e. ij (sym e)) in
            (
              len,
              inr (
                record {
                  slot = rw len (d.slot);
                  off = λ e. ij (sym e);
                  due = ap (λ (t : Task). is_ready t.state) at ∙ hit;
                },
                rw len (
                    place_of_closer n s.current i j c.cur h.1 d.slot h.2 d.off ij
                      (not_between (woken s) n s.current i j c.cur d.slot d.off h.4 hit)),
              ),
            )
      ])

abbrev ticked : ℕ → Kernel → Kernel
ticked v s = record s { tick_count = add64 s.tick_count 1; tasks = map (wake_waiter v) s.tasks }

tick-finish :
    (v saved : ℕ) (s : Kernel) → tick v saved s ≡ finish saved (λ k. k) (next (ticked v s))
unfolding tick wake_irq_waiters
tick-finish v saved s = refl

ticked-IsValid : (v : ℕ) (s : Kernel) → IsValid s → IsValid (ticked v s)
ticked-IsValid v s i =
    map-IsValid (wake_waiter v) (wake_waiter-Woken v)
      (record s { tick_count = add64 s.tick_count 1 })
      (tick_count-IsValid s (add64 s.tick_count 1) i)

ticked-IsDue : (j v : ℕ) (s : Kernel) → IsDue j s → IsDue j (ticked v s)
ticked-IsDue j v s d = record {
  slot = rw (length-map (wake_waiter v) s.tasks) (d.slot);
  off = d.off;
  due =
      ap (λ (t : Task). is_ready t.state)
        (get_or-map (wake_waiter v) s.tasks j no_task no_task d.slot)
      ∙ ready_stays_waiter v (task_at s.tasks j) d.due;
}

next-Nearer :
    (j saved : ℕ) (s : Kernel)
    → IsValid s
    → 2 ≤ length s.tasks
    → IsDue j s
    → Nearer j s (finish saved (λ k. k) (next s))
next-Nearer j saved s i two d =
    finish-Nearer j saved s (next s) i.core d
      (ap (λ (t : Task). is_ready t.state) (at-woken s j d.slot)
        ∙ ready_stays s.tick_count (task_at s.tasks j) d.due)
      (next_lem s two i.core.cur)

Nearer-length :
    (j : ℕ) (s s' t : Kernel)
    → length s'.tasks ≡ length s.tasks
    → s'.current ≡ s.current
    → Nearer j s' t
    → Nearer j s t
Nearer-length j s s' t len cur (same, turn) = (
  same ∙ len,
  elim turn [ inl now ↦ inl now | inr (d, closer) ↦ inr (d, rw (← len, ← cur) closer) ],
)

tick-Nearer :
    (j v saved : ℕ) (s : Kernel)
    → IsValid s
    → 2 ≤ length s.tasks
    → IsDue j s
    → Nearer j s (tick v saved s)
tick-Nearer j v saved s i two d =
    let len : length (ticked v s).tasks ≡ length s.tasks = length-map (wake_waiter v) s.tasks in
    rw (tick-finish v saved s) (
      Nearer-length j s (ticked v s) (finish saved (λ k. k) (next (ticked v s))) len refl (
        next-Nearer j saved (ticked v s) (ticked-IsValid v s i) (rw len two)
          (ticked-IsDue j v s d)))

runs_within :
    (k j v : ℕ) (saves : ℕ → ℕ) (s : Kernel)
    → IsValid s
    → IsDue j s
    → 2 ≤ length s.tasks
    → place_of (length s.tasks) s.current j < k
    → (m : ℕ) × (m ≤ k) × ((run_ticks m v saves s).current ≡ j)
unfolding run_ticks
runs_within zero j v saves s i d two h = absurd (omega arith)
runs_within (suc k) j v saves s i d two h =
    let s' = tick v (saves 0) s in
    let near = tick-Nearer j v (saves 0) s i two d in
    elim near.1 [
      | inl now ↦ (1, omega arith, now)
      | inr (d', closer) ↦
          let rest =
            runs_within k j v (λ n. saves (suc n)) s' (tick-IsValid v (saves 0) s i) d'
              (rw (near.0) two) (omega arith) in
          (suc rest.0, omega (arith, rest.1), rest.2)
    ]

-- In a valid state with a ready task `j` that is not the current one, fewer timer ticks than there
-- are tasks make `j` the current task, whatever stack pointers the switches leave behind.
pub ready_task_runs :
    (j v : ℕ) (saves : ℕ → ℕ) (s : Kernel)
    → IsValid s
    → IsDue j s
    → (m : ℕ) × (m < length s.tasks) × ((run_ticks m v saves s).current ≡ j)
ready_task_runs j v saves s i d =
    let n = length s.tasks in
    let small = place_of-lt n s.current j i.core.cur d.slot d.off in
    let r =
      runs_within (n - 1) j v saves s i d (omega (arith, i.core.cur)) (omega (arith, small)) in
    (r.0, omega (arith, r.1, small), r.2)
