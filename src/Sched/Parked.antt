-- ===== src/Sched/Parked.antt =====
-- The state behind a switch of kernel/src/scheduler.rs: which task changes and how.
use hep_os.Prelude.{
  ==_iff, ==_refl, Bool-cases, List, ap, arith, false, if◌then◌else◌, inl, inr, length, length-set,
  true, ℕ, ◌<◌, ◌==◌, ◌∙◌, ◌≡◌, ◌≢◌,
}
use hep_os.Sched.{Kernel, task_at, state_at, modify, set_state}
use hep_os.Sched.Tasks.{running, ready, Task, is_running, is_ready}
use hep_os.Sched.Invariant.{Waits, Core, IsValid, at-modify}

abbrev pub relabel : Task → Task
relabel t = if is_running t.state then set_state ready t else t

relabel_rests : (t : Task) → is_running (relabel t).state ≡ false
relabel_rests t = ground arith

abbrev pub save_rsp : ℕ → Task → Task
save_rsp saved t = record t { rsp = saved }

Waits-relabel : (t : Task) (saved : ℕ) → Waits t → Waits (save_rsp saved (relabel t))
Waits-relabel t saved w h = ground arith

Waits-chosen : (t : Task) → Waits t → is_ready t.state ≡ true → Waits (set_state running t)
Waits-chosen t w hit h = ground arith

-- The state behind a switch from the current task to the ready task `j`.
module _ (s : Kernel) (j saved : ℕ) (c : Core s) (lt : j < length s.tasks) (ne : j ≢ s.current)
    (hit : is_ready (state_at s.tasks j) ≡ true) where
  abbrev pub put_back : List Task
  put_back =
      if is_running (state_at s.tasks s.current)
      then modify s.current (set_state ready) s.tasks
      else s.tasks

  abbrev pub taken : List Task
  taken = modify j (set_state running) put_back

  abbrev pub parked : List Task
  parked = modify s.current (save_rsp saved) taken

  length-put_back : length put_back ≡ length s.tasks
  length-put_back =
      ground (arith, length-set s.tasks s.current (set_state ready (task_at s.tasks s.current)))

  length-taken : length taken ≡ length s.tasks
  length-taken = length-set put_back j (set_state running (task_at put_back j)) ∙ length-put_back

  at-put_back : (q : ℕ) → q ≢ s.current → task_at put_back q ≡ task_at s.tasks q
  at-put_back q other = ground (arith, at-modify s.tasks s.current q (set_state ready) c.cur)

  -- The task that is switched away from is no longer running, and otherwise as it was.
  at-put_back_old : task_at put_back s.current ≡ relabel (task_at s.tasks s.current)
  at-put_back_old = elim (Bool-cases (is_running (state_at s.tasks s.current))) [
    | inl run ↦
        rw (run, at-modify s.tasks s.current s.current (set_state ready) c.cur, ==_refl s.current)
    | inr idle ↦ rw idle
  ]

  at-taken :
      (q : ℕ)
      → task_at taken q
        ≡ (if j == q then set_state running (task_at put_back q) else task_at put_back q)
  at-taken q = elim (Bool-cases (j == q)) [
    | inl same ↦
        let e : j ≡ q = (==_iff j q).0 same in
        rw (← e) (at-modify put_back j j (set_state running) (rw length-put_back lt))
    | inr diff ↦ at-modify put_back j q (set_state running) (rw length-put_back lt) ∙ rw diff
  ]

  at-parked :
      (q : ℕ)
      → task_at parked q
        ≡ (if s.current == q then save_rsp saved (task_at taken s.current) else task_at taken q)
  at-parked q = at-modify taken s.current q (save_rsp saved) (rw length-taken c.cur)

  at-parked_old : task_at parked s.current ≡ save_rsp saved (relabel (task_at s.tasks s.current))
  at-parked_old =
      let kept : task_at taken s.current ≡ relabel (task_at s.tasks s.current) =
        ground (arith, at-taken s.current, at-put_back_old) in
      ground (arith, at-parked s.current, kept)

  at-parked_new : task_at parked j ≡ set_state running (task_at s.tasks j)
  at-parked_new = ground (arith, at-parked j, at-taken j, at-put_back j)

  pub at-parked_other : (q : ℕ) → q ≢ s.current → q ≢ j → task_at parked q ≡ task_at s.tasks q
  at-parked_other q old new = ground (arith, at-parked q, at-taken q, at-put_back q)

  pub length-parked : length parked ≡ length s.tasks
  length-parked =
      length-set taken s.current (save_rsp saved (task_at taken s.current)) ∙ length-taken

  at-taken_new : task_at taken j ≡ set_state running (task_at s.tasks j)
  at-taken_new = ground (arith, at-taken j, at-put_back j)

  Waits-parked : (q : ℕ) → q < length s.tasks → Waits (task_at parked q)
  Waits-parked q lq = elim (Bool-cases (q == s.current)) [
    | inl old ↦
        rw ((==_iff q s.current).0 old, at-parked_old)
          (Waits-relabel (task_at s.tasks s.current) saved (c.waits s.current c.cur))
    | inr not_old ↦ elim (Bool-cases (q == j)) [
      | inl new ↦
          rw ((==_iff q j).0 new, at-parked_new)
            (Waits-chosen (task_at s.tasks j) (c.waits j lt) hit)
      | inr not_new ↦ rw (at-parked_other q (ground arith) (ground arith)) (c.waits q lq)
    ]
  ]

  rests-parked : (q : ℕ) → q < length s.tasks → q ≢ j → is_running (state_at parked q) ≡ false
  rests-parked q lq new = elim (Bool-cases (q == s.current)) [
    | inl old ↦ rw ((==_iff q s.current).0 old) (
        ap (λ (t : Task). is_running t.state) at-parked_old
        ∙ relabel_rests (task_at s.tasks s.current))
    | inr not_old ↦
        let other : q ≢ s.current = ground arith in
        ap (λ (t : Task). is_running t.state) (at-parked_other q other new) ∙ c.alone q lq other
  ]

  -- A switch to a ready task keeps the invariant, and leaves that task running and loaded.
  pub IsValid-parked : IsValid (record s {
    tasks = parked;
    current = j;
    cr3 = (task_at taken j).cr3;
    kernel_stack = (task_at taken j).kstack_top;
    tss_rsp0 = (task_at taken j).kstack_top;
  })
  IsValid-parked = record {
    core = record {
      cur = rw length-parked lt;
      alone = λ i li other. rests-parked i (rw length-parked at li) other;
      waits = λ i li. Waits-parked i (rw length-parked at li);
    };
    loaded = record {
      space = ground (arith, at-parked_new, at-taken_new);
      stack = ground (arith, at-parked_new, at-taken_new);
      rsp0 = ground (arith, at-parked_new, at-taken_new);
    };
    alive = inl (ap (λ (t : Task). is_running t.state) at-parked_new);
  }
