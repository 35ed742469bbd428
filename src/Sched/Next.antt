-- ===== src/Sched/Next.antt =====
-- `Scheduler::next` of kernel/src/scheduler.rs picks the first ready task after the current one.
use native.Mathlib.Nat.{mod-eq_of_lt}
use hep_os.Sched.{
  Kernel, Switch, task_at, state_at, modify, wake_sleeper, find_ready, set_state, switch_to, next,
}
use hep_os.Sched.Tasks.{running, ready, Task, is_running, is_ready}
use hep_os.Prelude.{
  ==_iff, Bool-cases, List, Option, arith, false, if◌then◌else◌, inl, inr, length, ltb, ltb→lt, map,
  none, refl, some, suc, sym, true, zero, ℕ, ◌%◌, ◌+◌, ◌-◌, ◌<◌, ◌==◌, ◌∙◌, ◌≡◌, ◌≢◌, ◌≤◌,
}

-- The slot `d` places after slot `i`, going round.
abbrev pub around : ℕ → ℕ → ℕ → ℕ
around n i zero = i
around n i (suc d) = around n ((i + 1) % n) d

abbrev pub wrap : ℕ → ℕ → ℕ
wrap n x = if ltb x n then x else x - n

mod_self : (n : ℕ) → 0 < n → n % n ≡ 0
mod_self n h = grind arith

next_slot : (n i : ℕ) → i < n → (i + 1) % n ≡ wrap n (i + 1)
next_slot n i h = elim (Bool-cases (ltb (i + 1) n)) [
  | inl lt ↦ rw lt (mod-eq_of_lt (ltb→lt (i + 1) n lt))
  | inr ge ↦
      let e : i + 1 ≡ n = ground arith in rw ge (rw e (omega (arith, mod_self n (omega arith))))
]

pub around-wrap : (d n i : ℕ) → i < n → d ≤ n → around n i d ≡ wrap n (i + d)
around-wrap zero n i h k = ground arith
around-wrap (suc d) n i h k = ground (arith, next_slot n i, around-wrap d n ((i + 1) % n))

slot_lt : (n i : ℕ) → i < n → (i + 1) % n < n
slot_lt n i h = ground (arith, next_slot n i)

around_lt : (d n i : ℕ) → i < n → around n i d < n
around_lt zero n i h = h
around_lt (suc d) n i h = around_lt d n ((i + 1) % n) (slot_lt n i h)

-- What a search of `k` slots from slot `i` has found in slot `r`: `d` slots that are not ready, and
-- then a ready one unless the search ran out.
abbrev Found : ℕ → ℕ → ℕ → List Task → ℕ → Type 0
Found k n i ts r =
    (d : ℕ) × (d ≤ k)
    × (r ≡ around n i d)
    × ((e : ℕ) → e < d → is_ready (state_at ts (around n i e)) ≡ false)
    × ((d < k) → is_ready (state_at ts r) ≡ true)

Found-skip :
    (k n i : ℕ) (ts : List Task) (r : ℕ)
    → is_ready (state_at ts i) ≡ false
    → Found k n ((i + 1) % n) ts r
    → Found (suc k) n i ts r
Found-skip k n i ts r idle h = (suc h.0, omega (arith, h.1), h.2, before, λ lt. h.4 (omega arith))
  where
    before : (e : ℕ) → e < suc h.0 → is_ready (state_at ts (around n i e)) ≡ false
    before zero lt = idle
    before (suc e) lt = h.3 e (omega arith)

find_ready-Found : (k n i : ℕ) (ts : List Task) → Found k n i ts (find_ready k n i ts)
unfolding find_ready
find_ready-Found zero n i ts =
    (0, omega arith, refl, (λ e lt. absurd (omega arith)), λ lt. absurd (omega arith))
find_ready-Found (suc k) n i ts = elim (Bool-cases (is_ready (state_at ts i))) [
  | inl hit ↦ rw hit (0, omega arith, refl, (λ e lt. absurd (omega arith)), λ lt. hit)
  | inr idle ↦ rw idle (
      Found-skip k n i ts (find_ready k n ((i + 1) % n) ts) idle
        (find_ready-Found k n ((i + 1) % n) ts))
]

-- From the slot after `c`, every other slot comes up within `n - 1` places.
unfoldable pub place_of : ℕ → ℕ → ℕ → ℕ
place_of n c j = if ltb c j then j - c - 1 else j + n - c - 1

pub around-place_of :
    (n c j : ℕ) → c < n → j < n → j ≢ c → around n ((c + 1) % n) (place_of n c j) ≡ j
unfolding place_of
around-place_of n c j hc hj ne =
    ground (arith, next_slot n c, around-wrap (place_of n c j) n ((c + 1) % n))

pub place_of-lt : (n c j : ℕ) → c < n → j < n → j ≢ c → place_of n c j + 1 < n
unfolding place_of
place_of-lt n c j hc hj ne = ground arith

-- The tasks once the sleepers whose time has come are ready.
abbrev pub woken : Kernel → List Task
woken s = map (wake_sleeper s.tick_count) s.tasks

-- The slots between the current one and slot `j`, in round-robin order, hold no ready task.
abbrev pub NoneBetween : List Task → ℕ → ℕ → ℕ → Type 0
NoneBetween ts n c j =
    (e : ℕ) → e < place_of n c j → is_ready (state_at ts (around n ((c + 1) % n) e)) ≡ false

-- What `next` does with two or more tasks.
abbrev pub Chosen : Kernel → Option Switch × Kernel → Type 0
Chosen s (none, s') =
    (s' ≡ record s { tasks = woken s })
    × ((j : ℕ) → j < length s.tasks → j ≢ s.current → is_ready (state_at (woken s) j) ≡ false)
Chosen s (some w, s') =
    (j : ℕ) × (j < length s.tasks)
    × (j ≢ s.current)
    × (is_ready (state_at (woken s) j) ≡ true)
    × NoneBetween (woken s) (length s.tasks) s.current j
    × (s' ≡ record s {
      tasks = modify j (set_state running) (
          if is_running (state_at (woken s) s.current)
          then modify s.current (set_state ready) (woken s)
          else woken s);
      current = j;
    })
    × (w ≡ record {
      old_slot = s.current;
      new_rsp = (task_at s'.tasks j).rsp;
      new_cr3 = (task_at s'.tasks j).cr3;
      new_kstack_top = (task_at s'.tasks j).kstack_top;
    })

-- Two places below `n` that hold the same slot are the same place.
around_inj : (n i d e : ℕ) → i < n → d < n → e < n → around n i d ≡ around n i e → d ≡ e
around_inj n i d e h hd he same = ground (arith, around-wrap d n i h, around-wrap e n i h)

around_current : (n c d : ℕ) → c < n → d ≤ n → around n ((c + 1) % n) d ≡ c → n ≤ d + 1
around_current n c d h hd same =
    ground (arith, next_slot n c, around-wrap d n ((c + 1) % n), slot_lt n c)

-- A ready slot is found within `n` places: if the search ran out, no slot is ready.
Found-within :
    (n i : ℕ) (ts : List Task) (r : ℕ)
    → i < n
    → (h : Found n n i ts r) → is_ready (state_at ts r) ≡ true
    → h.0 < n
Found-within n i ts r lt h hit = elim (Bool-cases (ltb h.0 n)) [
  | inl below ↦ ltb→lt h.0 n below
  | inr out ↦
      let all : h.0 ≡ n = ground (arith, h.1) in
      let back : r ≡ i = h.2 ∙ ground (arith, around-wrap n n i lt) in
      absurd (cc (h.3 0 (omega arith), rw back at hit))
]

module _ (s : Kernel) (r : ℕ) (two : 2 ≤ length s.tasks) (cur : s.current < length s.tasks)
    (h : Found
      (length s.tasks)
      (length s.tasks)
      ((s.current + 1) % length s.tasks)
      (woken s)
      r) where
  idle_if_past :
      length s.tasks ≤ h.0 + 1
      → (j : ℕ) → j < length s.tasks
      → j ≢ s.current
      → is_ready (state_at (woken s) j) ≡ false
  idle_if_past past j lt ne =
      let p = place_of (length s.tasks) s.current j in
      rw (around-place_of (length s.tasks) s.current j cur lt ne) at
        (h.3 p (omega (arith, place_of-lt (length s.tasks) s.current j cur lt ne)))

  none_between :
      is_ready (state_at (woken s) r) ≡ true
      → r < length s.tasks
      → r ≢ s.current
      → NoneBetween (woken s) (length s.tasks) s.current r
  none_between hit lt ne e small =
      let n = length s.tasks in
      let p = place_of n s.current r in
      let place : h.0 ≡ p =
        around_inj n ((s.current + 1) % n) h.0 p (slot_lt n s.current cur)
          (Found-within n ((s.current + 1) % n) (woken s) r (slot_lt n s.current cur) h hit)
          (omega (arith, place_of-lt n s.current r cur lt ne))
          (sym (h.2) ∙ sym (around-place_of n s.current r cur lt ne)) in
      h.3 e (omega arith)

  ran_out : is_ready (state_at (woken s) r) ≡ false → length s.tasks ≤ h.0 + 1
  ran_out idle = elim (Bool-cases (ltb h.0 (length s.tasks))) [
    | inl below ↦ cc (h.4 (ltb→lt h.0 (length s.tasks) below))
    | inr out ↦ ground arith
  ]

  slot_in : r < length s.tasks
  slot_in =
      let n = length s.tasks in
      rw (h.2) (around_lt h.0 n ((s.current + 1) % n) (slot_lt n s.current cur))

  switch_to-Chosen : Chosen s (switch_to r (record s { tasks = woken s }))
  unfolding switch_to
  switch_to-Chosen = elim (Bool-cases (is_ready (state_at (woken s) r))) [
    | inr idle ↦ rw idle (refl, idle_if_past (ran_out idle))
    | inl hit ↦ elim (Bool-cases (r == s.current)) [
      | inl same ↦
          let back : r ≡ s.current = (==_iff r s.current).0 same in
          rw (hit, same)
            (
              refl,
              idle_if_past
                  (around_current (length s.tasks) s.current h.0 cur h.1 (sym (h.2) ∙ back)),
            )
      | inr other ↦
          let ne : r ≢ s.current = ground arith in
          rw (hit, other) (r, slot_in, ne, hit, none_between hit slot_in ne, refl, refl)
    ]
  ]

-- With two or more tasks and the current one among them, `next` first makes the sleepers ready whose
-- time has come. Then it either switches to a ready task other than the current one, such that no
-- task between the two in round-robin order is ready: that task becomes running and current, the old
-- one becomes ready if it was running, and the new task's rsp, CR3 and kernel stack are returned; or
-- it changes nothing more, and no task but perhaps the current one is ready.
pub next_lem : (s : Kernel) → 2 ≤ length s.tasks → s.current < length s.tasks → Chosen s (next s)
unfolding next
next_lem s two cur =
    let n = length s.tasks in
    let many : ltb n 2 ≡ false = ground arith in
    let start = (s.current + 1) % n in
    rw many (
      switch_to-Chosen s (find_ready n n start (woken s)) two cur
        (find_ready-Found n n start (woken s)))
