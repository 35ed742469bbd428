-- ===== src/Sched/Spawn.antt =====
-- `spawn` of kernel/src/scheduler.rs: a new task takes the slot of a dead one, or a new slot.
use hep_os.Prelude.{
  ==_iff, Bool-cases, List, Option, [], add64, arith, false, get_or-append_new, get_or-append_old,
  get_or-set, if◌then◌else◌, inl, inr, length, length-append, length-set, none, refl, set, some,
  subst, suc, sym, true, zero, ℕ, ◌++◌, ◌+◌, ◌<◌, ◌==◌, ◌∷◌, ◌≡◌, ◌≢◌, ◌≤◌, ◌⊎◌,
}
use hep_os.Sched.{Kernel, task_at, state_at, find_dead, spawn}
use hep_os.Sched.Tasks.{Task, no_task, is_running, is_ready, is_dead, new_task}
use hep_os.Sched.Invariant.{Waits, IsValid}
use hep_os.Sched.Steps.{IsRunning}

-- The slot found is dead, and no slot before it is; or no slot at all is dead.
abbrev Dead : List Task → Option ℕ → Type 0
Dead ts none = (i : ℕ) → i < length ts → is_dead (state_at ts i) ≡ false
Dead ts (some d) =
    (d < length ts)
    × (is_dead (state_at ts d) ≡ true)
    × ((i : ℕ) → i < d → is_dead (state_at ts i) ≡ false)

Dead-cons :
    (t : Task) (ts : List Task) (r : Option ℕ)
    → is_dead t.state ≡ false
    → Dead ts r
    → Dead (t ∷ ts) (elim r [ none ↦ none | some i ↦ some (i + 1) ])
Dead-cons t ts none live h = at
  where
    at : (i : ℕ) → i < suc (length ts) → is_dead (state_at (t ∷ ts) i) ≡ false
    at zero lt = live
    at (suc i) lt = h i (omega arith)
Dead-cons t ts (some d) live h = (omega (arith, h.0), found, before)
  where
    found : is_dead (state_at (t ∷ ts) (d + 1)) ≡ true
    found = let e : d + 1 ≡ suc d = omega arith in rw e (h.1)

    before : (i : ℕ) → i < d + 1 → is_dead (state_at (t ∷ ts) i) ≡ false
    before zero lt = live
    before (suc i) lt = h.2 i (omega arith)

find_dead-Dead : (ts : List Task) → Dead ts (find_dead ts)
unfolding find_dead
find_dead-Dead [] = λ i lt. absurd (omega arith)
find_dead-Dead (t ∷ ts) = elim (Bool-cases (is_dead t.state)) [
  | inl end ↦ rw end (omega arith, end, λ i lt. absurd (omega arith))
  | inr live ↦ rw live (Dead-cons t ts (find_dead ts) live (find_dead-Dead ts))
]

-- A new or reused slot that holds a ready task beside the current one.
placed :
    (s : Kernel) (t : Task) (ts : List Task) (slot id : ℕ)
    → IsValid s
    → slot ≢ s.current
    → is_ready t.state ≡ true
    → Waits t
    → length s.tasks ≤ length ts
    → ((i : ℕ) → i < length ts → i ≢ slot → i < length s.tasks)
    → ((i : ℕ) → i < length ts → task_at ts i ≡ (if i == slot then t else task_at s.tasks i))
    → IsValid (record s { tasks = ts; next_task_id = id })
placed s t ts slot id v apart fresh quiet grows old at =
    let cur : s.current < length ts = omega (arith, v.core.cur) in
    let same : task_at ts s.current ≡ task_at s.tasks s.current =
      ground (arith, at s.current cur) in
    record {
      core = record {
        cur = cur;
        alone = λ i lt ne. ground (arith, at i lt, v.core.alone i, old i lt);
        waits = λ i lt. elim (Bool-cases (i == slot)) [
          | inl new ↦ rw (at i lt, new) quiet
          | inr other ↦ rw (at i lt, other) (v.core.waits i (old i lt (ground arith)))
        ];
      };
      loaded = record {
        space = rw same (v.loaded.space);
        stack = rw same (v.loaded.stack);
        rsp0 = rw same (v.loaded.rsp0);
      };
      alive =
          subst (λ u. (is_running u.state ≡ true) ⊎ (is_dead u.state ≡ true)) (sym same) v.alive;
    }

running_not_dead : (t : Task) → is_running t.state ≡ true → is_dead t.state ≡ true → ⊥
running_not_dead t run end = ground arith

spawn_into :
    (s : Kernel) (t : Task) (id : ℕ) (r : Option ℕ)
    → IsValid s
    → IsRunning s
    → is_ready t.state ≡ true
    → Waits t
    → Dead s.tasks r
    → let ts : List Task = elim r [ some i ↦ set s.tasks i t | none ↦ s.tasks ++ (t ∷ []) ] in
      IsValid (record s { tasks = ts; next_task_id = id })
spawn_into s t id (some d) v run fresh quiet h =
    placed s t (set s.tasks d t) d id v
      (λ e. running_not_dead (task_at s.tasks s.current) run (rw e at (h.1))) fresh quiet
      (omega (arith, length-set s.tasks d t)) (λ i lt ne. omega (arith, length-set s.tasks d t))
      (λ i lt. ground (arith, get_or-set s.tasks d i t no_task h.0))
spawn_into s t id none v run fresh quiet h =
    let len = length-append s.tasks (t ∷ []) in
    placed s t (s.tasks ++ (t ∷ [])) (length s.tasks) id v (omega (arith, v.core.cur)) fresh quiet
      (omega (arith, len)) (λ i lt ne. omega (arith, len)) (λ i lt. appended i (omega (arith, len)))
  where
    appended :
        (i : ℕ)
        → i ≤ length s.tasks
        → task_at (s.tasks ++ (t ∷ [])) i ≡ (if i == length s.tasks then t else task_at s.tasks i)
    appended i le = elim (Bool-cases (i == length s.tasks)) [
      | inl new ↦
          rw new (rw ((==_iff i (length s.tasks)).0 new) (get_or-append_new s.tasks t no_task))
      | inr other ↦ rw other (get_or-append_old s.tasks (t ∷ []) i no_task (ground arith))
    ]

-- `spawn` keeps the invariant: the new task is ready, and the calling one runs on.
pub spawn-IsValid :
    (name : List ℕ) (entry stack kstack trampoline : ℕ) (s : Kernel)
    → IsValid s
    → IsRunning s
    → IsValid (spawn name entry stack kstack trampoline s).1
unfolding spawn new_task
spawn-IsValid name entry stack kstack trampoline s v run =
    spawn_into s (new_task s.next_task_id name entry stack kstack s.cr3 trampoline)
      (add64 s.next_task_id 1) (find_dead s.tasks) v run refl (λ h. cc) (find_dead-Dead s.tasks)
