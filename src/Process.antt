-- ===== src/Process.antt =====
-- kernel/src/process.rs: the slot of a process with the device memory mapped for it, the captured
-- output of the processes, and the process table.
pub mod Mapped
pub mod Output
pub mod Registry
mod Tests
use hep_os.Prelude.{
  Bool, List, Option, [], add64, false, if◌then◌else◌, leb, length, ltb, min, none, not, some, suc,
  true, zero, ℕ, ◌%◌, ◌&&◌, ◌*◌, ◌++◌, ◌+◌, ◌-◌, ◌/◌, ◌==◌, ◌^◌, ◌||◌, ◌∷◌,
}
use hep_os.Paging.{write, nocache, Table, map_page_current_user}
use hep_os.HepFs.Dir.{same_bytes}

-- PROC_OUT, and slot_index() as the argument `idx`.
abbrev pub Outputs : Type 0
Outputs = List (ℕ × List ℕ)

-- scheduler::current_task_index() is the argument.
unfoldable pub slot_index : ℕ → ℕ
slot_index current = min current 31

unfoldable pub proc_write : ℕ → List ℕ → Outputs → Outputs
proc_write idx bytes [] = (idx, bytes) ∷ []
proc_write idx bytes ((i, buf) ∷ out) =
    let rest = proc_write idx bytes out in
    if i == idx then (i, buf ++ bytes) ∷ out else (i, buf) ∷ rest

unfoldable pub take_proc_output : ℕ → Outputs → List ℕ × Outputs
take_proc_output idx [] = ([], [])
take_proc_output idx ((i, buf) ∷ out) =
    let rest = take_proc_output idx out in
    if i == idx then (buf, out) else (rest.0, (i, buf) ∷ rest.1)

pub data ProcState : Type 0 where
  running exited : ProcState

abbrev pub is_running : ProcState → Bool
is_running running = true
is_running exited = false

pub record ProcEntry : Type 0 where
  pub pid : ℕ
  pub name : List ℕ
  pub state : ProcState
  pub exit_code : ℕ

-- PROCTAB and NEXT_PID.
pub record Processes : Type 0 where
  pub table : List ProcEntry
  pub next_pid : ℕ

abbrev pub max_procs : ℕ
max_procs = 32

unfoldable pub drop_exited : List ProcEntry → List ProcEntry
drop_exited [] = []
drop_exited (e ∷ tab) = let rest = drop_exited tab in if is_running e.state then e ∷ rest else tab

-- exec_blocking from its new pid up to its call of run_elf, behind the clearing of the output.
unfoldable pub begin_exec : List ℕ → Processes → ℕ × Processes
begin_exec name s =
    let tab = if leb max_procs (length s.table) then drop_exited s.table else s.table in
    let e : ProcEntry = record { pid = s.next_pid; name = name; state = running; exit_code = 0 } in
    (s.next_pid, record { table = tab ++ (e ∷ []); next_pid = (s.next_pid + 1) % 2 ^ 32 })

unfoldable pub set_exited : ℕ → ℕ → List ProcEntry → List ProcEntry
set_exited pid code [] = []
set_exited pid code (e ∷ tab) =
    let rest = set_exited pid code tab in
    if e.pid == pid then record e { state = exited; exit_code = code } ∷ tab else e ∷ rest

-- exec_blocking from the return of run_elf on, with its result.
unfoldable pub end_exec : ℕ → Option ℕ → Processes → Processes
end_exec pid result s =
    let code : ℕ = elim result [ some code ↦ code | none ↦ 2 ^ 64 - 1 ] in
    record s { table = set_exited pid code s.table }

-- for_each_proc with the closures of the three lookups: the last entry that passes the test.
unfoldable pub last_running {ℓ} :
    {A : Type ℓ} → (ProcEntry → Bool) → (ProcEntry → A) → List ProcEntry → A → A
last_running test get [] found = found
last_running test get (e ∷ tab) found =
    last_running test get tab (if is_running e.state && test e then get e else found)

unfoldable pub is_process_running : List ℕ → Processes → Bool
is_process_running name s = last_running (λ e. same_bytes e.name name) (λ e. true) s.table false

unfoldable pub pid_for_name : List ℕ → Processes → Option ℕ
pid_for_name name s = last_running (λ e. same_bytes e.name name) (λ e. some e.pid) s.table none

unfoldable pub name_for_running_pid : ℕ → Processes → Option (List ℕ)
name_for_running_pid pid s = last_running (λ e. e.pid == pid) (λ e. some e.name) s.table none

-- The slot of the calling task; the tables that CR3 points to, and how many frames pmm::alloc_page can
-- still give.
pub record Space : Type 0 where
  pub user_running : Bool
  pub mmio_next_va : ℕ
  pub tables : Table 3
  pub frames : ℕ

-- After a call of map_page_current_user; none is the panic of get_or_make_user.
abbrev pub and_then :
    (Table 3 → ℕ → Option (Table 3 × ℕ)) → Option (Table 3 × ℕ) → Option (Table 3 × ℕ)
and_then rest none = none
and_then rest (some (table, frames)) = rest table frames

-- for i in 0..pages, with `n` rounds left.
unfoldable pub map_pages : ℕ → ℕ → List ℕ → ℕ → ℕ → Table 3 → ℕ → Option (Table 3 × ℕ)
unfolding map_page_current_user
map_pages virt phys flags i zero table frames = some (table, frames)
map_pages virt phys flags i (suc n) table frames =
    and_then (map_pages virt phys flags (i + 1) n)
      (map_page_current_user (add64 virt (i * 4096)) (add64 phys (i * 4096)) flags table frames)

-- The returned address, and the slot with the cursor and the tables as they are now.
abbrev pub granted : ℕ → ℕ → Space → Option (Table 3 × ℕ) → Option (ℕ × Space)
granted va next_va s none = none
granted va next_va s (some (table, left)) =
    some (va, record s { mmio_next_va = next_va; tables = table; frames = left })

-- The sum for `pages` is taken as it is: at most 16 MB and two pages. None is a panic.
unfoldable pub map_mmio_for_user : ℕ → ℕ → Space → Option (ℕ × Space)
unfolding map_pages
map_mmio_for_user phys len s =
    let page_off = phys % 4096 in
    let phys_base = phys - page_off in
    let pages = (page_off + len + 0xFFF) / 4096 in
    let virt_base = s.mmio_next_va in
    if not s.user_running || len == 0 || ltb (16 * 1024 * 1024) len
    then some (0, s)
    else granted (add64 virt_base page_off) (add64 virt_base (pages * 4096)) s
        (map_pages virt_base phys_base (write ∷ nocache ∷ []) 0 pages s.tables s.frames)
