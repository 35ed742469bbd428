-- ===== src/Process/Registry.antt =====
-- What the lookups of kernel/src/process.rs find of a process that exec_blocking has entered.
use hep_os.Prelude.{
  ==_refl, Bool, List, [], false, if◌then◌else◌, leb, length, none, refl, some, true, ℕ, ◌&&◌, ◌++◌,
  ◌==◌, ◌∷◌, ◌≡◌,
}
use hep_os.HepFs.Dir.{same_bytes}
use hep_os.HepFs.Entries.{same_bytes_refl}
use hep_os.Process.{
  running, is_running, ProcEntry, Processes, max_procs, drop_exited, begin_exec, last_running,
  is_process_running, pid_for_name, name_for_running_pid,
}

last_running-append {ℓ} :
    {A : Type ℓ} (test : ProcEntry → Bool) (get : ProcEntry → A) (tab : List ProcEntry)
    (e : ProcEntry) (found : A)
    → is_running e.state ≡ true
    → test e ≡ true
    → last_running test get (tab ++ (e ∷ [])) found ≡ get e
unfolding last_running
last_running-append test get [] e found live holds = rw (live, holds)
last_running-append test get (d ∷ tab) e found live holds =
    last_running-append test get tab e (if is_running d.state && test d then get d else found) live
      holds

-- Whatever the table holds, a process that exec_blocking has just entered is found: as running by its
-- name, with its pid by its name, and with its name by its pid.
pub begin_exec_lem :
    (name : List ℕ) (s : Processes)
    → (is_process_running name (begin_exec name s).1 ≡ true)
      × (pid_for_name name (begin_exec name s).1 ≡ some (begin_exec name s).0)
      × (name_for_running_pid (begin_exec name s).0 (begin_exec name s).1 ≡ some name)
unfolding begin_exec is_process_running pid_for_name name_for_running_pid
begin_exec_lem name s =
    let tab = if leb max_procs (length s.table) then drop_exited s.table else s.table in
    let e : ProcEntry = record { pid = s.next_pid; name = name; state = running; exit_code = 0 } in
    let named = same_bytes_refl name in
    (
      last_running-append (λ d. same_bytes d.name name) (λ d. true) tab e false refl named,
      last_running-append (λ d. same_bytes d.name name) (λ d. some d.pid) tab e none refl named,
      last_running-append (λ d. d.pid == s.next_pid) (λ d. some d.name) tab e none refl
          (==_refl s.next_pid),
    )
