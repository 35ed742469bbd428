-- ===== src/Process/Tests.antt =====
-- Two processes that write, and device memory mapped for one.
use hep_os.Prelude.{[], arith, none, refl, some, true, ◌++◌, ◌∷◌, ◌≡◌}
use hep_os.Process.{
  Outputs, proc_write, take_proc_output, exited, Processes, begin_exec, set_exited, end_exec,
  last_running, is_process_running, pid_for_name, name_for_running_pid, Space, map_pages,
  map_mmio_for_user,
}
use hep_os.Process.Output.{proc_write_lem}
use hep_os.Process.Registry.{begin_exec_lem}
use hep_os.Paging.{empty_table, get_or_make_user, put_mapping, map_page_current_user}
use hep_os.Process.Mapped.{Answers, map_mmio_for_user_lem}

abbrev two_outputs : Outputs
two_outputs = (3, b'a' ∷ []) ∷ (5, b'x' ∷ []) ∷ []

proc_write_lem_example :
    ((take_proc_output 5 (proc_write 5 (b'y' ∷ []) two_outputs)).0
      ≡ (take_proc_output 5 two_outputs).0 ++ (b'y' ∷ []))
    × ((take_proc_output 5 (proc_write 5 (b'y' ∷ []) two_outputs)).1
        ≡ (take_proc_output 5 two_outputs).1)
proc_write_lem_example = proc_write_lem 5 5 (b'y' ∷ []) two_outputs

-- A table with one process of the name "a", that has exited.
abbrev one_exited : Processes
one_exited = record {
  table = record { pid = 1; name = b'a' ∷ []; state = exited; exit_code = 0 } ∷ [];
  next_pid = 2;
}

begin_exec_lem_example :
    (is_process_running (b'a' ∷ []) (begin_exec (b'a' ∷ []) one_exited).1 ≡ true)
    × (pid_for_name (b'a' ∷ []) (begin_exec (b'a' ∷ []) one_exited).1
        ≡ some (begin_exec (b'a' ∷ []) one_exited).0)
    × (name_for_running_pid
          (begin_exec (b'a' ∷ []) one_exited).0
          (begin_exec (b'a' ∷ []) one_exited).1
        ≡ some (b'a' ∷ []))
begin_exec_lem_example = begin_exec_lem (b'a' ∷ []) one_exited

-- An exited process is gone from the lookups.
name_gone : pid_for_name (b'a' ∷ []) (end_exec 2 none (begin_exec (b'a' ∷ []) one_exited).1) ≡ none
unfolding pid_for_name end_exec begin_exec last_running set_exited
name_gone = refl

abbrev fresh : Space
fresh = record {
  user_running = true;
  mmio_next_va = 0x60000000;
  tables = empty_table 3;
  frames = 6;
}

map_mmio_for_user_lem_example :
    Answers 0xFED00010 5000 4999 0x1000 fresh (map_mmio_for_user 0xFED00010 5000 fresh)
map_mmio_for_user_lem_example =
    map_mmio_for_user_lem 0xFED00010 5000 4999 0x1000 fresh refl refl (omega arith) (omega arith)
      (omega arith) (omega arith) (omega arith) (omega arith) (omega arith)

-- With two frames the third table cannot be made.
out_of_frames : map_mmio_for_user 0xFED00010 5000 (record fresh { frames = 2 }) ≡ none
unfolding map_mmio_for_user map_pages map_page_current_user put_mapping get_or_make_user
out_of_frames = refl
