-- ===== src/HepFs/Rename.antt =====
-- `rename` of kernel/src/hepfs.rs, on every branch.
use hep_os.Prelude.{
  Bool, Bool-cases, List, Option, ap, arith, false, inl, inr, length, ltb, ltb→ge, ltb→lt, none,
  refl, some, suc, true, zero, ℕ, ◌*◌, ◌<◌, ◌||◌, ◌≡◌, ◌≤◌,
}
use hep_os.HepFs.Disk.{
  max_inodes, Fs, with_frames, M, pure, go_on, ◌>>=◌, ◌>>◌, branch, stored, write_block,
}
use hep_os.HepFs.Utf8.{valid_utf8}
use hep_os.HepFs.Inode.{read_inode}
use hep_os.HepFs.Dir.{new_entry, put_entry, is_named}
use hep_os.HepFs.Find.{Slot, search_blocks_run, FoundIn, first_entry-FoundIn}
use hep_os.HepFs.Slots.{
  dir_blocks, dir_slot, slot_ino, length-dir_blocks, search_cost, find_in_dir_run,
  find_in_dir-Finds, IsDirectory,
}
use hep_os.HepFs.Renamed.{bumped, Renamed, renamed}
use hep_os.HepFs.Ops.{rename_entry, is_found, rename}

-- `rename_entry` once the slot of the old name is known.
abbrev put_name : List ℕ → Slot → M Bool
put_name new_name found = elim found [
  | none ↦ pure false
  | some (blk, i, e) ↦ do
    page ← stored blk
    write_block blk (put_entry i (new_entry e.inode new_name) page)
    pure true
]

rename_entry_run :
    (dir : ℕ) (old new : List ℕ) (n : ℕ) (s : Fs)
    → search_cost ≤ n
    → (f : ℕ) × (rename_entry dir old new (with_frames n s)
        ≡ put_name new (dir_slot dir old s) (with_frames f s))
unfolding rename_entry read_inode
rename_entry_run dir old new zero s h = absurd (omega arith)
rename_entry_run dir old new (suc n) s h =
    let (f, e, cost) =
      search_blocks_run (dir_blocks dir s) (is_named old) n s
        (omega (arith, length-dir_blocks dir s)) in
    (f, ap (go_on (put_name new)) e)

put_name-Renamed :
    (dir : ℕ) (old new : List ℕ) (n : ℕ) (s : Fs) (slot : Slot)
    → dir_slot dir old s ≡ slot
    → FoundIn s.disk (dir_blocks dir s) (is_named old) slot
    → IsDirectory dir s
    → dir < max_inodes
    → length new ≤ 27
    → valid_utf8 new ≡ true
    → slot_ino (dir_slot dir new s) ≡ none
    → Renamed dir old new s (put_name new slot (with_frames n (bumped s)))
put_name-Renamed dir old new n s none e f d lt le v u =
    (refl, inr (inr (find_in_dir-Finds dir old none s (ap slot_ino e))))
put_name-Renamed dir old new n s (some (blk, i, x)) e f d lt le v u =
    renamed dir old new blk i x s
      (record {
        slot = e;
        inside = f.0;
        place = f.1;
        entry = f.2;
        named = f.3;
        high = (d blk f.0).0;
        page = (d blk f.0).1;
        table = lt;
        short = le;
        utf8 = v;
        untaken = u;
      })
      n

-- For a directory among the first 1024 inodes whose blocks are whole pages of the data area, a new name
-- in UTF-8, and 26 frames left, `rename` never panics. It returns false, and writes no block, when the new
-- name is taken, is longer than 27 bytes, or the old name is missing. Else it returns true: the inode
-- that the old name had is found under the new name, every other name gives what it gave before, and
-- one block of the directory is written.
pub rename_lem :
    (dir : ℕ) (old new : List ℕ) (s : Fs)
    → dir < max_inodes
    → IsDirectory dir s
    → valid_utf8 new ≡ true
    → 2 * search_cost ≤ s.frames
    → Renamed dir old new s (rename dir old new s)
unfolding rename
rename_lem dir old new s lt d v h =
    let (f, e, cost) = find_in_dir_run dir new s.frames (bumped s) (omega arith) in
    rw e (go f (omega (arith, cost)) (slot_ino (dir_slot dir new s)) refl)
  where
    go :
        (f : ℕ)
        → search_cost ≤ f
        → (taken : Option ℕ) → slot_ino (dir_slot dir new s) ≡ taken
        → Renamed dir old new s (
            branch
              (is_found taken || ltb 27 (length new))
              (pure false)
              (rename_entry dir old new)
              (with_frames f (bumped s)))
    go f le (some ino) e = (refl, inl (ino, find_in_dir-Finds dir new (some ino) s e))
    go f le none e = elim (Bool-cases (ltb 27 (length new))) [
      | inl long ↦ rw long (refl, inr (inl (ltb→lt 27 (length new) long)))
      | inr short ↦
          let (g, run) = rename_entry_run dir old new f (bumped s) le in
          rw (short, run)
            (put_name-Renamed dir old new g s (dir_slot dir old s) refl
              (first_entry-FoundIn s.disk (dir_blocks dir s) (is_named old)) d lt
              (ltb→ge 27 (length new) short) v e)
    ]
