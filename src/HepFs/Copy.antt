-- ===== src/HepFs/Copy.antt =====
-- Copies of kernel/src/hepfs.rs: `copy_entry` and the numbered names of `copy_entry_unique`.
use hep_os.Prelude.{
  List, Option, [], if◌then◌else◌, ltb, none, some, suc, zero, ℕ, ◌%◌, ◌++◌, ◌+◌, ◌/◌, ◌==◌, ◌∷◌,
}
use hep_os.HepFs.Disk.{M, pure, panic, ◌>>=◌, ◌>>◌, branch}
use hep_os.HepFs.Inode.{f_dir, read_inode}
use hep_os.HepFs.Dir.{list_dir, find_in_dir}
use hep_os.HepFs.File.{write_file, read_file}
use hep_os.HepFs.Ops.{create_file, create_dir, is_found}

-- The children of a directory, copied one by one; what a copy returns is not read.
unfoldable pub copy_children : (List ℕ → M (Option ℕ)) → List (ℕ × List ℕ) → M (Unit {0})
copy_children copy [] = pure tt
copy_children copy ((ino, child_name) ∷ children) = do
  copied ← copy child_name
  copy_children copy children

-- `depth` bounds the nesting of directories: the source recurses without a bound, and at 0 the model
-- gives up as a panic.
unfoldable pub copy_entry : ℕ → ℕ → ℕ → List ℕ → List ℕ → M (Option ℕ)
unfolding find_in_dir read_inode create_dir list_dir copy_children read_file create_file write_file
copy_entry zero from_parent to_parent name dest_name = panic
copy_entry (suc depth) from_parent to_parent name dest_name = do
  taken ← find_in_dir to_parent dest_name
  branch (is_found taken) (pure none) (do
    found ← find_in_dir from_parent name
    elim found [
      | none ↦ pure none
      | some src_ino ↦ branch (src_ino == to_parent) (pure none) (do
        inode ← read_inode src_ino
        branch (inode.flags == f_dir)
            (do
              new_ino ← create_dir to_parent dest_name
              children ← list_dir src_ino
              copy_children (λ child. copy_entry depth src_ino new_ino child child) children
              pure (some new_ino))
            (do
              contents ← read_file src_ino
              new_ino ← create_file to_parent dest_name
              write_file new_ino contents
              pure (some new_ino)))
    ])

-- format!("{}", n), for n up to 100.
abbrev pub decimal : ℕ → List ℕ
decimal n =
    if ltb n 10
    then (b'0' + n) ∷ []
    else if ltb n 100
    then (b'0' + n / 10) ∷ (b'0' + n % 10) ∷ []
    else (b'0' + n / 100) ∷ (b'0' + n / 10 % 10) ∷ (b'0' + n % 10) ∷ []

-- The loop of `copy_entry_unique`, which ends after 101 rounds; `k` are left.
unfoldable pub copy_from : ℕ → ℕ → ℕ → ℕ → List ℕ → ℕ → List ℕ → M (Option ℕ)
unfolding copy_entry
copy_from zero depth from_parent to_parent name n candidate = pure none
copy_from (suc k) depth from_parent to_parent name n candidate = do
  copied ← copy_entry depth from_parent to_parent name candidate
  let rest =
      copy_from k depth from_parent to_parent name (n + 1)
        (name ++ (b' ' ∷ b'(' ∷ decimal (n + 1) ++ (b')' ∷ [])))
  elim copied [ some ino ↦ pure (some ino) | none ↦ branch (ltb 100 (n + 1)) (pure none) rest ]

unfoldable pub copy_entry_unique : ℕ → ℕ → ℕ → List ℕ → M (Option ℕ)
unfolding copy_from
copy_entry_unique depth from_parent to_parent name =
    copy_from 101 depth from_parent to_parent name 0 name
