-- ===== src/HepFs/Tests.antt =====
-- Runs of kernel/src/hepfs.rs on a freshly formatted disk.
use hep_os.Prelude.{Bool, List, Option, [], none, refl, some, true, ℕ, ◌++◌, ◌∷◌, ◌≡◌}
use hep_os.HepFs.Disk.{Fs, M, pure, ◌>>=◌, ◌>>◌, zero_bytes}
use hep_os.HepFs.Bitmap.{with_bit, find_bit, find_byte}
use hep_os.HepFs.Inode.{root_ino}
use hep_os.HepFs.File.{write_file, read_file}
use hep_os.HepFs.Format.{format}
use hep_os.HepFs.Ops.{lookup, create_file, create_dir, remove}

abbrev blank : Fs
blank = record { disk = λ n. zero_bytes; generation = 0; frames = 1000 }

abbrev docs : List ℕ
docs = b'd' ∷ b'o' ∷ b'c' ∷ b's' ∷ []

abbrev note : List ℕ
note = b'n' ∷ b'o' ∷ b't' ∷ b'e' ∷ []

abbrev session : M (Option ℕ × List ℕ × Bool × Option ℕ)
session = do
  format 131072 512
  dir ← create_dir root_ino docs
  file ← create_file dir note
  write_file file (b'h' ∷ b'i' ∷ [])
  found ← lookup (b'/' ∷ docs ++ (b'/' ∷ note))
  read ← read_file file
  gone ← remove dir note
  again ← lookup (docs ++ (b'/' ∷ note))
  pure (found, read, gone, again)

abbrev outcome : Option (Option ℕ × List ℕ × Bool × Option ℕ)
outcome = elim (session blank) [ none ↦ none | some (r, s) ↦ some r ]

session_runs : outcome ≡ some (some 2, b'h' ∷ b'i' ∷ [], true, none)
unfolding format create_dir create_file write_file lookup read_file remove find_byte with_bit
    find_bit
session_runs = refl
