-- ===== src/HepFs/Find.antt =====
-- The search of a directory in kernel/src/hepfs.rs: what the first entry that passes a test is.
use hep_os.Prelude.{
  ==_iff, Bool, Bool-cases, List, Option, [], ap, arith, false, inl, inr, length, none, refl, some,
  subst, suc, true, zero, ℕ, ◌+◌, ◌<◌, ◌==◌, ◌∙◌, ◌∷◌, ◌≡◌, ◌≤◌, ◌⊎◌,
}
use hep_os.HepFs.Disk.{Block, Fs, with_frames, M, pure}
use hep_os.HepFs.Frames.{Reads}
use hep_os.HepFs.Dir.{entries_per_blk, DirEntry, entry_at, find_entry, search_blocks}

abbrev pub IsIn : ℕ → List ℕ → Type 0
IsIn b [] = ⊥
IsIn b (x ∷ xs) = (b ≡ x) ⊎ IsIn b xs

abbrev pub Slot : Type 0
Slot = Option (ℕ × ℕ × DirEntry)

abbrev pick : (ℕ → Block) → ℕ → Slot → Option ℕ → Slot
pick disk b rest none = rest
pick disk b rest (some i) = some (b, i, entry_at i (disk b))

-- `search_blocks` as a function of the disk.
abbrev pub first_entry : (ℕ → Block) → List ℕ → (DirEntry → Bool) → Slot
first_entry disk [] test = none
first_entry disk (b ∷ bs) test =
    pick disk b (first_entry disk bs test) (find_entry entries_per_blk 0 test (disk b))

abbrev searched : ℕ → Block → M Slot → Option ℕ → M Slot
searched b page rest found = elim found [
  | some i ↦ pure (some (b, i, entry_at i page))
  | none ↦ rest
]

searched_run :
    (b n cost : ℕ) (s : Fs) (rest : M Slot) (slot : Slot) (found : Option ℕ)
    → Reads rest slot n cost s
    → (f : ℕ) × (searched b (s.disk b) rest found (with_frames n s)
        ≡ some (pick s.disk b slot found, with_frames f s))
      × (suc n ≤ f + suc cost)
searched_run b n cost s rest slot none (f, e, h) = (f, e, omega (arith, h))
searched_run b n cost s rest slot (some i) e = (n, refl, omega arith)

pub search_blocks_run :
    (blks : List ℕ) (test : DirEntry → Bool) (n : ℕ) (s : Fs)
    → length blks ≤ n
    → Reads (search_blocks blks test) (first_entry s.disk blks test) n (length blks) s
unfolding search_blocks
search_blocks_run [] test n s h = (n, refl, omega arith)
search_blocks_run (b ∷ bs) test zero s h = absurd (omega arith)
search_blocks_run (b ∷ bs) test (suc n) s h =
    searched_run b n (length bs) s (search_blocks bs test) (first_entry s.disk bs test)
      (find_entry entries_per_blk 0 test (s.disk b)) (search_blocks_run bs test n s (omega arith))

abbrev pub FoundEntry : ℕ → (DirEntry → Bool) → Block → Option ℕ → Type 0
FoundEntry i test buf none = (j : ℕ) → i ≤ j → j < entries_per_blk → test (entry_at j buf) ≡ false
FoundEntry i test buf (some r) = (r < entries_per_blk) × (test (entry_at r buf) ≡ true)

pub find_entry-FoundEntry :
    (k i : ℕ) (test : DirEntry → Bool) (buf : Block)
    → i + k ≡ entries_per_blk
    → FoundEntry i test buf (find_entry k i test buf)
unfolding find_entry
find_entry-FoundEntry zero i test buf e = λ j lo hi. absurd (omega arith)
find_entry-FoundEntry (suc k) i test buf e = elim (Bool-cases (test (entry_at i buf))) [
  | inl hit ↦ rw hit (omega arith, hit)
  | inr miss ↦ rw miss (
      go (find_entry k (i + 1) test buf) miss
        (find_entry-FoundEntry k (i + 1) test buf (omega arith)))
]
  where
    go :
        (r : Option ℕ)
        → test (entry_at i buf) ≡ false
        → FoundEntry (i + 1) test buf r
        → FoundEntry i test buf r
    go none miss f = λ j lo hi. elim (Bool-cases (i == j)) [
      | inl e' ↦ subst (λ n. test (entry_at n buf) ≡ false) ((==_iff i j).0 e') miss
      | inr n ↦ f j (ground arith) hi
    ]
    go (some r) miss f = f

-- No entry of the blocks passes, or the one given is in one of the blocks and passes.
abbrev pub FoundIn : (ℕ → Block) → List ℕ → (DirEntry → Bool) → Slot → Type 0
FoundIn disk blks test none =
    (b j : ℕ) → IsIn b blks → j < entries_per_blk → test (entry_at j (disk b)) ≡ false
FoundIn disk blks test (some (b, i, e)) =
    IsIn b blks × (i < entries_per_blk) × (e ≡ entry_at i (disk b)) × (test e ≡ true)

pub first_entry-FoundIn :
    (disk : ℕ → Block) (blks : List ℕ) (test : DirEntry → Bool)
    → FoundIn disk blks test (first_entry disk blks test)
first_entry-FoundIn disk [] test = λ b j h lt. absurd h
first_entry-FoundIn disk (x ∷ xs) test =
    go (find_entry entries_per_blk 0 test (disk x))
      (find_entry-FoundEntry entries_per_blk 0 test (disk x) refl) (first_entry disk xs test)
      (first_entry-FoundIn disk xs test)
  where
    go :
        (found : Option ℕ)
        → FoundEntry 0 test (disk x) found
        → (rest : Slot) → FoundIn disk xs test rest
        → FoundIn disk
            (x ∷ xs)
            test
            (elim found [ some i ↦ some (x, i, entry_at i (disk x)) | none ↦ rest ])
    go (some i) f rest ih = (inl refl, f.0, refl, f.1)
    go none f none ih =
        λ b j h lt. elim h [ inl e ↦ rw e (f j (omega arith) lt) | inr h' ↦ ih b j h' lt ]
    go none f (some (b, i, e)) ih = (inr ih.0, ih.1, ih.2, ih.3)

-- Two disks on which the test passes the same entries of the same slots.
abbrev pub SameFor : (DirEntry → Bool) → Block → Block → Type 0
SameFor test buf' buf =
    (j : ℕ)
    → j < entries_per_blk
    → (test (entry_at j buf') ≡ test (entry_at j buf))
      × (test (entry_at j buf) ≡ true → entry_at j buf' ≡ entry_at j buf)

find_entry-SameFor :
    (k i : ℕ) (test : DirEntry → Bool) (buf' buf : Block)
    → i + k ≡ entries_per_blk
    → SameFor test buf' buf
    → find_entry k i test buf' ≡ find_entry k i test buf
unfolding find_entry
find_entry-SameFor zero i test buf' buf e f = refl
find_entry-SameFor (suc k) i test buf' buf e f =
    rw ((f i (omega arith)).0, find_entry-SameFor k (i + 1) test buf' buf (omega arith) f) refl

pub first_entry-SameFor :
    (disk' disk : ℕ → Block) (blks : List ℕ) (test : DirEntry → Bool)
    → ((b : ℕ) → SameFor test (disk' b) (disk b))
    → first_entry disk' blks test ≡ first_entry disk blks test
first_entry-SameFor disk' disk [] test f = refl
first_entry-SameFor disk' disk (x ∷ xs) test f =
    let found = find_entry entries_per_blk 0 test (disk x) in
    ap (pick disk' x (first_entry disk' xs test))
      (find_entry-SameFor entries_per_blk 0 test (disk' x) (disk x) refl (f x))
    ∙ ap (λ r. pick disk' x r found) (first_entry-SameFor disk' disk xs test f)
    ∙ same found (find_entry-FoundEntry entries_per_blk 0 test (disk x) refl)
  where
    same :
        (found : Option ℕ)
        → FoundEntry 0 test (disk x) found
        → pick disk' x (first_entry disk xs test) found
          ≡ pick disk x (first_entry disk xs test) found
    same none h = refl
    same (some i) h = ap (λ e. some (x, i, e)) ((f x i h.0).1 h.1)
