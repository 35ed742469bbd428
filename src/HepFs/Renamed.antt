-- ===== src/HepFs/Renamed.antt =====
-- What `rename` of kernel/src/hepfs.rs does, and the case in which it replaces an entry.
use hep_os.Prelude.{
  &&-split, ==_iff, ==_refl, Bool, Bool-cases, List, Option, add64, ap, arith, false, if◌then◌else◌,
  inl, inr, length, none, not, refl, some, subst, sym, true, ℕ, ◌&&◌, ◌<◌, ◌==◌, ◌∙◌, ◌≡◌, ◌≢◌, ◌≤◌,
  ◌⊎◌,
}
use hep_os.HepFs.Disk.{data_block_start, max_inodes, Fs, with_frames}
use hep_os.HepFs.Utf8.{valid_utf8}
use hep_os.HepFs.Claim.{IsPage}
use hep_os.HepFs.Dir.{
  entries_per_blk, DirEntry, new_entry, name_str, same_bytes, entry_at, used_blocks, is_named,
}
use hep_os.HepFs.Entries.{
  IsEntry, new_entry-IsEntry, name_str-new_entry, same_bytes_refl, same_bytes-≡,
}
use hep_os.HepFs.Find.{
  IsIn, Slot, first_entry, FoundIn, first_entry-FoundIn, SameFor, first_entry-SameFor,
}
use hep_os.HepFs.Slots.{
  dir_blocks, dir_slot, slot_ino, Finds, find_in_dir-Finds, after_put, entry_at-after_put,
  inode_at-after_put, entry_at-inode,
}

abbrev pub bumped : Fs → Fs
bumped s = record s { generation = add64 s.generation 1 }

-- What `rename` does: it never panics.
abbrev pub Renamed : ℕ → List ℕ → List ℕ → Fs → Option (Bool × Fs) → Type 0
Renamed dir old new s none = ⊥
Renamed dir old new s (some (false, s')) =
    (s' ≡ with_frames s'.frames (bumped s))
    × (((ino : ℕ) × Finds dir new (some ino) s) ⊎ ((27 < length new) ⊎ Finds dir old none s))
Renamed dir old new s (some (true, s')) =
    (ino : ℕ) × Finds dir old (some ino) s
    × Finds dir new none s
    × Finds dir new (some ino) s'
    × ((name : List ℕ)
        → name ≢ old
        → name ≢ new
        → (found : Option ℕ) × Finds dir name found s × Finds dir name found s')
    × ((blk : ℕ) × IsIn blk (dir_blocks dir s) × ((n : ℕ) → n ≢ blk → s'.disk n ≡ s.disk n))

is_named-≢ :
    (name other : List ℕ) (e : DirEntry)
    → name ≢ other
    → is_named other e ≡ true
    → is_named name e ≡ false
is_named-≢ name other e ne h =
    let e' =
      same_bytes-≡ (name_str e) other
        (&&-split (not (e.inode == 0)) (same_bytes (name_str e) other) h).1 in
    elim (Bool-cases (same_bytes (name_str e) name)) [
      | inl same ↦ absurd (ne (sym (same_bytes-≡ (name_str e) name same) ∙ e'))
      | inr differ ↦ ground (arith, differ)
    ]

is_named-new_entry :
    (ino : ℕ) (name : List ℕ)
    → not (ino == 0) ≡ true
    → length name ≤ 27
    → valid_utf8 name ≡ true
    → is_named name (new_entry ino name) ≡ true
is_named-new_entry ino name h le v = rw (h, name_str-new_entry ino name le v) (same_bytes_refl name)

-- The entry `e`, found in slot `i` of block `blk` under the name `old`, gets the name `new`.
pub record Target (dir : ℕ) (old new : List ℕ) (blk i : ℕ) (e : DirEntry) (s : Fs) : Type 0 where
  pub slot : dir_slot dir old s ≡ some (blk, i, e)
  pub inside : IsIn blk (dir_blocks dir s)
  pub place : i < entries_per_blk
  pub entry : e ≡ entry_at i (s.disk blk)
  pub named : is_named old e ≡ true
  pub high : data_block_start ≤ blk
  pub page : IsPage (s.disk blk)
  pub table : dir < max_inodes
  pub short : length new ≤ 27
  pub utf8 : valid_utf8 new ≡ true
  pub untaken : slot_ino (dir_slot dir new s) ≡ none

module _ (dir : ℕ) (old new : List ℕ) (blk i : ℕ) (e : DirEntry) (s : Fs)
    (t : Target dir old new blk i e s) where
  abbrev fresh_entry : DirEntry
  fresh_entry = new_entry e.inode new

  abbrev renamed_disk : Fs
  renamed_disk = after_put blk i fresh_entry s

  fresh_entry-IsEntry : IsEntry fresh_entry
  fresh_entry-IsEntry =
      new_entry-IsEntry e.inode new (rw (t.entry) (entry_at-inode i (s.disk blk) t.page)) t.short

  fresh_entry-is_named : is_named new fresh_entry ≡ true
  fresh_entry-is_named =
      is_named-new_entry e.inode new
        (&&-split (not (e.inode == 0)) (same_bytes (name_str e) old) t.named).0 t.short t.utf8

  slots_after :
      (b j : ℕ)
      → j < entries_per_blk
      → entry_at j (renamed_disk.disk b)
        ≡ (if (blk == b) && (i == j) then fresh_entry else entry_at j (s.disk b))
  slots_after b j lt =
      entry_at-after_put blk i b j fresh_entry s fresh_entry-IsEntry t.page.size t.place lt

  blocks_after : dir_blocks dir renamed_disk ≡ dir_blocks dir s
  blocks_after =
      ap (λ n. used_blocks n.direct) (inode_at-after_put dir blk i fresh_entry s t.table t.high)

  -- Any other name is found as before.
  others_SameFor :
      (name : List ℕ)
      → name ≢ old
      → name ≢ new
      → (b : ℕ) → SameFor (is_named name) (renamed_disk.disk b) (s.disk b)
  others_SameFor name n m b j lt = elim (Bool-cases ((blk == b) && (i == j))) [
    | inl here ↦
        let both = &&-split (blk == b) (i == j) here in
        let was : is_named name (entry_at j (s.disk b)) ≡ false =
          subst (λ x. is_named name (entry_at j (s.disk x)) ≡ false) ((==_iff blk b).0 both.0)
            (subst (λ x. is_named name (entry_at x (s.disk blk)) ≡ false) ((==_iff i j).0 both.1)
              (subst (λ x. is_named name x ≡ false) t.entry (is_named-≢ name old e n t.named))) in
        let now = is_named-≢ name new fresh_entry m fresh_entry-is_named in
        (rw (slots_after b j lt, here, now) (sym was), λ h. absurd (ground (arith, was, h)))
    | inr away ↦ (rw (slots_after b j lt, away) refl, λ h. rw (slots_after b j lt, away) refl)
  ]

  -- The new name is found, and is the old inode's.
  new_found :
      (slot : Slot)
      → FoundIn renamed_disk.disk (dir_blocks dir s) (is_named new) slot
      → slot_ino slot ≡ some e.inode
  new_found none f =
      let hit : is_named new (entry_at i (renamed_disk.disk blk)) ≡ true =
        rw (slots_after blk i t.place, ==_refl blk, ==_refl i) fresh_entry-is_named in
      absurd (ground (arith, hit, f blk i t.inside t.place))
  new_found (some (b, j, e')) f = elim (Bool-cases ((blk == b) && (i == j))) [
    | inl here ↦ rw (f.2, slots_after b j f.1, here) refl
    | inr away ↦
        let same : e' ≡ entry_at j (s.disk b) =
          f.2
          ∙ slots_after b j f.1
          ∙ ap (λ x. if x then fresh_entry else entry_at j (s.disk b)) away in
        let miss =
          untaken_miss (dir_slot dir new s)
            (first_entry-FoundIn s.disk (dir_blocks dir s) (is_named new)) t.untaken b j f.0 f.1 in
        absurd (ground (arith, f.3, subst (λ x. is_named new x ≡ false) (sym same) miss))
  ]
    where
      untaken_miss :
          (slot : Slot)
          → FoundIn s.disk (dir_blocks dir s) (is_named new) slot
          → slot_ino slot ≡ none
          → (b j : ℕ) → IsIn b (dir_blocks dir s)
          → j < entries_per_blk
          → is_named new (entry_at j (s.disk b)) ≡ false
      untaken_miss none f h = f
      untaken_miss (some x) f h = absurd (ground arith)

  abbrev result : Fs
  result = bumped renamed_disk

  named_after :
      (name : List ℕ)
      → dir_slot dir name result ≡ first_entry renamed_disk.disk (dir_blocks dir s) (is_named name)
  named_after name = ap (λ bs. first_entry renamed_disk.disk bs (is_named name)) blocks_after

  pub renamed : (n : ℕ) → Renamed dir old new s (some (true, with_frames n result))
  renamed n = (
    e.inode,
    find_in_dir-Finds dir old (some e.inode) s (ap slot_ino t.slot),
    find_in_dir-Finds dir new none s t.untaken,
    find_in_dir-Finds dir new (some e.inode) result (
        ap slot_ino (named_after new)
        ∙ new_found (first_entry renamed_disk.disk (dir_blocks dir s) (is_named new))
            (first_entry-FoundIn renamed_disk.disk (dir_blocks dir s) (is_named new))),
    λ name n m. (
      slot_ino (dir_slot dir name s),
      find_in_dir-Finds dir name (slot_ino (dir_slot dir name s)) s refl,
      find_in_dir-Finds dir name (slot_ino (dir_slot dir name s)) result (
          ap slot_ino (
            named_after name
            ∙ first_entry-SameFor renamed_disk.disk s.disk (dir_blocks dir s) (is_named name)
                (others_SameFor name n m))),
    ),
    (blk, t.inside, λ n ne. let off : (blk == n) ≡ false = ground arith in rw off refl),
  )
