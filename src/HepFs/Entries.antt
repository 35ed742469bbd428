-- ===== src/HepFs/Entries.antt =====
-- Directory entries of kernel/src/hepfs.rs: their 32 bytes, their names, and the entries of a block
-- after one of them is replaced.
use hep_os.Prelude.{
  &&-split, ==_iff, ==_refl, Bool-cases, List, [], ap, arith, if◌then◌else◌, inl, inr, length,
  length-append, length-replicate, ltb, min, refl, replicate, subst, sym, true, ℕ, ◌%◌, ◌*◌, ◌-◌,
  ◌<◌, ◌==◌, ◌^◌, ◌∙◌, ◌∷◌, ◌≡◌, ◌≤◌,
}
use hep_os.HepFs.Disk.{block_size, Block}
use hep_os.HepFs.Bytes.{take, slice, splice, read_u32, padded}
use hep_os.HepFs.Slices.{
  take-all, take-append, from_le-le_bytes, length-splice, slice-splice, slice-splice_before,
  slice-splice_after,
}
use hep_os.HepFs.Utf8.{valid_utf8}
use hep_os.HepFs.Dir.{
  entries_per_blk, DirEntry, new_entry, encode_entry, decode_entry, name_str, same_bytes, entry_at,
  put_entry,
}

-- The fields fit their types.
pub record IsEntry (e : DirEntry) : Type 0 where
  pub inode : e.inode < 2 ^ 32
  pub name_len : e.name_len < 256
  pub name : length e.name ≡ 27

pub decode_entry-encode_entry : (e : DirEntry) → IsEntry e → decode_entry (encode_entry e) ≡ e
unfolding decode_entry encode_entry read_u32 slice
decode_entry-encode_entry e v =
    let p : take 27 e.name ≡ e.name = ap (λ n. take n e.name) (sym v.name) ∙ take-all e.name in
    rw (p, from_le-le_bytes 4 e.inode (omega (arith, v.inode))) refl

length-encode_entry : (e : DirEntry) → IsEntry e → length (encode_entry e) ≡ 32
unfolding encode_entry
length-encode_entry e v = omega (arith, v.name)

-- The entries of a block after `put_entry`.
pub entry_at-put_entry :
    (i j : ℕ) (e : DirEntry) (buf : Block)
    → IsEntry e
    → length buf ≡ block_size
    → i < entries_per_blk
    → j < entries_per_blk
    → entry_at j (put_entry i e buf) ≡ (if i == j then e else entry_at j buf)
entry_at-put_entry i j e buf v size lt lt' =
    let len = length-encode_entry e v in
    let bs = encode_entry e in
    elim (Bool-cases (i == j)) [
      | inl same ↦
          let back : slice (i * 32) 32 (splice (i * 32) bs buf) ≡ bs =
            subst (λ n. slice (i * 32) n (splice (i * 32) bs buf) ≡ bs) len
              (slice-splice (i * 32) bs buf (omega arith)) in
          rw (same, sym ((==_iff i j).0 same), back) (decode_entry-encode_entry e v)
      | inr other ↦ rw other (elim (Bool-cases (ltb j i)) [
        | inl below ↦
            ap decode_entry
              (slice-splice_before (j * 32) 32 (i * 32) bs buf (ground arith) (omega arith))
        | inr above ↦
            ap decode_entry
              (slice-splice_after (j * 32) 32 (i * 32) bs buf (ground arith) (omega arith))
      ])
    ]

pub length-put_entry :
    (i : ℕ) (e : DirEntry) (buf : Block)
    → IsEntry e
    → length buf ≡ block_size
    → i < entries_per_blk
    → length (put_entry i e buf) ≡ block_size
length-put_entry i e buf v size lt =
    length-splice (i * 32) (encode_entry e) buf (omega (arith, length-encode_entry e v)) ∙ size

length-padded : (n : ℕ) (bs : List ℕ) → length bs ≤ n → length (padded n bs) ≡ n
unfolding padded
length-padded n bs h = omega (
  arith,
  length-append bs (replicate (n - length bs) 0),
  length-replicate {A = ℕ} (n - length bs) 0,
)

pub new_entry-IsEntry :
    (ino : ℕ) (name : List ℕ) → ino < 2 ^ 32 → length name ≤ 27 → IsEntry (new_entry ino name)
new_entry-IsEntry ino name lt h = record {
  inode = lt;
  name_len = omega arith;
  name = length-padded 27 name h;
}

-- A new entry has the name that it was made for.
pub name_str-new_entry :
    (ino : ℕ) (name : List ℕ)
    → length name ≤ 27
    → valid_utf8 name ≡ true
    → name_str (new_entry ino name) ≡ name
unfolding name_str padded
name_str-new_entry ino name h v =
    let n : min (length name % 256) 27 ≡ length name = omega arith in
    let whole =
      take-append (length name) name (replicate (27 - length name) 0) (omega arith)
      ∙ take-all name in
    rw (n, whole, v) refl

pub same_bytes_refl : (xs : List ℕ) → same_bytes xs xs ≡ true
same_bytes_refl [] = refl
same_bytes_refl (x ∷ xs) = rw (==_refl x) (same_bytes_refl xs)

pub same_bytes-≡ : (xs ys : List ℕ) → same_bytes xs ys ≡ true → xs ≡ ys
same_bytes-≡ [] [] h = refl
same_bytes-≡ [] (y ∷ ys) h = absurd (ground arith)
same_bytes-≡ (x ∷ xs) [] h = absurd (ground arith)
same_bytes-≡ (x ∷ xs) (y ∷ ys) h =
    let both = &&-split (x == y) (same_bytes xs ys) h in
    let e = (==_iff x y).0 both.0 in
    ap (λ z. z ∷ xs) e ∙ ap (λ zs. y ∷ zs) (same_bytes-≡ xs ys both.1)
