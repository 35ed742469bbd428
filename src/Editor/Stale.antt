-- ===== src/Editor/Stale.antt =====
-- What the anchor that kernel/src/editor.rs leaves behind does to the next keys.
use hep_os.Prelude.{
  ==_refl, List, Option, [], ap, arith, false, get_or, inl, inr, leb, length, length-append, ltb,
  none, refl, some, subst, sym, true, ℕ, ◌&&◌, ◌++◌, ◌<◌, ◌∙◌, ◌∷◌, ◌≡◌,
}
use hep_os.HepFs.Slices.{append_assoc}
use hep_os.Editor.Vec.{◌>>=◌}
use hep_os.Editor.Buffer.{Editor, backspace}
use hep_os.Editor.Keys.{erase, insert, replacing, deleting, mark_modified, type_byte}
use hep_os.Editor.Select.{
  range_of, selection_range, cut, delete_range, delete_selection_if_any, mouse_down, copied,
  copy_selection,
}
use hep_os.Editor.Zip.{get_elem?-middle, Zip, lines_of, place, IsOn, IsOn-place, get_or-middle}
use hep_os.Editor.Text.{before, after, terminated, before-place, after-place}
use hep_os.Editor.Valid.{cursor, IsValid}
use hep_os.Editor.Safety.{mouse_down-IsValid}
use hep_os.Editor.Ranges.{cut-within}
use hep_os.Editor.Typing.{typed, insert_byte-place}
use hep_os.Editor.Erasing.{end-cases, remove_left-place}
use hep_os.Editor.{edit_key}

-- The editor with a text, a cursor there, and an anchor.
abbrev anchored_at : Zip → ℕ × ℕ → Editor → Editor
anchored_at z p e = record (place z e) { select_anchor = some p }

abbrev zip_pos : Zip → ℕ × ℕ
zip_pos z = (length z.above, length z.left)

range_of-same : (p : ℕ × ℕ) → range_of p p ≡ none
unfolding range_of
range_of-same p = ground arith

-- The first byte goes in at the anchor, which stays.
type_at_anchor :
    (x : ℕ) (z : Zip) (e : Editor)
    → replacing (type_byte x) (anchored_at z (zip_pos z) e)
      ≡ some (mark_modified (anchored_at (typed x z) (zip_pos z) e))
unfolding replacing delete_selection_if_any selection_range type_byte
type_at_anchor x z e =
    rw
      (
        range_of-same (zip_pos z),
        delete_selection_if_any,
        insert_byte-place x z (record e { select_anchor = some (zip_pos z) }),
      )
      refl

range_of-after :
    (x : ℕ) (z : Zip)
    → range_of (zip_pos z) (zip_pos (typed x z)) ≡ some (zip_pos z, zip_pos (typed x z))
unfolding range_of
range_of-after x z = ground (arith, length-append z.left (x ∷ []))

cut-typed :
    (x : ℕ) (z : Zip)
    → cut (zip_pos z) (zip_pos (typed x z)) (lines_of (typed x z)) ≡ some (lines_of z)
cut-typed x z =
    subst
      (λ (q : List ℕ × ℕ).
        cut (zip_pos z) (length z.above, q.1) (z.above ++ (q.0 ∷ z.below)) ≡ some (lines_of z))
      (λ i. (sym (append_assoc z.left (x ∷ []) z.right) i, sym (length-append z.left (x ∷ [])) i))
      (cut-within z.above z.left (x ∷ []) z.right z.below)

-- The second byte finds a selection, of the first one.
retype_at_anchor :
    (x y : ℕ) (z : Zip) (e : Editor)
    → replacing (type_byte y) (mark_modified (anchored_at (typed x z) (zip_pos z) e))
      ≡ some (record (place (typed y z) e) { select_anchor = none; modified = true })
unfolding replacing delete_selection_if_any selection_range delete_range type_byte
retype_at_anchor x y z e =
    rw
      (
        range_of-after x z,
        delete_selection_if_any,
        cut-typed x z,
        insert_byte-place y z (record e { select_anchor = none; modified = true }),
      )
      refl

-- The mouse button, then two bytes typed.
abbrev pub click_and_type : ℕ → ℕ → ℕ → ℕ → Editor → Option Editor
click_and_type row col x y e = do
  e1 ← mouse_down row col e
  e2 ← edit_key false false (insert x) e1
  edit_key false false (insert y) e2

edit_key-insert :
    (x : ℕ) (e : Editor) → edit_key false false (insert x) e ≡ replacing (type_byte x) e
unfolding edit_key
edit_key-insert x e = refl

anchored-place :
    (e : Editor) (z : Zip)
    → e ≡ place z e
    → e.select_anchor ≡ some (cursor e)
    → e ≡ anchored_at z (zip_pos z) e
anchored-place e z p a i = record (p i) {
  select_anchor = (a ∙ ap (λ (f : Editor). some (cursor f)) p) i;
}

-- After a click, the first byte that is typed is gone once the second is typed: the text is what stood
-- before and after the place of the click, with the second byte alone between.
pub click_and_type_lem :
    (row col x y : ℕ) (e : Editor)
    → IsValid e
    → (e1 : Editor) × (e' : Editor) × (mouse_down row col e ≡ some e1)
      × (click_and_type row col x y e ≡ some e')
      × (before e' ≡ before e1 ++ (y ∷ []))
      × (after e' ≡ after e1)
click_and_type_lem row col x y e v =
    let (e1, run1, v1, same, a) = mouse_down-IsValid row col e v in
    let (z, p) = IsOn-place e1 v1.cursor_on in
    let run2 =
      edit_key-insert x e1
      ∙ ap (replacing (type_byte x)) (anchored-place e1 z p a)
      ∙ type_at_anchor x z e1 in
    let g = mark_modified (anchored_at (typed x z) (zip_pos z) e1) in
    let run3 = edit_key-insert y g ∙ retype_at_anchor x y z e1 in
    (
      e1,
      record (place (typed y z) e1) { select_anchor = none; modified = true },
      run1,
      rw (run1, run2) run3,
      before-place (typed y z) e1
          ∙ sym (append_assoc (terminated z.above) z.left (y ∷ []))
          ∙ ap (λ t. t ++ (y ∷ [])) (sym (ap before p ∙ before-place z e1)),
      after-place (typed y z) e1 ∙ sym (ap after p ∙ after-place z e1),
    )

-- Backspace, then a copy.
abbrev pub erase_and_copy : Editor → List ℕ → Option (List ℕ)
erase_and_copy e clipboard = do e1 ← edit_key false false erase e; copy_selection e1 clipboard

range_of-before :
    (b : ℕ) (z : Zip)
    → range_of (zip_pos (typed b z)) (zip_pos z) ≡ some (zip_pos z, zip_pos (typed b z))
unfolding range_of
range_of-before b z = ground (arith, length-append z.left (b ∷ []))

erase_at_anchor :
    (b : ℕ) (z : Zip) (e : Editor)
    → edit_key false false erase (anchored_at (typed b z) (zip_pos (typed b z)) e)
      ≡ some (mark_modified (anchored_at z (zip_pos (typed b z)) e))
unfolding edit_key deleting delete_selection_if_any selection_range backspace
erase_at_anchor b z e =
    let t : ltb 0 (length (z.left ++ (b ∷ []))) ≡ true =
      ground (arith, length-append z.left (b ∷ [])) in
    rw
      (
        range_of-same (zip_pos (typed b z)),
        delete_selection_if_any,
        t,
        remove_left-place z b (record e { select_anchor = some (zip_pos (typed b z)) }),
      )
      refl

copy_behind_end :
    (b : ℕ) (xs : List (List ℕ)) (l : List ℕ) (ys : List (List ℕ))
    → copied (length xs, length l) (length xs, length (l ++ (b ∷ []))) (xs ++ ((l ++ []) ∷ ys))
      ≡ none
unfolding copied
copy_behind_end b xs l ys =
    let out : (leb (length l) (length (l ++ (b ∷ [])))
          && leb (length (l ++ (b ∷ []))) (length (l ++ [])))
        ≡ false =
      ground (arith, length-append l (b ∷ []), length-append l []) in
    rw (get_elem?-middle xs (l ++ []) ys, ==_refl (length xs), out) refl

erase_and_copy_at :
    (b : ℕ) (z : Zip) (e : Editor) (clipboard : List ℕ)
    → z.right ≡ []
    → erase_and_copy (anchored_at (typed b z) (zip_pos (typed b z)) e) clipboard ≡ none
unfolding copy_selection selection_range
erase_and_copy_at b z e clipboard h =
    rw (erase_at_anchor b z e, range_of-before b z, copy_selection, h)
      (copy_behind_end b z.above z.left z.below)

length-zero : (xs : List ℕ) → length xs ≡ 0 → xs ≡ []
length-zero [] h = refl
length-zero (x ∷ xs) h = absurd (omega (arith, h))

-- Backspace at the end of a line that is not empty, with the anchor at the cursor, leaves the anchor
-- behind the end of the line, and the copy that follows panics.
pub erase_and_copy_lem :
    (e : Editor) (clipboard : List ℕ)
    → IsOn e.lines (cursor e)
    → 0 < e.cursor_col
    → e.cursor_col ≡ length (get_or e.lines e.cursor_row [])
    → e.select_anchor ≡ some (cursor e)
    → erase_and_copy e clipboard ≡ none
erase_and_copy_lem e clipboard on h at_end a =
    let (z, p) = IsOn-place e on in
    let line =
      ap (λ (f : Editor). length (get_or f.lines f.cursor_row [])) p
      ∙ ap length (get_or-middle z.above (z.left ++ z.right) z.below) in
    let col = ap (λ (f : Editor). f.cursor_col) p in
    let bare = length-zero z.right (omega (arith, length-append z.left z.right)) in
    elim (end-cases z.left) [
      | inl out ↦ absurd (omega (arith, ap length out))
      | inr (l, b, is) ↦
          let w = record z { left = l } in
          let q = p ∙ ap (λ k. place (record z { left = k }) e) is in
          subst (λ (f : Editor). erase_and_copy f clipboard ≡ none)
            (sym (anchored-place e (typed b w) q a)) (erase_and_copy_at b w e clipboard bare)
    ]
