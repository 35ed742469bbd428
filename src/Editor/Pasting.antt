-- ===== src/Editor/Pasting.antt =====
-- Copy and paste of kernel/src/editor.rs through the clipboard.
use hep_os.Prelude.{
  Bool, Bool-cases, List, Option, [], ap, arith, false, inl, inr, length, min, none, refl, some,
  subst, sym, true, ℕ, ◌++◌, ◌==◌, ◌||◌, ◌∙◌, ◌∷◌, ◌≡◌, ◌≤◌,
}
use hep_os.Editor.Keys.{erase, deleting}
use hep_os.HepFs.Slices.{append_assoc}
use hep_os.Editor.{Session, edit, copy_key, paste_clipboard, clipboard_action, edit_key}
use hep_os.Editor.Vec.{◌>>=◌}
use hep_os.Editor.Edits.{head_by, tail_by, head_text, tail_text, selects, replacing-Shows}
use hep_os.Editor.Buffer.{Editor, newline, join_lines, is_printable, insert_text}
use hep_os.Editor.Select.{selection_range, copy_selection}
use hep_os.Editor.Zip.{IsOn}
use hep_os.Editor.Text.{text_before, text_after, before, after, join_lines-before}
use hep_os.Editor.Typing.{accepted}
use hep_os.Editor.Valid.{cursor, AnchorOn, without, delete_selection_if_any-cases}
use hep_os.Editor.Writes.{ensure_visible-≡, insert_text-Wrote}

-- The session after a step, with the text of its editor.
abbrev pub SessionShows : List ℕ → List ℕ → List ℕ → Option Session → Type 0
SessionShows clipboard head rest result =
    (s' : Session) × (result ≡ some s')
    × (s'.clipboard ≡ clipboard)
    × (before s'.editor ≡ head)
    × (after s'.editor ≡ rest)
    × IsOn s'.editor.lines (cursor s'.editor)

-- Pasting puts the clipboard, without the bytes that are neither a newline nor printable, in the place
-- of the selection, or at the cursor where nothing is selected.
pub clipboard_action-paste :
    (s : Session)
    → IsOn s.editor.lines (cursor s.editor)
    → AnchorOn s.editor.lines s.editor.select_anchor
    → SessionShows s.clipboard
        (head_text s.editor ++ accepted s.clipboard)
        (tail_text s.editor)
        (clipboard_action true s)
unfolding clipboard_action paste_clipboard
clipboard_action-paste s on anchor =
    let (e', run, h, r, o) =
      replacing-Shows (accepted s.clipboard) (insert_text s.clipboard) s.editor on anchor
        (insert_text-Wrote s.clipboard) in
    (record s { editor = e' }, rw run refl, refl, h, r, o)

-- Copying a selection puts into the clipboard what lies between the texts before and after it.
pub clipboard_action-copy :
    (s : Session)
    → IsOn s.editor.lines (cursor s.editor)
    → AnchorOn s.editor.lines s.editor.select_anchor
    → selects s.editor ≡ true
    → (s' : Session) × (clipboard_action false s ≡ some s')
      × (s'.editor ≡ s.editor)
      × (head_text s.editor ++ (s'.clipboard ++ tail_text s.editor) ≡ join_lines s.editor.lines)
unfolding clipboard_action copy_key copy_selection
clipboard_action-copy s on anchor h = elim (delete_selection_if_any-cases s.editor on anchor) [
  | inl (run, out, un) ↦ absurd (cc)
  | inr (p, q, c, end_on, found, run) ↦
      let e = s.editor in
      let t = record e { cursor_row = q.0; cursor_col = q.1 } in
      let joined =
        append_assoc (text_before e.lines p.0 p.1) c.between (text_after e.lines q.0 q.1) in
      (
        record s { clipboard = c.between },
        rw (found, copy_selection, c.copies) refl,
        refl,
        rw found (
            sym joined
            ∙ ap (λ k. k ++ text_after e.lines q.0 q.1) (sym c.is_between)
            ∙ sym (join_lines-before t end_on)),
      )
]

length-accepted : (t : List ℕ) → length (accepted t) ≤ length t
unfolding accepted
length-accepted [] = omega arith
length-accepted (b ∷ bs) = ground (arith, length-accepted bs)

-- A text that `insert_text` takes whole.
abbrev pub IsPlain : List ℕ → Type 0
IsPlain t = accepted t ≡ t

IsPlain-cons :
    (b : ℕ) (bs : List ℕ)
    → IsPlain (b ∷ bs)
    → ((b == newline || is_printable b) ≡ true) × IsPlain bs
unfolding accepted
IsPlain-cons b bs h = elim (Bool-cases (b == newline || is_printable b)) [
  | inl ok ↦ (ok, ground (arith, h, ok))
  | inr bad ↦ absurd (ground (arith, h, bad, ap length h, length-accepted bs))
]

IsPlain-after : (xs ys : List ℕ) → IsPlain (xs ++ ys) → IsPlain ys
IsPlain-after [] ys h = h
IsPlain-after (x ∷ xs) ys h = IsPlain-after xs ys (IsPlain-cons x (xs ++ ys) h).1

IsPlain-before : (xs ys : List ℕ) → IsPlain (xs ++ ys) → IsPlain xs
unfolding accepted
IsPlain-before [] ys h = refl
IsPlain-before (x ∷ xs) ys h =
    let (ok, rest) = IsPlain-cons x (xs ++ ys) h in
    rw (ok) (ap (λ t. x ∷ t) (IsPlain-before xs ys rest))

-- Erasing a selection leaves nothing selected.
erase-selected :
    (ctrl shift : Bool) (e : Editor)
    → IsOn e.lines (cursor e)
    → AnchorOn e.lines e.select_anchor
    → selects e ≡ true
    → (e' : Editor) × (edit_key ctrl shift erase e ≡ some e')
      × (before e' ≡ head_text e)
      × (after e' ≡ tail_text e)
      × IsOn e'.lines (cursor e')
      × (e'.select_anchor ≡ none)
unfolding edit_key deleting
erase-selected ctrl shift e on anchor h = elim (delete_selection_if_any-cases e on anchor) [
  | inl (run, out, un) ↦ absurd (cc)
  | inr (p, q, c, end_on, found, run) ↦
      let w = without p q e c in
      (
        record w { scroll_row = min e.scroll_row p.0 },
        rw (run, ensure_visible-≡ w) refl,
        rw found c.same_before,
        rw found c.same_after,
        c.start_on,
        refl,
      )
]

no_anchor-selection_range : (e : Editor) → e.select_anchor ≡ none → selection_range e ≡ none
unfolding selection_range
no_anchor-selection_range e h = rw h refl

erase_and_paste :
    (ctrl shift : Bool) (s : Session)
    → IsOn s.editor.lines (cursor s.editor)
    → AnchorOn s.editor.lines s.editor.select_anchor
    → selects s.editor ≡ true
    → (s' : Session) × (edit (edit_key ctrl shift erase) s >>= clipboard_action true ≡ some s')
      × (join_lines s'.editor.lines
          ≡ head_text s.editor ++ (accepted s.clipboard ++ tail_text s.editor))
erase_and_paste ctrl shift s on anchor h =
    let (e2, run2, head2, tail2, on2, bare) = erase-selected ctrl shift s.editor on anchor h in
    let anchor2 = subst (AnchorOn e2.lines) (sym bare) tt in
    let (s3, run3, clip3, head3, tail3, on3) =
      clipboard_action-paste (record s { editor = e2 }) on2 anchor2 in
    let out = no_anchor-selection_range e2 bare in
    let head : before s3.editor ≡ head_text s.editor ++ accepted s.clipboard =
      head3 ∙ ap (λ t. t ++ accepted s.clipboard) (ap (head_by e2) out ∙ head2) in
    let tail : after s3.editor ≡ tail_text s.editor = tail3 ∙ ap (tail_by e2) out ∙ tail2 in
    (
      s3,
      rw run2 run3,
      join_lines-before s3.editor on3
          ∙ (λ i. head i ++ tail i)
          ∙ append_assoc (head_text s.editor) (accepted s.clipboard) (tail_text s.editor),
    )

-- Copy, Backspace and Paste, one after the other.
abbrev pub cut_and_paste : Bool → Bool → Session → Option Session
cut_and_paste ctrl shift s = do
  s1 ← clipboard_action false s
  s2 ← edit (edit_key ctrl shift erase) s1
  clipboard_action true s2

-- Copying a selection of a text of newlines and printable bytes, erasing it and pasting it again gives
-- the text there was.
pub cut_and_paste_lem :
    (ctrl shift : Bool) (s : Session)
    → IsOn s.editor.lines (cursor s.editor)
    → AnchorOn s.editor.lines s.editor.select_anchor
    → selects s.editor ≡ true
    → IsPlain (join_lines s.editor.lines)
    → (s' : Session) × (cut_and_paste ctrl shift s ≡ some s')
      × (join_lines s'.editor.lines ≡ join_lines s.editor.lines)
cut_and_paste_lem ctrl shift s on anchor h plain =
    let (s1, run1, same, joined) = clipboard_action-copy s on anchor h in
    let on1 = subst (λ (e : Editor). IsOn e.lines (cursor e)) (sym same) on in
    let anchor1 = subst (λ (e : Editor). AnchorOn e.lines e.select_anchor) (sym same) anchor in
    let h1 = subst (λ (e : Editor). selects e ≡ true) (sym same) h in
    let (s3, run3, text3) = erase_and_paste ctrl shift s1 on1 anchor1 h1 in
    let rest = s1.clipboard ++ tail_text s.editor in
    let whole = subst IsPlain (sym joined) plain in
    let kept =
      IsPlain-before s1.clipboard (tail_text s.editor)
        (IsPlain-after (head_text s.editor) rest whole) in
    (s3, rw run1 run3, text3 ∙ (λ i. head_text (same i) ++ (kept i ++ tail_text (same i))) ∙ joined)
