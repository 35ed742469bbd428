-- ===== src/Editor/Edits.antt =====
-- What a key of kernel/src/editor.rs does to the text of the editor.
use hep_os.Prelude.{
  Bool, Bool-cases, List, Option, [], ap, false, if◌then◌else◌, inl, inr, none, refl, replicate,
  some, subst, sym, true, ℕ, ◌++◌, ◌∙◌, ◌∷◌, ◌≡◌,
}
use hep_os.Editor.Find.{pop_last}
use hep_os.Editor.Buffer.{Editor, newline, ensure_visible, backspace, delete_forward}
use hep_os.Editor.Select.{selection_range, delete_selection_if_any}
use hep_os.Editor.Zip.{IsOn}
use hep_os.Editor.Text.{text_before, text_after, before, after}
use hep_os.Editor.Valid.{cursor, AnchorOn, Unselected, without, delete_selection_if_any-cases}
use hep_os.Editor.Writes.{
  ensure_visible-≡, Wrote, type_byte-Wrote, enter_line-Wrote, type_tab-Wrote,
}
use hep_os.Editor.Erases.{Leaves, backspace-Leaves, delete_forward-Leaves}
use hep_os.Editor.{edit_key}
use hep_os.Editor.Keys.{
  Action, enter, erase, delete, tab, insert, replacing, deleting, enter_line, type_byte, type_tab,
}
use hep_os.HepFs.Bytes.{drop}

abbrev pub ends_from : Option ((ℕ × ℕ) × (ℕ × ℕ)) → ℕ × ℕ → (ℕ × ℕ) × (ℕ × ℕ)
ends_from none cur = (cur, cur)
ends_from (some range) cur = range

abbrev pub head_by : Editor → Option ((ℕ × ℕ) × (ℕ × ℕ)) → List ℕ
head_by e r = text_before e.lines (ends_from r (cursor e)).0.0 (ends_from r (cursor e)).0.1

abbrev pub tail_by : Editor → Option ((ℕ × ℕ) × (ℕ × ℕ)) → List ℕ
tail_by e r = text_after e.lines (ends_from r (cursor e)).1.0 (ends_from r (cursor e)).1.1

-- The text before the selection and the text after it; both end at the cursor where nothing is
-- selected.
abbrev pub head_text : Editor → List ℕ
head_text e = head_by e (selection_range e)

abbrev pub tail_text : Editor → List ℕ
tail_text e = tail_by e (selection_range e)

-- Whether there is a selection to cut.
abbrev pub is_selected : Option ((ℕ × ℕ) × (ℕ × ℕ)) → Bool
is_selected none = false
is_selected (some range) = true

abbrev pub selects : Editor → Bool
selects e = is_selected (selection_range e)

-- The editor after `delete_selection_if_any`.
pub record Emptied (e : Editor) : Type 0 where
  pub deleted : Bool
  pub left_over : Editor
  pub runs : delete_selection_if_any e ≡ some (deleted, left_over)
  pub stands : IsOn left_over.lines (cursor left_over)
  pub head : before left_over ≡ head_text e
  pub rest : after left_over ≡ tail_text e
  pub unselected : Unselected left_over
  pub matches : left_over.find_matches ≡ e.find_matches
  pub selected : selects e ≡ deleted
  pub unchanged : deleted ≡ false → left_over ≡ e

pub delete_selection-Emptied :
    (e : Editor) → IsOn e.lines (cursor e) → AnchorOn e.lines e.select_anchor → Emptied e
delete_selection-Emptied e on anchor = elim (delete_selection_if_any-cases e on anchor) [
  | inl (run, out, un) ↦ record {
    deleted = false;
    left_over = e;
    runs = run;
    stands = on;
    head = ap (head_by e) (sym out);
    rest = ap (tail_by e) (sym out);
    unselected = un;
    matches = refl;
    selected = ap is_selected out;
    unchanged = λ h. refl;
  }
  | inr (s, t, c, end_on, found, run) ↦ record {
    deleted = true;
    left_over = without s t e c;
    runs = run;
    stands = c.start_on;
    head = c.same_before ∙ ap (head_by e) (sym found);
    rest = c.same_after ∙ ap (tail_by e) (sym found);
    unselected = inl refl;
    matches = refl;
    selected = ap is_selected found;
    unchanged = λ h. absurd (cc);
  }
]

some_injective : {a b : List ℕ} → some a ≡ some b → a ≡ b
some_injective h = cc

-- The bytes that a key types, if it types any.
unfoldable pub bytes_of : Action → Option (List ℕ)
bytes_of enter = some (newline ∷ [])
bytes_of tab = some (replicate 4 32)
bytes_of (insert b) = some (b ∷ [])
bytes_of other = none

-- The editor after an edit, with its text.
abbrev pub Shows : List ℕ → List ℕ → Option Editor → Type 0
Shows head rest result =
    (e' : Editor) × (result ≡ some e')
    × (before e' ≡ head)
    × (after e' ≡ rest)
    × IsOn e'.lines (cursor e')

pub replacing-Shows :
    (bs : List ℕ) (f : Editor → Option Editor) (e : Editor)
    → IsOn e.lines (cursor e)
    → AnchorOn e.lines e.select_anchor
    → ((g : Editor) → IsOn g.lines (cursor g) → Wrote bs g (f g))
    → Shows (head_text e ++ bs) (tail_text e) (replacing f e)
unfolding replacing
replacing-Shows bs f e on anchor writes =
    let d = delete_selection-Emptied e on anchor in
    let (e', run, w) = writes d.left_over d.stands in
    (e', rw (d.runs, run) refl, w.head ∙ ap (λ t. t ++ bs) d.head, w.rest ∙ d.rest, w.stands)

-- A key that types puts its bytes in the place of the selection, or at the cursor where nothing is
-- selected, and leaves the cursor behind them.
pub edit_key-bytes_of :
    (ctrl shift : Bool) (a : Action) (bs : List ℕ) (e : Editor)
    → IsOn e.lines (cursor e)
    → AnchorOn e.lines e.select_anchor
    → bytes_of a ≡ some bs
    → Shows (head_text e ++ bs) (tail_text e) (edit_key ctrl shift a e)
unfolding edit_key bytes_of
edit_key-bytes_of ctrl shift enter bs e on anchor h =
    subst (λ (t : List ℕ). Shows (head_text e ++ t) (tail_text e) (replacing enter_line e))
      (some_injective h) (replacing-Shows (newline ∷ []) enter_line e on anchor enter_line-Wrote)
edit_key-bytes_of ctrl shift tab bs e on anchor h =
    subst (λ (t : List ℕ). Shows (head_text e ++ t) (tail_text e) (replacing type_tab e))
      (some_injective h) (replacing-Shows (replicate 4 32) type_tab e on anchor type_tab-Wrote)
edit_key-bytes_of ctrl shift (insert b) bs e on anchor h =
    subst (λ (t : List ℕ). Shows (head_text e ++ t) (tail_text e) (replacing (type_byte b) e))
      (some_injective h) (replacing-Shows (b ∷ []) (type_byte b) e on anchor (type_byte-Wrote b))
edit_key-bytes_of ctrl shift other bs e on anchor h = absurd (cc)

deleting-Shows :
    (on_front on_back : List ℕ → List ℕ) (f : Editor → Option Editor) (e : Editor)
    → IsOn e.lines (cursor e)
    → AnchorOn e.lines e.select_anchor
    → ((g : Editor)
        → IsOn g.lines (cursor g)
        → Leaves (on_front (before g)) (on_back (after g)) g (f g))
    → Shows
        (if selects e then head_text e else on_front (head_text e))
        (if selects e then tail_text e else on_back (tail_text e))
        (deleting f e)
unfolding deleting
deleting-Shows on_front on_back f e on anchor edits =
    let d = delete_selection-Emptied e on anchor in
    elim (Bool-cases d.deleted) [
      | inl is ↦ (
        ensure_visible d.left_over,
        rw (d.runs, is) refl,
        rw (d.selected, is, ensure_visible-≡ d.left_over) d.head,
        rw (d.selected, is, ensure_visible-≡ d.left_over) d.rest,
        rw (ensure_visible-≡ d.left_over) d.stands,
      )
      | inr kept ↦
          let l = edits d.left_over d.stands in
          (
            l.reached,
            rw (d.runs, kept) l.runs,
            rw (d.selected, kept) (l.head ∙ ap on_front d.head),
            rw (d.selected, kept) (l.rest ∙ ap on_back d.rest),
            l.stands,
          )
    ]

-- Backspace takes the selection away, or the last byte before the cursor where nothing is selected.
pub edit_key-erase :
    (ctrl shift : Bool) (e : Editor)
    → IsOn e.lines (cursor e)
    → AnchorOn e.lines e.select_anchor
    → Shows
        (if selects e then head_text e else pop_last (head_text e))
        (if selects e then tail_text e else tail_text e)
        (edit_key ctrl shift erase e)
unfolding edit_key
edit_key-erase ctrl shift e on anchor =
    deleting-Shows pop_last (λ t. t) backspace e on anchor backspace-Leaves

-- Delete takes the selection away, or the first byte after the cursor.
pub edit_key-delete :
    (ctrl shift : Bool) (e : Editor)
    → IsOn e.lines (cursor e)
    → AnchorOn e.lines e.select_anchor
    → Shows
        (if selects e then head_text e else head_text e)
        (if selects e then tail_text e else drop 1 (tail_text e))
        (edit_key ctrl shift delete e)
unfolding edit_key
edit_key-delete ctrl shift e on anchor =
    deleting-Shows (λ t. t) (drop 1) delete_forward e on anchor delete_forward-Leaves
