-- ===== src/Editor/Keeps.antt =====
-- The keys of kernel/src/editor.rs that change the text keep the cursor, the anchor and the matches on it.
use hep_os.Prelude.{
  Bool, Bool-cases, List, Option, [], arith, false, inl, inr, refl, replicate, some, subst, sym, ℕ,
  ◌∙◌, ◌∷◌, ◌≡◌, ◌≢◌,
}
use hep_os.Editor.Buffer.{
  Editor, newline, ensure_visible, backspace, remove_right, merge_down, delete_forward,
}
use hep_os.Editor.Keys.{
  Action, close, force_close, up, down, left, right, home, end, page_up, page_down, enter, erase,
  delete, tab, insert, close_key, go_up, go_down, go_left, go_right, go_home, go_end, go_page_up,
  go_page_down, replacing, deleting, enter_line, type_byte, type_tab,
}
use hep_os.Editor.Zip.{IsOn}
use hep_os.Editor.Valid.{cursor, AnchorOn, IsQuiet, Unselected}
use hep_os.Editor.Writes.{
  ensure_visible-≡, Wrote, type_byte-Wrote, enter_line-Wrote, type_tab-Wrote,
}
use hep_os.Editor.Erases.{Leaves, backspace-Leaves, delete_forward-Leaves}
use hep_os.Editor.Moves.{
  Kept, go_up-Kept, go_down-Kept, go_page_up-Kept, go_page_down-Kept, go_left-Kept, go_right-Kept,
  go_home-Kept, go_end-Kept, moving-Kept,
}
use hep_os.Editor.Text.{before, after}
use hep_os.Editor.Find.{pop_last}
use hep_os.Editor.{edit_key}
use hep_os.Editor.Edits.{delete_selection-Emptied}
use hep_os.HepFs.Bytes.{drop}

Unselected-AnchorOn :
    (e g : Editor)
    → Unselected e
    → g.select_anchor ≡ e.select_anchor
    → IsOn g.lines (cursor e)
    → AnchorOn g.lines g.select_anchor
Unselected-AnchorOn e g (inl h) same on = subst (AnchorOn g.lines) (sym (same ∙ h)) tt
Unselected-AnchorOn e g (inr h) same on = subst (AnchorOn g.lines) (sym (same ∙ h)) on

pub replacing-Kept :
    (bs : List ℕ) (f : Editor → Option Editor) (e : Editor)
    → ((g : Editor) → IsOn g.lines (cursor g) → Wrote bs g (f g))
    → IsQuiet e
    → Kept (replacing f e)
unfolding replacing
replacing-Kept bs f e writes q =
    let d = delete_selection-Emptied e q.cursor_on q.anchor_on in
    let (e', run, w) = writes d.left_over d.stands in
    (
      e',
      rw (d.runs, run) refl,
      record {
        cursor_on = w.stands;
        anchor_on = Unselected-AnchorOn d.left_over e' d.unselected w.same_anchor w.stood;
        no_matches = w.same_matches ∙ d.matches ∙ q.no_matches;
      },
    )

delete_forward-cursor : (e e' : Editor) → delete_forward e ≡ some e' → cursor e' ≡ cursor e
unfolding delete_forward remove_right merge_down
delete_forward-cursor e e' h =
    let r : e'.cursor_row ≡ e.cursor_row = ground (arith, h) in
    let c : e'.cursor_col ≡ e.cursor_col = ground (arith, h) in λ i. (r i, c i)

pub deleting-Kept :
    (front back : List ℕ → List ℕ) (f : Editor → Option Editor) (e : Editor)
    → ((g : Editor) → IsOn g.lines (cursor g) → Leaves (front (before g)) (back (after g)) g (f g))
    → ((e' : Editor)
        → f e ≡ some e'
        → IsOn e'.lines (cursor e')
        → Unselected e
        → AnchorOn e'.lines e.select_anchor)
    → IsQuiet e
    → Kept (deleting f e)
unfolding deleting
deleting-Kept front back f e edits anchored_still q =
    let d = delete_selection-Emptied e q.cursor_on q.anchor_on in
    let g = d.left_over in
    elim (Bool-cases d.deleted) [
      | inl is ↦ (
        ensure_visible g,
        rw (d.runs, is) refl,
        rw (ensure_visible-≡ g) (record {
          cursor_on = d.stands;
          anchor_on = Unselected-AnchorOn g g d.unselected refl d.stands;
          no_matches = d.matches ∙ q.no_matches;
        }),
      )
      | inr kept ↦
          let l = edits e q.cursor_on in
          let un = subst Unselected (d.unchanged kept) d.unselected in
          (
            l.reached,
            rw (d.runs, kept, d.unchanged kept) l.runs,
            record {
              cursor_on = l.stands;
              anchor_on =
                  subst (AnchorOn l.reached.lines) (sym l.same_anchor)
                    (anchored_still l.reached l.runs l.stands un);
              no_matches = l.same_matches ∙ q.no_matches;
            },
          )
    ]

delete_forward-anchor :
    (e e' : Editor)
    → delete_forward e ≡ some e'
    → IsOn e'.lines (cursor e')
    → Unselected e
    → AnchorOn e'.lines e.select_anchor
delete_forward-anchor e e' run on (inl h) = subst (AnchorOn e'.lines) (sym h) tt
delete_forward-anchor e e' run on (inr h) =
    subst (AnchorOn e'.lines) (sym h) (subst (IsOn e'.lines) (delete_forward-cursor e e' run) on)

backspace-anchor :
    (e e' : Editor)
    → e.select_anchor ≢ some (cursor e)
    → Unselected e
    → AnchorOn e'.lines e.select_anchor
backspace-anchor e e' apart (inl h) = subst (AnchorOn e'.lines) (sym h) tt
backspace-anchor e e' apart (inr h) = absurd (apart h)

close_key-IsQuiet : (e : Editor) → IsQuiet e → IsQuiet (close_key e)
unfolding close_key
close_key-IsQuiet e q = elim (Bool-cases e.modified) [
  | inl h ↦
      rw h (record { cursor_on = q.cursor_on; anchor_on = q.anchor_on; no_matches = q.no_matches })
  | inr h ↦
      rw h (record { cursor_on = q.cursor_on; anchor_on = q.anchor_on; no_matches = q.no_matches })
]

-- The arms of the match, other than those that reach the disk or the clipboard. An anchor at the cursor
-- stays there under Backspace, so it can be left behind the end of the line.
pub edit_key-Kept :
    (ctrl shift : Bool) (a : Action) (e : Editor)
    → IsQuiet e
    → (a ≡ erase → e.select_anchor ≢ some (cursor e))
    → Kept (edit_key ctrl shift a e)
unfolding edit_key
edit_key-Kept ctrl shift up e q h = moving-Kept shift go_up e go_up-Kept q
edit_key-Kept ctrl shift down e q h = moving-Kept shift go_down e go_down-Kept q
edit_key-Kept ctrl shift left e q h = moving-Kept shift go_left e go_left-Kept q
edit_key-Kept ctrl shift right e q h = moving-Kept shift go_right e go_right-Kept q
edit_key-Kept ctrl shift home e q h = moving-Kept shift (go_home ctrl) e (go_home-Kept ctrl) q
edit_key-Kept ctrl shift end e q h = moving-Kept shift (go_end ctrl) e (go_end-Kept ctrl) q
edit_key-Kept ctrl shift page_up e q h = moving-Kept shift go_page_up e go_page_up-Kept q
edit_key-Kept ctrl shift page_down e q h = moving-Kept shift go_page_down e go_page_down-Kept q
edit_key-Kept ctrl shift enter e q h = replacing-Kept (newline ∷ []) enter_line e enter_line-Wrote q
edit_key-Kept ctrl shift tab e q h = replacing-Kept (replicate 4 32) type_tab e type_tab-Wrote q
edit_key-Kept ctrl shift (insert b) e q h =
    replacing-Kept (b ∷ []) (type_byte b) e (type_byte-Wrote b) q
edit_key-Kept ctrl shift erase e q h =
    deleting-Kept pop_last (λ t. t) backspace e backspace-Leaves
      (λ e' run on. backspace-anchor e e' (h refl)) q
edit_key-Kept ctrl shift delete e q h =
    deleting-Kept (λ t. t) (drop 1) delete_forward e delete_forward-Leaves (delete_forward-anchor e)
      q
edit_key-Kept ctrl shift close e q h = (close_key e, refl, close_key-IsQuiet e q)
edit_key-Kept ctrl shift force_close e q h = (
  record e { is_open = false },
  refl,
  record { cursor_on = q.cursor_on; anchor_on = q.anchor_on; no_matches = q.no_matches },
)
edit_key-Kept ctrl shift other e q h = (e, refl, q)
