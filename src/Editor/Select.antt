-- ===== src/Editor/Select.antt =====
-- The selection of the editor of kernel/src/editor.rs, the mouse, and what is copied.
use hep_os.Prelude.{
  Bool, List, Option, [], false, get_elem?, if◌then◌else◌, leb, length, ltb, min, none, set, some,
  true, ℕ, ◌&&◌, ◌++◌, ◌+◌, ◌-◌, ◌==◌, ◌||◌, ◌∷◌,
}
use hep_os.HepFs.Bytes.{take}
use hep_os.Editor.Vec.{◌>>=◌, choose, split_off, vec_slice, drain}
use hep_os.Editor.Buffer.{Editor, newline, line_len, ensure_visible}

abbrev pub same_pos : ℕ × ℕ → ℕ × ℕ → Bool
same_pos p q = p.0 == q.0 && p.1 == q.1

-- The order of (usize, usize).
abbrev pub leb_pos : ℕ × ℕ → ℕ × ℕ → Bool
leb_pos p q = ltb p.0 q.0 || p.0 == q.0 && leb p.1 q.1

-- The selection between an anchor and the cursor.
unfoldable pub range_of : ℕ × ℕ → ℕ × ℕ → Option ((ℕ × ℕ) × (ℕ × ℕ))
range_of anchor cursor =
    if same_pos anchor cursor
    then none
    else if leb_pos anchor cursor
    then some (anchor, cursor)
    else some (cursor, anchor)

unfoldable pub selection_range : Editor → Option ((ℕ × ℕ) × (ℕ × ℕ))
unfolding range_of
selection_range e = e.select_anchor >>= λ anchor. range_of anchor (e.cursor_row, e.cursor_col)

unfoldable pub selection_cols_for_line : ℕ → ℕ → Editor → Option (ℕ × ℕ)
unfolding selection_range
selection_cols_for_line line_idx len e = do
  (s, t) ← selection_range e
  let first = if line_idx == s.0 then s.1 else 0
  let last = if line_idx == t.0 then t.1 else len
  choose (ltb line_idx s.0 || ltb t.0 line_idx) none
      (choose (leb last first) none (some (first, last)))

-- Both positions on one line.
unfoldable pub cut_within : ℕ × ℕ → ℕ × ℕ → List (List ℕ) → Option (List (List ℕ))
cut_within s t ls = do
  l ← get_elem? ls s.0
  let last = min t.1 (length l)
  l' ← drain (min s.1 last) last l
  some (set ls s.0 l')

unfoldable pub cut_across : ℕ × ℕ → ℕ × ℕ → List (List ℕ) → Option (List (List ℕ))
cut_across s t ls = do
  let e_row = min t.0 (length ls - 1)
  el ← get_elem? ls e_row
  first ← get_elem? ls s.0
  let s_col = min s.1 (length first)
  p ← split_off (min t.1 (length el)) el
  let ls' = set ls e_row p.0
  l ← get_elem? ls' s.0
  drain (s.0 + 1) (e_row + 1) (set ls' s.0 (take s_col l ++ p.1))

unfoldable pub cut : ℕ × ℕ → ℕ × ℕ → List (List ℕ) → Option (List (List ℕ))
unfolding cut_within cut_across
cut s t ls = if s.0 == t.0 then cut_within s t ls else cut_across s t ls

-- The editor once the range is gone.
unfoldable pub delete_range : ℕ × ℕ → ℕ × ℕ → Editor → Option Editor
unfolding cut
delete_range s t e = do
  ls ← cut s t e.lines
  some (record e {
    lines = ls;
    cursor_row = s.0;
    cursor_col = s.1;
    select_anchor = none;
    modified = true;
  })

-- Whether anything was deleted, and the editor.
unfoldable pub delete_selection_if_any : Editor → Option (Bool × Editor)
unfolding selection_range delete_range
delete_selection_if_any e = elim (selection_range e) [
  | none ↦ some (false, e)
  | some (s, t) ↦ delete_range s t e >>= λ e'. some (true, e')
]

-- An anchor that is there stays.
abbrev pub anchored : Option (ℕ × ℕ) → ℕ × ℕ → Option (ℕ × ℕ)
anchored none here = some here
anchored (some anchor) here = some anchor

unfoldable pub update_selection_anchor : Bool → Editor → Editor
update_selection_anchor shift_held e =
    if shift_held
    then record e { select_anchor = anchored e.select_anchor (e.cursor_row, e.cursor_col) }
    else record e { select_anchor = none }

-- The cursor at the position of the text that is nearest to (row, col).
unfoldable pub point_at : ℕ → ℕ → Editor → Option Editor
point_at row col e = do
  let row' = min row (length e.lines - 1)
  m ← line_len e.lines row'
  some (record e { cursor_row = row'; cursor_col = min col m })

unfoldable pub mouse_down : ℕ → ℕ → Editor → Option Editor
unfolding point_at ensure_visible
mouse_down row col e = do
  e' ← point_at row col e
  some (ensure_visible (record e' { select_anchor = some (e'.cursor_row, e'.cursor_col) }))

unfoldable pub mouse_drag : ℕ → ℕ → Editor → Option Editor
unfolding point_at ensure_visible
mouse_drag row col e = do e' ← point_at row col e; some (ensure_visible e')

unfoldable pub select_line : ℕ → Editor → Option Editor
unfolding ensure_visible
select_line row e = do
  let row' = min row (length e.lines - 1)
  m ← line_len e.lines row'
  some (
      ensure_visible
        (record e { cursor_row = row'; cursor_col = m; select_anchor = some (row', 0) }))

-- The lines between the first and the last one, each behind a newline.
abbrev pub with_newlines : List (List ℕ) → List ℕ
with_newlines [] = []
with_newlines (l ∷ ls) = (newline ∷ l) ++ with_newlines ls

unfoldable pub copied : ℕ × ℕ → ℕ × ℕ → List (List ℕ) → Option (List ℕ)
copied s t ls = do
  first ← get_elem? ls s.0
  last ← get_elem? ls t.0
  choose (s.0 == t.0) (vec_slice s.1 t.1 first) (do
    head ← vec_slice s.1 (length first) first
    rows ← vec_slice (s.0 + 1) t.0 ls
    tail ← vec_slice 0 t.1 last
    some (head ++ (with_newlines rows ++ (newline ∷ tail))))

-- The clipboard of kernel/src/clipboard.rs after `copy_selection`.
unfoldable pub copy_selection : Editor → List ℕ → Option (List ℕ)
unfolding selection_range copied
copy_selection e clipboard = elim (selection_range e) [
  | none ↦ some clipboard
  | some (s, t) ↦ copied s t e.lines
]
