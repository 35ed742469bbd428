-- ===== src/Editor/Keys.antt =====
-- The keys of the editor of kernel/src/editor.rs that move the cursor or change the text.
use hep_os.Prelude.{
  Bool, Option, false, if◌then◌else◌, length, ltb, max, min, some, suc, true, zero, ℕ, ◌&&◌, ◌+◌,
  ◌-◌, ◌==◌, ◌||◌,
}
use hep_os.Editor.Vec.{◌>>=◌, choose}
use hep_os.Editor.Buffer.{
  unsaved, Editor, newline, line_len, ensure_visible, clamp_col, split_line, insert_byte,
  is_printable,
}
use hep_os.Editor.Select.{delete_selection_if_any, update_selection_anchor}

-- The arms of the match on a key outside find mode.
pub data Action : Type 0 where
  save : Action
  copy : Action
  paste : Action
  close : Action
  force_close : Action
  up : Action
  down : Action
  left : Action
  right : Action
  home : Action
  end : Action
  page_up : Action
  page_down : Action
  enter : Action
  erase : Action
  delete : Action
  tab : Action
  insert : ℕ → Action
  ignore : Action

-- The key codes of kernel/src/ps2.rs.
unfoldable pub special_key : ℕ → Action
special_key c =
    if c == 0x92
    then save
    else if c == 0x9A
    then force_close
    else if c == 0x80
    then up
    else if c == 0x81
    then down
    else if c == 0x82
    then left
    else if c == 0x83
    then right
    else if c == 0x84
    then delete
    else if c == 0x85
    then home
    else if c == 0x86
    then end
    else if c == 0x87
    then page_up
    else if c == 0x88
    then page_down
    else ignore

-- The arm that a byte takes, by the state of Ctrl. No two patterns of the match but those on b'C' and
-- b'V' share a byte, so the order of the others is free.
unfoldable pub action_of : Bool → ℕ → Action
unfolding special_key
action_of ctrl_held c =
    if c == 0x13
    then save
    else if c == 0x03 || c == b'C' && ctrl_held
    then copy
    else if c == 0x16 || c == b'V' && ctrl_held
    then paste
    else if c == 0x11 || c == 0x1B
    then close
    else if c == newline
    then enter
    else if c == 0x08
    then erase
    else if c == 0x09
    then tab
    else if is_printable c
    then insert c
    else special_key c

-- Ctrl+Q and ESC.
unfoldable pub close_key : Editor → Editor
close_key e =
    if e.modified
    then record e { status = unsaved; status_good = false; modified = false }
    else record e { is_open = false }

-- self.clamp_col(); self.ensure_visible();
unfoldable pub clamp_and_show : Editor → Option Editor
unfolding clamp_col ensure_visible
clamp_and_show e = do e' ← clamp_col e; some (ensure_visible e')

unfoldable pub go_up : Editor → Option Editor
unfolding clamp_and_show
go_up e =
    choose (ltb 0 e.cursor_row) (clamp_and_show (record e { cursor_row = e.cursor_row - 1 }))
      (some e)

unfoldable pub go_down : Editor → Option Editor
unfolding clamp_and_show
go_down e =
    choose (ltb (e.cursor_row + 1) (length e.lines))
      (clamp_and_show (record e { cursor_row = e.cursor_row + 1 })) (some e)

unfoldable pub go_left : Editor → Option Editor
unfolding ensure_visible
go_left e = choose (ltb 0 e.cursor_col) (some (record e { cursor_col = e.cursor_col - 1 })) (
    choose (ltb 0 e.cursor_row)
      (do
        m ← line_len e.lines (e.cursor_row - 1)
        some (ensure_visible (record e { cursor_row = e.cursor_row - 1; cursor_col = m })))
      (some e))

unfoldable pub go_right : Editor → Option Editor
unfolding ensure_visible
go_right e = do
  m ← line_len e.lines e.cursor_row
  choose (ltb e.cursor_col m) (some (record e { cursor_col = e.cursor_col + 1 })) (
      choose (ltb (e.cursor_row + 1) (length e.lines))
        (some (ensure_visible (record e { cursor_row = e.cursor_row + 1; cursor_col = 0 })))
        (some e))

unfoldable pub go_home : Bool → Editor → Option Editor
go_home ctrl_held e = some (
    if ctrl_held
    then record e { cursor_row = 0; cursor_col = 0; scroll_row = 0 }
    else record e { cursor_col = 0 })

unfoldable pub go_end : Bool → Editor → Option Editor
unfolding ensure_visible
go_end ctrl_held e =
    choose ctrl_held
      (do
        let row = length e.lines - 1
        m ← line_len e.lines row
        some (ensure_visible (record e { cursor_row = row; cursor_col = m })))
      (do m ← line_len e.lines e.cursor_row; some (record e { cursor_col = m }))

unfoldable pub page_rows : Editor → ℕ
page_rows e = max e.visible_rows_hint 1

unfoldable pub go_page_up : Editor → Option Editor
unfolding page_rows clamp_and_show
go_page_up e = clamp_and_show (record e { cursor_row = e.cursor_row - page_rows e })

unfoldable pub go_page_down : Editor → Option Editor
unfolding page_rows clamp_and_show
go_page_down e =
    clamp_and_show (record e { cursor_row = min (e.cursor_row + page_rows e) (length e.lines - 1) })

-- self.delete_selection_if_any(); …
unfoldable pub replacing : (Editor → Option Editor) → Editor → Option Editor
unfolding delete_selection_if_any
replacing edit e = do d ← delete_selection_if_any e; edit d.1

-- if self.delete_selection_if_any() { self.ensure_visible(); } else …
unfoldable pub deleting : (Editor → Option Editor) → Editor → Option Editor
unfolding delete_selection_if_any ensure_visible
deleting edit e = do
  d ← delete_selection_if_any e
  choose d.0 (some (ensure_visible d.1)) (edit d.1)

abbrev pub mark_modified : Editor → Editor
mark_modified e = record e { modified = true }

unfoldable pub enter_line : Editor → Option Editor
unfolding split_line ensure_visible
enter_line e = do e' ← split_line e; some (mark_modified (ensure_visible e'))

unfoldable pub type_byte : ℕ → Editor → Option Editor
unfolding insert_byte
type_byte b e = do e' ← insert_byte b e; some (mark_modified e')

unfoldable pub insert_spaces : ℕ → Editor → Option Editor
unfolding insert_byte
insert_spaces zero e = some e
insert_spaces (suc n) e = do e' ← insert_byte 32 e; insert_spaces n e'

unfoldable pub type_tab : Editor → Option Editor
unfolding insert_spaces
type_tab e = do e' ← insert_spaces 4 e; some (mark_modified e')

-- A key that moves the cursor.
unfoldable pub moving : Bool → (Editor → Option Editor) → Editor → Option Editor
unfolding update_selection_anchor
moving shift_held move e = move (update_selection_anchor shift_held e)
