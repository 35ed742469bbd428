-- ===== src/Editor/Buffer.antt =====
-- The state of the editor of kernel/src/editor.rs, and what typing, Enter, Backspace and Delete do to
-- its lines when nothing is selected. A function is `none` where the source panics.
use hep_os.Prelude.{
  Bool, List, Option, [], false, get_elem?, if◌then◌else◌, leb, length, ltb, map, none, set, some,
  true, ℕ, ◌&&◌, ◌++◌, ◌+◌, ◌-◌, ◌==◌, ◌||◌, ◌∷◌,
}
use hep_os.HepFs.Bytes.{drop}
use hep_os.HepFs.Dir.{same_bytes}
use hep_os.Editor.Vec.{◌>>=◌, choose, split_off, vec_insert, vec_remove}

-- `status_msg`, by the places that set it.
pub data Status : Type 0 where
  hint : Status
  unsaved : Status
  saved : List ℕ → ℕ → Status
  no_controller : Status

-- `status` and `status_good` are status_msg and status_ok, `is_open` is open.
pub record Editor : Type 0 where
  pub path : List ℕ
  pub lines : List (List ℕ)
  pub cursor_row : ℕ
  pub cursor_col : ℕ
  pub scroll_row : ℕ
  pub modified : Bool
  pub status : Status
  pub status_good : Bool
  pub is_open : Bool
  pub visible_rows_hint : ℕ
  pub highlight : Bool
  pub select_anchor : Option (ℕ × ℕ)
  pub find_mode : Bool
  pub find_query : List ℕ
  pub find_matches : List (ℕ × ℕ)
  pub find_idx : ℕ

abbrev pub newline : ℕ
newline = 10

-- content.split(|&b| b == b'\n')
unfoldable pub split_lines : List ℕ → List (List ℕ)
split_lines [] = [] ∷ []
split_lines (b ∷ bs) = elim (split_lines bs) [
  | [] ↦ (b ∷ []) ∷ []
  | l ∷ ls ↦ if b == newline then [] ∷ (l ∷ ls) else (b ∷ l) ∷ ls
]

-- The text that `save` writes: the lines, with a newline between two of them.
unfoldable pub join_lines : List (List ℕ) → List ℕ
join_lines [] = []
join_lines (l ∷ []) = l
join_lines (l ∷ (m ∷ ls)) = l ++ (newline ∷ join_lines (m ∷ ls))

abbrev pub is_suffix : List ℕ → List ℕ → Bool
is_suffix ext name =
    leb (length ext) (length name) && same_bytes (drop (length name - length ext) name) ext

-- str::to_lowercase, as far as the extensions are concerned.
abbrev pub lowercase : ℕ → ℕ
lowercase b = if leb 65 b && leb b 90 then b + 32 else b

-- .rs .c .h .cpp .hpp .cc .cxx
abbrev pub extensions : List (List ℕ)
extensions =
    (46 ∷ 114 ∷ 115 ∷ [])
    ∷ (46 ∷ 99 ∷ [])
    ∷ (46 ∷ 104 ∷ [])
    ∷ (46 ∷ 99 ∷ 112 ∷ 112 ∷ [])
    ∷ (46 ∷ 104 ∷ 112 ∷ 112 ∷ [])
    ∷ (46 ∷ 99 ∷ 99 ∷ [])
    ∷ (46 ∷ 99 ∷ 120 ∷ 120 ∷ [])
    ∷ []

abbrev pub any_of : (List ℕ → Bool) → List (List ℕ) → Bool
any_of test [] = false
any_of test (x ∷ xs) = test x || any_of test xs

unfoldable pub supports_highlighting : List ℕ → Bool
supports_highlighting path = any_of (λ ext. is_suffix ext (map lowercase path)) extensions

unfoldable pub new_editor : List ℕ → List ℕ → Editor
unfolding split_lines supports_highlighting
new_editor path content = record {
  path = path;
  lines = split_lines content;
  cursor_row = 0;
  cursor_col = 0;
  scroll_row = 0;
  modified = false;
  status = hint;
  status_good = true;
  is_open = true;
  visible_rows_hint = 20;
  highlight = supports_highlighting path;
  select_anchor = none;
  find_mode = false;
  find_query = [];
  find_matches = [];
  find_idx = 0;
}

-- self.lines[row].len()
abbrev pub line_len : List (List ℕ) → ℕ → Option ℕ
line_len ls row = get_elem? ls row >>= λ l. some (length l)

unfoldable pub ensure_visible : Editor → Editor
ensure_visible e =
    if ltb e.cursor_row e.scroll_row then record e { scroll_row = e.cursor_row } else e

unfoldable pub clamp_col : Editor → Option Editor
clamp_col e = do
  m ← line_len e.lines e.cursor_row
  some (if ltb m e.cursor_col then record e { cursor_col = m } else e)

-- The three statements that split a line, of `insert_text` and of Enter.
unfoldable pub split_line : Editor → Option Editor
split_line e = do
  l ← get_elem? e.lines e.cursor_row
  p ← split_off e.cursor_col l
  ls ← vec_insert (e.cursor_row + 1) p.1 (set e.lines e.cursor_row p.0)
  some (record e { lines = ls; cursor_row = e.cursor_row + 1; cursor_col = 0 })

-- self.lines[self.cursor_row].insert(self.cursor_col, b); self.cursor_col += 1;
unfoldable pub insert_byte : ℕ → Editor → Option Editor
insert_byte b e = do
  l ← get_elem? e.lines e.cursor_row
  l' ← vec_insert e.cursor_col b l
  some (record e { lines = set e.lines e.cursor_row l'; cursor_col = e.cursor_col + 1 })

abbrev pub is_printable : ℕ → Bool
is_printable b = leb 32 b && ltb b 128

-- The body of the loop of `insert_text`.
unfoldable pub insert_step : ℕ → Editor → Option Editor
unfolding split_line insert_byte
insert_step b e =
    if b == newline then split_line e else if is_printable b then insert_byte b e else some e

unfoldable pub insert_bytes : List ℕ → Editor → Option Editor
unfolding insert_step
insert_bytes [] e = some e
insert_bytes (b ∷ bs) e = do e' ← insert_step b e; insert_bytes bs e'

unfoldable pub insert_text : List ℕ → Editor → Option Editor
unfolding insert_bytes ensure_visible
insert_text text e = do
  e' ← insert_bytes text e
  some (record (ensure_visible e') { modified = true })

-- self.cursor_col -= 1; self.lines[self.cursor_row].remove(self.cursor_col);
unfoldable pub remove_left : Editor → Option Editor
remove_left e = do
  l ← get_elem? e.lines e.cursor_row
  p ← vec_remove (e.cursor_col - 1) l
  some (record e {
    lines = set e.lines e.cursor_row p.1;
    cursor_col = e.cursor_col - 1;
    modified = true;
  })

-- Merge with the previous line.
unfoldable pub merge_up : Editor → Option Editor
unfolding ensure_visible
merge_up e = do
  p ← vec_remove e.cursor_row e.lines
  l ← get_elem? p.1 (e.cursor_row - 1)
  let e' = record e {
    lines = set p.1 (e.cursor_row - 1) (l ++ p.0);
    cursor_row = e.cursor_row - 1;
    cursor_col = length l;
  }
  some (record (ensure_visible e') { modified = true })

-- The arm of Backspace without a selection.
unfoldable pub backspace : Editor → Option Editor
unfolding remove_left merge_up
backspace e =
    if ltb 0 e.cursor_col then remove_left e else if ltb 0 e.cursor_row then merge_up e else some e

unfoldable pub remove_right : List ℕ → Editor → Option Editor
remove_right l e = do
  p ← vec_remove e.cursor_col l
  some (record e { lines = set e.lines e.cursor_row p.1; modified = true })

unfoldable pub merge_down : List ℕ → Editor → Option Editor
merge_down l e = do
  p ← vec_remove (e.cursor_row + 1) e.lines
  some (record e { lines = set p.1 e.cursor_row (l ++ p.0); modified = true })

-- The arm of KEY_DEL without a selection.
unfoldable pub delete_forward : Editor → Option Editor
unfolding remove_right merge_down
delete_forward e = do
  l ← get_elem? e.lines e.cursor_row
  choose (ltb e.cursor_col (length l)) (remove_right l e)
      (choose (ltb (e.cursor_row + 1) (length e.lines)) (merge_down l e) (some e))
