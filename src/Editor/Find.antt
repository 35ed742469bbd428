-- ===== src/Editor/Find.antt =====
-- The find mode of the editor of kernel/src/editor.rs.
use hep_os.Prelude.{
  Bool, List, Option, [], false, get_or, if◌then◌else◌, leb, length, ltb, none, not, some, true, ℕ,
  ◌%◌, ◌&&◌, ◌++◌, ◌+◌, ◌==◌, ◌||◌, ◌∷◌,
}
use hep_os.HepFs.Bytes.{take}
use hep_os.HepFs.Dir.{same_bytes}
use hep_os.HepFs.File.{is_empty}
use hep_os.Editor.Vec.{◌>>=◌}
use hep_os.Editor.Buffer.{hint, Editor, newline, ensure_visible, is_printable}

-- The positions of a query in row `r`, from column `c` on; the third argument is the line from there on.
unfoldable pub find_in_line : List ℕ → ℕ → ℕ → List ℕ → List (ℕ × ℕ)
find_in_line query r c [] = []
find_in_line query r c (b ∷ rest) =
    let more = find_in_line query r (c + 1) rest in
    if leb (length query) (length (b ∷ rest)) && same_bytes (take (length query) (b ∷ rest)) query
    then (r, c) ∷ more
    else more

unfoldable pub find_in_lines : List ℕ → ℕ → List (List ℕ) → List (ℕ × ℕ)
unfolding find_in_line
find_in_lines query r [] = []
find_in_lines query r (l ∷ ls) = find_in_line query r 0 l ++ find_in_lines query (r + 1) ls

-- The matches are listed in the order of the text; an empty query has none.
unfoldable pub find_all : Editor → Editor
unfolding find_in_lines
find_all e = record e {
  find_matches = if is_empty e.find_query then [] else find_in_lines e.find_query 0 e.lines;
}

abbrev pub next_index : Option ℕ → Option ℕ
next_index none = none
next_index (some i) = some (i + 1)

-- The first match that is not before the cursor.
unfoldable pub position_at_or_after : ℕ → ℕ → List (ℕ × ℕ) → Option ℕ
position_at_or_after row col [] = none
position_at_or_after row col (m ∷ ms) =
    let rest = position_at_or_after row col ms in
    if ltb row m.0 || m.0 == row && leb col m.1 then some 0 else rest >>= λ i. some (i + 1)

-- The end of find_jump_nearest and of find_next, once `find_idx` is set.
unfoldable pub jump_to : ℕ → Editor → Editor
unfolding ensure_visible
jump_to i e =
    let m = get_or e.find_matches i (0, 0) in
    ensure_visible (record e { find_idx = i; cursor_row = m.0; cursor_col = m.1 })

abbrev pub none_found : List (ℕ × ℕ) → Bool
none_found [] = true
none_found (m ∷ ms) = false

-- unwrap_or(0)
abbrev pub or_first : Option ℕ → ℕ
or_first none = 0
or_first (some i) = i

unfoldable pub find_jump_nearest : Editor → Editor
unfolding position_at_or_after jump_to
find_jump_nearest e =
    if none_found e.find_matches
    then e
    else jump_to (or_first (position_at_or_after e.cursor_row e.cursor_col e.find_matches)) e

unfoldable pub find_next : Editor → Editor
unfolding jump_to
find_next e =
    if none_found e.find_matches then e else jump_to ((e.find_idx + 1) % length e.find_matches) e

-- Vec::pop_last, with the popped byte dropped.
abbrev pub pop_last : List ℕ → List ℕ
pop_last [] = []
pop_last (b ∷ []) = []
pop_last (b ∷ (c ∷ cs)) = b ∷ pop_last (c ∷ cs)

-- Ctrl+F.
unfoldable pub enter_find : Editor → Editor
unfolding find_next
enter_find e =
    if not e.find_mode
    then record e { find_mode = true; find_query = []; find_matches = []; find_idx = 0 }
    else find_next e

abbrev pub leave_find : Editor → Editor
leave_find e = record e {
  find_mode = false;
  find_query = [];
  find_matches = [];
  status = hint;
  status_good = true;
}

unfoldable pub search_for : List ℕ → Editor → Editor
unfolding find_all find_jump_nearest
search_for query e = find_jump_nearest (find_all (record e { find_query = query }))

-- A key in find mode, other than Ctrl+F.
unfoldable pub find_key : ℕ → Editor → Editor
unfolding find_next search_for
find_key c e =
    if c == 0x1B
    then leave_find e
    else if c == newline || c == 0x07
    then find_next e
    else if c == 0x08
    then search_for (pop_last e.find_query) e
    else if is_printable c
    then search_for (e.find_query ++ (c ∷ [])) e
    else e
