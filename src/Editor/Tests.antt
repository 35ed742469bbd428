-- ===== src/Editor/Tests.antt =====
-- Runs of the editor of kernel/src/editor.rs on small texts.
use hep_os.Prelude.{
  List, [], arith, false, if◌then◌else◌, ltb, none, refl, some, true, ℕ, ◌&&◌, ◌++◌, ◌∷◌, ◌≡◌,
}
use hep_os.Editor.Buffer.{Editor, join_lines, supports_highlighting, new_editor, insert_byte}
use hep_os.Editor.Keys.{erase, insert, replacing, type_byte}
use hep_os.Editor.Select.{
  range_of, selection_range, cut_across, cut, delete_range, delete_selection_if_any, mouse_down,
}
use hep_os.Editor.Vec.{◌>>=◌}
use hep_os.Editor.Find.{find_all, pop_last}
use hep_os.Editor.Typing.{accepted}
use hep_os.Editor.Zip.{IsOn}
use hep_os.Editor.Text.{before, after}
use hep_os.Editor.Valid.{cursor, AnchorOn, IsValid}
use hep_os.Editor.Edits.{
  head_text, tail_text, selects, bytes_of, Shows, edit_key-bytes_of, edit_key-erase,
}
use hep_os.Editor.Pasting.{cut_and_paste, cut_and_paste_lem}
use hep_os.Editor.Safety.{CanStore, on_key-IsValid}
use hep_os.Editor.Matches.{occurs, lists, find_all_lem}
use hep_os.Editor.Stale.{click_and_type, click_and_type_lem, erase_and_copy, erase_and_copy_lem}
use hep_os.Editor.Opened.{new_editor_lem}
use hep_os.Editor.{Session, edit_key, on_key}

-- "ab", a newline, "cd"
abbrev two_lines : List ℕ
two_lines = 97 ∷ 98 ∷ 10 ∷ 99 ∷ 100 ∷ []

abbrev sample_path : List ℕ
sample_path = 47 ∷ 97 ∷ 46 ∷ 99 ∷ []

abbrev opened : Editor
opened = new_editor sample_path two_lines

abbrev closed_session : Session
closed_session = record { editor = opened; clipboard = []; controller = none }

-- The cursor at the end of the second line, the anchor at column 1 of the first.
abbrev marked : Editor
marked = record opened {
  lines = (97 ∷ 98 ∷ []) ∷ (99 ∷ 100 ∷ []) ∷ [];
  cursor_row = 1;
  cursor_col = 2;
  select_anchor = some (0, 1);
}

abbrev marked_session : Session
marked_session = record { editor = marked; clipboard = []; controller = none }

marked_IsOn : IsOn marked.lines (cursor marked)
marked_IsOn = omega arith

marked_AnchorOn : AnchorOn marked.lines marked.select_anchor
marked_AnchorOn = omega arith

-- A key typed over the selection.
typed_over :
    edit_key false false (insert 120) marked >>= (λ e. some e.lines) ≡ some ((97 ∷ 120 ∷ []) ∷ [])
unfolding edit_key replacing delete_selection_if_any selection_range range_of delete_range cut
    cut_across type_byte insert_byte
typed_over = refl

highlighting : supports_highlighting sample_path ≡ true
unfolding supports_highlighting
highlighting = refl

nothing_to_store : CanStore closed_session
nothing_to_store fs h = absurd (cc)

on_key-IsValid_example :
    (s' : Session) × (on_key false false 97 closed_session ≡ some s') × IsValid s'.editor
on_key-IsValid_example =
    on_key-IsValid false false 97 closed_session (new_editor_lem sample_path two_lines).0
      nothing_to_store (λ h. absurd (omega (arith, h)))

cut_and_paste_lem_example :
    (s' : Session) × (cut_and_paste false false marked_session ≡ some s')
    × (join_lines s'.editor.lines ≡ join_lines marked.lines)
unfolding selection_range range_of accepted join_lines
cut_and_paste_lem_example =
    cut_and_paste_lem false false marked_session marked_IsOn marked_AnchorOn refl refl

edit_key-bytes_of_example :
    Shows
      (head_text marked ++ (120 ∷ []))
      (tail_text marked)
      (edit_key false false (insert 120) marked)
unfolding bytes_of
edit_key-bytes_of_example =
    edit_key-bytes_of false false (insert 120) (120 ∷ []) marked marked_IsOn marked_AnchorOn refl

edit_key-erase_example :
    Shows
      (if selects marked then head_text marked else pop_last (head_text marked))
      (if selects marked then tail_text marked else tail_text marked)
      (edit_key false false erase marked)
edit_key-erase_example = edit_key-erase false false marked marked_IsOn marked_AnchorOn

find_all_lem_example :
    lists (find_all (record opened { find_query = 99 ∷ [] })).find_matches (1, 0)
    ≡ (ltb 0 1 && occurs (99 ∷ []) opened.lines (1, 0))
find_all_lem_example = find_all_lem (record opened { find_query = 99 ∷ [] }) (1, 0)

click_and_type_lem_example :
    (e1 : Editor) × (e' : Editor) × (mouse_down 1 1 opened ≡ some e1)
    × (click_and_type 1 1 120 121 opened ≡ some e')
    × (before e' ≡ before e1 ++ (121 ∷ []))
    × (after e' ≡ after e1)
click_and_type_lem_example =
    click_and_type_lem 1 1 120 121 opened (new_editor_lem sample_path two_lines).0

erase_and_copy_lem_example :
    erase_and_copy (record marked { select_anchor = some (1, 2) }) [] ≡ none
erase_and_copy_lem_example =
    erase_and_copy_lem (record marked { select_anchor = some (1, 2) }) [] marked_IsOn (omega arith)
      refl refl

new_editor_lem_example :
    IsValid opened
    × (opened.select_anchor ≡ none)
    × (opened.find_matches ≡ [])
    × (join_lines opened.lines ≡ two_lines)
new_editor_lem_example = new_editor_lem sample_path two_lines
