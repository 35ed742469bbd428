-- ===== src/Editor.antt =====
-- kernel/src/editor.rs: the text editor.
pub mod Vec
pub mod Buffer
pub mod Select
pub mod Find
pub mod Keys
pub mod Zip
pub mod Text
pub mod Typing
pub mod Cutting
mod Tests
pub mod Opened
pub mod Stale
pub mod Safety
pub mod Steps
pub mod Matches
pub mod Keeps
pub mod Moves
pub mod Pasting
pub mod Erases
pub mod Writes
pub mod Edits
pub mod Valid
pub mod Ranges
pub mod Erasing
use hep_os.Prelude.{
  Bool, List, Option, [], false, if◌then◌else◌, length, none, some, true, ℕ, ◌%◌, ◌==◌, ◌∷◌,
}
use hep_os.Editor.Vec.{◌>>=◌, split_off}
use hep_os.Editor.Buffer.{
  saved, no_controller, Editor, join_lines, insert_text, backspace, delete_forward,
}
use hep_os.Editor.Select.{cut, copy_selection}
use hep_os.Editor.Find.{enter_find, find_key}
use hep_os.Editor.Keys.{
  Action, save, copy, paste, close, force_close, up, down, left, right, home, end, page_up,
  page_down, enter, erase, delete, tab, insert, action_of, close_key, go_up, go_down, go_left,
  go_right, go_home, go_end, go_page_up, go_page_down, replacing, deleting, enter_line, type_byte,
  type_tab, moving,
}
use hep_os.HepFs.Disk.{Fs, ◌>>◌}
use hep_os.HepFs.Inode.{root_ino}
use hep_os.HepFs.Ops.{lookup, create_file}
use hep_os.HepFs.File.{write_file}

-- An editor, the clipboard of kernel/src/clipboard.rs, and the disk behind nvme::CONTROLLER if there
-- is one.
pub record Session : Type 0 where
  pub editor : Editor
  pub clipboard : List ℕ
  pub controller : Option Fs

-- str::trim_start_matches('/')
abbrev pub trim_slashes : List ℕ → List ℕ
trim_slashes [] = []
trim_slashes (c ∷ cs) = let rest = trim_slashes cs in if c == b'/' then rest else c ∷ cs

-- The inode of the file, which is created in the root where `lookup` finds none; then its contents.
unfoldable pub store : List ℕ → List ℕ → Fs → Option Fs
unfolding lookup create_file write_file
store path bytes fs = do
  (found, fs1) ← lookup path fs
  (ino, fs2) ← elim found [
    | some ino ↦ some (ino, fs1)
    | none ↦ create_file root_ino (trim_slashes path) fs1
  ]
  (done, fs3) ← write_file ino bytes fs2
  some fs3

unfoldable pub save_file : Session → Option Session
unfolding join_lines store
save_file s =
    let e = s.editor in
    let bytes = join_lines e.lines in
    elim s.controller [
      | none ↦ some (record s { editor = record e { status = no_controller; status_good = false } })
      | some fs ↦ do
        fs' ← store e.path bytes fs
        some (record s {
          editor = record e {
            modified = false;
            status = saved e.path (length bytes);
            status_good = true;
          };
          controller = some fs';
        })
    ]

-- A step that touches the editor only.
abbrev pub edit : (Editor → Option Editor) → Session → Option Session
edit f s = do e ← f s.editor; some (record s { editor = e })

unfoldable pub copy_key : Session → Option Session
unfolding copy_selection
copy_key s = do bytes ← copy_selection s.editor s.clipboard; some (record s { clipboard = bytes })

unfoldable pub paste_clipboard : Session → Option Session
unfolding replacing insert_text
paste_clipboard s = edit (replacing (insert_text s.clipboard)) s

unfoldable pub clipboard_action : Bool → Session → Option Session
unfolding copy_key paste_clipboard
clipboard_action is_paste s = if is_paste then paste_clipboard s else copy_key s

-- What an arm does to the editor alone; save, copy and paste are in `act`.
unfoldable pub edit_key : Bool → Bool → Action → Editor → Option Editor
unfolding close_key moving go_up go_down go_left go_right go_home go_end go_page_up go_page_down
    replacing deleting enter_line backspace delete_forward type_tab type_byte
edit_key ctrl shift close e = some (close_key e)
edit_key ctrl shift force_close e = some (record e { is_open = false })
edit_key ctrl shift up e = moving shift go_up e
edit_key ctrl shift down e = moving shift go_down e
edit_key ctrl shift left e = moving shift go_left e
edit_key ctrl shift right e = moving shift go_right e
edit_key ctrl shift home e = moving shift (go_home ctrl) e
edit_key ctrl shift end e = moving shift (go_end ctrl) e
edit_key ctrl shift page_up e = moving shift go_page_up e
edit_key ctrl shift page_down e = moving shift go_page_down e
edit_key ctrl shift enter e = replacing enter_line e
edit_key ctrl shift erase e = deleting backspace e
edit_key ctrl shift delete e = deleting delete_forward e
edit_key ctrl shift tab e = replacing type_tab e
edit_key ctrl shift (insert b) e = replacing (type_byte b) e
edit_key ctrl shift other e = some e

unfoldable pub act : Bool → Bool → Action → Session → Option Session
unfolding save_file copy_key paste_clipboard edit_key
act ctrl shift save s = save_file s
act ctrl shift copy s = copy_key s
act ctrl shift paste s = paste_clipboard s
act ctrl shift other s = edit (edit_key ctrl shift other) s

-- Editor::on_key; `ctrl` and `shift` are ps2::ctrl_held() and ps2::shift_held(), and the key is a char.
unfoldable pub on_key : Bool → Bool → ℕ → Session → Option Session
unfolding enter_find find_key action_of act
on_key ctrl shift key s =
    let c = key % 256 in
    if c == 0x06
    then some (record s { editor = enter_find s.editor })
    else if s.editor.find_mode
    then some (record s { editor = find_key c s.editor })
    else act ctrl shift (action_of ctrl c) s
