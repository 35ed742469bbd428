-- ===== src/Editor/Safety.antt =====
-- No key and no move of the mouse makes the editor of kernel/src/editor.rs panic while its cursor,
-- its anchor and its matches are on the text.
use hep_os.Prelude.{
  Bool, Bool-cases, Option, Option-cases, [], arith, false, get_or, if◌then◌else◌, inl, inr, length,
  min, refl, some, subst, sym, true, ℕ, ◌%◌, ◌-◌, ◌<◌, ◌==◌, ◌≡◌, ◌≢◌,
}
use hep_os.HepFs.Disk.{Fs}
use hep_os.Editor.Buffer.{saved, no_controller, Editor, join_lines, ensure_visible, insert_text}
use hep_os.Editor.Keys.{Action, save, copy, paste, erase, special_key, action_of, replacing}
use hep_os.Editor.Select.{point_at, mouse_down, copy_selection}
use hep_os.Editor.Valid.{
  cursor, IsValid, IsQuiet, IsQuiet-IsValid, IsValid-IsQuiet, delete_selection_if_any-cases,
}
use hep_os.Editor.Writes.{ensure_visible-≡, insert_text-Wrote}
use hep_os.Editor.Typing.{accepted}
use hep_os.Editor.Moves.{Kept, line_len-get_or}
use hep_os.Editor.Keeps.{replacing-Kept, edit_key-Kept}
use hep_os.Editor.Find.{enter_find, find_key}
use hep_os.Editor.Steps.{enter_find-IsValid, find_key-IsValid}
use hep_os.Editor.{
  Session, store, save_file, edit, copy_key, paste_clipboard, edit_key, act, on_key,
}

-- The session after a step, with a valid editor.
abbrev pub Stays : Option Session → Type 0
Stays result = (s' : Session) × (result ≡ some s') × IsValid s'.editor

-- The file system takes the text of the editor.
abbrev pub CanStore : Session → Type 0
CanStore s =
    (fs : Fs)
    → s.controller ≡ some fs
    → (fs' : Fs) × (store s.editor.path (join_lines s.editor.lines) fs ≡ some fs')

save_file-Stays : (s : Session) → IsValid s.editor → CanStore s → Stays (save_file s)
unfolding save_file
save_file-Stays s v can = elim (Option-cases s.controller) [
  | inl out ↦ (
    record s { editor = record (s.editor) { status = no_controller; status_good = false } },
    rw out refl,
    record {
      cursor_on = v.cursor_on;
      anchor_on = v.anchor_on;
      matches_on = v.matches_on;
      quiet = v.quiet;
    },
  )
  | inr (fs, is) ↦
      let (fs', run) = can fs is in
      (
        record s {
          editor = record (s.editor) {
            modified = false;
            status = saved s.editor.path (length (join_lines s.editor.lines));
            status_good = true;
          };
          controller = some fs';
        },
        rw (is, run) refl,
        record {
          cursor_on = v.cursor_on;
          anchor_on = v.anchor_on;
          matches_on = v.matches_on;
          quiet = v.quiet;
        },
      )
]

copy_key-Stays : (s : Session) → IsValid s.editor → Stays (copy_key s)
unfolding copy_key copy_selection
copy_key-Stays s v = elim (delete_selection_if_any-cases s.editor v.cursor_on v.anchor_on) [
  | inl (run, out, un) ↦ (s, rw (out, copy_selection) refl, v)
  | inr (p, q, c, end_on, found, run) ↦
      (record s { clipboard = c.between }, rw (found, copy_selection, c.copies) refl, v)
]

Kept-Stays : (f : Editor → Option Editor) (s : Session) → Kept (f s.editor) → Stays (edit f s)
Kept-Stays f s (e', run, q) = (record s { editor = e' }, rw run refl, IsQuiet-IsValid e' q)

paste_clipboard-Stays : (s : Session) → IsQuiet s.editor → Stays (paste_clipboard s)
unfolding paste_clipboard
paste_clipboard-Stays s q = Kept-Stays (replacing (insert_text s.clipboard)) s (
    replacing-Kept (accepted s.clipboard) (insert_text s.clipboard) s.editor
      (insert_text-Wrote s.clipboard) q)

act-Stays :
    (ctrl shift : Bool) (a : Action) (s : Session)
    → IsValid s.editor
    → s.editor.find_mode ≡ false
    → CanStore s
    → (a ≡ erase → s.editor.select_anchor ≢ some (cursor s.editor))
    → Stays (act ctrl shift a s)
unfolding act
act-Stays ctrl shift save s v mode can h = save_file-Stays s v can
act-Stays ctrl shift copy s v mode can h = copy_key-Stays s v
act-Stays ctrl shift paste s v mode can h =
    paste_clipboard-Stays s (IsValid-IsQuiet s.editor v mode)
act-Stays ctrl shift other s v mode can h =
    Kept-Stays (edit_key ctrl shift other) s
      (edit_key-Kept ctrl shift other s.editor (IsValid-IsQuiet s.editor v mode) h)

-- Only Backspace erases.
action_of-erase : (ctrl : Bool) (c : ℕ) → action_of ctrl c ≡ erase → c ≡ 8
unfolding action_of special_key
action_of-erase ctrl c h = ground (arith, h)

-- From a valid editor every key returns and leaves a valid editor, where the file system takes the text,
-- and where the key is not Backspace with the anchor of a selection at the cursor.
pub on_key-IsValid :
    (ctrl shift : Bool) (key : ℕ) (s : Session)
    → IsValid s.editor
    → CanStore s
    → (key % 256 ≡ 8 → s.editor.select_anchor ≢ some (cursor s.editor))
    → Stays (on_key ctrl shift key s)
unfolding on_key
on_key-IsValid ctrl shift key s v can h =
    let c = key % 256 in
    let found = record s { editor = find_key c s.editor } in
    let run = act ctrl shift (action_of ctrl c) s in
    elim (Bool-cases (c == 0x06)) [
      | inl is ↦
          rw is (record s { editor = enter_find s.editor }, refl, enter_find-IsValid s.editor v)
      | inr other ↦ rw other (elim (Bool-cases s.editor.find_mode) [
        | inl mode ↦
            subst (λ (b : Bool). Stays (if b then some found else run)) (sym mode)
              (found, refl, find_key-IsValid c s.editor v mode)
        | inr off ↦
            subst (λ (b : Bool). Stays (if b then some found else run)) (sym off)
              (act-Stays ctrl shift (action_of ctrl c) s v off can
                (λ is. h (action_of-erase ctrl c is)))
      ])
    ]

-- The mouse.
point_at-IsValid :
    (row col : ℕ) (e : Editor)
    → IsValid e
    → (e' : Editor) × (point_at row col e ≡ some e') × IsValid e' × (e'.lines ≡ e.lines)
unfolding point_at
point_at-IsValid row col e v =
    let row' = min row (length e.lines - 1) in
    let h : row' < length e.lines = omega (arith, v.cursor_on.0) in
    let m = length (get_or e.lines row' []) in
    (
      record e { cursor_row = row'; cursor_col = min col m },
      rw (line_len-get_or e.lines row' h) refl,
      record {
        cursor_on = (h, omega arith);
        anchor_on = v.anchor_on;
        matches_on = v.matches_on;
        quiet = v.quiet;
      },
      refl,
    )

ensure_visible-IsValid : (e : Editor) → IsValid e → IsValid (ensure_visible e)
ensure_visible-IsValid e v = rw (ensure_visible-≡ e) (record {
  cursor_on = v.cursor_on;
  anchor_on = v.anchor_on;
  matches_on = v.matches_on;
  quiet = v.quiet;
})

-- The mouse button puts the cursor and the anchor at one place.
pub mouse_down-IsValid :
    (row col : ℕ) (e : Editor)
    → IsValid e
    → (e' : Editor) × (mouse_down row col e ≡ some e')
      × IsValid e'
      × (e'.lines ≡ e.lines)
      × (e'.select_anchor ≡ some (cursor e'))
unfolding mouse_down
mouse_down-IsValid row col e v =
    let (f, run, w, same) = point_at-IsValid row col e v in
    let g = record f { select_anchor = some (cursor f) } in
    let u : IsValid g = record {
      cursor_on = w.cursor_on;
      anchor_on = w.cursor_on;
      matches_on = w.matches_on;
      quiet = w.quiet;
    } in
    (
      ensure_visible g,
      rw run refl,
      ensure_visible-IsValid g u,
      rw (ensure_visible-≡ g) same,
      rw (ensure_visible-≡ g) refl,
    )
