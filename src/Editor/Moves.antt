-- ===== src/Editor/Moves.antt =====
-- The keys of kernel/src/editor.rs that move the cursor keep it on the text, and the anchor and the
-- matches too.
use hep_os.Prelude.{
  Bool, Bool-cases, List, Option, [], arith, false, get_or, inl, inr, length, ltb, ltb→ge, ltb→lt,
  min, none, refl, some, suc, true, zero, ℕ, ◌+◌, ◌-◌, ◌<◌, ◌∷◌, ◌≡◌,
}
use hep_os.Editor.Buffer.{Editor, line_len, ensure_visible, clamp_col}
use hep_os.Editor.Keys.{
  clamp_and_show, go_up, go_down, go_left, go_right, go_home, go_end, page_rows, go_page_up,
  go_page_down, moving,
}
use hep_os.Editor.Select.{anchored, update_selection_anchor}
use hep_os.Editor.Zip.{IsOn}
use hep_os.Editor.Valid.{cursor, AnchorOn, IsQuiet}
use hep_os.Editor.Writes.{ensure_visible-≡}

abbrev pub Kept : Option Editor → Type 0
Kept result = (e' : Editor) × (result ≡ some e') × IsQuiet e'

pub line_len-get_or :
    (ls : List (List ℕ)) (row : ℕ)
    → row < length ls
    → line_len ls row ≡ some (length (get_or ls row []))
line_len-get_or [] row h = absurd (omega arith)
line_len-get_or (l ∷ ls) zero h = refl
line_len-get_or (l ∷ ls) (suc row) h = line_len-get_or ls row (omega arith)

-- The cursor somewhere else on the text, whatever the window shows.
moved :
    (e : Editor) (row col k : ℕ)
    → IsQuiet e
    → IsOn e.lines (row, col)
    → IsQuiet (record e { cursor_row = row; cursor_col = col; scroll_row = k })
moved e row col k q on = record {
  cursor_on = on;
  anchor_on = q.anchor_on;
  no_matches = q.no_matches;
}

ensure_visible-IsQuiet : (e : Editor) → IsQuiet e → IsQuiet (ensure_visible e)
ensure_visible-IsQuiet e q =
    rw (ensure_visible-≡ e)
      (moved e e.cursor_row e.cursor_col (min e.scroll_row e.cursor_row) q q.cursor_on)

clamp_and_show-Kept :
    (e : Editor) (row : ℕ)
    → IsQuiet e
    → row < length e.lines
    → Kept (clamp_and_show (record e { cursor_row = row }))
unfolding clamp_and_show clamp_col
clamp_and_show-Kept e row q h =
    let m = length (get_or e.lines row []) in
    elim (Bool-cases (ltb m e.cursor_col)) [
      | inl lt ↦
          let f = moved e row m e.scroll_row q (h, omega arith) in
          (
            ensure_visible (record e { cursor_row = row; cursor_col = m }),
            rw (line_len-get_or e.lines row h, lt) refl,
            ensure_visible-IsQuiet (record e { cursor_row = row; cursor_col = m }) f,
          )
      | inr ge ↦
          let f = moved e row e.cursor_col e.scroll_row q (h, ltb→ge m e.cursor_col ge) in
          (
            ensure_visible (record e { cursor_row = row }),
            rw (line_len-get_or e.lines row h, ge) refl,
            ensure_visible-IsQuiet (record e { cursor_row = row }) f,
          )
    ]

pub go_up-Kept : (e : Editor) → IsQuiet e → Kept (go_up e)
unfolding go_up
go_up-Kept e q = elim (Bool-cases (ltb 0 e.cursor_row)) [
  | inl lt ↦ rw lt (clamp_and_show-Kept e (e.cursor_row - 1) q (omega (arith, q.cursor_on.0)))
  | inr top ↦ rw top (e, refl, q)
]

pub go_down-Kept : (e : Editor) → IsQuiet e → Kept (go_down e)
unfolding go_down
go_down-Kept e q = elim (Bool-cases (ltb (e.cursor_row + 1) (length e.lines))) [
  | inl lt ↦
      rw lt
        (clamp_and_show-Kept e (e.cursor_row + 1) q (ltb→lt (e.cursor_row + 1) (length e.lines) lt))
  | inr bottom ↦ rw bottom (e, refl, q)
]

pub go_page_up-Kept : (e : Editor) → IsQuiet e → Kept (go_page_up e)
unfolding go_page_up
go_page_up-Kept e q =
    clamp_and_show-Kept e (e.cursor_row - page_rows e) q (omega (arith, q.cursor_on.0))

pub go_page_down-Kept : (e : Editor) → IsQuiet e → Kept (go_page_down e)
unfolding go_page_down
go_page_down-Kept e q =
    clamp_and_show-Kept e (min (e.cursor_row + page_rows e) (length e.lines - 1)) q
      (omega (arith, q.cursor_on.0))

pub go_left-Kept : (e : Editor) → IsQuiet e → Kept (go_left e)
unfolding go_left
go_left-Kept e q = elim (Bool-cases (ltb 0 e.cursor_col)) [
  | inl lt ↦ rw lt (
    record e { cursor_col = e.cursor_col - 1 },
    refl,
    moved e e.cursor_row (e.cursor_col - 1) e.scroll_row q
        (q.cursor_on.0, omega (arith, q.cursor_on.1)),
  )
  | inr start ↦ elim (Bool-cases (ltb 0 e.cursor_row)) [
    | inl lt ↦
        let row = e.cursor_row - 1 in
        let h : row < length e.lines = omega (arith, q.cursor_on.0) in
        let m = length (get_or e.lines row []) in
        let f = record e { cursor_row = row; cursor_col = m } in
        rw (start, lt, line_len-get_or e.lines row h)
          (
            ensure_visible f,
            refl,
            ensure_visible-IsQuiet f (moved e row m e.scroll_row q (h, omega arith)),
          )
    | inr top ↦ rw (start, top) (e, refl, q)
  ]
]

pub go_right-Kept : (e : Editor) → IsQuiet e → Kept (go_right e)
unfolding go_right
go_right-Kept e q =
    let m = length (get_or e.lines e.cursor_row []) in
    let len = line_len-get_or e.lines e.cursor_row q.cursor_on.0 in
    elim (Bool-cases (ltb e.cursor_col m)) [
      | inl lt ↦
          rw (len, lt)
            (
              record e { cursor_col = e.cursor_col + 1 },
              refl,
              moved e e.cursor_row (e.cursor_col + 1) e.scroll_row q
                  (q.cursor_on.0, omega (arith, ltb→lt e.cursor_col m lt)),
            )
      | inr end_of ↦ elim (Bool-cases (ltb (e.cursor_row + 1) (length e.lines))) [
        | inl lt ↦
            let f = record e { cursor_row = e.cursor_row + 1; cursor_col = 0 } in
            rw (len, end_of, lt)
              (
                ensure_visible f,
                refl,
                ensure_visible-IsQuiet f (
                    moved e (e.cursor_row + 1) 0 e.scroll_row q
                      (ltb→lt (e.cursor_row + 1) (length e.lines) lt, omega arith)),
              )
        | inr bottom ↦ rw (len, end_of, bottom) (e, refl, q)
      ]
    ]

pub go_home-Kept : (ctrl : Bool) (e : Editor) → IsQuiet e → Kept (go_home ctrl e)
unfolding go_home
go_home-Kept true e q = (
  record e { cursor_row = 0; cursor_col = 0; scroll_row = 0 },
  refl,
  moved e 0 0 0 q (omega (arith, q.cursor_on.0), omega arith),
)
go_home-Kept false e q = (
  record e { cursor_col = 0 },
  refl,
  moved e e.cursor_row 0 e.scroll_row q (q.cursor_on.0, omega arith),
)

pub go_end-Kept : (ctrl : Bool) (e : Editor) → IsQuiet e → Kept (go_end ctrl e)
unfolding go_end
go_end-Kept true e q =
    let row = length e.lines - 1 in
    let h : row < length e.lines = omega (arith, q.cursor_on.0) in
    let m = length (get_or e.lines row []) in
    let f = record e { cursor_row = row; cursor_col = m } in
    rw (line_len-get_or e.lines row h) (
      ensure_visible f,
      refl,
      ensure_visible-IsQuiet f (moved e row m e.scroll_row q (h, omega arith)),
    )
go_end-Kept false e q =
    let m = length (get_or e.lines e.cursor_row []) in
    rw (line_len-get_or e.lines e.cursor_row q.cursor_on.0) (
      record e { cursor_col = m },
      refl,
      moved e e.cursor_row m e.scroll_row q (q.cursor_on.0, omega arith),
    )

anchored-AnchorOn :
    (ls : List (List ℕ)) (anchor : Option (ℕ × ℕ)) (here : ℕ × ℕ)
    → IsOn ls here
    → AnchorOn ls anchor
    → AnchorOn ls (anchored anchor here)
anchored-AnchorOn ls none here h a = h
anchored-AnchorOn ls (some p) here h a = a

update_selection_anchor-IsQuiet :
    (shift : Bool) (e : Editor) → IsQuiet e → IsQuiet (update_selection_anchor shift e)
unfolding update_selection_anchor
update_selection_anchor-IsQuiet true e q = record {
  cursor_on = q.cursor_on;
  anchor_on = anchored-AnchorOn e.lines e.select_anchor (cursor e) q.cursor_on q.anchor_on;
  no_matches = q.no_matches;
}
update_selection_anchor-IsQuiet false e q = record {
  cursor_on = q.cursor_on;
  anchor_on = tt;
  no_matches = q.no_matches;
}

pub moving-Kept :
    (shift : Bool) (move : Editor → Option Editor) (e : Editor)
    → ((f : Editor) → IsQuiet f → Kept (move f))
    → IsQuiet e
    → Kept (moving shift move e)
unfolding moving
moving-Kept shift move e keeps q =
    keeps (update_selection_anchor shift e) (update_selection_anchor-IsQuiet shift e q)
