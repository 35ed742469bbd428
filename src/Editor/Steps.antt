-- ===== src/Editor/Steps.antt =====
-- Each key of kernel/src/editor.rs, and each move of the mouse, keeps the cursor, the anchor and the
-- matches on the text.
use hep_os.Prelude.{
  &&-split, Bool, Bool-cases, List, [], arith, false, get_or, if◌then◌else◌, inl, inr, length, ltb,
  not, refl, subst, sym, true, ℕ, ◌%◌, ◌++◌, ◌+◌, ◌<◌, ◌==◌, ◌||◌, ◌∙◌, ◌∷◌, ◌≡◌,
}
use hep_os.Editor.Buffer.{Editor, newline, is_printable}
use hep_os.Editor.Find.{
  find_all, position_at_or_after, jump_to, none_found, or_first, find_jump_nearest, find_next,
  pop_last, enter_find, leave_find, search_for, find_key,
}
use hep_os.Editor.Zip.{IsOn}
use hep_os.Editor.Valid.{cursor, AnchorOn, IsValid, IsQuiet-IsValid}
use hep_os.Editor.Writes.{ensure_visible-≡}
use hep_os.Editor.Matches.{occurs, lists-get_or, find_all_lem, occurs-IsOn}

jump_to-IsValid :
    (i : ℕ) (e : Editor) → IsValid e → i < length e.find_matches → IsValid (jump_to i e)
unfolding jump_to
jump_to-IsValid i e v h =
    let m = get_or e.find_matches i (0, 0) in
    rw (ensure_visible-≡ (record e { find_idx = i; cursor_row = m.0; cursor_col = m.1 })) (record {
      cursor_on = v.matches_on i h;
      anchor_on = v.anchor_on;
      matches_on = v.matches_on;
      quiet = v.quiet;
    })

none_found-length : (ms : List (ℕ × ℕ)) → none_found ms ≡ false → 0 < length ms
none_found-length [] h = absurd (cc)
none_found-length (m ∷ ms) h = omega arith

find_next-IsValid : (e : Editor) → IsValid e → IsValid (find_next e)
unfolding find_next
find_next-IsValid e v = elim (Bool-cases (none_found e.find_matches)) [
  | inl out ↦ rw out v
  | inr some_found ↦
      let h = none_found-length e.find_matches some_found in
      rw some_found
        (jump_to-IsValid ((e.find_idx + 1) % length e.find_matches) e v (grind (arith, h)))
]

position-bound :
    (row col : ℕ) (ms : List (ℕ × ℕ))
    → 0 < length ms
    → or_first (position_at_or_after row col ms) < length ms
unfolding position_at_or_after
position-bound row col [] h = absurd (omega arith)
position-bound row col (m ∷ []) h = ground arith
position-bound row col (m ∷ (n ∷ ms)) h =
    ground (arith, position-bound row col (n ∷ ms) (omega arith))

find_jump_nearest-IsValid : (e : Editor) → IsValid e → IsValid (find_jump_nearest e)
unfolding find_jump_nearest
find_jump_nearest-IsValid e v = elim (Bool-cases (none_found e.find_matches)) [
  | inl out ↦ rw out v
  | inr some_found ↦
      let h = none_found-length e.find_matches some_found in
      rw some_found (
        jump_to-IsValid (or_first (position_at_or_after e.cursor_row e.cursor_col e.find_matches)) e
          v (position-bound e.cursor_row e.cursor_col e.find_matches h))
]

find_all-IsValid : (e : Editor) → IsValid e → e.find_mode ≡ true → IsValid (find_all e)
unfolding find_all
find_all-IsValid e v mode = record {
  cursor_on = v.cursor_on;
  anchor_on = v.anchor_on;
  matches_on = λ i h.
      let ms = (find_all e).find_matches in
      let p = get_or ms i (0, 0) in
      occurs-IsOn e.find_query e.lines p
        (&&-split (ltb 0 (length e.find_query)) (occurs e.find_query e.lines p)
          (sym (find_all_lem e p) ∙ lists-get_or ms i h)).1;
  quiet = λ h. absurd (cc);
}

search_for-IsValid :
    (query : List ℕ) (e : Editor) → IsValid e → e.find_mode ≡ true → IsValid (search_for query e)
unfolding search_for
search_for-IsValid query e v mode =
    let f = record e { find_query = query } in
    let w : IsValid f = record {
      cursor_on = v.cursor_on;
      anchor_on = v.anchor_on;
      matches_on = v.matches_on;
      quiet = v.quiet;
    } in
    find_jump_nearest-IsValid (find_all f) (find_all-IsValid f w mode)

no_matches-IsValid :
    (e : Editor)
    → IsOn e.lines (cursor e)
    → AnchorOn e.lines e.select_anchor
    → e.find_matches ≡ []
    → IsValid e
no_matches-IsValid e on anchor out =
    IsQuiet-IsValid e (record { cursor_on = on; anchor_on = anchor; no_matches = out })

pub enter_find-IsValid : (e : Editor) → IsValid e → IsValid (enter_find e)
unfolding enter_find
enter_find-IsValid e v =
    let fresh = record e { find_mode = true; find_query = []; find_matches = []; find_idx = 0 } in
    let step = λ (b : Bool). IsValid (if not b then fresh else find_next e) in
    elim (Bool-cases e.find_mode) [
      | inl is ↦ subst step (sym is) (find_next-IsValid e v)
      | inr off ↦ subst step (sym off) (no_matches-IsValid fresh v.cursor_on v.anchor_on refl)
    ]

pub find_key-IsValid :
    (c : ℕ) (e : Editor) → IsValid e → e.find_mode ≡ true → IsValid (find_key c e)
unfolding find_key
find_key-IsValid c e v mode = elim (Bool-cases (c == 0x1B)) [
  | inl is ↦ rw is (no_matches-IsValid (leave_find e) v.cursor_on v.anchor_on refl)
  | inr n1 ↦ elim (Bool-cases (c == newline || c == 0x07)) [
    | inl is ↦ rw (n1, is) (find_next-IsValid e v)
    | inr n2 ↦ elim (Bool-cases (c == 0x08)) [
      | inl is ↦ rw (n1, n2, is) (search_for-IsValid (pop_last e.find_query) e v mode)
      | inr n3 ↦ elim (Bool-cases (is_printable c)) [
        | inl is ↦ rw (n1, n2, n3, is) (search_for-IsValid (e.find_query ++ (c ∷ [])) e v mode)
        | inr n4 ↦ rw (n1, n2, n3, n4) v
      ]
    ]
  ]
]
