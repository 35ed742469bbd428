-- ===== src/Editor/Writes.antt =====
-- What writing at the cursor of kernel/src/editor.rs does to the text: typed bytes, Enter, Tab and
-- pasted text.
use hep_os.Prelude.{
  Bool-cases, List, Option, [], ap, arith, get_or, get_or-append_new, get_or-append_old, inl, inr,
  length, length-append, ltb, min, refl, replicate, some, subst, suc, sym, true, zero, ℕ, ◌++◌, ◌<◌,
  ◌==◌, ◌∙◌, ◌∷◌, ◌≡◌, ◌≤◌, ◌⊎◌,
}
use hep_os.HepFs.Slices.{append_assoc}
use hep_os.Editor.Buffer.{Editor, newline, ensure_visible, is_printable, insert_text}
use hep_os.Editor.Keys.{enter_line, type_byte, insert_spaces, type_tab}
use hep_os.Editor.Select.{with_newlines}
use hep_os.Editor.Zip.{Zip, lines_of, place, IsOn, IsOn-place, get_or-middle, place-IsOn}
use hep_os.Editor.Text.{before, after, terminated, before-place, after-place}
use hep_os.Editor.Typing.{
  typed, broken, insert_byte-place, split_line-place, put, written, insert_bytes-place, accepted,
  left_text, left_text-broken, written-right, written-left,
}
use hep_os.Editor.Valid.{cursor}

pub ensure_visible-≡ :
    (e : Editor) → ensure_visible e ≡ record e { scroll_row = min e.scroll_row e.cursor_row }
unfolding ensure_visible
ensure_visible-≡ e = elim (Bool-cases (ltb e.cursor_row e.scroll_row)) [
  | inl lt ↦ rw lt (λ i. record e {
    scroll_row = (let h : e.cursor_row ≡ min e.scroll_row e.cursor_row = ground arith in h) i;
  })
  | inr ge ↦ rw ge (λ i. record e {
    scroll_row = (let h : e.scroll_row ≡ min e.scroll_row e.cursor_row = ground arith in h) i;
  })
]

-- A position that is not behind the place.
abbrev OnLeft : Zip → ℕ × ℕ → Type 0
OnLeft z p =
    ((p.0 < length z.above) × (p.1 ≤ length (get_or z.above p.0 [])))
    ⊎ ((p.0 ≡ length z.above) × (p.1 ≤ length z.left))

OnLeft-IsOn : (z : Zip) (p : ℕ × ℕ) → OnLeft z p → IsOn (lines_of z) p
OnLeft-IsOn z p (inl (h, k)) = (
  omega (arith, length-append z.above ((z.left ++ z.right) ∷ z.below)),
  rw (get_or-append_old z.above ((z.left ++ z.right) ∷ z.below) p.0 [] h) k,
)
OnLeft-IsOn z (row, col) (inr (h, k)) =
    subst (λ (r : ℕ). IsOn (lines_of z) (r, col)) (sym h)
      (
        omega (arith, length-append z.above ((z.left ++ z.right) ∷ z.below)),
        rw (get_or-middle z.above (z.left ++ z.right) z.below)
            (omega (arith, length-append z.left z.right)),
      )

broken-OnLeft : (z : Zip) (p : ℕ × ℕ) → OnLeft z p → OnLeft (broken z) p
broken-OnLeft z p (inl (h, k)) = inl (
  omega (arith, length-append z.above (z.left ∷ [])),
  rw (get_or-append_old z.above (z.left ∷ []) p.0 [] h) k,
)
broken-OnLeft z p (inr (h, k)) = inl (
  omega (arith, length-append z.above (z.left ∷ [])),
  rw (h, get_or-append_new z.above z.left []) k,
)

typed-OnLeft : (b : ℕ) (z : Zip) (p : ℕ × ℕ) → OnLeft z p → OnLeft (typed b z) p
typed-OnLeft b z p (inl hk) = inl hk
typed-OnLeft b z p (inr (h, k)) = inr (h, omega (arith, length-append z.left (b ∷ [])))

put-OnLeft : (b : ℕ) (z : Zip) (p : ℕ × ℕ) → OnLeft z p → OnLeft (put b z) p
unfolding put
put-OnLeft b z p o = elim (Bool-cases (b == newline)) [
  | inl is ↦ rw is (broken-OnLeft z p o)
  | inr other ↦ elim (Bool-cases (is_printable b)) [
    | inl is ↦ rw (other, is) (typed-OnLeft b z p o)
    | inr skipped ↦ rw (other, skipped) o
  ]
]

written-OnLeft : (bs : List ℕ) (z : Zip) (p : ℕ × ℕ) → OnLeft z p → OnLeft (written bs z) p
unfolding written
written-OnLeft [] z p o = o
written-OnLeft (b ∷ bs) z p o = written-OnLeft bs (put b z) p (put-OnLeft b z p o)

-- `bs` stands between the old text before the cursor and the old text after it.
pub record Writes (bs : List ℕ) (e e' : Editor) : Type 0 where
  pub head : before e' ≡ before e ++ bs
  pub rest : after e' ≡ after e
  pub stands : IsOn e'.lines (cursor e')
  pub stood : IsOn e'.lines (cursor e)
  pub is_modified : e'.modified ≡ true
  pub same_anchor : e'.select_anchor ≡ e.select_anchor
  pub same_matches : e'.find_matches ≡ e.find_matches

place-Writes :
    (bs : List ℕ) (z z' : Zip) (e : Editor) (k : ℕ)
    → left_text z' ≡ left_text z ++ bs
    → z'.right ++ with_newlines z'.below ≡ z.right ++ with_newlines z.below
    → OnLeft z' (length z.above, length z.left)
    → Writes bs (place z e) (record (place z' e) { scroll_row = k; modified = true })
place-Writes bs z z' e k h r o = record {
  head = before-place z' e ∙ h ∙ ap (λ t. t ++ bs) (sym (before-place z e));
  rest = after-place z' e ∙ r ∙ sym (after-place z e);
  stands = place-IsOn z';
  stood = OnLeft-IsOn z' (length z.above, length z.left) o;
  is_modified = refl;
  same_anchor = refl;
  same_matches = refl;
}

-- An edit that writes `bs` at a cursor on the text.
abbrev pub Wrote : List ℕ → Editor → Option Editor → Type 0
Wrote bs e result = (e' : Editor) × (result ≡ some e') × Writes bs e e'

here : (z : Zip) → OnLeft z (length z.above, length z.left)
here z = inr (refl, omega arith)

pub type_byte-Wrote :
    (b : ℕ) (e : Editor) → IsOn e.lines (cursor e) → Wrote (b ∷ []) e (type_byte b e)
type_byte-Wrote b e on =
    let (z, p) = IsOn-place e on in
    subst (λ (f : Editor). Wrote (b ∷ []) f (type_byte b f)) (sym p)
      (
        record (place (typed b z) e) { modified = true },
        (unfold type_byte in rw (insert_byte-place b z e) refl),
        place-Writes (b ∷ []) z (typed b z) e e.scroll_row
            (sym (append_assoc (terminated z.above) z.left (b ∷ []))) refl
            (typed-OnLeft b z (length z.above, length z.left) (here z)),
      )

pub insert_text-Wrote :
    (bs : List ℕ) (e : Editor) → IsOn e.lines (cursor e) → Wrote (accepted bs) e (insert_text bs e)
insert_text-Wrote bs e on =
    let (z, p) = IsOn-place e on in
    let w = written bs z in
    subst (λ (f : Editor). Wrote (accepted bs) f (insert_text bs f)) (sym p)
      (
        record (place w e) { scroll_row = min e.scroll_row (length w.above); modified = true },
        (unfold insert_text in rw (insert_bytes-place bs z e, ensure_visible-≡ (place w e)) refl),
        place-Writes (accepted bs) z w e (min e.scroll_row (length w.above)) (written-left bs z)
            (written-right bs z) (written-OnLeft bs z (length z.above, length z.left) (here z)),
      )

pub enter_line-Wrote :
    (e : Editor) → IsOn e.lines (cursor e) → Wrote (newline ∷ []) e (enter_line e)
enter_line-Wrote e on =
    let (z, p) = IsOn-place e on in
    let w = broken z in
    subst (λ (f : Editor). Wrote (newline ∷ []) f (enter_line f)) (sym p)
      (
        record (place w e) { scroll_row = min e.scroll_row (length w.above); modified = true },
        (unfold enter_line in rw (split_line-place z e, ensure_visible-≡ (place w e)) refl),
        place-Writes (newline ∷ []) z w e (min e.scroll_row (length w.above)) (left_text-broken z)
            refl (broken-OnLeft z (length z.above, length z.left) (here z)),
      )

insert_spaces-place :
    (n : ℕ) (z : Zip) (e : Editor)
    → insert_spaces n (place z e) ≡ some (place (written (replicate n 32) z) e)
unfolding insert_spaces written put
insert_spaces-place zero z e = refl
insert_spaces-place (suc n) z e =
    rw (insert_byte-place 32 z e) (insert_spaces-place n (typed 32 z) e)

pub type_tab-Wrote : (e : Editor) → IsOn e.lines (cursor e) → Wrote (replicate 4 32) e (type_tab e)
type_tab-Wrote e on =
    let (z, p) = IsOn-place e on in
    let bs : List ℕ = replicate 4 32 in
    let w = written bs z in
    subst (λ (f : Editor). Wrote bs f (type_tab f)) (sym p)
      (
        record (place w e) { modified = true },
        (unfold type_tab in rw (insert_spaces-place 4 z e) refl),
        place-Writes bs z w e e.scroll_row (written-left bs z ∙ (unfold accepted in refl))
            (written-right bs z) (written-OnLeft bs z (length z.above, length z.left) (here z)),
      )
