-- ===== src/Editor/Erases.antt =====
-- What Backspace and Delete of kernel/src/editor.rs do to the text when nothing is selected.
use hep_os.Prelude.{
  Bool, List, Option, [], ap, arith, false, inl, inr, length, length-append, ltb, min, refl, some,
  subst, sym, true, ℕ, ◌++◌, ◌+◌, ◌∙◌, ◌∷◌, ◌≡◌,
}
use hep_os.HepFs.Slices.{append_assoc}
use hep_os.HepFs.Bytes.{drop}
use hep_os.Editor.Buffer.{Editor, newline, backspace, delete_forward}
use hep_os.Editor.Select.{with_newlines}
use hep_os.Editor.Find.{pop_last}
use hep_os.Editor.Zip.{get_elem?-middle, Zip, place, IsOn, IsOn-place, place-IsOn}
use hep_os.Editor.Text.{before, after, terminated, before-place, after-place}
use hep_os.Editor.Typing.{typed, left_text, left_text-broken}
use hep_os.Editor.Erasing.{
  end-cases, pop_last-append, remove_left-place, remove_right-place, merge_up-place,
  merge_down-place,
}
use hep_os.Editor.Valid.{cursor}
use hep_os.Editor.Writes.{ensure_visible-≡}

-- The texts before and after the cursor once an edit has run, with the cursor on the text.
pub record Leaves (front back : List ℕ) (e : Editor) (result : Option Editor) : Type 0 where
  pub reached : Editor
  pub runs : result ≡ some reached
  pub head : before reached ≡ front
  pub rest : after reached ≡ back
  pub stands : IsOn reached.lines (cursor reached)
  pub same_anchor : reached.select_anchor ≡ e.select_anchor
  pub same_matches : reached.find_matches ≡ e.find_matches

pub place-Leaves :
    (front back : List ℕ) (z z' : Zip) (e : Editor) (k : ℕ) (m : Bool) (result : Option Editor)
    → result ≡ some (record (place z' e) { scroll_row = k; modified = m })
    → left_text z' ≡ front
    → z'.right ++ with_newlines z'.below ≡ back
    → Leaves front back (place z e) result
place-Leaves front back z z' e k m result run h r = record {
  reached = record (place z' e) { scroll_row = k; modified = m };
  runs = run;
  head = before-place z' e ∙ h;
  rest = after-place z' e ∙ r;
  stands = place-IsOn z';
  same_anchor = refl;
  same_matches = refl;
}

terminated-end :
    (xs : List (List ℕ)) (l : List ℕ)
    → terminated (xs ++ (l ∷ [])) ++ [] ≡ (terminated xs ++ l) ++ (newline ∷ [])
terminated-end xs l = left_text-broken (record { above = xs; left = l; right = []; below = [] })

backspace-left :
    (z : Zip) (b : ℕ) (e : Editor)
    → Leaves
        (left_text z)
        (z.right ++ with_newlines z.below)
        (place (typed b z) e)
        (backspace (place (typed b z) e))
unfolding backspace
backspace-left z b e =
    let t : ltb 0 (length (z.left ++ (b ∷ []))) ≡ true =
      ground (arith, length-append z.left (b ∷ [])) in
    place-Leaves (left_text z) (z.right ++ with_newlines z.below) (typed b z) z e e.scroll_row true
      (backspace (place (typed b z) e)) (rw t (remove_left-place z b e)) refl refl

backspace-up :
    (xs : List (List ℕ)) (l r : List ℕ) (ys : List (List ℕ)) (e : Editor)
    → Leaves
        (terminated xs ++ l)
        (r ++ with_newlines ys)
        (place (record { above = xs ++ (l ∷ []); left = []; right = r; below = ys }) e)
        (backspace (place (record { above = xs ++ (l ∷ []); left = []; right = r; below = ys }) e))
unfolding backspace
backspace-up xs l r ys e =
    let z : Zip = record { above = xs ++ (l ∷ []); left = []; right = r; below = ys } in
    let w : Zip = record { above = xs; left = l; right = r; below = ys } in
    let t : ltb 0 (length (xs ++ (l ∷ []))) ≡ true = ground (arith, length-append xs (l ∷ [])) in
    place-Leaves (terminated xs ++ l) (r ++ with_newlines ys) z w e (min e.scroll_row (length xs))
      true (backspace (place z e))
      (rw (t, merge_up-place xs l r ys e, ensure_visible-≡ (place w e)) refl) refl refl

-- An edit at a place, by the texts on both sides of it.
abbrev At : (List ℕ → List ℕ) → (List ℕ → List ℕ) → (Editor → Option Editor) → Zip → Editor → Type 0
At on_front on_back edit z e =
    Leaves (on_front (left_text z)) (on_back (z.right ++ with_newlines z.below)) (place z e)
      (edit (place z e))

At-Leaves :
    (on_front on_back : List ℕ → List ℕ) (edit : Editor → Option Editor) (e : Editor)
    → IsOn e.lines (cursor e)
    → ((z : Zip) → At on_front on_back edit z e)
    → Leaves (on_front (before e)) (on_back (after e)) e (edit e)
At-Leaves on_front on_back edit e on each =
    let (z, p) = IsOn-place e on in
    subst (λ (f : Editor). Leaves (on_front (before f)) (on_back (after f)) f (edit f)) (sym p)
      (subst
        (λ (q : List ℕ × List ℕ).
          Leaves (on_front q.0) (on_back q.1) (place z e) (edit (place z e)))
        (λ i. (sym (before-place z e) i, sym (after-place z e) i)) (each z))

abbrev same_text : List ℕ → List ℕ
same_text t = t

backspace-start :
    (r : List ℕ) (ys : List (List ℕ)) (e : Editor)
    → At pop_last same_text backspace (record { above = []; left = []; right = r; below = ys }) e
unfolding backspace terminated
backspace-start r ys e =
    let z : Zip = record { above = []; left = []; right = r; below = ys } in
    place-Leaves [] (r ++ with_newlines ys) z z e e.scroll_row e.modified (backspace (place z e))
      refl refl refl

backspace-At : (e : Editor) (z : Zip) → At pop_last same_text backspace z e
backspace-At e z = elim (end-cases z.left) [
  | inr (l, b, h) ↦
      let w = record z { left = l } in
      subst (λ (k : List ℕ). At pop_last same_text backspace (record z { left = k }) e) (sym h)
        (subst
          (λ (t : List ℕ).
            Leaves t (z.right ++ with_newlines z.below) (place (typed b w) e)
              (backspace (place (typed b w) e)))
          (sym (
            ap pop_last (sym (append_assoc (terminated z.above) l (b ∷ [])))
            ∙ pop_last-append (left_text w) b))
          (backspace-left w b e))
  | inl h ↦ elim (end-cases z.above) [
    | inr (xs, l, k) ↦
        let v : Zip = record {
          above = xs ++ (l ∷ []);
          left = [];
          right = z.right;
          below = z.below;
        } in
        subst
          (λ (q : List (List ℕ) × List ℕ).
            At pop_last same_text backspace (record z { above = q.0; left = q.1 }) e)
          (λ i. (sym k i, sym h i))
          (subst
            (λ (t : List ℕ).
              Leaves t (z.right ++ with_newlines z.below) (place v e) (backspace (place v e)))
            (sym (ap pop_last (terminated-end xs l) ∙ pop_last-append (terminated xs ++ l) newline))
            (backspace-up xs l z.right z.below e))
    | inl k ↦
        subst
          (λ (q : List (List ℕ) × List ℕ).
            At pop_last same_text backspace (record z { above = q.0; left = q.1 }) e)
          (λ i. (sym k i, sym h i)) (backspace-start z.right z.below e)
  ]
]

-- Backspace takes the last byte before the cursor.
pub backspace-Leaves :
    (e : Editor) → IsOn e.lines (cursor e) → Leaves (pop_last (before e)) (after e) e (backspace e)
backspace-Leaves e on = At-Leaves pop_last same_text backspace e on (backspace-At e)

delete_forward-end :
    (z : Zip) (e : Editor)
    → delete_forward (place (record z { right = []; below = [] }) e)
      ≡ some (place (record z { right = []; below = [] }) e)
unfolding delete_forward
delete_forward-end z e =
    let t : ltb (length z.left) (length (z.left ++ [])) ≡ false =
      ground (arith, length-append z.left []) in
    let n : ltb (length z.above + 1) (length (z.above ++ ((z.left ++ []) ∷ []))) ≡ false =
      ground (arith, length-append z.above ((z.left ++ []) ∷ [])) in
    rw (get_elem?-middle z.above (z.left ++ []) [], t, n) refl

delete_forward-At : (e : Editor) (z : Zip) → At same_text (drop 1) delete_forward z e
delete_forward-At e z =
    elim z.right as (λ r. At same_text (drop 1) delete_forward (record z { right = r }) e) [
      | b ∷ r ↦
          let w = record z { right = b ∷ r } in
          place-Leaves (left_text z) (r ++ with_newlines z.below) w (record z { right = r }) e
            e.scroll_row true (delete_forward (place w e)) (remove_right-place z b r e) refl refl
      | [] ↦
          elim z.below
            as (λ ys.
              At same_text (drop 1) delete_forward (record z { right = []; below = ys }) e) [
                | m ∷ ys ↦
                    let w = record z { right = []; below = m ∷ ys } in
                    place-Leaves (left_text z) (m ++ with_newlines ys) w
                      (record z { right = m; below = ys }) e e.scroll_row true
                      (delete_forward (place w e)) (merge_down-place z m ys e) refl refl
                | [] ↦
                    let w = record z { right = []; below = [] } in
                    place-Leaves (left_text z) [] w w e e.scroll_row e.modified
                      (delete_forward (place w e)) (delete_forward-end z e) refl refl
              ]
    ]

-- Delete takes the first byte after it.
pub delete_forward-Leaves :
    (e : Editor)
    → IsOn e.lines (cursor e)
    → Leaves (before e) (drop 1 (after e)) e (delete_forward e)
delete_forward-Leaves e on = At-Leaves same_text (drop 1) delete_forward e on (delete_forward-At e)
