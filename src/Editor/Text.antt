-- ===== src/Editor/Text.antt =====
-- The text of an editor of kernel/src/editor.rs as one sequence of bytes, before and after a position.
use hep_os.Prelude.{
  List, [], ap, append_nil, length, refl, subst, suc, sym, zero, ℕ, ◌++◌, ◌∙◌, ◌∷◌, ◌≡◌,
}
use hep_os.HepFs.Bytes.{take, drop}
use hep_os.HepFs.Slices.{append_assoc}
use hep_os.Editor.Buffer.{Editor, newline, join_lines}
use hep_os.Editor.Select.{with_newlines}
use hep_os.Editor.Zip.{take-middle, drop-middle, Zip, lines_of, place, IsOn, IsOn-place}

-- The bytes from the start of the text to row `row` and column `col`.
unfoldable pub text_before : List (List ℕ) → ℕ → ℕ → List ℕ
text_before [] row col = []
text_before (l ∷ ls) zero col = take col l
text_before (l ∷ ls) (suc row) col = l ++ (newline ∷ text_before ls row col)

unfoldable pub text_after : List (List ℕ) → ℕ → ℕ → List ℕ
text_after [] row col = []
text_after (l ∷ ls) zero col = drop col l ++ with_newlines ls
text_after (l ∷ ls) (suc row) col = text_after ls row col

-- The text before and after the cursor.
abbrev pub before : Editor → List ℕ
before e = text_before e.lines e.cursor_row e.cursor_col

abbrev pub after : Editor → List ℕ
after e = text_after e.lines e.cursor_row e.cursor_col

-- Lines that each end with a newline.
unfoldable pub terminated : List (List ℕ) → List ℕ
terminated [] = []
terminated (l ∷ ls) = l ++ (newline ∷ terminated ls)

pub text_before-lines_of :
    (xs : List (List ℕ)) (l r : List ℕ) (ys : List (List ℕ))
    → text_before (xs ++ ((l ++ r) ∷ ys)) (length xs) (length l) ≡ terminated xs ++ l
unfolding text_before terminated
text_before-lines_of [] l r ys = take-middle l r
text_before-lines_of (x ∷ xs) l r ys =
    rw (text_before-lines_of xs l r ys) (sym (append_assoc x (newline ∷ terminated xs) l))

pub text_after-lines_of :
    (xs : List (List ℕ)) (l r : List ℕ) (ys : List (List ℕ))
    → text_after (xs ++ ((l ++ r) ∷ ys)) (length xs) (length l) ≡ r ++ with_newlines ys
unfolding text_after
text_after-lines_of [] l r ys = ap (λ t. t ++ with_newlines ys) (drop-middle l r)
text_after-lines_of (x ∷ xs) l r ys = text_after-lines_of xs l r ys

pub terminated-append :
    (xs ys : List (List ℕ)) → terminated (xs ++ ys) ≡ terminated xs ++ terminated ys
unfolding terminated
terminated-append [] ys = refl
terminated-append (x ∷ xs) ys =
    rw (terminated-append xs ys) (sym (append_assoc x (newline ∷ terminated xs) (terminated ys)))

join_lines-cons : (l : List ℕ) (ls : List (List ℕ)) → join_lines (l ∷ ls) ≡ l ++ with_newlines ls
unfolding join_lines
join_lines-cons l [] = sym (append_nil l)
join_lines-cons l (m ∷ ls) = ap (λ t. l ++ (newline ∷ t)) (join_lines-cons m ls)

with_newlines-join_lines :
    (xs : List (List ℕ)) (l : List ℕ) (ys : List (List ℕ))
    → with_newlines (xs ++ (l ∷ ys)) ≡ newline ∷ join_lines (xs ++ (l ∷ ys))
with_newlines-join_lines [] l ys = ap (λ t. newline ∷ t) (sym (join_lines-cons l ys))
with_newlines-join_lines (x ∷ xs) l ys =
    ap (λ t. newline ∷ t) (sym (join_lines-cons x (xs ++ (l ∷ ys))))

join_lines-append :
    (xs : List (List ℕ)) (l : List ℕ) (ys : List (List ℕ))
    → join_lines (xs ++ (l ∷ ys)) ≡ terminated xs ++ (l ++ with_newlines ys)
unfolding terminated
join_lines-append [] l ys = join_lines-cons l ys
join_lines-append (x ∷ xs) l ys =
    join_lines-cons x (xs ++ (l ∷ ys))
    ∙ ap (λ t. x ++ t)
        (with_newlines-join_lines xs l ys ∙ ap (λ t. newline ∷ t) (join_lines-append xs l ys))
    ∙ sym (append_assoc x (newline ∷ terminated xs) (l ++ with_newlines ys))

-- The text on both sides of a placed cursor.
pub before-place : (z : Zip) (e : Editor) → before (place z e) ≡ terminated z.above ++ z.left
before-place z e = text_before-lines_of z.above z.left z.right z.below

pub after-place : (z : Zip) (e : Editor) → after (place z e) ≡ z.right ++ with_newlines z.below
after-place z e = text_after-lines_of z.above z.left z.right z.below

join_lines-lines_of :
    (z : Zip)
    → join_lines (lines_of z) ≡ (terminated z.above ++ z.left) ++ (z.right ++ with_newlines z.below)
join_lines-lines_of z =
    join_lines-append z.above (z.left ++ z.right) z.below
    ∙ ap (λ t. terminated z.above ++ t) (append_assoc z.left z.right (with_newlines z.below))
    ∙ sym (append_assoc (terminated z.above) z.left (z.right ++ with_newlines z.below))

-- What `save` writes is the text before the cursor and the text after it.
pub join_lines-before :
    (e : Editor)
    → IsOn e.lines (e.cursor_row, e.cursor_col)
    → join_lines e.lines ≡ before e ++ after e
join_lines-before e h =
    let (z, p) = IsOn-place e h in
    subst (λ f. join_lines f.lines ≡ before f ++ after f) (sym p)
      (rw (before-place z e, after-place z e) (join_lines-lines_of z))
