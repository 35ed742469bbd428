-- ===== src/Editor/Cutting.antt =====
-- The text between two positions of kernel/src/editor.rs: what it is, and what is left without it.
use hep_os.Prelude.{
  ==_iff, Bool-cases, List, [], ap, arith, get_or, inl, inr, length, length-append, refl, some,
  subst, suc, sym, true, zero, ℕ, ◌++◌, ◌+◌, ◌-◌, ◌<◌, ◌==◌, ◌∙◌, ◌∷◌, ◌≡◌, ◌≤◌,
}
use hep_os.HepFs.Bytes.{take, drop}
use hep_os.HepFs.Slices.{length-take, append_assoc}
use hep_os.Editor.Buffer.{newline}
use hep_os.Editor.Select.{leb_pos, cut, with_newlines, copied}
use hep_os.Editor.Zip.{Zip, lines_of, IsOn, split_at, zip_at, get_or-middle, place-IsOn}
use hep_os.Editor.Text.{
  text_before, text_after, terminated, text_before-lines_of, text_after-lines_of, terminated-append,
}
use hep_os.Editor.Ranges.{
  cut-within, copied-within, across, last_row, across-last, last_row-length, cut-across,
  copied-across,
}

-- `between` is the text from one position to another, and `kept` are the lines without it.
pub record Cut (ls : List (List ℕ)) (s t : ℕ × ℕ) : Type 0 where
  pub between : List ℕ
  pub kept : List (List ℕ)
  pub copies : copied s t ls ≡ some between
  pub cuts : cut s t ls ≡ some kept
  pub start_on : IsOn kept s
  pub same_before : text_before kept s.0 s.1 ≡ text_before ls s.0 s.1
  pub same_after : text_after kept s.0 s.1 ≡ text_after ls t.0 t.1
  pub is_between : text_before ls t.0 t.1 ≡ text_before ls s.0 s.1 ++ between

pub same_line-Cut :
    (xs : List (List ℕ)) (l m r : List ℕ) (ys : List (List ℕ))
    → Cut (xs ++ ((l ++ (m ++ r)) ∷ ys)) (length xs, length l) (length xs, length l + length m)
same_line-Cut xs l m r ys =
    let ls = xs ++ ((l ++ (m ++ r)) ∷ ys) in
    let n : length l + length m ≡ length (l ++ m) = sym (length-append l m) in
    let before_t : text_before ls (length xs) (length l + length m) ≡ terminated xs ++ (l ++ m) =
      rw (n, sym (append_assoc l m r)) (text_before-lines_of xs (l ++ m) r ys) in
    let after_t : text_after ls (length xs) (length l + length m) ≡ r ++ with_newlines ys =
      rw (n, sym (append_assoc l m r)) (text_after-lines_of xs (l ++ m) r ys) in
    record {
      between = m;
      kept = xs ++ ((l ++ r) ∷ ys);
      copies = copied-within xs l m r ys;
      cuts = cut-within xs l m r ys;
      start_on = place-IsOn (record { above = xs; left = l; right = r; below = ys });
      same_before = text_before-lines_of xs l r ys ∙ sym (text_before-lines_of xs l (m ++ r) ys);
      same_after = text_after-lines_of xs l r ys ∙ sym after_t;
      is_between =
          before_t
          ∙ sym (append_assoc (terminated xs) l m)
          ∙ ap (λ t. t ++ m) (sym (text_before-lines_of xs l (m ++ r) ys));
    }

terminated-last :
    (ms : List (List ℕ)) (l : List ℕ)
    → newline ∷ (terminated ms ++ l) ≡ with_newlines ms ++ (newline ∷ l)
unfolding terminated
terminated-last [] l = refl
terminated-last (m ∷ ms) l =
    ap (λ t. newline ∷ t)
      (append_assoc m (newline ∷ terminated ms) l ∙ ap (λ t. m ++ t) (terminated-last ms l))
    ∙ sym (append_assoc (newline ∷ m) (with_newlines ms) (newline ∷ l))

terminated-across :
    (xs : List (List ℕ)) (l r : List ℕ) (ms : List (List ℕ)) (l' : List ℕ)
    → terminated (xs ++ ((l ++ r) ∷ ms)) ++ l'
      ≡ (terminated xs ++ l) ++ (r ++ (with_newlines ms ++ (newline ∷ l')))
unfolding terminated
terminated-across xs l r ms l' =
    let rest = with_newlines ms ++ (newline ∷ l') in
    ap (λ t. t ++ l') (terminated-append xs ((l ++ r) ∷ ms))
    ∙ append_assoc (terminated xs) ((l ++ r) ++ (newline ∷ terminated ms)) l'
    ∙ ap (λ t. terminated xs ++ t)
        (append_assoc (l ++ r) (newline ∷ terminated ms) l'
          ∙ ap (λ t. (l ++ r) ++ t) (terminated-last ms l')
          ∙ append_assoc l r rest)
    ∙ sym (append_assoc (terminated xs) l (r ++ rest))

module _ (xs : List (List ℕ)) (l r : List ℕ) (ms : List (List ℕ)) (l' r' : List ℕ)
    (ys : List (List ℕ)) where
  pub across-Cut :
      Cut (across xs l r ms l' r' ys) (length xs, length l) (last_row xs l r ms l' r' ys, length l')
  across-Cut =
      let ls = across xs l r ms l' r' ys in
      let row = last_row xs l r ms l' r' ys in
      let e = across-last xs l r ms l' r' ys in
      let n = last_row-length xs l r ms l' r' ys in
      let front = xs ++ ((l ++ r) ∷ ms) in
      let before_t : text_before ls row (length l') ≡ terminated front ++ l' =
        rw (e, n) (text_before-lines_of front l' r' ys) in
      let after_t : text_after ls row (length l') ≡ r' ++ with_newlines ys =
        rw (e, n) (text_after-lines_of front l' r' ys) in
      record {
        between = r ++ (with_newlines ms ++ (newline ∷ l'));
        kept = xs ++ ((l ++ r') ∷ ys);
        copies = copied-across xs l r ms l' r' ys;
        cuts = cut-across xs l r ms l' r' ys;
        start_on = place-IsOn (record { above = xs; left = l; right = r'; below = ys });
        same_before =
            text_before-lines_of xs l r' ys
            ∙ sym (text_before-lines_of xs l r (ms ++ ((l' ++ r') ∷ ys)));
        same_after = text_after-lines_of xs l r' ys ∙ sym after_t;
        is_between =
            before_t
            ∙ terminated-across xs l r ms l'
            ∙ ap (λ t. t ++ (r ++ (with_newlines ms ++ (newline ∷ l'))))
                (sym (text_before-lines_of xs l r (ms ++ ((l' ++ r') ∷ ys))));
      }

-- Two positions of the text, the first not behind the second.
split_left :
    (l : List ℕ) (n : ℕ)
    → n ≤ length l
    → (k : List ℕ) × (m : List ℕ) × (l ≡ k ++ m) × (n ≡ length k)
split_left l n h = (take n l, drop n l, split_at n l h, sym (length-take n l h))

behind-IsOn :
    (xs : List (List ℕ)) (x : List ℕ) (ys : List (List ℕ)) (row col : ℕ)
    → IsOn (xs ++ (x ∷ ys)) (row, col)
    → length xs < row
    → (k : ℕ) × (row ≡ length xs + 1 + k) × IsOn ys (k, col)
behind-IsOn xs x ys zero col h lt = absurd (omega arith)
behind-IsOn [] x ys (suc row) col h lt = (row, omega arith, (omega (arith, h.0), h.1))
behind-IsOn (w ∷ xs) x ys (suc row) col h lt =
    let (k, e, o) = behind-IsOn xs x ys row col (omega (arith, h.0), h.1) (omega arith) in
    (k, omega arith, o)

-- The second position is on the line of the first, or below it.
on_line-Cut :
    (z : Zip) (col : ℕ)
    → col ≤ length (z.left ++ z.right)
    → length z.left ≤ col
    → Cut (lines_of z) (length z.above, length z.left) (length z.above, col)
on_line-Cut z col h le =
    let (m, r, e, n) =
      split_left z.right (col - length z.left) (omega (arith, length-append z.left z.right)) in
    let c : col ≡ length z.left + length m = omega arith in
    subst
      (λ (q : List ℕ × ℕ).
        Cut (z.above ++ ((z.left ++ q.0) ∷ z.below)) (length z.above, length z.left)
          (length z.above, q.1))
      (λ i. (sym e i, sym c i)) (same_line-Cut z.above z.left m r z.below)

below-Cut :
    (z : Zip) (row col : ℕ)
    → IsOn (lines_of z) (row, col)
    → length z.above < row
    → Cut (lines_of z) (length z.above, length z.left) (row, col)
below-Cut z row col h lt =
    let (k, e, on) = behind-IsOn z.above (z.left ++ z.right) z.below row col h lt in
    let (w, ew, rw', cw) = zip_at z.below k col on in
    let er : row ≡ length z.above + 1 + length w.above = omega arith in
    subst
      (λ (q : List (List ℕ) × (ℕ × ℕ)).
        Cut (z.above ++ ((z.left ++ z.right) ∷ q.0)) (length z.above, length z.left) q.1)
      (λ i. (sym ew i, (sym er i, sym cw i)))
      (across-Cut z.above z.left z.right w.above w.left w.right w.below)

pub zip-Cut :
    (z : Zip) (t : ℕ × ℕ)
    → IsOn (lines_of z) t
    → leb_pos (length z.above, length z.left) t ≡ true
    → Cut (lines_of z) (length z.above, length z.left) t
zip-Cut z (row, col) h le = elim (Bool-cases (row == length z.above)) [
  | inl same ↦
      let r = (==_iff row (length z.above)).0 same in
      let c : col ≤ length (z.left ++ z.right) =
        subst (λ (l : List ℕ). col ≤ length l)
          (ap (λ k. get_or (lines_of z) k []) r ∙ get_or-middle z.above (z.left ++ z.right) z.below)
          h.1 in
      subst (λ (k : ℕ). Cut (lines_of z) (length z.above, length z.left) (k, col)) (sym r)
        (on_line-Cut z col c (ground arith))
  | inr other ↦ below-Cut z row col h (ground arith)
]

pub IsOn-Cut :
    (ls : List (List ℕ)) (s t : ℕ × ℕ) → IsOn ls s → IsOn ls t → leb_pos s t ≡ true → Cut ls s t
IsOn-Cut ls (row, col) t hs ht le =
    let (z, e, r, c) = zip_at ls row col hs in
    subst (λ (q : List (List ℕ) × (ℕ × ℕ)). IsOn q.0 t → leb_pos q.1 t ≡ true → Cut q.0 q.1 t)
      (λ i. (sym e i, (sym r i, sym c i))) (zip-Cut z t) ht le
