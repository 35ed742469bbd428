-- ===== src/Editor/Erasing.antt =====
-- Backspace and Delete of kernel/src/editor.rs at a placed cursor.
use hep_os.Prelude.{
  List, [], ap, append_nil, arith, false, inl, inr, length, length-append, ltb, refl, some, true, ℕ,
  ◌++◌, ◌+◌, ◌-◌, ◌∷◌, ◌≡◌, ◌⊎◌,
}
use hep_os.HepFs.Slices.{append_assoc}
use hep_os.Editor.Find.{pop_last}
use hep_os.Editor.Keys.{mark_modified}
use hep_os.Editor.Buffer.{
  Editor, ensure_visible, remove_left, merge_up, remove_right, merge_down, delete_forward,
}
use hep_os.Editor.Zip.{get_elem?-middle, set-middle, vec_remove-middle, vec_remove-past, Zip, place}
use hep_os.Editor.Typing.{typed}

module _ {A : Type 0} where
  -- A list is empty or ends with an element.
  pub end-cases : (xs : List A) → (xs ≡ []) ⊎ ((ys : List A) × (b : A) × (xs ≡ ys ++ (b ∷ [])))
  end-cases [] = inl refl
  end-cases (x ∷ xs) = elim (end-cases xs) [
    | inl e ↦ inr ([], x, ap (λ l. x ∷ l) e)
    | inr (ys, b, e) ↦ inr (x ∷ ys, b, ap (λ l. x ∷ l) e)
  ]

pub pop_last-append : (xs : List ℕ) (b : ℕ) → pop_last (xs ++ (b ∷ [])) ≡ xs
pop_last-append [] b = refl
pop_last-append (x ∷ []) b = refl
pop_last-append (x ∷ (y ∷ ys)) b = ap (λ l. x ∷ l) (pop_last-append (y ∷ ys) b)

-- The cursor's line without its last byte on the left, and without its first on the right.
pub remove_left-place :
    (z : Zip) (b : ℕ) (e : Editor)
    → remove_left (place (typed b z) e) ≡ some (mark_modified (place z e))
unfolding remove_left
remove_left-place z b e =
    let n : length (z.left ++ (b ∷ [])) - 1 ≡ length z.left =
      omega (arith, length-append z.left (b ∷ [])) in
    rw
      (
        get_elem?-middle z.above ((z.left ++ (b ∷ [])) ++ z.right) z.below,
        append_assoc z.left (b ∷ []) z.right,
        n,
        vec_remove-middle z.left b z.right,
        set-middle z.above (z.left ++ (b ∷ z.right)) (z.left ++ z.right) z.below,
      )
      refl

pub remove_right-place :
    (z : Zip) (b : ℕ) (r : List ℕ) (e : Editor)
    → delete_forward (place (record z { right = b ∷ r }) e)
      ≡ some (mark_modified (place (record z { right = r }) e))
unfolding delete_forward remove_right
remove_right-place z b r e =
    let t : ltb (length z.left) (length (z.left ++ (b ∷ r))) ≡ true =
      ground (arith, length-append z.left (b ∷ r)) in
    rw
      (
        get_elem?-middle z.above (z.left ++ (b ∷ r)) z.below,
        t,
        vec_remove-middle z.left b r,
        set-middle z.above (z.left ++ (b ∷ r)) (z.left ++ r) z.below,
      )
      refl

-- The line above, and the line below, is joined with the cursor's line.
pub merge_up-place :
    (xs : List (List ℕ)) (l r : List ℕ) (ys : List (List ℕ)) (e : Editor)
    → merge_up (place (record { above = xs ++ (l ∷ []); left = []; right = r; below = ys }) e)
      ≡ some (
          mark_modified
            (ensure_visible (place (record { above = xs; left = l; right = r; below = ys }) e)))
unfolding merge_up
merge_up-place xs l r ys e =
    let n : length (xs ++ (l ∷ [])) - 1 ≡ length xs = omega (arith, length-append xs (l ∷ [])) in
    rw
      (
        vec_remove-middle (xs ++ (l ∷ [])) r ys,
        n,
        append_assoc xs (l ∷ []) ys,
        get_elem?-middle xs l ys,
        set-middle xs l (l ++ r) ys,
      )
      refl

pub merge_down-place :
    (z : Zip) (m : List ℕ) (ys : List (List ℕ)) (e : Editor)
    → delete_forward (place (record z { right = []; below = m ∷ ys }) e)
      ≡ some (mark_modified (place (record z { right = m; below = ys }) e))
unfolding delete_forward merge_down
merge_down-place z m ys e =
    let t : ltb (length z.left) (length (z.left ++ [])) ≡ false =
      ground (arith, length-append z.left []) in
    let n : ltb (length z.above + 1) (length (z.above ++ ((z.left ++ []) ∷ (m ∷ ys)))) ≡ true =
      ground (arith, length-append z.above ((z.left ++ []) ∷ (m ∷ ys))) in
    rw
      (
        get_elem?-middle z.above (z.left ++ []) (m ∷ ys),
        t,
        n,
        vec_remove-past z.above (z.left ++ []) m ys,
        set-middle z.above (z.left ++ []) ((z.left ++ []) ++ m) ys,
        append_nil z.left,
      )
      refl
