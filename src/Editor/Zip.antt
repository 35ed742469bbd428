-- ===== src/Editor/Zip.antt =====
-- The lines of kernel/src/editor.rs around a position of the text, and what the methods of `Vec` do
-- there.
use hep_os.Prelude.{
  List, [], ap, arith, get_elem?, get_or, length, length-append, refl, set, some, suc, sym, zero, ℕ,
  ◌++◌, ◌+◌, ◌<◌, ◌∷◌, ◌≡◌, ◌≤◌,
}
use hep_os.HepFs.Bytes.{take, drop}
use hep_os.HepFs.Slices.{length-take}
use hep_os.Editor.Vec.{split_off, vec_remove}
use hep_os.Editor.Buffer.{Editor}

module _ {A : Type 0} where
  pub get_elem?-middle :
      (xs : List A) (y : A) (ys : List A) → get_elem? (xs ++ (y ∷ ys)) (length xs) ≡ some y
  get_elem?-middle [] y ys = refl
  get_elem?-middle (x ∷ xs) y ys = get_elem?-middle xs y ys

  pub set-middle :
      (xs : List A) (y v : A) (ys : List A) → set (xs ++ (y ∷ ys)) (length xs) v ≡ xs ++ (v ∷ ys)
  set-middle [] y v ys = refl
  set-middle (x ∷ xs) y v ys = ap (λ l. x ∷ l) (set-middle xs y v ys)

  pub split_off-middle : (xs ys : List A) → split_off (length xs) (xs ++ ys) ≡ some (xs, ys)
  split_off-middle [] ys = refl
  split_off-middle (x ∷ xs) ys = rw (split_off-middle xs ys) refl

  pub vec_remove-middle :
      (xs : List A) (y : A) (ys : List A)
      → vec_remove (length xs) (xs ++ (y ∷ ys)) ≡ some (y, xs ++ ys)
  vec_remove-middle [] y ys = refl
  vec_remove-middle (x ∷ xs) y ys = rw (vec_remove-middle xs y ys) refl

  pub take-middle : (xs ys : List A) → take (length xs) (xs ++ ys) ≡ xs
  take-middle [] ys = refl
  take-middle (x ∷ xs) ys = ap (λ l. x ∷ l) (take-middle xs ys)

  pub drop-middle : (xs ys : List A) → drop (length xs) (xs ++ ys) ≡ ys
  drop-middle [] ys = refl
  drop-middle (x ∷ xs) ys = drop-middle xs ys

module _ {A : Type 0} where
  split_off-suc :
      (xs : List A) (y : A) (ys : List A)
      → split_off (suc (length xs)) (xs ++ (y ∷ ys)) ≡ some (xs ++ (y ∷ []), ys)
  split_off-suc [] y ys = refl
  split_off-suc (x ∷ xs) y ys = rw (split_off-suc xs y ys) refl

  vec_remove-suc :
      (xs : List A) (y v : A) (ys : List A)
      → vec_remove (suc (length xs)) (xs ++ (y ∷ (v ∷ ys))) ≡ some (v, xs ++ (y ∷ ys))
  vec_remove-suc [] y v ys = refl
  vec_remove-suc (x ∷ xs) y v ys = rw (vec_remove-suc xs y v ys) refl

  -- The position behind a middle element.
  pub split_off-past :
      (xs : List A) (y : A) (ys : List A)
      → split_off (length xs + 1) (xs ++ (y ∷ ys)) ≡ some (xs ++ (y ∷ []), ys)
  split_off-past xs y ys =
      let e : length xs + 1 ≡ suc (length xs) = omega arith in rw e (split_off-suc xs y ys)

  pub vec_remove-past :
      (xs : List A) (y v : A) (ys : List A)
      → vec_remove (length xs + 1) (xs ++ (y ∷ (v ∷ ys))) ≡ some (v, xs ++ (y ∷ ys))
  vec_remove-past xs y v ys =
      let e : length xs + 1 ≡ suc (length xs) = omega arith in rw e (vec_remove-suc xs y v ys)

-- A position: the lines above, the line left and right of it, the lines below.
pub record Zip : Type 0 where
  pub above : List (List ℕ)
  pub left : List ℕ
  pub right : List ℕ
  pub below : List (List ℕ)

abbrev pub lines_of : Zip → List (List ℕ)
lines_of z = z.above ++ ((z.left ++ z.right) ∷ z.below)

-- The editor with its text and its cursor replaced.
abbrev pub place : Zip → Editor → Editor
place z e = record e { lines = lines_of z; cursor_row = length z.above; cursor_col = length z.left }

-- A position of the text.
abbrev pub IsOn : List (List ℕ) → ℕ × ℕ → Type 0
IsOn ls p = (p.0 < length ls) × (p.1 ≤ length (get_or ls p.0 []))

abbrev AtZip : List (List ℕ) → ℕ → ℕ → Type 0
AtZip ls row col = (z : Zip) × (ls ≡ lines_of z) × (row ≡ length z.above) × (col ≡ length z.left)

pub split_at : (n : ℕ) (xs : List ℕ) → n ≤ length xs → xs ≡ take n xs ++ drop n xs
split_at zero xs h = refl
split_at (suc n) [] h = absurd (omega arith)
split_at (suc n) (x ∷ xs) h = ap (λ l. x ∷ l) (split_at n xs (omega arith))

pub zip_at : (ls : List (List ℕ)) (row col : ℕ) → IsOn ls (row, col) → AtZip ls row col
zip_at [] row col h = absurd (omega (arith, h.0))
zip_at (l ∷ ls) zero col h = (
  record { above = []; left = take col l; right = drop col l; below = ls },
  ap (λ m. m ∷ ls) (split_at col l h.1),
  refl,
  sym (length-take col l h.1),
)
zip_at (l ∷ ls) (suc row) col h =
    let (z, e, r, c) = zip_at ls row col (omega (arith, h.0), h.1) in
    (record z { above = l ∷ z.above }, ap (λ m. l ∷ m) e, ap suc r, c)

-- Every editor whose cursor is on the text is one that `place` gives.
pub IsOn-place :
    (e : Editor) → IsOn e.lines (e.cursor_row, e.cursor_col) → (z : Zip) × (e ≡ place z e)
IsOn-place e h =
    let (z, p, r, c) = zip_at e.lines e.cursor_row e.cursor_col h in
    (z, λ i. record e { lines = p i; cursor_row = r i; cursor_col = c i })

pub get_or-middle :
    (xs : List (List ℕ)) (y : List ℕ) (ys : List (List ℕ))
    → get_or (xs ++ (y ∷ ys)) (length xs) [] ≡ y
get_or-middle [] y ys = refl
get_or-middle (x ∷ xs) y ys = get_or-middle xs y ys

pub place-IsOn : (z : Zip) → IsOn (lines_of z) (length z.above, length z.left)
place-IsOn z = (
  omega (arith, length-append z.above ((z.left ++ z.right) ∷ z.below)),
  rw (get_or-middle z.above (z.left ++ z.right) z.below)
      (omega (arith, length-append z.left z.right)),
)

-- An editor with the lines and the cursor of a position.
pub place-≡ :
    (e : Editor) (z : Zip) (ls : List (List ℕ)) (row col : ℕ)
    → ls ≡ lines_of z
    → row ≡ length z.above
    → col ≡ length z.left
    → record e { lines = ls; cursor_row = row; cursor_col = col } ≡ place z e
place-≡ e z ls row col h r c i = record e { lines = h i; cursor_row = r i; cursor_col = c i }
