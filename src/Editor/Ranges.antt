-- ===== src/Editor/Ranges.antt =====
-- What is cut and copied between two positions of the text of kernel/src/editor.rs.
use hep_os.Prelude.{
  ==_refl, List, [], append_nil, arith, false, get_elem?, leb, length, length-append, min, refl,
  set, some, subst, sym, true, ℕ, ◌&&◌, ◌++◌, ◌+◌, ◌-◌, ◌==◌, ◌∙◌, ◌∷◌, ◌≡◌,
}
use hep_os.HepFs.Bytes.{take, drop}
use hep_os.HepFs.Slices.{append_assoc}
use hep_os.Editor.Vec.{vec_slice, drain}
use hep_os.Editor.Buffer.{newline}
use hep_os.Editor.Select.{cut_within, cut_across, cut, with_newlines, copied}
use hep_os.Editor.Zip.{get_elem?-middle, set-middle, split_off-middle, take-middle, drop-middle}

module _ {A : Type 0} where
  bounds :
      (xs ms ys : List A) (lo hi : ℕ)
      → lo ≡ length xs
      → hi ≡ length xs + length ms
      → leb lo hi && leb hi (length (xs ++ (ms ++ ys))) ≡ true
  bounds xs ms ys lo hi h k = ground (arith, length-append xs (ms ++ ys), length-append ms ys)

  take-two :
      (xs ms ys : List A) (hi : ℕ)
      → hi ≡ length xs + length ms
      → take hi (xs ++ (ms ++ ys)) ≡ xs ++ ms
  take-two xs ms ys hi k =
      rw (k ∙ sym (length-append xs ms), sym (append_assoc xs ms ys)) (take-middle (xs ++ ms) ys)

  drop-two :
      (xs ms ys : List A) (hi : ℕ) → hi ≡ length xs + length ms → drop hi (xs ++ (ms ++ ys)) ≡ ys
  drop-two xs ms ys hi k =
      rw (k ∙ sym (length-append xs ms), sym (append_assoc xs ms ys)) (drop-middle (xs ++ ms) ys)

  -- The middle of three parts, taken out and read.
  pub drain-middle :
      (xs ms ys : List A) (lo hi : ℕ)
      → lo ≡ length xs
      → hi ≡ length xs + length ms
      → drain lo hi (xs ++ (ms ++ ys)) ≡ some (xs ++ ys)
  drain-middle xs ms ys lo hi h k =
      rw (bounds xs ms ys lo hi h k, drop-two xs ms ys hi k, h, take-middle xs (ms ++ ys)) refl

  pub vec_slice-middle :
      (xs ms ys : List A) (lo hi : ℕ)
      → lo ≡ length xs
      → hi ≡ length xs + length ms
      → vec_slice lo hi (xs ++ (ms ++ ys)) ≡ some ms
  vec_slice-middle xs ms ys lo hi h k =
      rw (bounds xs ms ys lo hi h k, take-two xs ms ys hi k, h, drop-middle xs ms) refl

module _ {A : Type 0} where
  -- The elements behind one at a known place.
  drain-lines :
      (xs : List A) (x : A) (ms : List A) (y : A) (ys : List A)
      → drain (length xs + 1) (length xs + 1 + length ms + 1) (xs ++ (x ∷ (ms ++ (y ∷ ys))))
        ≡ some (xs ++ (x ∷ ys))
  drain-lines xs x ms y ys =
      let a = append_assoc xs (x ∷ []) (ms ++ (y ∷ ys)) in
      let b = append_assoc ms (y ∷ []) ys in
      let c = append_assoc xs (x ∷ []) ys in
      rw (sym a, sym b, sym c)
        (drain-middle (xs ++ (x ∷ [])) (ms ++ (y ∷ [])) ys (length xs + 1)
          (length xs + 1 + length ms + 1) (omega (arith, length-append xs (x ∷ [])))
          (omega (arith, length-append xs (x ∷ []), length-append ms (y ∷ []))))

  slice-lines :
      (xs : List A) (x : A) (ms ys : List A)
      → vec_slice (length xs + 1) (length xs + 1 + length ms) (xs ++ (x ∷ (ms ++ ys))) ≡ some ms
  slice-lines xs x ms ys = rw (sym (append_assoc xs (x ∷ []) (ms ++ ys))) (
      vec_slice-middle (xs ++ (x ∷ [])) ms ys (length xs + 1) (length xs + 1 + length ms)
        (omega (arith, length-append xs (x ∷ []))) (omega (arith, length-append xs (x ∷ []))))

-- Two positions on one line: the lines, the text between them, and the lines without it.
pub cut-within :
    (xs : List (List ℕ)) (l m r : List ℕ) (ys : List (List ℕ))
    → cut (length xs, length l) (length xs, length l + length m) (xs ++ ((l ++ (m ++ r)) ∷ ys))
      ≡ some (xs ++ ((l ++ r) ∷ ys))
unfolding cut cut_within
cut-within xs l m r ys =
    let a : min (length l + length m) (length (l ++ (m ++ r))) ≡ length l + length m =
      omega (arith, length-append l (m ++ r), length-append m r) in
    let b : min (length l) (length l + length m) ≡ length l = omega arith in
    rw
      (
        ==_refl (length xs),
        get_elem?-middle xs (l ++ (m ++ r)) ys,
        a,
        b,
        drain-middle l m r (length l) (length l + length m) refl refl,
        set-middle xs (l ++ (m ++ r)) (l ++ r) ys,
      )
      refl

pub copied-within :
    (xs : List (List ℕ)) (l m r : List ℕ) (ys : List (List ℕ))
    → copied (length xs, length l) (length xs, length l + length m) (xs ++ ((l ++ (m ++ r)) ∷ ys))
      ≡ some m
unfolding copied
copied-within xs l m r ys =
    rw
      (
        get_elem?-middle xs (l ++ (m ++ r)) ys,
        ==_refl (length xs),
        vec_slice-middle l m r (length l) (length l + length m) refl refl,
      )
      refl

-- Two positions on different lines, with the lines `ms` between these.
module _ (xs : List (List ℕ)) (l r : List ℕ) (ms : List (List ℕ)) (l' r' : List ℕ)
    (ys : List (List ℕ)) where
  abbrev pub across : List (List ℕ)
  across = xs ++ ((l ++ r) ∷ (ms ++ ((l' ++ r') ∷ ys)))

  abbrev pub last_row : ℕ
  last_row = length xs + 1 + length ms

  pub across-last : across ≡ (xs ++ ((l ++ r) ∷ ms)) ++ ((l' ++ r') ∷ ys)
  across-last = sym (append_assoc xs ((l ++ r) ∷ ms) ((l' ++ r') ∷ ys))

  pub last_row-length : last_row ≡ length (xs ++ ((l ++ r) ∷ ms))
  last_row-length = omega (arith, length-append xs ((l ++ r) ∷ ms))

  pub last-line : get_elem? across last_row ≡ some (l' ++ r')
  last-line =
      rw (across-last, last_row-length) (get_elem?-middle (xs ++ ((l ++ r) ∷ ms)) (l' ++ r') ys)

  pub set-last : (v : List ℕ) → set across last_row v ≡ xs ++ ((l ++ r) ∷ (ms ++ (v ∷ ys)))
  set-last v =
      rw (across-last, last_row-length)
        (set-middle (xs ++ ((l ++ r) ∷ ms)) (l' ++ r') v ys
          ∙ append_assoc xs ((l ++ r) ∷ ms) (v ∷ ys))

  pub apart : (length xs == last_row) ≡ false
  apart = ground arith

  pub cut-across :
      cut (length xs, length l) (last_row, length l') across ≡ some (xs ++ ((l ++ r') ∷ ys))
  unfolding cut cut_across
  cut-across =
      let a : min last_row (length across - 1) ≡ last_row = omega (
        arith,
        length-append xs ((l ++ r) ∷ (ms ++ ((l' ++ r') ∷ ys))),
        length-append ms ((l' ++ r') ∷ ys),
      ) in
      let b : min (length l) (length (l ++ r)) ≡ length l = omega (arith, length-append l r) in
      let c : min (length l') (length (l' ++ r')) ≡ length l' =
        omega (arith, length-append l' r') in
      let rest = ms ++ (l' ∷ ys) in
      rw
        (
          apart,
          a,
          last-line,
          get_elem?-middle xs (l ++ r) (ms ++ ((l' ++ r') ∷ ys)),
          b,
          c,
          split_off-middle l' r',
          set-last l',
          get_elem?-middle xs (l ++ r) rest,
          take-middle l r,
          set-middle xs (l ++ r) (l ++ r') rest,
        )
        (drain-lines xs (l ++ r') ms l' ys)

  pub copied-across :
      copied (length xs, length l) (last_row, length l') across
      ≡ some (r ++ (with_newlines ms ++ (newline ∷ l')))
  unfolding copied
  copied-across =
      let first = vec_slice-middle l r [] (length l) (length (l ++ r)) refl (length-append l r) in
      let nil = append_nil r in
      rw
        (
          get_elem?-middle xs (l ++ r) (ms ++ ((l' ++ r') ∷ ys)),
          last-line,
          apart,
          subst (λ k. vec_slice (length l) (length (l ++ r)) (l ++ k) ≡ some r) nil first,
          slice-lines xs (l ++ r) ms ((l' ++ r') ∷ ys),
          vec_slice-middle [] l' r' 0 (length l') refl (omega arith),
        )
        refl
