-- ===== src/Editor/Typing.antt =====
-- The edits of kernel/src/editor.rs at a placed cursor.
use hep_os.Prelude.{
  List, [], ap, append_nil, arith, if◌then◌else◌, length, length-append, refl, some, sym, ℕ, ◌++◌,
  ◌+◌, ◌==◌, ◌||◌, ◌∙◌, ◌∷◌, ◌≡◌,
}
use hep_os.Editor.Select.{with_newlines}
use hep_os.Editor.Text.{terminated, terminated-append}
use hep_os.HepFs.Slices.{append_assoc}
use hep_os.Editor.Buffer.{
  Editor, newline, split_line, insert_byte, is_printable, insert_step, insert_bytes,
}
use hep_os.Editor.Zip.{
  get_elem?-middle, set-middle, split_off-middle, split_off-past, Zip, place, place-≡,
}

abbrev pub typed : ℕ → Zip → Zip
typed b z = record z { left = z.left ++ (b ∷ []) }

abbrev pub broken : Zip → Zip
broken z = record z { above = z.above ++ (z.left ∷ []); left = [] }

pub insert_byte-place :
    (b : ℕ) (z : Zip) (e : Editor) → insert_byte b (place z e) ≡ some (place (typed b z) e)
unfolding insert_byte
insert_byte-place b z e =
    rw
      (
        get_elem?-middle z.above (z.left ++ z.right) z.below,
        split_off-middle z.left z.right,
        set-middle z.above (z.left ++ z.right) (z.left ++ (b ∷ z.right)) z.below,
      )
      (ap some (
        place-≡ e (typed b z) (z.above ++ ((z.left ++ (b ∷ z.right)) ∷ z.below)) (length z.above)
          (length z.left + 1)
          (ap (λ l. z.above ++ (l ∷ z.below)) (sym (append_assoc z.left (b ∷ []) z.right))) refl
          (omega (arith, length-append z.left (b ∷ [])))))

pub split_line-place : (z : Zip) (e : Editor) → split_line (place z e) ≡ some (place (broken z) e)
unfolding split_line
split_line-place z e =
    rw
      (
        get_elem?-middle z.above (z.left ++ z.right) z.below,
        split_off-middle z.left z.right,
        set-middle z.above (z.left ++ z.right) z.left z.below,
        split_off-past z.above z.left z.below,
      )
      (ap some (
        place-≡ e (broken z) ((z.above ++ (z.left ∷ [])) ++ (z.right ∷ z.below))
          (length z.above + 1) 0 refl (omega (arith, length-append z.above (z.left ∷ []))) refl))

-- A position after a byte, and after a text, is written there.
unfoldable pub put : ℕ → Zip → Zip
put b z = if b == newline then broken z else if is_printable b then typed b z else z

unfoldable pub written : List ℕ → Zip → Zip
unfolding put
written [] z = z
written (b ∷ bs) z = written bs (put b z)

insert_step-place :
    (b : ℕ) (z : Zip) (e : Editor) → insert_step b (place z e) ≡ some (place (put b z) e)
unfolding insert_step put
insert_step-place b z e = ground (arith, split_line-place z e, insert_byte-place b z e)

pub insert_bytes-place :
    (bs : List ℕ) (z : Zip) (e : Editor)
    → insert_bytes bs (place z e) ≡ some (place (written bs z) e)
unfolding insert_bytes written
insert_bytes-place [] z e = refl
insert_bytes-place (b ∷ bs) z e = rw (insert_step-place b z e) (insert_bytes-place bs (put b z) e)

-- The bytes of a text that `insert_text` does not skip.
unfoldable pub accepted : List ℕ → List ℕ
accepted [] = []
accepted (b ∷ bs) = if b == newline || is_printable b then b ∷ accepted bs else accepted bs

abbrev pub left_text : Zip → List ℕ
left_text z = terminated z.above ++ z.left

pub left_text-broken : (z : Zip) → left_text (broken z) ≡ left_text z ++ (newline ∷ [])
left_text-broken z =
    append_nil (terminated (z.above ++ (z.left ∷ [])))
    ∙ terminated-append z.above (z.left ∷ [])
    ∙ (unfold terminated in sym (append_assoc (terminated z.above) z.left (newline ∷ [])))

put-right :
    (b : ℕ) (z : Zip)
    → (put b z).right ++ with_newlines (put b z).below ≡ z.right ++ with_newlines z.below
unfolding put
put-right b z = ground arith

put-left :
    (b : ℕ) (bs : List ℕ) (z : Zip)
    → left_text (put b z) ++ accepted bs ≡ left_text z ++ accepted (b ∷ bs)
unfolding put accepted
put-left b bs z = ground (
  arith,
  left_text-broken z,
  append_assoc (left_text z) (b ∷ []) (accepted bs),
  append_assoc (terminated z.above) z.left (b ∷ []),
)

pub written-right :
    (bs : List ℕ) (z : Zip)
    → (written bs z).right ++ with_newlines (written bs z).below ≡ z.right ++ with_newlines z.below
unfolding written
written-right [] z = refl
written-right (b ∷ bs) z = written-right bs (put b z) ∙ put-right b z

pub written-left : (bs : List ℕ) (z : Zip) → left_text (written bs z) ≡ left_text z ++ accepted bs
unfolding written
written-left [] z = unfold accepted in sym (append_nil (left_text z))
written-left (b ∷ bs) z = written-left bs (put b z) ∙ put-left b bs z
