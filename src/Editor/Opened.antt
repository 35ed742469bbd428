-- ===== src/Editor/Opened.antt =====
-- The text of an editor that kernel/src/editor.rs opens on a file.
use hep_os.Prelude.{
  List, [], ap, arith, if◌then◌else◌, length, none, refl, ℕ, ◌<◌, ◌==◌, ◌∙◌, ◌∷◌, ◌≡◌,
}
use hep_os.Editor.Buffer.{newline, split_lines, join_lines, new_editor}
use hep_os.Editor.Valid.{IsValid}

abbrev cons_byte : ℕ → List (List ℕ) → List (List ℕ)
cons_byte b ls = elim ls [
  | [] ↦ (b ∷ []) ∷ []
  | m ∷ ms ↦ if b == newline then [] ∷ (m ∷ ms) else (b ∷ m) ∷ ms
]

join_lines-cons_byte :
    (b : ℕ) (ls : List (List ℕ)) → 0 < length ls → join_lines (cons_byte b ls) ≡ b ∷ join_lines ls
unfolding join_lines
join_lines-cons_byte b [] h = absurd (omega arith)
join_lines-cons_byte b (m ∷ []) h = ground arith
join_lines-cons_byte b (m ∷ (n ∷ ms)) h = ground arith

length-cons_byte : (b : ℕ) (ls : List (List ℕ)) → 0 < length (cons_byte b ls)
length-cons_byte b [] = omega arith
length-cons_byte b (m ∷ ms) = ground arith

length-split_lines : (content : List ℕ) → 0 < length (split_lines content)
unfolding split_lines
length-split_lines [] = omega arith
length-split_lines (b ∷ bs) = length-cons_byte b (split_lines bs)

join_lines-split_lines : (content : List ℕ) → join_lines (split_lines content) ≡ content
unfolding split_lines join_lines
join_lines-split_lines [] = refl
join_lines-split_lines (b ∷ bs) =
    join_lines-cons_byte b (split_lines bs) (length-split_lines bs)
    ∙ ap (λ t. b ∷ t) (join_lines-split_lines bs)

-- An editor opened on a file has its cursor on the text, no anchor and no matches, and the text that
-- saving would write is the contents of the file.
pub new_editor_lem :
    (path content : List ℕ)
    → IsValid (new_editor path content)
      × ((new_editor path content).select_anchor ≡ none)
      × ((new_editor path content).find_matches ≡ [])
      × (join_lines (new_editor path content).lines ≡ content)
unfolding new_editor
new_editor_lem path content = (
  record {
    cursor_on = (length-split_lines content, omega arith);
    anchor_on = tt;
    matches_on = λ i h. absurd (omega arith);
    quiet = λ h. refl;
  },
  refl,
  refl,
  join_lines-split_lines content,
)
