-- ===== src/Editor/Valid.antt =====
-- When the cursor, the anchor and the matches of an editor of kernel/src/editor.rs lie on its text, and
-- what deleting the selection does then.
use hep_os.Prelude.{
  Bool-cases, List, Option, Option-cases, [], ap, arith, false, get_or, inl, inr, length, none,
  refl, some, subst, sym, true, ℕ, ◌<◌, ◌∙◌, ◌≡◌, ◌⊎◌,
}
use hep_os.Editor.Buffer.{Editor}
use hep_os.Editor.Select.{
  same_pos, leb_pos, range_of, selection_range, delete_range, delete_selection_if_any,
}
use hep_os.Editor.Zip.{IsOn}
use hep_os.Editor.Cutting.{Cut, IsOn-Cut}

abbrev pub cursor : Editor → ℕ × ℕ
cursor e = (e.cursor_row, e.cursor_col)

abbrev pub AnchorOn : List (List ℕ) → Option (ℕ × ℕ) → Type 0
AnchorOn ls none = Unit
AnchorOn ls (some p) = IsOn ls p

-- Outside find mode there are no matches.
pub record IsValid (e : Editor) : Type 0 where
  pub cursor_on : IsOn e.lines (cursor e)
  pub anchor_on : AnchorOn e.lines e.select_anchor
  pub matches_on :
      (i : ℕ) → i < length e.find_matches → IsOn e.lines (get_or e.find_matches i (0, 0))
  pub quiet : e.find_mode ≡ false → e.find_matches ≡ []

-- The same, without any match.
pub record IsQuiet (e : Editor) : Type 0 where
  pub cursor_on : IsOn e.lines (cursor e)
  pub anchor_on : AnchorOn e.lines e.select_anchor
  pub no_matches : e.find_matches ≡ []

pub IsQuiet-IsValid : (e : Editor) → IsQuiet e → IsValid e
IsQuiet-IsValid e q = record {
  cursor_on = q.cursor_on;
  anchor_on = q.anchor_on;
  matches_on = λ i h. absurd (omega (arith, ap length q.no_matches));
  quiet = λ h. q.no_matches;
}

pub IsValid-IsQuiet : (e : Editor) → IsValid e → e.find_mode ≡ false → IsQuiet e
IsValid-IsQuiet e v h = record {
  cursor_on = v.cursor_on;
  anchor_on = v.anchor_on;
  no_matches = v.quiet h;
}

-- No real selection: no anchor, or one at the cursor.
abbrev pub Unselected : Editor → Type 0
Unselected e = (e.select_anchor ≡ none) ⊎ (e.select_anchor ≡ some (cursor e))

same_pos-≡ : (p q : ℕ × ℕ) → same_pos p q ≡ true → p ≡ q
same_pos-≡ (a, b) (c, d) h =
    let r : a ≡ c = ground arith in let k : b ≡ d = ground arith in λ i. (r i, k i)

-- The two ends of a selection, and the order of them.
abbrev pub Ends : Option (ℕ × ℕ) → ℕ × ℕ → ℕ × ℕ → ℕ × ℕ → Type 0
Ends anchor cur s t = ((anchor ≡ some s) × (cur ≡ t)) ⊎ ((anchor ≡ some t) × (cur ≡ s))

pub range_of-cases :
    (p q : ℕ × ℕ)
    → ((range_of p q ≡ none) × (p ≡ q))
      ⊎ ((s : ℕ × ℕ) × (t : ℕ × ℕ) × (range_of p q ≡ some (s, t))
          × (leb_pos s t ≡ true)
          × Ends (some p) q s t)
unfolding range_of
range_of-cases p q = elim (Bool-cases (same_pos p q)) [
  | inl is ↦ inl (rw is refl, same_pos-≡ p q is)
  | inr other ↦ elim (Bool-cases (leb_pos p q)) [
    | inl le ↦ inr (p, q, rw (other, le) refl, le, inl (refl, refl))
    | inr gt ↦ inr (q, p, rw (other, gt) refl, ground arith, inr (refl, refl))
  ]
]

-- Either nothing is selected, or the selection is between two positions in order.
pub selection_range-cases :
    (e : Editor)
    → ((selection_range e ≡ none) × Unselected e)
      ⊎ ((s : ℕ × ℕ) × (t : ℕ × ℕ) × (selection_range e ≡ some (s, t))
          × (leb_pos s t ≡ true)
          × Ends e.select_anchor (cursor e) s t)
unfolding selection_range
selection_range-cases e = elim (Option-cases e.select_anchor) [
  | inl out ↦ inl (rw out refl, inl out)
  | inr (p, is) ↦ elim (range_of-cases p (cursor e)) [
    | inl (empty, here) ↦ inl (rw is empty, inr (is ∙ ap some here))
    | inr (s, t, found, le, ends) ↦
        inr (
          s,
          t,
          rw is found,
          le,
          subst (λ (a : Option (ℕ × ℕ)). Ends a (cursor e) s t) (sym is) ends,
        )
  ]
]

-- Both ends of a selection are on the text.
Ends-IsOn :
    (ls : List (List ℕ)) (anchor : Option (ℕ × ℕ)) (cur s t : ℕ × ℕ)
    → AnchorOn ls anchor
    → IsOn ls cur
    → Ends anchor cur s t
    → IsOn ls s × IsOn ls t
Ends-IsOn ls anchor cur s t a c (inl (p, q)) = (subst (AnchorOn ls) p a, subst (IsOn ls) q c)
Ends-IsOn ls anchor cur s t a c (inr (p, q)) = (subst (IsOn ls) q c, subst (AnchorOn ls) p a)

-- The editor once a selection is cut out.
abbrev pub without : (s t : ℕ × ℕ) (e : Editor) → Cut e.lines s t → Editor
without s t e c = record e {
  lines = c.kept;
  cursor_row = s.0;
  cursor_col = s.1;
  select_anchor = none;
  modified = true;
}

abbrev pub Removed : Editor → Type 0
Removed e =
    (s : ℕ × ℕ) × (t : ℕ × ℕ) × (c : Cut e.lines s t) × IsOn e.lines t
    × (selection_range e ≡ some (s, t))
    × (delete_selection_if_any e ≡ some (true, without s t e c))

pub delete_selection_if_any-cases :
    (e : Editor)
    → IsOn e.lines (cursor e)
    → AnchorOn e.lines e.select_anchor
    → ((delete_selection_if_any e ≡ some (false, e)) × (selection_range e ≡ none) × Unselected e)
      ⊎ Removed e
unfolding delete_selection_if_any delete_range
delete_selection_if_any-cases e on anchor = elim (selection_range-cases e) [
  | inl (empty, un) ↦ inl (rw (empty, delete_selection_if_any) refl, empty, un)
  | inr (s, t, found, le, ends) ↦
      let (a, b) = Ends-IsOn e.lines e.select_anchor (cursor e) s t anchor on ends in
      let c = IsOn-Cut e.lines s t a b le in
      inr (s, t, c, b, found, rw (found, delete_selection_if_any, c.cuts) refl)
]
