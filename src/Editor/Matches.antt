-- ===== src/Editor/Matches.antt =====
-- The matches that kernel/src/editor.rs finds are the places of the text where the query stands.
use hep_os.Prelude.{
  Bool, List, [], ap, arith, false, get_or, if◌then◌else◌, leb, length, ltb, refl, suc, true, zero,
  ℕ, ◌&&◌, ◌++◌, ◌+◌, ◌<◌, ◌==◌, ◌||◌, ◌∙◌, ◌∷◌, ◌≡◌,
}
use hep_os.HepFs.Bytes.{take, drop}
use hep_os.HepFs.Dir.{same_bytes}
use hep_os.Editor.Buffer.{Editor}
use hep_os.Editor.Zip.{IsOn}
use hep_os.HepFs.File.{is_empty}
use hep_os.Editor.Find.{find_in_line, find_in_lines, find_all}
use hep_os.Editor.Select.{same_pos}

-- Whether the query stands in the line from column `k` on.
unfoldable pub stands : List ℕ → List ℕ → ℕ → Bool
stands query l k =
    leb (k + length query) (length l) && same_bytes (take (length query) (drop k l)) query

-- Whether the query stands at a position of the text.
unfoldable pub occurs : List ℕ → List (List ℕ) → ℕ × ℕ → Bool
unfolding stands
occurs query ls p = ltb p.0 (length ls) && stands query (get_or ls p.0 []) p.1

-- Whether a position is listed.
abbrev pub lists : List (ℕ × ℕ) → ℕ × ℕ → Bool
lists [] p = false
lists (m ∷ ms) p = same_pos m p || lists ms p

lists-append : (xs ys : List (ℕ × ℕ)) (p : ℕ × ℕ) → lists (xs ++ ys) p ≡ (lists xs p || lists ys p)
lists-append [] ys p = refl
lists-append (x ∷ xs) ys p = ground (arith, lists-append xs ys p)

pub lists-get_or :
    (ms : List (ℕ × ℕ)) (i : ℕ) → i < length ms → lists ms (get_or ms i (0, 0)) ≡ true
lists-get_or [] i h = absurd (omega arith)
lists-get_or (m ∷ ms) zero h = ground arith
lists-get_or (m ∷ ms) (suc i) h = ground (arith, lists-get_or ms i)

stands-suc :
    (query : List ℕ) (b : ℕ) (l : List ℕ) (k : ℕ) → stands query (b ∷ l) (suc k) ≡ stands query l k
unfolding stands
stands-suc query b l k = ground arith

stands-zero :
    (query : List ℕ) (l : List ℕ)
    → stands query l 0 ≡ (leb (length query) (length l) && same_bytes (take (length query) l) query)
unfolding stands
stands-zero query l = ground arith

-- No match is listed before the column where the search starts.
lists-early :
    (query : List ℕ) (r c : ℕ) (l : List ℕ) (row k : ℕ)
    → k < c
    → lists (find_in_line query r c l) (row, k) ≡ false
unfolding find_in_line
lists-early query r c [] row k h = refl
lists-early query r c (b ∷ l) row k h =
    ground (arith, lists-early query r (c + 1) l row k (omega arith))

lists-find_in_line :
    (query : List ℕ) (r c : ℕ) (l : List ℕ) (row k : ℕ)
    → 0 < length query
    → lists (find_in_line query r c l) (row, c + k) ≡ (row == r && stands query l k)
unfolding find_in_line
lists-find_in_line query r c [] row k h = unfold stands in ground arith
lists-find_in_line query r c (b ∷ l) row zero h =
    ground
      (arith, stands-zero query (b ∷ l), lists-early query r (c + 1) l row (c + 0) (omega arith))
lists-find_in_line query r c (b ∷ l) row (suc k) h =
    let e : c + suc k ≡ (c + 1) + k = omega arith in
    ground (arith, e, stands-suc query b l k, lists-find_in_line query r (c + 1) l row k h)

lists-whole_line :
    (query : List ℕ) (r : ℕ) (l : List ℕ) (row k : ℕ)
    → 0 < length query
    → lists (find_in_line query r 0 l) (row, k) ≡ (row == r && stands query l k)
lists-whole_line query r l row k h =
    ap (λ n. lists (find_in_line query r 0 l) (row, n)) {x = k} {y = 0 + k} (omega arith)
    ∙ lists-find_in_line query r 0 l row k h

-- No match is listed above the row where the search starts.
lists-above :
    (query : List ℕ) (r : ℕ) (ls : List (List ℕ)) (row k : ℕ)
    → 0 < length query
    → row < r
    → lists (find_in_lines query r ls) (row, k) ≡ false
unfolding find_in_lines
lists-above query r [] row k h lt = refl
lists-above query r (l ∷ ls) row k h lt = ground (
  arith,
  lists-append (find_in_line query r 0 l) (find_in_lines query (r + 1) ls) (row, k),
  lists-whole_line query r l row k h,
  lists-above query (r + 1) ls row k h (omega arith),
)

lists-find_in_lines :
    (query : List ℕ) (r : ℕ) (ls : List (List ℕ)) (row k : ℕ)
    → 0 < length query
    → lists (find_in_lines query r ls) (r + row, k) ≡ occurs query ls (row, k)
unfolding find_in_lines occurs
lists-find_in_lines query r [] row k h = ground arith
lists-find_in_lines query r (l ∷ ls) zero k h = ground (
  arith,
  lists-append (find_in_line query r 0 l) (find_in_lines query (r + 1) ls) (r + 0, k),
  lists-whole_line query r l (r + 0) k h,
  lists-above query (r + 1) ls (r + 0) k h (omega arith),
)
lists-find_in_lines query r (l ∷ ls) (suc row) k h =
    let e : r + suc row ≡ (r + 1) + row = omega arith in
    ground (
      arith,
      e,
      lists-append (find_in_line query r 0 l) (find_in_lines query (r + 1) ls) (r + suc row, k),
      lists-whole_line query r l (r + suc row) k h,
      lists-find_in_lines query (r + 1) ls row k h,
    )

-- The matches of a query that is not empty are the positions of the text where it stands; an empty
-- query has none.
pub find_all_lem :
    (e : Editor) (p : ℕ × ℕ)
    → lists (find_all e).find_matches p
      ≡ (ltb 0 (length e.find_query) && occurs e.find_query e.lines p)
unfolding find_all
find_all_lem e (row, k) =
    elim e.find_query
      as (λ q.
        lists (if is_empty q then [] else find_in_lines q 0 e.lines) (row, k)
        ≡ (ltb 0 (length q) && occurs q e.lines (row, k))) [
          | [] ↦ refl
          | b ∷ q ↦
              ap (λ n. lists (find_in_lines (b ∷ q) 0 e.lines) (n, k)) {x = row} {y = 0 + row}
                (omega arith)
              ∙ lists-find_in_lines (b ∷ q) 0 e.lines row k (omega arith)
              ∙ (let t : occurs (b ∷ q) e.lines (row, k)
                      ≡ (ltb 0 (suc (length q)) && occurs (b ∷ q) e.lines (row, k)) =
                    ground arith in
                  t)
        ]

-- So each match is on the text.
pub occurs-IsOn :
    (query : List ℕ) (ls : List (List ℕ)) (p : ℕ × ℕ) → occurs query ls p ≡ true → IsOn ls p
unfolding occurs stands
occurs-IsOn query ls p h = ground (arith, h)
