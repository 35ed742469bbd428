-- ===== src/Editor/Vec.antt =====
-- What kernel/src/editor.rs and kernel/src/process.rs use of `Vec`: each function is `none` where the
-- method of that name panics.
use hep_os.Prelude.{
  Bool, List, Option, [], false, if◌then◌else◌, leb, length, none, some, suc, true, zero, ℕ, ◌&&◌,
  ◌++◌, ◌∷◌,
}
use hep_os.HepFs.Bytes.{take, drop}

infixl 5 ◌>>=◌
abbrev pub ◌>>=◌ : {A : Type 0} {B : Type 0} → Option A → (A → Option B) → Option B
none >>= rest = none
some a >>= rest = rest a

-- A condition that ends a block of such steps.
abbrev pub choose : {A : Type 0} → Bool → Option A → Option A → Option A
choose true x y = x
choose false x y = y

module _ {A : Type 0} where
  -- The elements before `at`, and those from it on.
  abbrev pub split_off : ℕ → List A → Option (List A × List A)
  split_off zero xs = some ([], xs)
  split_off (suc at) [] = none
  split_off (suc at) (x ∷ xs) = split_off at xs >>= λ p. some (x ∷ p.0, p.1)

  abbrev pub vec_insert : ℕ → A → List A → Option (List A)
  vec_insert at v xs = split_off at xs >>= λ p. some (p.0 ++ (v ∷ p.1))

  -- The element taken out, and the others.
  abbrev pub vec_remove : ℕ → List A → Option (A × List A)
  vec_remove at [] = none
  vec_remove zero (x ∷ xs) = some (x, xs)
  vec_remove (suc at) (x ∷ xs) = vec_remove at xs >>= λ p. some (p.0, x ∷ p.1)

  -- xs[lo..hi]
  abbrev pub vec_slice : ℕ → ℕ → List A → Option (List A)
  vec_slice lo hi xs = if leb lo hi && leb hi (length xs) then some (drop lo (take hi xs)) else none

  -- xs.drain(lo..hi): what stays.
  abbrev pub drain : ℕ → ℕ → List A → Option (List A)
  drain lo hi xs = if leb lo hi && leb hi (length xs) then some (take lo xs ++ drop hi xs) else none
