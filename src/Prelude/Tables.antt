-- ===== src/Prelude/Tables.antt =====
-- Facts on all the numbers below a bound, checked by evaluation.
use Prim.Native.Nat.{ℕ, zero, suc, ◌<◌}
use mathlib.Core.Path.{◌≡◌}
use mathlib.Core.Logic.{inl, inr}
use mathlib.Core.Bool.{Bool, true, false, ◌&&◌}
use native.Mathlib.Omega.{arith}
use hep_os.Prelude.Tests.{Bool-cases, ==_iff, ◌==◌}

pub &&-split : (a b : Bool) → a && b ≡ true → (a ≡ true) × (b ≡ true)
&&-split a b h = ground arith

unfoldable pub holds_to : (ℕ → Bool) → ℕ → Bool
holds_to test zero = true
holds_to test (suc m) = holds_to test m && test m

pub holds_to-lt :
    (test : ℕ → Bool) (bound : ℕ) → holds_to test bound ≡ true → (i : ℕ) → i < bound → test i ≡ true
unfolding holds_to
holds_to-lt test zero h i lt = absurd (omega arith)
holds_to-lt test (suc m) h i lt = elim (Bool-cases (i == m)) [
  | inl last ↦ rw ((==_iff i m).0 last) (&&-split (holds_to test m) (test m) h).1
  | inr below ↦ holds_to-lt test m (&&-split (holds_to test m) (test m) h).0 i (ground arith)
]

abbrev pub agree : Bool → Bool → Bool
agree true b = b
agree false true = false
agree false false = true

pub agree-≡ : (a b : Bool) → agree a b ≡ true → a ≡ b
agree-≡ a b h = ground arith
