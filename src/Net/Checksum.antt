-- ===== src/Net/Checksum.antt =====
-- The folding of carries in `ip_checksum` (kernel/src/net.rs).
use hep_os.Prelude.{Bool-cases, arith, inl, inr, refl, ℕ, ◌%◌, ◌+◌, ◌-◌, ◌/◌, ◌<◌, ◌==◌, ◌^◌, ◌≡◌}
use hep_os.Net.{fold_carry}

-- Two rounds of folding bring every u32 below 2 ^ 16, and keep the sum mod 2 ^ 16 - 1.
pub fold_carry_lem :
    (sum : ℕ)
    → sum < 2 ^ 32
    → (fold_carry 2 sum < 2 ^ 16) × (fold_carry 2 sum % (2 ^ 16 - 1) ≡ sum % (2 ^ 16 - 1))
unfolding fold_carry
fold_carry_lem sum h = elim (Bool-cases (sum / 2 ^ 16 == 0)) [
  | inl done ↦ rw done (ground arith, refl)
  | inr more ↦
      let once = sum % 2 ^ 16 + sum / 2 ^ 16 in
      rw more (elim (Bool-cases (once / 2 ^ 16 == 0)) [
        | inl done ↦ rw done (ground arith, omega arith)
        | inr again ↦ rw again (ground arith, omega arith)
      ])
]
