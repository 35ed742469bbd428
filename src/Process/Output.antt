-- ===== src/Process/Output.antt =====
-- What proc_write and take_proc_output of kernel/src/process.rs do to each other.
use hep_os.Prelude.{
  Bool-cases, List, [], ap, append_nil, arith, false, if◌then◌else◌, inl, inr, refl, sym, true, ℕ,
  ◌++◌, ◌==◌, ◌∷◌, ◌≡◌,
}
use hep_os.Process.{Outputs, proc_write, take_proc_output}

-- What is taken for `j` after a write for `i` is what was to be taken for `j` before, with the written
-- bytes at its end if `j` is `i`; and taking the output of `i` leaves what it would have left before
-- the write.
pub proc_write_lem :
    (i j : ℕ) (bytes : List ℕ) (out : Outputs)
    → ((take_proc_output j (proc_write i bytes out)).0
        ≡ (take_proc_output j out).0 ++ (if i == j then bytes else []))
      × ((take_proc_output i (proc_write i bytes out)).1 ≡ (take_proc_output i out).1)
unfolding proc_write take_proc_output
proc_write_lem i j bytes [] = ground arith
proc_write_lem i j bytes ((k, buf) ∷ out) =
    let ih = proc_write_lem i j bytes out in
    elim (Bool-cases (k == i)) [
      | inl same ↦ elim (Bool-cases (k == j)) [
        | inl own ↦
            let mine : (i == j) ≡ true = ground arith in rw (same, own, mine) (refl, rw same refl)
        | inr other ↦
            let theirs : (i == j) ≡ false = ground arith in
            rw (same, other, theirs) (sym (append_nil (take_proc_output j out).0), rw same refl)
      ]
      | inr apart ↦ elim (Bool-cases (k == j)) [
        | inl own ↦
            let theirs : (i == j) ≡ false = ground arith in
            rw (apart, own, theirs) (sym (append_nil buf), rw apart (ap (λ t. (k, buf) ∷ t) ih.1))
        | inr other ↦ rw (apart, other) (ih.0, rw apart (ap (λ t. (k, buf) ∷ t) ih.1))
      ]
    ]
