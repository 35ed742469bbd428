-- ===== src/Net/Stream.antt =====
-- The page that a TCP job of kernel/src/net.rs collects.
use hep_os.Prelude.{
  List, [], ap, append_nil, arith, false, length, refl, suc, sym, true, ℕ, ◌++◌, ◌==◌, ◌∙◌, ◌∷◌,
  ◌≡◌,
}
use hep_os.HepFs.Slices.{append_assoc}
use hep_os.Net.Frames.{NetState}
use hep_os.Net.Jobs.{Message, TcpJob, tcp, format_wget_result}
use hep_os.Net.Process.{
  JobOutcome, pending, done, replace, has_flag, accept_data, tcp_data, accept_fin, tcp_receive,
  tcp_step,
}

-- A segment as `tcp_step` takes it: its sequence number, its flags and its data.
abbrev pub Segment : Type 0
Segment = ℕ × ℕ × List ℕ

abbrev pub carry_on :
    (TcpJob → NetState → JobOutcome × NetState) → JobOutcome × NetState → JobOutcome × NetState
carry_on rest (pending (tcp j), s) = rest j s
carry_on rest r = r

-- The segments of a connection, one after the other, until the job ends.
unfoldable pub tcp_run : List Segment → TcpJob → NetState → JobOutcome × NetState
tcp_run [] j s = (pending (tcp j), s)
tcp_run ((seq, flags, payload) ∷ segs) j s =
    carry_on (tcp_run segs) (tcp_step seq flags payload j s)

-- Segments with neither RST nor FIN.
abbrev pub ArePlain : List Segment → Type 0
ArePlain [] = Unit
ArePlain ((seq, flags, payload) ∷ segs) =
    (has_flag 2 flags ≡ false) × (has_flag 0 flags ≡ false) × ArePlain segs

abbrev pub payloads : List Segment → List ℕ
payloads [] = []
payloads ((seq, flags, payload) ∷ segs) = payload ++ payloads segs

tcp_data-rx :
    (seq : ℕ) (payload : List ℕ) (j : TcpJob) (s : NetState)
    → ((tcp_data seq payload j s).0.rx ≡ j.rx ++ payload)
      × ((tcp_data seq payload j s).0.state ≡ j.state)
unfolding tcp_data accept_data
tcp_data-rx seq [] j s = (sym (append_nil j.rx), refl)
tcp_data-rx seq (b ∷ bs) j s =
    let t : (suc (length bs) == 0) ≡ false = ground arith in rw t (refl, refl)

-- An established job keeps the data of a plain segment.
tcp_step-plain :
    (seq flags : ℕ) (payload : List ℕ) (j : TcpJob) (s : NetState)
    → j.state ≡ 1
    → has_flag 2 flags ≡ false
    → has_flag 0 flags ≡ false
    → tcp_step seq flags payload j s
      ≡ (pending (tcp (tcp_data seq payload j s).0), (tcp_data seq payload j s).1)
unfolding tcp_step tcp_receive
tcp_step-plain seq flags payload j s st rst fin =
    let a : (j.state == 0) ≡ false = ground (arith, st) in
    let b : (j.state == 1) ≡ true = ground (arith, st) in rw (rst, a, b, fin) refl

-- FIN ends it with the page.
tcp_step-fin :
    (seq flags : ℕ) (payload : List ℕ) (j : TcpJob) (s : NetState)
    → j.state ≡ 1
    → has_flag 2 flags ≡ false
    → has_flag 0 flags ≡ true
    → (tcp_step seq flags payload j s).0 ≡ done (format_wget_result (j.rx ++ payload))
unfolding tcp_step tcp_receive accept_fin
tcp_step-fin seq flags payload j s st rst fin =
    let a : (j.state == 0) ≡ false = ground (arith, st) in
    let b : (j.state == 1) ≡ true = ground (arith, st) in
    rw (rst, a, b, fin) (ap (λ t. done (format_wget_result t)) (tcp_data-rx seq payload j s).0)

carry_on-done :
    (rest : TcpJob → NetState → JobOutcome × NetState) (r : JobOutcome × NetState) (m : Message)
    → r.0 ≡ done m
    → (carry_on rest r).0 ≡ done m
carry_on-done rest (done m', s) m h = h
carry_on-done rest (pending job, s) m h = absurd (cc)
carry_on-done rest (replace job, s) m h = absurd (cc)

-- An established job that takes in segments with neither RST nor FIN, and then one with FIN and without
-- RST, ends with the page of their data in the order of arrival.
pub tcp_run_lem :
    (segs : List Segment) (seq flags : ℕ) (payload : List ℕ) (j : TcpJob) (s : NetState)
    → j.state ≡ 1
    → ArePlain segs
    → has_flag 2 flags ≡ false
    → has_flag 0 flags ≡ true
    → (tcp_run (segs ++ ((seq, flags, payload) ∷ [])) j s).0
      ≡ done (format_wget_result (j.rx ++ (payloads segs ++ payload)))
unfolding tcp_run
tcp_run_lem [] seq flags payload j s st plain rst fin =
    carry_on-done (tcp_run []) (tcp_step seq flags payload j s)
      (format_wget_result (j.rx ++ payload)) (tcp_step-fin seq flags payload j s st rst fin)
tcp_run_lem ((q, f, p) ∷ segs) seq flags payload j s st (no_rst, no_fin, plain) rst fin =
    let r = tcp_data q p j s in
    let kept = tcp_data-rx q p j s in
    rw (tcp_step-plain q f p j s st no_rst no_fin) (
      tcp_run_lem segs seq flags payload r.0 r.1 (kept.1 ∙ st) plain rst fin
      ∙ ap (λ t. done (format_wget_result t))
          (ap (λ t. t ++ (payloads segs ++ payload)) kept.0
            ∙ append_assoc j.rx p (payloads segs ++ payload)
            ∙ ap (λ t. j.rx ++ t) (sym (append_assoc p (payloads segs) payload))))
