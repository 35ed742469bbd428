-- ===== src/Net/Poll.antt =====
-- NET_JOB of kernel/src/net.rs: starting a job, and polling it.
use hep_os.Prelude.{Bool, List, Option, [], false, if◌then◌else◌, none, not, some, true, ℕ, ◌∷◌}
use hep_os.Net.Frames.{NetState, ping_send}
use hep_os.Net.Dns.{parse_ip}
use hep_os.Net.Jobs.{
  Message, ping_timeout, resolve_timeout, wget_timeout, udp_timeout, Clock, NextAction, NetJob,
  ping, resolve, tcp, udp, tsc_deadline, tsc_expired, gw_mac, build_resolve_job, build_next,
}
use hep_os.Net.Process.{JobOutcome, pending, done, replace, process_frame}

-- NET_JOB with the window that issued the job, and the rest of the state.
pub record JobState : Type 0 where
  pub job : Option (ℕ × NetJob)
  pub net : NetState

unfoldable pub job_deadline : NetJob → ℕ
job_deadline (ping target seq deadline) = deadline
job_deadline (resolve j) = j.deadline
job_deadline (tcp j) = j.deadline
job_deadline (udp src_port deadline) = deadline

unfoldable pub timeout_message : NetJob → Message
timeout_message (ping target seq deadline) = ping_timeout target
timeout_message (resolve j) = resolve_timeout j.hostname
timeout_message (tcp j) = wget_timeout
timeout_message (udp src_port deadline) = udp_timeout

abbrev pub Result : Type 0
Result = Option (ℕ × Message)

-- The check of the deadline, at the counter's value `now`.
unfoldable pub check_deadline : ℕ → JobState → Result × JobState
unfolding tsc_expired job_deadline timeout_message
check_deadline now st = elim st.job [
  | none ↦ (none, st)
  | some (issuer, job) ↦
      if tsc_expired now (job_deadline job)
      then (some (issuer, timeout_message job), record st { job = none })
      else (none, st)
]

abbrev pub apply : ℕ → JobOutcome → NetState → Result × JobState
apply issuer (pending job) s = (none, record { job = some (issuer, job); net = s })
apply issuer (done msg) s = (some (issuer, msg), record { job = none; net = s })
apply issuer (replace job) s = (none, record { job = some (issuer, job); net = s })

-- The frames that wait in the card, each with the counter's readings when it is taken out, and what
-- is left of them; a result ends the loop, and so does the end of the frames.
unfoldable pub poll :
    ℕ → List (Clock × List ℕ) → JobState → Option (Result × List (Clock × List ℕ) × JobState)
unfolding process_frame check_deadline
poll now [] st = let r = check_deadline now st in some (r.0, [], r.1)
poll now ((c, frame) ∷ frames) st = elim st.job [
  | none ↦ some (none, (c, frame) ∷ frames, st)
  | some (issuer, job) ↦ elim (process_frame c frame job st.net) [
    | none ↦ none
    | some (outcome, s) ↦
        let r = apply issuer outcome s in
        let rest = poll now frames r.1 in
        elim r.0 [ some result ↦ some (some result, frames, r.1) | none ↦ rest ]
  ]
]

abbrev pub is_idle : JobState → Bool
is_idle st = elim st.job [ none ↦ true | some job ↦ false ]

-- The errors of the functions that start a job.
pub data StartError : Type 0 where
  busy : StartError
  no_nic : StartError

abbrev pub put_job : ℕ → NetJob × NetState → Option StartError × JobState
put_job issuer r = (none, record { job = some (issuer, r.0); net = r.1 })

unfoldable pub start_ping : Clock → ℕ → List ℕ → JobState → Option StartError × JobState
unfolding ping_send tsc_deadline
start_ping c issuer target st =
    let r = ping_send target gw_mac (record (st.net) { ping_reply = none }) in
    if not (is_idle st)
    then (some busy, st)
    else if not st.net.has_nic
    then (some no_nic, st)
    else put_job issuer (ping target r.0 (tsc_deadline c 250), r.1)

-- start_wget and start_udp_cmd, once the request is formatted: the job itself where the host is an
-- address, else the job that resolves it first.
unfoldable pub start_job : Clock → ℕ → List ℕ → NextAction → JobState → Option StartError × JobState
unfolding parse_ip build_next build_resolve_job
start_job c issuer host action st =
    if not (is_idle st) then (some busy, st) else elim (parse_ip host) [
      | some ip ↦ put_job issuer (build_next c ip action st.net)
      | none ↦ put_job issuer (build_resolve_job c host action st.net)
    ]
