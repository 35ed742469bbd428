-- ===== src/Net/Jobs.antt =====
-- The network jobs of kernel/src/net.rs: starting one, feeding it a frame, and its deadline.
use hep_os.Prelude.{
  Bool, List, Option, [], add64, if◌then◌else◌, length, ltb, min, none, some, sub64, ℕ, ◌%◌, ◌*◌,
  ◌+◌, ◌-◌, ◌/◌, ◌==◌, ◌^◌, ◌∷◌,
}
use hep_os.HepFs.Bytes.{take}
use hep_os.HepFs.Utf8.{valid_utf8}
use hep_os.Net.{udp_segment, tcp_segment}
use hep_os.Net.Frames.{NetState, ip_send}
use hep_os.Net.Dns.{dns_query}

-- The texts that a job ends with, by the places that format them; a text that is no UTF-8 is `none`.
pub data Message : Type 0 where
  ping_answer : List ℕ → ℕ → Message
  unresolved : Message
  unreachable : Message
  refused : Message
  page : Option (List ℕ) → ℕ → Message
  datagram : List ℕ → ℕ → Option (List ℕ) → Message
  ping_timeout : List ℕ → Message
  resolve_timeout : List ℕ → Message
  wget_timeout : Message
  udp_timeout : Message

-- Readings of the time-stamp counter while a job is built: for its random part, and for its deadline;
-- `per_ms` is TSC_PER_MS.
pub record Clock : Type 0 where
  pub early : ℕ
  pub now : ℕ
  pub per_ms : ℕ

pub data NextAction : Type 0 where
  then_tcp : ℕ → List ℕ → NextAction
  then_udp : ℕ → List ℕ → NextAction

pub record TcpJob : Type 0 where
  pub ip : List ℕ
  pub port : ℕ
  pub src_port : ℕ
  pub seq : ℕ
  pub ack : ℕ
  pub state : ℕ
  pub rx : List ℕ
  pub req : List ℕ
  pub deadline : ℕ

pub record ResolveJob : Type 0 where
  pub hostname : List ℕ
  pub dns_ip : List ℕ
  pub src_port : ℕ
  pub txid : ℕ
  pub deadline : ℕ
  pub after_it : NextAction

pub data NetJob : Type 0 where
  ping : List ℕ → ℕ → ℕ → NetJob
  resolve : ResolveJob → NetJob
  tcp : TcpJob → NetJob
  udp : ℕ → ℕ → NetJob

-- The wait until a deadline: u64 sums and products, the latter saturating.
unfoldable pub tsc_deadline : Clock → ℕ → ℕ
tsc_deadline c ms = add64 c.now (min (c.per_ms * ms) (2 ^ 64 - 1))

unfoldable pub tsc_expired : ℕ → ℕ → Bool
tsc_expired now deadline = ltb (sub64 now deadline) ((2 ^ 64 - 1) / 2)

abbrev pub gw_mac : List ℕ
gw_mac = 0x52 ∷ 0x55 ∷ 0x0A ∷ 0 ∷ 2 ∷ 2 ∷ []

unfoldable pub next_src_port : NetState → ℕ × NetState
next_src_port s =
    let p = s.next_port in
    if p == 0
    then (49152, record s { next_port = 49153 })
    else (p, record s { next_port = (p + 1) % 2 ^ 16 })

unfoldable pub udp_send : List ℕ → List ℕ → ℕ → ℕ → List ℕ → NetState → NetState
unfolding ip_send udp_segment
udp_send dst_ip dst_mac src_port dst_port payload =
    ip_send dst_ip dst_mac 17 (udp_segment src_port dst_port payload)

-- tcp_send_seg to the job's peer, with the job's numbers.
unfoldable pub tcp_send : TcpJob → ℕ → List ℕ → NetState → NetState
unfolding ip_send tcp_segment
tcp_send j flags payload =
    ip_send j.ip gw_mac 6 (tcp_segment j.ip j.src_port j.port j.seq j.ack flags payload)

unfoldable pub build_resolve_job : Clock → List ℕ → NextAction → NetState → NetJob × NetState
unfolding udp_send dns_query tsc_deadline
build_resolve_job c hostname action s =
    let dns_ip : List ℕ = 10 ∷ 0 ∷ 2 ∷ 3 ∷ [] in
    let txid = c.early % 2 ^ 16 in
    (
      resolve (record {
        hostname = hostname;
        dns_ip = dns_ip;
        src_port = 53000;
        txid = txid;
        deadline = tsc_deadline c 2000;
        after_it = action;
      }),
      udp_send dns_ip gw_mac 53000 53 (dns_query txid hostname) s,
    )

-- `isn` is the counter as a u32 with bit 0 set.
unfoldable pub build_tcp_job : Clock → List ℕ → ℕ → List ℕ → NetState → NetJob × NetState
unfolding next_src_port tcp_send tsc_deadline
build_tcp_job c ip port req s =
    let r = next_src_port s in
    let isn = c.early % 2 ^ 32 / 2 * 2 + 1 in
    let j : TcpJob = record {
      ip = ip;
      port = port;
      src_port = r.0;
      seq = isn;
      ack = 0;
      state = 0;
      rx = [];
      req = req;
      deadline = tsc_deadline c 3000;
    } in
    (tcp j, tcp_send j 0x02 [] r.1)

unfoldable pub build_udp_job : Clock → List ℕ → ℕ → List ℕ → NetState → NetJob × NetState
unfolding udp_send tsc_deadline
build_udp_job c ip port msg s =
    let src_port = 51000 + c.early % 2 ^ 16 % 1000 in
    (udp src_port (tsc_deadline c 3000), udp_send ip gw_mac src_port port msg s)

unfoldable pub build_next : Clock → List ℕ → NextAction → NetState → NetJob × NetState
unfolding build_tcp_job build_udp_job
build_next c ip (then_tcp port req) = build_tcp_job c ip port req
build_next c ip (then_udp port msg) = build_udp_job c ip port msg

-- from_utf8
abbrev pub text_of : List ℕ → Option (List ℕ)
text_of bytes = if valid_utf8 bytes then some bytes else none

-- The text, and the number of bytes that the note on truncation names.
unfoldable pub format_wget_result : List ℕ → Message
unfolding valid_utf8
format_wget_result body =
    let limit = min (length body) 4096 in page (text_of (take limit body)) (length body - limit)
