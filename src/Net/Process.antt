-- ===== src/Net/Process.antt =====
-- What a frame does to the network job that runs: `process_frame` of kernel/src/net.rs.
use hep_os.Prelude.{
  Bool, List, Option, [], false, get_or, if◌then◌else◌, leb, length, ltb, min, none, not, some, ℕ,
  ◌%◌, ◌&&◌, ◌++◌, ◌+◌, ◌-◌, ◌/◌, ◌==◌, ◌^◌, ◌||◌,
}
use hep_os.HepFs.Bytes.{take, drop, slice}
use hep_os.HepFs.Dir.{same_bytes}
use hep_os.Net.{from_be16, my_ip, tcp_parse}
use hep_os.Net.Frames.{NetState, header_len, handle_frame}
use hep_os.Net.Dns.{parse_dns_answer}
use hep_os.Net.Jobs.{
  Message, ping_answer, unresolved, unreachable, refused, datagram, Clock, TcpJob, ResolveJob,
  NetJob, ping, resolve, tcp, udp, tcp_send, build_next, text_of, format_wget_result,
}

pub data JobOutcome : Type 0 where
  pending : NetJob → JobOutcome
  done : Message → JobOutcome
  replace : NetJob → JobOutcome

abbrev pub has_flag : ℕ → ℕ → Bool
has_flag bit flags = flags / 2 ^ bit % 2 == 1

-- The answer to SYN and ACK: an ACK, and the request.
unfoldable pub accept_syn : ℕ → TcpJob → NetState → JobOutcome × NetState
unfolding tcp_send
accept_syn seg_seq j s =
    let j' = record j { seq = (j.seq + 1) % 2 ^ 32; ack = (seg_seq + 1) % 2 ^ 32 } in
    (
      pending (tcp (record j' { seq = (j'.seq + length j.req) % 2 ^ 32; state = 1 })),
      tcp_send j' 0x18 j.req (tcp_send j' 0x10 [] s),
    )

unfoldable pub tcp_connect : ℕ → ℕ → TcpJob → NetState → JobOutcome × NetState
unfolding accept_syn
tcp_connect seg_seq flags j s =
    if has_flag 1 flags && has_flag 4 flags then accept_syn seg_seq j s else (pending (tcp j), s)

-- A segment with data: the data is kept and acknowledged.
unfoldable pub accept_data : ℕ → List ℕ → TcpJob → NetState → TcpJob × NetState
unfolding tcp_send
accept_data seg_seq payload j s =
    let j' = record j { rx = j.rx ++ payload; ack = (seg_seq + length payload) % 2 ^ 32 } in
    (j', tcp_send j' 0x10 [] s)

unfoldable pub tcp_data : ℕ → List ℕ → TcpJob → NetState → TcpJob × NetState
unfolding accept_data
tcp_data seg_seq payload j s =
    if length payload == 0 then (j, s) else accept_data seg_seq payload j s

-- The answer to FIN.
unfoldable pub accept_fin : TcpJob → NetState → JobOutcome × NetState
unfolding tcp_send format_wget_result
accept_fin j s =
    (done (format_wget_result j.rx), tcp_send (record j { ack = (j.ack + 1) % 2 ^ 32 }) 0x11 [] s)

unfoldable pub tcp_receive : ℕ → ℕ → List ℕ → TcpJob → NetState → JobOutcome × NetState
unfolding tcp_data accept_fin
tcp_receive seg_seq flags payload j s =
    let r = tcp_data seg_seq payload j s in
    if has_flag 0 flags then accept_fin r.0 r.1 else (pending (tcp r.0), r.1)

-- From the test of RST on.
unfoldable pub tcp_step : ℕ → ℕ → List ℕ → TcpJob → NetState → JobOutcome × NetState
unfolding tcp_connect tcp_receive
tcp_step seg_seq flags payload j s =
    if has_flag 2 flags
    then (done refused, s)
    else if j.state == 0
    then tcp_connect seg_seq flags j s
    else if j.state == 1
    then tcp_receive seg_seq flags payload j s
    else (pending (tcp j), s)

-- A TCP packet of the job's peer: the IP header's total length cuts off the padding of the frame.
unfoldable pub tcp_packet : List ℕ → TcpJob → NetState → JobOutcome × NetState
unfolding slice tcp_parse tcp_step
tcp_packet hdr j s =
    let total = from_be16 (get_or hdr 2 0) (get_or hdr 3 0) in
    let body = take (min total (length hdr)) hdr in
    if not (same_bytes (slice 12 4 hdr) j.ip && same_bytes (slice 16 4 hdr) my_ip)
    then (pending (tcp j), s)
    else if ltb (length body) (header_len hdr)
    then (pending (tcp j), s)
    else elim (tcp_parse (drop (header_len hdr) body)) [
      | none ↦ (pending (tcp j), s)
      | some (sp, dp, seg_seq, flags, payload) ↦
          if sp == j.port && dp == j.src_port
          then tcp_step seg_seq flags payload j s
          else (pending (tcp j), s)
    ]

unfoldable pub process_tcp : List ℕ → TcpJob → NetState → JobOutcome × NetState
unfolding tcp_packet
process_tcp hdr j s =
    if get_or hdr 9 0 == 1
    then if ltb (header_len hdr) (length hdr) && get_or hdr (header_len hdr) 0 == 3
      then (done unreachable, s)
      else (pending (tcp j), s)
    else if get_or hdr 9 0 == 6
    then tcp_packet hdr j s
    else (pending (tcp j), s)

-- What follows when the DNS answer is for the job.
unfoldable pub resolve_answer : Clock → List ℕ → ResolveJob → NetState → JobOutcome × NetState
unfolding parse_dns_answer build_next
resolve_answer c dns j s = elim (parse_dns_answer dns) [
  | none ↦ (done unresolved, s)
  | some ip ↦ let r = build_next c ip j.after_it s in (replace r.0, r.1)
]

-- Whether a packet carries a DNS response to the job's question.
unfoldable pub is_answer : List ℕ → ResolveJob → Bool
unfolding slice
is_answer hdr j =
    let udp_part = drop (header_len hdr) hdr in
    let dns = drop 8 udp_part in
    get_or hdr 9 0 == 17
    && same_bytes (slice 12 4 hdr) j.dns_ip
    && leb (header_len hdr + 8) (length hdr)
    && from_be16 (get_or udp_part 0 0) (get_or udp_part 1 0) == 53
    && from_be16 (get_or udp_part 2 0) (get_or udp_part 3 0) == j.src_port
    && leb 12 (length dns)
    && from_be16 (get_or dns 0 0) (get_or dns 1 0) == j.txid
    && leb 0x80 (get_or dns 2 0)

unfoldable pub process_resolve : Clock → List ℕ → ResolveJob → NetState → JobOutcome × NetState
unfolding is_answer resolve_answer
process_resolve c hdr j s =
    if is_answer hdr j
    then resolve_answer c (drop 8 (drop (header_len hdr) hdr)) j s
    else (pending (resolve j), s)

unfoldable pub process_udp : List ℕ → ℕ → ℕ → NetState → JobOutcome × NetState
unfolding slice
process_udp hdr src_port deadline s =
    let udp_part = drop (header_len hdr) hdr in
    let ulen = from_be16 (get_or udp_part 4 0) (get_or udp_part 5 0) in
    if get_or hdr 9 0 == 17
      && leb (header_len hdr + 8) (length hdr)
      && from_be16 (get_or udp_part 2 0) (get_or udp_part 3 0) == src_port
      && leb 8 ulen
      && leb ulen (length udp_part)
    then (
      done (
          datagram (slice 12 4 hdr) (from_be16 (get_or udp_part 0 0) (get_or udp_part 1 0))
            (text_of (slice 8 (ulen - 8) udp_part))),
      s,
    )
    else (pending (udp src_port deadline), s)

abbrev pub is_reply : Option ℕ → ℕ → Bool
is_reply none seq = false
is_reply (some got) seq = got == seq

-- A frame for a ping goes the way of every frame; `none` is a panic there.
unfoldable pub process_ping : List ℕ → List ℕ → ℕ → ℕ → NetState → Option (JobOutcome × NetState)
unfolding handle_frame
process_ping frame target seq deadline s = elim (handle_frame frame s) [
  | none ↦ none
  | some s' ↦ some (
      if is_reply s'.ping_reply seq
      then (done (ping_answer target seq), s')
      else (pending (ping target seq deadline), s'))
]

-- The match on the job, for an IP packet in a frame.
unfoldable pub process_packet : Clock → List ℕ → NetJob → NetState → Option (JobOutcome × NetState)
unfolding process_ping process_resolve process_tcp process_udp
process_packet c frame (ping target seq deadline) s = process_ping frame target seq deadline s
process_packet c frame (resolve j) s = some (process_resolve c (drop 14 frame) j s)
process_packet c frame (tcp j) s = some (process_tcp (drop 14 frame) j s)
process_packet c frame (udp src_port deadline) s =
    some (process_udp (drop 14 frame) src_port deadline s)

unfoldable pub process_frame : Clock → List ℕ → NetJob → NetState → Option (JobOutcome × NetState)
unfolding process_packet
process_frame c frame job s =
    let etype = from_be16 (get_or frame 12 0) (get_or frame 13 0) in
    if ltb (length frame) 34 || not (etype == 0x0800)
    then some (pending job, s)
    else process_packet c frame job s
