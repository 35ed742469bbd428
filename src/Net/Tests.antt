-- ===== src/Net/Tests.antt =====
-- Frames, a page and a name on the network of kernel/src/net.rs.
use hep_os.Prelude.{List, [], arith, none, refl, replicate, some, true, ℕ, ◌++◌, ◌∷◌, ◌≡◌}
use hep_os.Net.Frames.{
  NetState, ip_send, with_checksum, echo_request, echo_reply, handle_icmp, handle_ip, handle_frame,
}
use hep_os.Net.Echo.{is_panic, is_short_echo, handle_frame-is_panic, handle_icmp-echo_reply}
use hep_os.Net.{my_ip}
use hep_os.Net.Jobs.{TcpJob, gw_mac, format_wget_result}
use hep_os.Net.Process.{done}
use hep_os.Net.Stream.{tcp_run, tcp_run_lem}
use hep_os.Net.Dns.{split_on, parse_ip, parse_dns_answer}
use hep_os.Net.Answer.{dns_response, parse_dns_answer-dns_response}

abbrev quiet_net : NetState
quiet_net = record {
  mac = replicate 6 2;
  has_nic = true;
  sent = [];
  ping_seq = 7;
  ping_reply = none;
  next_port = 49152;
}

-- An echo request of one byte, behind two headers.
abbrev short_frame : List ℕ
short_frame =
    replicate 12 1
    ++ (8 ∷ 0 ∷ 0x45 ∷ 0 ∷ 0 ∷ 21 ∷ 0 ∷ 0 ∷ 0 ∷ 0 ∷ 64 ∷ 1 ∷ 0 ∷ 0 ∷ 10 ∷ 0 ∷ 2 ∷ 2 ∷ 10 ∷ 0 ∷ 2
        ∷ 15 ∷ 8 ∷ [])

short_frame_panics : handle_frame short_frame quiet_net ≡ none
unfolding handle_frame handle_ip handle_icmp echo_reply
short_frame_panics = refl

address :
    parse_ip (49 ∷ 48 ∷ 46 ∷ 48 ∷ 46 ∷ 50 ∷ 46 ∷ 50 ∷ 53 ∷ 53 ∷ []) ≡ some (10 ∷ 0 ∷ 2 ∷ 255 ∷ [])
unfolding parse_ip
address = refl

handle_frame-is_panic_example :
    is_panic (handle_frame short_frame quiet_net) ≡ is_short_echo short_frame
handle_frame-is_panic_example = handle_frame-is_panic short_frame quiet_net

abbrev other_net : NetState
other_net = record quiet_net { mac = gw_mac }

handle_icmp-echo_reply_example :
    (rep : List ℕ) × (handle_icmp my_ip (replicate 6 2) (with_checksum (echo_request 7)) other_net
      ≡ some (ip_send my_ip (replicate 6 2) 1 rep other_net))
    × (handle_icmp (10 ∷ 0 ∷ 2 ∷ 2 ∷ []) gw_mac rep quiet_net
        ≡ some (record quiet_net { ping_reply = some 7 }))
handle_icmp-echo_reply_example =
    handle_icmp-echo_reply 7 my_ip (replicate 6 2) (10 ∷ 0 ∷ 2 ∷ 2 ∷ []) gw_mac quiet_net other_net
      (omega arith)

abbrev open_job : TcpJob
open_job = record {
  ip = 10 ∷ 0 ∷ 2 ∷ 2 ∷ [];
  port = 80;
  src_port = 49152;
  seq = 100;
  ack = 5;
  state = 1;
  rx = [];
  req = [];
  deadline = 0;
}

-- "h" and "i", and then FIN with "!".
tcp_run_lem_example :
    (tcp_run
      ((5, 0x18, b'h' ∷ []) ∷ ((6, 0x18, b'i' ∷ []) ∷ ((7, 0x11, b'!' ∷ []) ∷ [])))
      open_job
      quiet_net).0
    ≡ done (format_wget_result (b'h' ∷ b'i' ∷ b'!' ∷ []))
tcp_run_lem_example =
    tcp_run_lem ((5, 0x18, b'h' ∷ []) ∷ ((6, 0x18, b'i' ∷ []) ∷ [])) 7 0x11 (b'!' ∷ []) open_job
      quiet_net refl (refl, refl, (refl, refl, tt)) refl refl

-- "ab.c"
parse_dns_answer-dns_response_example :
    parse_dns_answer
      (dns_response 0x1234 (97 ∷ 98 ∷ 46 ∷ 99 ∷ []) (0 ∷ 0 ∷ 1 ∷ 0 ∷ []) (93 ∷ 184 ∷ 216 ∷ 34 ∷ []))
    ≡ some (93 ∷ 184 ∷ 216 ∷ 34 ∷ [])
unfolding split_on
parse_dns_answer-dns_response_example =
    parse_dns_answer-dns_response 0x1234 (97 ∷ 98 ∷ 46 ∷ 99 ∷ []) 0 0 1 0 93 184 216 34
      (omega arith)
