-- ===== src/Net/Segments.antt =====
-- What `tcp_parse` reads of a segment that `tcp_send_seg` built (kernel/src/net.rs).
mod Tests
use hep_os.Prelude.{List, arith, false, length, ltb, some, ℕ, ◌%◌, ◌*◌, ◌+◌, ◌/◌, ◌<◌, ◌^◌, ◌≡◌}
use hep_os.HepFs.Bytes.{drop, splice}
use hep_os.Net.{tcp_segment, tcp_parse}

be16_back : (v : ℕ) → v < 2 ^ 16 → v / 256 % 256 * 256 + v % 256 ≡ v
be16_back v h = omega arith

be32_back :
    (v : ℕ)
    → v < 2 ^ 32
    → ((v / 2 ^ 24 % 256 * 256 + v / 2 ^ 16 % 256) * 256 + v / 256 % 256) * 256 + v % 256 ≡ v
be32_back v h = omega arith

-- `tcp_parse` gives back the ports, the sequence number, the flags and the data of a segment that
-- `tcp_send_seg` built, whatever its address and its acknowledgement.
pub tcp_parse-tcp_segment :
    (dst_ip : List ℕ) (src_port dst_port seq ack flags : ℕ) (payload : List ℕ)
    → src_port < 2 ^ 16
    → dst_port < 2 ^ 16
    → seq < 2 ^ 32
    → tcp_parse (tcp_segment dst_ip src_port dst_port seq ack flags payload)
      ≡ some (src_port, dst_port, seq, flags, payload)
unfolding tcp_parse tcp_segment splice
tcp_parse-tcp_segment dst_ip src_port dst_port seq ack flags payload hs hd hq =
    rw (be16_back src_port hs, be16_back dst_port hd, be32_back seq hq) (ground arith)
